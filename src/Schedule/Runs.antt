-- ===== src/Schedule/Runs.antt =====
-- The schedules that operations of the class can produce, in any order. Left out are
-- add_job_first_fit_after_time, add_job_first_fit_after_time_slice, and machines that go into repair while
-- a job is allocated them.
use schedule_test.Base.{
  ℕ, ◌≤◌, ◌<◌, ◌≡◌, sym, subst, ◌∙◌, List, [], ◌∷◌, Option, none, some, true, false, All, arith,
  ltb, leb, ◌==◌, ◌&&◌, bit, Bool-cases, Option-cases, inl, inr, ok, Returns, Result,
}
use schedule_test.Intervals.Interface.{Intervals, IntervalLaws}
use schedule_test.Workload.{Job}
use schedule_test.Locality.{Selector}
use schedule_test.Schedule.{
  Schedule, JobAlloc, infinity, new_schedule, add_job_first_fit, remove_job, contains_job,
  infinite_horizon,
}
use schedule_test.Schedule.JobMap.{find_job, erase_job}
use schedule_test.Schedule.JobMap.Laws.{sum-erase_job, assign}
use schedule_test.Schedule.JobMap.Unique.{find-erase_job}
use schedule_test.Schedule.Slices.{TimeSlice}
use schedule_test.Schedule.Slices.Account.{holds-find, holds-absent}
use schedule_test.Schedule.View.{holds, free_at, held_at, Balanced, AllBalanced}
use schedule_test.Schedule.Adding.{
  Planned, Added, AddedOrNot, new_schedule-Planned, add_job_first_fit-Added,
}
use schedule_test.Schedule.Leaving.{Removed, remove_job-Removed}
use schedule_test.Schedule.Repair.{add_repair_machine, remove_repair_machines}
use schedule_test.Schedule.Repair.Account.{Unallocated}
use schedule_test.Schedule.Repair.Effect.{add_repair_machine-Frees, remove_repair_machines-Frees}
use schedule_test.Schedule.Updating.{update_first_slice, update_first_slice_removing_remaining_jobs}
use schedule_test.Schedule.Updating.Forgets.{
  Forgotten, update_first_slice-Forgotten, update_first_slice_removing_remaining_jobs-Forgotten,
}

-- What holds of the value of a run holds of the value that it is known to return.
pub Returns-ok : {A : Type 0} (P : A → Type 0) (r : Result A) (x : A) → Returns P r → r ≡ ok x → P x
Returns-ok P r x h e = subst (Returns P) e h

module _ (I : Intervals) (n : ℕ) (repair : I.Machines) (a : ℕ → I.Machines) where
  -- In a slice, a machine that a job holds is neither free nor held by another job.
  holds-alone :
      (id other i : ℕ) (t : TimeSlice I)
      → Balanced I n repair a t
      → (id == other) ≡ false
      → holds I id i t ≡ true
      → (holds I other i t ≡ false) × (I.contains t.available_machines i ≡ false)
  holds-alone id other i t v differ has =
      let f = λ (x : I.Machines). bit (I.contains x i) in
      elim (Option-cases (find_job id t.allocated_jobs)) [
        | inl lacks ↦ absurd (cc (holds-absent I id i t lacks))
        | inr (m, found) ↦
            let its = holds-find I id i m t found in
            let rest = erase_job id t.allocated_jobs in
            let part = sum-erase_job f id m t.allocated_jobs found in
            elim (Option-cases (find_job other t.allocated_jobs)) [
              | inl lacks ↦ (holds-absent I other i t lacks, ground (arith, v.placed i, part, its))
              | inr (k, there) ↦
                  let kept : find_job other rest ≡ some k =
                    find-erase_job id other t.allocated_jobs v.unique ∙ rw differ there in
                  ground (
                    arith,
                    v.placed i,
                    part,
                    its,
                    sum-erase_job f other k rest kept,
                    holds-find I other i k t there,
                  )
            ]
      ]

  pub held_at-alone :
      (id other d i : ℕ) (ts : List (TimeSlice I))
      → AllBalanced I n repair a ts
      → (id == other) ≡ false
      → held_at I id d i ts ≡ true
      → (held_at I other d i ts ≡ false) × (free_at I d i ts ≡ false)
  unfolding held_at free_at
  held_at-alone id other d i [] v differ has = cc has
  held_at-alone id other d i (t ∷ ts) v differ has = elim (Bool-cases (ltb d t.end)) [
    | inr later ↦ rw later (held_at-alone id other d i ts (v.1) differ (rw later at has))
    | inl here ↦
        let within_it : (leb t.begin d && holds I id i t) ≡ true = (rw here at has) in
        let alone = holds-alone id other i t (v.0) differ (ground arith) in
        rw here (ground (arith, alone.0), ground (arith, alone.1))
  ]

module _ (I : Intervals) (L : IntervalLaws I) (selector : Selector I) (second : ℕ) where
  -- A schedule that begins at the date: a new one, or one after an operation. A job is added by
  -- add_job_first_fit from the start, where it is not in the schedule, has a walltime that is not 0, and
  -- may find no place. A job that is removed is in the schedule. Time passes within the first slice, or up
  -- to the horizon. A machine goes into repair that no job is allocated, and any machines come back.
  pub data Reachable : ℕ → Schedule I → Type 0 where
    is_new :
        (n date : ℕ) (s : Schedule I)
        → 0 < n
        → date < infinity second
        → new_schedule I second n date ≡ ok s
        → Reachable date s
    adds :
        (date : ℕ) (s t : Schedule I) (j : Job) (placed : Option (JobAlloc I))
        → Reachable date s
        → contains_job I j.id s ≡ false
        → (j.has_walltime ≡ true → 0 < j.walltime)
        → add_job_first_fit I second selector j false s ≡ ok (t, placed)
        → Reachable date t
    removes :
        (date : ℕ) (s t : Schedule I) (j : Job)
        → Reachable date s
        → contains_job I j.id s ≡ true
        → remove_job I second j s ≡ ok t
        → Reachable date t
    passes :
        (date now : ℕ) (s t : Schedule I)
        → Reachable date s
        → date ≤ now
        → now < infinite_horizon I s
        → update_first_slice_removing_remaining_jobs I now s ≡ ok t
        → Reachable now t
    passes_in_first_slice :
        (date now epsilon : ℕ) (s t : Schedule I) (slice : TimeSlice I) (rest : List (TimeSlice I))
        → Reachable date s
        → s.profile ≡ slice ∷ rest
        → date ≤ now
        → now < slice.end
        → update_first_slice I epsilon now s ≡ ok t
        → Reachable now t
    breaks :
        (date : ℕ) (s : Schedule I) (machine : I.Machines)
        → Reachable date s
        → All (Unallocated I L s.nb_machines (λ id. I.empty) machine) s.profile
        → Reachable date ((add_repair_machine I machine s).0)
    is_repaired :
        (date : ℕ) (s : Schedule I) (machines : I.Machines)
        → Reachable date s
        → Reachable date ((remove_repair_machines I machines s).0)

  -- Every reachable schedule has the invariant.
  Reachable-Sound :
      (date : ℕ) (s : Schedule I) → Reachable date s → (a : ℕ → I.Machines) × Planned I date a s
  Reachable-Sound date s (is_new n date' s' some_machines early e) =
      let nobody : ℕ → I.Machines = λ id. I.empty in
      (
        nobody,
        (Returns-ok _ (new_schedule I second n date) s
            (new_schedule-Planned I L second n date nobody some_machines early) e).0,
      )
  Reachable-Sound date s (adds date' s0 t j none r new lasts e) =
      let (a, p) = Reachable-Sound date s0 r in
      let same : s ≡ s0 =
        Returns-ok (AddedOrNot I date a j s0) (add_job_first_fit I second selector j false s0)
          (s, none) (add_job_first_fit-Added I L selector second date a j s0 p new lasts) e in
      (a, subst (Planned I date a) (sym same) p)
  Reachable-Sound date s (adds date' s0 t j (some alloc) r new lasts e) =
      let (a, p) = Reachable-Sound date s0 r in
      let added : Added I date a j s0 s alloc =
        Returns-ok (AddedOrNot I date a j s0) (add_job_first_fit I second selector j false s0)
          (s, some alloc) (add_job_first_fit-Added I L selector second date a j s0 p new lasts) e in
      (assign a j.id alloc.used_machines, added.planned)
  Reachable-Sound date s (removes date' s0 t j r there e) =
      let (a, p) = Reachable-Sound date s0 r in
      (
        a,
        (Returns-ok (Removed I date a j s0) (remove_job I second j s0) s
            (remove_job-Removed I L second date a j s0 p there) e).planned,
      )
  Reachable-Sound date s (passes from now s0 t r later early e) =
      let (a, p) = Reachable-Sound from s0 r in
      (
        a,
        (Returns-ok (Forgotten I from a s0 date)
            (update_first_slice_removing_remaining_jobs I date s0) s
            (update_first_slice_removing_remaining_jobs-Forgotten I from a s0 date p later early)
            e).planned,
      )
  Reachable-Sound date s
        (passes_in_first_slice from now epsilon s0 t slice rest r is later inside e) =
      let (a, p) = Reachable-Sound from s0 r in
      (
        a,
        (Returns-ok (Forgotten I from a s0 date) (update_first_slice I epsilon date s0) s
            (update_first_slice-Forgotten I from a s0 date epsilon slice rest p is later inside)
            e).planned,
      )
  Reachable-Sound date s (breaks date' s0 machine r idle) =
      let (a, p) = Reachable-Sound date s0 r in
      (a, (add_repair_machine-Frees I L date a s0 machine p idle).planned)
  Reachable-Sound date s (is_repaired date' s0 machines r) =
      let (a, p) = Reachable-Sound date s0 r in
      (a, (remove_repair_machines-Frees I L date a s0 machines p).planned)

  -- In every schedule of `Reachable`, at every date, a machine that a job holds is not free, and no other
  -- job holds it.
  pub Reachable-exclusive :
      (date : ℕ) (s : Schedule I)
      → Reachable date s
      → (id other d i : ℕ) → (id == other) ≡ false
      → held_at I id d i s.profile ≡ true
      → (held_at I other d i s.profile ≡ false) × (free_at I d i s.profile ≡ false)
  Reachable-exclusive date s r id other d i differ has =
      let (a, p) = Reachable-Sound date s r in
      held_at-alone I s.nb_machines s.repair_machines a id other d i s.profile (p.1) differ has
