-- ===== src/EasyBf/Replanning.antt =====
-- easy_bf.cpp: the priority job is taken out of the schedule and planned again.
use schedule_test.Base.{
  true, if◌then◌else◌, ℕ, ◌+◌, ◌≤◌, ◌≡◌, refl, List, ◌∷◌, Option, none, some, Bool, false, arith,
  ◌==◌, Bool-cases, inl, inr, Returns, Returns-bind, subst, Returns-weaken, ==_iff,
}
use schedule_test.Intervals.Interface.{Intervals, IntervalLaws}
use schedule_test.Workload.{Job}
use schedule_test.Locality.{basic}
use schedule_test.Queue.{SortableJob, first_job_or_nullptr}
use schedule_test.Queue.Entries.{Each}
use schedule_test.Queue.Distinct.{Distinct}
use schedule_test.Schedule.{Schedule, contains_job, remove_job}
use schedule_test.Schedule.Leaving.{Removed, remove_job-Removed}
use schedule_test.EasyBf.{State, insert, send_execute, remove_if_contained, replan_priority_job}
use schedule_test.EasyBf.Planning.{Fits, Plan, Puts, insert-Puts}
use schedule_test.EasyBf.Keeping.{Plan-frees, Plan-starts, Plan-reserves}
use schedule_test.EasyBf.Start.{
  Waits, Unplanned, Undisturbed, Contained, Served, Served-first, Ordered, Unplanned-others,
  Waits-others,
}
use schedule_test.EasyBf.Sorting.{Cleared, Waits-out, Plan-nothing}

-- The state with another queue.
abbrev pub with_queue : {I : Intervals} → State I → List SortableJob → State I
with_queue s qs = record s { queue = qs }

module _ (I : Intervals) (L : IntervalLaws I) (second n longest h date : ℕ)
    (upto : date + (longest + longest + longest) ≤ h) where
  pub remove_if_contained-Cleared :
      (k : Job) (qs : List SortableJob) (s : Schedule I)
      → Plan I n longest h date (some k) s
      → Each (Waits I (some k) s) qs
      → Returns
          (Cleared I L second n longest h date (some k) qs s)
          (remove_if_contained I (basic I L) second k s)
  unfolding remove_if_contained
  remove_if_contained-Cleared k qs s plan waits = elim (Bool-cases (contains_job I k.id s)) [
    | inr new ↦ rw new (
      Plan-nothing I n longest h date k s new plan,
      Waits-out I n longest h date k s s qs
          (λ id. elim (Bool-cases (k.id == id)) [
            | inl its ↦
                let out = subst (λ i. contains_job I i s ≡ false) ((==_iff k.id id).0 its) new in
                ground (arith, out)
            | inr other ↦ rw other refl
          ])
          waits,
      λ id apart d i. refl,
    )
    | inl there ↦
        let (a, planned) = plan.sound in
        rw there (
          Returns-weaken (Removed I date a k s) (Cleared I L second n longest h date (some k) qs s)
            (remove_job I second k s)
            (λ t gone. (
              Plan-frees I n longest h date k s t a gone k (ground arith) plan,
              Waits-out I n longest h date k s t qs gone.contains waits,
              λ id apart d i. ground (arith, gone.held id d i),
            ))
            (remove_job-Removed I L second date a k s planned there))
  ]

  -- Where nothing is reserved, there is as much room as the plan asks for.
  Plan-first :
      (o : Option Job) (s : Schedule I)
      → Plan I n longest h date none s
      → Plan I n longest h date o s
  Plan-first none s plan = plan
  Plan-first (some k) s plan = record {
    sound = plan.sound;
    lasting = plan.lasting;
    soon = λ d i from below low. ground (arith, plan.soon d i from below low);
    then_free = plan.then_free;
  }

  -- The priority job has started, and the others are ahead; or it is planned, and stays.
  abbrev pub Replanned : SortableJob → List SortableJob → (s : State I) → State I × Bool → Type 0
  Replanned q qs s (u, started) =
      Ordered I n longest h date (with_queue u (if started then qs else q ∷ qs))
      × (u.nb_machines ≡ s.nb_machines)
      × ((id : ℕ) → (q.job.id == id) ≡ false → Undisturbed I id s.schedule u.schedule)
      × Contained I (if started then none else some q.job) u.schedule
      × ((k : Job)
          → Served I k (q ∷ qs) s.decisions
          → Served I k (if started then qs else q ∷ qs) u.decisions)

  pub replan_priority_job-Replanned :
      (q : SortableJob) (qs : List SortableJob) (s : State I)
      → Plan I n longest h date none s.schedule
      → Each (Fits n longest) (q ∷ qs)
      → Distinct (q ∷ qs)
      → Each (Unplanned I s.schedule) (q ∷ qs)
      → Returns (Replanned q qs s) (replan_priority_job I (basic I L) second date s q.job)
  unfolding replan_priority_job send_execute first_job_or_nullptr
  replan_priority_job-Replanned q qs s plan fits distinct unplanned =
      Returns-bind (Puts I date (date + longest) q.job s.schedule) (Replanned q qs s)
        (insert I (basic I L) second q.job s.schedule) _
        (insert-Puts I L second n longest h date none q.job s.schedule (date + longest) plan
          (unplanned.0) (fits.0) (omega arith) plan.soon (omega arith))
        (λ (t, alloc) (a, r, early, same).
          let rest = Unplanned-others q.job s.schedule t qs r.contains (distinct.0) (unplanned.1) in
          let others : (id : ℕ) → (q.job.id == id) ≡ false → Undisturbed I id s.schedule t =
            λ id differ d i. ground (arith, r.held id d i) in
          elim (Bool-cases alloc.started_in_first_slice) [
            | inl now ↦
                let plan' =
                  Plan-starts I n longest h date q.job s.schedule t alloc a r none plan (fits.0) tt
                    (ground (arith, r.started)) same in
                rw now (
                  record {
                    plan = Plan-first (first_job_or_nullptr qs) t plan';
                    fits = fits.1;
                    distinct = distinct.1;
                    waits = Waits-others (first_job_or_nullptr qs) t qs rest;
                  },
                  refl,
                  others,
                  tt,
                  λ k served. Served-first I k q qs alloc.used_machines date s.decisions served,
                )
            | inr not_now ↦ rw not_now (
              record {
                plan =
                    Plan-reserves I n longest h date q.job s.schedule t alloc a r plan (fits.0)
                      early same;
                fits = fits;
                distinct = distinct;
                waits =
                    (λ other. absurd (ground (arith, other)), Waits-others (some q.job) t qs rest);
              },
              refl,
              others,
              (let own : (q.job.id == q.job.id) ≡ true = ground arith in
                  ground (arith, r.contains q.job.id, own)),
              λ k served. served,
            )
          ])
