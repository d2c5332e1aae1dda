-- ===== src/EasyBf3/Ascending.antt =====
-- Schedules in ascending order of expected ends, entry by entry, and what the loop of
-- `check_priority_job` finds in them.
use schedule_test.Base.{
  ℕ, suc, ◌+◌, ◌-◌, ◌≤◌, ◌<◌, ◌≡◌, refl, sym, subst, Option, List, [], ◌∷◌, arith, leb, ◌==◌,
  if◌then◌else◌, length, sum_of, Bool-cases, inl, inr,
}
use schedule_test.Intervals.Interface.{Intervals}
use schedule_test.Workload.{Job}
use schedule_test.EasyBf3.{
  PriorityJob, ScheduledJob, State, erase_scheduled, reserve, sort_schedule,
}
use schedule_test.EasyBf3.Accounts.{requested}
use schedule_test.EasyBf3.Vector.{time}
use schedule_test.EasyBf3.Heap.Sorts.{IsAscending, sort_max_heap-sorts}

module _ (I : Intervals) where
  -- Expected ends ascend, and none is before `d`.
  abbrev pub AscendingFrom : ℕ → List (ScheduledJob I) → Type 0
  AscendingFrom d [] = Unit {0}
  AscendingFrom d (sj ∷ sjs) = (d ≤ sj.est_finish_time) × AscendingFrom sj.est_finish_time sjs

  -- The machines of the jobs expected to end at a date or before.
  unfoldable pub released_by : ℕ → List (ScheduledJob I) → ℕ
  released_by t = sum_of (λ sj. if leb sj.est_finish_time t then sj.requested_resources else 0)

  AscendingFrom-of_IsAscending :
      (d : ℕ) (sjs : List (ScheduledJob I))
      → IsAscending (λ (sj : ScheduledJob I). sj.est_finish_time) sjs
      → (0 < length sjs → d ≤ time (λ (sj : ScheduledJob I). sj.est_finish_time) sjs 0)
      → AscendingFrom d sjs
  unfolding time
  AscendingFrom-of_IsAscending d [] up low = tt
  AscendingFrom-of_IsAscending d (sj ∷ sjs) up low = (
    low (omega arith),
    AscendingFrom-of_IsAscending sj.est_finish_time sjs
        (λ a b h hb. up (suc a) (suc b) (omega arith) (omega arith))
        λ h. up 0 1 (omega arith) (omega arith),
  )

  AscendingFrom-mono :
      (c d : ℕ) (sjs : List (ScheduledJob I)) → c ≤ d → AscendingFrom d sjs → AscendingFrom c sjs
  AscendingFrom-mono c d [] h up = tt
  AscendingFrom-mono c d (sj ∷ sjs) h up = (omega arith, up.1)

  pub erase-AscendingFrom :
      (id d : ℕ) (sjs : List (ScheduledJob I))
      → AscendingFrom d sjs
      → AscendingFrom d (erase_scheduled I id sjs)
  unfolding erase_scheduled
  erase-AscendingFrom id d [] up = tt
  erase-AscendingFrom id d (sj ∷ sjs) up = elim (Bool-cases (sj.id == id)) [
    | inl hit ↦ rw hit (AscendingFrom-mono d sj.est_finish_time sjs (up.0) (up.1))
    | inr miss ↦ rw miss (up.0, erase-AscendingFrom id sj.est_finish_time sjs (up.1))
  ]

  pub sort_schedule-AscendingFrom :
      (s : State I) → AscendingFrom 0 (sort_schedule I s).scheduled_jobs
  unfolding sort_schedule
  sort_schedule-AscendingFrom s =
      AscendingFrom-of_IsAscending 0 _
        (sort_max_heap-sorts (λ (sj : ScheduledJob I). sj.est_finish_time) s.scheduled_jobs).0
        λ h. omega arith

  -- A reservation for the job not before `d`: by its date enough machines are free, those counted as
  -- extra included, and its end is a walltime later.
  abbrev pub Reservation :
      (count d : ℕ) → Option ℕ → Job → List (ScheduledJob I) → PriorityJob → Type 0
  Reservation count d id j sjs r =
      (r.id ≡ id)
      × (d ≤ r.shadow_time)
      × (j.nb_requested_resources + r.extra_resources ≤ count + released_by r.shadow_time sjs)
      × (r.est_finish_time ≡ r.shadow_time + j.walltime)

  -- The loop finds one.
  pub reserve-Reservation :
      (count d : ℕ) (p : PriorityJob) (j : Job) (sjs : List (ScheduledJob I))
      → AscendingFrom d sjs
      → p.requested_resources ≡ j.nb_requested_resources
      → count < j.nb_requested_resources
      → j.nb_requested_resources ≤ count + requested I sjs
      → Reservation count d p.id j sjs (reserve I count p j sjs)
  unfolding reserve released_by sum_of
  reserve-Reservation count d p j [] up size lack enough = absurd (omega arith)
  reserve-Reservation count d p j (sj ∷ sjs) up size lack enough =
      let more = count + sj.requested_resources in
      elim (Bool-cases (leb p.requested_resources more)) [
        | inl here ↦
            let r = record p {
              shadow_time = sj.est_finish_time;
              est_finish_time = sj.est_finish_time + j.walltime;
              extra_resources = more - j.nb_requested_resources;
            } in
            let found : reserve I count p j (sj ∷ sjs) ≡ r = rw here refl in
            subst (Reservation count d p.id j (sj ∷ sjs)) (sym found)
              (refl, up.0, ground arith, refl)
        | inr later ↦
            let r = reserve I more p j sjs in
            let (same, after, free, end) =
              reserve-Reservation more sj.est_finish_time p j sjs (up.1) size (ground arith)
                (omega arith) in
            let found : reserve I count p j (sj ∷ sjs) ≡ r = rw later refl in
            subst (Reservation count d p.id j (sj ∷ sjs)) (sym found)
              (same, omega arith, ground (arith, free, after), end)
      ]
