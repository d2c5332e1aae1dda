-- ===== src/EasyBf3/Accounts.antt =====
-- The machines of EasyBackfilling3: each is free or held by exactly one scheduled job.
use mathlib.Core.List.Perm
use schedule_test.Base.{
  bit, ℕ, ◌+◌, ◌≤◌, ◌≡◌, refl, subst, List, [], ◌∷◌, some, Bool, true, All, All-append, arith,
  Bool-cases, Option-cases, inl, inr, ◌==◌, ==_iff, ltb, sum_of, sum_of-append, sum_of-perm,
  All-perm,
}
use schedule_test.Intervals.Interface.{Intervals, IntervalLaws}
use schedule_test.Workload.{Job}
use schedule_test.EasyBf3.{
  ScheduledJob, State, on_simulation_start, find_scheduled, erase_scheduled, handle_finished_job,
  handle_scheduled_job, sort_schedule,
}
use schedule_test.EasyBf3.Heap.Sorts.{sort_max_heap-sorts}

module _ (I : Intervals) where
  -- The machines that the jobs asked for.
  abbrev pub requested : List (ScheduledJob I) → ℕ
  requested = sum_of (λ sj. sj.requested_resources)

  -- How many of the jobs hold the machine.
  abbrev pub holders : ℕ → List (ScheduledJob I) → ℕ
  holders i = sum_of (λ sj. bit (I.contains sj.allocated_machines i))

  abbrev pub is_sized : ScheduledJob I → Bool
  is_sized sj = I.size sj.allocated_machines == sj.requested_resources

  abbrev pub Core : State I → Type 0
  Core s = record {
    counted : I.size s.available_machines ≡ s.nb_available_machines;
    balanced : s.nb_available_machines + requested s.scheduled_jobs ≡ s.nb_machines;
    sized : All (λ sj. is_sized sj ≡ true) s.scheduled_jobs;
    placed :
        (i : ℕ)
        → bit (I.contains s.available_machines i) + holders i s.scheduled_jobs
          ≡ bit (ltb i s.nb_machines);
  }

  sum-erase_scheduled :
      (f : ScheduledJob I → ℕ) (id : ℕ) (sjs : List (ScheduledJob I)) (sj : ScheduledJob I)
      → find_scheduled I id sjs ≡ some sj
      → sum_of f sjs ≡ f sj + sum_of f (erase_scheduled I id sjs)
  unfolding sum_of find_scheduled erase_scheduled
  sum-erase_scheduled f id [] sj e = cc
  sum-erase_scheduled f id (x ∷ xs) sj e = elim (Bool-cases (x.id == id)) [
    | inl hit ↦ let same : x ≡ sj = ground arith in rw hit (rw same refl)
    | inr miss ↦ rw miss (omega (arith, sum-erase_scheduled f id xs sj (rw miss at e)))
  ]

  All-erase_scheduled :
      (P : ScheduledJob I → Type 0) (id : ℕ) (sjs : List (ScheduledJob I)) (sj : ScheduledJob I)
      → find_scheduled I id sjs ≡ some sj
      → All P sjs
      → P sj × All P (erase_scheduled I id sjs)
  unfolding find_scheduled erase_scheduled
  All-erase_scheduled P id [] sj e h = cc
  All-erase_scheduled P id (x ∷ xs) sj e h = elim (Bool-cases (x.id == id)) [
    | inl hit ↦ let same : x ≡ sj = ground arith in rw hit (subst P same (h.0), h.1)
    | inr miss ↦
        let (here, rest) = All-erase_scheduled P id xs sj (rw miss at e) (h.1) in
        rw miss (here, (h.0, rest))
  ]

  pub sort_schedule-Core : (s : State I) → Core s → Core (sort_schedule I s)
  unfolding sort_schedule
  sort_schedule-Core s c =
      let p =
        (sort_max_heap-sorts (λ (sj : ScheduledJob I). sj.est_finish_time) s.scheduled_jobs).1 in
      record {
        counted = c.counted;
        balanced =
            omega
              (arith, c.balanced, sum_of-perm (λ (sj : ScheduledJob I). sj.requested_resources) p);
        sized = All-perm is_sized (Perm.symm p) c.sized;
        placed = λ i. omega (
          arith,
          c.placed i,
          sum_of-perm (λ (sj : ScheduledJob I). bit (I.contains sj.allocated_machines i)) p,
        );
      }

module _ (I : Intervals) (L : IntervalLaws I) where
  pub on_simulation_start-Core : (n : ℕ) → Core I (on_simulation_start I n)
  unfolding on_simulation_start sum_of
  on_simulation_start-Core n = record {
    counted = L.size-first n;
    balanced = omega arith;
    sized = tt;
    placed = λ i. ground (arith, L.contains-first n i);
  }

  pub handle_scheduled_job-Core :
      (date : ℕ) (s : State I) (j : Job)
      → j.nb_requested_resources ≤ s.nb_available_machines
      → Core I s
      → Core I ((handle_scheduled_job I date s j).0)
  unfolding handle_scheduled_job sum_of
  handle_scheduled_job-Core date s j fits c =
      let n = j.nb_requested_resources in
      let free = s.available_machines in
      let m = I.left free n in
      let sj : ScheduledJob I = (handle_scheduled_job I date s j).1 in
      let sub = L.left-Subset free n in
      let size : I.size m ≡ n = L.size-left free n (omega (arith, c.counted)) in
      record {
        counted = omega (arith, L.size-remove free m sub, c.counted);
        balanced = omega (
          arith,
          c.balanced,
          sum_of-append (λ (x : ScheduledJob I). x.requested_resources) s.scheduled_jobs (sj ∷ []),
        );
        sized =
            All-append (λ x. is_sized I x ≡ true) s.scheduled_jobs (sj ∷ []) c.sized
              ((==_iff (I.size m) n).1 size, tt);
        placed = λ i. ground (
          arith,
          c.placed i,
          sub i,
          L.contains-remove free m i,
          sum_of-append (λ (x : ScheduledJob I). bit (I.contains x.allocated_machines i))
              s.scheduled_jobs (sj ∷ []),
        );
      }

  pub handle_finished_job-Core :
      (s : State I) (id : ℕ) → Core I s → Core I (handle_finished_job I s id)
  unfolding handle_finished_job
  handle_finished_job-Core s id c = elim (Option-cases (find_scheduled I id s.scheduled_jobs)) [
    | inl absent ↦ rw (absent, handle_finished_job) c
    | inr (sj, e) ↦
        let m = sj.allocated_machines in
        let (size, sized) =
          All-erase_scheduled I (λ x. is_sized I x ≡ true) id s.scheduled_jobs sj e c.sized in
        let held = λ (i : ℕ).
          sum-erase_scheduled I (λ x. bit (I.contains x.allocated_machines i)) id s.scheduled_jobs
            sj e in
        rw (e, handle_finished_job)
          (record {
            counted = omega (
              arith,
              L.size-insert s.available_machines m (λ i h. ground (arith, c.placed i, held i)),
              c.counted,
              (==_iff (I.size m) sj.requested_resources).0 size,
            );
            balanced = omega (
              arith,
              c.balanced,
              sum-erase_scheduled I (λ x. x.requested_resources) id s.scheduled_jobs sj e,
            );
            sized = sized;
            placed =
                λ i. ground (arith, c.placed i, held i, L.contains-insert s.available_machines m i);
          })
  ]
