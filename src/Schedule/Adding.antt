-- ===== src/Schedule/Adding.antt =====
-- schedule.cpp, add_job_first_fit: what it does to the schedule.
use schedule_test.Base.{
  ◌≤◌, subst, Bool-cases, ℕ, ==_iff, ◌||◌, ◌+◌, ◌<◌, ◌≡◌, refl, ◌∙◌, Option, none, some, true,
  false, arith, ltb, ◌==◌, ◌&&◌, not, if◌then◌else◌, Option-cases, inl, inr, ◌⊎◌, lookup, put,
  lookup-put, Returns, ok, suc_ℤ, sum_of,
}
use schedule_test.Intervals.Interface.{Intervals, IntervalLaws}
use schedule_test.Workload.{Job}
use schedule_test.Locality.{Selector}
use schedule_test.Schedule.{
  new_schedule, JobAlloc, Schedule, with_fit, alloc_of, infinity, add_job_first_fit,
  add_job_first_fit_after_time_slice, contains_job, infinite_horizon,
}
use schedule_test.Schedule.State.{
  Early-chain, horizon-eq, contains_job-Absent, contains_job-there, contains_job-alike,
  set_lengths-keeps,
}
use schedule_test.Schedule.View.Follows.{Together-all}
use schedule_test.Schedule.View.{
  within, free_at, held_at, covered, ChainFrom, AllBalanced, Absent, Together,
}
use schedule_test.Schedule.Removing.{find_first_occurence_of_job}
use schedule_test.Schedule.Placing.{Fit, first_fit, with_walltime}
use schedule_test.Schedule.Placing.Places.{Places, first_fit-Places}
use schedule_test.Schedule.JobMap.{has_job}
use schedule_test.Schedule.JobMap.Laws.{assign}

module _ (I : Intervals) where
  -- The invariant of a schedule that begins at `c`, in which `a` assigns the machines to the jobs:
  -- the slices follow one another, each is balanced, and those of each job are consecutive.
  abbrev pub Planned : (c : ℕ) → (a : ℕ → I.Machines) → Schedule I → Type 0
  Planned c a s =
      ChainFrom I c s.profile
      × AllBalanced I s.nb_machines s.repair_machines a s.profile
      × ((id : ℕ) → Together I id s.profile)

  -- From the schedule `s` to `t`: the job is planned on machines that were free all the time from its
  -- begin for its walltime; nothing else is free or held that was not before. The invariant holds,
  -- and the allocation is recorded.
  abbrev pub Added : (c : ℕ) → (a : ℕ → I.Machines) → Job → (s t : Schedule I) → JobAlloc I → Type 0
  Added c a j s t alloc = record {
    planned : Planned c (assign a j.id alloc.used_machines) t;
    walltime : alloc.job ≡ with_walltime I (infinite_horizon I s) alloc.begin j;
    size : I.size alloc.used_machines ≡ j.nb_requested_resources;
    room :
        (d i : ℕ)
        → (within alloc.begin (alloc.begin + alloc.job.walltime) d
            && I.contains alloc.used_machines i
            && not (free_at I d i s.profile))
          ≡ false;
    free :
        (d i : ℕ)
        → free_at I d i t.profile ≡ (
            free_at I d i s.profile
            && not (
                within alloc.begin (alloc.begin + alloc.job.walltime) d
                && I.contains alloc.used_machines i));
    held :
        (id d i : ℕ)
        → held_at I id d i t.profile ≡ (
            if j.id == id
            then within alloc.begin (alloc.begin + alloc.job.walltime) d
              && I.contains alloc.used_machines i
            else held_at I id d i s.profile);
    contains : (id : ℕ) → contains_job I id t ≡ (j.id == id || contains_job I id s);
    cover : (d : ℕ) → covered I d t.profile ≡ covered I d s.profile;
    late : c ≤ alloc.begin;
    started : alloc.started_in_first_slice ≡ (alloc.begin == c);
    recorded : lookup alloc.begin (t.allocations j.id) ≡ some alloc;
    counted : t.size ≡ suc_ℤ s.size;
    kept : (t.nb_machines ≡ s.nb_machines) × (t.repair_machines ≡ s.repair_machines);
  }

  -- Either the job is planned, or nothing changes.
  abbrev pub AddedOrNot :
      (c : ℕ) → (a : ℕ → I.Machines) → Job → Schedule I → Schedule I × Option (JobAlloc I) → Type 0
  AddedOrNot c a j s (t, none) = t ≡ s
  AddedOrNot c a j s (t, some alloc) = Added c a j s t alloc

module _ (I : Intervals) (L : IntervalLaws I) where
  -- A new schedule of some machines that begins before the horizon has the invariant, under any
  -- assignment of machines to jobs, and no job is in it; its machines, and no others, are free from the
  -- initial time to the horizon.
  pub new_schedule-Planned :
      (second n initial_time : ℕ) (a : ℕ → I.Machines)
      → 0 < n
      → initial_time < infinity second
      → Returns
          (λ s.
            Planned I initial_time a s
            × ((id : ℕ) → contains_job I id s ≡ false)
            × ((d i : ℕ)
                → free_at I d i s.profile ≡ (within initial_time (infinity second) d && ltb i n)))
          (new_schedule I second n initial_time)
  unfolding new_schedule contains_job find_first_occurence_of_job free_at has_job sum_of
  new_schedule-Planned second n initial_time a some_machines later =
      let positive : ltb 0 n ≡ true = ground arith in
      rw positive (
        (
          (refl, later, omega arith, tt),
          (
            record {
              counted = L.size-first n;
              placed = λ i. ground (arith, L.contains-first n i, L.contains-empty i);
              allocated = λ i. ground (arith, L.contains-empty i);
              assigned = tt;
              unique = tt;
            },
            tt,
          ),
          λ id. inr (refl, tt),
        ),
        (λ id. refl),
        λ d i. ground (arith, L.contains-first n i),
      )

module _ (I : Intervals) (selector : Selector I) (second : ℕ) (j : Job) (s : Schedule I) where
  -- From the first slice on, the job is planned where the scan finds a place, or not at all.
  pub from_start :
      ((first_fit I selector (infinite_horizon I s) j s.profile ≡ none)
        × (add_job_first_fit_after_time_slice I second selector j 0 false s ≡ ok (s, none)))
      ⊎ ((f : Fit I) × (first_fit I selector (infinite_horizon I s) j s.profile ≡ some f)
          × (add_job_first_fit_after_time_slice I second selector j 0 false s
              ≡ ok (with_fit I second 0 j f s, some (alloc_of I 0 f))))
  unfolding add_job_first_fit_after_time_slice
  from_start = elim (Option-cases (first_fit I selector (infinite_horizon I s) j s.profile)) [
    | inl fails ↦ inl (fails, rw (fails, add_job_first_fit_after_time_slice) refl)
    | inr (f, found) ↦ inr (f, found, rw (found, add_job_first_fit_after_time_slice) refl)
  ]

  -- Either a new job is not planned, or it is planned alike when the demand that it is planned is made.
  pub add_job_first_fit-asserted :
      contains_job I j.id s ≡ false
      → (add_job_first_fit I second selector j false s ≡ ok (s, none))
        ⊎ ((t : Schedule I) × (alloc : JobAlloc I) × (add_job_first_fit I second selector j false s
              ≡ ok (t, some alloc))
            × (add_job_first_fit I second selector j true s ≡ ok (t, some alloc)))
  unfolding add_job_first_fit add_job_first_fit_after_time_slice
  add_job_first_fit-asserted new =
      elim (Option-cases (first_fit I selector (infinite_horizon I s) j s.profile)) [
        | inl fails ↦ inl (rw (new, fails, add_job_first_fit_after_time_slice) refl)
        | inr (f, found) ↦ inr (
          with_fit I second 0 j f s,
          alloc_of I 0 f,
          rw (new, found, add_job_first_fit_after_time_slice) refl,
          rw (new, found, add_job_first_fit_after_time_slice) refl,
        )
      ]

module _ (I : Intervals) (L : IntervalLaws I) (selector : Selector I) (second c : ℕ)
    (a : ℕ → I.Machines) (j : Job) (s : Schedule I) where
  with_fit-Added :
      (f : Fit I)
      → Places I L selector s.nb_machines s.repair_machines a j (infinite_horizon I s) c s.profile f
      → ((id : ℕ) → Together I id s.profile)
      → Added I c a j s (with_fit I second 0 j f s) (alloc_of I 0 f)
  unfolding with_fit alloc_of
  with_fit-Added f p near =
      let base : Schedule I = record s {
        profile = f.slices;
        size = suc_ℤ s.size;
        nb_jobs_size = suc_ℤ s.nb_jobs_size;
        allocations = λ id.
            if id == j.id
            then put f.begin (alloc_of I 0 f) (s.allocations id)
            else s.allocations id;
      } in
      let own : (j.id == j.id) ≡ true = ground arith in
      let start : (f.begin == f.begin) ≡ true = ground arith in
      set_lengths-keeps I (λ t. Added I c a j s t (alloc_of I 0 f)) second f.lengths base
        (λ x y. record {
          planned = (
            p.took.chain,
            p.took.balanced,
            Together-all I j.id s.profile f.slices p.took.follows p.took.together near,
          );
          walltime = p.same_job;
          size = p.size;
          room = λ d i. ground (arith, p.took.room d i);
          free = p.took.free;
          held = p.took.held;
          contains = λ id. elim (Bool-cases (j.id == id)) [
            | inl its ↦ rw its (
                contains_job-there I id _
                  (subst (λ k. ¬ Absent I k f.slices) ((==_iff j.id id).0 its) p.took.there))
            | inr other ↦
                let follows = p.took.follows id other in
                rw other (contains_job-alike I id s _ follows.absent follows.back)
          ];
          cover = p.took.cover;
          late = p.took.late;
          started = ground (arith, p.starts);
          recorded =
              rw own
                (lookup-put f.begin f.begin (alloc_of I 0 f) (s.allocations j.id) ∙ rw start refl);
          counted = refl;
          kept = (refl, refl);
        })

  from_start-Added :
      Planned I c a s
      → Absent I j.id s.profile
      → (j.has_walltime ≡ true → 0 < j.walltime)
      → Returns
          (AddedOrNot I c a j s)
          (add_job_first_fit_after_time_slice I second selector j 0 false s)
  from_start-Added (chain, v, near) new lasts =
      let horizon = infinite_horizon I s in
      let scan =
        first_fit-Places I L selector s.nb_machines s.repair_machines a j horizon c s.profile chain
          v new lasts (Early-chain I c s.profile horizon chain (omega (arith, horizon-eq I s))) in
      elim (from_start I selector second j s) [
        | inl (fails, stays) ↦ rw stays refl
        | inr (f, found, adds) ↦ rw adds (with_fit-Added f (rw found at scan) near)
      ]

  -- add_job_first_fit of a job that is not in the schedule and, if it has a walltime, lasts some time,
  -- without the demand that it succeeds: it ends without a fault. Either nothing changes, or the job
  -- is planned from one date for its walltime (for one without, up to the horizon) on as many
  -- machines as it asks for. These were free all that time; then the job holds them, nothing else is
  -- free or held that was not before, the invariant holds and the allocation is recorded.
  pub add_job_first_fit-Added :
      Planned I c a s
      → contains_job I j.id s ≡ false
      → (j.has_walltime ≡ true → 0 < j.walltime)
      → Returns (AddedOrNot I c a j s) (add_job_first_fit I second selector j false s)
  unfolding add_job_first_fit
  add_job_first_fit-Added planned new lasts =
      rw new (from_start-Added planned (contains_job-Absent I j.id s new) lasts)
