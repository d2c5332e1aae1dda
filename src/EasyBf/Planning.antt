-- ===== src/EasyBf/Planning.antt =====
-- easy_bf.cpp: what adding a job to the schedule, and removing one, does to the plan.
use schedule_test.Base.{
  ℕ, ◌+◌, ◌≤◌, ◌<◌, ◌≡◌, refl, ◌∙◌, ap, ◌-◌, Option, none, some, Bool, true, false, arith, ◌||◌,
  inl, inr, ok, Returns,
}
use schedule_test.Intervals.Interface.{Intervals, IntervalLaws}
use schedule_test.Workload.{Job}
use schedule_test.Locality.{Selector, basic}
use schedule_test.Schedule.{Schedule, JobAlloc, add_job_first_fit, contains_job, infinite_horizon}
use schedule_test.Schedule.Placing.{with_walltime}
use schedule_test.Schedule.Placing.Earliest.{FreeDuring}
use schedule_test.Schedule.View.{free_at, held_at, covered}
use schedule_test.Schedule.State.{covered-horizon}
use schedule_test.Schedule.Adding.{
  Planned, Added, add_job_first_fit-Added, add_job_first_fit-asserted,
}
use schedule_test.Schedule.Dates.{add_job_first_fit-earliest}
use schedule_test.EasyBf.{insert}

module _ (I : Intervals) where
  -- The machines that a job holds, if there is one.
  abbrev pub held_by : Option Job → Schedule I → (d i : ℕ) → Bool
  held_by none s d i = false
  held_by (some j) s d i = held_at I j.id d i s.profile

module _ (I : Intervals) (n h : ℕ) where
  -- From the date to `h`, each of `n` machines is free, unless the job holds it.
  abbrev pub Room : (date : ℕ) → Option Job → Schedule I → Type 0
  Room date o s =
      (d i : ℕ) → date ≤ d → d < h → i < n → (free_at I d i s.profile || held_by I o s d i) ≡ true

-- A job that the platform can hold, with a walltime of at most `longest`.
abbrev pub Fits : (n longest : ℕ) → Job → Type 0
Fits n longest j = record {
  sized : j.nb_requested_resources ≤ n;
  timed : j.has_walltime ≡ true;
  lasts : 0 < j.walltime;
  short : j.walltime ≤ longest;
}

module _ (I : Intervals) (n longest h : ℕ) where
  -- The schedule at the date `c`: it has its invariant and lasts to `h`. All that runs ends within the
  -- longest walltime, and what the priority job reserves ends within twice that.
  abbrev pub Plan : (c : ℕ) → (priority : Option Job) → Schedule I → Type 0
  Plan c priority s = record {
    sound : (a : ℕ → I.Machines) × Planned I c a s;
    lasting : (d : ℕ) → c ≤ d → d < h → covered I d s.profile ≡ true;
    soon : Room I n h (c + longest) priority s;
    then_free : Room I n h (c + (longest + longest)) none s;
  }

module _ (I : Intervals) where
  -- The job is put into the schedule.
  abbrev pub Puts : (c latest : ℕ) → Job → Schedule I → Schedule I × JobAlloc I → Type 0
  Puts c latest j s (t, alloc) =
      (a : ℕ → I.Machines) × Added I c a j s t alloc
      × (alloc.begin ≤ latest)
      × (alloc.job.walltime ≡ j.walltime)

  walltime_known :
      (horizon begin : ℕ) (j : Job) → j.has_walltime ≡ true → with_walltime I horizon begin j ≡ j
  unfolding with_walltime
  walltime_known horizon begin j has = rw has refl

module _ (I : Intervals) (selector : Selector I) (second : ℕ) (j : Job) (s : Schedule I) where
  insert-eq :
      (t : Schedule I) (alloc : JobAlloc I)
      → add_job_first_fit I second selector j true s ≡ ok (t, some alloc)
      → insert I selector second j s ≡ ok (t, alloc)
  unfolding insert
  insert-eq t alloc puts = rw puts refl

module _ (I : Intervals) (L : IntervalLaws I) (second n longest h c : ℕ) (priority : Option Job)
    (j : Job) (s : Schedule I) where
  free-Room :
      (date : ℕ)
      → Room I n h date none s
      → Fits n longest j
      → date + longest ≤ h
      → FreeDuring I
          (I.left (I.first n) j.nb_requested_resources)
          date
          (date + j.walltime)
          s.profile
  free-Room date room fits upto t i inside has =
      let sub = L.left-Subset (I.first n) j.nb_requested_resources i has in
      ground (arith, room t i, L.contains-first n i)

  -- A job that fits is planned, and not later than a date from which machines for it are free.
  pub insert-free :
      (latest : ℕ) (machines : I.Machines)
      → Plan I n longest h c priority s
      → contains_job I j.id s ≡ false
      → Fits n longest j
      → c ≤ latest
      → I.size machines ≡ j.nb_requested_resources
      → FreeDuring I machines latest (latest + j.walltime) s.profile
      → latest + longest ≤ h
      → Returns (Puts I c latest j s) (insert I (basic I L) second j s)
  insert-free latest machines plan new fits from size free upto =
      let (a, planned) = plan.sound in
      let adds =
        add_job_first_fit-Added I L (basic I L) second c a j s planned new (λ has. fits.lasts) in
      let lasting : h ≤ infinite_horizon I s = omega (
        arith,
        fits.lasts,
        fits.short,
        covered-horizon I c (h - 1) s planned.0 (
            plan.lasting (h - 1) (omega (arith, fits.lasts, fits.short))
              (omega (arith, fits.lasts, fits.short))),
      ) in
      let early =
        add_job_first_fit-earliest I L second c a j s planned new fits.timed fits.lasts latest
          machines from (omega (arith, fits.short)) size free in
      elim (add_job_first_fit-asserted I (basic I L) second j s new) [
        | inl fails ↦ absurd (rw fails at early)
        | inr (t, alloc, plans, puts) ↦
            let added : Added I c a j s t alloc = (rw plans at adds) in
            let same =
              ap (λ k. k.walltime)
                (added.walltime
                  ∙ walltime_known I (infinite_horizon I s) alloc.begin j fits.timed) in
            rw (insert-eq I (basic I L) second j s t alloc puts)
              (a, added, (rw plans at early), same)
      ]

  -- A job that fits is planned, and not later than a date from which there is room.
  pub insert-Puts :
      (latest : ℕ)
      → Plan I n longest h c priority s
      → contains_job I j.id s ≡ false
      → Fits n longest j
      → c ≤ latest
      → Room I n h latest none s
      → latest + longest ≤ h
      → Returns (Puts I c latest j s) (insert I (basic I L) second j s)
  insert-Puts latest plan new fits from room upto =
      insert-free latest (I.left (I.first n) j.nb_requested_resources) plan new fits from
        (L.size-left (I.first n) j.nb_requested_resources
          (omega (arith, fits.sized, L.size-first n)))
        (free-Room latest room fits upto) upto
