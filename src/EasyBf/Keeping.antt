-- ===== src/EasyBf/Keeping.antt =====
-- easy_bf.cpp: the plan is kept when a job starts, is reserved or is taken out of the schedule.
use schedule_test.Base.{==_iff, ℕ, ◌+◌, ◌≤◌, ◌≡◌, ◌∙◌, Option, none, some, true, false, arith, ◌==◌}
use schedule_test.Intervals.Interface.{Intervals}
use schedule_test.Workload.{Job}
use schedule_test.Schedule.{Schedule, JobAlloc, contains_job}
use schedule_test.Schedule.State.{contains_job-Absent}
use schedule_test.Schedule.Placing.Took.{held_at-own}
use schedule_test.Schedule.JobMap.Laws.{assign}
use schedule_test.Schedule.Adding.{Added}
use schedule_test.Schedule.Leaving.{Removed}
use schedule_test.EasyBf.Planning.{Room, Fits, Plan}

-- The job is not the one that may have a reservation.
abbrev pub Other : Job → Option Job → Type 0
Other j none = Unit {0}
Other j (some k) = (j.id == k.id) ≡ false

module _ (I : Intervals) (n longest h c : ℕ) (j : Job) (s t : Schedule I) (alloc : JobAlloc I)
    (a : ℕ → I.Machines) (added : Added I c a j s t alloc) where
  -- After the job has ended, there is as much room as before.
  later-Room :
      (date : ℕ) (o : Option Job)
      → Other j o
      → alloc.begin + alloc.job.walltime ≤ date
      → Room I n h date o s
      → Room I n h date o t
  later-Room date none other over room d i from upto low =
      ground (arith, room d i from upto low, added.free d i)
  later-Room date (some k) other over room d i from upto low =
      ground (arith, room d i from upto low, added.free d i, added.held k.id d i)

  -- A job that starts now keeps the plan.
  pub Plan-starts :
      (o : Option Job)
      → Plan I n longest h c o s
      → Fits n longest j
      → Other j o
      → alloc.begin ≡ c
      → alloc.job.walltime ≡ j.walltime
      → Plan I n longest h c o t
  Plan-starts o plan fits other now same = record {
    sound = (assign a j.id alloc.used_machines, added.planned);
    lasting = λ d from upto. added.cover d ∙ plan.lasting d from upto;
    soon = later-Room (c + longest) o other (omega (arith, fits.short)) plan.soon;
    then_free =
        later-Room (c + (longest + longest)) none tt (omega (arith, fits.short)) plan.then_free;
  }

  -- The priority job is planned.
  pub Plan-reserves :
      Plan I n longest h c none s
      → Fits n longest j
      → alloc.begin ≤ c + longest
      → alloc.job.walltime ≡ j.walltime
      → Plan I n longest h c (some j) t
  Plan-reserves plan fits early same = record {
    sound = (assign a j.id alloc.used_machines, added.planned);
    lasting = λ d from upto. added.cover d ∙ plan.lasting d from upto;
    soon = λ d i from upto low.
        let own : (j.id == j.id) ≡ true = ground arith in
        ground (arith, plan.soon d i from upto low, added.free d i, added.held j.id d i);
    then_free =
        later-Room (c + (longest + longest)) none tt (omega (arith, fits.short)) plan.then_free;
  }

module _ (I : Intervals) (n longest h c : ℕ) (j : Job) (s t : Schedule I) (a : ℕ → I.Machines)
    (gone : Removed I c a j s t) where
  without-Room : (date : ℕ) (o : Option Job) → Other j o → Room I n h date o s → Room I n h date o t
  without-Room date none other room d i from upto low =
      ground (arith, room d i from upto low, gone.free d i)
  without-Room date (some k) other room d i from upto low =
      ground (arith, room d i from upto low, gone.free d i, gone.held k.id d i)

  -- Without another job, the plan is kept.
  pub Plan-loses :
      (o : Option Job) → Other j o → Plan I n longest h c o s → Plan I n longest h c o t
  Plan-loses o other plan = record {
    sound = (a, gone.planned);
    lasting = λ d from upto. gone.cover d ∙ plan.lasting d from upto;
    soon = without-Room (c + longest) o other plan.soon;
    then_free = without-Room (c + (longest + longest)) none tt plan.then_free;
  }

  -- Without the priority job, nothing is reserved.
  pub Plan-frees :
      (k : Job)
      → (j.id == k.id) ≡ true
      → Plan I n longest h c (some k) s
      → Plan I n longest h c none t
  Plan-frees k same plan = record {
    sound = (a, gone.planned);
    lasting = λ d from upto. gone.cover d ∙ plan.lasting d from upto;
    soon = λ d i from upto low.
        let its = (==_iff j.id k.id).0 same in
        ground (arith, rw its at gone.free d i, plan.soon d i from upto low);
    then_free = without-Room (c + (longest + longest)) none tt plan.then_free;
  }

module _ (I : Intervals) (n longest h c : ℕ) (j : Job) (s t u : Schedule I) (alloc : JobAlloc I)
    (a b : ℕ → I.Machines) (added : Added I c a j s t alloc) (gone : Removed I c b j t u)
    (new : contains_job I j.id s ≡ false) where
  same-Room : (date : ℕ) (o : Option Job) → Room I n h date o s → Room I n h date o u
  same-Room date none room d i from upto low = ground (
    arith,
    room d i from upto low,
    gone.free d i,
    added.free d i,
    added.held j.id d i,
    added.room d i,
  )
  same-Room date (some k) room d i from upto low = ground (
    arith,
    room d i from upto low,
    gone.free d i,
    added.free d i,
    added.held j.id d i,
    added.room d i,
    gone.held k.id d i,
    added.held k.id d i,
    held_at-own I j.id k.id d i s.profile (contains_job-Absent I j.id s new),
  )

  -- A job that is added and removed again leaves the plan.
  pub Plan-restored : (o : Option Job) → Plan I n longest h c o s → Plan I n longest h c o u
  Plan-restored o plan = record {
    sound = (b, gone.planned);
    lasting = λ d from upto. gone.cover d ∙ added.cover d ∙ plan.lasting d from upto;
    soon = same-Room (c + longest) o plan.soon;
    then_free = same-Room (c + (longest + longest)) none plan.then_free;
  }
