-- ===== src/EasyBf/Backfill.antt =====
-- easy_bf.cpp: a job that is backfilled starts now, or the schedule says what it said.
use schedule_test.Base.{
  ==_iff, ℕ, ◌+◌, ◌≤◌, ◌≡◌, refl, ◌∙◌, ◌∷◌, Option, Bool, true, false, arith, ◌==◌, ◌&&◌, ◌||◌,
  Bool-cases, inl, inr, not, Returns, Returns-bind, subst, Returns-weaken,
}
use schedule_test.Intervals.Interface.{Intervals, IntervalLaws}
use schedule_test.Workload.{Job, execute_job}
use schedule_test.Locality.{basic}
use schedule_test.Schedule.{Schedule, JobAlloc, contains_job}
use schedule_test.Schedule
use schedule_test.Schedule.View.{within, free_at, held_at}
use schedule_test.Schedule.State.{contains_job-Absent}
use schedule_test.Schedule.Placing.Took.{held_at-own}
use schedule_test.Schedule.Placing.Earliest.{FreeDuring}
use schedule_test.Schedule.JobMap.Laws.{assign}
use schedule_test.Schedule.Adding.{Added}
use schedule_test.Schedule.Leaving.{Removed, remove_job-Removed}
use schedule_test.EasyBf.{State, insert, backfill, send_execute}
use schedule_test.EasyBf.Planning.{Fits, Plan, Puts, insert-free, insert-Puts}
use schedule_test.EasyBf.Keeping.{Other, Plan-starts, Plan-restored}

module _ (I : Intervals) where
  -- The job has been started on machines that are free for its walltime, and holds them.
  abbrev pub Starts : (date : ℕ) → Job → (s u : State I) → Type 0
  Starts date j s u = (m : I.Machines) × record {
    sent : u.decisions ≡ execute_job j.id m date ∷ s.decisions;
    size : I.size m ≡ j.nb_requested_resources;
    room :
        (d i : ℕ)
        → (within date (date + j.walltime) d
            && I.contains m i
            && not (free_at I d i s.schedule.profile))
          ≡ false;
    held :
        (d i : ℕ)
        → held_at I j.id d i u.schedule.profile
          ≡ (within date (date + j.walltime) d && I.contains m i);
  }

  -- The same machines are free, and held by each job, at every date, and nothing is sent.
  abbrev pub Stays : (s u : State I) → Type 0
  Stays s u = record {
    sent : u.decisions ≡ s.decisions;
    free : (d i : ℕ) → free_at I d i u.schedule.profile ≡ free_at I d i s.schedule.profile;
    held : (id d i : ℕ) → held_at I id d i u.schedule.profile ≡ held_at I id d i s.schedule.profile;
  }

  -- What backfilling does with a job that is not in the schedule.
  abbrev pub Outcome : (date : ℕ) → Job → (s : State I) → State I × Bool → Type 0
  Outcome date j s (u, true) = Starts date j s u
  Outcome date j s (u, false) = Stays s u

  -- What it leaves alone.
  abbrev pub Alone : Job → (s : State I) → State I × Bool → Type 0
  Alone j s (u, started) = record {
    queue : u.queue ≡ s.queue;
    platform : u.nb_machines ≡ s.nb_machines;
    contains :
        (id : ℕ)
        → contains_job I id u.schedule ≡ (started && j.id == id || contains_job I id s.schedule);
    others :
        (id d i : ℕ)
        → (j.id == id) ≡ false
        → held_at I id d i u.schedule.profile ≡ held_at I id d i s.schedule.profile;
  }

module _ (I : Intervals) (L : IntervalLaws I) (second n longest h date : ℕ) (o : Option Job)
    (s : State I) (j : Job) where
  abbrev pub Backfilled : State I × Bool → Type 0
  Backfilled (u, started) =
      Plan I n longest h date o u.schedule
      × Outcome I date j s (u, started)
      × Alone I j s (u, started)

  Backfilled-starts :
      (t : Schedule I) (alloc : JobAlloc I) (a : ℕ → I.Machines)
      → Plan I n longest h date o s.schedule
      → Fits n longest j
      → Other j o
      → Added I date a j s.schedule t alloc
      → alloc.begin ≡ date
      → alloc.job.walltime ≡ j.walltime
      → Backfilled (send_execute I date j alloc (record s { schedule = t }), true)
  unfolding send_execute
  Backfilled-starts t alloc a plan fits other r now same = (
    Plan-starts I n longest h date j s.schedule t alloc a r o plan fits other now same,
    (
      alloc.used_machines,
      record {
        sent = refl;
        size = r.size;
        room = λ d i. ground (arith, r.room d i);
        held = λ d i.
            let own : (j.id == j.id) ≡ true = ground arith in ground (arith, r.held j.id d i);
      },
    ),
    record {
      queue = refl;
      platform = refl;
      contains = r.contains;
      others = λ id d i differ. ground (arith, r.held id d i);
    },
  )

  Backfilled-stays :
      (t u : Schedule I) (alloc : JobAlloc I) (a b : ℕ → I.Machines)
      → Plan I n longest h date o s.schedule
      → contains_job I j.id s.schedule ≡ false
      → Added I date a j s.schedule t alloc
      → Removed I date b j t u
      → Backfilled (record s { schedule = u }, false)
  Backfilled-stays t u alloc a b plan new r gone =
      let absent = contains_job-Absent I j.id s.schedule new in
      (
        Plan-restored I n longest h date j s.schedule t u alloc a b r gone new o plan,
        record {
          sent = refl;
          free = λ d i. ground (arith, gone.free d i, r.free d i, r.held j.id d i, r.room d i);
          held = λ id d i. ground (
            arith,
            gone.held id d i,
            r.held id d i,
            held_at-own I j.id id d i s.schedule.profile absent,
          );
        },
        record {
          queue = refl;
          platform = refl;
          contains = λ id. elim (Bool-cases (j.id == id)) [
            | inl its ↦
                let out =
                  subst (λ k. contains_job I k s.schedule ≡ false) ((==_iff j.id id).0 its) new in
                ground (arith, gone.contains id, r.contains id, out)
            | inr differ ↦ ground (arith, gone.contains id, r.contains id)
          ];
          others = λ id d i differ. ground (arith, gone.held id d i, r.held id d i);
        },
      )

  -- Whatever the insertion gives, backfilling goes on from there.
  backfill-from :
      (latest : ℕ)
      → Plan I n longest h date o s.schedule
      → contains_job I j.id s.schedule ≡ false
      → Fits n longest j
      → Other j o
      → Returns (Puts I date latest j s.schedule) (insert I (basic I L) second j s.schedule)
      → Returns
          (λ r. (latest ≡ date → r.1 ≡ true) × Backfilled r)
          (backfill I (basic I L) second date s j)
  unfolding backfill
  backfill-from latest plan new fits other puts =
      Returns-bind (Puts I date latest j s.schedule) _ (insert I (basic I L) second j s.schedule) _
        puts
        (λ (t, alloc) (a, r, early, same). elim (Bool-cases alloc.started_in_first_slice) [
          | inl now ↦ rw now (
            λ e. refl,
            Backfilled-starts t alloc a plan fits other r (ground (arith, r.started)) same,
          )
          | inr not_now ↦
              let own : (j.id == j.id) ≡ true = ground arith in
              let b = assign a j.id alloc.used_machines in
              let there : contains_job I j.id t ≡ true = r.contains j.id ∙ rw own refl in
              rw not_now (
                Returns-bind (Removed I date b j t) _ (Schedule.remove_job I second j t) _
                  (remove_job-Removed I L second date b j t r.planned there)
                  (λ u gone. (
                    λ e. absurd (ground (arith, r.started, r.late)),
                    Backfilled-stays t u alloc a b plan new r gone,
                  )))
        ])

  -- A job that fits, is not in the schedule and is not the priority job, where the schedule is as planned
  -- and three longest walltimes are left before `h`: backfilling it ends without a fault and keeps the
  -- plan. Either it starts now, on as many machines as it asks for, which are free for its walltime, and
  -- holds them, or the same machines are free and held at every date as before and nothing is sent. The
  -- queue and what other jobs hold are as before.
  pub backfill-Backfilled :
      Plan I n longest h date o s.schedule
      → contains_job I j.id s.schedule ≡ false
      → Fits n longest j
      → Other j o
      → date + (longest + longest + longest) ≤ h
      → Returns Backfilled (backfill I (basic I L) second date s j)
  backfill-Backfilled plan new fits other upto =
      Returns-weaken _ Backfilled (backfill I (basic I L) second date s j) (λ r e. e.1)
        (backfill-from (date + (longest + longest)) plan new fits other (
          insert-Puts I L second n longest h date o j s.schedule (date + (longest + longest)) plan
            new fits (omega arith) plan.then_free (omega arith)))

  -- A job that fits, is not in the schedule and is not the priority job, where the schedule is as planned
  -- and one longest walltime is left before `h`: if as many machines as it asks for are free from now on
  -- for its walltime, backfilling it ends without a fault and starts it now.
  pub backfill-starts :
      (machines : I.Machines)
      → Plan I n longest h date o s.schedule
      → contains_job I j.id s.schedule ≡ false
      → Fits n longest j
      → Other j o
      → date + longest ≤ h
      → I.size machines ≡ j.nb_requested_resources
      → FreeDuring I machines date (date + j.walltime) s.schedule.profile
      → Returns (λ r. (r.1 ≡ true) × Backfilled r) (backfill I (basic I L) second date s j)
  backfill-starts machines plan new fits other upto size free =
      Returns-weaken _ (λ r. (r.1 ≡ true) × Backfilled r) (backfill I (basic I L) second date s j)
        (λ r e. (e.0 refl, e.1))
        (backfill-from date plan new fits other (
          insert-free I L second n longest h date o j s.schedule date machines plan new fits
            (omega arith) size free upto))
