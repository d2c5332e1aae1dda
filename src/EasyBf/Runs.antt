-- ===== src/EasyBf/Runs.antt =====
-- easy_bf.cpp: the states that a sequence of calls produces, each at a date in the first slice.
use schedule_test.Base.{[], ℕ, ◌+◌, ◌≤◌, ◌<◌, ◌≡◌, List, true, false, All, ◌==◌, Returns, ok}
use schedule_test.Intervals.Interface.{Intervals, IntervalLaws}
use schedule_test.Workload.{Workload}
use schedule_test.Locality.{basic}
use schedule_test.Queue.{SortableJobOrder, first_job_or_nullptr}
use schedule_test.Queue.Sort.{IsSorted}
use schedule_test.Schedule.{infinity}
use schedule_test.Schedule.View.{free_at, held_at}
use schedule_test.Schedule.Runs.{Returns-ok, held_at-alone}
use schedule_test.EasyBf.{State, on_simulation_start, end_jobs, make_decisions}
use schedule_test.EasyBf.Start.{Reserved, Ordered}
use schedule_test.EasyBf.Ending.{AllEnding, Timed, AllNew}
use schedule_test.EasyBf.Deciding.{InFirst}
use schedule_test.EasyBf.Initial.{on_simulation_start-Ordered}
use schedule_test.EasyBf.Decisions.{make_decisions-Ordered}

module _ (I : Intervals) (L : IntervalLaws I) (second n longest : ℕ) (w : Workload)
    (order : SortableJobOrder) (epsilon : ℕ) where
  -- A state at a date: the first one, or one after a call with BasicResourceSelector, three longest
  -- walltimes before the horizon. The call is told of ended jobs that are in the schedule, of which none is
  -- the priority job, and of new jobs of the workload. Its date is before the end of the first slice, once
  -- the ended jobs are removed: a call just at that end, as when the priority job's reservation begins,
  -- is left out.
  pub data Called : ℕ → State I → Type 0 where
    begins :
        (date : ℕ) (s : State I)
        → date < infinity second
        → on_simulation_start I second n date ≡ ok s
        → Called date s
    decides :
        (c date : ℕ) (ended released : List ℕ) (s u : State I)
        → Called c s
        → c ≤ date
        → date + (longest + longest + longest) ≤ infinity second
        → AllEnding I w s.schedule (first_job_or_nullptr s.queue) ended
        → Returns (InFirst I date) (end_jobs I second w s.schedule ended)
        → All (Timed w longest) released
        → AllNew I s.queue s.schedule released
        → make_decisions I (basic I L) second w order epsilon date ended released s ≡ ok u
        → Called date u

  -- What every such state has.
  abbrev pub Sane : ℕ → State I → Type 0
  Sane date s =
      Ordered I n longest (infinity second) date s
      × (s.nb_machines ≡ n)
      × ((id other d i : ℕ)
          → (id == other) ≡ false
          → held_at I id d i s.schedule.profile ≡ true
          → (held_at I other d i s.schedule.profile ≡ false)
            × (free_at I d i s.schedule.profile ≡ false))
      × Reserved I s
      × IsSorted order s.queue

  empty-Reserved : (s : State I) → s.queue ≡ [] → Reserved I s
  unfolding first_job_or_nullptr
  empty-Reserved s empty = rw empty tt

  empty-IsSorted : (s : State I) → s.queue ≡ [] → IsSorted order s.queue
  empty-IsSorted s empty = rw empty tt

  exclusive :
      (date : ℕ) (s : State I)
      → Ordered I n longest (infinity second) date s
      → s.nb_machines ≡ n
      → Reserved I s
      → IsSorted order s.queue
      → Sane date s
  exclusive date s ordered platform reserved sorted =
      let (a, planned) = ordered.plan.sound in
      (
        ordered,
        platform,
        λ id other d i.
            held_at-alone I s.schedule.nb_machines s.schedule.repair_machines a id other d i
              s.schedule.profile (planned.1),
        reserved,
        sorted,
      )

  -- On a platform with machines, where the longest walltime is not 0: in every state of `Called`, the
  -- first one or one after calls as they are described there, at every date a machine that a job holds is
  -- not free, and no other job holds it; the state is ordered, the queue is sorted by the order, and the
  -- first job of it, if there is one, is in the schedule.
  pub Called-Sane : 0 < n → 0 < longest → (date : ℕ) (s : State I) → Called date s → Sane date s
  Called-Sane machines positive date s (begins date' s' early e) =
      let first =
        Returns-ok _ (on_simulation_start I second n date) s
          (on_simulation_start-Ordered I L second n longest date machines early) e in
      exclusive date s (first.0) (first.1) (empty-Reserved s (first.2)) (empty-IsSorted s (first.2))
  Called-Sane machines positive date u
        (decides c date' ended released s u' called later upto ending inside timed new e) =
      let (ordered, platform, alone, reserved, sorted) = Called-Sane machines positive c s called in
      let next =
        Returns-ok _ (make_decisions I (basic I L) second w order epsilon date ended released s) u
          (make_decisions-Ordered I L second n longest (infinity second) date positive upto w order
            epsilon c ended released s later ordered reserved platform ending inside timed new)
          e in
      exclusive date u (next.0) (next.1) (next.3) (next.4)
