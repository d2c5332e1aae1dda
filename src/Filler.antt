-- ===== src/Filler.antt =====
-- batsched4/src/algo/filler.cpp and .hpp: the scheduler that starts every job of the queue that fits. Here is the
-- class Filler with its handler make_decisions and `fill`. How many machines a job is given of those
-- that it asked for, `ceil(fraction_of_machines_to_use * n)` in floating point, is the parameter
-- `nb_to_allocate`. The mapping of executors to machines and the metadata of a message are left out.
pub mod Allocations
mod Tests
use schedule_test.Base.{
  ℕ, ◌-◌, List, [], ◌∷◌, ◌++◌, none, some, leb, ltb, ◌&&◌, if◌then◌else◌, Result, ok, err, ◌>>=◌,
  or_fail, unknown_job, bad_resources, lookup, delete, put,
}
use schedule_test.Intervals.Interface.{Intervals}
use schedule_test.Workload.{Job, Workload, Decision, execute_job, reject_job}
use schedule_test.Queue.{SortableJob, SortableJobOrder, append_job, sort_queue}
use schedule_test.Locality.{Selector}

module _ (I : Intervals) where
  pub record State : Type 0 where
    pub nb_machines : ℕ
    pub available_machines : I.Machines
    -- Those that users have withdrawn, whether jobs run on them or not.
    pub unavailable_machines : I.Machines
    pub current_allocations : List (ℕ × I.Machines)
    pub queue : List SortableJob
    -- What has been put into `_decision`, the latest first.
    pub decisions : List (Decision I)

  pub on_simulation_start : ℕ → State
  on_simulation_start nb_machines = record {
    nb_machines = nb_machines;
    available_machines = I.first nb_machines;
    unavailable_machines = I.empty;
    current_allocations = [];
    queue = [];
    decisions = [];
  }

  -- A missing key yields the empty set.
  pub end_job : State → ℕ → State
  end_job s id = record s {
    available_machines =
        I.insert s.available_machines
          (elim (lookup id s.current_allocations) [ none ↦ I.empty | some machines ↦ machines ]);
    current_allocations = delete id s.current_allocations;
  }

  pub end_jobs : State → List ℕ → State
  end_jobs s [] = s
  end_jobs s (id ∷ ids) = end_jobs (end_job s id) ids

  -- The events of users on machines.
  pub update_unavailable : (became_available became_unavailable : I.Machines) → State → State
  update_unavailable became_available became_unavailable s = record s {
    unavailable_machines =
        I.insert (I.remove s.unavailable_machines became_available) became_unavailable;
  }

  pub release_job : (date : ℕ) → State → Job → State
  release_job date s j =
      if ltb s.nb_machines j.nb_requested_resources
      then record s { decisions = reject_job j.id date ∷ s.decisions }
      else record s { queue = append_job j date s.queue }

  pub release_jobs : Workload → (date : ℕ) → State → List ℕ → Result State
  release_jobs w date s [] = ok s
  release_jobs w date s (id ∷ ids) = do
    new_job ← or_fail (w id) unknown_job
    release_jobs w date (release_job date s new_job) ids

  -- The block that starts a job on the machines used for it.
  pub start_job : (date : ℕ) → State → Job → I.Machines → State
  start_job date s j used_machines = record s {
    available_machines = I.remove s.available_machines used_machines;
    current_allocations = put j.id used_machines s.current_allocations;
    decisions = execute_job j.id used_machines date ∷ s.decisions;
  }

  module _ (selector : Selector I) (nb_to_allocate : ℕ → ℕ) where
    -- The loop of `fill`: `kept` is what it has passed of the queue, the last argument what is ahead.
    -- A job, which is in the queue once, is removed where it stands.
    pub fill_queue :
        (date : ℕ)
        → State
        → (usable_machines : I.Machines) → (nb_usable : ℕ) → (kept ahead : List SortableJob)
        → Result State
    fill_queue date s usable_machines nb_usable kept [] = ok (record s { queue = kept })
    fill_queue date s usable_machines nb_usable kept (q ∷ qs) =
        let n = nb_to_allocate q.job.nb_requested_resources in
        let skip = fill_queue date s usable_machines nb_usable (kept ++ q ∷ []) qs in
        let tried : Result State = elim (selector.fit q.job usable_machines) [
          | none ↦ skip
          | some fitting ↦
              let used = I.left fitting n in
              let rest =
                fill_queue date (start_job date s q.job used) (I.remove usable_machines used)
                  (nb_usable - I.size used) kept qs in
              if ltb 0 n && leb n q.job.nb_requested_resources then rest else err bad_resources
        ] in
        if ltb 0 nb_usable then tried else ok (record s { queue = kept ++ q ∷ qs })

    pub fill : (date : ℕ) → State → Result State
    fill date s =
        let usable_machines = I.remove s.available_machines s.unavailable_machines in
        fill_queue date s usable_machines (I.size usable_machines) [] s.queue

    pub make_decisions :
        Workload
        → SortableJobOrder
        → (date : ℕ) → (ended released : List ℕ)
        → (became_available became_unavailable : I.Machines) → State
        → Result State
    make_decisions w order date ended released became_available became_unavailable s = do
      s' ←
          release_jobs w date
            (update_unavailable became_available became_unavailable (end_jobs s ended)) released
      fill date (record s' { queue = sort_queue order date s'.queue })
