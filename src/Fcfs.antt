-- ===== src/Fcfs.antt =====
-- batsched4/src/algo/fcfs.cpp and .hpp: first come, first served, without backfilling. The handler
-- make_decisions of the class FCFS, loop by loop, over any resource selector.
pub mod Accounts
pub mod Order
pub mod Fast
mod Tests
use schedule_test.Base.{
  ℕ, ◌+◌, ◌-◌, List, [], ◌∷◌, ◌++◌, Option, none, some, Bool, ltb, leb, if◌then◌else◌, is_empty,
  Result, ok, err, ◌>>=◌, or_fail, unknown_job, lookup, delete, put,
}
use schedule_test.Intervals.Interface.{Intervals}
use schedule_test.Workload.{Job, Workload, Decision, execute_job, reject_job}
use schedule_test.Locality.{Selector}

module _ (I : Intervals) where
  pub record State : Type 0 where
    pub nb_machines : ℕ
    pub available_machines : I.Machines
    pub nb_available_machines : ℕ
    pub current_allocations : List (ℕ × I.Machines)
    pub pending_jobs : List Job
    -- What has been put into `_decision`, the latest first.
    pub decisions : List (Decision I)

  pub on_simulation_start : ℕ → State
  on_simulation_start nb_machines = record {
    nb_machines = nb_machines;
    available_machines = I.first nb_machines;
    nb_available_machines = nb_machines;
    current_allocations = [];
    pending_jobs = [];
    decisions = [];
  }

  -- The block that starts a job on the machines chosen for it.
  pub execute : (date : ℕ) → State → Job → I.Machines → State
  execute date s j machines = record s {
    available_machines = I.remove s.available_machines machines;
    nb_available_machines = s.nb_available_machines - j.nb_requested_resources;
    current_allocations = put j.id machines s.current_allocations;
    decisions = execute_job j.id machines date ∷ s.decisions;
  }

  -- `_current_allocations[id]`, which yields the empty set on a missing key.
  pub held : ℕ → State → I.Machines
  held id s = elim (lookup id s.current_allocations) [ none ↦ I.empty | some machines ↦ machines ]

  pub end_job : State → ℕ → Job → I.Machines → State
  end_job s id finished_job machines = record s {
    available_machines = I.insert s.available_machines machines;
    nb_available_machines = s.nb_available_machines + finished_job.nb_requested_resources;
    current_allocations = delete id s.current_allocations;
  }

  -- The loop over the jobs that have ended.
  pub end_jobs : Workload → State → List ℕ → Result State
  end_jobs w s [] = ok s
  end_jobs w s (id ∷ ids) = do
    finished_job ← or_fail (w id) unknown_job
    end_jobs w (end_job s id finished_job (held id s)) ids

  -- The loop that executes the pending jobs as long as they fit.
  pub run_queue : Selector I → (date : ℕ) → State → List Job → State
  run_queue selector date s [] = record s { pending_jobs = [] }
  run_queue selector date s (j ∷ js) = elim (selector.fit j s.available_machines) [
    | none ↦ record s { pending_jobs = j ∷ js }
    | some machines ↦ run_queue selector date (execute date s j machines) js
  ]

  abbrev enqueue : State → Job → State
  enqueue s j = record s { pending_jobs = s.pending_jobs ++ j ∷ [] }

  -- One job that has been released.
  pub release_job : (date : ℕ) → State → Job → State
  release_job date s j =
      if ltb s.nb_machines j.nb_requested_resources
      then record s { decisions = reject_job j.id date ∷ s.decisions }
      else if is_empty s.pending_jobs
      then (if leb j.nb_requested_resources s.nb_available_machines
          then execute date s j (I.left s.available_machines j.nb_requested_resources)
          else enqueue s j)
      else enqueue s j

  pub release_jobs : Workload → (date : ℕ) → State → List ℕ → Result State
  release_jobs w date s [] = ok s
  release_jobs w date s (id ∷ ids) = do
    new_job ← or_fail (w id) unknown_job
    release_jobs w date (release_job date s new_job) ids

  pub make_decisions :
      Selector I → Workload → (date : ℕ) → (ended released : List ℕ) → State → Result State
  make_decisions selector w date ended released s = do
    s' ← end_jobs w s ended
    release_jobs w date (if is_empty ended then s' else run_queue selector date s' s'.pending_jobs)
        released
