-- ===== src/EasyFast.antt =====
-- batsched4/src/algo/easy_bf_fast.cpp and .hpp: the fast variant of EASY backfilling. Here are the
-- class EasyBackfillingFast and its handler make_decisions, loop by loop. A handler takes the object's
-- state and returns the new one; a failed assertion or an undefined access is a fault. `Horizon` is
-- the list of the expected completions; the other children are about all of it.
pub mod Horizon
pub mod Invariant
pub mod Accounts
pub mod Steps
pub mod Backfill
pub mod Ended
pub mod Release
pub mod Decisions
pub mod Promise
mod Tests
use schedule_test.Base.{
  ℕ, suc, ◌+◌, ◌-◌, List, [], ◌∷◌, ◌++◌, Option, none, some, Bool, ltb, leb, ◌==◌, if◌then◌else◌,
  is_empty, Result, ok, err, ◌>>=◌, or_fail, unknown_job, no_allocation, null_pointer, lookup,
  delete, put,
}
use schedule_test.Intervals.Interface.{Intervals}
use schedule_test.Workload.{Job, Workload, Decision, execute_job, reject_job}
use Horizon.{FinishedHorizonPoint, insert_horizon_point, erase, earliest_start}

-- The priority job and the date that the source keeps in the job's own `completion_time`.
pub record PriorityJob : Type 0 where
  pub job : Job
  pub completion_time : ℕ

module _ (I : Intervals) where
  pub record Allocation : Type 0 where
    pub machines : I.Machines
    pub horizon_it : ℕ

  pub record State : Type 0 where
    pub nb_machines : ℕ
    pub available_machines : I.Machines
    pub nb_available_machines : ℕ
    pub horizons : List FinishedHorizonPoint
    -- The name of the next element of `horizons`.
    pub next_node : ℕ
    -- The map `_current_allocations`, the latest entry first.
    pub current_allocations : List (ℕ × Allocation)
    pub pending_jobs : List Job
    pub priority_job : Option PriorityJob
    -- What has been put into `_decision`, the latest first.
    pub decisions : List (Decision I)

  -- `on_simulation_start`, on the object as its constructor leaves it.
  pub on_simulation_start : ℕ → State
  on_simulation_start nb_machines = record {
    nb_machines = nb_machines;
    available_machines = I.first nb_machines;
    nb_available_machines = nb_machines;
    horizons = [];
    next_node = 0;
    current_allocations = [];
    pending_jobs = [];
    priority_job = none;
    decisions = [];
  }

  -- The block that starts a job now: its machines, its message, its horizon point, its allocation.
  pub execute : (date : ℕ) → State → Job → State
  execute date s j =
      let machines = I.left s.available_machines j.nb_requested_resources in
      record s {
        available_machines = I.remove s.available_machines machines;
        nb_available_machines = s.nb_available_machines - j.nb_requested_resources;
        horizons =
            insert_horizon_point
              (record {
                node = s.next_node;
                nb_released_machines = j.nb_requested_resources;
                date = date + j.walltime;
              })
              s.horizons;
        next_node = suc s.next_node;
        current_allocations =
            put j.id (record { machines = machines; horizon_it = s.next_node })
              s.current_allocations;
        decisions = execute_job j.id machines date ∷ s.decisions;
      }

  -- The job becomes the priority job, and its expected start is computed.
  pub make_priority : State → Job → Result State
  make_priority s j = do
    t ← earliest_start j.nb_requested_resources s.nb_available_machines s.horizons
    ok (record s { priority_job = some (record { job = j; completion_time = t }) })

  -- A job that has ended gives its machines back, and its point leaves the list.
  pub end_job : State → ℕ → Job → Allocation → State
  end_job s id finished_job alloc = record s {
    available_machines = I.insert s.available_machines alloc.machines;
    nb_available_machines = s.nb_available_machines + finished_job.nb_requested_resources;
    horizons = erase alloc.horizon_it s.horizons;
    current_allocations = delete id s.current_allocations;
  }

  -- The loop over the jobs that have ended.
  pub end_jobs : Workload → State → List ℕ → Result State
  end_jobs w s [] = ok s
  end_jobs w s (id ∷ ids) = do
    finished_job ← or_fail (w id) unknown_job
    alloc ← or_fail (lookup id s.current_allocations) no_allocation
    end_jobs w (end_job s id finished_job alloc) ids

  -- The loop that executes the queue until a job does not fit and becomes priority. Its list is the
  -- rest of `_pending_jobs`.
  pub run_queue : (date : ℕ) → State → List Job → Result State
  unfolding make_priority
  run_queue date s [] = ok (record s { pending_jobs = [] })
  run_queue date s (j ∷ js) =
      if leb j.nb_requested_resources s.nb_available_machines
      then run_queue date (execute date s j) js
      else make_priority (record s { pending_jobs = js }) j

  -- May a job that fits run now without hindering the priority job?
  pub hinders : (date : ℕ) → Job → PriorityJob → Bool
  hinders date j p = ltb p.completion_time (date + j.walltime)

  -- The loop that backfills; with the state, it returns what stays in `_pending_jobs`.
  pub backfill : (date : ℕ) → State → List Job → Result (State × List Job)
  unfolding hinders
  backfill date s [] = ok (s, [])
  backfill date s (j ∷ js) =
      let skip = backfill date s js >>= λ r. ok (r.0, j ∷ r.1) in
      let s' = execute date s j in
      let rest = backfill date s' js in
      if leb j.nb_requested_resources s.nb_available_machines
      then elim s.priority_job [
        | none ↦ err null_pointer
        | some p ↦
            if hinders date j p
            then skip
            else if s'.nb_available_machines == 0
            then ok (s', js)
            else rest
      ]
      else skip

  -- The attempt to start the priority job, and the queue behind it.
  pub try_priority : (date : ℕ) → State → PriorityJob → Result State
  unfolding run_queue
  try_priority date s p =
      if leb p.job.nb_requested_resources s.nb_available_machines
      then (let s' = execute date s p.job in
          run_queue date (record s' { priority_job = none }) s'.pending_jobs)
      else ok s

  -- What is done when jobs have ended.
  pub serve : (date : ℕ) → State → Result State
  unfolding try_priority backfill
  serve date s = elim s.priority_job [
    | none ↦ ok s
    | some p ↦ try_priority date s p >>= λ s'.
        if ltb 0 s'.nb_available_machines
        then (backfill date s' s'.pending_jobs >>= λ r. ok (record (r.0) { pending_jobs = r.1 }))
        else ok s'
  ]

  abbrev enqueue : State → Job → State
  enqueue s j = record s { pending_jobs = s.pending_jobs ++ j ∷ [] }

  -- One job that has been released.
  pub release_job : (date : ℕ) → State → Job → Result State
  unfolding hinders make_priority
  release_job date s j =
      if leb j.nb_requested_resources s.nb_available_machines
      then elim s.priority_job [
        | none ↦ ok (execute date s j)
        | some p ↦ if hinders date j p then ok (enqueue s j) else ok (execute date s j)
      ]
      else if ltb s.nb_machines j.nb_requested_resources
      then ok (record s { decisions = reject_job j.id date ∷ s.decisions })
      else elim s.priority_job [ none ↦ make_priority s j | some p ↦ ok (enqueue s j) ]

  pub release_jobs : Workload → (date : ℕ) → State → List ℕ → Result State
  release_jobs w date s [] = ok s
  release_jobs w date s (id ∷ ids) = do
    new_job ← or_fail (w id) unknown_job
    s' ← release_job date s new_job
    release_jobs w date s' ids

  -- `make_decisions`, on the jobs that ended and were released since the last call.
  pub make_decisions : Workload → (date : ℕ) → (ended released : List ℕ) → State → Result State
  unfolding end_jobs serve release_jobs
  make_decisions w date ended released s = do
    s₁ ← end_jobs w s ended
    s₂ ← (if is_empty ended then ok s₁ else serve date s₁)
    release_jobs w date s₂ released
