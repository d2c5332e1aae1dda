-- ===== src/Sequencer.antt =====
-- batsched4/src/algo/sequencer.cpp and .hpp: the scheduler that executes one job at a time, in the order
-- of the queue. Here is the class Sequencer with its handler make_decisions.
pub mod OneJob
mod Tests
use schedule_test.Base.{
  ℕ, List, [], ◌∷◌, none, some, Bool, true, false, leb, ltb, if◌then◌else◌, is_empty, length,
  Result, ok, err, ◌>>=◌, or_fail, unknown_job, too_many_ended, no_job_running,
}
use schedule_test.Intervals.Interface.{Intervals}
use schedule_test.Workload.{Job, Workload, Decision, execute_job, reject_job}
use schedule_test.Queue.{
  SortableJob, SortableJobOrder, append_job, remove_job, first_job_or_nullptr, sort_queue,
}

module _ (I : Intervals) where
  pub record State : Type 0 where
    pub nb_machines : ℕ
    pub machines : I.Machines
    pub is_job_running : Bool
    pub queue : List SortableJob
    -- What has been put into `_decision`, the latest first.
    pub decisions : List (Decision I)

  pub on_simulation_start : ℕ → State
  on_simulation_start nb_machines = record {
    nb_machines = nb_machines;
    machines = I.first nb_machines;
    is_job_running = false;
    queue = [];
    decisions = [];
  }

  -- The assertions on the job that has ended.
  pub end_job : State → (ended : List ℕ) → Result State
  end_job s ended =
      if leb (length ended) 1
      then (if is_empty ended
          then ok s
          else if s.is_job_running
          then ok (record s { is_job_running = false })
          else err no_job_running)
      else err too_many_ended

  pub release_job : (date : ℕ) → State → Job → State
  release_job date s j =
      if leb j.nb_requested_resources s.nb_machines
      then record s { queue = append_job j date s.queue }
      else record s { decisions = reject_job j.id date ∷ s.decisions }

  pub release_jobs : Workload → (date : ℕ) → State → List ℕ → Result State
  release_jobs w date s [] = ok s
  release_jobs w date s (id ∷ ids) = do
    j ← or_fail (w id) unknown_job
    release_jobs w date (release_job date s j) ids

  -- The first job of the queue is executed if none is.
  pub start_job : (date : ℕ) → State → Result State
  start_job date s = elim (first_job_or_nullptr s.queue) [
    | none ↦ ok s
    | some j ↦
        if s.is_job_running
        then ok s
        else (remove_job j s.queue >>= λ queue. ok (record s {
          is_job_running = true;
          queue = queue;
          decisions =
              execute_job j.id (I.left s.machines j.nb_requested_resources) date ∷ s.decisions;
        }))
  ]

  pub make_decisions :
      Workload → SortableJobOrder → (date : ℕ) → (ended released : List ℕ) → State → Result State
  make_decisions w order date ended released s = do
    s₁ ← end_job s ended
    s₂ ← release_jobs w date s₁ released
    start_job date (record s₂ { queue = sort_queue order date s₂.queue })
