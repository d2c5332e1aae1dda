-- ===== src/EasyBf3.antt =====
-- batsched4/src/algo/easy_bf3.cpp and .hpp: EASY backfilling with a heap-sorted schedule. Here are the
-- class EasyBackfilling3 and its handler make_decisions, loop by loop. The members `_can_run` and
-- `_tmp_job`, which are read right after a check sets them, are what the check returns: the job that it
-- has put into the schedule, if it could. `Vector` and `Heap` are about the vector of scheduled jobs
-- and its sort, `Accounts` about the machines.
pub mod Vector
pub mod Heap
pub mod Accounts
pub mod Ascending
pub mod Checks
pub mod Decisions
mod Tests
use schedule_test.Base.{
  ℕ, suc, ◌+◌, ◌-◌, List, [], ◌∷◌, ◌++◌, Option, none, some, Bool, true, false, ltb, leb, ◌==◌,
  ◌&&◌, not, if◌then◌else◌, is_empty, length, Result, ok, ◌>>=◌, or_fail, unknown_job,
}
use schedule_test.Intervals.Interface.{Intervals}
use schedule_test.Workload.{Job, Workload, Decision, execute_job, reject_job}
use schedule_test.Queue.{
  SortableJob, SortableJobOrder, append_job, remove_job, contains_job, first_job_or_nullptr,
  sort_queue,
}
use Heap.{sort_max_heap}

-- `struct Priority_Job`. As allocated, its numbers are 0 and its name is no job's.
pub record PriorityJob : Type 0 where
  pub id : Option ℕ
  pub requested_resources : ℕ
  pub extra_resources : ℕ
  pub shadow_time : ℕ
  pub est_finish_time : ℕ

-- Are two pointers to jobs equal?
pub same_job : Option Job → Option Job → Bool
same_job none none = true
same_job none (some k) = false
same_job (some j) none = false
same_job (some j) (some k) = j.id == k.id

-- The update of `_p_job` on a new priority job.
pub set_priority : PriorityJob → Job → PriorityJob
set_priority p j =
    let changed = record p { id = some j.id; requested_resources = j.nb_requested_resources } in
    elim p.id [ none ↦ changed | some id ↦ if id == j.id then p else changed ]

module _ (I : Intervals) where
  -- `struct Scheduled_Job`, less the run time, which is never read.
  pub record ScheduledJob : Type 0 where
    pub id : ℕ
    pub requested_resources : ℕ
    pub wall_time : ℕ
    pub start_time : ℕ
    pub est_finish_time : ℕ
    pub allocated_machines : I.Machines

  pub record State : Type 0 where
    pub nb_machines : ℕ
    pub available_machines : I.Machines
    pub nb_available_machines : ℕ
    pub scheduled_jobs : List ScheduledJob
    pub p_job : PriorityJob
    pub backfill_counter : ℕ
    pub queue : List SortableJob
    -- What has been put into `_decision`, the latest first.
    pub decisions : List (Decision I)

  pub on_simulation_start : ℕ → State
  on_simulation_start nb_machines = record {
    nb_machines = nb_machines;
    available_machines = I.first nb_machines;
    nb_available_machines = nb_machines;
    scheduled_jobs = [];
    p_job = record {
      id = none;
      requested_resources = 0;
      extra_resources = 0;
      shadow_time = 0;
      est_finish_time = 0;
    };
    backfill_counter = 0;
    queue = [];
    decisions = [];
  }

  -- `std::find_if` on the schedule, and `erase` at its result.
  pub find_scheduled : ℕ → List ScheduledJob → Option ScheduledJob
  find_scheduled id [] = none
  find_scheduled id (sj ∷ sjs) = if sj.id == id then some sj else find_scheduled id sjs

  pub erase_scheduled : ℕ → List ScheduledJob → List ScheduledJob
  erase_scheduled id [] = []
  erase_scheduled id (sj ∷ sjs) = if sj.id == id then sjs else sj ∷ erase_scheduled id sjs

  pub handle_finished_job : State → ℕ → State
  handle_finished_job s job_id = elim (find_scheduled job_id s.scheduled_jobs) [
    | none ↦ s
    | some sj ↦ record s {
      available_machines = I.insert s.available_machines sj.allocated_machines;
      nb_available_machines = s.nb_available_machines + sj.requested_resources;
      scheduled_jobs = erase_scheduled job_id s.scheduled_jobs;
    }
  ]

  pub handle_scheduled_job : (date : ℕ) → State → Job → State × ScheduledJob
  handle_scheduled_job date s j =
      let sj : ScheduledJob = record {
        id = j.id;
        requested_resources = j.nb_requested_resources;
        wall_time = j.walltime;
        start_time = date;
        est_finish_time = date + j.walltime;
        allocated_machines = I.left s.available_machines j.nb_requested_resources;
      } in
      (
        record s {
          scheduled_jobs = s.scheduled_jobs ++ sj ∷ [];
          available_machines = I.remove s.available_machines sj.allocated_machines;
          nb_available_machines = s.nb_available_machines - sj.requested_resources;
        },
        sj,
      )

  -- `sort_max_heap(_scheduled_jobs.size())`.
  pub sort_schedule : State → State
  sort_schedule s = record s {
    scheduled_jobs =
        sort_max_heap (λ sj. sj.est_finish_time) (length s.scheduled_jobs) s.scheduled_jobs;
  }

  -- The loop that predicts when the priority job can start.
  pub reserve : (machine_count : ℕ) → PriorityJob → Job → List ScheduledJob → PriorityJob
  reserve machine_count p j [] = p
  reserve machine_count p j (sj ∷ sjs) =
      let count = machine_count + sj.requested_resources in
      if leb p.requested_resources count
      then record p {
        shadow_time = sj.est_finish_time;
        est_finish_time = sj.est_finish_time + j.walltime;
        extra_resources = count - j.nb_requested_resources;
      }
      else reserve count p j sjs

  pub check_priority_job : (date : ℕ) → State → Job → State × Option ScheduledJob
  check_priority_job date s j =
      let p = set_priority s.p_job j in
      let s' = record s { p_job = p } in
      let r = handle_scheduled_job date s' j in
      if leb p.requested_resources s.nb_available_machines
      then (sort_schedule (r.0), some (r.1))
      else (record s { p_job = reserve s.nb_available_machines p j s.scheduled_jobs }, none)

  -- The condition under which a job is backfilled.
  pub can_backfill : (date : ℕ) → State → Job → Bool
  can_backfill date s j =
      if leb (date + j.walltime) s.p_job.shadow_time
      then leb j.nb_requested_resources s.nb_available_machines
      else leb j.nb_requested_resources (
          if ltb s.nb_available_machines s.p_job.extra_resources
          then s.nb_available_machines
          else s.p_job.extra_resources)

  pub check_next_job : (date : ℕ) → State → Job → State × Option ScheduledJob
  check_next_job date s j =
      let r = handle_scheduled_job date s j in
      if can_backfill date s j
      then (record (sort_schedule (r.0)) { backfill_counter = suc s.backfill_counter }, some (r.1))
      else (s, none)

  -- `_decision->add_execute_job`.
  abbrev pub send_execute : (date : ℕ) → State → ScheduledJob → State
  send_execute date s sj = record s {
    decisions = execute_job sj.id sj.allocated_machines date ∷ s.decisions;
  }

  -- The loop over the jobs that have ended.
  pub handle_finished_jobs : State → List ℕ → State
  handle_finished_jobs s [] = s
  handle_finished_jobs s (id ∷ ids) = handle_finished_jobs (handle_finished_job s id) ids

  -- One job that has been released: the state, and what is added to `recently_queued_jobs`.
  pub release_job : (date : ℕ) → State → Job → State × List ℕ
  release_job date s j =
      let rejected = record s { decisions = reject_job j.id date ∷ s.decisions } in
      if ltb s.nb_machines j.nb_requested_resources
      then (rejected, [])
      else if not j.has_walltime
      then (rejected, [])
      else (record s { queue = append_job j date s.queue }, j.id ∷ [])

  pub release_jobs : Workload → (date : ℕ) → State → List ℕ → Result (State × List ℕ)
  release_jobs w date s [] = ok (s, [])
  release_jobs w date s (id ∷ ids) = do
    new_job ← or_fail (w id) unknown_job
    r ← release_jobs w date ((release_job date s new_job).0) ids
    ok (r.0, (release_job date s new_job).1 ++ r.1)

  -- The loop that executes the first job of the queue while it can. Its list is the queue.
  pub start_priority_jobs : (date : ℕ) → State → List SortableJob → State
  start_priority_jobs date s [] = record s { queue = [] }
  start_priority_jobs date s (q ∷ qs) =
      let r = check_priority_job date s q.job in
      elim (r.1) [
        | none ↦ record (r.0) { queue = q ∷ qs }
        | some sj ↦ start_priority_jobs date (send_execute date (r.0) sj) qs
      ]

  -- It returns `priority_job_after` too, which is the first job of the queue throughout.
  pub sort_queue_while_handling_priority_job :
      SortableJobOrder
      → (date : ℕ) → (priority_job_before : Option Job) → State
      → State × Option Job
  sort_queue_while_handling_priority_job order date priority_job_before s =
      let queue = sort_queue order date s.queue in
      let started = start_priority_jobs date s queue in
      let s' =
        (if same_job (first_job_or_nullptr queue) priority_job_before
          then record s { queue = queue }
          else started) in
      (s', first_job_or_nullptr s'.queue)

  -- A released job that may still wait is backfilled if it can be.
  pub try_job : (date : ℕ) → (priority_job_after : Option Job) → State → Job → Result State
  try_job date priority_job_after s j =
      let r = check_next_job date s j in
      let tried : Result State = elim (r.1) [
        | none ↦ ok (r.0)
        | some sj ↦ remove_job j s.queue >>= λ queue.
            ok (record (send_execute date (r.0) sj) { queue = queue })
      ] in
      if contains_job j s.queue && not (same_job (some j) priority_job_after) then tried else ok s

  pub try_released_jobs :
      Workload → (date : ℕ) → (priority_job_after : Option Job) → State → List ℕ → Result State
  try_released_jobs w date priority_job_after s [] = ok s
  try_released_jobs w date priority_job_after s (id ∷ ids) =
      let rest = or_fail (w id) unknown_job >>= λ new_job.
      try_job date priority_job_after s new_job >>= λ s'.
      try_released_jobs w date priority_job_after s' ids in
      if ltb 0 s.nb_available_machines then rest else ok s

  -- The loop over the whole queue: `kept` is what it has passed, the last argument what is ahead.
  pub traverse_queue :
      (date : ℕ)
      → (priority_job_after : Option Job) → State
      → (kept ahead : List SortableJob) → State
  traverse_queue date priority_job_after s kept [] = record s { queue = kept }
  traverse_queue date priority_job_after s kept (q ∷ qs) =
      let first = same_job (some q.job) priority_job_after in
      let r = (if first then check_priority_job date s q.job else check_next_job date s q.job) in
      let after = (if first then first_job_or_nullptr (kept ++ qs) else priority_job_after) in
      let rest : State = elim (r.1) [
        | none ↦ traverse_queue date priority_job_after (r.0) (kept ++ q ∷ []) qs
        | some sj ↦ traverse_queue date after (send_execute date (r.0) sj) kept qs
      ] in
      if ltb 0 s.nb_available_machines then rest else record s { queue = kept ++ q ∷ qs }

  pub make_decisions :
      Workload → SortableJobOrder → (date : ℕ) → (ended released : List ℕ) → State → Result State
  make_decisions w order date ended released s = do
    r ← release_jobs w date (handle_finished_jobs s ended) released
    (let t =
          sort_queue_while_handling_priority_job order date (first_job_or_nullptr s.queue) (r.0) in
        if is_empty ended
        then try_released_jobs w date (t.1) (t.0) (r.1)
        else ok (traverse_queue date (t.1) (t.0) [] (t.0.queue)))
