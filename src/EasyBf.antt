-- ===== src/EasyBf.antt =====
-- batsched4/src/algo/easy_bf.cpp and .hpp: EASY backfilling that plans on a Schedule. Here are the class
-- EasyBackfilling and its handler make_decisions, loop by loop. The schedule holds the running jobs and
-- the priority job, which is the first of the queue. `Planning` and `Keeping` are about one insertion or
-- removal, `Backfill` about one job that is backfilled, and the other modules about the steps of the
-- handler in turn, which `Decisions` composes and `Runs` repeats.
pub mod Planning
pub mod Keeping
pub mod Backfill
pub mod Start
pub mod Sorting
pub mod Attempts
pub mod Trying
pub mod Replanning
pub mod Traversing
pub mod Ending
pub mod Deciding
pub mod Decisions
pub mod Initial
pub mod Runs
mod Tests
use schedule_test.Base.{
  ℕ, zero, suc, ◌+◌, ◌-◌, List, [], ◌∷◌, ◌++◌, Option, none, some, Bool, true, false, ltb, leb,
  ◌==◌, ◌&&◌, not, if◌then◌else◌, is_empty, length, Result, ok, err, ◌>>=◌, or_fail, unknown_job,
  no_slice, not_inserted,
}
use schedule_test.Intervals.Interface.{Intervals}
use schedule_test.Workload.{Job, Workload, Decision, execute_job, reject_job}
use schedule_test.Locality.{Selector}
use schedule_test.Queue.{
  SortableJob, SortableJobOrder, append_job, remove_job, contains_job, first_job_or_nullptr,
  sort_queue,
}
use schedule_test.Schedule.{
  Schedule, JobAlloc, new_schedule, add_job_first_fit, remove_job_if_exists,
}
use schedule_test.Schedule
use schedule_test.Schedule.Updating.{update_first_slice}

-- Are two pointers to jobs equal?
abbrev pub same_pointer : Option Job → Option Job → Bool
same_pointer none none = true
same_pointer none (some k) = false
same_pointer (some j) none = false
same_pointer (some j) (some k) = j.id == k.id

module _ (I : Intervals) where
  pub record State : Type 0 where
    pub nb_machines : ℕ
    pub schedule : Schedule I
    pub queue : List SortableJob
    pub decisions : List (Decision I)

  pub on_simulation_start : (second nb_machines date : ℕ) → Result State
  on_simulation_start second nb_machines date = do
    schedule ← new_schedule I second nb_machines date
    ok (record { nb_machines = nb_machines; schedule = schedule; queue = []; decisions = [] })

  pub end_jobs : (second : ℕ) → Workload → Schedule I → (ended : List ℕ) → Result (Schedule I)
  end_jobs second w schedule [] = ok schedule
  end_jobs second w schedule (id ∷ ids) =
      let rest = or_fail (w id) unknown_job >>= λ ended_job.
      Schedule.remove_job I second ended_job schedule >>= λ schedule'.
      end_jobs second w schedule' ids in
      rest

  -- One job that has been released: the state, and what is added to `recently_queued_jobs`.
  pub release_job : (date : ℕ) → State → Job → State × List ℕ
  release_job date s new_job =
      let rejected = record s { decisions = reject_job new_job.id date ∷ s.decisions } in
      if ltb s.nb_machines new_job.nb_requested_resources
      then (rejected, [])
      else if not new_job.has_walltime
      then (rejected, [])
      else (record s { queue = append_job new_job date s.queue }, new_job.id ∷ [])

  pub release_jobs : Workload → (date : ℕ) → State → List ℕ → Result (State × List ℕ)
  release_jobs w date s [] = ok (s, [])
  release_jobs w date s (id ∷ ids) = do
    new_job ← or_fail (w id) unknown_job
    r ← release_jobs w date ((release_job date s new_job).0) ids
    ok (r.0, (release_job date s new_job).1 ++ r.1)

  -- A message that starts a job on the machines of its allocation.
  pub send_execute : (date : ℕ) → Job → JobAlloc I → State → State
  send_execute date j alloc s = record s {
    decisions = execute_job j.id alloc.used_machines date ∷ s.decisions;
  }

  -- `_schedule.begin()->available_machines.size()`.
  pub nb_available : Schedule I → Result ℕ
  nb_available schedule = elim (schedule.profile) [
    | [] ↦ err no_slice
    | slice ∷ rest ↦ ok (I.size slice.available_machines)
  ]

  module _ (selector : Selector I) (second : ℕ) where
    -- `_schedule.add_job_first_fit(job, _selector)`, with the insertion asserted.
    pub insert : Job → Schedule I → Result (Schedule I × JobAlloc I)
    insert j schedule = add_job_first_fit I second selector j true schedule >>= λ r.
        or_fail (r.1) not_inserted >>= λ alloc. ok (r.0, alloc)

    -- The loop that executes the first job of the queue while it can. Its list is the queue.
    pub start_priority_jobs : (date : ℕ) → State → List SortableJob → Result State
    start_priority_jobs date s [] = ok (record s { queue = [] })
    start_priority_jobs date s (q ∷ qs) = insert q.job s.schedule >>= λ r.
        elim (r.1.started_in_first_slice) [
          | true ↦
              start_priority_jobs date (send_execute date q.job (r.1) (record s { schedule = r.0 }))
                qs
          | false ↦ ok (record s { schedule = r.0; queue = q ∷ qs })
        ]

    pub remove_if_exists : Option Job → Schedule I → Result (Schedule I)
    remove_if_exists none schedule = ok schedule
    remove_if_exists (some j) schedule = remove_job_if_exists I second j schedule >>= λ r. ok (r.0)

    -- `priority_job_after` is the first job of the queue throughout.
    pub sort_queue_while_handling_priority_job :
        SortableJobOrder → (date : ℕ) → (priority_job_before : Option Job) → State → Result State
    sort_queue_while_handling_priority_job order date priority_job_before s =
        let queue = sort_queue order date s.queue in
        let changed = remove_if_exists priority_job_before s.schedule >>= λ schedule.
        start_priority_jobs date (record s { schedule = schedule }) queue in
        if same_pointer (first_job_or_nullptr queue) priority_job_before
        then ok (record s { queue = queue })
        else changed

    -- A job that is put into the schedule, and stays there if it starts now: the state, and whether
    -- it has started.
    pub backfill : (date : ℕ) → State → Job → Result (State × Bool)
    backfill date s j = insert j s.schedule >>= λ r. elim (r.1.started_in_first_slice) [
      | true ↦ ok (send_execute date j (r.1) (record s { schedule = r.0 }), true)
      | false ↦ Schedule.remove_job I second j (r.0) >>= λ schedule.
          ok (record s { schedule = schedule }, false)
    ]

    -- A released job that may still wait and for which there are machines: the state, and how many
    -- machines are available then.
    pub try_job :
        (date : ℕ)
        → (priority_job_after : Option Job) → (nb_available_machines : ℕ) → State
        → Job
        → Result (State × ℕ)
    try_job date priority_job_after nb_available_machines s new_job =
        let tried = backfill date s new_job >>= λ r. elim (r.1) [
          | true ↦ remove_job new_job (r.0.queue) >>= λ queue. ok (
            record (r.0) { queue = queue },
            nb_available_machines - new_job.nb_requested_resources,
          )
          | false ↦ ok (r.0, nb_available_machines)
        ] in
        if contains_job new_job s.queue
          && not (same_pointer (some new_job) priority_job_after)
          && leb new_job.nb_requested_resources nb_available_machines
        then tried
        else ok (s, nb_available_machines)

    pub try_released_jobs :
        Workload
        → (date : ℕ) → (priority_job_after : Option Job) → (nb_available_machines : ℕ) → State
        → List ℕ
        → Result State
    try_released_jobs w date priority_job_after nb_available_machines s [] = ok s
    try_released_jobs w date priority_job_after nb_available_machines s (id ∷ ids) =
        let rest = or_fail (w id) unknown_job >>= λ new_job.
        try_job date priority_job_after nb_available_machines s new_job >>= λ r.
        try_released_jobs w date priority_job_after (r.1) (r.0) ids in
        if ltb 0 nb_available_machines then rest else ok s

    pub remove_if_contained : Job → Schedule I → Result (Schedule I)
    remove_if_contained j schedule =
        if Schedule.contains_job I j.id schedule
        then Schedule.remove_job I second j schedule
        else ok schedule

    -- The priority job stays in the schedule if it does not start.
    pub replan_priority_job : (date : ℕ) → State → Job → Result (State × Bool)
    replan_priority_job date s j = insert j s.schedule >>= λ r.
        let planned = record s { schedule = r.0 } in
        ok (
          if r.1.started_in_first_slice then send_execute date j (r.1) planned else planned,
          r.1.started_in_first_slice,
        )

    -- The loop over the whole queue: `kept` is what it has passed, the last argument what is ahead.
    -- The number of available machines in its condition does not change.
    pub traverse_queue :
        (date : ℕ)
        → (priority_job_after : Option Job) → State
        → (kept ahead : List SortableJob) → Result State
    traverse_queue date priority_job_after s kept [] = ok (record s { queue = kept })
    traverse_queue date priority_job_after s kept (q ∷ qs) =
        let first = same_pointer (some q.job) priority_job_after in
        remove_if_contained q.job s.schedule >>= λ schedule.
        let s' = record s { schedule = schedule } in
        (if first then replan_priority_job date s' q.job else backfill date s' q.job) >>= λ r.
        elim (r.1) [
          | true ↦
              traverse_queue date
                (if first then first_job_or_nullptr (kept ++ qs) else priority_job_after) (r.0) kept
                qs
          | false ↦ traverse_queue date priority_job_after (r.0) (kept ++ q ∷ []) qs
        ]

    pub make_decisions :
        Workload
        → SortableJobOrder
        → (epsilon date : ℕ) → (ended released : List ℕ) → State
        → Result State
    make_decisions w order epsilon date ended released s = do
      schedule ← end_jobs second w s.schedule ended
      r ← release_jobs w date (record s { schedule = schedule }) released
      present ← update_first_slice I epsilon date r.0.schedule
      t ←
          sort_queue_while_handling_priority_job order date (first_job_or_nullptr s.queue)
            (record (r.0) { schedule = present })
      nb_available_machines ← nb_available t.schedule
      (if is_empty ended
          then try_released_jobs w date (first_job_or_nullptr t.queue) nb_available_machines t (r.1)
          else if ltb 0 nb_available_machines
          then traverse_queue date (first_job_or_nullptr t.queue) t [] t.queue
          else ok t)
