-- ===== src/EasyFast/Steps.antt =====
-- Each loop of make_decisions ends normally and keeps the invariant of EasyBackfillingFast.
use schedule_test.Base.{
  ℕ, ◌+◌, ◌≤◌, ◌<◌, ◌≡◌, refl, sym, subst, List, [], ◌∷◌, none, some, All, false, arith, Bool-cases,
  inl, inr, leb, Returns, leb→lt, leb→le,
}
use schedule_test.Intervals.Interface.{Intervals, IntervalLaws}
use schedule_test.Workload.{Job, Workload}
use schedule_test.EasyFast.Horizon.{earliest_start_lem, released_by-insert_horizon_point}
use schedule_test.EasyFast.{
  PriorityJob, State, execute, make_priority, run_queue, hinders, try_priority,
}
use schedule_test.EasyFast.Invariant.{Core, Valid, Planned, Blocked, Promised, Queued, Inv}
use schedule_test.EasyFast.Accounts.{execute-Core}

module _ (I : Intervals) (L : IntervalLaws I) (w : Workload) where
  -- A job that does not fit gets a date by which it will.
  pub make_priority-Inv :
      (s : State I) (j : Job)
      → Core I w s
      → All (Valid I w s.nb_machines) s.pending_jobs
      → Valid I w s.nb_machines j
      → s.nb_available_machines < j.nb_requested_resources
      → Returns (Inv I w) (make_priority I s j)
  unfolding make_priority
  make_priority-Inv s j c pending valid lack =
      let (t, found, later, enough) =
        earliest_start_lem j.nb_requested_resources s.nb_available_machines 0 s.horizons c.sorted
          lack (omega (arith, c.balanced, valid)) in
      rw found ((c, pending, (valid, enough)), lack)

  -- Starting a job that does not hinder the priority job keeps what that one was promised.
  pub execute-Promised :
      (date : ℕ) (s : State I) (j : Job) (p : PriorityJob)
      → j.nb_requested_resources ≤ s.nb_available_machines
      → hinders I date j p ≡ false
      → Promised I w s p
      → Promised I w (execute I date s j) p
  unfolding execute hinders
  execute-Promised date s j p fits free promised = ground (
    arith,
    released_by-insert_horizon_point
        (record {
          node = s.next_node;
          nb_released_machines = j.nb_requested_resources;
          date = date + j.walltime;
        })
        p.completion_time s.horizons,
  )

  pub execute_keeps :
      (date : ℕ) (s : State I) (j : Job)
      → ((execute I date s j).priority_job ≡ s.priority_job)
        × ((execute I date s j).nb_machines ≡ s.nb_machines)
  unfolding execute
  execute_keeps date s j = (refl, refl)

  run_queue-Inv :
      (date : ℕ) (s : State I) (js : List Job)
      → Core I w s
      → s.priority_job ≡ none
      → All (Valid I w s.nb_machines) js
      → Returns (Inv I w) (run_queue I date s js)
  unfolding run_queue execute
  run_queue-Inv date s [] c idle valid = (
    (c, tt, subst (Planned I w (record s { pending_jobs = [] })) (sym idle) refl),
    subst (Blocked I w s.nb_available_machines) (sym idle) tt,
  )
  run_queue-Inv date s (j ∷ js) c idle (valid, rest) =
      elim (Bool-cases (leb j.nb_requested_resources s.nb_available_machines)) [
        | inl fits ↦ rw fits (
            run_queue-Inv date (execute I date s j) js
              (execute-Core I L w date s j c valid.0 (leb→le _ _ fits)) idle rest)
        | inr lack ↦
            rw lack
              (make_priority-Inv (record s { pending_jobs = js }) j c rest valid (ground arith))
      ]

  pub try_priority-Inv :
      (date : ℕ) (s : State I) (p : PriorityJob)
      → Queued I w s
      → s.priority_job ≡ some p
      → Returns (Inv I w) (try_priority I date s p)
  unfolding try_priority execute
  try_priority-Inv date s p (c, pending, planned) e =
      let plan : Planned I w s (some p) = subst (Planned I w s) e planned in
      elim (Bool-cases (leb p.job.nb_requested_resources s.nb_available_machines)) [
        | inl fits ↦ rw fits (
            run_queue-Inv date (record (execute I date s p.job) { priority_job = none })
              s.pending_jobs (execute-Core I L w date s p.job c plan.0.0 (leb→le _ _ fits)) refl
              pending)
        | inr lack ↦ rw lack (
          (c, pending, planned),
          subst (Blocked I w s.nb_available_machines) (sym e) (leb→lt _ _ lack),
        )
      ]
