-- ===== src/EasyBf3/Tests.antt =====
-- EasyBackfilling3 on a platform of four machines.
use schedule_test.Base.{
  ℕ, ◌≡◌, refl, [], ◌∷◌, none, some, ◌==◌, if◌then◌else◌, Returns, true, false, arith,
}
use schedule_test.Intervals.Masks.{masks, masks-laws}
use schedule_test.Workload.{Job, Workload}
use schedule_test.Queue.{fcfs}
use schedule_test.EasyBf3.{
  State, on_simulation_start, handle_scheduled_job, check_priority_job, make_decisions,
}
use schedule_test.EasyBf3.Accounts.{on_simulation_start-Core, handle_scheduled_job-Core}
use schedule_test.EasyBf3.Ascending.{Reservation}
use schedule_test.EasyBf3.Checks.{Running, check_priority_job-reserves}
use schedule_test.EasyBf3.Decisions.{
  Accounted, on_simulation_start-Accounted, make_decisions-keeps_machines,
}

abbrev job : ℕ → ℕ → ℕ → Job
job id n walltime = record {
  id = id;
  nb_requested_resources = n;
  walltime = walltime;
  has_walltime = true;
  is_reservation = false;
}

abbrev wide : Job
wide = job 2 4 5

abbrev workload : Workload
workload id =
    if id == 1
    then some (job 1 3 10)
    else if id == 2
    then some wide
    else if id == 3
    then some (job 3 1 4)
    else none

-- Three of the machines are taken until date 10.
abbrev busy : State masks
busy = (handle_scheduled_job masks 0 (on_simulation_start masks 4) (job 1 3 10)).0

busy-Running : Running masks workload busy
unfolding handle_scheduled_job on_simulation_start
busy-Running = (
  handle_scheduled_job-Core masks masks-laws 0 (on_simulation_start masks 4) (job 1 3 10)
      (omega arith) (on_simulation_start-Core masks masks-laws 4),
  tt,
  (omega arith, tt),
)

check_priority_job-reserves_example :
    ((check_priority_job masks 0 busy wide).1 ≡ none)
    × Reservation masks busy.nb_available_machines 0
        (some 2)
        wide
        busy.scheduled_jobs
        ((check_priority_job masks 0 busy wide).0.p_job)
unfolding handle_scheduled_job on_simulation_start
check_priority_job-reserves_example =
    check_priority_job-reserves masks masks-laws workload 0 busy wide refl busy-Running
      (omega arith) (omega arith)

-- Job 1 starts, job 2 gets a reservation, and job 3 is backfilled.
make_decisions-keeps_machines_example :
    Returns
      (Accounted masks workload)
      (make_decisions masks workload fcfs 0 [] (1 ∷ 2 ∷ 3 ∷ []) (on_simulation_start masks 4))
make_decisions-keeps_machines_example =
    make_decisions-keeps_machines masks masks-laws workload fcfs 0 [] (1 ∷ 2 ∷ 3 ∷ [])
      (on_simulation_start masks 4) (on_simulation_start-Accounted masks masks-laws workload 4)
      ((_, refl, refl), ((_, refl, refl), ((_, refl, refl), tt)))
