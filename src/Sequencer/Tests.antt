-- ===== src/Sequencer/Tests.antt =====
-- The Sequencer on a platform of four machines.
use schedule_test.Base.{
  ℕ, refl, [], ◌∷◌, none, some, Returns, true, false, arith, ◌==◌, if◌then◌else◌,
}
use schedule_test.Intervals.Masks.{masks}
use schedule_test.Workload.{Job, Workload}
use schedule_test.Queue.{fcfs}
use schedule_test.Sequencer.{State, make_decisions}
use schedule_test.Sequencer.OneJob.{Feasible, Ran, Busy, make_decisions-one_job}

abbrev job : ℕ → ℕ → Job
job id n = record {
  id = id;
  nb_requested_resources = n;
  walltime = 10;
  has_walltime = true;
  is_reservation = false;
}

abbrev workload : Workload
workload id = if id == 2 then some (job 2 3) else if id == 3 then some (job 3 9) else none

-- A job runs, and job 1 waits.
abbrev one_waits : State masks
one_waits = record {
  nb_machines = 4;
  machines = true ∷ true ∷ true ∷ true ∷ [];
  is_job_running = true;
  queue = record { job = job 1 4; release_date = 0; slowdown = 0 } ∷ [];
  decisions = [];
}

make_decisions-one_job_example :
    Returns
      (λ s'. (Feasible masks s' × Ran masks 1 one_waits s') × Busy masks s')
      (make_decisions masks workload fcfs 7 (9 ∷ []) (2 ∷ 3 ∷ []) one_waits)
make_decisions-one_job_example =
    make_decisions-one_job masks workload fcfs 7 (9 ∷ []) (2 ∷ 3 ∷ []) one_waits (omega arith, tt)
      (omega arith) ((_, refl, refl), ((_, refl, refl), tt))
