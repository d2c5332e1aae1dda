-- ===== src/Fcfs/Tests.antt =====
-- FCFS on a platform of four machines, with the basic selector.
use schedule_test.Base.{
  ℕ, ◌≡◌, refl, ◌++◌, [], ◌∷◌, some, none, ◌==◌, if◌then◌else◌, ok, Returns, lookup, delete, put,
  true, false,
}
use schedule_test.Intervals.Masks.{masks, masks-laws}
use schedule_test.Workload.{Job, Workload, execute_job}
use schedule_test.Locality.{basic}
use schedule_test.Fcfs.{
  State, on_simulation_start, make_decisions, release_job, release_jobs, end_jobs, execute,
}
use schedule_test.Fcfs.Accounts.{Accounted, make_decisions-Accounted, on_simulation_start-Accounted}
use schedule_test.Fcfs.Fast
use schedule_test.Fcfs.Fast.{make_decisions-same}
use schedule_test.Fcfs.Order.{line, accepted, make_decisions-line}

abbrev job : ℕ → ℕ → Job
job id n = record {
  id = id;
  nb_requested_resources = n;
  walltime = 10;
  has_walltime = true;
  is_reservation = false;
}

abbrev workload : Workload
workload id =
    if id == 1
    then some (job 1 3)
    else if id == 2
    then some (job 2 2)
    else if id == 3
    then some (job 3 1)
    else if id == 4
    then some (job 4 9)
    else none

-- Job 1 runs; job 2 waits for it, and job 3, which would fit, for job 2.
abbrev busy : State masks
busy = record {
  nb_machines = 4;
  available_machines = false ∷ false ∷ false ∷ true ∷ [];
  nb_available_machines = 1;
  current_allocations = (1, true ∷ true ∷ true ∷ []) ∷ [];
  pending_jobs = job 2 2 ∷ job 3 1 ∷ [];
  decisions = execute_job 1 (true ∷ true ∷ true ∷ []) 0 ∷ [];
}

busy_run :
    make_decisions masks
      (basic masks masks-laws)
      workload
      0
      []
      (1 ∷ 2 ∷ 3 ∷ [])
      (on_simulation_start masks 4)
    ≡ ok busy
unfolding make_decisions on_simulation_start release_job execute put delete end_jobs release_jobs
busy_run = refl

busy-Accounted : Accounted masks workload busy
unfolding make_decisions on_simulation_start release_job execute put delete end_jobs release_jobs
busy-Accounted =
    make_decisions-Accounted masks masks-laws workload (basic masks masks-laws) 0 []
      (1 ∷ 2 ∷ 3 ∷ []) (on_simulation_start masks 4)
      (on_simulation_start-Accounted masks masks-laws workload 4) tt
      ((_, refl, refl), ((_, refl, refl), ((_, refl, refl), tt)))

make_decisions-Accounted_example :
    Returns
      (Accounted masks workload)
      (make_decisions masks (basic masks masks-laws) workload 9 (1 ∷ []) (4 ∷ []) busy)
unfolding lookup
make_decisions-Accounted_example =
    make_decisions-Accounted masks masks-laws workload (basic masks masks-laws) 9 (1 ∷ []) (4 ∷ [])
      busy busy-Accounted (_, refl, tt) ((_, refl, refl), tt)

make_decisions-line_example :
    Returns
      (λ s'. line masks s' ≡ line masks busy ++ accepted workload 4 (4 ∷ []))
      (make_decisions masks (basic masks masks-laws) workload 9 (1 ∷ []) (4 ∷ []) busy)
unfolding lookup
make_decisions-line_example =
    make_decisions-line masks masks-laws workload (basic masks masks-laws) 9 (1 ∷ []) (4 ∷ []) busy
      busy-Accounted (_, refl, tt) ((_, refl, refl), tt)

make_decisions-same_example :
    Fast.make_decisions masks workload 9 (1 ∷ []) (4 ∷ []) busy
    ≡ make_decisions masks (basic masks masks-laws) workload 9 (1 ∷ []) (4 ∷ []) busy
unfolding lookup
make_decisions-same_example =
    make_decisions-same masks masks-laws workload 9 (1 ∷ []) (4 ∷ []) busy busy-Accounted
      (_, refl, tt)
