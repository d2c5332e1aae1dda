-- ===== src/EasyFast/Tests.antt =====
-- EasyBackfillingFast on a platform of four machines.
use schedule_test.Base.{
  ℕ, ◌+◌, ◌≤◌, ◌≡◌, refl, arith, [], ◌∷◌, none, some, ◌==◌, if◌then◌else◌, ok, Returns, lookup,
  delete, put, true, false,
}
use schedule_test.Intervals.Masks.{masks, masks-laws}
use schedule_test.Workload.{Job, Workload, execute_job}
use schedule_test.EasyFast.{State, on_simulation_start, make_decisions, release_job, execute}
use schedule_test.EasyFast.Horizon.{
  insert_horizon_point, earliest_start, earliest_start_lem, released_by, total,
}
use schedule_test.EasyFast.Invariant.{Inv}
use schedule_test.EasyFast.Decisions.{make_decisions-Inv, on_simulation_start-Inv}
use schedule_test.EasyFast.Promise.{Kept, make_decisions-Kept}

abbrev job : ℕ → ℕ → ℕ → Job
job id n walltime = record {
  id = id;
  nb_requested_resources = n;
  walltime = walltime;
  has_walltime = true;
  is_reservation = false;
}

abbrev wide : Job
wide = job 2 4 5

abbrev workload : Workload
workload id =
    if id == 1
    then some (job 1 3 10)
    else if id == 2
    then some wide
    else if id == 3
    then some (job 3 1 4)
    else if id == 4
    then some (job 4 1 6)
    else if id == 5
    then some (job 5 1 7)
    else if id == 6
    then some (job 6 9 1)
    else none

-- Job 1 runs, job 2 is the priority job and waits for it, job 3 is backfilled.
abbrev busy : State masks
busy = record {
  nb_machines = 4;
  available_machines = false ∷ false ∷ false ∷ false ∷ [];
  nb_available_machines = 0;
  horizons =
      record { node = 1; nb_released_machines = 1; date = 4 }
      ∷ record { node = 0; nb_released_machines = 3; date = 10 }
      ∷ [];
  next_node = 2;
  current_allocations =
      (3, record { machines = false ∷ false ∷ false ∷ true ∷ []; horizon_it = 1 })
      ∷ (1, record { machines = true ∷ true ∷ true ∷ []; horizon_it = 0 })
      ∷ [];
  pending_jobs = [];
  priority_job = some (record { job = wide; completion_time = 10 });
  decisions =
      execute_job 3 (false ∷ false ∷ false ∷ true ∷ []) 0
      ∷ execute_job 1 (true ∷ true ∷ true ∷ []) 0
      ∷ [];
}

busy_run :
    make_decisions masks workload 0 [] (1 ∷ 2 ∷ 3 ∷ []) (on_simulation_start masks 4) ≡ ok busy
unfolding make_decisions on_simulation_start release_job execute insert_horizon_point earliest_start
    put delete
busy_run = refl

busy-Inv : Inv masks workload busy
unfolding make_decisions on_simulation_start release_job execute insert_horizon_point earliest_start
    put delete
busy-Inv =
    make_decisions-Inv masks masks-laws workload 0 [] (1 ∷ 2 ∷ 3 ∷ []) (on_simulation_start masks 4)
      (on_simulation_start-Inv masks masks-laws workload 4) tt
      ((_, refl, refl), ((_, refl, refl), ((_, refl, refl), tt)))

-- At date 4 job 3 ends, and jobs 4, 5 and 6 are released.
make_decisions-Inv_example :
    Returns (Inv masks workload) (make_decisions masks workload 4 (3 ∷ []) (4 ∷ 5 ∷ 6 ∷ []) busy)
unfolding lookup
make_decisions-Inv_example =
    make_decisions-Inv masks masks-laws workload 4 (3 ∷ []) (4 ∷ 5 ∷ 6 ∷ []) busy busy-Inv
      (_, refl, tt) ((_, refl, refl), ((_, refl, refl), ((_, refl, refl), tt)))

-- The priority job of four machines can start when both points have passed.
earliest_start_lem_example :
    (t : ℕ) × (earliest_start 4 0 busy.horizons ≡ ok t)
    × (0 ≤ t)
    × (4 ≤ 0 + released_by t busy.horizons)
unfolding total
earliest_start_lem_example =
    earliest_start_lem 4 0 0 busy.horizons (omega arith, (omega arith, tt)) (omega arith)
      (omega arith)

make_decisions-Kept_example :
    Returns
      (Kept masks (record { job = wide; completion_time = 10 }))
      (make_decisions masks workload 10 (3 ∷ 1 ∷ []) (4 ∷ []) busy)
unfolding lookup delete
make_decisions-Kept_example =
    make_decisions-Kept masks masks-laws workload 10 (3 ∷ 1 ∷ []) (4 ∷ []) busy
      (record { job = wide; completion_time = 10 }) refl busy-Inv (_, refl, (_, refl, tt))
      ((_, refl, refl), tt)
