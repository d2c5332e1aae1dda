-- ===== src/Filler/Tests.antt =====
-- The Filler on a platform of four machines.
use schedule_test.Base.{
  ℕ, refl, [], ◌∷◌, none, some, Returns, true, false, arith, ◌==◌, if◌then◌else◌,
}
use schedule_test.Intervals.Masks.{masks, masks-laws}
use schedule_test.Workload.{Job, Workload}
use schedule_test.Locality.{basic}
use schedule_test.Queue.{descending_size}
use schedule_test.Filler.{on_simulation_start, make_decisions}
use schedule_test.Filler.Allocations.{
  Filled, on_simulation_start-Accounted, make_decisions-spares_unavailable,
}

abbrev job : ℕ → ℕ → Job
job id n = record {
  id = id;
  nb_requested_resources = n;
  walltime = 10;
  has_walltime = true;
  is_reservation = false;
}

abbrev workload : Workload
workload id = if id == 2 then some (job 2 3) else if id == 3 then some (job 3 1) else none

-- Machine 1 is withdrawn while two jobs are released.
make_decisions-spares_unavailable_example :
    Returns
      (Filled masks [] (masks.insert (masks.remove masks.empty masks.empty) (false ∷ true ∷ [])))
      (make_decisions masks
        (basic masks masks-laws)
        (λ n. n)
        workload
        descending_size
        7
        []
        (2 ∷ 3 ∷ [])
        masks.empty
        (false ∷ true ∷ [])
        (on_simulation_start masks 4))
unfolding on_simulation_start
make_decisions-spares_unavailable_example =
    make_decisions-spares_unavailable masks masks-laws workload (basic masks masks-laws) (λ n. n)
      descending_size 7 [] (2 ∷ 3 ∷ []) masks.empty (false ∷ true ∷ [])
      (on_simulation_start masks 4) (λ n pos. (pos, omega arith))
      (on_simulation_start-Accounted masks masks-laws workload 4) tt
      ((_, refl, omega arith), ((_, refl, omega arith), tt))
