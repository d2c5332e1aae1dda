-- ===== src/Locality/Tests.antt =====
-- Selecting among four machines.
use schedule_test.Base.{◌≡◌, List, [], ◌∷◌, Bool, true, false, some, none, ◌<◌, ◌⊎◌}
use schedule_test.Intervals.Masks.{masks, masks-laws}
use schedule_test.Intervals.Interface.{Subset}
use schedule_test.Workload.{Job}
use schedule_test.Locality.Limited.{limited_fit, limited_fit-cases}

abbrev pair : Job
pair = record {
  id = 1;
  nb_requested_resources = 2;
  walltime = 10;
  has_walltime = true;
  is_reservation = false;
}

-- The last three machines.
abbrev range : List Bool
range = false ∷ true ∷ true ∷ true ∷ []

limited_fit-cases_example :
    ((allocated : List Bool) × (limited_fit masks range pair (true ∷ true ∷ false ∷ true ∷ [])
        ≡ some allocated)
      × Subset masks allocated (true ∷ true ∷ false ∷ true ∷ [])
      × Subset masks allocated range
      × (masks.size allocated ≡ 2))
    ⊎ ((limited_fit masks range pair (true ∷ true ∷ false ∷ true ∷ []) ≡ none)
        × (masks.size (masks.inter (true ∷ true ∷ false ∷ true ∷ []) range) < 2))
limited_fit-cases_example =
    limited_fit-cases masks masks-laws range pair (true ∷ true ∷ false ∷ true ∷ [])
