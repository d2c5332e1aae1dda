-- ===== src/Schedule/JobMap.antt =====
-- The map of a time slice from its jobs to their machines, ordered by JobComparator: an association
-- list in which the identifiers ascend.
pub mod Laws
pub mod Unique
use schedule_test.Base.{
  ℕ, List, [], ◌∷◌, Option, none, some, Bool, true, false, ltb, ◌==◌, ◌&&◌, if◌then◌else◌,
}
use schedule_test.Workload.{Job}

module _ {M : Type 0} where
  -- `m[job] = machines`.
  unfoldable pub insert_job : Job → M → List (Job × M) → List (Job × M)
  insert_job j m [] = (j, m) ∷ []
  insert_job j m ((k, n) ∷ rest) =
      if k.id == j.id
      then (k, m) ∷ rest
      else if ltb j.id k.id
      then (j, m) ∷ (k, n) ∷ rest
      else (k, n) ∷ insert_job j m rest

  unfoldable pub find_job : ℕ → List (Job × M) → Option M
  find_job id [] = none
  find_job id ((k, n) ∷ rest) = if k.id == id then some n else find_job id rest

  -- `count(job) == 1`.
  unfoldable pub has_job : ℕ → List (Job × M) → Bool
  has_job id [] = false
  has_job id ((k, n) ∷ rest) = if k.id == id then true else has_job id rest

  unfoldable pub erase_job : ℕ → List (Job × M) → List (Job × M)
  erase_job id [] = []
  erase_job id ((k, n) ∷ rest) = if k.id == id then rest else (k, n) ∷ erase_job id rest

  unfoldable pub same_ids : List (Job × M) → List (Job × M) → Bool
  same_ids [] [] = true
  same_ids [] (y ∷ ys) = false
  same_ids (x ∷ xs) [] = false
  same_ids (x ∷ xs) (y ∷ ys) = x.0.id == y.0.id && same_ids xs ys
