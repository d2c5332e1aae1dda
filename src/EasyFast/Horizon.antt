-- ===== src/EasyFast/Horizon.antt =====
-- The horizon list of EasyBackfillingFast, `_horizons`: a date-sorted list of the machines that the
-- running jobs are expected to release. An iterator into that std::list is the `node` of its element,
-- a name that no other element ever has.
use schedule_test.Base.{
  ℕ, ◌+◌, ◌≤◌, ◌<◌, ◌≡◌, refl, ◌≢◌, List, [], ◌∷◌, Option, none, some, arith, ltb, leb, ◌==◌,
  if◌then◌else◌, Result, ok, err, never_executable, Bool-cases, inl, inr, All,
}

pub record FinishedHorizonPoint : Type 0 where
  pub node : ℕ
  pub nb_released_machines : ℕ
  pub date : ℕ

-- Before the first point with a later date, else at the end.
unfoldable pub insert_horizon_point :
    FinishedHorizonPoint → List FinishedHorizonPoint → List FinishedHorizonPoint
insert_horizon_point point [] = point ∷ []
insert_horizon_point point (p ∷ ps) =
    if ltb point.date p.date then point ∷ p ∷ ps else p ∷ insert_horizon_point point ps

-- `_horizons.erase(it)`.
unfoldable pub erase : ℕ → List FinishedHorizonPoint → List FinishedHorizonPoint
erase n [] = []
erase n (p ∷ ps) = if p.node == n then ps else p ∷ erase n ps

-- The loop of `compute_priority_job_expected_earliest_starting_time`, from the machines available
-- so far. Its end is a failed assertion.
unfoldable pub earliest_start : (required available : ℕ) → List FinishedHorizonPoint → Result ℕ
earliest_start required available [] = err never_executable
earliest_start required available (p ∷ ps) =
    if leb required (available + p.nb_released_machines)
    then ok p.date
    else earliest_start required (available + p.nb_released_machines) ps

-- What the proofs say of such a list.

-- The machines that an element releases.
unfoldable pub find : ℕ → List FinishedHorizonPoint → Option ℕ
find n [] = none
find n (p ∷ ps) = if p.node == n then some p.nb_released_machines else find n ps

-- All the machines that the list releases.
unfoldable pub total : List FinishedHorizonPoint → ℕ
total [] = 0
total (p ∷ ps) = p.nb_released_machines + total ps

pub total-nil : total [] ≡ 0
unfolding total
total-nil = refl

-- Those released at a date or before.
unfoldable pub released_by : ℕ → List FinishedHorizonPoint → ℕ
released_by t [] = 0
released_by t (p ∷ ps) = (if leb p.date t then p.nb_released_machines else 0) + released_by t ps

-- Dates ascend, and none is before `d`.
abbrev pub SortedFrom : ℕ → List FinishedHorizonPoint → Type 0
SortedFrom d [] = Unit {0}
SortedFrom d (p ∷ ps) = (d ≤ p.date) × SortedFrom p.date ps

module _ (point : FinishedHorizonPoint) where
  pub total-insert_horizon_point :
      (ps : List FinishedHorizonPoint)
      → total (insert_horizon_point point ps) ≡ point.nb_released_machines + total ps
  unfolding total insert_horizon_point
  total-insert_horizon_point [] = refl
  total-insert_horizon_point (p ∷ ps) = ground (arith, total-insert_horizon_point ps)

  pub released_by-insert_horizon_point :
      (t : ℕ) (ps : List FinishedHorizonPoint)
      → released_by t (insert_horizon_point point ps)
        ≡ (if leb point.date t then point.nb_released_machines else 0) + released_by t ps
  unfolding released_by insert_horizon_point
  released_by-insert_horizon_point t [] = refl
  released_by-insert_horizon_point t (p ∷ ps) =
      ground (arith, released_by-insert_horizon_point t ps)

  insert_horizon_point-SortedFrom :
      (d : ℕ) (ps : List FinishedHorizonPoint)
      → d ≤ point.date
      → SortedFrom d ps
      → SortedFrom d (insert_horizon_point point ps)
  unfolding insert_horizon_point
  insert_horizon_point-SortedFrom d [] h s = (h, tt)
  insert_horizon_point-SortedFrom d (p ∷ ps) h s =
      ground (arith, insert_horizon_point-SortedFrom p.date ps)

  pub find-insert_horizon_point :
      (n : ℕ) (ps : List FinishedHorizonPoint)
      → n ≢ point.node
      → find n (insert_horizon_point point ps) ≡ find n ps
  unfolding find insert_horizon_point
  find-insert_horizon_point n [] h = ground arith
  find-insert_horizon_point n (p ∷ ps) h = ground (arith, find-insert_horizon_point n ps)

  pub find-insert_horizon_point_self :
      (ps : List FinishedHorizonPoint)
      → find point.node ps ≡ none
      → find point.node (insert_horizon_point point ps) ≡ some point.nb_released_machines
  unfolding find insert_horizon_point
  find-insert_horizon_point_self [] h = ground arith
  find-insert_horizon_point_self (p ∷ ps) h = ground (arith, find-insert_horizon_point_self ps)

-- The list stays sorted.
pub insert_horizon_point-Sorted :
    (point : FinishedHorizonPoint) (ps : List FinishedHorizonPoint)
    → SortedFrom 0 ps
    → SortedFrom 0 (insert_horizon_point point ps)
insert_horizon_point-Sorted point ps s = insert_horizon_point-SortedFrom point 0 ps (omega arith) s

pub SortedFrom-mono :
    (c d : ℕ) (ps : List FinishedHorizonPoint) → c ≤ d → SortedFrom d ps → SortedFrom c ps
SortedFrom-mono c d [] h s = tt
SortedFrom-mono c d (p ∷ ps) h s = (omega arith, s.1)

pub erase-SortedFrom :
    (n d : ℕ) (ps : List FinishedHorizonPoint) → SortedFrom d ps → SortedFrom d (erase n ps)
unfolding erase
erase-SortedFrom n d [] s = tt
erase-SortedFrom n d (p ∷ ps) s =
    ground (arith, erase-SortedFrom n p.date ps s.1, SortedFrom-mono d p.date ps)

module _ (n r : ℕ) where
  pub total-erase :
      (ps : List FinishedHorizonPoint) → find n ps ≡ some r → total (erase n ps) + r ≡ total ps
  unfolding total erase find
  total-erase [] h = cc
  total-erase (p ∷ ps) h = ground (arith, total-erase ps)

  pub released_by-erase :
      (t : ℕ) (ps : List FinishedHorizonPoint)
      → find n ps ≡ some r
      → released_by t ps ≤ released_by t (erase n ps) + r
  unfolding released_by erase find
  released_by-erase t [] h = cc
  released_by-erase t (p ∷ ps) h = ground (arith, released_by-erase t ps)

pub find-erase :
    (m n : ℕ) (ps : List FinishedHorizonPoint) → m ≢ n → find m (erase n ps) ≡ find m ps
unfolding erase find
find-erase m n [] h = refl
find-erase m n (p ∷ ps) h = ground (arith, find-erase m n ps)

pub released_by-le-total : (t : ℕ) (ps : List FinishedHorizonPoint) → released_by t ps ≤ total ps
unfolding released_by total
released_by-le-total t [] = omega arith
released_by-le-total t (p ∷ ps) = ground (arith, released_by-le-total t ps)

-- The loop's contract: with enough machines in all it finds a date, not before the first, by which
-- enough machines are free.
pub earliest_start_lem :
    (required available d : ℕ) (ps : List FinishedHorizonPoint)
    → SortedFrom d ps
    → available < required
    → required ≤ available + total ps
    → (t : ℕ) × (earliest_start required available ps ≡ ok t)
      × (d ≤ t)
      × (required ≤ available + released_by t ps)
unfolding earliest_start total released_by
earliest_start_lem required available d [] s lack h = absurd (omega arith)
earliest_start_lem required available d (p ∷ ps) s lack h =
    elim (Bool-cases (leb required (available + p.nb_released_machines))) [
      | inl enough ↦ (p.date, rw enough refl, s.0, ground arith)
      | inr more ↦
          let (t, e, le, r) =
            earliest_start_lem required (available + p.nb_released_machines) p.date ps s.1
              (ground arith) (omega arith) in
          (t, rw more e, omega arith, ground (arith, r))
    ]

-- Every element of the list is named below `n`.
abbrev pub NodesBelow : ℕ → List FinishedHorizonPoint → Type 0
NodesBelow n = All (λ p. p.node < n)

pub NodesBelow-mono :
    (m n : ℕ) (ps : List FinishedHorizonPoint) → m ≤ n → NodesBelow m ps → NodesBelow n ps
NodesBelow-mono m n [] h b = tt
NodesBelow-mono m n (p ∷ ps) h b = (omega arith, NodesBelow-mono m n ps h b.1)

pub find_above : (n : ℕ) (ps : List FinishedHorizonPoint) → NodesBelow n ps → find n ps ≡ none
unfolding find
find_above n [] b = refl
find_above n (p ∷ ps) b = ground (arith, find_above n ps b.1)

pub insert_horizon_point-NodesBelow :
    (n : ℕ) (point : FinishedHorizonPoint) (ps : List FinishedHorizonPoint)
    → point.node < n
    → NodesBelow n ps
    → NodesBelow n (insert_horizon_point point ps)
unfolding insert_horizon_point
insert_horizon_point-NodesBelow n point [] h b = (h, tt)
insert_horizon_point-NodesBelow n point (p ∷ ps) h b =
    ground (arith, insert_horizon_point-NodesBelow n point ps h b.1)

pub erase-NodesBelow :
    (n m : ℕ) (ps : List FinishedHorizonPoint) → NodesBelow n ps → NodesBelow n (erase m ps)
unfolding erase
erase-NodesBelow n m [] b = tt
erase-NodesBelow n m (p ∷ ps) b = ground (arith, erase-NodesBelow n m ps b.1)
