-- ===== src/Pstate/Tests.antt =====
-- Requests to switch the power states of machines of four.
use schedule_test.Base.{
  Option, ◌⊎◌, ok, Found, not_switching, err, lookup, ℕ, ◌≡◌, refl, List, [], ◌∷◌, Bool, true,
  false, Returns, zero, suc,
}
use schedule_test.Intervals.Masks.{masks, masks-laws}
use schedule_test.Pstate.{machine, Switch, CurrentSwitches, add_switch, mark_switch_as_done}
use schedule_test.Pstate.Requests.{
  Unmarked, Remaining, Answered, mark_all, mark_switch_as_done-add_switch,
  mark_switch_as_done-cases,
}

-- The first machine is switching to the power state 2.
abbrev first_one : Switch masks
first_one = record { target_pstate = 2; all_machines = true ∷ []; switching_machines = true ∷ [] }

abbrev before : CurrentSwitches masks
before = (2, first_one ∷ []) ∷ []

-- The second and the fourth machine are to switch to it too.
abbrev asked : List Bool
asked = false ∷ true ∷ false ∷ true ∷ []

nobody_left :
    (i : ℕ)
    → masks.contains (masks.remove (masks.remove asked (machine masks 3)) (machine masks 1)) i
      ≡ false
nobody_left zero = refl
nobody_left (suc zero) = refl
nobody_left (suc (suc zero)) = refl
nobody_left (suc (suc (suc zero))) = refl
nobody_left (suc (suc (suc (suc i)))) = refl

Remaining-asked : Remaining masks masks-laws (3 ∷ 1 ∷ []) asked
Remaining-asked = (refl, (refl, nobody_left))

mark_switch_as_done-add_switch_example :
    Returns
      (Answered masks masks-laws asked (3 ∷ 1 ∷ []) before)
      (mark_all masks masks-laws (3 ∷ 1 ∷ []) 2 (add_switch masks asked 2 before))
unfolding lookup
mark_switch_as_done-add_switch_example =
    mark_switch_as_done-add_switch masks masks-laws 2 asked 3 (1 ∷ []) (first_one ∷ []) before refl
      ((refl, tt), ((refl, tt), tt)) Remaining-asked

mark_switch_as_done-cases_example :
    (Found (Unmarked masks masks-laws 1) (lookup 2 before)
      × (mark_switch_as_done masks 1 2 before ≡ err not_switching))
    ⊎ ((¬ Found (Unmarked masks masks-laws 1) (lookup 2 before))
        × (r : CurrentSwitches masks × Option (List Bool)) × (mark_switch_as_done masks 1 2 before
            ≡ ok r))
mark_switch_as_done-cases_example = mark_switch_as_done-cases masks masks-laws 1 2 before
