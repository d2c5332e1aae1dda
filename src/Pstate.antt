-- ===== src/Pstate.antt =====
-- batsim4/src/pstate.cpp and .hpp, the class CurrentSwitches: which machines of a request still switch
-- their power state. The children are about one request from its begin to its answer.
pub mod Machines
pub mod Requests
mod Tests
use schedule_test.Base.{
  ℕ, ◌+◌, List, [], ◌∷◌, ◌++◌, Option, none, some, ◌==◌, if◌then◌else◌, is_empty, lookup, put,
  delete, Result, ok, err, ◌>>=◌, not_switching,
}
use schedule_test.Intervals.Interface.{Intervals}

-- `IntervalSet(machine_id)`, the set of one machine.
abbrev pub machine : (I : Intervals) → ℕ → I.Machines
machine I machine_id = I.remove (I.first (machine_id + 1)) (I.first machine_id)

module _ (I : Intervals) where
  pub record Switch : Type 0 where
    pub target_pstate : ℕ
    pub all_machines : I.Machines
    pub switching_machines : I.Machines

  -- `_switches`, an std::map from the target to its requests.
  abbrev pub CurrentSwitches : Type 0
  CurrentSwitches = List (ℕ × List Switch)

  pub add_switch : (machines : I.Machines) → (target_pstate : ℕ) → CurrentSwitches → CurrentSwitches
  add_switch machines target_pstate switches =
      let s : Switch = record {
        target_pstate = target_pstate;
        all_machines = machines;
        switching_machines = machines;
      } in
      elim (lookup target_pstate switches) [
        | some list ↦ put target_pstate (list ++ s ∷ []) switches
        | none ↦ put target_pstate (s ∷ []) switches
      ]

  -- The loop over the requests for one power state: what is left of them and, if the machine was the
  -- last one of a request, all machines of that request.
  pub mark_in_list : (machine_id : ℕ) → List Switch → Result (List Switch × Option I.Machines)
  mark_in_list machine_id [] = err not_switching
  mark_in_list machine_id (s ∷ list) =
      let left = I.remove s.switching_machines (machine I machine_id) in
      let rest = mark_in_list machine_id list >>= λ r. ok (s ∷ r.0, r.1) in
      let marked : List Switch × Option I.Machines =
        if I.size left == 0
        then (list, some s.all_machines)
        else (record s { switching_machines = left } ∷ list, none) in
      if I.contains s.switching_machines machine_id then ok marked else rest

  -- `mark_switch_as_done`. It answers true exactly when it sets `all_machines`.
  pub mark_switch_as_done :
      (machine_id target_pstate : ℕ)
      → CurrentSwitches
      → Result (CurrentSwitches × Option I.Machines)
  mark_switch_as_done machine_id target_pstate switches = elim (lookup target_pstate switches) [
    | none ↦ err not_switching
    | some list ↦ mark_in_list machine_id list >>= λ r. ok (
      (if is_empty (r.0) then delete target_pstate switches else put target_pstate (r.0) switches),
      r.1,
    )
  ]
