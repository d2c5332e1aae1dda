-- ===== src/Pstate/Requests.antt =====
-- pstate.cpp, CurrentSwitches: a request is answered once, when its last machine has switched.
use schedule_test.Base.{
  ◌⊎◌, Found, not_switching, ==_iff, ℕ, ◌≡◌, refl, sym, ap, ◌∙◌, List, [], ◌∷◌, ◌++◌, Option, none,
  some, true, false, All, arith, ◌==◌, Bool-cases, Option-cases, inl, inr, if◌then◌else◌, is_empty,
  lookup, put, delete, lookup-put, Returns, Returns-bind, Result, ok, err, ◌>>=◌,
}
use schedule_test.Intervals.Interface.{Intervals, IntervalLaws}
use schedule_test.Pstate.{
  machine, Switch, CurrentSwitches, add_switch, mark_in_list, mark_switch_as_done,
}
use schedule_test.Pstate.Machines.{delete-none, put-put, delete-put, some-size, none-size}

module _ (I : Intervals) (L : IntervalLaws I) where
  -- No request of the list is about the machine.
  abbrev pub Unmarked : ℕ → List (Switch I) → Type 0
  Unmarked m = All (λ s. I.contains s.switching_machines m ≡ false)

  -- The machines that one after the other have still to switch, each named once.
  abbrev pub Remaining : List ℕ → I.Machines → Type 0
  Remaining [] a = (i : ℕ) → I.contains a i ≡ false
  Remaining (m ∷ ms) a = (I.contains a m ≡ true) × Remaining ms (I.remove a (machine I m))

  -- The last request of the list is marked.
  mark_in_list-last :
      (m : ℕ) (old : List (Switch I)) (s : Switch I)
      → Unmarked m old
      → I.contains s.switching_machines m ≡ true
      → mark_in_list I m (old ++ s ∷ []) ≡ (
          let left = I.remove s.switching_machines (machine I m) in
          if I.size left == 0
          then ok (old, some s.all_machines)
          else ok (old ++ record s { switching_machines = left } ∷ [], none))
  unfolding mark_in_list
  mark_in_list-last m [] s clear has =
      elim (Bool-cases (I.size (I.remove s.switching_machines (machine I m)) == 0)) [
        | inl last ↦ rw (has, last) refl
        | inr more ↦ rw (has, more) refl
      ]
  mark_in_list-last m (o ∷ old) s clear has =
      let ih = mark_in_list-last m old s (clear.1) has in
      elim (Bool-cases (I.size (I.remove s.switching_machines (machine I m)) == 0)) [
        | inl last ↦ rw (clear.0, ih, last) refl
        | inr more ↦ rw (clear.0, ih, more) refl
      ]

  -- One machine after the other has switched: the requests, and what each call answered.
  abbrev pub mark_all :
      List ℕ
      → (target_pstate : ℕ) → CurrentSwitches I
      → Result (CurrentSwitches I × List (Option I.Machines))
  mark_all [] p switches = ok (switches, [])
  mark_all (m ∷ ms) p switches =
      mark_switch_as_done I m p switches >>= λ r. mark_all ms p (r.0) >>= λ q. ok (q.0, r.1 ∷ q.1)

  -- None, until the last call answers with the machines of the request.
  abbrev pub answers : I.Machines → List ℕ → List (Option I.Machines)
  answers a [] = []
  answers a (m ∷ []) = some a ∷ []
  answers a (m ∷ k ∷ ms) = none ∷ answers a (k ∷ ms)

  -- The requests for the power state are those of the list; an empty list is not kept.
  abbrev pub Holds : ℕ → List (Switch I) → CurrentSwitches I → Type 0
  Holds p [] switches = lookup p switches ≡ none
  Holds p (s ∷ list) switches = lookup p switches ≡ some (s ∷ list)

  -- Every request is as it was, and the calls have answered.
  abbrev pub Answered :
      I.Machines
      → List ℕ
      → (before : CurrentSwitches I) → CurrentSwitches I × List (Option I.Machines)
      → Type 0
  Answered a ms before (after, said) =
      ((q : ℕ) → lookup q after ≡ lookup q before) × (said ≡ answers a ms)

  forgets :
      (p : ℕ) (old list : List (Switch I)) (before : CurrentSwitches I)
      → Holds p old before
      → (q : ℕ)
      → lookup q
          (if is_empty old then delete p (put p list before) else put p old (put p list before))
        ≡ lookup q before
  forgets p [] list before none_yet q =
      rw (delete-put p list before, delete-none p before none_yet) refl
  forgets p (o ∷ old) list before there q =
      rw (put-put p (o ∷ old) list before, lookup-put p q (o ∷ old) before)
        (elim (Bool-cases (p == q)) [
          | inl same ↦ rw same (sym there ∙ ap (λ k. lookup k before) ((==_iff p q).0 same))
          | inr other ↦ rw other refl
        ])

  lookup-own :
      (p : ℕ) (list : List (Switch I)) (before : CurrentSwitches I)
      → lookup p (put p list before) ≡ some list
  lookup-own p list before =
      let own : (p == p) ≡ true = ground arith in lookup-put p p list before ∙ rw own refl

  nonempty : (old : List (Switch I)) (s : Switch I) → is_empty (old ++ s ∷ []) ≡ false
  nonempty [] s = refl
  nonempty (o ∷ old) s = refl

  mark_switch_as_done-eq :
      (m p : ℕ) (switches : CurrentSwitches I) (list left : List (Switch I)) (a : Option I.Machines)
      → lookup p switches ≡ some list
      → mark_in_list I m list ≡ ok (left, a)
      → mark_switch_as_done I m p switches
        ≡ ok (if is_empty left then delete p switches else put p left switches, a)
  unfolding mark_switch_as_done
  mark_switch_as_done-eq m p switches list left a there marks =
      rw (there, mark_switch_as_done) (rw marks refl)

  add_switch-eq :
      (p : ℕ) (machines : I.Machines) (list : List (Switch I)) (before : CurrentSwitches I)
      → Holds p list before
      → add_switch I machines p before
        ≡ put p
            (list
              ++ record {
                target_pstate = p;
                all_machines = machines;
                switching_machines = machines;
              }
                ∷ [])
            before
  unfolding add_switch
  add_switch-eq p machines [] before there = rw (there, add_switch) refl
  add_switch-eq p machines (o ∷ list) before there = rw (there, add_switch) refl

  -- From any point of the request on.
  mark_all-Answered :
      (p : ℕ) (old : List (Switch I)) (before : CurrentSwitches I)
      → Holds p old before
      → (m : ℕ) (ms : List ℕ) (s : Switch I) → All (λ k. Unmarked k old) (m ∷ ms)
      → Remaining (m ∷ ms) s.switching_machines
      → Returns
          (Answered s.all_machines (m ∷ ms) before)
          (mark_all (m ∷ ms) p (put p (old ++ s ∷ []) before))
  mark_all-Answered p old before there m [] s clear remain =
      let last = none-size I L (I.remove s.switching_machines (machine I m)) (remain.1) in
      let marked = mark_in_list-last m old s (clear.0) (remain.0) ∙ rw last refl in
      let here = put p (old ++ s ∷ []) before in
      let done =
        mark_switch_as_done-eq m p here (old ++ s ∷ []) old (some s.all_machines)
          (lookup-own p (old ++ s ∷ []) before) marked in
      rw done (forgets p old (old ++ s ∷ []) before there, refl)
  mark_all-Answered p old before there m (k ∷ ms) s clear remain =
      let left = I.remove s.switching_machines (machine I m) in
      let more = some-size I L left k (remain.1.0) in
      let marked = mark_in_list-last m old s (clear.0) (remain.0) ∙ rw more refl in
      let s' = record s { switching_machines = left } in
      let here = put p (old ++ s ∷ []) before in
      let done : mark_switch_as_done I m p here ≡ ok (put p (old ++ s' ∷ []) before, none) =
        mark_switch_as_done-eq m p here (old ++ s ∷ []) (old ++ s' ∷ []) none
          (lookup-own p (old ++ s ∷ []) before) marked
        ∙ rw (nonempty old s')
            (ap (λ c. ok (c, none)) (put-put p (old ++ s' ∷ []) (old ++ s ∷ []) before)) in
      rw done (
        Returns-bind (Answered s.all_machines (k ∷ ms) before)
          (Answered s.all_machines (m ∷ k ∷ ms) before)
          (mark_all (k ∷ ms) p (put p (old ++ s' ∷ []) before)) _
          (mark_all-Answered p old before there k ms s' (clear.1) (remain.1))
          (λ (after, said) (same, says). (same, ap (◌∷◌ none) says)))

  -- A request for a power state, about the machines of a list with at least one, each there once, of which
  -- no other request for that state is: when they have switched one after the other in the order of the
  -- list, every call ends without a fault, the last one answers with all machines of the request and the
  -- others do not answer, and the requests for every state are as they were before this one.
  pub mark_switch_as_done-add_switch :
      (p : ℕ) (machines : I.Machines) (m : ℕ) (ms : List ℕ) (list : List (Switch I))
      → (before : CurrentSwitches I) → Holds p list before
      → All (λ k. Unmarked k list) (m ∷ ms)
      → Remaining (m ∷ ms) machines
      → Returns
          (Answered machines (m ∷ ms) before)
          (mark_all (m ∷ ms) p (add_switch I machines p before))
  mark_switch_as_done-add_switch p machines m ms list before there clear remain =
      rw (add_switch-eq p machines list before there)
        (mark_all-Answered p list before there m ms _ clear remain)

  mark_in_list-cases :
      (m : ℕ) (list : List (Switch I))
      → (Unmarked m list × (mark_in_list I m list ≡ err not_switching))
        ⊎ ((¬ Unmarked m list)
            × (r : List (Switch I) × Option I.Machines) × (mark_in_list I m list ≡ ok r))
  unfolding mark_in_list
  mark_in_list-cases m [] = inl (tt, refl)
  mark_in_list-cases m (s ∷ list) = elim (Bool-cases (I.contains s.switching_machines m)) [
    | inl here ↦
        let left = I.remove s.switching_machines (machine I m) in
        let marked : List (Switch I) × Option I.Machines =
          if I.size left == 0
          then (list, some s.all_machines)
          else (record s { switching_machines = left } ∷ list, none) in
        inr (λ u. cc (here, u.0), marked, rw here refl)
    | inr elsewhere ↦ elim (mark_in_list-cases m list) [
      | inl (clear, fails) ↦ inl ((elsewhere, clear), rw (elsewhere, fails) refl)
      | inr (found, r, marks) ↦ inr (λ u. found (u.1), (s ∷ r.0, r.1), rw (elsewhere, marks) refl)
    ]
  ]

  -- A call fails exactly when no request for the power state is about the machine.
  pub mark_switch_as_done-cases :
      (m p : ℕ) (switches : CurrentSwitches I)
      → (Found (Unmarked m) (lookup p switches)
          × (mark_switch_as_done I m p switches ≡ err not_switching))
        ⊎ ((¬ Found (Unmarked m) (lookup p switches))
            × (r : CurrentSwitches I × Option I.Machines) × (mark_switch_as_done I m p switches
                ≡ ok r))
  unfolding mark_switch_as_done
  mark_switch_as_done-cases m p switches = elim (Option-cases (lookup p switches)) [
    | inl nowhere ↦ inl (rw nowhere tt, rw (nowhere, mark_switch_as_done) refl)
    | inr (list, there) ↦ elim (mark_in_list-cases m list) [
      | inl (clear, fails) ↦ inl (rw there clear, rw (there, mark_switch_as_done) (rw fails refl))
      | inr (found, r, marks) ↦ inr (
        λ u. found (rw there at u),
        _,
        mark_switch_as_done-eq m p switches list (r.0) (r.1) there marks,
      )
    ]
  ]
