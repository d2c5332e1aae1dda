-- ===== src/Pstate/Machines.antt =====
-- pstate.cpp, CurrentSwitches: the map of the requests and the sets of their machines.
use schedule_test.Base.{
  ==_iff, ℕ, ◌+◌, ◌≡◌, refl, sym, ap, subst, ◌∙◌, List, [], ◌∷◌, none, true, false, arith, ◌==◌,
  Bool-cases, inl, inr, lookup, put, delete,
}
use schedule_test.Intervals.Interface.{Intervals, IntervalLaws, Subset}
use schedule_test.Pstate.{machine}

pub delete-none : {V : Type 0} (k : ℕ) (m : List (ℕ × V)) → lookup k m ≡ none → delete k m ≡ m
unfolding lookup delete
delete-none k [] h = refl
delete-none k ((j, v) ∷ m) h = elim (Bool-cases (j == k)) [
  | inl same ↦ absurd (cc (rw same at h))
  | inr other ↦ rw other (ap (◌∷◌ (j, v)) (delete-none k m (rw other at h)))
]

pub put-put : {V : Type 0} (k : ℕ) (v w : V) (m : List (ℕ × V)) → put k v (put k w m) ≡ put k v m
unfolding put delete
put-put k v w m = let own : (k == k) ≡ true = ground arith in rw own refl

pub delete-put : {V : Type 0} (k : ℕ) (v : V) (m : List (ℕ × V)) → delete k (put k v m) ≡ delete k m
unfolding put delete
delete-put k v m = let own : (k == k) ≡ true = ground arith in rw own refl

module _ (I : Intervals) (L : IntervalLaws I) where
  contains-machine : (m i : ℕ) → I.contains (machine I m) i ≡ (m == i)
  contains-machine m i = ground (
    arith,
    L.contains-remove (I.first (m + 1)) (I.first m) i,
    L.contains-first (m + 1) i,
    L.contains-first m i,
  )

  size-machine : (m : ℕ) → I.size (machine I m) ≡ 1
  size-machine m = omega (
    arith,
    L.size-remove (I.first (m + 1)) (I.first m)
        (λ i h. ground (arith, h, L.contains-first (m + 1) i, L.contains-first m i)),
    L.size-first (m + 1),
    L.size-first m,
  )

  -- A set has no machines exactly when its size is 0.
  pub some-size : (a : I.Machines) (i : ℕ) → I.contains a i ≡ true → (I.size a == 0) ≡ false
  some-size a i has =
      let one : Subset I (machine I i) a = λ k h.
        subst (λ x. I.contains a x ≡ true) ((==_iff i k).0 (sym (contains-machine i k) ∙ h)) has in
      ground (arith, L.size-remove a (machine I i) one, size-machine i)

  pub none-size : (a : I.Machines) → ((i : ℕ) → I.contains a i ≡ false) → (I.size a == 0) ≡ true
  none-size a lacks =
      ground (arith, L.size-remove I.empty a (λ i h. absurd (cc (h, lacks i))), L.size-empty)
