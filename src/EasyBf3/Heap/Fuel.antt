-- ===== src/EasyBf3/Heap/Fuel.antt =====
-- `max_heapify` ends: the fuel that its callers give is enough.
use schedule_test.Base.{
  ℕ, zero, suc, ◌+◌, ◌*◌, ◌≤◌, ◌<◌, ◌≡◌, refl, ◌⊎◌, inl, inr, List, arith, ltb, ◌==◌, ◌&&◌,
  Bool-cases, ==_iff,
}
use schedule_test.EasyBf3.Vector.{swap, time}
use schedule_test.EasyBf3.Heap.{larger, largest, max_heapify}

module _ {A : Type 0} (est_finish_time : A → ℕ) where
  larger-cases :
      (child size max : ℕ) (xs : List A)
      → (larger est_finish_time child size max xs ≡ max)
        ⊎ ((larger est_finish_time child size max xs ≡ child) × (child < size))
  unfolding larger
  larger-cases child size max xs =
      elim (Bool-cases
        (ltb child size && ltb (time est_finish_time xs max) (time est_finish_time xs child))) [
          | inl goes ↦ inr (rw goes refl, ground (arith, goes))
          | inr stays ↦ inl (rw stays refl)
        ]

  -- It is the root, or comes after it and lies in the heap.
  largest-cases :
      (root size : ℕ) (xs : List A)
      → (largest est_finish_time root size xs ≡ root)
        ⊎ ((root < largest est_finish_time root size xs)
            × (largest est_finish_time root size xs < size))
  unfolding largest
  largest-cases root size xs =
      let left = 2 * root + 1 in
      let one = larger est_finish_time left size root xs in
      elim (larger-cases left size root xs) [
        | inl same ↦ elim (larger-cases (left + 1) size one xs) [
          | inl stays ↦ inl (omega (arith, stays, same))
          | inr (goes, inside) ↦ inr (omega (arith, goes), omega (arith, goes, inside))
        ]
        | inr (down, inside) ↦ elim (larger-cases (left + 1) size one xs) [
          | inl stays ↦ inr (omega (arith, stays, down), omega (arith, stays, down, inside))
          | inr (goes, within) ↦ inr (omega (arith, goes), omega (arith, goes, within))
        ]
      ]

  -- On a fuel that reaches from the root to the size, `max_heapify` ends by itself: more fuel does not
  -- change what it does, whatever the vector is.
  pub max_heapify-ends :
      (more fuel root size : ℕ) (xs : List A)
      → fuel ≤ more
      → size ≤ root + fuel
      → max_heapify est_finish_time more root size xs
        ≡ max_heapify est_finish_time fuel root size xs
  unfolding max_heapify
  max_heapify-ends zero zero root size xs less enough = refl
  max_heapify-ends zero (suc fuel) root size xs less enough = absurd (omega arith)
  max_heapify-ends (suc more) zero root size xs less enough = elim (largest-cases root size xs) [
    | inr (after, inside) ↦ absurd (omega arith)
    | inl same ↦
        let stop = (==_iff (largest est_finish_time root size xs) root).1 same in rw stop refl
  ]
  max_heapify-ends (suc more) (suc fuel) root size xs less enough =
      let m = largest est_finish_time root size xs in
      elim (Bool-cases (m == root)) [
        | inl stop ↦ rw stop refl
        | inr goes ↦ elim (largest-cases root size xs) [
          | inl same ↦ absurd (ground (arith, same, goes))
          | inr (after, inside) ↦ rw goes (
              max_heapify-ends more fuel m size (swap xs root m) (omega arith)
                (omega (arith, after)))
        ]
      ]
