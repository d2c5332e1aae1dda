-- ===== src/EasyBf3/Heap/Sorts.antt =====
-- `sort_max_heap` sorts.
use mathlib.Core.List.{Perm}
use mathlib.Core.List.Perm
use native.Mathlib.Nat.{le_trans, le_refl}
use schedule_test.Base.{
  ℕ, zero, suc, ◌+◌, ◌*◌, ◌-◌, ◌/◌, ◌≤◌, ◌<◌, ◌≡◌, sym, subst, ◌∙◌, ◌⊎◌, inl, inr, List, arith, ltb,
  ◌==◌, length, Bool-cases, ==_iff, ltb→lt,
}
use schedule_test.EasyBf3.Vector.{swap, time, length-swap, swap-perm, time-swap}
use schedule_test.EasyBf3.Heap.{max_heapify, build_heap, extract_all, sort_max_heap}
use schedule_test.EasyBf3.Heap.Sift.{HeapFrom, Sifting, Sifted, max_heapify-Sifted}

module _ {A : Type 0} (est_finish_time : A → ℕ) where
  -- The expected ends ascend.
  abbrev pub IsAscending : List A → Type 0
  IsAscending xs =
      (a b : ℕ) → a < b → b < length xs → time est_finish_time xs a ≤ time est_finish_time xs b

  -- The order from `i + 1` on leaves only the edges below `i` in doubt.
  open_root :
      (i size : ℕ) (xs : List A)
      → HeapFrom est_finish_time (suc i) size xs
      → Sifting est_finish_time i size i xs
  open_root i size xs h = record {
    edges = λ k low ne. h k (omega arith);
    bridged = λ p low up. absurd (omega arith);
  }

  build_heap-HeapFrom :
      (i size : ℕ) (xs : List A)
      → size ≤ length xs
      → HeapFrom est_finish_time (suc i) size xs
      → HeapFrom est_finish_time 0 size (build_heap est_finish_time i size xs)
        × Perm (build_heap est_finish_time i size xs) xs
        × (length (build_heap est_finish_time i size xs) ≡ length xs)
  unfolding build_heap
  build_heap-HeapFrom zero size xs fits h =
      let d =
        max_heapify-Sifted est_finish_time size 0 size 0 xs (omega arith) fits (omega arith)
          (open_root 0 size xs h) in
      (d.heap, d.perm, d.same_length)
  build_heap-HeapFrom (suc i) size xs fits h =
      let ys = max_heapify est_finish_time size (suc i) size xs in
      let d : Sifted est_finish_time (suc i) size xs ys =
        max_heapify-Sifted est_finish_time size (suc i) size (suc i) xs (omega arith) fits
          (le_refl (suc i)) (open_root (suc i) size xs h) in
      let (heap, p, n) = build_heap-HeapFrom i size ys (omega (arith, d.same_length)) d.heap in
      (heap, Perm.trans p d.perm, n ∙ d.same_length)

  -- The root of a heap ends last.
  root_last :
      (fuel size k : ℕ) (xs : List A)
      → HeapFrom est_finish_time 0 size xs
      → k < fuel
      → k < size
      → time est_finish_time xs k ≤ time est_finish_time xs 0
  root_last zero size k xs h f hk = absurd (omega arith)
  root_last (suc fuel) size zero xs h f hk = omega arith
  root_last (suc fuel) size (suc k) xs h f hk =
      let p = k / 2 in
      let up : time est_finish_time xs p ≤ time est_finish_time xs 0 =
        root_last fuel size p xs h (omega arith) (omega arith) in
      elim (split k) [
        | inl e ↦ le_trans (rw e ((h p (omega arith)).0 (omega arith))) up
        | inr e ↦ le_trans (rw e ((h p (omega arith)).1 (omega arith))) up
      ]
    where
      split : (k : ℕ) → (suc k ≡ 2 * (k / 2) + 1) ⊎ (suc k ≡ 2 * (k / 2) + 2)
      split k = omega arith

  -- From index `j + 1` on every entry ends no earlier than any before it.
  abbrev Done : ℕ → List A → Type 0
  Done j xs =
      (a b : ℕ)
      → a < b
      → b < length xs
      → j < b
      → time est_finish_time xs a ≤ time est_finish_time xs b

  extract-Done :
      (j : ℕ) (xs ys : List A)
      → suc j < length xs
      → HeapFrom est_finish_time 0 (suc (suc j)) xs
      → Done (suc j) xs
      → Sifted est_finish_time 0 (suc j) (swap xs 0 (suc j)) ys
      → Done j ys
  extract-Done j xs ys fits heap done d a b h hb hj =
      let size = suc j in
      let zs = swap xs 0 size in
      let after = λ (k : ℕ). time-swap est_finish_time xs 0 size k (omega arith) fits in
      let last = λ (k : ℕ) (hk : k < suc size). root_last (suc size) (suc size) k xs heap hk hk in
      let n : length ys ≡ length xs = d.same_length ∙ length-swap xs 0 size (omega arith) fits in
      let hb' : b < length xs = omega arith in
      let at_b = d.outside b hj ∙ after b in
      elim (Bool-cases (b == size)) [
        | inl e ↦
            let same : b ≡ size = (==_iff b size).0 e in
            le_trans
              (d.bounded (time est_finish_time xs 0)
                (λ k hk. ground (arith, after k, last k (omega arith), last size (omega arith))) a
                (omega arith))
              (ground (arith, at_b))
        | inr ne ↦
            let past : size < b = ground arith in
            let same : time est_finish_time ys b ≡ time est_finish_time xs b =
              ground (arith, at_b) in
            elim (Bool-cases (ltb a size)) [
              | inl low ↦ rw same (
                  d.bounded (time est_finish_time xs b)
                    (λ k hk.
                      ground (
                        arith,
                        after k,
                        done k b (omega arith) hb' past,
                        done size b past hb' past,
                      ))
                    a (ltb→lt a size low))
              | inr high ↦
                  let ha : size ≤ a = ground arith in
                  let at_a = d.outside a ha ∙ after a in
                  rw same
                    (ground (arith, at_a, done 0 b (omega arith) hb' past, done a b h hb' past))
            ]
      ]

  extract_all-IsAscending :
      (j : ℕ) (xs : List A)
      → j < length xs
      → HeapFrom est_finish_time 0 (suc j) xs
      → Done j xs
      → IsAscending (extract_all est_finish_time j xs) × Perm (extract_all est_finish_time j xs) xs
  unfolding extract_all
  extract_all-IsAscending zero xs fits heap done =
      ((λ a b h hb. done a b h hb (omega arith)), Perm.rfl)
  extract_all-IsAscending (suc j) xs fits heap done =
      let size = suc j in
      let zs = swap xs 0 size in
      let hz : 0 < length xs = omega arith in
      let after = λ (k : ℕ). time-swap est_finish_time xs 0 size k hz fits in
      let n : length zs ≡ length xs = length-swap xs 0 size hz fits in
      let s : Sifting est_finish_time 0 size 0 zs = record {
        edges = λ i li ne. (
          (λ h. ground (arith, after (2 * i + 1), after i, heap i)),
          (λ h. ground (arith, after (2 * i + 2), after i, heap i)),
        );
        bridged = λ p low up. absurd (omega arith);
      } in
      let ys = max_heapify est_finish_time size 0 size zs in
      let d : Sifted est_finish_time 0 size zs ys =
        max_heapify-Sifted est_finish_time size 0 size 0 zs (omega arith) (omega arith)
          (omega arith) s in
      let done' : Done j ys = extract-Done j xs ys fits heap done d in
      let (up, p) = extract_all-IsAscending j ys (omega (arith, d.same_length)) d.heap done' in
      (up, Perm.trans p (Perm.trans d.perm (swap-perm xs 0 size hz fits)))

  -- `sort_max_heap` on the whole vector puts the same jobs in ascending order of their expected ends.
  pub sort_max_heap-sorts :
      (xs : List A)
      → IsAscending (sort_max_heap est_finish_time (length xs) xs)
        × Perm (sort_max_heap est_finish_time (length xs) xs) xs
  unfolding sort_max_heap
  sort_max_heap-sorts xs = elim (Bool-cases (ltb (length xs) 2)) [
    | inl short ↦ rw short ((λ a b h hb. absurd (ground arith)), Perm.rfl)
    | inr long ↦
        let size = length xs in
        let ys = build_heap est_finish_time (size / 2) size xs in
        let (heap, p, n) =
          build_heap-HeapFrom (size / 2) size xs (le_refl size)
            (λ i low. ((λ h. absurd (omega arith)), (λ h. absurd (omega arith)))) in
        let pos : suc (size - 1) ≡ size = ground arith in
        let (up, q) =
          extract_all-IsAscending (size - 1) ys (omega arith)
            (subst (λ k. HeapFrom est_finish_time 0 k ys) (sym pos) heap)
            (λ a b h hb hj. absurd (omega arith)) in
        rw long (up, Perm.trans q p)
  ]
