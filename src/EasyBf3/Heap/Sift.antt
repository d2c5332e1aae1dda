-- ===== src/EasyBf3/Heap/Sift.antt =====
-- `max_heapify` restores the heap order below its root, and moves entries among the first `size` only.
use mathlib.Core.List.{Perm}
use mathlib.Core.List.Perm
use native.Mathlib.Nat.{le_trans}
use schedule_test.Base.{
  ℕ, zero, suc, ◌+◌, ◌*◌, ◌≤◌, ◌<◌, ◌≡◌, refl, ◌∙◌, ◌≢◌, ◌⊎◌, inl, inr, List, arith, ltb, ◌==◌,
  ◌&&◌, length, Bool-cases, ==_iff,
}
use schedule_test.EasyBf3.Vector.{swap, time, length-swap, swap-perm, time-swap}
use schedule_test.EasyBf3.Heap.{larger, largest, max_heapify}

module _ {A : Type 0} (est_finish_time : A → ℕ) where
  -- The children of `i` below `size` end no later than `i`.
  abbrev pub Edge : (size i : ℕ) → List A → Type 0
  Edge size i xs =
      (2 * i + 1 < size → time est_finish_time xs (2 * i + 1) ≤ time est_finish_time xs i)
      × (2 * i + 2 < size → time est_finish_time xs (2 * i + 2) ≤ time est_finish_time xs i)

  abbrev pub HeapFrom : (lo size : ℕ) → List A → Type 0
  HeapFrom lo size xs = (i : ℕ) → lo ≤ i → Edge size i xs

  -- Only the edges below `r` may be out of order.
  pub record Sifting (lo size r : ℕ) (xs : List A) : Type 0 where
    pub edges : (i : ℕ) → lo ≤ i → i ≢ r → Edge size i xs
    pub bridged :
        (p : ℕ)
        → lo ≤ p
        → ((r ≡ 2 * p + 1) ⊎ (r ≡ 2 * p + 2))
        → (2 * r + 1 < size → time est_finish_time xs (2 * r + 1) ≤ time est_finish_time xs p)
          × (2 * r + 2 < size → time est_finish_time xs (2 * r + 2) ≤ time est_finish_time xs p)

  record IsLargest (size r m : ℕ) (xs : List A) : Type 0 where
    place : (m ≡ r) ⊎ (((m ≡ 2 * r + 1) ⊎ (m ≡ 2 * r + 2)) × (m < size))
    above : time est_finish_time xs r ≤ time est_finish_time xs m
    above_left : 2 * r + 1 < size → time est_finish_time xs (2 * r + 1) ≤ time est_finish_time xs m
    above_right : 2 * r + 2 < size → time est_finish_time xs (2 * r + 2) ≤ time est_finish_time xs m

  larger_lem :
      (c size m : ℕ) (xs : List A)
      → ((larger est_finish_time c size m xs ≡ m)
          ⊎ ((larger est_finish_time c size m xs ≡ c) × (c < size)))
        × (time est_finish_time xs m ≤ time est_finish_time xs (larger est_finish_time c size m xs))
        × (c < size
            → time est_finish_time xs c
              ≤ time est_finish_time xs (larger est_finish_time c size m xs))
  unfolding larger
  larger_lem c size m xs =
      elim (Bool-cases
        (ltb c size && ltb (time est_finish_time xs m) (time est_finish_time xs c))) [
          | inl more ↦ rw more (inr (refl, ground arith), ground arith, λ h. ground arith)
          | inr less ↦ rw less (inl refl, ground arith, λ h. ground arith)
        ]

  largest-IsLargest :
      (r size : ℕ) (xs : List A) → IsLargest size r (largest est_finish_time r size xs) xs
  unfolding largest
  largest-IsLargest r size xs =
      let next : 2 * r + 1 + 1 ≡ 2 * r + 2 = omega arith in
      let m = larger est_finish_time (2 * r + 1) size r xs in
      let (place₁, above₁, left₁) = larger_lem (2 * r + 1) size r xs in
      let (place₂, above₂, right₂) = larger_lem (2 * r + 2) size m xs in
      rw next (record {
        place = ground arith;
        above = omega arith;
        above_left = λ h. le_trans (left₁ h) above₂;
        above_right = right₂;
      })

  -- What one call does to the vector.
  pub record Sifted (lo size : ℕ) (xs ys : List A) : Type 0 where
    pub heap : HeapFrom lo size ys
    pub perm : Perm ys xs
    pub same_length : length ys ≡ length xs
    pub outside : (k : ℕ) → size ≤ k → time est_finish_time ys k ≡ time est_finish_time xs k
    pub bounded :
        (b : ℕ)
        → ((k : ℕ) → k < size → time est_finish_time xs k ≤ b)
        → (k : ℕ) → k < size
        → time est_finish_time ys k ≤ b

  module _ (lo size r m : ℕ) (xs : List A) (low : lo ≤ r) (fits : size ≤ length xs) where
    swap-Sifting :
        r < size
        → m < size
        → ((m ≡ 2 * r + 1) ⊎ (m ≡ 2 * r + 2))
        → Sifting lo size r xs
        → IsLargest size r m xs
        → Sifting lo size m (swap xs r m)
    swap-Sifting hr hm child s big =
        let after = λ (k : ℕ). time-swap est_finish_time xs r m k (omega arith) (omega arith) in
        record {
          edges = λ i li ne. (
            (λ h. ground (
              arith,
              after (2 * i + 1),
              after i,
              s.edges i li,
              s.bridged i li,
              big.above,
              big.above_left,
              big.above_right,
            )),
            (λ h. ground (
              arith,
              after (2 * i + 2),
              after i,
              s.edges i li,
              s.bridged i li,
              big.above,
              big.above_left,
              big.above_right,
            )),
          );
          bridged = λ p lp up. (
            (λ h. ground (arith, after (2 * m + 1), after p, s.edges m (omega arith))),
            (λ h. ground (arith, after (2 * m + 2), after p, s.edges m (omega arith))),
          );
        }

  settle :
      (lo size r : ℕ) (xs : List A) → Sifting lo size r xs → Edge size r xs → HeapFrom lo size xs
  settle lo size r xs s here i li = elim (Bool-cases (i == r)) [
    | inl hit ↦ rw ((==_iff i r).0 hit) here
    | inr miss ↦ s.edges i li (λ e. ground arith)
  ]

  -- The effect of a swap below `size` carries over what follows it.
  swap-Sifted :
      (lo size r m : ℕ) (xs ys : List A)
      → size ≤ length xs
      → r < size
      → m < size
      → Sifted lo size (swap xs r m) ys
      → Sifted lo size xs ys
  swap-Sifted lo size r m xs ys fits hr hm d =
      let hr' : r < length xs = omega arith in
      let hm' : m < length xs = omega arith in
      let after = λ (k : ℕ). time-swap est_finish_time xs r m k hr' hm' in
      record {
        heap = d.heap;
        perm = Perm.trans d.perm (swap-perm xs r m hr' hm');
        same_length = d.same_length ∙ length-swap xs r m hr' hm';
        outside = λ k hk. d.outside k hk ∙ ground (arith, after k);
        bounded = λ b h. d.bounded b (λ k hk. ground (arith, after k, h k hk, h r hr, h m hm));
      }

  -- With enough fuel, `max_heapify` makes a heap of what is one but for the edges below its root.
  pub max_heapify-Sifted :
      (fuel lo size r : ℕ) (xs : List A)
      → size ≤ r + fuel
      → size ≤ length xs
      → lo ≤ r
      → Sifting lo size r xs
      → Sifted lo size xs (max_heapify est_finish_time fuel r size xs)
  unfolding max_heapify
  max_heapify-Sifted zero lo size r xs enough fits low s = record {
    heap = settle lo size r xs s ((λ h. absurd (omega arith)), (λ h. absurd (omega arith)));
    perm = Perm.rfl;
    same_length = refl;
    outside = λ k hk. refl;
    bounded = λ b h k hk. h k hk;
  }
  max_heapify-Sifted (suc fuel) lo size r xs enough fits low s =
      let m = largest est_finish_time r size xs in
      let big : IsLargest size r m xs = largest-IsLargest r size xs in
      elim (Bool-cases (m == r)) [
        | inl stop ↦
            let same : m ≡ r = (==_iff m r).0 stop in
            rw stop (record {
              heap =
                  settle lo size r xs s
                    ((λ h. ground (arith, big.above_left)), (λ h. ground (arith, big.above_right)));
              perm = Perm.rfl;
              same_length = refl;
              outside = λ k hk. refl;
              bounded = λ b h k hk. h k hk;
            })
        | inr go ↦
            let down : ((m ≡ 2 * r + 1) ⊎ (m ≡ 2 * r + 2)) × (m < size) =
              child_of big.place (λ e. ground arith) in
            let hr : r < size = omega arith in
            rw go (
              swap-Sifted lo size r m xs _ fits hr down.1 (
                max_heapify-Sifted fuel lo size m (swap xs r m) (omega arith)
                  (omega (arith, length-swap xs r m (omega arith) (omega arith))) (omega arith)
                  (swap-Sifting lo size r m xs low fits hr down.1 down.0 s big)))
      ]
    where
      child_of :
          {m : ℕ}
          → (m ≡ r) ⊎ (((m ≡ 2 * r + 1) ⊎ (m ≡ 2 * r + 2)) × (m < size))
          → m ≢ r
          → ((m ≡ 2 * r + 1) ⊎ (m ≡ 2 * r + 2)) × (m < size)
      child_of (inl e) ne = absurd (ne e)
      child_of (inr h) ne = h
