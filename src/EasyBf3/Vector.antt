-- ===== src/EasyBf3/Vector.antt =====
-- The std::vector of scheduled jobs under its indices. An access out of range is undefined in C++;
-- here it reads the time 0 and writes nothing.
use mathlib.Core.List.{Perm}
use mathlib.Core.List.Perm
use schedule_test.Base.{
  ℕ, zero, suc, ◌<◌, ◌≡◌, refl, ◌∙◌, ap, List, [], ◌∷◌, Option, none, some, arith, ◌==◌,
  if◌then◌else◌, length,
}

module _ {A : Type 0} where
  unfoldable pub get_elem? : List A → ℕ → Option A
  get_elem? [] i = none
  get_elem? (x ∷ xs) zero = some x
  get_elem? (x ∷ xs) (suc i) = get_elem? xs i

  unfoldable pub set : List A → ℕ → A → List A
  set [] i v = []
  set (x ∷ xs) zero v = v ∷ xs
  set (x ∷ xs) (suc i) v = x ∷ set xs i v

  -- `swap(v[i], v[j])`.
  unfoldable pub swap : List A → ℕ → ℕ → List A
  swap xs i j = elim (get_elem? xs i) [
    | none ↦ xs
    | some a ↦ elim (get_elem? xs j) [ none ↦ xs | some b ↦ set (set xs i b) j a ]
  ]

  length-set : (xs : List A) (i : ℕ) (v : A) → length (set xs i v) ≡ length xs
  unfolding set
  length-set [] i v = refl
  length-set (x ∷ xs) zero v = refl
  length-set (x ∷ xs) (suc i) v = ap suc (length-set xs i v)

  get_elem?-in_range : (xs : List A) (i : ℕ) → i < length xs → (a : A) × (get_elem? xs i ≡ some a)
  unfolding get_elem?
  get_elem?-in_range [] i h = absurd (omega arith)
  get_elem?-in_range (x ∷ xs) zero h = (x, refl)
  get_elem?-in_range (x ∷ xs) (suc i) h = get_elem?-in_range xs i (omega arith)

  get_elem?-set :
      (xs : List A) (i j : ℕ) (v b : A)
      → get_elem? xs j ≡ some b
      → get_elem? (set xs i v) j ≡ (if i == j then some v else some b)
  unfolding get_elem? set
  get_elem?-set [] i j v b e = cc
  get_elem?-set (x ∷ xs) zero zero v b e = refl
  get_elem?-set (x ∷ xs) zero (suc j) v b e = ground arith
  get_elem?-set (x ∷ xs) (suc i) zero v b e = ground arith
  get_elem?-set (x ∷ xs) (suc i) (suc j) v b e = ground (arith, get_elem?-set xs i j v b e)

  set-perm :
      (xs : List A) (i : ℕ) (a v : A) → get_elem? xs i ≡ some a → Perm (a ∷ set xs i v) (v ∷ xs)
  unfolding get_elem? set
  set-perm [] i a v e = cc
  set-perm (x ∷ xs) zero a v e = let same : x ≡ a = ground arith in rw same (Perm.swap v a xs)
  set-perm (x ∷ xs) (suc i) a v e =
      Perm.trans (Perm.swap x a _)
        (Perm.trans (Perm.cons x (set-perm xs i a v e)) (Perm.swap v x xs))

  pub swap-eq :
      (xs : List A) (i j : ℕ) (a b : A)
      → get_elem? xs i ≡ some a
      → get_elem? xs j ≡ some b
      → swap xs i j ≡ set (set xs i b) j a
  unfolding swap
  swap-eq xs i j a b ea eb = rw (ea, swap) (rw (eb, swap))

  module _ (xs : List A) (i j : ℕ) (hi : i < length xs) (hj : j < length xs) where
    pub length-swap : length (swap xs i j) ≡ length xs
    length-swap =
        let (a, ea) = get_elem?-in_range xs i hi in
        let (b, eb) = get_elem?-in_range xs j hj in
        rw (swap-eq xs i j a b ea eb) (length-set (set xs i b) j a ∙ length-set xs i b)

    pub swap-perm : Perm (swap xs i j) xs
    swap-perm =
        let (a, ea) = get_elem?-in_range xs i hi in
        let (b, eb) = get_elem?-in_range xs j hj in
        let there : get_elem? (set xs i b) j ≡ some b =
          ground (arith, get_elem?-set xs i j b b eb) in
        rw (swap-eq xs i j a b ea eb)
          (Perm.cons_inv (Perm.trans (set-perm (set xs i b) j b a there) (set-perm xs i a b ea)))

module _ {A : Type 0} (est_finish_time : A → ℕ) where
  -- The expected end of the job at an index.
  unfoldable pub time : List A → ℕ → ℕ
  time [] i = 0
  time (x ∷ xs) zero = est_finish_time x
  time (x ∷ xs) (suc i) = time xs i

  time-set :
      (xs : List A) (i k : ℕ) (v : A)
      → i < length xs
      → time (set xs i v) k ≡ (if k == i then est_finish_time v else time xs k)
  unfolding time set
  time-set [] i k v h = absurd (omega arith)
  time-set (x ∷ xs) zero zero v h = refl
  time-set (x ∷ xs) zero (suc k) v h = ground arith
  time-set (x ∷ xs) (suc i) zero v h = ground arith
  time-set (x ∷ xs) (suc i) (suc k) v h = ground (arith, time-set xs i k v)

  time-get_elem? :
      (xs : List A) (i : ℕ) (a : A) → get_elem? xs i ≡ some a → time xs i ≡ est_finish_time a
  unfolding time get_elem?
  time-get_elem? [] i a e = cc
  time-get_elem? (x ∷ xs) zero a e = ground arith
  time-get_elem? (x ∷ xs) (suc i) a e = time-get_elem? xs i a e

  pub time-swap :
      (xs : List A) (i j k : ℕ)
      → i < length xs
      → j < length xs
      → time (swap xs i j) k
        ≡ (if k == j then time xs i else if k == i then time xs j else time xs k)
  time-swap xs i j k hi hj =
      let (a, ea) = get_elem?-in_range xs i hi in
      let (b, eb) = get_elem?-in_range xs j hj in
      rw (swap-eq xs i j a b ea eb) (
        ground (
          arith,
          time-set (set xs i b) j k a,
          time-set xs i k b,
          length-set xs i b,
          time-get_elem? xs i a ea,
          time-get_elem? xs j b eb,
        ))
