-- ===== src/Intervals/Masks.antt =====
-- A set of machines as a list of bits, machine 0 first: a value of the parameter `Intervals` that
-- runs, and a proof that it keeps the laws.
use schedule_test.Base.{
  ℕ, zero, suc, ◌+◌, ◌≤◌, ◌≡◌, refl, Bool, true, false, ◌&&◌, ◌||◌, not, ◌↔◌, sym, List, [], ◌∷◌,
  arith, ltb,
}
use schedule_test.Intervals.Interface.{Intervals, IntervalLaws}

abbrev Mask : Type 0
Mask = List Bool

abbrev bit : Bool → ℕ
bit true = 1
bit false = 0

abbrev size : Mask → ℕ
size [] = 0
size (b ∷ m) = bit b + size m

abbrev contains : Mask → ℕ → Bool
contains [] i = false
contains (b ∷ m) zero = b
contains (b ∷ m) (suc i) = contains m i

abbrev first : ℕ → Mask
first zero = []
first (suc n) = true ∷ first n

abbrev insert : Mask → Mask → Mask
insert [] n = n
insert (b ∷ m) [] = b ∷ m
insert (b ∷ m) (c ∷ n) = (b || c) ∷ insert m n

abbrev remove : Mask → Mask → Mask
remove [] n = []
remove (b ∷ m) [] = b ∷ m
remove (b ∷ m) (c ∷ n) = (b && not c) ∷ remove m n

abbrev inter : Mask → Mask → Mask
inter [] n = []
inter (b ∷ m) [] = []
inter (b ∷ m) (c ∷ n) = (b && c) ∷ inter m n

abbrev is_empty : Mask → Bool
is_empty [] = true
is_empty (b ∷ m) = not b && is_empty m

abbrev same_bit : Bool → Bool → Bool
same_bit true c = c
same_bit false c = not c

abbrev equal : Mask → Mask → Bool
equal [] n = is_empty n
equal (b ∷ m) [] = not b && is_empty m
equal (b ∷ m) (c ∷ n) = same_bit b c && equal m n

abbrev left : Mask → ℕ → Mask
left [] n = []
left (b ∷ m) zero = []
left (true ∷ m) (suc n) = true ∷ left m n
left (false ∷ m) (suc n) = false ∷ left m (suc n)

abbrev pub masks : Intervals
masks = record {
  Machines = Mask;
  empty = [];
  first = first;
  size = size;
  contains = contains;
  insert = insert;
  remove = remove;
  inter = inter;
  equal = equal;
  is_empty = is_empty;
  left = left;
}

contains-first : (n i : ℕ) → contains (first n) i ≡ ltb i n
contains-first zero zero = refl
contains-first zero (suc i) = ground arith
contains-first (suc n) zero = ground arith
contains-first (suc n) (suc i) = ground (arith, contains-first n i)

contains-insert : (a b : Mask) (i : ℕ) → contains (insert a b) i ≡ (contains a i || contains b i)
contains-insert [] n i = refl
contains-insert (b ∷ m) [] i = ground arith
contains-insert (b ∷ m) (c ∷ n) zero = refl
contains-insert (b ∷ m) (c ∷ n) (suc i) = contains-insert m n i

contains-remove :
    (a b : Mask) (i : ℕ) → contains (remove a b) i ≡ (contains a i && not (contains b i))
contains-remove [] n i = refl
contains-remove (b ∷ m) [] i = ground arith
contains-remove (b ∷ m) (c ∷ n) zero = refl
contains-remove (b ∷ m) (c ∷ n) (suc i) = contains-remove m n i

contains-inter : (a b : Mask) (i : ℕ) → contains (inter a b) i ≡ (contains a i && contains b i)
contains-inter [] n i = refl
contains-inter (b ∷ m) [] i = ground arith
contains-inter (b ∷ m) (c ∷ n) zero = refl
contains-inter (b ∷ m) (c ∷ n) (suc i) = contains-inter m n i

is_empty_iff : (m : Mask) → (is_empty m ≡ true) ↔ ((i : ℕ) → contains m i ≡ false)
is_empty_iff [] = (λ h i. refl, λ h. refl)
is_empty_iff (true ∷ m) = (λ h. cc, λ h. cc (h 0))
is_empty_iff (false ∷ m) = (forth (is_empty_iff m).0, λ h. (is_empty_iff m).1 (λ i. h (suc i)))
  where
    forth :
        (is_empty m ≡ true → (i : ℕ) → contains m i ≡ false)
        → is_empty m ≡ true
        → (i : ℕ) → contains (false ∷ m) i ≡ false
    forth rest h zero = refl
    forth rest h (suc i) = rest h i

equal_iff : (a b : Mask) → (equal a b ≡ true) ↔ ((i : ℕ) → contains a i ≡ contains b i)
equal_iff [] n = (λ h i. sym ((is_empty_iff n).0 h i), λ h. (is_empty_iff n).1 (λ i. sym (h i)))
equal_iff (b ∷ m) [] = is_empty_iff (b ∷ m)
equal_iff (b ∷ m) (c ∷ n) =
    (forth (equal_iff m n).0, λ h. ground (arith, h 0, (equal_iff m n).1 (λ i. h (suc i))))
  where
    forth :
        (equal m n ≡ true → (i : ℕ) → contains m i ≡ contains n i)
        → equal (b ∷ m) (c ∷ n) ≡ true
        → (i : ℕ) → contains (b ∷ m) i ≡ contains (c ∷ n) i
    forth rest h zero = ground arith
    forth rest h (suc i) = rest (ground arith) i

left-Subset : (a : Mask) (n i : ℕ) → contains (left a n) i ≡ true → contains a i ≡ true
left-Subset [] n i h = h
left-Subset (b ∷ m) zero i h = ground arith
left-Subset (true ∷ m) (suc n) zero h = refl
left-Subset (false ∷ m) (suc n) zero h = h
left-Subset (true ∷ m) (suc n) (suc i) h = left-Subset m n i h
left-Subset (false ∷ m) (suc n) (suc i) h = left-Subset m (suc n) i h

size-first : (n : ℕ) → size (first n) ≡ n
size-first zero = refl
size-first (suc n) = omega (arith, size-first n)

size-left : (a : Mask) (n : ℕ) → n ≤ size a → size (left a n) ≡ n
size-left [] n h = omega arith
size-left (b ∷ m) zero h = refl
size-left (true ∷ m) (suc n) h = omega (arith, size-left m n (omega arith))
size-left (false ∷ m) (suc n) h = omega (arith, size-left m (suc n) (omega arith))

size-insert :
    (a b : Mask)
    → ((i : ℕ) → contains a i ≡ true → contains b i ≡ false)
    → size (insert a b) ≡ size a + size b
size-insert [] n h = omega arith
size-insert (b ∷ m) [] h = omega arith
size-insert (true ∷ m) (c ∷ n) h = ground (arith, size-insert m n (λ i. h (suc i)), h 0)
size-insert (false ∷ m) (c ∷ n) h = ground (arith, size-insert m n (λ i. h (suc i)))

size-remove :
    (a b : Mask)
    → ((i : ℕ) → contains b i ≡ true → contains a i ≡ true)
    → size (remove a b) + size b ≡ size a
size-remove [] [] h = refl
size-remove [] (true ∷ n) h = absurd (ground (arith, h 0))
size-remove [] (false ∷ n) h = omega (arith, size-remove [] n (λ i. h (suc i)))
size-remove (b ∷ m) [] h = omega arith
size-remove (b ∷ m) (c ∷ n) h = ground (arith, size-remove m n (λ i. h (suc i)), h 0)

pub masks-laws : IntervalLaws masks
masks-laws = record {
  contains-empty = λ i. refl;
  contains-first = contains-first;
  contains-insert = contains-insert;
  contains-remove = contains-remove;
  contains-inter = contains-inter;
  equal_iff = equal_iff;
  is_empty_iff = is_empty_iff;
  left-Subset = left-Subset;
  size-empty = refl;
  size-first = size-first;
  size-left = size-left;
  size-insert = size-insert;
  size-remove = size-remove;
}
