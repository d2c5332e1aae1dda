-- ===== src/Intervals/Interface.antt =====
-- What batsched uses of the class IntervalSet of the intervalset library.
use schedule_test.Base.{ℕ, ◌+◌, ◌≤◌, ◌≡◌, Bool, true, false, ◌&&◌, ◌||◌, ◌↔◌, not, ltb}

pub record Intervals : Type 1 where
  pub Machines : Type 0
  -- The default constructor.
  pub empty : Machines
  -- The machines 0 to n - 1: `insert(ClosedInterval(0, n - 1))` on an empty set.
  pub first : ℕ → Machines
  pub size : Machines → ℕ
  pub contains : Machines → ℕ → Bool
  -- `insert(set)` and `operator+`.
  pub insert : Machines → Machines → Machines
  -- `remove(set)` and `operator-=`.
  pub remove : Machines → Machines → Machines
  -- `operator&`.
  pub inter : Machines → Machines → Machines
  -- `operator==`.
  pub equal : Machines → Machines → Bool
  pub is_empty : Machines → Bool
  -- `left(n)`: the n lowest machines.
  pub left : Machines → ℕ → Machines

module _ (I : Intervals) where
  open I use {Machines, contains}

  abbrev pub Subset : Machines → Machines → Type 0
  Subset a b = (i : ℕ) → contains a i ≡ true → contains b i ≡ true

  abbrev pub Disjoint : Machines → Machines → Type 0
  Disjoint a b = (i : ℕ) → contains a i ≡ true → contains b i ≡ false

pub record IntervalLaws (I : Intervals) : Type 0 where
  pub contains-empty : (i : ℕ) → I.contains I.empty i ≡ false
  pub contains-first : (n i : ℕ) → I.contains (I.first n) i ≡ ltb i n
  pub contains-insert :
      (a b : I.Machines) (i : ℕ) → I.contains (I.insert a b) i ≡ (I.contains a i || I.contains b i)
  pub contains-remove :
      (a b : I.Machines) (i : ℕ)
      → I.contains (I.remove a b) i ≡ (I.contains a i && not (I.contains b i))
  pub contains-inter :
      (a b : I.Machines) (i : ℕ) → I.contains (I.inter a b) i ≡ (I.contains a i && I.contains b i)
  pub equal_iff :
      (a b : I.Machines) → (I.equal a b ≡ true) ↔ ((i : ℕ) → I.contains a i ≡ I.contains b i)
  pub is_empty_iff : (a : I.Machines) → (I.is_empty a ≡ true) ↔ ((i : ℕ) → I.contains a i ≡ false)
  pub left-Subset : (a : I.Machines) (n : ℕ) → Subset I (I.left a n) a
  pub size-empty : I.size I.empty ≡ 0
  pub size-first : (n : ℕ) → I.size (I.first n) ≡ n
  pub size-left : (a : I.Machines) (n : ℕ) → n ≤ I.size a → I.size (I.left a n) ≡ n
  pub size-insert :
      (a b : I.Machines) → Disjoint I a b → I.size (I.insert a b) ≡ I.size a + I.size b
  pub size-remove : (a b : I.Machines) → Subset I b a → I.size (I.remove a b) + I.size b ≡ I.size a
