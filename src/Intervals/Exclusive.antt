-- ===== src/Intervals/Exclusive.antt =====
-- Who holds which machines: a map from running jobs to what they hold, beside the set of the machines
-- that are free. Shared by the schedulers that keep `_available_machines` and `_current_allocations`.
use schedule_test.Base.{
  ℕ, ◌≡◌, subst, List, [], ◌∷◌, some, All, ◌==◌, lookup, delete, put, Bool-cases, inl, inr, arith,
}
use schedule_test.Intervals.Interface.{Intervals, IntervalLaws, Disjoint, Subset}

module _ (I : Intervals) (L : IntervalLaws I) where
  pub Disjoint-sym : (a b : I.Machines) → Disjoint I a b → Disjoint I b a
  Disjoint-sym a b d i h = elim (Bool-cases (I.contains a i)) [
    | inl both ↦ cc (d i both)
    | inr alone ↦ alone
  ]

  Disjoint-insert :
      (a b c : I.Machines) → Disjoint I a b → Disjoint I a c → Disjoint I a (I.insert b c)
  Disjoint-insert a b c d e i h = ground (arith, L.contains-insert b c i, d i, e i)

  Disjoint-shrink : (a b c : I.Machines) → Subset I c b → Disjoint I a b → Disjoint I a c
  Disjoint-shrink a b c sub d i h = ground (arith, sub i, d i, Bool-cases (I.contains c i))

  pub remove-Subset : (a b : I.Machines) → Subset I (I.remove a b) a
  remove-Subset a b i h = ground (arith, L.contains-remove a b i)

module _ (I : Intervals) {V : Type 0} (held : V → I.Machines) where
  abbrev pub FreeOf : I.Machines → List (ℕ × V) → Type 0
  FreeOf m = All (λ e. Disjoint I (held e.1) m)

  -- No machine is held twice.
  abbrev pub Exclusive : List (ℕ × V) → Type 0
  Exclusive [] = Unit
  Exclusive ((id, a) ∷ rs) = FreeOf (held a) rs × Exclusive rs

  pub FreeOf-delete :
      (id : ℕ) (m : I.Machines) (rs : List (ℕ × V)) → FreeOf m rs → FreeOf m (delete id rs)
  unfolding delete
  FreeOf-delete id m [] f = tt
  FreeOf-delete id m ((k, a) ∷ rs) f = elim (Bool-cases (k == id)) [
    | inl hit ↦ rw hit (f.1)
    | inr miss ↦ rw miss (f.0, FreeOf-delete id m rs f.1)
  ]

  pub Exclusive-delete : (id : ℕ) (rs : List (ℕ × V)) → Exclusive rs → Exclusive (delete id rs)
  unfolding delete
  Exclusive-delete id [] x = tt
  Exclusive-delete id ((k, a) ∷ rs) x = elim (Bool-cases (k == id)) [
    | inl hit ↦ rw hit (x.1)
    | inr miss ↦ rw miss (FreeOf-delete id (held a) rs x.0, Exclusive-delete id rs x.1)
  ]

  pub lookup-FreeOf :
      (id : ℕ) (m : I.Machines) (rs : List (ℕ × V)) (a : V)
      → FreeOf m rs
      → lookup id rs ≡ some a
      → Disjoint I (held a) m
  unfolding lookup
  lookup-FreeOf id m [] a f e = cc
  lookup-FreeOf id m ((k, b) ∷ rs) a f e = elim (Bool-cases (k == id)) [
    | inl hit ↦ let same : b ≡ a = ground arith in subst (λ c. Disjoint I (held c) m) same (f.0)
    | inr miss ↦ lookup-FreeOf id m rs a f.1 (rw miss at e)
  ]

  module _ (L : IntervalLaws I) where
    FreeOf-shrink :
        (m m' : I.Machines) (rs : List (ℕ × V)) → Subset I m' m → FreeOf m rs → FreeOf m' rs
    FreeOf-shrink m m' [] sub f = tt
    FreeOf-shrink m m' ((k, a) ∷ rs) sub f =
        (Disjoint-shrink I L (held a) m m' sub f.0, FreeOf-shrink m m' rs sub f.1)

    FreeOf-insert :
        (m m' : I.Machines) (rs : List (ℕ × V))
        → FreeOf m rs
        → FreeOf m' rs
        → FreeOf (I.insert m m') rs
    FreeOf-insert m m' [] f g = tt
    FreeOf-insert m m' ((k, a) ∷ rs) f g =
        (Disjoint-insert I L (held a) m m' f.0 g.0, FreeOf-insert m m' rs f.1 g.1)

    -- What a job held is free of the other jobs.
    delete-FreeOf :
        (id : ℕ) (rs : List (ℕ × V)) (a : V)
        → Exclusive rs
        → lookup id rs ≡ some a
        → FreeOf (held a) (delete id rs)
    unfolding lookup delete
    delete-FreeOf id [] a x e = cc
    delete-FreeOf id ((k, b) ∷ rs) a x e = elim (Bool-cases (k == id)) [
      | inl hit ↦
          let same : b ≡ a = ground arith in rw hit (subst (λ c. FreeOf (held c) rs) same (x.0))
      | inr miss ↦
          let e' : lookup id rs ≡ some a = (rw miss at e) in
          rw miss (
            Disjoint-sym I L (held a) (held b) (lookup-FreeOf id (held b) rs a x.0 e'),
            delete-FreeOf id rs a x.1 e',
          )
    ]

    -- A job gives its machines back.
    pub give_back :
        (id : ℕ) (m : I.Machines) (rs : List (ℕ × V)) (a : V)
        → FreeOf m rs
        → Exclusive rs
        → lookup id rs ≡ some a
        → FreeOf (I.insert m (held a)) (delete id rs) × Exclusive (delete id rs)
    give_back id m rs a f x e = (
      FreeOf-insert m (held a) (delete id rs) (FreeOf-delete id m rs f) (delete-FreeOf id rs a x e),
      Exclusive-delete id rs x,
    )

    -- A job takes machines that are free.
    pub take_free :
        (id : ℕ) (m : I.Machines) (rs : List (ℕ × V)) (a : V)
        → FreeOf m rs
        → Exclusive rs
        → Subset I (held a) m
        → FreeOf (I.remove m (held a)) (put id a rs) × Exclusive (put id a rs)
    unfolding put
    take_free id m rs a f x sub = (
      (
        λ i h. ground (arith, L.contains-remove m (held a) i, Bool-cases (I.contains m i)),
        FreeOf-shrink m _ (delete id rs) (remove-Subset I L m (held a)) (FreeOf-delete id m rs f),
      ),
      (
        FreeOf-shrink m (held a) (delete id rs) sub (FreeOf-delete id m rs f),
        Exclusive-delete id rs x,
      ),
    )
