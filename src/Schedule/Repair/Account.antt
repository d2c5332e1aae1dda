-- ===== src/Schedule/Repair/Account.antt =====
-- What repair does to the free machines, and that it keeps the invariant.
use schedule_test.Base.{ℕ, ◌≡◌, refl, List, [], ◌∷◌, map, Bool, All, arith, ◌&&◌, ◌||◌, not}
use schedule_test.Intervals.Interface.{Intervals, IntervalLaws, Subset, Disjoint}
use schedule_test.Schedule.Slices.{TimeSlice}
use schedule_test.Schedule.View.Follows.{Follows, Follows-refl, Follows-cons}
use schedule_test.Schedule.View.{holds, free_at, held_at, covered, ChainFrom, Balanced, AllBalanced}
use schedule_test.Schedule.Repair.{withdraw, give_back}

module _ (I : Intervals) (L : IntervalLaws I) (n : ℕ) (a : ℕ → I.Machines) where
  -- The machines of the platform that no job of the slice is allocated.
  abbrev pub Unallocated : I.Machines → TimeSlice I → Type 0
  Unallocated machine t = Subset I machine (I.first n) × Disjoint I machine t.allocated_machines

  withdraw-Balanced :
      (repair machine : I.Machines) (t : TimeSlice I)
      → Unallocated machine t
      → Balanced I n repair a t
      → Balanced I n (I.insert repair machine) a (withdraw I (I.remove machine repair) t)
  unfolding withdraw
  withdraw-Balanced repair machine t (inside, idle) v =
      let added = I.remove machine repair in
      record {
        counted = omega (
          arith,
          v.counted,
          L.size-remove t.available_machines added (λ i has. ground (
            arith,
            L.contains-remove machine repair i,
            inside i,
            idle i,
            L.contains-first n i,
            v.placed i,
            v.allocated i,
          )),
        );
        placed = λ i. ground (
          arith,
          v.placed i,
          v.allocated i,
          inside i,
          idle i,
          L.contains-first n i,
          L.contains-insert repair machine i,
          L.contains-remove t.available_machines added i,
          L.contains-remove machine repair i,
        );
        allocated = v.allocated;
        assigned = v.assigned;
        unique = v.unique;
      }

  give_back-Balanced :
      (repair machines : I.Machines) (t : TimeSlice I)
      → Balanced I n repair a t
      → Balanced I n (I.remove repair machines) a (give_back I (I.inter repair machines) t)
  unfolding give_back
  give_back-Balanced repair machines t v =
      let removed = I.inter repair machines in
      let kept = I.inter t.allocated_machines removed in
      record {
        counted = omega (
          arith,
          v.counted,
          L.size-remove removed kept
              (λ i has. ground (arith, L.contains-inter t.allocated_machines removed i)),
          L.size-insert t.available_machines (I.remove removed kept) (λ i has. ground (
            arith,
            v.placed i,
            L.contains-remove removed kept i,
            L.contains-inter repair machines i,
          )),
        );
        placed = λ i. ground (
          arith,
          v.placed i,
          v.allocated i,
          L.contains-remove repair machines i,
          L.contains-inter repair machines i,
          L.contains-inter t.allocated_machines removed i,
          L.contains-remove removed kept i,
          L.contains-insert t.available_machines (I.remove removed kept) i,
        );
        allocated = v.allocated;
        assigned = v.assigned;
        unique = v.unique;
      }

  -- What repair does to the slices from `c` on.
  abbrev pub Changes :
      (c : ℕ) → (repair : I.Machines) → (f : ℕ → ℕ → Bool) → (ss us : List (TimeSlice I)) → Type 0
  Changes c repair f ss us = record {
    chain : ChainFrom I c us;
    balanced : AllBalanced I n repair a us;
    free : (d i : ℕ) → free_at I d i us ≡ f d i;
    held : (id d i : ℕ) → held_at I id d i us ≡ held_at I id d i ss;
    follows : (id : ℕ) → Follows I id ss us;
    cover : (d : ℕ) → covered I d us ≡ covered I d ss;
  }

  pub withdraw-Changes :
      (repair machine : I.Machines) (c : ℕ) (ss : List (TimeSlice I))
      → ChainFrom I c ss
      → AllBalanced I n repair a ss
      → All (Unallocated machine) ss
      → Changes c
          (I.insert repair machine)
          (λ d i. free_at I d i ss && not (I.contains machine i))
          ss
          (map (withdraw I (I.remove machine repair)) ss)
  unfolding withdraw free_at held_at holds covered
  withdraw-Changes repair machine c [] chain v idle = record {
    chain = tt;
    balanced = tt;
    free = λ d i. refl;
    held = λ id d i. refl;
    cover = λ d. refl;
    follows = λ id. Follows-refl I id [];
  }
  withdraw-Changes repair machine c (t ∷ ts) chain v idle =
      let added = I.remove machine repair in
      let r = withdraw-Changes repair machine t.end ts (chain.3) (v.1) (idle.1) in
      record {
        chain = (chain.0, chain.1, chain.2, r.chain);
        balanced = (withdraw-Balanced repair machine t (idle.0) (v.0), r.balanced);
        free = λ d i. ground (
          arith,
          r.free d i,
          v.0.placed i,
          L.contains-remove t.available_machines added i,
          L.contains-remove machine repair i,
        );
        held = λ id d i. ground (arith, r.held id d i);
        cover = λ d. ground (arith, r.cover d);
        follows = λ id.
            Follows-cons I id t (withdraw I (I.remove machine repair) t) ts
              (map (withdraw I (I.remove machine repair)) ts) refl (r.follows id);
      }

  pub give_back-Changes :
      (repair machines : I.Machines) (c : ℕ) (ss : List (TimeSlice I))
      → ChainFrom I c ss
      → AllBalanced I n repair a ss
      → Changes c
          (I.remove repair machines)
          (λ d i.
            free_at I d i ss || covered I d ss && I.contains repair i && I.contains machines i)
          ss
          (map (give_back I (I.inter repair machines)) ss)
  unfolding give_back free_at held_at holds covered
  give_back-Changes repair machines c [] chain v = record {
    chain = tt;
    balanced = tt;
    free = λ d i. refl;
    held = λ id d i. refl;
    cover = λ d. refl;
    follows = λ id. Follows-refl I id [];
  }
  give_back-Changes repair machines c (t ∷ ts) chain v =
      let removed = I.inter repair machines in
      let kept = I.inter t.allocated_machines removed in
      let r = give_back-Changes repair machines t.end ts (chain.3) (v.1) in
      record {
        chain = (chain.0, chain.1, chain.2, r.chain);
        balanced = (give_back-Balanced repair machines t (v.0), r.balanced);
        free = λ d i. ground (
          arith,
          r.free d i,
          v.0.placed i,
          v.0.allocated i,
          L.contains-inter repair machines i,
          L.contains-inter t.allocated_machines removed i,
          L.contains-remove removed kept i,
          L.contains-insert t.available_machines (I.remove removed kept) i,
        );
        held = λ id d i. ground (arith, r.held id d i);
        cover = λ d. ground (arith, r.cover d);
        follows = λ id.
            Follows-cons I id t (give_back I removed t) ts (map (give_back I removed) ts) refl
              (r.follows id);
      }
