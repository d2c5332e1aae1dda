-- ===== src/Schedule/Removing/Merging.antt =====
-- Slices that are merged where neighbours hold the same jobs say the same of every date.
use schedule_test.Base.{ℕ, ◌≡◌, refl, List, [], ◌∷◌, true, arith}
use schedule_test.Intervals.Interface.{Intervals, IntervalLaws}
use schedule_test.Schedule.JobMap.{same_ids}
use schedule_test.Schedule.JobMap.Laws.{find-same_ids}
use schedule_test.Schedule.Slices.{TimeSlice, merge}
use schedule_test.Schedule.Slices.Account.{merge-Balanced, same_ids-available}
use schedule_test.Schedule.JobMap.Unique.{has_job-same_ids}
use schedule_test.Schedule.View.Follows.{
  Follows, Follows-refl, Follows-cons, Follows-merge, Follows-trans,
}
use schedule_test.Schedule.View.{holds, free_at, held_at, covered, ChainFrom, AllBalanced, Absent}

module _ (I : Intervals) where
  -- From the first list to the second, neighbours with the same jobs are merged.
  pub data Merged : List (TimeSlice I) → List (TimeSlice I) → Type 0 where
    nothing : Merged [] []
    keep : (s : TimeSlice I) (ss us : List (TimeSlice I)) → Merged ss us → Merged (s ∷ ss) (s ∷ us)
    two :
        (s t : TimeSlice I) (ss us : List (TimeSlice I))
        → same_ids s.allocated_jobs t.allocated_jobs ≡ true
        → Merged (merge I s t ∷ ss) us
        → Merged (s ∷ t ∷ ss) us

  pub Merged-refl : (ss : List (TimeSlice I)) → Merged ss ss
  Merged-refl [] = nothing
  Merged-refl (s ∷ ss) = keep s ss ss (Merged-refl ss)

  pub Merged-Absent :
      (id : ℕ) (ss us : List (TimeSlice I)) → Absent I id ss → Merged ss us → Absent I id us
  unfolding merge
  Merged-Absent id ss us new nothing = tt
  Merged-Absent id ss us new (keep s ss' us' m) = (new.0, Merged-Absent id ss' us' (new.1) m)
  Merged-Absent id ss us new (two s t ss' us' same m) =
      Merged-Absent id (merge I s t ∷ ss') us (new.1.0, new.1.1) m

module _ (I : Intervals) (L : IntervalLaws I) (n : ℕ) (repair : I.Machines)
    (a : ℕ → I.Machines) where
  -- The lists say the same of every date, and the second one has the invariant.
  abbrev pub Same : (c : ℕ) → (ss us : List (TimeSlice I)) → Type 0
  Same c ss us = record {
    chain : ChainFrom I c us;
    balanced : AllBalanced I n repair a us;
    free : (t i : ℕ) → free_at I t i us ≡ free_at I t i ss;
    held : (id t i : ℕ) → held_at I id t i us ≡ held_at I id t i ss;
    follows : (id : ℕ) → Follows I id ss us;
    cover : (t : ℕ) → covered I t us ≡ covered I t ss;
  }

  pub Merged-Same :
      (c : ℕ) (ss us : List (TimeSlice I))
      → ChainFrom I c ss
      → AllBalanced I n repair a ss
      → Merged I ss us
      → Same c ss us
  unfolding free_at held_at covered holds merge
  Merged-Same c ss us chain v nothing = record {
    chain = tt;
    balanced = tt;
    free = λ t i. refl;
    held = λ id t i. refl;
    follows = λ id. Follows-refl I id [];
    cover = λ t. refl;
  }
  Merged-Same c ss us chain v (keep s ss' us' m) =
      let r = Merged-Same s.end ss' us' (chain.3) (v.1) m in
      record {
        chain = (chain.0, chain.1, chain.2, r.chain);
        balanced = (v.0, r.balanced);
        free = λ t i. ground (arith, r.free t i);
        held = λ id t i. ground (arith, r.held id t i);
        follows = λ id. Follows-cons I id s s ss' us' refl (r.follows id);
        cover = λ d. ground (arith, r.cover d);
      }
  Merged-Same c ss us chain v (two s t ss' us' same m) =
      let (starts, some_time, lasts, (next, more_time, longer, rest)) = chain in
      let r =
        Merged-Same c (merge I s t ∷ ss') us (starts, omega arith, omega arith, rest)
          (merge-Balanced I L n repair a s t (v.1.0), v.1.1) m in
      let equal =
        (L.equal_iff s.available_machines t.available_machines).0
          (same_ids-available I L n repair a s t same (v.0) (v.1.0)) in
      record {
        chain = r.chain;
        balanced = r.balanced;
        follows = λ id.
            let alike = has_job-same_ids id s.allocated_jobs t.allocated_jobs same in
            Follows-trans I id (s ∷ t ∷ ss') (merge I s t ∷ ss') us
              (Follows-merge I id s t (merge I s t) ss' alike alike) (r.follows id);
        free = λ d i. ground (arith, r.free d i, equal i);
        cover = λ d. ground (arith, r.cover d);
        held = λ id d i. ground (
          arith,
          r.held id d i,
          find-same_ids a id s.allocated_jobs t.allocated_jobs same v.0.assigned v.1.0.assigned,
        );
      }
