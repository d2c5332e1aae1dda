-- ===== src/Schedule/Placing/Took.antt =====
-- What it is for a job to take machines in a period, and how the parts of the scan do it.
use schedule_test.Base.{
  ℕ, ◌-◌, ◌≤◌, ◌<◌, ◌≡◌, refl, sym, subst, List, [], ◌∷◌, ◌++◌, true, false, arith, ltb, ◌==◌, ◌&&◌,
  not, if◌then◌else◌, Bool-cases, ==_iff, inl, inr,
}
use schedule_test.Intervals.Interface.{Intervals, IntervalLaws, Subset}
use schedule_test.Workload.{Job}
use schedule_test.Schedule.JobMap.Laws.{assign, assign-Assigned}
use schedule_test.Schedule.Slices.{TimeSlice, slice_contains_job, allocate, split_slice}
use schedule_test.Schedule.Slices.Account.{
  allocate-Balanced, holds-allocate, holds-not_there, contains_job-allocate,
  contains_job-allocate_other,
}
use schedule_test.Schedule.View.Follows.{
  Follows, Follows-cons, Follows-split, Follows-refl, RunFirst-Absent,
}
use schedule_test.Schedule.View.{
  within, holds, free_at, held_at, covered, ChainFrom, Balanced, AllBalanced, Absent, RunFirst,
  Together,
}
use schedule_test.Schedule.Placing.{place_last}

module _ (I : Intervals) (n : ℕ) (repair : I.Machines) (a : ℕ → I.Machines) where
  -- From `ss` to `us`, slices from `c` on: the job has taken the machines `m`, which were free, from
  -- `b` to `d`; nothing else is free or taken that was not before. The slices
  -- of the job are consecutive.
  abbrev pub Took : Job → I.Machines → (c b d : ℕ) → (ss us : List (TimeSlice I)) → Type 0
  Took j m c b d ss us = record {
    chain : ChainFrom I c us;
    balanced : AllBalanced I n repair (assign a j.id m) us;
    free :
        (t i : ℕ) → free_at I t i us ≡ (free_at I t i ss && not (within b d t && I.contains m i));
    held :
        (id t i : ℕ)
        → held_at I id t i us
          ≡ (if j.id == id then within b d t && I.contains m i else held_at I id t i ss);
    room : (t i : ℕ) → within b d t ≡ true → I.contains m i ≡ true → free_at I t i ss ≡ true;
    late : c ≤ b;
    first : b ≡ c → RunFirst I j.id us;
    together : Together I j.id us;
    there : ¬ Absent I j.id us;
    cover : (t : ℕ) → covered I t us ≡ covered I t ss;
    follows : (id : ℕ) → (j.id == id) ≡ false → Follows I id ss us;
  }

  -- A slice without the job keeps its account when the job is assigned machines.
  pub assign-Balanced :
      (id : ℕ) (m : I.Machines) (s : TimeSlice I)
      → slice_contains_job I id s ≡ false
      → Balanced I n repair a s
      → Balanced I n repair (assign a id m) s
  assign-Balanced id m s new v = record {
    counted = v.counted;
    placed = v.placed;
    allocated = v.allocated;
    assigned = assign-Assigned a id m s.allocated_jobs new v.assigned;
    unique = v.unique;
  }

  pub assign-AllBalanced :
      (id : ℕ) (m : I.Machines) (ss : List (TimeSlice I))
      → Absent I id ss
      → AllBalanced I n repair a ss
      → AllBalanced I n repair (assign a id m) ss
  assign-AllBalanced id m [] new v = tt
  assign-AllBalanced id m (s ∷ ss) new v =
      (assign-Balanced id m s (new.0) (v.0), assign-AllBalanced id m ss (new.1) (v.1))

module _ (I : Intervals) where
  held_at-Absent :
      (id t i : ℕ) (ss : List (TimeSlice I)) → Absent I id ss → held_at I id t i ss ≡ false
  unfolding held_at
  held_at-Absent id t i [] new = refl
  held_at-Absent id t i (s ∷ ss) new =
      ground (arith, holds-not_there I id i s (new.0), held_at-Absent id t i ss (new.1))

  -- The same by the identifier's equal.
  pub held_at-own :
      (id k t i : ℕ) (ss : List (TimeSlice I))
      → Absent I id ss
      → (id == k) ≡ true
      → held_at I k t i ss ≡ false
  held_at-own id k t i ss new own =
      subst (λ x. held_at I x t i ss ≡ false) ((==_iff id k).0 own) (held_at-Absent id t i ss new)

  holds-own :
      (id k i : ℕ) (s : TimeSlice I)
      → slice_contains_job I id s ≡ false
      → (id == k) ≡ true
      → holds I k i s ≡ false
  holds-own id k i s new own =
      subst (λ x. holds I x i s ≡ false) ((==_iff id k).0 own) (holds-not_there I id i s new)

  pub free_at-before :
      (c t i : ℕ) (ss : List (TimeSlice I)) → ChainFrom I c ss → t < c → free_at I t i ss ≡ false
  unfolding free_at
  free_at-before c t i [] chain h = refl
  free_at-before c t i (s ∷ ss) chain h = ground arith

  pub held_at-before :
      (id c t i : ℕ) (ss : List (TimeSlice I))
      → ChainFrom I c ss
      → t < c
      → held_at I id t i ss ≡ false
  unfolding held_at
  held_at-before id c t i [] chain h = refl
  held_at-before id c t i (s ∷ ss) chain h = ground arith

module _ (I : Intervals) (L : IntervalLaws I) (n : ℕ) (repair : I.Machines) (a : ℕ → I.Machines)
    (j : Job) (m : I.Machines) (size : I.size m ≡ j.nb_requested_resources) where
  module _ (c : ℕ) (s : TimeSlice I) (ts : List (TimeSlice I)) (chain : ChainFrom I c (s ∷ ts))
      (v : AllBalanced I n repair a (s ∷ ts)) (new : Absent I j.id (s ∷ ts))
      (sub : Subset I m s.available_machines) where
    -- The job ends with the slice.
    whole-Took : Took I n repair a j m c c s.end (s ∷ ts) (allocate I j m s ∷ ts)
    unfolding allocate free_at held_at covered
    whole-Took = record {
      chain = chain;
      balanced = (
        allocate-Balanced I L n repair a j m s (new.0) sub size (v.0),
        assign-AllBalanced I n repair a j.id m ts (new.1) (v.1),
      );
      free = λ t i. ground (
        arith,
        L.contains-remove s.available_machines m i,
        free_at-before I s.end t i ts (chain.3),
      );
      held = λ id t i.
          ground (arith, holds-allocate I j m id i s, held_at-own I j.id id t i ts (new.1));
      room = λ t i inside has. ground (arith, sub i);
      late = omega arith;
      first = λ e. inl (contains_job-allocate I j m s, RunFirst-Absent I j.id ts (new.1));
      together = inl (contains_job-allocate I j m s, RunFirst-Absent I j.id ts (new.1));
      cover = λ t. refl;
      there = λ gone. cc (contains_job-allocate I j m s, gone.0);
      follows = λ id other.
          Follows-cons I id s (allocate I j m s) ts ts
            (contains_job-allocate_other I j m id s other) (Follows-refl I id ts);
    }

    -- The slice is split at the end of the job.
    cut-Took :
        (d : ℕ)
        → c < d
        → d < s.end
        → Took I n repair a j m c c d (s ∷ ts) (
            allocate I j m (record s { end = d; length = d - s.begin })
            ∷ record s { begin = d; length = s.end - d }
            ∷ ts)
    unfolding allocate free_at held_at covered
    cut-Took d before inside =
        let first : TimeSlice I = record s { end = d; length = d - s.begin } in
        record {
          chain = (chain.0, before, omega arith, (refl, inside, omega arith, chain.3));
          balanced = (
            allocate-Balanced I L n repair a j m first (new.0) sub size (v.0),
            (
              assign-Balanced I n repair a j.id m s (new.0) (v.0),
              assign-AllBalanced I n repair a j.id m ts (new.1) (v.1),
            ),
          );
          free = λ t i. ground (
            arith,
            L.contains-remove s.available_machines m i,
            free_at-before I s.end t i ts (chain.3),
          );
          held = λ id t i. ground (
            arith,
            holds-allocate I j m id i first,
            holds-own I j.id id i s (new.0),
            held_at-own I j.id id t i ts (new.1),
          );
          room = λ t i within_it has. ground (arith, sub i);
          late = omega arith;
          first = λ e. inl (contains_job-allocate I j m first, inr (new.0, new.1));
          together = inl (contains_job-allocate I j m first, inr (new.0, new.1));
          cover = λ t. ground (arith, chain.0);
          there = λ gone. cc (contains_job-allocate I j m first, gone.0);
          follows = λ id other.
              Follows-split I id s (allocate I j m first)
                (record s { begin = d; length = s.end - d }) ts
                (contains_job-allocate_other I j m id first other) refl;
        }

    -- The last slice of the job.
    pub place_last-Took :
        (d : ℕ)
        → c < d
        → d ≤ s.end
        → Took I n repair a j m c c d (s ∷ ts) (place_last I d j m s ++ ts)
    unfolding place_last split_slice
    place_last-Took d before fits =
        let starts : ltb s.begin d ≡ true = ground arith in
        elim (Bool-cases (ltb d s.end)) [
          | inl inside ↦
              let placed : place_last I d j m s ++ ts
                  ≡ allocate I j m (record s { end = d; length = d - s.begin })
                    ∷ record s { begin = d; length = s.end - d }
                    ∷ ts =
                rw (starts, inside) refl in
              subst (Took I n repair a j m c c d (s ∷ ts)) (sym placed)
                (cut-Took d before (ground arith))
          | inr ends ↦
              let placed : place_last I d j m s ++ ts ≡ allocate I j m s ∷ ts =
                rw (starts, ends) refl in
              let same : s.end ≡ d = ground arith in
              subst (Took I n repair a j m c c d (s ∷ ts)) (sym placed) (
                subst (λ e. Took I n repair a j m c c e (s ∷ ts) (allocate I j m s ∷ ts)) same
                  whole-Took)
        ]

    -- A slice before the last one of the job.
    pub allocate-Took :
        (d : ℕ) (us : List (TimeSlice I))
        → s.end < d
        → Took I n repair a j m s.end s.end d ts us
        → Took I n repair a j m c c d (s ∷ ts) (allocate I j m s ∷ us)
    unfolding allocate free_at held_at covered
    allocate-Took d us more r = record {
      chain = (chain.0, chain.1, chain.2, r.chain);
      balanced = (allocate-Balanced I L n repair a j m s (new.0) sub size (v.0), r.balanced);
      free = λ t i. ground (arith, L.contains-remove s.available_machines m i, r.free t i);
      held = λ id t i. ground (arith, holds-allocate I j m id i s, r.held id t i);
      room = λ t i inside has. ground (arith, sub i, r.room t i);
      late = omega arith;
      first = λ e. inl (contains_job-allocate I j m s, r.first refl);
      together = inl (contains_job-allocate I j m s, r.first refl);
      cover = λ t. ground (arith, r.cover t);
      there = λ gone. cc (contains_job-allocate I j m s, gone.0);
      follows = λ id other.
          Follows-cons I id s (allocate I j m s) ts us
            (contains_job-allocate_other I j m id s other) (r.follows id other);
    }

  -- A slice before the job.
  pub skip-Took :
      (c b d : ℕ) (s : TimeSlice I) (ts us : List (TimeSlice I))
      → ChainFrom I c (s ∷ ts)
      → Balanced I n repair a s
      → slice_contains_job I j.id s ≡ false
      → Took I n repair a j m s.end b d ts us
      → Took I n repair a j m c b d (s ∷ ts) (s ∷ us)
  unfolding free_at held_at covered
  skip-Took c b d s ts us chain v new r = record {
    chain = (chain.0, chain.1, chain.2, r.chain);
    balanced = (assign-Balanced I n repair a j.id m s new v, r.balanced);
    free = λ t i. ground (arith, r.free t i, r.late);
    held = λ id t i. ground (arith, holds-own I j.id id i s new, r.held id t i, r.late);
    room = λ t i inside has. ground (arith, r.room t i, r.late);
    late = omega (arith, r.late);
    first = λ e. absurd (omega (arith, r.late));
    together = inr (new, r.together);
    cover = λ t. ground (arith, r.cover t);
    there = λ gone. r.there (gone.1);
    follows = λ id other. Follows-cons I id s s ts us refl (r.follows id other);
  }
