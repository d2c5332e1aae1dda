-- ===== src/Schedule/Updating/Forgets.antt =====
-- The update of the first slice forgets what is past, and nothing else.
use schedule_test.Base.{
  sym, false, ℕ, ◌+◌, ◌≤◌, ◌<◌, ◌≡◌, refl, subst, List, [], ◌∷◌, true, arith, ltb, leb, ◌&&◌,
  Bool-cases, inl, inr, Returns, Returns-weaken, Returns-bind, ok, ◌>>=◌,
}
use schedule_test.Intervals.Interface.{Intervals}
use schedule_test.Schedule.{Schedule, JobAlloc, contains_job, infinite_horizon, last_end}
use schedule_test.Schedule.Slices.{TimeSlice}
use schedule_test.Schedule.View.Follows.{Together-rest}
use schedule_test.Schedule.View.{
  holds, free_at, held_at, covered, ChainFrom, AllBalanced, Together, Absent,
}
use schedule_test.Schedule.Adding.{Planned}
use schedule_test.Schedule.State.{horizon-eq, contains_job-alike}
use schedule_test.Schedule.Placing.Took.{free_at-before, held_at-before}
use schedule_test.Schedule.Placing.Earliest.{last_end-cases}
use schedule_test.Schedule.Updating.{
  begin_at, drop_past, move_allocations, update_first_slice,
  update_first_slice_removing_remaining_jobs,
}

module _ (I : Intervals) (n : ℕ) (repair : I.Machines) (a : ℕ → I.Machines) (now : ℕ) where
  -- From the date on, the slices say the same.
  abbrev pub Cut : (ss us : List (TimeSlice I)) → Type 0
  Cut ss us = record {
    chain : ChainFrom I now us;
    balanced : AllBalanced I n repair a us;
    free : (d i : ℕ) → free_at I d i us ≡ (leb now d && free_at I d i ss);
    held : (id d i : ℕ) → held_at I id d i us ≡ (leb now d && held_at I id d i ss);
    near : (id : ℕ) → Together I id ss → Together I id us;
    cover : (d : ℕ) → covered I d us ≡ (leb now d && covered I d ss);
  }

  covered-before :
      (c d : ℕ) (ss : List (TimeSlice I)) → ChainFrom I c ss → d < c → covered I d ss ≡ false
  unfolding covered
  covered-before c d [] chain h = refl
  covered-before c d (s ∷ ss) chain h = ground arith

  pub begin_at-Cut :
      (c : ℕ) (s : TimeSlice I) (ss : List (TimeSlice I))
      → ChainFrom I c (s ∷ ss)
      → AllBalanced I n repair a (s ∷ ss)
      → c ≤ now
      → now < s.end
      → Returns (Cut (s ∷ ss)) (begin_at I now (s ∷ ss))
  unfolding begin_at free_at held_at covered holds
  begin_at-Cut c s ss chain v from before = record {
    chain = (refl, before, omega arith, chain.3);
    balanced = (
      record {
        counted = v.0.counted;
        placed = v.0.placed;
        allocated = v.0.allocated;
        assigned = v.0.assigned;
        unique = v.0.unique;
      },
      v.1,
    );
    free = λ d i. ground (arith, chain.0, free_at-before I s.end d i ss (chain.3));
    held = λ id d i. ground (arith, chain.0, held_at-before I id s.end d i ss (chain.3));
    near = λ id h. h;
    cover = λ d. ground (arith, chain.0, covered-before s.end d ss (chain.3));
  }

  later :
      (s : TimeSlice I) (ss : List (TimeSlice I))
      → leb s.end now ≡ true
      → now < last_end I (s ∷ ss)
      → now < last_end I ss
  later s ss past before = elim (last_end-cases I (now + 1) s ss (omega arith)) [
    | inl h ↦ omega arith
    | inr h ↦ absurd (ground arith)
  ]

  pub drop_past-Cut :
      (c : ℕ) (ss : List (TimeSlice I))
      → ChainFrom I c ss
      → AllBalanced I n repair a ss
      → c ≤ now
      → now < last_end I ss
      → Returns (Cut ss) (begin_at I now (drop_past I now ss))
  unfolding drop_past last_end free_at held_at covered
  drop_past-Cut c [] chain v from before = absurd (omega arith)
  drop_past-Cut c (s ∷ ss) chain v from before = elim (Bool-cases (leb s.end now)) [
    | inr inside ↦ rw inside (begin_at-Cut c s ss chain v from (ground arith))
    | inl past ↦ rw past (
        Returns-weaken (Cut ss) (Cut (s ∷ ss)) (begin_at I now (drop_past I now ss))
          (λ us r. record {
            chain = r.chain;
            balanced = r.balanced;
            free = λ d i. ground (arith, r.free d i);
            held = λ id d i. ground (arith, r.held id d i);
            near = λ id h. r.near id (Together-rest I id s ss h);
            cover = λ d. ground (arith, r.cover d);
          })
          (drop_past-Cut s.end ss (chain.3) (v.1) (ground arith) (later s ss past before)))
  ]

module _ (I : Intervals) (c : ℕ) (a : ℕ → I.Machines) (s : Schedule I) (now : ℕ) where
  -- From the date on, the schedules say the same; before it, the new one says nothing.
  abbrev pub Forgotten : Schedule I → Type 0
  Forgotten t = record {
    planned : Planned I now a t;
    free : (d i : ℕ) → free_at I d i t.profile ≡ (leb now d && free_at I d i s.profile);
    held : (id d i : ℕ) → held_at I id d i t.profile ≡ (leb now d && held_at I id d i s.profile);
    cover : (d : ℕ) → covered I d t.profile ≡ (leb now d && covered I d s.profile);
  }

  Forgotten-Cut :
      (ss us : List (TimeSlice I)) (allocations : ℕ → List (ℕ × JobAlloc I))
      → s.profile ≡ ss
      → ((id : ℕ) → Together I id ss)
      → Cut I s.nb_machines s.repair_machines a now ss us
      → Forgotten (record s { profile = us; allocations = allocations })
  Forgotten-Cut ss us allocations is near r = record {
    planned = (r.chain, r.balanced, λ id. r.near id (near id));
    free = λ d i. rw is (r.free d i);
    held = λ id d i. rw is (r.held id d i);
    cover = λ d. rw is (r.cover d);
  }

  update_first_slice-runs :
      (epsilon : ℕ) (slice : TimeSlice I) (rest : List (TimeSlice I))
      → s.profile ≡ slice ∷ rest
      → slice.begin ≤ now
      → now < slice.end
      → update_first_slice I epsilon now s
        ≡ begin_at I now (slice ∷ rest) >>= λ profile. ok (record s {
          profile = profile;
          allocations = move_allocations I slice.begin now slice.allocated_jobs s.allocations;
        })
  unfolding update_first_slice
  update_first_slice-runs epsilon slice rest is from before =
      let reached : leb slice.begin (now + epsilon) ≡ true = ground arith in
      let not_over : leb now (slice.end + epsilon) ≡ true = ground arith in
      rw (is, reached, not_over, update_first_slice) refl

  -- update_first_slice to a date in the first slice ends without a fault, whatever `epsilon` is: what is
  -- free and held does not change from the date on, and the invariant holds from it.
  pub update_first_slice-Forgotten :
      (epsilon : ℕ) (slice : TimeSlice I) (rest : List (TimeSlice I))
      → Planned I c a s
      → s.profile ≡ slice ∷ rest
      → c ≤ now
      → now < slice.end
      → Returns Forgotten (update_first_slice I epsilon now s)
  unfolding update_first_slice
  update_first_slice-Forgotten epsilon slice rest planned is from before =
      let here : Planned I c a (record s { profile = slice ∷ rest }) = (rw is at planned) in
      let starts = here.0.0 in
      let allocations = move_allocations I slice.begin now slice.allocated_jobs s.allocations in
      rw (update_first_slice-runs epsilon slice rest is (omega arith) before) (
        Returns-bind (Cut I s.nb_machines s.repair_machines a now (slice ∷ rest)) Forgotten
          (begin_at I now (slice ∷ rest)) _
          (begin_at-Cut I s.nb_machines s.repair_machines a now c slice rest (here.0) (here.1) from
            before)
          (λ us r. Forgotten-Cut (slice ∷ rest) us allocations is (here.2) r))

  -- Then the jobs that were in the schedule are in it, and no others.
  pub update_first_slice-contains :
      (epsilon : ℕ) (slice : TimeSlice I) (rest : List (TimeSlice I))
      → s.profile ≡ slice ∷ rest
      → slice.begin ≤ now
      → now < slice.end
      → Returns
          (λ t. (id : ℕ) → contains_job I id t ≡ contains_job I id s)
          (update_first_slice I epsilon now s)
  unfolding begin_at
  update_first_slice-contains epsilon slice rest is from before =
      rw (update_first_slice-runs epsilon slice rest is from before) (λ id.
        contains_job-alike I id s _ (λ h. subst (Absent I id) is h)
          (λ h. subst (Absent I id) (sym is) h))

  some_slice :
      (ss : List (TimeSlice I))
      → now < last_end I ss
      → (slice : TimeSlice I) × (rest : List (TimeSlice I)) × (ss ≡ slice ∷ rest)
  unfolding last_end
  some_slice [] before = absurd (omega arith)
  some_slice (slice ∷ rest) before = (slice, rest, refl)

  removing_remaining-runs :
      (slice : TimeSlice I) (rest : List (TimeSlice I))
      → s.profile ≡ slice ∷ rest
      → leb slice.begin now ≡ true
      → ltb now (infinite_horizon I s) ≡ true
      → update_first_slice_removing_remaining_jobs I now s ≡ (
          begin_at I now (drop_past I now (slice ∷ rest)) >>= λ profile.
          ok (record s { profile = profile }))
  unfolding update_first_slice_removing_remaining_jobs
  removing_remaining-runs slice rest is starts before =
      rw (is, starts, before, update_first_slice_removing_remaining_jobs) refl

  -- update_first_slice_removing_remaining_jobs to a date from the begin of the schedule to before its
  -- horizon ends without a fault: what is free and held does not change from the date on, and the
  -- invariant holds from it.
  pub update_first_slice_removing_remaining_jobs-Forgotten :
      Planned I c a s
      → c ≤ now
      → now < infinite_horizon I s
      → Returns Forgotten (update_first_slice_removing_remaining_jobs I now s)
  update_first_slice_removing_remaining_jobs-Forgotten planned from before =
      let (slice, rest, is) = some_slice s.profile (omega (arith, horizon-eq I s)) in
      let here : Planned I c a (record s { profile = slice ∷ rest }) = (rw is at planned) in
      let starts = here.0.0 in
      let ends : now < last_end I (slice ∷ rest) =
        subst (λ ss. now < last_end I ss) is (omega (arith, horizon-eq I s)) in
      rw (removing_remaining-runs slice rest is (ground arith) (ground arith)) (
        Returns-bind (Cut I s.nb_machines s.repair_machines a now (slice ∷ rest)) Forgotten
          (begin_at I now (drop_past I now (slice ∷ rest))) _
          (drop_past-Cut I s.nb_machines s.repair_machines a now c (slice ∷ rest) (here.0) (here.1)
            from ends)
          (λ us r. Forgotten-Cut (slice ∷ rest) us s.allocations is (here.2) r))
