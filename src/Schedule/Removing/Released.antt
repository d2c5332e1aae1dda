-- ===== src/Schedule/Removing/Released.antt =====
-- Slices that a job has left.
use schedule_test.Base.{
  ℕ, ◌≡◌, refl, ◌∙◌, ap, List, [], ◌∷◌, some, true, false, arith, ◌==◌, ◌&&◌, ◌||◌, not, bit,
  if◌then◌else◌, Bool-cases, inl, inr, subst, ==_iff,
}
use schedule_test.Intervals.Interface.{Intervals, IntervalLaws}
use schedule_test.Workload.{Job}
use schedule_test.Schedule.JobMap.{find_job}
use schedule_test.Schedule.JobMap.Laws.{find-Assigned, sum-erase_job, has_job-eq_find}
use schedule_test.Schedule.Slices.{TimeSlice, slice_contains_job, release}
use schedule_test.Schedule.Slices.Account.{
  release-Balanced, holds-release, contains_job-release, contains_job-release_other, holds-find,
  holds-not_there,
}
use schedule_test.Schedule.View.Follows.{Follows, Follows-refl, Follows-cons}
use schedule_test.Schedule.View.{
  holds, free_at, held_at, covered, ChainFrom, Balanced, AllBalanced, Absent,
}

module _ (I : Intervals) (j : Job) (back : I.Machines) where
  unfoldable pub release_if_there : TimeSlice I → TimeSlice I
  release_if_there s = if slice_contains_job I j.id s then release I j back s else s

  abbrev pub release_all : List (TimeSlice I) → List (TimeSlice I)
  release_all [] = []
  release_all (s ∷ ss) = release_if_there s ∷ release_all ss

  pub release_if_there-absent :
      (s : TimeSlice I) → slice_contains_job I j.id s ≡ false → release_if_there s ≡ s
  unfolding release_if_there
  release_if_there-absent s gone = rw gone refl

  pub release_all-Absent : (ss : List (TimeSlice I)) → Absent I j.id ss → release_all ss ≡ ss
  unfolding release_if_there
  release_all-Absent [] new = refl
  release_all-Absent (s ∷ ss) new = rw (new.0, release_all-Absent ss (new.1)) refl

module _ (I : Intervals) (L : IntervalLaws I) (n : ℕ) (repair : I.Machines) (a : ℕ → I.Machines)
    (j : Job) (back : I.Machines)
    (same : (i : ℕ)
      → I.contains back i ≡ (I.contains (a j.id) i && not (I.contains repair i))) where
  -- One slice that the job has left.
  abbrev Left : (s t : TimeSlice I) → Type 0
  Left s t = record {
    begins : t.begin ≡ s.begin;
    is_over : t.end ≡ s.end;
    lasts : t.length ≡ s.length;
    balanced : Balanced I n repair a t;
    absent : slice_contains_job I j.id t ≡ false;
    others :
        (id : ℕ) → (j.id == id) ≡ false → slice_contains_job I id t ≡ slice_contains_job I id s;
    free :
        (i : ℕ)
        → I.contains t.available_machines i
          ≡ (I.contains s.available_machines i || holds I j.id i s);
    held : (id i : ℕ) → holds I id i t ≡ (not (j.id == id) && holds I id i s);
  }

  -- The machines of a job are not in repair.
  back-same :
      (m : I.Machines) (s : TimeSlice I)
      → Balanced I n repair a s
      → find_job j.id s.allocated_jobs ≡ some m
      → (i : ℕ) → I.contains back i ≡ I.contains m i
  back-same m s v found i =
      let assigned : I.contains m i ≡ I.contains (a j.id) i =
        ap (λ x. I.contains x i) (find-Assigned a j.id m s.allocated_jobs v.assigned found) in
      let part =
        sum-erase_job (λ (x : I.Machines). bit (I.contains x i)) j.id m s.allocated_jobs found in
      ground (arith, v.placed i, part, same i)

  release-Left :
      (s : TimeSlice I)
      → Balanced I n repair a s
      → slice_contains_job I j.id s ≡ true
      → Left s (release I j back s)
  unfolding release
  release-Left s v there = elim (has_job-eq_find j.id s.allocated_jobs) [
    | inr (gone, e) ↦ absurd (cc gone)
    | inl (yes_there, (m, found)) ↦
        let alike = back-same m s v found in
        record {
          begins = refl;
          is_over = refl;
          lasts = refl;
          balanced = release-Balanced I L n repair a j m back s found alike v;
          absent = contains_job-release I j back s v.unique;
          others = λ id other. contains_job-release_other I j back id s other;
          free = λ i. ground (
            arith,
            L.contains-insert s.available_machines back i,
            alike i,
            holds-find I j.id i m s found,
          );
          held = λ id i. holds-release I j back id i s v.unique;
        }
  ]

  absent-Left :
      (s : TimeSlice I) → Balanced I n repair a s → slice_contains_job I j.id s ≡ false → Left s s
  absent-Left s v gone = record {
    begins = refl;
    is_over = refl;
    lasts = refl;
    balanced = v;
    absent = gone;
    others = λ id other. refl;
    free = λ i. ground (arith, holds-not_there I j.id i s gone);
    held = λ id i. elim (Bool-cases (j.id == id)) [
      | inr other ↦ rw other refl
      | inl own ↦
          let also : slice_contains_job I id s ≡ false =
            subst (λ k. slice_contains_job I k s ≡ false) ((==_iff j.id id).0 own) gone in
          rw own (holds-not_there I id i s also)
    ];
  }

  pub release_if_there-Left :
      (s : TimeSlice I) → Balanced I n repair a s → Left s (release_if_there I j back s)
  unfolding release_if_there
  release_if_there-Left s v = elim (Bool-cases (slice_contains_job I j.id s)) [
    | inl there ↦ rw there (release-Left s v there)
    | inr gone ↦ rw gone (absent-Left s v gone)
  ]

  -- From the first list to the second, the job has given back what it held.
  abbrev pub Gone : (c : ℕ) → (ss us : List (TimeSlice I)) → Type 0
  Gone c ss us = record {
    chain : ChainFrom I c us;
    balanced : AllBalanced I n repair a us;
    free : (t i : ℕ) → free_at I t i us ≡ (free_at I t i ss || held_at I j.id t i ss);
    held : (id t i : ℕ) → held_at I id t i us ≡ (not (j.id == id) && held_at I id t i ss);
    absent : Absent I j.id us;
    follows : (id : ℕ) → (j.id == id) ≡ false → Follows I id ss us;
    cover : (t : ℕ) → covered I t us ≡ covered I t ss;
  }

  pub release_all-Gone :
      (c : ℕ) (ss : List (TimeSlice I))
      → ChainFrom I c ss
      → AllBalanced I n repair a ss
      → Gone c ss (release_all I j back ss)
  unfolding free_at held_at covered
  release_all-Gone c [] chain v = record {
    chain = tt;
    balanced = tt;
    free = λ t i. refl;
    held = λ id t i. ground arith;
    absent = tt;
    follows = λ id other. Follows-refl I id [];
    cover = λ t. refl;
  }
  release_all-Gone c (s ∷ ss) chain v =
      let l = release_if_there-Left s (v.0) in
      let r = release_all-Gone s.end ss (chain.3) (v.1) in
      record {
        chain = (
          l.begins ∙ chain.0,
          omega (arith, l.is_over, chain.1),
          omega (arith, l.is_over, l.lasts, chain.2),
          rw l.is_over r.chain,
        );
        balanced = (l.balanced, r.balanced);
        free = λ t i. ground (arith, l.begins, l.is_over, l.free i, r.free t i);
        held = λ id t i. ground (arith, l.begins, l.is_over, l.held id i, r.held id t i);
        absent = (l.absent, r.absent);
        cover = λ t. ground (arith, l.begins, l.is_over, r.cover t);
        follows = λ id other.
            Follows-cons I id s (release_if_there I j back s) ss (release_all I j back ss)
              (l.others id other) (r.follows id other);
      }
