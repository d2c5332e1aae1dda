-- ===== src/Schedule/View/Follows.antt =====
-- The slices of a job stay consecutive when slices change one by one, are split and are merged.
use schedule_test.Base.{
  sym, ℕ, ◌≡◌, ◌∙◌, List, [], ◌∷◌, false, inl, inr, ◌==◌, Bool-cases, subst, ==_iff,
}
use schedule_test.Intervals.Interface.{Intervals}
use schedule_test.Schedule.Slices.{TimeSlice, slice_contains_job}
use schedule_test.Schedule.View.{Absent, RunFirst, Together}

module _ (I : Intervals) (id : ℕ) where
  -- Where the job is in the first list, it is in the second.
  abbrev pub Follows : (ss us : List (TimeSlice I)) → Type 0
  Follows ss us = record {
    absent : Absent I id ss → Absent I id us;
    back : Absent I id us → Absent I id ss;
    first : RunFirst I id ss → RunFirst I id us;
    together : Together I id ss → Together I id us;
  }

  pub Follows-refl : (ss : List (TimeSlice I)) → Follows ss ss
  Follows-refl ss = record { absent = λ h. h; back = λ h. h; first = λ h. h; together = λ h. h }

  pub Follows-trans :
      (ss us vs : List (TimeSlice I)) → Follows ss us → Follows us vs → Follows ss vs
  Follows-trans ss us vs f g = record {
    absent = λ h. g.absent (f.absent h);
    back = λ h. f.back (g.back h);
    first = λ h. g.first (f.first h);
    together = λ h. g.together (f.together h);
  }

  pub RunFirst-Absent : (ss : List (TimeSlice I)) → Absent I id ss → RunFirst I id ss
  RunFirst-Absent [] new = tt
  RunFirst-Absent (s ∷ ss) new = inr new

  pub Together-Absent : (ss : List (TimeSlice I)) → Absent I id ss → Together I id ss
  Together-Absent [] new = tt
  Together-Absent (s ∷ ss) new = inr (new.0, Together-Absent ss (new.1))

  pub Together-RunFirst : (ss : List (TimeSlice I)) → RunFirst I id ss → Together I id ss
  Together-RunFirst [] run = tt
  Together-RunFirst (s ∷ ss) (inl here) = inl here
  Together-RunFirst (s ∷ ss) (inr (gone, new)) = inr (gone, Together-Absent ss new)

  -- The later slices.
  pub Together-rest :
      (s : TimeSlice I) (ss : List (TimeSlice I)) → Together I id (s ∷ ss) → Together I id ss
  Together-rest s ss (inl (there, run)) = Together-RunFirst ss run
  Together-rest s ss (inr (gone, run)) = run

  pub Follows-cons :
      (s t : TimeSlice I) (ss us : List (TimeSlice I))
      → slice_contains_job I id t ≡ slice_contains_job I id s
      → Follows ss us
      → Follows (s ∷ ss) (t ∷ us)
  Follows-cons s t ss us same f = record {
    absent = λ (gone, h). (same ∙ gone, f.absent h);
    back = λ (gone, h). (sym same ∙ gone, f.back h);
    first = λ h. elim h [
      | inl (there, run) ↦ inl (same ∙ there, f.first run)
      | inr (gone, new) ↦ inr (same ∙ gone, f.absent new)
    ];
    together = λ h. elim h [
      | inl (there, run) ↦ inl (same ∙ there, f.first run)
      | inr (gone, run) ↦ inr (same ∙ gone, f.together run)
    ];
  }

  pub Follows-split :
      (s t u : TimeSlice I) (ss : List (TimeSlice I))
      → slice_contains_job I id t ≡ slice_contains_job I id s
      → slice_contains_job I id u ≡ slice_contains_job I id s
      → Follows (s ∷ ss) (t ∷ u ∷ ss)
  Follows-split s t u ss same alike = record {
    absent = λ (gone, h). (same ∙ gone, (alike ∙ gone, h));
    back = λ (gone, h). (sym same ∙ gone, h.1);
    first = λ h. elim h [
      | inl (there, run) ↦ inl (same ∙ there, inl (alike ∙ there, run))
      | inr (gone, new) ↦ inr (same ∙ gone, (alike ∙ gone, new))
    ];
    together = λ h. elim h [
      | inl (there, run) ↦ inl (same ∙ there, inl (alike ∙ there, run))
      | inr (gone, run) ↦ inr (same ∙ gone, inr (alike ∙ gone, run))
    ];
  }

  pub Follows-merge :
      (s t m : TimeSlice I) (ss : List (TimeSlice I))
      → slice_contains_job I id t ≡ slice_contains_job I id s
      → slice_contains_job I id m ≡ slice_contains_job I id s
      → Follows (s ∷ t ∷ ss) (m ∷ ss)
  Follows-merge s t m ss same alike = record {
    absent = λ (gone, h). (alike ∙ gone, h.1);
    back = λ (gone, h). let first = sym alike ∙ gone in (first, (same ∙ first, h));
    first = λ h. elim h [
      | inl (there, inl (again, run)) ↦ inl (alike ∙ there, run)
      | inl (there, inr (gone, new)) ↦ absurd (cc same)
      | inr (gone, new) ↦ inr (alike ∙ gone, new.1)
    ];
    together = λ h. elim h [
      | inl (there, inl (again, run)) ↦ inl (alike ∙ there, run)
      | inl (there, inr (gone, new)) ↦ absurd (cc same)
      | inr (gone, inl (there, run)) ↦ absurd (cc same)
      | inr (gone, inr (again, run)) ↦ inr (alike ∙ gone, run)
    ];
  }

-- When the slices of one job are consecutive, and the others are where they were.
module _ (I : Intervals) where
  pub Together-all :
      (own : ℕ) (ss us : List (TimeSlice I))
      → ((id : ℕ) → (own == id) ≡ false → Follows I id ss us)
      → Together I own us
      → ((id : ℕ) → Together I id ss)
      → (id : ℕ) → Together I id us
  Together-all own ss us others its near id = elim (Bool-cases (own == id)) [
    | inl same ↦ subst (λ k. Together I k us) ((==_iff own id).0 same) its
    | inr other ↦ (others id other).together (near id)
  ]
