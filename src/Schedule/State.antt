-- ===== src/Schedule/State.antt =====
-- What the operations of Schedule keep of its state, and when it contains a job.
use schedule_test.Base.{
  ℕ, ◌≤◌, ◌<◌, ◌≡◌, refl, sym, subst, ◌∙◌, List, [], ◌∷◌, none, true, false, All, arith, ltb, ◌==◌,
  ◌&&◌, Bool-cases, Option-cases, inl, inr,
}
use schedule_test.Intervals.Interface.{Intervals}
use schedule_test.Schedule.{
  Schedule, set_smallest_and_largest_time_slice_length, infinity, contains_job, infinite_horizon,
  last_end, set_lengths,
}
use schedule_test.Schedule.Slices.{TimeSlice, slice_contains_job}
use schedule_test.Schedule.View.{covered, ChainFrom, Absent}
use schedule_test.Schedule.Removing.{find_first_occurence_of_job}
use schedule_test.Schedule.Placing.Earliest.{last_end-chain}

module _ (I : Intervals) where
  pub Early-chain :
      (c : ℕ) (ss : List (TimeSlice I)) (horizon : ℕ)
      → ChainFrom I c ss
      → last_end I ss ≤ horizon
      → All (λ s. s.begin < horizon) ss
  unfolding last_end
  Early-chain c [] horizon chain h = tt
  Early-chain c (s ∷ []) horizon chain h = (omega (arith, chain.0, chain.1), tt)
  Early-chain c (s ∷ t ∷ ts) horizon chain h = (
    omega (arith, chain.0, chain.1, last_end-chain I s.end t ts (chain.3)),
    Early-chain s.end (t ∷ ts) horizon (chain.3) h,
  )

  pub horizon-eq : (s : Schedule I) → infinite_horizon I s ≡ last_end I s.profile
  unfolding infinite_horizon
  horizon-eq s = refl

  pub find_first_occurence-Absent :
      (id : ℕ) (ss : List (TimeSlice I))
      → find_first_occurence_of_job I id ss ≡ none
      → Absent I id ss
  unfolding find_first_occurence_of_job
  find_first_occurence-Absent id [] h = tt
  find_first_occurence-Absent id (s ∷ ss) h = elim (Bool-cases (slice_contains_job I id s)) [
    | inl there ↦ absurd (cc (rw there at h))
    | inr gone ↦ elim (Option-cases (find_first_occurence_of_job I id ss)) [
      | inl later ↦ (gone, find_first_occurence-Absent id ss later)
      | inr (k, later) ↦ absurd (cc (rw (gone, later) at h))
    ]
  ]

  pub contains_job-Absent :
      (id : ℕ) (s : Schedule I) → contains_job I id s ≡ false → Absent I id s.profile
  unfolding contains_job
  contains_job-Absent id s h = elim (Option-cases (find_first_occurence_of_job I id s.profile)) [
    | inl gone ↦ find_first_occurence-Absent id s.profile gone
    | inr (k, there) ↦
        let found : contains_job I id s ≡ true = rw (there, contains_job) refl in absurd (cc found)
  ]

  find_first_occurence-none :
      (id : ℕ) (ss : List (TimeSlice I))
      → Absent I id ss
      → find_first_occurence_of_job I id ss ≡ none
  unfolding find_first_occurence_of_job
  find_first_occurence-none id [] new = refl
  find_first_occurence-none id (s ∷ ss) new =
      rw (new.0, find_first_occurence-none id ss (new.1)) refl

  pub contains_job-gone :
      (id : ℕ) (s : Schedule I) → Absent I id s.profile → contains_job I id s ≡ false
  unfolding contains_job
  contains_job-gone id s new = rw (find_first_occurence-none id s.profile new, contains_job) refl

  pub contains_job-there :
      (id : ℕ) (s : Schedule I) → ¬ Absent I id s.profile → contains_job I id s ≡ true
  contains_job-there id s there = elim (Bool-cases (contains_job I id s)) [
    | inl h ↦ h
    | inr h ↦ absurd (there (contains_job-Absent id s h))
  ]

  -- Two schedules in which the job is and is not alike.
  pub contains_job-alike :
      (id : ℕ) (s t : Schedule I)
      → (Absent I id s.profile → Absent I id t.profile)
      → (Absent I id t.profile → Absent I id s.profile)
      → contains_job I id t ≡ contains_job I id s
  contains_job-alike id s t forth back = elim (Bool-cases (contains_job I id s)) [
    | inr gone ↦ contains_job-gone id t (forth (contains_job-Absent id s gone)) ∙ sym gone
    | inl there ↦
        contains_job-there id t (λ new. cc (contains_job-gone id s (back new), there)) ∙ sym there
  ]

  -- Only the smallest and the largest length are set.
  pub set_lengths-record :
      (second : ℕ) (ls : List ℕ) (s : Schedule I)
      → (x y : ℕ) × (set_lengths I second ls s
          ≡ record s { smallest_time_slice_length = x; largest_time_slice_length = y })
  unfolding set_lengths set_smallest_and_largest_time_slice_length
  set_lengths-record second [] s = (s.smallest_time_slice_length, s.largest_time_slice_length, refl)
  set_lengths-record second (l ∷ ls) s =
      elim (Bool-cases
        (s.smallest_time_slice_length == 0 && s.largest_time_slice_length == infinity second)) [
          | inl fresh ↦ rw fresh (
              set_lengths-record second ls
                (record s { smallest_time_slice_length = l; largest_time_slice_length = l }))
          | inr used ↦ rw used (set_lengths-record second ls _)
        ]

  pub set_lengths-keeps :
      (P : Schedule I → Type 0) (second : ℕ) (ls : List ℕ) (s : Schedule I)
      → ((x y : ℕ) → P (record s { smallest_time_slice_length = x; largest_time_slice_length = y }))
      → P (set_lengths I second ls s)
  set_lengths-keeps P second ls s h =
      let (x, y, same) = set_lengths-record second ls s in subst P (sym same) (h x y)

  -- A date in a slice is before the end of the last one.
  covered-last_end :
      (c d : ℕ) (ss : List (TimeSlice I))
      → ChainFrom I c ss
      → covered I d ss ≡ true
      → d < last_end I ss
  unfolding covered last_end
  covered-last_end c d [] chain h = absurd (cc h)
  covered-last_end c d (s ∷ []) chain h = ground arith
  covered-last_end c d (s ∷ t ∷ ts) chain h = elim (Bool-cases (ltb d s.end)) [
    | inl early ↦ ground (arith, last_end-chain I s.end t ts (chain.3))
    | inr late ↦ covered-last_end s.end d (t ∷ ts) (chain.3) (rw late at h)
  ]

  -- A schedule that covers a date lasts beyond it.
  pub covered-horizon :
      (c d : ℕ) (s : Schedule I)
      → ChainFrom I c s.profile
      → covered I d s.profile ≡ true
      → d < infinite_horizon I s
  covered-horizon c d s chain h =
      omega (arith, horizon-eq s, covered-last_end c d s.profile chain h)
