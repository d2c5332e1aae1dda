-- ===== src/Schedule/Queries/Available.antt =====
-- available_machines_during_period on a period that begins with a slice.
use schedule_test.Base.{
  ℕ, zero, suc, ◌≤◌, ◌<◌, ◌≡◌, refl, sym, ◌∙◌, ap, subst, List, [], ◌∷◌, some, true, false, arith,
  leb, ◌&&◌, not, ◌↔◌, drop, Returns, ok,
}
use schedule_test.Intervals.Interface.{Intervals, IntervalLaws}
use schedule_test.Schedule.{Schedule, last_end, infinite_horizon, first_slice_begin}
use schedule_test.Schedule.Slices.{TimeSlice}
use schedule_test.Schedule.View.{within, free_at, ChainFrom}
use schedule_test.Schedule.State.{horizon-eq}
use schedule_test.Schedule.Queries.{
  narrow, narrow_from, find_first_time_slice_after_date, available_machines_during_period,
}
use schedule_test.Schedule.Queries.Periods.{narrow-free}

drop-empty : {A : Type 0} (k : ℕ) (xs : List A) → xs ≡ [] → drop k xs ≡ []
drop-empty zero xs e = e
drop-empty (suc k) [] e = refl
drop-empty (suc k) (x ∷ xs) e = cc e

module _ (I : Intervals) where
  -- The slices from a position on say of later dates what all slices say.
  drop-chain :
      (k c : ℕ) (ss : List (TimeSlice I)) (slice : TimeSlice I) (rest : List (TimeSlice I))
      → ChainFrom I c ss
      → drop k ss ≡ slice ∷ rest
      → ChainFrom I slice.begin (slice ∷ rest)
        × (c ≤ slice.begin)
        × (last_end I ss ≡ last_end I (slice ∷ rest))
        × ((d i : ℕ) → slice.begin ≤ d → free_at I d i ss ≡ free_at I d i (slice ∷ rest))
  unfolding last_end free_at
  drop-chain zero c ss slice rest chain e =
      let here : ChainFrom I c (slice ∷ rest) = subst (ChainFrom I c) e chain in
      let starts = here.0 in
      (
        subst (λ b. ChainFrom I b (slice ∷ rest)) (sym starts) here,
        omega arith,
        ap (last_end I) e,
        λ d i h. ap (λ ts. free_at I d i ts) e,
      )
  drop-chain (suc k) c [] slice rest chain e = cc e
  drop-chain (suc k) c (s ∷ []) slice rest chain e = absurd (cc (drop-empty k [] refl, e))
  drop-chain (suc k) c (s ∷ t ∷ ts) slice rest chain e =
      let (chain', after, ends_same, alike) = drop-chain k s.end (t ∷ ts) slice rest (chain.3) e in
      (
        chain',
        omega (arith, after, chain.1),
        ends_same,
        λ d i h. ground (arith, after, alike d i h),
      )

  free_at-head :
      (slice : TimeSlice I) (rest : List (TimeSlice I)) (i : ℕ)
      → slice.begin < slice.end
      → free_at I slice.begin i (slice ∷ rest) ≡ I.contains slice.available_machines i
  unfolding free_at
  free_at-head slice rest i lasts = ground arith

module _ (I : Intervals) (L : IntervalLaws I) (c : ℕ) (s : Schedule I) where
  first-begins :
      (ss : List (TimeSlice I))
      → s.profile ≡ ss
      → ChainFrom I c ss
      → c < last_end I ss
      → first_slice_begin I s ≡ ok c
  unfolding first_slice_begin last_end
  first-begins [] is chain some_time = absurd (omega arith)
  first-begins (t ∷ ts) is chain some_time = rw (is, first_slice_begin) (ap ok (chain.0))

  -- For a period of some length that begins with a slice, the one that is found first from its begin
  -- on, and ends by the horizon, available_machines_during_period ends without a fault, with the
  -- machines that are free at every date of the period.
  pub available_machines_during_period-free :
      (begin end position : ℕ) (slice : TimeSlice I) (rest : List (TimeSlice I))
      → ChainFrom I c s.profile
      → find_first_time_slice_after_date I begin s.profile ≡ some position
      → drop position s.profile ≡ slice ∷ rest
      → slice.begin ≡ begin
      → begin < end
      → end ≤ infinite_horizon I s
      → Returns
          (λ r.
            (i : ℕ)
            → (I.contains r i ≡ true)
              ↔ ((d : ℕ) → (within begin end d && not (free_at I d i s.profile)) ≡ false))
          (available_machines_during_period I begin end s)
  unfolding available_machines_during_period narrow_from
  available_machines_during_period-free begin end position slice rest chain found at starts
        some_time upto =
      let (chain', after, ends_same, alike) =
        drop-chain I position c s.profile slice rest chain at in
      let upto_last : end ≤ last_end I (slice ∷ rest) = omega (arith, horizon-eq I s, ends_same) in
      let first = first-begins s.profile refl chain (omega (arith, horizon-eq I s)) in
      let reached : leb c begin ≡ true = ground arith in
      let horizon : leb end (infinite_horizon I s) ≡ true = ground arith in
      let begins : available_machines_during_period I begin end s
          ≡ narrow_from I end (drop position s.profile) =
        rw (first, reached, horizon, found, available_machines_during_period) refl in
      let answers : available_machines_during_period I begin end s
          ≡ ok (narrow I end slice.available_machines (slice ∷ rest)) =
        begins ∙ ap (narrow_from I end) at in
      rw answers λ i.
        let free =
          narrow-free I L end slice.begin i slice.available_machines (slice ∷ rest) chain'
            (omega arith) upto_last in
        (
          λ h d. let (has, all) = free.0 h in ground (arith, alike d i, all d),
          λ all. free.1 (
            ground (
              arith,
              alike slice.begin i,
              all slice.begin,
              free_at-head I slice rest i (chain'.1),
            ),
            λ d inside. ground (arith, alike d i, all d),
          ),
        )
