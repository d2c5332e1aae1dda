-- ===== src/Schedule/Queries/Periods.antt =====
-- The machines that are available during a period, and those allocated in a slice.
use schedule_test.Base.{
  ℕ, ◌≤◌, ◌<◌, ◌≡◌, refl, List, [], ◌∷◌, true, false, arith, ltb, ◌&&◌, ◌||◌, sum_of, ◌↔◌,
  Bool-cases, inl, inr,
}
use schedule_test.Intervals.Interface.{Intervals, IntervalLaws}
use schedule_test.Workload.{Job}
use schedule_test.Schedule.{last_end}
use schedule_test.Schedule.Slices.{TimeSlice}
use schedule_test.Schedule.View.{within, free_at, holders, ChainFrom, Balanced}
use schedule_test.Schedule.Placing.Earliest.{last_end-cases}
use schedule_test.Schedule.Queries.{gather, which_machines_are_allocated_in_time_slice, narrow}

module _ (I : Intervals) (L : IntervalLaws I) where
  contains-gather :
      (machines so_far : I.Machines) (i : ℕ) (xs : List (Job × I.Machines))
      → I.contains (gather I machines so_far xs) i
        ≡ (I.contains so_far i || ltb 0 (holders I i xs) && I.contains machines i)
  unfolding gather sum_of
  contains-gather machines so_far i [] = ground arith
  contains-gather machines so_far i ((job, interval) ∷ rest) = ground (
    arith,
    contains-gather machines (I.insert so_far (I.inter interval machines)) i rest,
    L.contains-insert so_far (I.inter interval machines) i,
    L.contains-inter interval machines i,
  )

  -- In a balanced slice, which_machines_are_allocated_in_time_slice, which goes through the jobs, finds
  -- the machines of the set allocated_machines that are asked for.
  pub which_machines-allocated :
      (n : ℕ) (repair : I.Machines) (a : ℕ → I.Machines) (slice : TimeSlice I)
      → Balanced I n repair a slice
      → (machines : I.Machines) (i : ℕ)
      → I.contains (which_machines_are_allocated_in_time_slice I slice machines) i
        ≡ I.contains (I.inter slice.allocated_machines machines) i
  unfolding which_machines_are_allocated_in_time_slice
  which_machines-allocated n repair a slice v machines i = ground (
    arith,
    v.allocated i,
    contains-gather machines I.empty i slice.allocated_jobs,
    L.contains-empty i,
    L.contains-inter slice.allocated_machines machines i,
  )

  narrow-over :
      (end c : ℕ) (av : I.Machines) (ss : List (TimeSlice I))
      → ChainFrom I c ss
      → end ≤ c
      → narrow I end av ss ≡ av
  unfolding narrow
  narrow-over end c av [] chain over = refl
  narrow-over end c av (s ∷ ss) chain over =
      let stops : ltb s.begin end ≡ false = ground (arith, chain.0) in rw stops refl

  -- What is left of the machines after the slices from `c` on: those that are free up to the end.
  pub narrow-free :
      (end c i : ℕ) (av : I.Machines) (ss : List (TimeSlice I))
      → ChainFrom I c ss
      → c < end
      → end ≤ last_end I ss
      → (I.contains (narrow I end av ss) i ≡ true)
        ↔ ((I.contains av i ≡ true) × ((d : ℕ) → within c end d ≡ true → free_at I d i ss ≡ true))
  unfolding narrow free_at last_end
  narrow-free end c i av [] chain some_time upto = absurd (omega arith)
  narrow-free end c i av (s ∷ ss) chain some_time upto =
      let common = I.inter av s.available_machines in
      let goes_on : ltb s.begin end ≡ true = ground (arith, chain.0) in
      let meets = L.contains-inter av s.available_machines i in
      elim (Bool-cases (ltb s.end end)) [
        | inl longer ↦
            let later : end ≤ last_end I ss = elim (last_end-cases I end s ss upto) [
              | inl e ↦ e
              | inr e ↦ absurd (ground arith)
            ] in
            let again = narrow-free end s.end i common ss (chain.3) (ground arith) later in
            rw goes_on (
              λ h.
                  let (both, free) = again.0 h in
                  (
                    ground (arith, meets),
                    λ d inside. elim (Bool-cases (ltb d s.end)) [
                      | inl here ↦ ground (arith, meets, chain.0)
                      | inr there ↦ ground (arith, free d (ground arith))
                    ],
                  ),
              λ (has, free). again.1 (
                ground (arith, meets, free c (ground arith), chain.0, chain.1),
                λ d inside. ground (arith, free d (ground (arith, chain.1))),
              ),
            )
        | inr done ↦
            let over : narrow I end common ss ≡ common =
              narrow-over end s.end common ss (chain.3) (ground arith) in
            rw (goes_on, over)
              (
                λ h. (ground (arith, meets), λ d inside. ground (arith, meets, chain.0)),
                λ (has, free). ground (arith, meets, free c (ground arith), chain.0, chain.1),
              )
      ]
