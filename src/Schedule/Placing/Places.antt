-- ===== src/Schedule/Placing/Places.antt =====
-- The scan over the anchor points: the job takes the machines that it finds.
use mathlib.Core.Option
use schedule_test.Base.{
  ℕ, suc, ◌+◌, ◌-◌, ◌<◌, ◌≡◌, refl, ◌∙◌, List, [], ◌∷◌, true, All, arith, leb, ◌==◌, Bool-cases,
  Option-cases, inl, inr, Found, Found-map, Found-weaken,
}
use schedule_test.Intervals.Interface.{Intervals, IntervalLaws}
use schedule_test.Workload.{Job}
use schedule_test.Locality.{Selector}
use schedule_test.Schedule.Slices.{TimeSlice}
use schedule_test.Schedule.View.{ChainFrom, AllBalanced, Absent}
use schedule_test.Schedule.Placing.{Fit, try_anchor, first_fit, with_walltime}
use schedule_test.Schedule.Placing.Took.{Took, skip-Took}
use schedule_test.Schedule.Placing.Scan.{Anchors, try_anchor-Anchors}

module _ (I : Intervals) (L : IntervalLaws I) (selector : Selector I) (n : ℕ) (repair : I.Machines)
    (a : ℕ → I.Machines) (j : Job) (horizon : ℕ) where
  -- What the scan finds: the job, with its walltime or the one it was given, has taken machines.
  abbrev pub Places : (c : ℕ) → List (TimeSlice I) → Fit I → Type 0
  Places c ss f = record {
    same_job : f.job ≡ with_walltime I horizon f.begin j;
    size : I.size f.machines ≡ j.nb_requested_resources;
    starts : (f.skipped == 0) ≡ (f.begin == c);
    took : Took I n repair a j f.machines c f.begin (f.begin + f.job.walltime) ss f.slices;
  }

  -- One attempt, with the job as it is then.
  attempt-Places :
      (c : ℕ) (s : TimeSlice I) (ss : List (TimeSlice I))
      → ChainFrom I c (s ∷ ss)
      → AllBalanced I n repair a (s ∷ ss)
      → Absent I j.id (s ∷ ss)
      → (j.has_walltime ≡ true → 0 < j.walltime)
      → c < horizon
      → Found (Places c (s ∷ ss)) (try_anchor I selector (with_walltime I horizon s.begin j) s ss)
  unfolding with_walltime
  attempt-Places c s ss chain v new lasts early = elim (Bool-cases j.has_walltime) [
    | inl has ↦
        let same : with_walltime I horizon s.begin j ≡ j = rw has refl in
        rw same (
          Found-weaken (Anchors I L selector j n repair a c (s ∷ ss)) (Places c (s ∷ ss))
            (try_anchor I selector j s ss)
            (λ f (begin, first, job, size, took). record {
              starts = ground (arith, begin, first);
              same_job = job ∙ rw has refl;
              size = size;
              took = rw (begin, job) took;
            })
            (try_anchor-Anchors I L selector j n repair a c s ss chain v new (lasts has)))
    | inr lacks ↦
        let given : Job = record j { walltime = horizon - s.begin } in
        let same : with_walltime I horizon s.begin j ≡ given = rw lacks refl in
        rw same (
          Found-weaken (Anchors I L selector given n repair a c (s ∷ ss)) (Places c (s ∷ ss))
            (try_anchor I selector given s ss)
            (λ f (begin, first, job, size, took). record {
              starts = ground (arith, begin, first);
              same_job = job ∙ rw (lacks, begin, chain.0) refl;
              size = size;
              took = rw (begin, job) took;
            })
            (try_anchor-Anchors I L selector given n repair a c s ss chain v new
              (omega (arith, chain.0))))
  ]

  -- The slices begin before the horizon.
  abbrev pub Early : List (TimeSlice I) → Type 0
  Early = All (λ s. s.begin < horizon)

  pub first_fit-Places :
      (c : ℕ) (ss : List (TimeSlice I))
      → ChainFrom I c ss
      → AllBalanced I n repair a ss
      → Absent I j.id ss
      → (j.has_walltime ≡ true → 0 < j.walltime)
      → Early ss
      → Found (Places c ss) (first_fit I selector horizon j ss)
  unfolding first_fit
  first_fit-Places c [] chain v new lasts early = tt
  first_fit-Places c (s ∷ ss) chain v new lasts early =
      let next : Found (Places c (s ∷ ss)) (
          Option.map {A = Fit I} (λ f. record f { skipped = suc f.skipped; slices = s ∷ f.slices })
            (first_fit I selector horizon j ss)) =
        Found-map (Places s.end ss) (Places c (s ∷ ss)) _ (first_fit I selector horizon j ss)
          (λ f p. record {
            same_job = p.same_job;
            size = p.size;
            starts = ground (arith, p.took.late, chain.1);
            took =
                skip-Took I L n repair a j f.machines p.size c f.begin (f.begin + f.job.walltime) s
                  ss f.slices chain (v.0) (new.0) p.took;
          })
          (first_fit-Places s.end ss (chain.3) (v.1) (new.1) lasts (early.1)) in
      let attempt = attempt-Places c s ss chain v new lasts (omega (arith, early.0, chain.0)) in
      elim (Bool-cases (leb j.nb_requested_resources s.nb_available_machines)) [
        | inr lack ↦ rw lack next
        | inl enough ↦
            elim (Option-cases (try_anchor I selector (with_walltime I horizon s.begin j) s ss)) [
              | inl fails ↦ rw (enough, fails) next
              | inr (f, found) ↦ rw (enough, found) (rw found at attempt)
            ]
      ]
