-- ===== src/Locality/Limited.antt =====
-- locality.cpp: LimitedRangeResourceSelector, which takes machines of one range only.
use schedule_test.Base.{
  ◌≡◌, Option, some, none, leb, if◌then◌else◌, arith, subst, ◌≤◌, ◌<◌, ◌⊎◌, inl, inr, Bool-cases,
  refl,
}
use schedule_test.Intervals.Interface.{Intervals, IntervalLaws, Subset}
use schedule_test.Workload.{Job}
use schedule_test.Locality.{Selector}

module _ (I : Intervals) where
  -- `LimitedRangeResourceSelector::fit`.
  pub limited_fit : (limited_range : I.Machines) → Job → I.Machines → Option I.Machines
  limited_fit limited_range j available =
      let limited_available = I.inter available limited_range in
      if leb j.nb_requested_resources (I.size limited_available)
      then some (I.left limited_available j.nb_requested_resources)
      else none

module _ (I : Intervals) (L : IntervalLaws I) (limited_range : I.Machines) where
  size-Subset : (a b : I.Machines) → Subset I a b → I.size a ≤ I.size b
  size-Subset a b sub = omega (arith, L.size-remove b a sub)

  -- The job fits exactly when the range has enough of the available machines. Then it is given as many
  -- machines as it asks for, all of which are available and in the range.
  pub limited_fit-cases :
      (j : Job) (available : I.Machines)
      → ((allocated : I.Machines) × (limited_fit I limited_range j available ≡ some allocated)
          × Subset I allocated available
          × Subset I allocated limited_range
          × (I.size allocated ≡ j.nb_requested_resources))
        ⊎ ((limited_fit I limited_range j available ≡ none)
            × (I.size (I.inter available limited_range) < j.nb_requested_resources))
  unfolding limited_fit
  limited_fit-cases j available =
      let both = I.inter available limited_range in
      let n = j.nb_requested_resources in
      elim (Bool-cases (leb n (I.size both))) [
        | inl fits ↦ inl (
          I.left both n,
          rw fits refl,
          λ i has.
              ground
                (arith, L.left-Subset both n i has, L.contains-inter available limited_range i),
          λ i has.
              ground
                (arith, L.left-Subset both n i has, L.contains-inter available limited_range i),
          L.size-left both n (ground (arith, fits)),
        )
        | inr few ↦ inr (rw few refl, ground (arith, few))
      ]

  pub limited_fit-Subset :
      (j : Job) (available allocated : I.Machines)
      → limited_fit I limited_range j available ≡ some allocated
      → Subset I allocated available × (I.size allocated ≡ j.nb_requested_resources)
  limited_fit-Subset j available allocated e = elim (limited_fit-cases j available) [
    | inl (m, is, sub, range, size) ↦
        let same : m ≡ allocated = ground (arith, is, e) in
        subst (λ x. Subset I x available × (I.size x ≡ j.nb_requested_resources)) same (sub, size)
    | inr (fails, few) ↦ absurd (cc (fails, e))
  ]

  pub limited_fit-shrink :
      (j : Job) (available fewer : I.Machines)
      → limited_fit I limited_range j available ≡ none
      → Subset I fewer available
      → limited_fit I limited_range j fewer ≡ none
  limited_fit-shrink j available fewer fails sub = elim (limited_fit-cases j available) [
    | inl (m, is, sub', range, size) ↦ absurd (cc (fails, is))
    | inr (same, few) ↦ elim (limited_fit-cases j fewer) [
      | inr (none_either, less) ↦ none_either
      | inl (m, is, part, range, size) ↦
          let inside : Subset I m (I.inter available limited_range) = λ i has.
            ground (
              arith,
              sub i (part i has),
              range i has,
              L.contains-inter available limited_range i,
            ) in
          absurd (omega (arith, size, few, size-Subset m _ inside))
    ]
  ]

  -- LimitedRangeResourceSelector does what a selector promises.
  abbrev pub limited : Selector I
  limited = record {
    fit = limited_fit I limited_range;
    fit-Subset = λ j available allocated e. (limited_fit-Subset j available allocated e).0;
    size-fit = λ j available allocated e. (limited_fit-Subset j available allocated e).1;
    fit-shrink = limited_fit-shrink;
  }
