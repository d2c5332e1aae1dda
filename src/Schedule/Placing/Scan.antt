-- ===== src/Schedule/Placing/Scan.antt =====
-- The scan for an anchor point puts the job where its machines are free all the time.
use mathlib.Core.Option
use schedule_test.Base.{
  ℕ, ◌+◌, ◌≤◌, ◌<◌, ◌≡◌, refl, sym, subst, ◌∙◌, ap, List, [], ◌∷◌, ◌++◌, none, some, arith, ltb,
  leb, Bool-cases, Option-cases, inl, inr, ◌⊎◌, Found, Found-map,
}
use schedule_test.Intervals.Interface.{Intervals, IntervalLaws, Subset}
use schedule_test.Workload.{Job}
use schedule_test.Locality.{Selector}
use schedule_test.Schedule.Slices.{TimeSlice, allocate, split_lengths}
use schedule_test.Schedule.View.{ChainFrom, AllBalanced, Absent}
use schedule_test.Schedule.Placing.{Fit, extend, try_anchor, place_last}
use schedule_test.Schedule.Placing.Took.{Took, place_last-Took, allocate-Took}

module _ (I : Intervals) (L : IntervalLaws I) (selector : Selector I) (j : Job) where
  pub inter-Subset : (x y : I.Machines) → Subset I (I.inter x y) x × Subset I (I.inter x y) y
  inter-Subset x y =
      (λ i h. ground (arith, L.contains-inter x y i), λ i h. ground (arith, L.contains-inter x y i))

  -- What `extend` does at a slice: it gives up, goes on, or ends there.
  pub data Step (d : ℕ) (available : I.Machines) (total : ℕ) (t : TimeSlice I)
      (ts : List (TimeSlice I)) : Type 0 where
    gives_up :
        extend I selector j d available total (t ∷ ts) ≡ none
        → ((t.nb_available_machines < j.nb_requested_resources)
            ⊎ (I.size (I.inter available t.available_machines) < j.nb_requested_resources))
        → Step d available total t ts
    goes_on :
        extend I selector j d available total (t ∷ ts)
          ≡ Option.map
              (λ (r : I.Machines × List (TimeSlice I) × List ℕ).
                (r.0, allocate I j r.0 t ∷ r.1, r.2))
              (extend I selector j d (I.inter available t.available_machines) (total + t.length) ts)
        → ((total + t.length < j.walltime)
            ⊎ (selector.fit j (I.inter available t.available_machines) ≡ none))
        → Step d available total t ts
    ends :
        (m : I.Machines)
        → selector.fit j (I.inter available t.available_machines) ≡ some m
        → j.walltime ≤ total + t.length
        → extend I selector j d available total (t ∷ ts)
          ≡ some (m, place_last I d j m t ++ ts, split_lengths I d t)
        → Step d available total t ts

  pub step :
      (d : ℕ) (available : I.Machines) (total : ℕ) (t : TimeSlice I) (ts : List (TimeSlice I))
      → Step d available total t ts
  unfolding extend
  step d available total t ts =
      let common = I.inter available t.available_machines in
      elim (Bool-cases (leb j.nb_requested_resources t.nb_available_machines)) [
        | inr lack ↦ gives_up (rw lack refl) (inl (ground arith))
        | inl enough ↦ elim (Bool-cases (ltb (I.size common) j.nb_requested_resources)) [
          | inl few ↦ gives_up (rw (enough, few) refl) (inr (ground arith))
          | inr many ↦ elim (Bool-cases (leb j.walltime (total + t.length))) [
            | inr short ↦ goes_on (rw (enough, many, short) refl) (inl (ground arith))
            | inl long ↦ elim (Option-cases (selector.fit j common)) [
              | inl misfit ↦ goes_on (rw (enough, many, long, misfit) refl) (inr misfit)
              | inr (m, fit) ↦ ends m fit (ground arith) (rw (enough, many, long, fit) refl)
            ]
          ]
        ]
      ]

  -- Where the job does not fit, it does not in the further slices.
  extend-none :
      (d : ℕ) (available larger : I.Machines) (total : ℕ) (ts : List (TimeSlice I))
      → selector.fit j larger ≡ none
      → Subset I available larger
      → extend I selector j d available total ts ≡ none
  unfolding extend
  extend-none d available larger total [] e sub = refl
  extend-none d available larger total (t ∷ ts) e sub =
      let common = I.inter available t.available_machines in
      let fewer : Subset I common larger =
        λ i h. sub i ((inter-Subset available t.available_machines).0 i h) in
      elim (step d available total t ts) [
        | gives_up stop why ↦ stop
        | goes_on on why ↦ on ∙ rw (extend-none d common larger (total + t.length) ts e fewer) refl
        | ends m fit long found ↦ cc (selector.fit-shrink j larger common e fewer)
      ]

  module _ (n : ℕ) (repair : I.Machines) (a : ℕ → I.Machines) where
    -- What `extend` finds for slices from `c` on: machines that are in `available` too, taken from
    -- `c` to `d`.
    abbrev Extends :
        (available : I.Machines)
        → (c d : ℕ) → List (TimeSlice I)
        → I.Machines × List (TimeSlice I) × List ℕ
        → Type 0
    Extends available c d ts r =
        Subset I r.0 available
        × (I.size r.0 ≡ j.nb_requested_resources)
        × Took I n repair a j r.0 c c d ts r.1

    extend-Extends :
        (b c : ℕ) (available : I.Machines) (total : ℕ) (ts : List (TimeSlice I))
        → ChainFrom I c ts
        → AllBalanced I n repair a ts
        → Absent I j.id ts
        → b + total ≡ c
        → total < j.walltime
        → Found
            (Extends available c (b + j.walltime) ts)
            (extend I selector j (b + j.walltime) available total ts)
    unfolding extend
    extend-Extends b c available total [] chain v new at_c more = tt
    extend-Extends b c available total (t ∷ ts) chain v new at_c more =
        let d = b + j.walltime in
        let common = I.inter available t.available_machines in
        let (left, right) = inter-Subset available t.available_machines in
        elim (step d available total t ts) [
          | gives_up stop why ↦ rw stop tt
          | goes_on on (inl short) ↦ rw on (
              Found-map (Extends common t.end d ts) (Extends available c d (t ∷ ts)) _
                (extend I selector j d common (total + t.length) ts)
                (λ r (sub, size, took). (
                  (λ i h. left i (sub i h)),
                  size,
                  allocate-Took I L n repair a j (r.0) size c t ts chain v new
                      (λ i h. right i (sub i h)) d (r.1) (omega arith) took,
                ))
                (extend-Extends b t.end common (total + t.length) ts (chain.3) (v.1) (new.1)
                  (omega arith) short))
          | goes_on on (inr misfit) ↦
              let stop = extend-none d common common (total + t.length) ts misfit (λ i h. h) in
              rw on (rw stop tt)
          | ends m fit long found ↦
              let sub = selector.fit-Subset j common m fit in
              let size = selector.size-fit j common m fit in
              rw found (
                (λ i h. left i (sub i h)),
                size,
                place_last-Took I L n repair a j m size c t ts chain v new
                    (λ i h. right i (sub i h)) d (omega arith) (omega arith),
              )
        ]

    -- What an attempt finds: it begins with the slice and lasts the walltime.
    abbrev pub Anchors : (c : ℕ) → List (TimeSlice I) → Fit I → Type 0
    Anchors c ss f =
        (f.begin ≡ c)
        × (f.skipped ≡ 0)
        × (f.job ≡ j)
        × (I.size f.machines ≡ j.nb_requested_resources)
        × Took I n repair a j f.machines c c (c + j.walltime) ss f.slices

    pub try_anchor-Anchors :
        (c : ℕ) (s : TimeSlice I) (ss : List (TimeSlice I))
        → ChainFrom I c (s ∷ ss)
        → AllBalanced I n repair a (s ∷ ss)
        → Absent I j.id (s ∷ ss)
        → 0 < j.walltime
        → Found (Anchors c (s ∷ ss)) (try_anchor I selector j s ss)
    unfolding try_anchor
    try_anchor-Anchors c s ss chain v new lasts =
        let date : s.begin + j.walltime ≡ c + j.walltime = ap (λ x. x + j.walltime) (chain.0) in
        elim (Bool-cases (leb j.walltime s.length)) [
          | inl alone ↦ elim (Option-cases (selector.fit j s.available_machines)) [
            | inl misfit ↦ rw (alone, misfit) tt
            | inr (m, fit) ↦
                let size = selector.size-fit j s.available_machines m fit in
                rw (alone, fit)
                  (
                    chain.0,
                    refl,
                    refl,
                    size,
                    subst
                        (λ d.
                          Took I n repair a j m c c (c + j.walltime) (s ∷ ss)
                            (place_last I d j m s ++ ss))
                        (sym date)
                        (place_last-Took I L n repair a j m size c s ss chain v new
                          (selector.fit-Subset j s.available_machines m fit) (c + j.walltime)
                          (omega arith) (ground arith)),
                  )
          ]
          | inr longer ↦
              rw (longer, date)
                (Found-map (Extends s.available_machines s.end (c + j.walltime) ss)
                  (Anchors c (s ∷ ss)) _
                  (extend I selector j (c + j.walltime) s.available_machines s.length ss)
                  (λ r (sub, size, took). (
                    chain.0,
                    refl,
                    refl,
                    size,
                    allocate-Took I L n repair a j (r.0) size c s ss chain v new sub
                        (c + j.walltime) (r.1) (ground arith) took,
                  ))
                  (extend-Extends c s.end s.available_machines s.length ss (chain.3) (v.1) (new.1)
                    (chain.2) (ground arith)))
        ]
