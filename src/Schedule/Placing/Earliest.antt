-- ===== src/Schedule/Placing/Earliest.antt =====
-- The scan for an anchor point finds the earliest date at which a job fits, and query_wait finds the
-- same date.
use mathlib.Core.Option
use schedule_test.Base.{
  ℕ, suc, ◌+◌, ◌≤◌, ◌<◌, ◌≡◌, refl, List, [], ◌∷◌, Option, none, some, true, arith, ltb, leb,
  Bool-cases, Option-cases, inl, inr, ◌⊎◌, Found, Found-map, Present, Present-map,
}
use schedule_test.Intervals.Interface.{Intervals, IntervalLaws, Subset}
use schedule_test.Workload.{Job}
use schedule_test.Locality.{Selector, basic, basic_fit_iff}
use schedule_test.Schedule.{last_end}
use schedule_test.Schedule.Slices.{TimeSlice}
use schedule_test.Schedule.View.{within, free_at, ChainFrom, AllBalanced}
use schedule_test.Schedule.Placing.{Fit, extend, try_anchor, first_fit, with_walltime}
use schedule_test.Schedule.Placing.Scan.{gives_up, goes_on, ends, step}

anything : {A : Type 0} (o : Option A) → Found (λ a. Unit {0}) o
anything none = tt
anything (some a) = tt

module _ (I : Intervals) where
  -- The machines are free from `b` to `d`.
  abbrev pub FreeDuring : I.Machines → (b d : ℕ) → List (TimeSlice I) → Type 0
  FreeDuring m b d ss =
      (t i : ℕ) → within b d t ≡ true → I.contains m i ≡ true → free_at I t i ss ≡ true

  pub last_end-chain :
      (c : ℕ) (s : TimeSlice I) (ss : List (TimeSlice I))
      → ChainFrom I c (s ∷ ss)
      → c < last_end I (s ∷ ss)
  unfolding last_end
  last_end-chain c s [] chain = chain.1
  last_end-chain c s (t ∷ ts) chain = omega (arith, chain.1, last_end-chain s.end t ts (chain.3))

  -- Machines that are free for a while when a slice begins are available in it.
  free-Subset :
      (m : I.Machines) (b d x : ℕ) (s : TimeSlice I) (ss : List (TimeSlice I))
      → FreeDuring m b d (s ∷ ss)
      → b ≤ x
      → x < d
      → x < s.end
      → Subset I m s.available_machines
  unfolding free_at
  free-Subset m b d x s ss free from upto inside i has = ground (arith, free x i (ground arith) has)

  -- Free machines are free in the slices from which the date is.
  free-beyond :
      (m : I.Machines) (b d : ℕ) (s : TimeSlice I) (ss : List (TimeSlice I))
      → FreeDuring m b d (s ∷ ss)
      → s.end ≤ b
      → FreeDuring m b d ss
  unfolding free_at
  free-beyond m b d s ss free from t i inside has = ground (arith, free t i inside has)

  pub try_anchor-begin :
      (selector : Selector I) (j : Job) (s : TimeSlice I) (ss : List (TimeSlice I))
      → Found (λ f. f.begin ≡ s.begin) (try_anchor I selector j s ss)
  unfolding try_anchor
  try_anchor-begin selector j s ss = elim (Bool-cases (leb j.walltime s.length)) [
    | inl alone ↦ rw alone (
        Found-map (λ m. Unit) (λ f. f.begin ≡ s.begin) _ (selector.fit j s.available_machines)
          (λ m h. refl) (anything (selector.fit j s.available_machines)))
    | inr longer ↦ rw longer (
        Found-map (λ r. Unit) (λ f. f.begin ≡ s.begin) _
          (extend I selector j (s.begin + j.walltime) s.available_machines s.length ss)
          (λ r h. refl) (anything _))
  ]

  pub last_end-cases :
      (d : ℕ) (s : TimeSlice I) (ss : List (TimeSlice I))
      → d ≤ last_end I (s ∷ ss)
      → (d ≤ last_end I ss) ⊎ (d ≤ s.end)
  unfolding last_end
  last_end-cases d s [] h = inr h
  last_end-cases d s (t ∷ ts) h = inl h

  free-later :
      (m : I.Machines) (b d e : ℕ) (s : TimeSlice I) (ss : List (TimeSlice I))
      → FreeDuring m b d (s ∷ ss)
      → b ≤ s.end
      → e ≤ d
      → FreeDuring m s.end e ss
  unfolding free_at
  free-later m b d e s ss free from upto t i inside has =
      ground (arith, free t i (ground arith) has)

module _ (I : Intervals) (L : IntervalLaws I) (j : Job) (m : I.Machines)
    (size : I.size m ≡ j.nb_requested_resources) where
  larger :
      (available : I.Machines) → Subset I m available → j.nb_requested_resources ≤ I.size available
  larger available sub = omega (arith, L.size-remove available m sub)

  inter-larger : (x y : I.Machines) → Subset I m x → Subset I m y → Subset I m (I.inter x y)
  inter-larger x y p q i has = ground (arith, p i has, q i has, L.contains-inter x y i)

  module _ (n : ℕ) (repair : I.Machines) (a : ℕ → I.Machines) where
    extend-finds :
        (b c : ℕ) (available : I.Machines) (total : ℕ) (ts : List (TimeSlice I))
        → ChainFrom I c ts
        → AllBalanced I n repair a ts
        → Subset I m available
        → b + total ≡ c
        → total < j.walltime
        → b + j.walltime ≤ last_end I ts
        → FreeDuring I m c (b + j.walltime) ts
        → Present (λ r. Unit) (extend I (basic I L) j (b + j.walltime) available total ts)
    unfolding extend last_end
    extend-finds b c available total [] chain v sub at_c more last free = absurd (omega arith)
    extend-finds b c available total (t ∷ ts) chain v sub at_c more last free =
        let w = j.walltime in
        let common = I.inter available t.available_machines in
        let here : Subset I m t.available_machines =
          free-Subset I m c (b + w) c t ts free (omega arith) (omega arith) (chain.1) in
        let both = inter-larger available t.available_machines sub here in
        let enough = larger t.available_machines here in
        let common_enough = larger common both in
        let last_is : b + w ≤ last_end I ts ⊎ (b + w ≤ t.end) =
          last_end-cases I (b + w) t ts last in
        elim (step I L (basic I L) j (b + w) available total t ts) [
          | gives_up stop (inl few) ↦ absurd (omega (arith, v.0.counted))
          | gives_up stop (inr few) ↦ absurd (omega arith)
          | ends r fit long found ↦ rw found tt
          | goes_on on (inr misfit) ↦
              let (r, fit) = (basic_fit_iff I L j common).1 common_enough in absurd (cc fit)
          | goes_on on (inl short) ↦
              let rest : b + w ≤ last_end I ts = elim last_is [
                | inl e ↦ e
                | inr e ↦ absurd (omega arith)
              ] in
              rw on (
                Present-map (λ r. Unit) (λ r. Unit) _
                  (extend I (basic I L) j (b + w) common (total + t.length) ts) (λ r h. h)
                  (extend-finds b t.end common (total + t.length) ts (chain.3) (v.1) both
                    (omega arith) short rest
                    (free-later I m c (b + w) (b + w) t ts free (omega arith) (omega arith))))
        ]

    abbrev Fits : (b : ℕ) → List (TimeSlice I) → Type 0
    Fits b ss = (b + j.walltime ≤ last_end I ss) × FreeDuring I m b (b + j.walltime) ss

    try_anchor-finds :
        (b c : ℕ) (s : TimeSlice I) (ss : List (TimeSlice I))
        → ChainFrom I c (s ∷ ss)
        → AllBalanced I n repair a (s ∷ ss)
        → c ≤ b
        → b < s.end
        → 0 < j.walltime
        → Fits b (s ∷ ss)
        → (leb j.nb_requested_resources s.nb_available_machines ≡ true)
          × Present (λ f. f.begin ≡ c) (try_anchor I (basic I L) j s ss)
    unfolding try_anchor
    try_anchor-finds b c s ss chain v from before lasts (last, free) =
        let w = j.walltime in
        let here : Subset I m s.available_machines =
          free-Subset I m b (b + w) b s ss free (omega arith) (omega arith) before in
        let enough = larger s.available_machines here in
        let (r, fit) = (basic_fit_iff I L j s.available_machines).1 enough in
        (
          ground (arith, v.0.counted),
          elim (Bool-cases (leb w s.length)) [
            | inl alone ↦ rw (alone, fit) (chain.0)
            | inr longer ↦
                let long : s.end < c + w = ground arith in
                let rest : c + w ≤ last_end I ss = elim (last_end-cases I (b + w) s ss last) [
                  | inl e ↦ omega arith
                  | inr e ↦ absurd (omega arith)
                ] in
                rw (longer, chain.0)
                  (Present-map (λ r. Unit) (λ f. f.begin ≡ c) _
                    (extend I (basic I L) j (c + w) s.available_machines s.length ss) (λ r h. refl)
                    (extend-finds c s.end s.available_machines s.length ss (chain.3) (v.1) here
                      (chain.2) (ground arith) rest
                      (free-later I m b (b + w) (c + w) s ss free (omega arith) (omega arith))))
          ],
        )

    pub first_fit-finds :
        (horizon b c : ℕ) (ss : List (TimeSlice I))
        → ChainFrom I c ss
        → AllBalanced I n repair a ss
        → j.has_walltime ≡ true
        → 0 < j.walltime
        → c ≤ b
        → Fits b ss
        → Present (λ f. f.begin ≤ b) (first_fit I (basic I L) horizon j ss)
    unfolding first_fit with_walltime last_end
    first_fit-finds horizon b c [] chain v has lasts from fits = absurd (omega (arith, fits.0))
    first_fit-finds horizon b c (s ∷ ss) chain v has lasts from (last, free) =
        let next = first_fit I (basic I L) horizon j ss in
        let found : Present (λ f. f.begin ≤ b) next
            → Present (λ f. f.begin ≤ b)
                (Option.map {A = Fit I}
                  (λ f. record f { skipped = suc f.skipped; slices = s ∷ f.slices }) next) =
          Present-map (λ f. f.begin ≤ b) (λ f. f.begin ≤ b) _ next (λ f h. h) in
        let same : with_walltime I horizon s.begin j ≡ j = rw has refl in
        let begins = try_anchor-begin I (basic I L) j s ss in
        elim (Bool-cases (ltb b s.end)) [
          | inl within_it ↦
              let (enough, now) =
                try_anchor-finds b c s ss chain v from (ground arith) lasts (last, free) in
              elim (Option-cases (try_anchor I (basic I L) j s ss)) [
                | inl fails ↦ absurd (rw fails at now)
                | inr (f, e) ↦
                    let at_c : f.begin ≡ c = (rw e at now) in rw (enough, same, e) (omega arith)
              ]
          | inr later ↦
              let rest : b + j.walltime ≤ last_end I ss =
                elim (last_end-cases I (b + j.walltime) s ss last) [
                  | inl e ↦ e
                  | inr e ↦ absurd (ground arith)
                ] in
              let go = found (
                first_fit-finds horizon b s.end ss (chain.3) (v.1) has lasts (ground arith)
                  (rest, free-beyond I m b (b + j.walltime) s ss free (ground arith))) in
              elim (Bool-cases (leb j.nb_requested_resources s.nb_available_machines)) [
                | inr lack ↦ rw lack go
                | inl enough ↦ elim (Option-cases (try_anchor I (basic I L) j s ss)) [
                  | inl fails ↦ rw (enough, same, fails) go
                  | inr (f, e) ↦
                      let starts : f.begin ≡ s.begin = (rw e at begins) in
                      rw (enough, same, e) (ground (arith, chain.0, chain.1))
                ]
              ]
        ]
