-- ===== src/Schedule/Placing/Waiting.antt =====
-- query_wait scans as the search for an anchor point does.
use mathlib.Core.Option
use schedule_test.Base.{
  ℕ, suc, ◌+◌, ◌≡◌, refl, sym, ◌∙◌, ap, List, [], ◌∷◌, Option, none, some, Bool, true, false, ltb,
  leb, if◌then◌else◌, Bool-cases, Option-cases, inl, inr,
}
use schedule_test.Intervals.Interface.{Intervals}
use schedule_test.Workload.{Job}
use schedule_test.Locality.{Selector}
use schedule_test.Schedule.Slices.{TimeSlice, allocate}
use schedule_test.Schedule.Placing.Earliest.{try_anchor-begin}
use schedule_test.Schedule.Placing.{
  Fit, extend, try_anchor, first_fit, with_walltime, query_extend, query_wait,
}

abbrev is_some {ℓ} : {A : Type ℓ} → Option A → Bool
is_some none = false
is_some (some a) = true

is_some-map {ℓ κ} :
    {A : Type ℓ} {B : Type κ} (f : A → B) (o : Option A) → is_some (Option.map f o) ≡ is_some o
is_some-map f none = refl
is_some-map f (some a) = refl

map-fusion :
    {A B : Type 0} (f : A → A) (g : A → B)
    → ((a : A) → g (f a) ≡ g a)
    → (o : Option A) → Option.map g o ≡ Option.map g (Option.map f o)
map-fusion f g h none = refl
map-fusion f g h (some a) = ap some (sym (h a))

module _ (I : Intervals) (selector : Selector I) (j : Job) where
  query_extend-eq :
      (d : ℕ) (available : I.Machines) (total : ℕ) (ts : List (TimeSlice I))
      → query_extend I selector j available total ts
        ≡ is_some (extend I selector j d available total ts)
  unfolding query_extend extend
  query_extend-eq d available total [] = refl
  query_extend-eq d available total (t ∷ ts) =
      let common = I.inter available t.available_machines in
      let rest = extend I selector j d common (total + t.length) ts in
      let grow : I.Machines × List (TimeSlice I) × List ℕ
          → I.Machines × List (TimeSlice I) × List ℕ =
        λ r. (r.0, allocate I j (r.0) t ∷ r.1, r.2) in
      let again : query_extend I selector j common (total + t.length) ts
          ≡ is_some (Option.map grow rest) =
        query_extend-eq d common (total + t.length) ts ∙ sym (is_some-map grow rest) in
      elim (Bool-cases (leb j.nb_requested_resources t.nb_available_machines)) [
        | inr lack ↦ rw lack refl
        | inl enough ↦ elim (Bool-cases (ltb (I.size common) j.nb_requested_resources)) [
          | inl few ↦ rw (enough, few) refl
          | inr many ↦ elim (Bool-cases (leb j.walltime (total + t.length))) [
            | inr short ↦ rw (enough, many, short) again
            | inl long ↦ elim (Option-cases (selector.fit j common)) [
              | inl misfit ↦ rw (enough, many, long, misfit) again
              | inr (m, fit) ↦ rw (enough, many, long, fit) refl
            ]
          ]
        ]
      ]

  attempt-eq :
      (s : TimeSlice I) (ss : List (TimeSlice I))
      → is_some (try_anchor I selector j s ss) ≡ (
          if leb j.walltime s.length
          then is_some (selector.fit j s.available_machines)
          else query_extend I selector j s.available_machines s.length ss)
  unfolding try_anchor
  attempt-eq s ss = elim (Bool-cases (leb j.walltime s.length)) [
    | inl alone ↦ rw alone (is_some-map _ (selector.fit j s.available_machines))
    | inr longer ↦ rw longer (
        is_some-map _ (extend I selector j (s.begin + j.walltime) s.available_machines s.length ss)
        ∙ sym (query_extend-eq (s.begin + j.walltime) s.available_machines s.length ss))
  ]

  pub query_wait-eq :
      (horizon : ℕ) (ss : List (TimeSlice I))
      → j.has_walltime ≡ true
      → query_wait I selector j ss
        ≡ Option.map {A = Fit I} (λ f. f.begin) (first_fit I selector horizon j ss)
  unfolding query_wait first_fit with_walltime
  query_wait-eq horizon [] has = refl
  query_wait-eq horizon (s ∷ ss) has =
      let same : with_walltime I horizon s.begin j ≡ j = rw has refl in
      let next = first_fit I selector horizon j ss in
      let go : query_wait I selector j ss
          ≡ Option.map {A = Fit I} (λ f. f.begin)
              (Option.map {A = Fit I}
                (λ f. record f { skipped = suc f.skipped; slices = s ∷ f.slices }) next) =
        query_wait-eq horizon ss has
        ∙ map-fusion (λ f. record f { skipped = suc f.skipped; slices = s ∷ f.slices })
            (λ f. f.begin) (λ f. refl) next in
      let begins = try_anchor-begin I selector j s ss in
      let test = sym (attempt-eq s ss) in
      elim (Bool-cases (leb j.nb_requested_resources s.nb_available_machines)) [
        | inr lack ↦ rw lack go
        | inl enough ↦ elim (Option-cases (try_anchor I selector j s ss)) [
          | inl fails ↦ rw (enough, same, test, fails) go
          | inr (f, e) ↦
              let starts : f.begin ≡ s.begin = (rw e at begins) in
              rw (enough, same, test, e) (ap some (sym starts))
        ]
      ]
