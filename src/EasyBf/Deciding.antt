-- ===== src/EasyBf/Deciding.antt =====
-- easy_bf.cpp, make_decisions: from one ordered state to the next.
use schedule_test.Base.{
  ℕ, ◌+◌, ◌≤◌, ◌<◌, ◌≡◌, List, [], ◌∷◌, Option, none, some, true, arith, Returns, Returns-weaken,
  Returns-both,
}
use schedule_test.Intervals.Interface.{Intervals}
use schedule_test.Workload.{Job}
use schedule_test.Schedule.{Schedule, contains_job}
use schedule_test.Schedule.Slices.{TimeSlice}
use schedule_test.Schedule.View.{held_at, covered}
use schedule_test.Schedule.Updating.{update_first_slice}
use schedule_test.Schedule.Updating.Forgets.{
  Forgotten, update_first_slice-Forgotten, update_first_slice-contains,
}
use schedule_test.EasyBf.{nb_available}
use schedule_test.EasyBf.Planning.{Room, Plan}

module _ (I : Intervals) where
  -- The date is before the end of the first slice.
  abbrev pub InFirst : (date : ℕ) → Schedule I → Type 0
  InFirst date s =
      (slice : TimeSlice I) × (rest : List (TimeSlice I)) × (s.profile ≡ slice ∷ rest)
      × (date < slice.end)

  pub available_in :
      (d : ℕ) (s : Schedule I) (ss : List (TimeSlice I))
      → s.profile ≡ ss
      → covered I d ss ≡ true
      → Returns (λ k. Unit {0}) (nb_available I s)
  unfolding nb_available covered
  available_in d s [] is there = absurd (cc there)
  available_in d s (slice ∷ rest) is there = rw (is, nb_available) tt

module _ (I : Intervals) (n longest h : ℕ) where
  later-Room :
      (from c date : ℕ) (o : Option Job) (s t : Schedule I) (a : ℕ → I.Machines)
      → Forgotten I c a s date t
      → c ≤ from
      → date ≤ from
      → Room I n h from o s
      → Room I n h from o t
  later-Room from c date none s t a r early late room d i after below low =
      ground (arith, room d i after below low, r.free d i)
  later-Room from c date (some k) s t a r early late room d i after below low =
      ground (arith, room d i after below low, r.free d i, r.held k.id d i)

  sooner-Room :
      (from date : ℕ) (o : Option Job) (s : Schedule I)
      → from ≤ date
      → Room I n h from o s
      → Room I n h date o s
  sooner-Room from date o s early room d i after below low =
      room d i (omega (arith, early, after)) below low

  Plan-Forgotten :
      (c date : ℕ) (o : Option Job) (s t : Schedule I) (a : ℕ → I.Machines)
      → c ≤ date
      → Plan I n longest h c o s
      → Forgotten I c a s date t
      → Plan I n longest h date o t
  Plan-Forgotten c date o s t a early plan r = record {
    sound = (a, r.planned);
    lasting = λ d from below.
        let there = plan.lasting d (omega arith) below in ground (arith, r.cover d, there);
    soon =
        later-Room (date + longest) c date o s t a r (omega arith) (omega arith)
          (sooner-Room (c + longest) (date + longest) o s (omega arith) plan.soon);
    then_free =
        later-Room (date + (longest + longest)) c date none s t a r (omega arith) (omega arith) (
          sooner-Room (c + (longest + longest)) (date + (longest + longest)) none s (omega arith)
            plan.then_free);
  }

  -- The plan at the present; no job is new or gone, and jobs hold what they held from now on.
  abbrev pub PresentAt : (date : ℕ) → Option Job → (s t : Schedule I) → Type 0
  PresentAt date o s t =
      Plan I n longest h date o t
      × ((id : ℕ) → contains_job I id t ≡ contains_job I id s)
      × ((id d i : ℕ) → date ≤ d → held_at I id d i t.profile ≡ held_at I id d i s.profile)

  pub update_first_slice-Plan :
      (epsilon c date : ℕ) (o : Option Job) (s : Schedule I)
      → c ≤ date
      → Plan I n longest h c o s
      → InFirst I date s
      → Returns (PresentAt date o s) (update_first_slice I epsilon date s)
  update_first_slice-Plan epsilon c date o s early plan (slice, rest, is, before) =
      let (a, planned) = plan.sound in
      let begins : slice.begin ≡ c = (rw is at planned.0).0 in
      Returns-weaken
        (λ t. Forgotten I c a s date t × ((id : ℕ) → contains_job I id t ≡ contains_job I id s))
        (PresentAt date o s) (update_first_slice I epsilon date s)
        (λ t (r, contains). (
          Plan-Forgotten c date o s t a early plan r,
          contains,
          λ id d i from. ground (arith, r.held id d i),
        ))
        (Returns-both (Forgotten I c a s date)
          (λ t. (id : ℕ) → contains_job I id t ≡ contains_job I id s)
          (update_first_slice I epsilon date s)
          (update_first_slice-Forgotten I c a s date epsilon slice rest planned is early before)
          (update_first_slice-contains I c a s date epsilon slice rest is (omega arith) before))
