-- ===== src/Schedule/Placing.antt =====
-- schedule.cpp: the scan for an anchor point, in add_job_first_fit_after_time_slice and in query_wait.
pub mod Took
pub mod Scan
pub mod Places
pub mod Earliest
pub mod Waiting
use mathlib.Core.Option
use schedule_test.Base.{
  ℕ, suc, ◌+◌, ◌-◌, List, [], ◌∷◌, ◌++◌, Option, none, some, Bool, true, false, ltb, leb,
  if◌then◌else◌,
}
use schedule_test.Intervals.Interface.{Intervals}
use schedule_test.Workload.{Job}
use schedule_test.Locality.{Selector}
use schedule_test.Schedule.Slices.{TimeSlice, allocate, split_slice, split_lengths}

module _ (I : Intervals) where
  -- What the scan finds: where the job begins, its end as the allocation records it, its machines,
  -- how many slices were passed, and the slices with the job in them.
  pub record Fit : Type 0 where
    pub begin : ℕ
    pub end : ℕ
    pub machines : I.Machines
    pub skipped : ℕ
    pub slices : List (TimeSlice I)
    pub lengths : List ℕ
    -- The job with the walltime that it was given.
    pub job : Job

  -- The last slice of the job is split at its end.
  unfoldable pub place_last : (split_date : ℕ) → Job → I.Machines → TimeSlice I → List (TimeSlice I)
  place_last split_date j machines s =
      let split = split_slice I split_date s in allocate I j machines (split.0) ∷ split.1

  -- A job with no walltime lasts as long as the schedule.
  unfoldable pub with_walltime : (horizon begin : ℕ) → Job → Job
  with_walltime horizon begin j =
      if j.has_walltime then j else record j { walltime = horizon - begin }

  module _ (selector : Selector I) where
    -- The loop over the slices after the anchor, with the machines free in all slices so far and
    -- the time that these last. The slices that it passes take the job when it is placed.
    unfoldable pub extend :
        Job
        → (split_date : ℕ) → (available : I.Machines) → (total : ℕ) → List (TimeSlice I)
        → Option (I.Machines × List (TimeSlice I) × List ℕ)
    extend j split_date available total [] = none
    extend j split_date available total (t ∷ ts) =
        let common = I.inter available t.available_machines in
        let further : Option (I.Machines × List (TimeSlice I) × List ℕ) =
          Option.map (λ r. (r.0, allocate I j (r.0) t ∷ r.1, r.2))
            (extend j split_date common (total + t.length) ts) in
        let placed : Option (I.Machines × List (TimeSlice I) × List ℕ) =
          elim (selector.fit j common) [
            | none ↦ further
            | some machines ↦
                some
                  (machines, place_last split_date j machines t ++ ts, split_lengths I split_date t)
          ] in
        if leb j.nb_requested_resources t.nb_available_machines
        then (if ltb (I.size common) j.nb_requested_resources
            then none
            else if leb j.walltime (total + t.length)
            then placed
            else further)
        else none

    -- An attempt to begin the job with a slice.
    unfoldable pub try_anchor : Job → TimeSlice I → List (TimeSlice I) → Option Fit
    try_anchor j s ss =
        let split_date = s.begin + j.walltime in
        let alone : Option Fit =
          Option.map
            (λ machines. record {
              begin = s.begin;
              end = 0;
              machines = machines;
              skipped = 0;
              slices = place_last split_date j machines s ++ ss;
              lengths = split_lengths I split_date s;
              job = j;
            })
            (selector.fit j s.available_machines) in
        let extended : Option Fit =
          Option.map
            (λ r. record {
              begin = s.begin;
              end = split_date;
              machines = r.0;
              skipped = 0;
              slices = allocate I j (r.0) s ∷ r.1;
              lengths = r.2;
              job = j;
            })
            (extend j split_date s.available_machines s.length ss) in
        if leb j.walltime s.length then alone else extended

    -- The scan for an anchor point.
    unfoldable pub first_fit : (horizon : ℕ) → Job → List (TimeSlice I) → Option Fit
    first_fit horizon j [] = none
    first_fit horizon j (s ∷ ss) =
        let next : Option Fit =
          Option.map {A = Fit} (λ f. record f { skipped = suc f.skipped; slices = s ∷ f.slices })
            (first_fit horizon j ss) in
        let here : Option Fit = elim (try_anchor (with_walltime horizon s.begin j) s ss) [
          | none ↦ next
          | some f ↦ some f
        ] in
        if leb j.nb_requested_resources s.nb_available_machines then here else next

    -- The inner loop of query_wait.
    unfoldable pub query_extend :
        Job → (available : I.Machines) → (total : ℕ) → List (TimeSlice I) → Bool
    query_extend j available total [] = false
    query_extend j available total (t ∷ ts) =
        let common = I.inter available t.available_machines in
        let further = query_extend j common (total + t.length) ts in
        let found : Bool = elim (selector.fit j common) [ none ↦ further | some machines ↦ true ] in
        if leb j.nb_requested_resources t.nb_available_machines
        then (if ltb (I.size common) j.nb_requested_resources
            then false
            else if leb j.walltime (total + t.length)
            then found
            else further)
        else false

    -- `query_wait`, on the fake job of the size and the time asked for. `none` stands for -1.
    unfoldable pub query_wait : Job → List (TimeSlice I) → Option ℕ
    query_wait j [] = none
    query_wait j (s ∷ ss) =
        let next = query_wait j ss in
        let alone : Bool = elim (selector.fit j s.available_machines) [
          | none ↦ false
          | some machines ↦ true
        ] in
        let extended = query_extend j s.available_machines s.length ss in
        let here =
          (if (if leb j.walltime s.length then alone else extended) then some s.begin else next) in
        if leb j.nb_requested_resources s.nb_available_machines then here else next
