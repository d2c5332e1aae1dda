-- ===== src/Schedule/Queries.antt =====
-- schedule.cpp: what is read from the schedule.
pub mod Periods
pub mod Available
use mathlib.Core.Option
use schedule_test.Base.{
  ℕ, suc, ◌-◌, List, [], ◌∷◌, Option, none, some, if◌then◌else◌, leb, ltb, drop, length, Result, ok,
  err, ◌>>=◌, or_fail, no_slice, wrong_date,
}
use schedule_test.Intervals.Interface.{Intervals}
use schedule_test.Workload.{Job}
use schedule_test.Schedule.{Schedule, first_slice_begin, infinite_horizon}
use schedule_test.Schedule.Slices.{TimeSlice}

module _ (I : Intervals) where
  -- `machines_allocated`, from what it is so far.
  pub gather : (machines so_far : I.Machines) → List (Job × I.Machines) → I.Machines
  gather machines so_far [] = so_far
  gather machines so_far ((job, interval) ∷ rest) =
      gather machines (I.insert so_far (I.inter interval machines)) rest

  pub which_machines_are_allocated_in_time_slice : TimeSlice I → I.Machines → I.Machines
  which_machines_are_allocated_in_time_slice slice machines =
      gather machines I.empty slice.allocated_jobs

  pub get_number_of_running_jobs : Schedule I → Result ℕ
  get_number_of_running_jobs s = elim (s.profile) [
    | [] ↦ err no_slice
    | slice ∷ rest ↦ ok (length slice.allocated_jobs)
  ]

  unfoldable pub find_first_time_slice_after_date : (date : ℕ) → List (TimeSlice I) → Option ℕ
  find_first_time_slice_after_date date [] = none
  find_first_time_slice_after_date date (s ∷ ss) =
      let later = Option.map suc (find_first_time_slice_after_date date ss) in
      if leb date s.begin then some 0 else later

  -- The loop over the slices that begin before the end of the period.
  pub narrow : (end : ℕ) → (available_machines : I.Machines) → List (TimeSlice I) → I.Machines
  narrow end available_machines [] = available_machines
  narrow end available_machines (s ∷ ss) =
      let rest = narrow end (I.inter available_machines s.available_machines) ss in
      if ltb s.begin end then rest else available_machines

  pub narrow_from : (end : ℕ) → List (TimeSlice I) → Result I.Machines
  narrow_from end [] = err no_slice
  narrow_from end (s ∷ ss) = ok (narrow end s.available_machines (s ∷ ss))

  pub available_machines_during_period : (begin end : ℕ) → Schedule I → Result I.Machines
  available_machines_during_period begin end s = do
    first ← first_slice_begin I s
    (if leb first begin
        then (if leb end (infinite_horizon I s)
            then (or_fail (find_first_time_slice_after_date begin s.profile) wrong_date
                >>= λ position. narrow_from end (drop position s.profile))
            else err wrong_date)
        else err wrong_date)
