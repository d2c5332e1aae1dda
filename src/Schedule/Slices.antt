-- ===== src/Schedule/Slices.antt =====
-- batsched4/src/schedule.hpp, `struct TimeSlice`, and what schedule.cpp does to one slice.
pub mod Account
use schedule_test.Base.{
  ℕ, ◌+◌, ◌-◌, List, [], ◌∷◌, Bool, false, ltb, ◌&&◌, if◌then◌else◌, ℤ, pred_ℤ, is_zero,
}
use schedule_test.Intervals.Interface.{Intervals}
use schedule_test.Workload.{Job}
use schedule_test.Schedule.JobMap.{insert_job, erase_job, has_job}

module _ (I : Intervals) where
  pub record TimeSlice : Type 0 where
    pub begin : ℕ
    pub end : ℕ
    pub length : ℕ
    pub has_reservation : Bool
    pub nb_reservations : ℤ
    pub available_machines : I.Machines
    pub allocated_machines : I.Machines
    pub nb_available_machines : ℕ
    pub allocated_jobs : List (Job × I.Machines)

  -- `TimeSlice::contains_job`.
  abbrev pub slice_contains_job : ℕ → TimeSlice → Bool
  slice_contains_job id s = has_job id s.allocated_jobs

  -- The job takes machines of the slice.
  unfoldable pub allocate : Job → I.Machines → TimeSlice → TimeSlice
  allocate j machines s = record s {
    available_machines = I.remove s.available_machines machines;
    allocated_machines = I.insert s.allocated_machines machines;
    nb_available_machines = s.nb_available_machines - j.nb_requested_resources;
    allocated_jobs = insert_job j machines s.allocated_jobs;
  }

  -- The job leaves the slice, and gives machines back.
  unfoldable pub release : Job → I.Machines → TimeSlice → TimeSlice
  release j machines s =
      let nb_reservations =
        (if j.is_reservation then pred_ℤ s.nb_reservations else s.nb_reservations) in
      record s {
        available_machines = I.insert s.available_machines machines;
        allocated_machines = I.remove s.allocated_machines machines;
        nb_available_machines = s.nb_available_machines + I.size machines;
        allocated_jobs = erase_job j.id s.allocated_jobs;
        nb_reservations = nb_reservations;
        has_reservation =
            if j.is_reservation && is_zero nb_reservations then false else s.has_reservation;
      }

  -- `split_slice`: the first slice after the split, and the second if the date lies inside.
  unfoldable pub split_slice : (date : ℕ) → TimeSlice → TimeSlice × List TimeSlice
  split_slice date s =
      if ltb s.begin date && ltb date s.end
      then (
        record s { end = date; length = date - s.begin },
        record s { begin = date; length = s.end - date } ∷ [],
      )
      else (s, [])

  -- The lengths that `split_slice` hands to set_smallest_and_largest_time_slice_length.
  unfoldable pub split_lengths : (date : ℕ) → TimeSlice → List ℕ
  split_lengths date s =
      if ltb s.begin date && ltb date s.end then (s.end - date) ∷ (date - s.begin) ∷ [] else []

  -- A slice that takes over the time of the one before it.
  unfoldable pub merge : TimeSlice → TimeSlice → TimeSlice
  merge previous s = record s { begin = previous.begin; length = s.end - previous.begin }
