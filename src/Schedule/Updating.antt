-- ===== src/Schedule/Updating.antt =====
-- schedule.cpp, update_first_slice and update_first_slice_removing_remaining_jobs: time goes on.
pub mod Forgets
use schedule_test.Base.{
  ℕ, ◌+◌, ◌-◌, List, [], ◌∷◌, Option, none, some, if◌then◌else◌, leb, ltb, ◌==◌, lookup, put,
  delete, Result, ok, err, ◌>>=◌, no_slice, wrong_date,
}
use schedule_test.Intervals.Interface.{Intervals}
use schedule_test.Workload.{Job}
use schedule_test.Schedule.{Schedule, JobAlloc, infinite_horizon}
use schedule_test.Schedule.Slices.{TimeSlice}

module _ (I : Intervals) where
  -- The first slice begins at the date. If the date is after its end, the length is negative in the code
  -- and 0 here.
  pub begin_at : (date : ℕ) → List (TimeSlice I) → Result (List (TimeSlice I))
  begin_at date [] = err no_slice
  begin_at date (s ∷ ss) = ok (record s { begin = date; length = s.end - date } ∷ ss)

  -- An allocation that begins at the old time begins at the current one.
  pub move_allocation : (old_time current_time : ℕ) → List (ℕ × JobAlloc I) → List (ℕ × JobAlloc I)
  move_allocation old_time current_time allocs = elim (lookup old_time allocs) [
    | none ↦ allocs
    | some alloc ↦
        if old_time == current_time then allocs else delete old_time (put current_time alloc allocs)
  ]

  pub move_allocations :
      (old_time current_time : ℕ)
      → List (Job × I.Machines)
      → (ℕ → List (ℕ × JobAlloc I))
      → ℕ
      → List (ℕ × JobAlloc I)
  move_allocations old_time current_time [] allocations id = allocations id
  move_allocations old_time current_time ((job_ref, machines) ∷ jobs) allocations id =
      move_allocations old_time current_time jobs
        (λ k.
          if k == job_ref.id
          then move_allocation old_time current_time (allocations k)
          else allocations k)
        id

  -- `epsilon` is 1e-4 seconds. The length can be negative in the code, within `epsilon`.
  pub update_first_slice : (epsilon current_time : ℕ) → Schedule I → Result (Schedule I)
  update_first_slice epsilon current_time s = elim (s.profile) [
    | [] ↦ err no_slice
    | slice ∷ rest ↦
        if leb slice.begin (current_time + epsilon)
        then (if leb current_time (slice.end + epsilon)
            then (begin_at current_time (slice ∷ rest) >>= λ profile. ok (record s {
              profile = profile;
              allocations =
                  move_allocations slice.begin current_time slice.allocated_jobs s.allocations;
            }))
            else err wrong_date)
        else err wrong_date
  ]

  -- The slices that have ended are erased.
  pub drop_past : (current_time : ℕ) → List (TimeSlice I) → List (TimeSlice I)
  drop_past current_time [] = []
  drop_past current_time (s ∷ ss) =
      let rest = drop_past current_time ss in if leb s.end current_time then rest else s ∷ ss

  pub update_first_slice_removing_remaining_jobs :
      (current_time : ℕ) → Schedule I → Result (Schedule I)
  update_first_slice_removing_remaining_jobs current_time s = elim (s.profile) [
    | [] ↦ err no_slice
    | slice ∷ rest ↦
        if ltb current_time (infinite_horizon I s)
        then (if leb slice.begin current_time
            then (begin_at current_time (drop_past current_time (slice ∷ rest)) >>= λ profile.
                ok (record s { profile = profile }))
            else err wrong_date)
        else err wrong_date
  ]
