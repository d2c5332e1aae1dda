-- ===== src/Schedule/Removing.antt =====
-- schedule.cpp, remove_job_internal: a job is taken out of consecutive slices, and slices that then hold
-- the same jobs are merged.
pub mod Merging
pub mod Released
pub mod Run
use mathlib.Core.Option
use schedule_test.Base.{
  ℕ, zero, suc, ◌-◌, List, [], ◌∷◌, ◌++◌, Option, none, some, if◌then◌else◌, Result, ok, err, ◌>>=◌,
  or_fail, slices_differ, not_in_schedule,
}
use schedule_test.Intervals.Interface.{Intervals}
use schedule_test.Workload.{Job}
use schedule_test.Schedule.JobMap.{find_job, same_ids}
use schedule_test.Schedule.Slices.{TimeSlice, slice_contains_job, release, merge}

module _ (I : Intervals) where
  -- A slice behind the one before it, if there is one: what is before it now, the slice, and the
  -- lengths handed to set_smallest_and_largest_time_slice_length. Two slices with the same jobs are
  -- merged; the assertion is that the same machines are available in them.
  unfoldable pub join :
      Option (TimeSlice I) → TimeSlice I → Result (List (TimeSlice I) × TimeSlice I × List ℕ)
  join none s = ok ([], s, [])
  join (some previous) s =
      if same_ids previous.allocated_jobs s.allocated_jobs
      then (if I.equal previous.available_machines s.available_machines
          then ok ([], merge I previous s, (s.end - previous.begin) ∷ [])
          else err slices_differ)
      else ok (previous ∷ [], s, [])

  -- The loop over the slices that hold the job, and the last merge behind them.
  unfoldable pub remove_run :
      Job
      → I.Machines
      → (previous : Option (TimeSlice I)) → List (TimeSlice I)
      → Result (List (TimeSlice I) × List ℕ)
  remove_run j machines none [] = ok ([], [])
  remove_run j machines (some previous) [] = ok (previous ∷ [], [])
  remove_run j machines previous (s ∷ ss) =
      let released = join previous (release I j machines s) >>= λ r.
      remove_run j machines (some (r.1)) ss >>= λ rest. ok (r.0 ++ rest.0, r.2 ++ rest.1) in
      let kept = join previous s >>= λ r. ok (r.0 ++ r.1 ∷ ss, r.2) in
      if slice_contains_job I j.id s then released else kept

  -- From the slice at the position, with the machines that the job holds there, less those in repair.
  unfoldable pub remove_from :
      (repair_machines : I.Machines)
      → Job
      → (position : ℕ) → (previous : Option (TimeSlice I)) → List (TimeSlice I)
      → Result (List (TimeSlice I) × List ℕ)
  remove_from repair j position previous [] = err not_in_schedule
  remove_from repair j zero previous (s ∷ ss) = do
    machines ← or_fail (find_job j.id s.allocated_jobs) not_in_schedule
    remove_run j (I.remove machines repair) previous (s ∷ ss)
  remove_from repair j (suc position) none (s ∷ ss) = remove_from repair j position (some s) ss
  remove_from repair j (suc position) (some previous) (s ∷ ss) = do
    r ← remove_from repair j position (some s) ss
    ok (previous ∷ r.0, r.1)

  -- `find_first_occurence_of_job`, from the beginning; `none` is the end of the list.
  unfoldable pub find_first_occurence_of_job : ℕ → List (TimeSlice I) → Option ℕ
  find_first_occurence_of_job id [] = none
  find_first_occurence_of_job id (s ∷ ss) =
      let later = Option.map suc (find_first_occurence_of_job id ss) in
      if slice_contains_job I id s then some 0 else later
