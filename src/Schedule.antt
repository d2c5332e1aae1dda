-- ===== src/Schedule.antt =====
-- batsched4/src/schedule.cpp and .hpp: the class Schedule, a list of consecutive time slices with the
-- jobs that are planned in each. Here are its state and its operations; an iterator into the list is
-- the number of slices before it. `Slices` is one slice, `Placing` the scan that puts a job into
-- slices, `Removing` the loop that takes one out, `Repair` and `Updating` the changes of all slices,
-- `Queries` what only reads, `View` what the slices mean. `Adding`, `Leaving` and `Dates` prove the
-- operations on jobs, and `Runs` what holds after any of them.
pub mod JobMap
pub mod Slices
pub mod Placing
pub mod Removing
pub mod View
pub mod State
pub mod Adding
pub mod Leaving
pub mod Dates
pub mod Repair
pub mod Updating
pub mod Queries
pub mod Runs
mod Tests
use mathlib.Core.Option
use schedule_test.Base.{
  ℕ, suc, ◌+◌, ◌-◌, ◌*◌, ◌/◌, List, [], ◌∷◌, ◌++◌, map, Option, none, some, Bool, true, false, not,
  ltb, leb, ◌==◌, ◌&&◌, ◌||◌, if◌then◌else◌, is_empty, take, drop, length, put, delete, lookup, ℤ,
  pos, suc_ℤ, pred_ℤ, Result, ok, err, ◌>>=◌, or_fail, not_in_schedule, already_in_schedule,
  not_inserted, wrong_date, no_slice, bad_resources,
}
use schedule_test.Intervals.Interface.{Intervals}
use schedule_test.Workload.{Job}
use schedule_test.Locality.{Selector}
use Slices.{TimeSlice, split_slice, split_lengths}
use Placing.{Fit, first_fit}
use Removing.{remove_from, find_first_occurence_of_job}

-- 1e19 seconds, in the unit of time of which a second has `second`.
abbrev pub infinity : (second : ℕ) → ℕ
infinity second = 10000000000000000000 * second

module _ (I : Intervals) where
  pub record JobAlloc : Type 0 where
    pub begin : ℕ
    pub end : ℕ
    pub started_in_first_slice : Bool
    pub job : Job
    pub used_machines : I.Machines

  pub record Schedule : Type 0 where
    pub nb_machines : ℕ
    pub profile : List (TimeSlice I)
    pub repair_machines : I.Machines
    pub size : ℤ
    pub nb_jobs_size : ℤ
    pub nb_reservations_size : ℤ
    pub smallest_time_slice_length : ℕ
    pub largest_time_slice_length : ℕ
    -- The maps `Job::allocations` of all jobs: for an identifier, the allocations by their begin.
    pub allocations : ℕ → List (ℕ × JobAlloc)

  -- The constructor.
  unfoldable pub new_schedule : (second nb_machines initial_time : ℕ) → Result Schedule
  new_schedule second nb_machines initial_time =
      if ltb 0 nb_machines
      then ok (record {
        nb_machines = nb_machines;
        profile =
            record {
              begin = initial_time;
              end = infinity second;
              length = infinity second - initial_time;
              has_reservation = false;
              nb_reservations = pos 0;
              available_machines = I.first nb_machines;
              allocated_machines = I.empty;
              nb_available_machines = nb_machines;
              allocated_jobs = [];
            }
            ∷ [];
        repair_machines = I.empty;
        size = pos 0;
        nb_jobs_size = pos 0;
        nb_reservations_size = pos 0;
        smallest_time_slice_length = 0;
        largest_time_slice_length = infinity second;
        allocations = λ id. [];
      })
      else err bad_resources

  -- A length above zero is new as the smallest; one below a year, 3.1536e7 seconds, as the largest.
  pub set_smallest_and_largest_time_slice_length : (second length : ℕ) → Schedule → Schedule
  set_smallest_and_largest_time_slice_length second length s =
      if s.smallest_time_slice_length == 0 && s.largest_time_slice_length == infinity second
      then record s { smallest_time_slice_length = length; largest_time_slice_length = length }
      else record s {
        smallest_time_slice_length =
            if ltb length s.smallest_time_slice_length && not (length == 0)
            then length
            else s.smallest_time_slice_length;
        largest_time_slice_length =
            if ltb s.largest_time_slice_length length && ltb length (31536000 * second)
            then length
            else s.largest_time_slice_length;
      }

  -- The calls of it that an operation makes, in their order.
  pub set_lengths : (second : ℕ) → List ℕ → Schedule → Schedule
  set_lengths second [] s = s
  set_lengths second (length ∷ lengths) s =
      set_lengths second lengths (set_smallest_and_largest_time_slice_length second length s)

  -- `_profile.begin()->begin` and `(--_profile.end())->end`.
  pub first_slice_begin : Schedule → Result ℕ
  first_slice_begin s = elim (s.profile) [ [] ↦ err no_slice | slice ∷ rest ↦ ok slice.begin ]

  pub last_end : List (TimeSlice I) → ℕ
  last_end [] = 0
  last_end (slice ∷ []) = slice.end
  last_end (slice ∷ next ∷ rest) = last_end (next ∷ rest)

  pub infinite_horizon : Schedule → ℕ
  infinite_horizon s = last_end s.profile

  pub contains_job : ℕ → Schedule → Bool
  contains_job id s = elim (find_first_occurence_of_job I id s.profile) [
    | none ↦ false
    | some k ↦ true
  ]

  -- The allocation of what the scan has found from a position on, and the schedule with it.
  pub alloc_of : (position : ℕ) → Fit I → JobAlloc
  alloc_of position f = record {
    begin = f.begin;
    end = f.end;
    started_in_first_slice = position + f.skipped == 0;
    job = f.job;
    used_machines = f.machines;
  }

  pub with_fit : (second position : ℕ) → Job → Fit I → Schedule → Schedule
  with_fit second position j f s = set_lengths second f.lengths (record s {
    profile = take position s.profile ++ f.slices;
    size = suc_ℤ s.size;
    nb_jobs_size = suc_ℤ s.nb_jobs_size;
    allocations = λ id.
        if id == j.id
        then put f.begin (alloc_of position f) (s.allocations id)
        else s.allocations id;
  })

  -- From the time slice at a position. The size counts the job from the start, and not when it has
  -- not been inserted.
  pub add_job_first_fit_after_time_slice :
      (second : ℕ)
      → Selector I
      → Job
      → (position : ℕ) → (assert_insertion_successful : Bool) → Schedule
      → Result (Schedule × Option JobAlloc)
  add_job_first_fit_after_time_slice second selector j position assert_insertion_successful s =
      elim (first_fit I selector (infinite_horizon s) j (drop position s.profile)) [
        | none ↦ if assert_insertion_successful then err not_inserted else ok (s, none)
        | some f ↦ ok (with_fit second position j f s, some (alloc_of position f))
      ]

  pub add_job_first_fit :
      (second : ℕ)
      → Selector I
      → Job
      → (assert_insertion_successful : Bool) → Schedule
      → Result (Schedule × Option JobAlloc)
  add_job_first_fit second selector j assert_insertion_successful s =
      if contains_job j.id s
      then err already_in_schedule
      else add_job_first_fit_after_time_slice second selector j 0 assert_insertion_successful s

  -- The position of the slice in which a date lies.
  pub find_slice_of_date : (date : ℕ) → List (TimeSlice I) → Option ℕ
  find_slice_of_date date [] = none
  find_slice_of_date date (slice ∷ rest) =
      let later = Option.map suc (find_slice_of_date date rest) in
      if leb slice.begin date && ltb date slice.end then some 0 else later

  -- The slice at a position is split: the list, the position of the second slice after the split,
  -- and the lengths.
  pub split_at : (position date : ℕ) → List (TimeSlice I) → List (TimeSlice I) × ℕ × List ℕ
  split_at position date slices = elim (drop position slices) [
    | [] ↦ (slices, position, [])
    | slice ∷ rest ↦
        let split = split_slice I date slice in
        (
          take position slices ++ split.0 ∷ split.1 ++ rest,
          if is_empty (split.1) then position else suc position,
          split_lengths I date slice,
        )
  ]

  pub add_job_first_fit_after_time :
      (second : ℕ)
      → Selector I
      → Job
      → (date : ℕ) → (assert_insertion_successful : Bool) → Schedule
      → Result (Schedule × Option JobAlloc)
  add_job_first_fit_after_time second selector j date assert_insertion_successful s = do
    position ← or_fail (find_slice_of_date date s.profile) wrong_date
    (let split = split_at position date s.profile in
        add_job_first_fit_after_time_slice second selector j (split.1) assert_insertion_successful
          (set_lengths second (split.2) (record s { profile = split.0 })))

  -- `remove_job_internal`.
  pub remove_job_internal : (second : ℕ) → Job → (position : ℕ) → Schedule → Result Schedule
  remove_job_internal second j position s = do
    r ← remove_from I s.repair_machines j position none s.profile
    ok (
        set_lengths second (r.1) (record s {
          profile = r.0;
          size = pred_ℤ s.size;
          nb_jobs_size = if j.is_reservation then s.nb_jobs_size else pred_ℤ s.nb_jobs_size;
          nb_reservations_size =
              if j.is_reservation then pred_ℤ s.nb_reservations_size else s.nb_reservations_size;
        }))

  pub remove_job_first_occurence : (second : ℕ) → Job → Schedule → Result Schedule
  remove_job_first_occurence second j s = do
    position ← or_fail (find_first_occurence_of_job I j.id s.profile) not_in_schedule
    remove_job_internal second j position s

  abbrev pub remove_job : (second : ℕ) → Job → Schedule → Result Schedule
  remove_job = remove_job_first_occurence

  pub remove_job_if_exists : (second : ℕ) → Job → Schedule → Result (Schedule × Bool)
  remove_job_if_exists second j s = elim (find_first_occurence_of_job I j.id s.profile) [
    | none ↦ ok (s, false)
    | some position ↦ remove_job_internal second j position s >>= λ s'. ok (s', true)
  ]
