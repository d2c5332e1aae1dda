-- ===== src/Schedule/Tests.antt =====
-- A schedule of four machines, with one second as the unit of time.
use schedule_test.Base.{
  ◌↔◌, drop, none, All, not, ℕ, zero, suc, ◌≤◌, ◌≡◌, refl, [], ◌∷◌, List, Option, some, Bool, ◌&&◌,
  ltb, Returns, Result, ok, err, Present, true, false, arith, pos, ◌>>=◌,
}
use schedule_test.Intervals.Masks.{masks, masks-laws}
use schedule_test.Workload.{Job}
use schedule_test.Locality.{Selector, basic, basic_fit}
use schedule_test.Schedule.{
  add_job_first_fit_after_time_slice, with_fit, alloc_of, last_end, set_lengths,
  set_smallest_and_largest_time_slice_length, Schedule, JobAlloc, infinity, new_schedule,
  add_job_first_fit, remove_job, contains_job, infinite_horizon,
}
use schedule_test.Schedule.View.{free_at, within, held_at, holds}
use schedule_test.Schedule.Placing.{
  query_wait, query_extend, first_fit, try_anchor, extend, place_last, with_walltime,
}
use schedule_test.Schedule.Removing.{find_first_occurence_of_job}
use mathlib.Core.Option
use schedule_test.Schedule.Placing.Earliest.{FreeDuring}
use schedule_test.Schedule.JobMap.Laws.{assign}
use schedule_test.Intervals.Interface.{Subset, Disjoint}
use schedule_test.Schedule.Runs.{Reachable, is_new, adds, Reachable-exclusive}
use schedule_test.Schedule.Queries.{
  which_machines_are_allocated_in_time_slice, find_first_time_slice_after_date,
  available_machines_during_period,
}
use schedule_test.Schedule.Queries.Periods.{which_machines-allocated}
use schedule_test.Schedule.Queries.Available.{available_machines_during_period-free}
use schedule_test.Schedule.Repair.{add_repair_machine, remove_repair_machines}
use schedule_test.Schedule.Repair.Account.{Unallocated}
use schedule_test.Schedule.Repair.Effect.{
  Frees, add_repair_machine-Frees, remove_repair_machines-add_repair_machine,
}
use schedule_test.Schedule.Updating.{update_first_slice, update_first_slice_removing_remaining_jobs}
use schedule_test.Schedule.Updating.Forgets.{
  Forgotten, update_first_slice-Forgotten, update_first_slice_removing_remaining_jobs-Forgotten,
}
use schedule_test.Schedule.JobMap.{has_job, insert_job, find_job}
use schedule_test.Schedule.Slices.{TimeSlice, allocate, split_slice, split_lengths}
use schedule_test.Schedule.Adding.{
  Planned, AddedOrNot, new_schedule-Planned, add_job_first_fit-Added,
}
use schedule_test.Schedule.Leaving.{
  Removed, Restored, and_remove, remove_job-Removed, remove_job-add_job_first_fit,
}
use schedule_test.Schedule.Dates.{add_job_first_fit-earliest}

abbrev job : ℕ → ℕ → ℕ → Job
job id n walltime = record {
  id = id;
  nb_requested_resources = n;
  walltime = walltime;
  has_walltime = true;
  is_reservation = false;
}

abbrev selector : Selector masks
selector = basic masks masks-laws

abbrev free_slice : TimeSlice masks
free_slice = record {
  begin = 0;
  end = infinity 1;
  length = infinity 1;
  has_reservation = false;
  nb_reservations = pos 0;
  available_machines = masks.first 4;
  allocated_machines = masks.empty;
  nb_available_machines = 4;
  allocated_jobs = [];
}

abbrev start : Schedule masks
start = record {
  nb_machines = 4;
  profile = free_slice ∷ [];
  repair_machines = masks.empty;
  size = pos 0;
  nb_jobs_size = pos 0;
  nb_reservations_size = pos 0;
  smallest_time_slice_length = 0;
  largest_time_slice_length = infinity 1;
  allocations = λ id. [];
}

abbrev nobody : ℕ → List Bool
nobody id = []

new_schedule-Planned_example :
    Returns
      (λ s.
        Planned masks 0 nobody s
        × ((id : ℕ) → contains_job masks id s ≡ false)
        × ((d i : ℕ) → free_at masks d i s.profile ≡ (within 0 (infinity 1) d && ltb i 4)))
      (new_schedule masks 1 4 0)
new_schedule-Planned_example =
    new_schedule-Planned masks masks-laws 1 4 0 nobody (omega arith) (omega arith)

start-Planned : Planned masks 0 nobody start
unfolding new_schedule
start-Planned = (new_schedule-Planned masks masks-laws 1 4 0 nobody (omega arith) (omega arith)).0

abbrev schedule_after :
    Schedule masks → Result (Schedule masks × Option (JobAlloc masks)) → Schedule masks
schedule_after s (ok (t, placed)) = t
schedule_after s (err e) = s

-- Three machines are taken until date 10.
abbrev busy : Schedule masks
busy = schedule_after start (add_job_first_fit masks 1 selector (job 1 3 10) false start)

abbrev assigned : ℕ → List Bool
assigned = assign nobody 1 (true ∷ true ∷ true ∷ [])

busy-Added :
    Planned masks 0 assigned busy
    × (contains_job masks 1 busy ≡ true)
    × (contains_job masks 2 busy ≡ false)
    × (15 ≤ infinite_horizon masks busy)
unfolding add_job_first_fit add_job_first_fit_after_time_slice with_fit first_fit try_anchor extend
    place_last with_walltime contains_job find_first_occurence_of_job has_job infinite_horizon
    last_end set_lengths set_smallest_and_largest_time_slice_length allocate insert_job split_slice
    split_lengths alloc_of basic_fit
busy-Added =
    let r =
      add_job_first_fit-Added masks masks-laws selector 1 0 nobody (job 1 3 10) start start-Planned
        refl (λ has. omega arith) in
    (r.planned, r.contains 1, refl, omega arith)

add_job_first_fit-Added_example :
    Returns
      (AddedOrNot masks 0 assigned (job 2 2 5) busy)
      (add_job_first_fit masks 1 selector (job 2 2 5) false busy)
add_job_first_fit-Added_example =
    add_job_first_fit-Added masks masks-laws selector 1 0 assigned (job 2 2 5) busy (busy-Added.0)
      (busy-Added.2) (λ has. omega arith)

remove_job-Removed_example :
    Returns (Removed masks 0 assigned (job 1 3 10) busy) (remove_job masks 1 (job 1 3 10) busy)
remove_job-Removed_example =
    remove_job-Removed masks masks-laws 1 0 assigned (job 1 3 10) busy (busy-Added.0) (busy-Added.1)

remove_job-add_job_first_fit_example :
    Returns (Restored masks masks-laws selector 1 0 assigned (job 2 2 5) busy) (
      add_job_first_fit masks 1 selector (job 2 2 5) false busy
      >>= and_remove masks masks-laws selector 1 0 assigned (job 2 2 5) busy)
remove_job-add_job_first_fit_example =
    remove_job-add_job_first_fit masks masks-laws selector 1 0 assigned (job 2 2 5) busy
      (busy-Added.0) (busy-Added.2) (λ has. omega arith)

-- From date 10 on, the first two machines are free.
busy-FreeDuring : FreeDuring masks (true ∷ true ∷ []) 10 15 busy.profile
unfolding add_job_first_fit add_job_first_fit_after_time_slice with_fit first_fit try_anchor extend
    place_last with_walltime contains_job find_first_occurence_of_job has_job infinite_horizon
    last_end set_lengths set_smallest_and_largest_time_slice_length allocate insert_job split_slice
    split_lengths alloc_of basic_fit free_at
busy-FreeDuring d zero inside has = ground arith
busy-FreeDuring d (suc zero) inside has = ground arith
busy-FreeDuring d (suc (suc i)) inside has = cc has

add_job_first_fit-earliest_example :
    Returns
      (λ r. Present (λ alloc. alloc.begin ≤ 10) (r.1))
      (add_job_first_fit masks 1 selector (job 2 2 5) false busy)
add_job_first_fit-earliest_example =
    add_job_first_fit-earliest masks masks-laws 1 0 assigned (job 2 2 5) busy (busy-Added.0)
      (busy-Added.2) refl (omega arith) 10 (true ∷ true ∷ []) (omega arith) (busy-Added.3) refl
      busy-FreeDuring

-- A job of two machines waits for them; one of one machine does not.
waits :
    (query_wait masks selector (job 2 2 5) busy.profile ≡ some 10)
    × (query_wait masks selector (job 3 1 5) busy.profile ≡ some 0)
unfolding query_wait query_extend add_job_first_fit add_job_first_fit_after_time_slice with_fit
    first_fit try_anchor extend place_last with_walltime contains_job find_first_occurence_of_job
    has_job infinite_horizon last_end set_lengths set_smallest_and_largest_time_slice_length
    allocate insert_job split_slice split_lengths alloc_of basic_fit
waits = (refl, refl)

abbrev fourth : List Bool
fourth = false ∷ false ∷ false ∷ true ∷ []

inside : Subset masks fourth (masks.first 4)
inside zero has = refl
inside (suc zero) has = refl
inside (suc (suc zero)) has = refl
inside (suc (suc (suc zero))) has = refl
inside (suc (suc (suc (suc i)))) has = cc has

idle : Disjoint masks fourth (true ∷ true ∷ true ∷ [])
idle zero has = cc has
idle (suc zero) has = cc has
idle (suc (suc zero)) has = cc has
idle (suc (suc (suc i))) has = refl

-- The last machine goes into repair; no job is allocated it.
fourth-Unallocated :
    All (Unallocated masks masks-laws busy.nb_machines assigned fourth) busy.profile
    × Disjoint masks fourth busy.repair_machines
unfolding add_job_first_fit add_job_first_fit_after_time_slice with_fit first_fit try_anchor extend
    place_last with_walltime contains_job find_first_occurence_of_job has_job infinite_horizon
    last_end set_lengths set_smallest_and_largest_time_slice_length allocate insert_job split_slice
    split_lengths alloc_of basic_fit
fourth-Unallocated = (((inside, idle), ((inside, λ i has. refl), tt)), λ i has. refl)

add_repair_machine-Frees_example :
    Frees masks masks-laws 0 assigned busy
      (λ d i. free_at masks d i busy.profile && not (masks.contains fourth i))
      ((add_repair_machine masks fourth busy).0)
add_repair_machine-Frees_example =
    add_repair_machine-Frees masks masks-laws 0 assigned busy fourth (busy-Added.0)
      (fourth-Unallocated.0)

remove_repair_machines-add_repair_machine_example :
    Frees masks masks-laws 0 assigned busy
      (λ d i. free_at masks d i busy.profile)
      ((remove_repair_machines masks fourth ((add_repair_machine masks fourth busy).0)).0)
remove_repair_machines-add_repair_machine_example =
    remove_repair_machines-add_repair_machine masks masks-laws 0 assigned busy fourth (busy-Added.0)
      (fourth-Unallocated.0) (fourth-Unallocated.1)

update_first_slice_removing_remaining_jobs-Forgotten_example :
    Returns
      (Forgotten masks 0 assigned busy 12)
      (update_first_slice_removing_remaining_jobs masks 12 busy)
update_first_slice_removing_remaining_jobs-Forgotten_example =
    update_first_slice_removing_remaining_jobs-Forgotten masks 0 assigned busy 12 (busy-Added.0)
      (omega arith) (omega (arith, busy-Added.3))

update_first_slice-Forgotten_example :
    Returns (Forgotten masks 0 nobody start 5) (update_first_slice masks 1 5 start)
update_first_slice-Forgotten_example =
    update_first_slice-Forgotten masks 0 nobody start 5 1 free_slice [] start-Planned refl
      (omega arith) (omega arith)

abbrev placed_after : Result (Schedule masks × Option (JobAlloc masks)) → Option (JobAlloc masks)
placed_after (ok (t, placed)) = placed
placed_after (err e) = none

start-Reachable : Reachable masks masks-laws selector 1 0 start
unfolding new_schedule
start-Reachable = is_new 4 0 start (omega arith) (omega arith) refl

busy-Reachable :
    Reachable masks masks-laws selector 1 0 busy × (held_at masks 1 3 0 busy.profile ≡ true)
unfolding add_job_first_fit add_job_first_fit_after_time_slice with_fit first_fit try_anchor extend
    place_last with_walltime contains_job find_first_occurence_of_job has_job infinite_horizon
    last_end set_lengths set_smallest_and_largest_time_slice_length allocate insert_job split_slice
    split_lengths alloc_of basic_fit held_at holds find_job
busy-Reachable = (
  adds 0 start busy (job 1 3 10)
      (placed_after (add_job_first_fit masks 1 selector (job 1 3 10) false start)) start-Reachable
      refl (λ has. omega arith) refl,
  refl,
)

Reachable-exclusive_example :
    (held_at masks 2 3 0 busy.profile ≡ false) × (free_at masks 3 0 busy.profile ≡ false)
Reachable-exclusive_example =
    Reachable-exclusive masks masks-laws selector 1 0 busy (busy-Reachable.0) 1 2 3 0 refl
      (busy-Reachable.1)

abbrev first_of : List (TimeSlice masks) → TimeSlice masks
first_of [] = free_slice
first_of (t ∷ ts) = t

which_machines-allocated_example :
    masks.contains
      (which_machines_are_allocated_in_time_slice masks (first_of busy.profile) (masks.first 2))
      1
    ≡ masks.contains (masks.inter (first_of busy.profile).allocated_machines (masks.first 2)) 1
unfolding add_job_first_fit add_job_first_fit_after_time_slice with_fit first_fit try_anchor extend
    place_last with_walltime contains_job find_first_occurence_of_job has_job infinite_horizon
    last_end set_lengths set_smallest_and_largest_time_slice_length allocate insert_job split_slice
    split_lengths alloc_of basic_fit
which_machines-allocated_example =
    which_machines-allocated masks masks-laws 4 [] assigned (first_of busy.profile)
      (busy-Added.0.1.0) (masks.first 2) 1

-- The slice from date 10 on.
abbrev later_slice : TimeSlice masks
later_slice = first_of (drop 1 busy.profile)

later_slice-begins :
    (find_first_time_slice_after_date masks 10 busy.profile ≡ some 1)
    × (drop 1 busy.profile ≡ later_slice ∷ [])
    × (later_slice.begin ≡ 10)
unfolding add_job_first_fit add_job_first_fit_after_time_slice with_fit first_fit try_anchor extend
    place_last with_walltime contains_job find_first_occurence_of_job has_job infinite_horizon
    last_end set_lengths set_smallest_and_largest_time_slice_length allocate insert_job split_slice
    split_lengths alloc_of basic_fit find_first_time_slice_after_date
later_slice-begins = (refl, refl, refl)

available_machines_during_period-free_example :
    Returns
      (λ r.
        (i : ℕ)
        → (masks.contains r i ≡ true)
          ↔ ((d : ℕ) → (within 10 15 d && not (free_at masks d i busy.profile)) ≡ false))
      (available_machines_during_period masks 10 15 busy)
available_machines_during_period-free_example =
    available_machines_during_period-free masks masks-laws 0 busy 10 15 1 later_slice []
      (busy-Added.0.0) (later_slice-begins.0) (later_slice-begins.1) (later_slice-begins.2)
      (omega arith) (busy-Added.3)
