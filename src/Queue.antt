-- ===== src/Queue.antt =====
-- batsched4/src/queue.cpp and .hpp: the queue of waiting jobs and the orders that sort it. The child
-- `Order` is about the orders, `Sort` about the queue. Dates are numbers of one unit, and no job is
-- updated before its release, so a slowdown is a number too.
pub mod Order
pub mod Sort
pub mod Entries
pub mod Distinct
mod Tests
use schedule_test.Base.{
  ℕ, ◌+◌, ◌-◌, ◌*◌, List, [], ◌∷◌, ◌++◌, map, Option, none, some, Bool, true, false, ltb, ◌==◌,
  if◌then◌else◌, length, Result, ok, err, ◌>>=◌, not_in_queue, empty_queue,
}
use schedule_test.Workload.{Job}

pub record SortableJob : Type 0 where
  pub job : Job
  pub release_date : ℕ
  pub slowdown : ℕ

-- Seven of the nine subclasses of SortableJobOrder. Two are left out: OriginalFCFSOrder, which reads the
-- first of the release dates of a job without a test that there is one, and
-- DescendingBoundedSlowdownOrder, which keeps a least job length that it divides by.
pub data SortableJobOrder : Type 0 where
  fcfs lcfs descending_slowdown : SortableJobOrder
  ascending_size descending_size : SortableJobOrder
  ascending_walltime descending_walltime : SortableJobOrder

-- `compare` of each order. Jobs with equal keys are ordered by their identifiers.
pub fcfs_compare : SortableJob → SortableJob → Bool
fcfs_compare j₁ j₂ =
    if j₁.release_date == j₂.release_date
    then ltb j₁.job.id j₂.job.id
    else ltb j₁.release_date j₂.release_date

pub lcfs_compare : SortableJob → SortableJob → Bool
lcfs_compare j₁ j₂ =
    if j₁.release_date == j₂.release_date
    then ltb j₁.job.id j₂.job.id
    else ltb j₂.release_date j₁.release_date

pub descending_slowdown_compare : SortableJob → SortableJob → Bool
descending_slowdown_compare j₁ j₂ =
    if j₁.slowdown == j₂.slowdown then ltb j₁.job.id j₂.job.id else ltb j₂.slowdown j₁.slowdown

pub ascending_size_compare : SortableJob → SortableJob → Bool
ascending_size_compare j₁ j₂ =
    if j₁.job.nb_requested_resources == j₂.job.nb_requested_resources
    then ltb j₁.job.id j₂.job.id
    else ltb j₁.job.nb_requested_resources j₂.job.nb_requested_resources

pub descending_size_compare : SortableJob → SortableJob → Bool
descending_size_compare j₁ j₂ =
    if j₁.job.nb_requested_resources == j₂.job.nb_requested_resources
    then ltb j₁.job.id j₂.job.id
    else ltb j₂.job.nb_requested_resources j₁.job.nb_requested_resources

pub ascending_walltime_compare : SortableJob → SortableJob → Bool
ascending_walltime_compare j₁ j₂ =
    if j₁.job.walltime == j₂.job.walltime
    then ltb j₁.job.id j₂.job.id
    else ltb j₁.job.walltime j₂.job.walltime

pub descending_walltime_compare : SortableJob → SortableJob → Bool
descending_walltime_compare j₁ j₂ =
    if j₁.job.walltime == j₂.job.walltime
    then ltb j₁.job.id j₂.job.id
    else ltb j₂.job.walltime j₁.job.walltime

-- The virtual method `compare`.
pub compare_jobs : SortableJobOrder → SortableJob → SortableJob → Bool
unfolding fcfs_compare lcfs_compare descending_slowdown_compare ascending_size_compare
    descending_size_compare ascending_walltime_compare descending_walltime_compare
compare_jobs fcfs = fcfs_compare
compare_jobs lcfs = lcfs_compare
compare_jobs descending_slowdown = descending_slowdown_compare
compare_jobs ascending_size = ascending_size_compare
compare_jobs descending_size = descending_size_compare
compare_jobs ascending_walltime = ascending_walltime_compare
compare_jobs descending_walltime = descending_walltime_compare

pub update_slowdown : (current_date : ℕ) → SortableJob → SortableJob
update_slowdown current_date j = record j { slowdown = current_date - j.release_date }

-- `updateJob`, which the other orders leave empty.
pub update_job : SortableJobOrder → (current_date : ℕ) → SortableJob → SortableJob
unfolding update_slowdown
update_job descending_slowdown current_date j = update_slowdown current_date j
update_job _ current_date j = j

pub append_job : Job → (current_date : ℕ) → List SortableJob → List SortableJob
append_job job current_date jobs =
    jobs ++ record { job = job; release_date = current_date; slowdown = 0 } ∷ []

-- A pointer to a job is compared by the identifier of the job, which has one entry in the workload.
pub remove_job : Job → List SortableJob → Result (List SortableJob)
remove_job job [] = err not_in_queue
remove_job job (j ∷ js) =
    let rest = remove_job job js >>= λ js'. ok (j ∷ js') in
    if j.job.id == job.id then ok js else rest

pub contains_job : Job → List SortableJob → Bool
contains_job job [] = false
contains_job job (j ∷ js) = if j.job.id == job.id then true else contains_job job js

pub first_job : List SortableJob → Result Job
first_job [] = err empty_queue
first_job (j ∷ js) = ok j.job

unfoldable pub first_job_or_nullptr : List SortableJob → Option Job
first_job_or_nullptr [] = none
first_job_or_nullptr (j ∷ js) = some j.job

pub compute_load_estimation : List SortableJob → ℕ
compute_load_estimation [] = 0
compute_load_estimation (j ∷ js) =
    j.job.nb_requested_resources * j.job.walltime + compute_load_estimation js

-- std::list::sort: a stable sort by a strict order, here by insertion.
pub insert_sorted : SortableJobOrder → SortableJob → List SortableJob → List SortableJob
unfolding compare_jobs
insert_sorted order j [] = j ∷ []
insert_sorted order j (k ∷ ks) =
    if compare_jobs order k j then k ∷ insert_sorted order j ks else j ∷ k ∷ ks

pub sort_jobs : SortableJobOrder → List SortableJob → List SortableJob
unfolding insert_sorted
sort_jobs order [] = []
sort_jobs order (j ∷ js) = insert_sorted order j (sort_jobs order js)

pub sort_queue : SortableJobOrder → (current_date : ℕ) → List SortableJob → List SortableJob
unfolding sort_jobs update_job
sort_queue order current_date jobs = sort_jobs order (map (update_job order current_date) jobs)
