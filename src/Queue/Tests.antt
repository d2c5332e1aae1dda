-- ===== src/Queue/Tests.antt =====
-- The queue on three jobs.
use mathlib.Core.List.{Perm}
use schedule_test.Base.{ℕ, ◌≡◌, refl, ◌⊎◌, List, [], ◌∷◌, map, ok, err, true, false, not_in_queue}
use schedule_test.Workload.{Job}
use schedule_test.Queue.{
  SortableJob, fcfs, descending_slowdown, compare_jobs, update_job, sort_queue,
  compute_load_estimation, remove_job, contains_job,
}
use schedule_test.Queue.Order.{key, compare_jobs-IsStrictTotal}
use schedule_test.Queue.Sort.{IsSorted, sort_queue-sorts, remove_job_lem}

abbrev job : ℕ → ℕ → Job
job id n = record {
  id = id;
  nb_requested_resources = n;
  walltime = 10;
  has_walltime = true;
  is_reservation = false;
}

abbrev entry : ℕ → ℕ → ℕ → SortableJob
entry id n date = record { job = job id n; release_date = date; slowdown = 0 }

abbrev jobs : List SortableJob
jobs = entry 3 1 5 ∷ entry 2 4 7 ∷ entry 1 2 5 ∷ []

fcfs_run : sort_queue fcfs 9 jobs ≡ entry 1 2 5 ∷ entry 3 1 5 ∷ entry 2 4 7 ∷ []
unfolding sort_queue
fcfs_run = refl

compare_jobs-IsStrictTotal_example :
    (compare_jobs fcfs (entry 3 1 5) (entry 1 2 5) ≡ true
      → compare_jobs fcfs (entry 1 2 5) (entry 3 1 5) ≡ false)
    × (compare_jobs fcfs (entry 3 1 5) (entry 1 2 5) ≡ true
        → compare_jobs fcfs (entry 1 2 5) (entry 2 4 7) ≡ true
        → compare_jobs fcfs (entry 3 1 5) (entry 2 4 7) ≡ true)
    × (compare_jobs fcfs (entry 3 1 5) (entry 1 2 5) ≡ false
        → compare_jobs fcfs (entry 1 2 5) (entry 3 1 5) ≡ false
        → (key fcfs (entry 3 1 5) ≡ key fcfs (entry 1 2 5)) × ((entry 3 1 5).job.id ≡ 1))
compare_jobs-IsStrictTotal_example =
    compare_jobs-IsStrictTotal fcfs (entry 3 1 5) (entry 1 2 5) (entry 2 4 7)

sort_queue-sorts_example :
    IsSorted descending_slowdown (sort_queue descending_slowdown 9 jobs)
    × Perm (sort_queue descending_slowdown 9 jobs) (map (update_job descending_slowdown 9) jobs)
sort_queue-sorts_example = sort_queue-sorts descending_slowdown 9 jobs

load_run : compute_load_estimation jobs ≡ 70
unfolding compute_load_estimation
load_run = refl

remove_job_lem_example :
    ((contains_job (job 2 4) jobs ≡ false) × (remove_job (job 2 4) jobs ≡ err not_in_queue))
    ⊎ ((contains_job (job 2 4) jobs ≡ true)
        × ((k : SortableJob) × (js : List SortableJob) × (remove_job (job 2 4) jobs ≡ ok js)
            × (k.job.id ≡ 2)
            × Perm jobs (k ∷ js)))
remove_job_lem_example = remove_job_lem (job 2 4) jobs
