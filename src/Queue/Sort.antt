-- ===== src/Queue/Sort.antt =====
-- Sorting the queue.
use mathlib.Core.List.{Perm}
use mathlib.Core.List.Perm
use schedule_test.Base.{
  ℕ, ◌≡◌, refl, ◌⊎◌, inl, inr, List, [], ◌∷◌, map, true, false, All, Bool-cases, ==_iff, ◌==◌, ok,
  err, not_in_queue,
}
use schedule_test.Workload.{Job}
use schedule_test.Queue.{
  SortableJob, SortableJobOrder, descending_slowdown, compare_jobs, update_job, insert_sorted,
  sort_jobs, sort_queue, remove_job, contains_job,
}
use schedule_test.Queue.Order.{compare_jobs-IsStrictTotal, compare_jobs-not_before}

-- No job comes before one that stands ahead of it.
abbrev pub IsSorted : SortableJobOrder → List SortableJob → Type 0
IsSorted order [] = Unit
IsSorted order (j ∷ js) = All (λ k. compare_jobs order k j ≡ false) js × IsSorted order js

pub update_job-job :
    (order : SortableJobOrder) (current_date : ℕ) (j : SortableJob)
    → (update_job order current_date j).job ≡ j.job
unfolding update_job
update_job-job descending_slowdown current_date j = refl
update_job-job _ current_date j = refl

module _ (order : SortableJobOrder) where
  pub insert_sorted-All :
      (P : SortableJob → Type 0) (j : SortableJob) (ks : List SortableJob)
      → P j
      → All P ks
      → All P (insert_sorted order j ks)
  unfolding insert_sorted
  insert_sorted-All P j [] h hs = (h, tt)
  insert_sorted-All P j (k ∷ ks) h hs = elim (Bool-cases (compare_jobs order k j)) [
    | inl later ↦ rw later (hs.0, insert_sorted-All P j ks h hs.1)
    | inr here ↦ rw here (h, hs)
  ]

  All-not_before :
      (j k : SortableJob) (ks : List SortableJob)
      → compare_jobs order k j ≡ false
      → All (λ x. compare_jobs order x k ≡ false) ks
      → All (λ x. compare_jobs order x j ≡ false) ks
  All-not_before j k [] h hs = tt
  All-not_before j k (x ∷ ks) h hs =
      (compare_jobs-not_before order j k x h hs.0, All-not_before j k ks h hs.1)

  insert_sorted-IsSorted :
      (j : SortableJob) (ks : List SortableJob)
      → IsSorted order ks
      → IsSorted order (insert_sorted order j ks)
  unfolding insert_sorted
  insert_sorted-IsSorted j [] s = (tt, tt)
  insert_sorted-IsSorted j (k ∷ ks) (ahead, s) = elim (Bool-cases (compare_jobs order k j)) [
    | inl later ↦
        let after = (compare_jobs-IsStrictTotal order k j k).0 later in
        rw later (
          insert_sorted-All (λ x. compare_jobs order x k ≡ false) j ks after ahead,
          insert_sorted-IsSorted j ks s,
        )
    | inr here ↦ rw here ((here, All-not_before j k ks here ahead), (ahead, s))
  ]

  insert_sorted-perm :
      (j : SortableJob) (ks : List SortableJob) → Perm (insert_sorted order j ks) (j ∷ ks)
  unfolding insert_sorted
  insert_sorted-perm j [] = Perm.rfl
  insert_sorted-perm j (k ∷ ks) = elim (Bool-cases (compare_jobs order k j)) [
    | inl later ↦ rw later (Perm.trans (Perm.cons k (insert_sorted-perm j ks)) (Perm.swap j k ks))
    | inr here ↦ rw here Perm.rfl
  ]

  sort_jobs-sorts :
      (js : List SortableJob) → IsSorted order (sort_jobs order js) × Perm (sort_jobs order js) js
  unfolding sort_jobs
  sort_jobs-sorts [] = (tt, Perm.rfl)
  sort_jobs-sorts (j ∷ js) =
      let (s, p) = sort_jobs-sorts js in
      (
        insert_sorted-IsSorted j (sort_jobs order js) s,
        Perm.trans (insert_sorted-perm j (sort_jobs order js)) (Perm.cons j p),
      )

  -- `sort_queue` leaves the updated jobs, each as often as before, in an order in which no job comes
  -- before one that stands ahead of it.
  pub sort_queue-sorts :
      (current_date : ℕ) (js : List SortableJob)
      → IsSorted order (sort_queue order current_date js)
        × Perm (sort_queue order current_date js) (map (update_job order current_date) js)
  unfolding sort_queue
  sort_queue-sorts current_date js = sort_jobs-sorts (map (update_job order current_date) js)

-- `remove_job` fails exactly on a job that the queue does not contain, and otherwise takes out one
-- entry of that job and keeps the others.
pub remove_job_lem :
    (job : Job) (js : List SortableJob)
    → ((contains_job job js ≡ false) × (remove_job job js ≡ err not_in_queue))
      ⊎ ((contains_job job js ≡ true)
          × ((k : SortableJob) × (js' : List SortableJob) × (remove_job job js ≡ ok js')
              × (k.job.id ≡ job.id)
              × Perm js (k ∷ js')))
unfolding contains_job remove_job
remove_job_lem job [] = inl (refl, refl)
remove_job_lem job (j ∷ js) = elim (Bool-cases (j.job.id == job.id)) [
  | inl hit ↦ inr (rw hit refl, (j, js, rw hit refl, (==_iff _ _).0 hit, Perm.rfl))
  | inr miss ↦ elim (remove_job_lem job js) [
    | inl (absent, e) ↦ inl (rw miss absent, rw (miss, e) refl)
    | inr (there, (k, js', e, named, p)) ↦ inr (
      rw miss there,
      (k, j ∷ js', rw (miss, e) refl, named, Perm.trans (Perm.cons j p) (Perm.swap k j js')),
    )
  ]
]
