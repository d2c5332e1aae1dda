-- ===== src/Queue/Entries.antt =====
-- What holds of every job of the queue still does after its operations.
use schedule_test.Base.{
  arith, refl, ok, ◌⊎◌, none, some, ℕ, ◌≡◌, sym, subst, List, [], ◌∷◌, map, true, All, All-append,
  Bool-cases, inl, inr, ◌==◌, Returns, Returns-bind,
}
use schedule_test.Workload.{Job}
use schedule_test.Queue.{
  SortableJob, SortableJobOrder, update_job, append_job, remove_job, first_job_or_nullptr,
  contains_job, sort_jobs, sort_queue,
}
use schedule_test.Queue.Sort.{insert_sorted-All, update_job-job}

module _ (P : Job → Type 0) where
  abbrev pub Each : List SortableJob → Type 0
  Each = All (λ q. P q.job)

  pub append_job-Each :
      (job : Job) (date : ℕ) (js : List SortableJob)
      → P job
      → Each js
      → Each (append_job job date js)
  unfolding append_job
  append_job-Each job date js h hs = All-append (λ q. P q.job) js (_ ∷ []) hs (h, tt)

  pub remove_job-Each :
      (job : Job) (js : List SortableJob)
      → contains_job job js ≡ true
      → Each js
      → Returns Each (remove_job job js)
  unfolding contains_job remove_job
  remove_job-Each job [] e hs = cc
  remove_job-Each job (j ∷ js) e hs = elim (Bool-cases (j.job.id == job.id)) [
    | inl hit ↦ rw hit (hs.1)
    | inr miss ↦ rw miss (
        Returns-bind Each Each (remove_job job js) _ (remove_job-Each job js (rw miss at e) (hs.1))
          λ js' rest. (hs.0, rest))
  ]

  module _ (order : SortableJobOrder) where
    pub map-Each :
        (date : ℕ) (js : List SortableJob) → Each js → Each (map (update_job order date) js)
    map-Each date [] hs = tt
    map-Each date (j ∷ js) hs =
        (subst P (sym (update_job-job order date j)) (hs.0), map-Each date js (hs.1))

    pub sort_jobs-Each : (js : List SortableJob) → Each js → Each (sort_jobs order js)
    unfolding sort_jobs
    sort_jobs-Each [] hs = tt
    sort_jobs-Each (j ∷ js) hs =
        insert_sorted-All order (λ q. P q.job) j (sort_jobs order js) (hs.0)
          (sort_jobs-Each js (hs.1))

    pub sort_queue-Each :
        (date : ℕ) (js : List SortableJob) → Each js → Each (sort_queue order date js)
    unfolding sort_queue
    sort_queue-Each date js hs =
        sort_jobs-Each (map (update_job order date) js) (map-Each date js hs)

pub remove_job-first : (q : SortableJob) (qs : List SortableJob) → remove_job q.job (q ∷ qs) ≡ ok qs
unfolding remove_job
remove_job-first q qs = let same : (q.job.id == q.job.id) ≡ true = ground arith in rw same refl

pub first_job_or_nullptr-eq :
    (qs : List SortableJob)
    → ((qs ≡ []) × (first_job_or_nullptr qs ≡ none))
      ⊎ ((q : SortableJob) × (rest : List SortableJob) × (qs ≡ q ∷ rest)
          × (first_job_or_nullptr qs ≡ some q.job))
unfolding first_job_or_nullptr
first_job_or_nullptr-eq [] = inl (refl, refl)
first_job_or_nullptr-eq (q ∷ rest) = inr (q, rest, refl, refl)
