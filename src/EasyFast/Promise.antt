-- ===== src/EasyFast/Promise.antt =====
-- The priority job of EasyBackfillingFast is never overtaken: it stays the priority job, with the
-- date it was given, until a call starts it.
use schedule_test.Base.{
  ℕ, ◌≡◌, ◌⊎◌, inl, inr, List, [], ◌∷◌, none, some, lookup, Bool-cases, Option-cases, leb, ltb,
  ◌==◌, Result, ok, err, ◌>>=◌, or_fail, Returns, Returns-After, After, After-bind, ap, unknown_job,
  no_allocation,
}
use schedule_test.Intervals.Interface.{Intervals, IntervalLaws}
use schedule_test.Workload.{AllRunning, AllKnown, Job, Workload, Decision, execute_job, reject_job}
use schedule_test.EasyFast.Horizon.{earliest_start}
use schedule_test.EasyFast.{
  PriorityJob, State, execute, make_priority, end_job, end_jobs, run_queue, hinders, backfill,
  try_priority, serve, release_job, release_jobs, make_decisions,
}
use schedule_test.EasyFast.Invariant.{Inv}
use schedule_test.EasyFast.Decisions.{make_decisions-Inv}

module _ (I : Intervals) where
  -- The message that starts a job has been sent.
  abbrev pub Started : ℕ → List (Decision I) → Type 0
  Started id [] = ⊥
  Started id (execute_job i m d ∷ ds) = (i ≡ id) ⊎ Started id ds
  Started id (reject_job i d ∷ ds) = Started id ds

  -- The priority job `p` is waiting as it was, or has been started.
  abbrev pub Kept : PriorityJob → State I → Type 0
  Kept p s = (s.priority_job ≡ some p) ⊎ Started p.job.id s.decisions

anything {ℓ} : {A : Type ℓ} (r : Result A) → After (λ _. Unit) r
anything (ok a) = tt
anything (err e) = tt

module _ (I : Intervals) (p : PriorityJob) where
  execute-Kept : (date : ℕ) (s : State I) (j : Job) → Kept I p s → Kept I p (execute I date s j)
  unfolding execute
  execute-Kept date s j (inl e) = inl e
  execute-Kept date s j (inr h) = inr (inr h)

  make_priority-Started :
      (s : State I) (j : Job)
      → Started I p.job.id s.decisions
      → After (Kept I p) (make_priority I s j)
  unfolding make_priority
  make_priority-Started s j h =
      elim (earliest_start j.nb_requested_resources s.nb_available_machines s.horizons)
        as (λ r. After (Kept I p) (
          r >>= λ t.
          ok (record s { priority_job = some (record { job = j; completion_time = t }) }))) [
            | ok t ↦ inr h
            | err e ↦ tt
          ]

  end_jobs-Kept :
      (w : Workload) (s : State I) (ids : List ℕ)
      → Kept I p s
      → After (Kept I p) (end_jobs I w s ids)
  unfolding end_jobs end_job
  end_jobs-Kept w s [] k = k
  end_jobs-Kept w s (id ∷ ids) k =
      After-bind {A = Job} (λ _. Unit) (Kept I p) (or_fail (w id) unknown_job) _
        (anything (or_fail (w id) unknown_job))
        λ j _.
          After-bind (λ _. Unit) (Kept I p)
            (or_fail (lookup id s.current_allocations) no_allocation) _
            (anything (or_fail (lookup id s.current_allocations) no_allocation))
            λ a _. end_jobs-Kept w (end_job I s id j a) ids k

  run_queue-Started :
      (date : ℕ) (s : State I) (js : List Job)
      → Started I p.job.id s.decisions
      → After (Kept I p) (run_queue I date s js)
  unfolding run_queue execute
  run_queue-Started date s [] h = inr h
  run_queue-Started date s (j ∷ js) h =
      elim (Bool-cases (leb j.nb_requested_resources s.nb_available_machines)) [
        | inl fits ↦ rw fits (run_queue-Started date (execute I date s j) js (inr h))
        | inr lack ↦ rw lack (make_priority-Started (record s { pending_jobs = js }) j h)
      ]

  abbrev KeptRest : State I × List Job → Type 0
  KeptRest r = Kept I p r.0

  skip-Kept :
      (j : Job) (r : Result (State I × List Job))
      → After KeptRest r
      → After KeptRest (r >>= λ r. ok (r.0, j ∷ r.1))
  skip-Kept j (ok r) k = k
  skip-Kept j (err e) k = tt

  backfill-Kept :
      (date : ℕ) (s : State I) (js : List Job) → Kept I p s → After KeptRest (backfill I date s js)
  unfolding backfill
  backfill-Kept date s [] k = k
  backfill-Kept date s (j ∷ js) k =
      let skipped = skip-Kept j (backfill I date s js) (backfill-Kept date s js k) in
      let s' = execute I date s j in
      let k' : Kept I p s' = execute-Kept date s j k in
      let rest = backfill-Kept date s' js k' in
      elim (Bool-cases (leb j.nb_requested_resources s.nb_available_machines)) [
        | inr lack ↦ rw lack skipped
        | inl fits ↦ elim (Option-cases s.priority_job) [
          | inl e ↦ rw (fits, e) tt
          | inr (q, e) ↦ elim (Bool-cases (hinders I date j q)) [
            | inl late ↦ rw (fits, e, late) skipped
            | inr free ↦ elim (Bool-cases (s'.nb_available_machines == 0)) [
              | inl busy ↦ rw (fits, e, free, busy) k'
              | inr left ↦ rw (fits, e, free, left) rest
            ]
          ]
        ]
      ]

  try_priority-Kept :
      (date : ℕ) (s : State I) (q : PriorityJob)
      → s.priority_job ≡ some q
      → Kept I p s
      → After (Kept I p) (try_priority I date s q)
  unfolding try_priority execute
  try_priority-Kept date s q e k =
      elim (Bool-cases (leb q.job.nb_requested_resources s.nb_available_machines)) [
        | inl fits ↦ rw fits (run_queue-Started date _ s.pending_jobs (started k))
        | inr lack ↦ rw lack k
      ]
    where
      started : Kept I p s → (q.job.id ≡ p.job.id) ⊎ Started I p.job.id s.decisions
      started (inl e') = inl (let same : q ≡ p = cc in ap (λ r. r.job.id) same)
      started (inr h) = inr h

  serve-Kept : (date : ℕ) (s : State I) → Kept I p s → After (Kept I p) (serve I date s)
  unfolding serve
  serve-Kept date s k = elim (Option-cases s.priority_job) [
    | inl e ↦ rw (e, serve) k
    | inr (q, e) ↦
        rw (e, serve)
          (After-bind (Kept I p) (Kept I p) (try_priority I date s q) _
            (try_priority-Kept date s q e k)
            λ s' k'. elim (Bool-cases (ltb 0 s'.nb_available_machines)) [
              | inl some_left ↦ rw some_left (
                  After-bind KeptRest (Kept I p) (backfill I date s' s'.pending_jobs) _
                    (backfill-Kept date s' s'.pending_jobs k') λ r h. h)
              | inr none_left ↦ rw none_left k'
            ])
  ]

  only-Started : (s : State I) → s.priority_job ≡ none → Kept I p s → Started I p.job.id s.decisions
  only-Started s e (inl e') = cc
  only-Started s e (inr h) = h

  release_job-Kept :
      (date : ℕ) (s : State I) (j : Job) → Kept I p s → After (Kept I p) (release_job I date s j)
  unfolding release_job
  release_job-Kept date s j k =
      elim (Bool-cases (leb j.nb_requested_resources s.nb_available_machines)) [
        | inl fits ↦ elim (Option-cases s.priority_job) [
          | inl e ↦ rw (fits, e) (execute-Kept date s j k)
          | inr (q, e) ↦ elim (Bool-cases (hinders I date j q)) [
            | inl late ↦ rw (fits, e, late) k
            | inr free ↦ rw (fits, e, free) (execute-Kept date s j k)
          ]
        ]
        | inr lack ↦ elim (Bool-cases (ltb s.nb_machines j.nb_requested_resources)) [
          | inl huge ↦ rw (lack, huge) k
          | inr possible ↦ elim (Option-cases s.priority_job) [
            | inl e ↦ rw (lack, possible, e) (make_priority-Started s j (only-Started s e k))
            | inr (q, e) ↦ rw (lack, possible, e) k
          ]
        ]
      ]

  release_jobs-Kept :
      (w : Workload) (date : ℕ) (s : State I) (ids : List ℕ)
      → Kept I p s
      → After (Kept I p) (release_jobs I w date s ids)
  unfolding release_jobs
  release_jobs-Kept w date s [] k = k
  release_jobs-Kept w date s (id ∷ ids) k =
      After-bind {A = Job} (λ _. Unit) (Kept I p) (or_fail (w id) unknown_job) _
        (anything (or_fail (w id) unknown_job))
        λ j _.
          After-bind (Kept I p) (Kept I p) (release_job I date s j) _ (release_job-Kept date s j k)
            λ s' k'. release_jobs-Kept w date s' ids k'

  make_decisions-After :
      (w : Workload) (date : ℕ) (ended released : List ℕ) (s : State I)
      → Kept I p s
      → After (Kept I p) (make_decisions I w date ended released s)
  unfolding make_decisions end_jobs
  make_decisions-After w date [] released s k = release_jobs-Kept w date s released k
  make_decisions-After w date (id ∷ ids) released s k =
      After-bind (Kept I p) (Kept I p) (end_jobs I w s (id ∷ ids)) _
        (end_jobs-Kept w s (id ∷ ids) k)
        λ s₁ k₁.
          After-bind (Kept I p) (Kept I p) (serve I date s₁) _ (serve-Kept date s₁ k₁)
            λ s₂ k₂. release_jobs-Kept w date s₂ released k₂

module _ (I : Intervals) (L : IntervalLaws I) (w : Workload) where
  -- A call under the conditions of `make_decisions-Inv` ends normally, and leaves the priority job
  -- that it finds as it is, with its date, or has sent the message that starts it.
  pub make_decisions-Kept :
      (date : ℕ) (ended released : List ℕ) (s : State I) (p : PriorityJob)
      → s.priority_job ≡ some p
      → Inv I w s
      → AllRunning ended s.current_allocations
      → AllKnown w released
      → Returns (Kept I p) (make_decisions I w date ended released s)
  make_decisions-Kept date ended released s p e v running known =
      Returns-After (Inv I w) (Kept I p) (make_decisions I w date ended released s)
        (make_decisions-Inv I L w date ended released s v running known)
        (make_decisions-After I p w date ended released s (inl e))
