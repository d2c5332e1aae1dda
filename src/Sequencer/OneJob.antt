-- ===== src/Sequencer/OneJob.antt =====
-- The Sequencer runs one job at a time, and lets none wait while nothing runs.
use schedule_test.Base.{
  ℕ, ◌+◌, ◌≤◌, ◌≡◌, refl, subst, List, [], ◌∷◌, true, false, All, arith, Bool-cases, inl, inr, leb,
  if◌then◌else◌, length, ok, Returns, Returns-bind,
}
use schedule_test.Intervals.Interface.{Intervals}
use schedule_test.Workload.{Job, Workload, Decision, execute_job, reject_job, AllKnown}
use schedule_test.Queue.{SortableJob, SortableJobOrder, sort_queue}
use schedule_test.Queue.Entries.{
  append_job-Each, sort_queue-Each, remove_job-first, first_job_or_nullptr-eq,
}
use schedule_test.Sequencer.{
  State, on_simulation_start, end_job, release_job, release_jobs, start_job, make_decisions,
}

module _ (I : Intervals) where
  -- How many jobs the messages start.
  pub started : List (Decision I) → ℕ
  started [] = 0
  started (execute_job id m d ∷ ds) = 1 + started ds
  started (reject_job id d ∷ ds) = started ds

  -- How many jobs run, as the scheduler sees it.
  abbrev pub running : State I → ℕ
  running s = if s.is_job_running then 1 else 0

  -- Every waiting job fits on the platform.
  abbrev pub Feasible : State I → Type 0
  Feasible s = All (λ (q : SortableJob). q.job.nb_requested_resources ≤ s.nb_machines) s.queue

  -- No job waits while nothing runs.
  abbrev pub Busy : State I → Type 0
  Busy s = s.is_job_running ≡ false → s.queue ≡ []

  -- `k` jobs have ended from one state to the next: those started less those ended are those running.
  abbrev pub Ran : ℕ → State I → State I → Type 0
  Ran k s s' = started s'.decisions + running s ≡ started s.decisions + k + running s'

  abbrev AfterSteps : ℕ → State I → State I → Type 0
  AfterSteps k s s' = Feasible s' × Ran k s s'

  end_job-Ran :
      (s : State I) (ended : List ℕ)
      → length ended ≤ running s
      → Feasible s
      → Returns (AfterSteps (length ended) s) (end_job I s ended)
  unfolding end_job
  end_job-Ran s [] h f = (f, omega arith)
  end_job-Ran s (id ∷ []) h f = elim (Bool-cases (s.is_job_running)) [
    | inl runs ↦ simp runs (f, omega arith)
    | inr idle ↦ absurd (ground arith)
  ]
  end_job-Ran s (id ∷ id' ∷ ids) h f = absurd (ground arith)

  -- The rest of a call that began at `o`, in which `k` jobs have ended.
  module _ (o : State I) (k : ℕ) (date : ℕ) where
    release_job-Ran :
        (s : State I) (j : Job) → AfterSteps k o s → AfterSteps k o (release_job I date s j)
    unfolding release_job started
    release_job-Ran s j (f, ran) = elim (Bool-cases (leb j.nb_requested_resources s.nb_machines)) [
      | inl fits ↦ rw fits (
        append_job-Each (λ i. i.nb_requested_resources ≤ s.nb_machines) j date s.queue
            (ground arith) f,
        ran,
      )
      | inr big ↦ rw big (f, ran)
    ]

    release_jobs-Ran :
        (w : Workload) (s : State I) (ids : List ℕ)
        → AllKnown w ids
        → AfterSteps k o s
        → Returns (AfterSteps k o) (release_jobs I w date s ids)
    unfolding release_jobs
    release_jobs-Ran w s [] known a = a
    release_jobs-Ran w s (id ∷ ids) ((j, e, named), known) a =
        rw e (release_jobs-Ran w (release_job I date s j) ids known (release_job-Ran s j a))

    start_job-Ran :
        (s : State I)
        → AfterSteps k o s
        → Returns (λ s'. AfterSteps k o s' × Busy s') (start_job I date s)
    unfolding start_job started
    start_job-Ran s (f, ran) = elim (first_job_or_nullptr-eq s.queue) [
      | inl (empty, e) ↦ rw (e, start_job) ((f, ran), λ idle. empty)
      | inr (q, rest, queue, e) ↦ elim (Bool-cases (s.is_job_running)) [
        | inl runs ↦
            let stays : start_job I date s ≡ ok s = rw (e, start_job) (rw runs refl) in
            rw stays ((f, ran), λ idle. absurd (ground arith))
        | inr idle ↦
            let s' = record s {
              is_job_running = true;
              queue = rest;
              decisions =
                  execute_job q.job.id (I.left s.machines q.job.nb_requested_resources) date
                  ∷ s.decisions;
            } in
            let starts : start_job I date s ≡ ok s' =
              rw (e, start_job) (rw idle (rw (queue, remove_job-first) refl)) in
            let fit =
              subst (All (λ (x : SortableJob). x.job.nb_requested_resources ≤ s.nb_machines)) queue
                f in
            rw starts ((fit.1, ground (arith, ran, idle)), λ impossible. cc)
      ]
    ]

module _ (I : Intervals) (w : Workload) where
  pub on_simulation_start-Feasible : (n : ℕ) → Feasible I (on_simulation_start I n)
  unfolding on_simulation_start
  on_simulation_start-Feasible n = tt

  -- A call of make_decisions that is told of no more ended jobs than run (none or one) and of released
  -- jobs of the workload ends without a failed assertion; the waiting jobs still fit on the
  -- platform, the jobs started less those ended are again those running (none or one), and no job
  -- waits while nothing runs.
  pub make_decisions-one_job :
      (order : SortableJobOrder) (date : ℕ) (ended released : List ℕ) (s : State I)
      → Feasible I s
      → length ended ≤ running I s
      → AllKnown w released
      → Returns
          (λ s'. (Feasible I s' × Ran I (length ended) s s') × Busy I s')
          (make_decisions I w order date ended released s)
  unfolding make_decisions
  make_decisions-one_job order date ended released s f h known =
      let k = length ended in
      let Done = λ (s' : State I). Feasible I s' × Ran I k s s' in
      let Final = λ (s' : State I). Done s' × Busy I s' in
      Returns-bind Done Final (end_job I s ended) _ (end_job-Ran I s ended h f) λ s₁ a₁.
        Returns-bind Done Final (release_jobs I w date s₁ released) _
          (release_jobs-Ran I s k date w s₁ released known a₁)
          λ s₂ (f₂, ran).
            start_job-Ran I s k date (record s₂ { queue = sort_queue order date s₂.queue })
              (
                sort_queue-Each (λ j. j.nb_requested_resources ≤ s₂.nb_machines) order date s₂.queue
                    f₂,
                ran,
              )
