-- ===== src/Fcfs/Order.antt =====
-- FCFS starts jobs strictly in the order in which they were released.
use mathlib.Core.List.{append-nil, append_assoc, map-append}
use schedule_test.Base.{
  ℕ, ◌≡◌, refl, sym, ◌∙◌, ap, ap₂, List, [], ◌∷◌, ◌++◌, map, none, some, true, Bool-cases,
  Option-cases, inl, inr, leb, ltb, if◌then◌else◌, is_empty, After, After-bind, After-map, Returns,
  Returns-After,
}
use schedule_test.Intervals.Interface.{Intervals, IntervalLaws}
use schedule_test.Workload.{Job, Workload, Decision, execute_job, reject_job, AllKnown, AllRunning}
use schedule_test.Locality.{Selector}
use schedule_test.Fcfs.{
  State, execute, end_job, held, end_jobs, run_queue, release_job, release_jobs, make_decisions,
}
use schedule_test.Fcfs.Accounts.{Accounted, make_decisions-Accounted}

abbrev pub ids : List Job → List ℕ
ids = map (λ j. j.id)

-- The released jobs that the platform can hold, in order.
pub accepted : Workload → ℕ → List ℕ → List ℕ
accepted w n [] = []
accepted w n (id ∷ rest) = elim (w id) [
  | none ↦ accepted w n rest
  | some j ↦ (if ltb n j.nb_requested_resources then [] else j.id ∷ []) ++ accepted w n rest
]

accepted-cons :
    (w : Workload) (n id : ℕ) (rest : List ℕ) (j : Job)
    → w id ≡ some j
    → accepted w n (id ∷ rest)
      ≡ (if ltb n j.nb_requested_resources then [] else j.id ∷ []) ++ accepted w n rest
unfolding accepted
accepted-cons w n id rest j e = rw (e, accepted)

module _ (I : Intervals) where
  -- The jobs that the messages start, in the order of the messages.
  pub started : List (Decision I) → List ℕ
  started [] = []
  started (execute_job id m d ∷ ds) = started ds ++ id ∷ []
  started (reject_job id d ∷ ds) = started ds

  -- The jobs started and then those that wait.
  pub line : State I → List ℕ
  line s = started s.decisions ++ ids s.pending_jobs

  -- What a step that keeps the platform adds to the line.
  abbrev Adds : State I → List ℕ → State I → Type 0
  Adds s more s' = (line s' ≡ line s ++ more) × (s'.nb_machines ≡ s.nb_machines)

  empty-eq-nil : (js : List Job) → is_empty js ≡ true → js ≡ []
  empty-eq-nil [] e = refl
  empty-eq-nil (j ∷ js) e = cc

  execute-line :
      (date : ℕ) (s : State I) (j : Job) (m : I.Machines)
      → s.pending_jobs ≡ []
      → Adds s (j.id ∷ []) (execute I date s j m)
  unfolding line started execute
  execute-line date s j m e =
      let waiting : ids s.pending_jobs ≡ [] = ap ids e in (rw waiting (simp append-nil), refl)

  enqueue-line :
      (s : State I) (j : Job)
      → Adds s (j.id ∷ []) (record s { pending_jobs = s.pending_jobs ++ j ∷ [] })
  unfolding line
  enqueue-line s j = (simp (map-append, append_assoc), refl)

  release_job-line :
      (date : ℕ) (s : State I) (j : Job)
      → Adds s
          (if ltb s.nb_machines j.nb_requested_resources then [] else j.id ∷ [])
          (release_job I date s j)
  unfolding release_job
  release_job-line date s j = elim (Bool-cases (ltb s.nb_machines j.nb_requested_resources)) [
    | inl huge ↦ rw huge (rejected, refl)
    | inr possible ↦ elim (Bool-cases (is_empty s.pending_jobs)) [
      | inr waiting ↦ rw (possible, waiting) (enqueue-line s j)
      | inl empty ↦ elim (Bool-cases (leb j.nb_requested_resources s.nb_available_machines)) [
        | inr lack ↦ rw (possible, empty, lack) (enqueue-line s j)
        | inl fits ↦
            rw (possible, empty, fits) (execute-line date s j _ (empty-eq-nil s.pending_jobs empty))
      ]
    ]
  ]
    where
      rejected : line (record s { decisions = reject_job j.id date ∷ s.decisions }) ≡ line s ++ []
      rejected = rw (append-nil (line s)) (unfold line started in refl)

  run_queue-line :
      (selector : Selector I) (date : ℕ) (s : State I) (js : List Job)
      → (line (run_queue I selector date s js) ≡ started s.decisions ++ ids js)
        × ((run_queue I selector date s js).nb_machines ≡ s.nb_machines)
  unfolding run_queue line started execute
  run_queue-line selector date s [] = (refl, refl)
  run_queue-line selector date s (j ∷ js) =
      elim (Option-cases (selector.fit j s.available_machines)) [
        | inl e ↦ rw (e, run_queue) (refl, refl)
        | inr (m, e) ↦
            let (rest, same) = run_queue-line selector date (execute I date s j m) js in
            rw (e, run_queue) (rest ∙ append_assoc (started s.decisions) (j.id ∷ []) (ids js), same)
      ]

  module _ (w : Workload) where
    end_jobs-line : (s : State I) (ended : List ℕ) → After (Adds s []) (end_jobs I w s ended)
    unfolding end_jobs end_job line
    end_jobs-line s [] = (sym (append-nil (line s)), refl)
    end_jobs-line s (id ∷ rest) = elim (Option-cases (w id)) [
      | inl e ↦ rw e tt
      | inr (j, e) ↦ rw e (end_jobs-line (end_job I s id j (held I id s)) rest)
    ]

    release_jobs-line :
        (date : ℕ) (s : State I) (released : List ℕ)
        → After
            (λ s'. line s' ≡ line s ++ accepted w s.nb_machines released)
            (release_jobs I w date s released)
    unfolding release_jobs accepted
    release_jobs-line date s [] = sym (append-nil (line s))
    release_jobs-line date s (id ∷ rest) = elim (Option-cases (w id)) [
      | inl e ↦ rw e tt
      | inr (j, e) ↦
          let (added, same) = release_job-line date s j in
          rw e (
            After-map _ (λ s'. line s' ≡ line s ++ accepted w s.nb_machines (id ∷ rest))
              (release_jobs I w date (release_job I date s j) rest)
              (λ s' h.
                h
                ∙ ap₂ (λ l n. l ++ accepted w n rest) added same
                ∙ append_assoc (line s) _ (accepted w s.nb_machines rest)
                ∙ ap (◌++◌ (line s)) (sym (accepted-cons w s.nb_machines id rest j e)))
              (release_jobs-line date (release_job I date s j) rest))
    ]

module _ (I : Intervals) (w : Workload) where
  queue_or_not :
      (selector : Selector I) (date : ℕ) (ended : List ℕ) (s : State I)
      → Adds I s [] (if is_empty ended then s else run_queue I selector date s s.pending_jobs)
  unfolding line
  queue_or_not selector date [] s = (sym (append-nil (line I s)), refl)
  queue_or_not selector date (id ∷ ids) s =
      let (same, n) = run_queue-line I selector date s s.pending_jobs in
      (same ∙ sym (append-nil (line I s)), n)

  make_decisions-After :
      (selector : Selector I) (date : ℕ) (ended released : List ℕ) (s : State I)
      → After
          (λ s'. line I s' ≡ line I s ++ accepted w s.nb_machines released)
          (make_decisions I selector w date ended released s)
  unfolding make_decisions
  make_decisions-After selector date ended released s =
      After-bind (Adds I s []) _ (end_jobs I w s ended) _ (end_jobs-line I w s ended) λ s₁ (e₁, n₁).
        let s₂ = if is_empty ended then s₁ else run_queue I selector date s₁ s₁.pending_jobs in
        let (e₂, n₂) = queue_or_not selector date ended s₁ in
        After-map (λ s'. line I s' ≡ line I s₂ ++ accepted w s₂.nb_machines released)
          (λ s'. line I s' ≡ line I s ++ accepted w s.nb_machines released)
          (release_jobs I w date s₂ released)
          (λ s' h.
            h
            ∙ ap₂ (λ l n. l ++ accepted w n released)
                (e₂ ∙ append-nil (line I s₁) ∙ e₁ ∙ append-nil (line I s)) (n₂ ∙ n₁))
          (release_jobs-line I w date s₂ released)

module _ (I : Intervals) (L : IntervalLaws I) (w : Workload) where
  -- Under the conditions of `make_decisions-Accounted` the call ends normally, and the jobs started so far
  -- followed by those that wait are, in order, what they were before the call followed by the
  -- released jobs that the platform can hold: no job overtakes another or is lost.
  pub make_decisions-line :
      (selector : Selector I) (date : ℕ) (ended released : List ℕ) (s : State I)
      → Accounted I w s
      → AllRunning ended s.current_allocations
      → AllKnown w released
      → Returns
          (λ s'. line I s' ≡ line I s ++ accepted w s.nb_machines released)
          (make_decisions I selector w date ended released s)
  make_decisions-line selector date ended released s v running known =
      Returns-After (Accounted I w) _ (make_decisions I selector w date ended released s)
        (make_decisions-Accounted I L w selector date ended released s v running known)
        (make_decisions-After I w selector date ended released s)
