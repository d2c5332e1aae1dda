-- ===== src/Fcfs/Accounts.antt =====
-- The account of machines of FCFS.
use schedule_test.Base.{
  ℕ, ◌≡◌, sym, subst, List, [], ◌∷◌, ◌++◌, some, All, All-append, arith, lookup, delete, put,
  Bool-cases, inl, inr, leb, ltb, ◌==◌, is_empty, Returns, Returns-bind, Option-cases, ==_iff,
}
use schedule_test.Intervals.Interface.{Intervals, IntervalLaws, Subset}
use schedule_test.Intervals.Exclusive.{
  FreeOf, Exclusive, lookup-FreeOf, Disjoint-sym, give_back, take_free,
}
use schedule_test.Workload.{Job, Workload, AllKnown, AllRunning}
use schedule_test.Locality.{Selector}
use schedule_test.Fcfs.{
  State, on_simulation_start, execute, held, end_job, end_jobs, run_queue, release_job,
  release_jobs, make_decisions,
}

module _ (I : Intervals) (w : Workload) where
  -- A running job holds as many machines as it asked for.
  abbrev pub Sized : List (ℕ × I.Machines) → Type 0
  Sized = All (λ e. (j : Job) × (w e.0 ≡ some j) × (I.size e.1 ≡ j.nb_requested_resources))

  abbrev pub Accounted : State I → Type 0
  Accounted s = record {
    counted : I.size s.available_machines ≡ s.nb_available_machines;
    sized : Sized s.current_allocations;
    free : FreeOf I (λ m. m) s.available_machines s.current_allocations;
    exclusive : Exclusive I (λ m. m) s.current_allocations;
    known : All (λ j. w j.id ≡ some j) s.pending_jobs;
  }

  delete-Sized : (id : ℕ) (rs : List (ℕ × I.Machines)) → Sized rs → Sized (delete id rs)
  unfolding delete
  delete-Sized id [] z = tt
  delete-Sized id ((k, m) ∷ rs) z = elim (Bool-cases (k == id)) [
    | inl hit ↦ rw hit (z.1)
    | inr miss ↦ rw miss (z.0, delete-Sized id rs z.1)
  ]

  lookup-Sized :
      (id : ℕ) (m : I.Machines) (rs : List (ℕ × I.Machines)) (j : Job)
      → Sized rs
      → lookup id rs ≡ some m
      → w id ≡ some j
      → I.size m ≡ j.nb_requested_resources
  unfolding lookup
  lookup-Sized id m [] j z e known = cc
  lookup-Sized id m ((k, n) ∷ rs) j ((i, known', sized), rest) e known =
      elim (Bool-cases (k == id)) [
        | inl hit ↦
            let key : k ≡ id = (==_iff k id).0 hit in
            let same : n ≡ m = ground arith in let one : i ≡ j = cc in cc
        | inr miss ↦ lookup-Sized id m rs j rest (rw miss at e) known
      ]

module _ (I : Intervals) (L : IntervalLaws I) (w : Workload) where
  pub execute-Accounted :
      (date : ℕ) (s : State I) (j : Job) (m : I.Machines)
      → Accounted I w s
      → w j.id ≡ some j
      → Subset I m s.available_machines
      → I.size m ≡ j.nb_requested_resources
      → Accounted I w (execute I date s j m)
  unfolding execute put
  execute-Accounted date s j m v known sub sized =
      let owned =
        take_free I (λ m. m) L j.id s.available_machines s.current_allocations m v.free v.exclusive
          sub in
      record {
        counted = omega (arith, L.size-remove s.available_machines m sub, v.counted);
        sized = ((j, known, sized), delete-Sized I w j.id s.current_allocations v.sized);
        free = owned.0;
        exclusive = owned.1;
        known = v.known;
      }

  end_job-Accounted :
      (s : State I) (id : ℕ) (j : Job) (m : I.Machines)
      → Accounted I w s
      → w id ≡ some j
      → lookup id s.current_allocations ≡ some m
      → Accounted I w (end_job I s id j m)
  unfolding end_job
  end_job-Accounted s id j m v known running =
      let away =
        Disjoint-sym I L m s.available_machines (
          lookup-FreeOf I (λ m. m) id s.available_machines s.current_allocations m v.free
            running) in
      let owned =
        give_back I (λ m. m) L id s.available_machines s.current_allocations m v.free v.exclusive
          running in
      record {
        counted = omega (
          arith,
          L.size-insert s.available_machines m away,
          lookup-Sized I w id m s.current_allocations j v.sized running known,
          v.counted,
        );
        sized = delete-Sized I w id s.current_allocations v.sized;
        free = owned.0;
        exclusive = owned.1;
        known = v.known;
      }

  entry :
      (id : ℕ) (m : I.Machines) (rs : List (ℕ × I.Machines))
      → Sized I w rs
      → lookup id rs ≡ some m
      → (j : Job) × (w id ≡ some j)
  unfolding lookup
  entry id m [] z e = cc
  entry id m ((k, n) ∷ rs) ((i, known, sized), rest) e = elim (Bool-cases (k == id)) [
    | inl hit ↦ (i, subst (λ k. w k ≡ some i) ((==_iff k id).0 hit) known)
    | inr miss ↦ entry id m rs rest (rw miss at e)
  ]

  held_lem :
      (id : ℕ) (s : State I) (m : I.Machines)
      → lookup id s.current_allocations ≡ some m
      → held I id s ≡ m
  unfolding held
  held_lem id s m e = rw (e, held)

  pub end_jobs-Accounted :
      (s : State I) (ids : List ℕ)
      → Accounted I w s
      → AllRunning ids s.current_allocations
      → Returns (Accounted I w) (end_jobs I w s ids)
  unfolding end_jobs end_job
  end_jobs-Accounted s [] v r = v
  end_jobs-Accounted s (id ∷ ids) v (m, running, rest) =
      let (j, known) = entry id m s.current_allocations v.sized running in
      rw (known, held_lem id s m running)
        (end_jobs-Accounted (end_job I s id j m) ids (end_job-Accounted s id j m v known running)
          rest)

  run_queue-Accounted :
      (selector : Selector I) (date : ℕ) (s : State I) (js : List Job)
      → Accounted I w s
      → All (λ j. w j.id ≡ some j) js
      → Accounted I w (run_queue I selector date s js)
  unfolding run_queue
  run_queue-Accounted selector date s [] v known = record {
    counted = v.counted;
    sized = v.sized;
    free = v.free;
    exclusive = v.exclusive;
    known = tt;
  }
  run_queue-Accounted selector date s (j ∷ js) v known =
      elim (Option-cases (selector.fit j s.available_machines)) [
        | inl e ↦
            rw (e, run_queue)
              (record {
                counted = v.counted;
                sized = v.sized;
                free = v.free;
                exclusive = v.exclusive;
                known = known;
              })
        | inr (m, e) ↦
            rw (e, run_queue)
              (run_queue-Accounted selector date (execute I date s j m) js
                (execute-Accounted date s j m v known.0
                  (selector.fit-Subset j s.available_machines m e)
                  (selector.size-fit j s.available_machines m e))
                known.1)
      ]

  release_job-Accounted :
      (date : ℕ) (s : State I) (j : Job)
      → Accounted I w s
      → w j.id ≡ some j
      → Accounted I w (release_job I date s j)
  unfolding release_job
  release_job-Accounted date s j v known =
      let queued : Accounted I w (record s { pending_jobs = s.pending_jobs ++ j ∷ [] }) = record {
        counted = v.counted;
        sized = v.sized;
        free = v.free;
        exclusive = v.exclusive;
        known = All-append _ s.pending_jobs (j ∷ []) v.known (known, tt);
      } in
      elim (Bool-cases (ltb s.nb_machines j.nb_requested_resources)) [
        | inl huge ↦ rw huge v
        | inr possible ↦ elim (Bool-cases (is_empty s.pending_jobs)) [
          | inr waiting ↦ rw (possible, waiting) queued
          | inl empty ↦ elim (Bool-cases (leb j.nb_requested_resources s.nb_available_machines)) [
            | inr lack ↦ rw (possible, empty, lack) queued
            | inl fits ↦
                rw (possible, empty, fits)
                  (execute-Accounted date s j _ v known
                    (L.left-Subset s.available_machines j.nb_requested_resources)
                    (L.size-left s.available_machines j.nb_requested_resources
                      (ground (arith, v.counted))))
          ]
        ]
      ]

  release_jobs-Accounted :
      (date : ℕ) (s : State I) (ids : List ℕ)
      → Accounted I w s
      → AllKnown w ids
      → Returns (Accounted I w) (release_jobs I w date s ids)
  unfolding release_jobs
  release_jobs-Accounted date s [] v known = v
  release_jobs-Accounted date s (id ∷ ids) v ((j, e, named), known) = rw e (
      release_jobs-Accounted date (release_job I date s j) ids
        (release_job-Accounted date s j v (subst (λ i. w i ≡ some j) (sym named) e)) known)

  pub on_simulation_start-Accounted : (n : ℕ) → Accounted I w (on_simulation_start I n)
  unfolding on_simulation_start
  on_simulation_start-Accounted n = record {
    counted = L.size-first n;
    sized = tt;
    free = tt;
    exclusive = tt;
    known = tt;
  }

  -- A call of make_decisions that is told of running jobs that ended, each once, and of released jobs
  -- of the workload ends without a failed assertion and keeps the account: the count of free
  -- machines is right, each running job holds as many machines as it asked for, and no machine is
  -- held twice or both held and free, whichever selector is used.
  pub make_decisions-Accounted :
      (selector : Selector I) (date : ℕ) (ended released : List ℕ) (s : State I)
      → Accounted I w s
      → AllRunning ended s.current_allocations
      → AllKnown w released
      → Returns (Accounted I w) (make_decisions I selector w date ended released s)
  unfolding make_decisions
  make_decisions-Accounted selector date ended released s v running known =
      Returns-bind (Accounted I w) (Accounted I w) (end_jobs I w s ended) _
        (end_jobs-Accounted s ended v running)
        λ s' v'. elim (Bool-cases (is_empty ended)) [
          | inl none_ended ↦ rw none_ended (release_jobs-Accounted date s' released v' known)
          | inr some_ended ↦ rw some_ended (
              release_jobs-Accounted date _ released
                (run_queue-Accounted selector date s' s'.pending_jobs v' v'.known) known)
        ]
