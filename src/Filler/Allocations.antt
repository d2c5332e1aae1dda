-- ===== src/Filler/Allocations.antt =====
-- The Filler gives no machine to two jobs, and none that is unavailable.
use schedule_test.Base.{
  ℕ, ◌-◌, ◌≤◌, ◌<◌, ◌≡◌, refl, ap, List, [], ◌∷◌, ◌++◌, some, true, All, All-append, arith,
  Bool-cases, Option-cases, inl, inr, leb, ltb, ◌&&◌, Returns, Returns-bind,
}
use schedule_test.Intervals.Interface.{Intervals, IntervalLaws, Subset, Disjoint}
use schedule_test.Intervals.Exclusive.{FreeOf, Exclusive, give_back, take_free, remove-Subset}
use schedule_test.Workload.{Job, Workload, Decision, execute_job, reject_job, AllRunning}
use schedule_test.Locality.{Selector}
use schedule_test.Queue.{SortableJob, SortableJobOrder, sort_queue}
use schedule_test.Queue.Entries.{append_job-Each, sort_queue-Each}
use schedule_test.Filler.{
  State, on_simulation_start, end_job, end_jobs, update_unavailable, release_job, release_jobs,
  start_job, fill_queue, fill, make_decisions,
}

module _ (I : Intervals) where
  -- No machine is held twice, or held and free; the waiting jobs ask for machines.
  abbrev pub Accounted : State I → Type 0
  Accounted s = record {
    free : FreeOf I (λ m. m) s.available_machines s.current_allocations;
    exclusive : Exclusive I (λ m. m) s.current_allocations;
    asking : All (λ (q : SortableJob). 0 < q.job.nb_requested_resources) s.queue;
  }

  -- The message starts no job on the machines `u`.
  abbrev pub Spares : I.Machines → Decision I → Type 0
  Spares u (execute_job id m date) = Disjoint I m u
  Spares u (reject_job id date) = Unit

  -- The messages after `old` spare the machines `u`.
  abbrev pub SparesSince : List (Decision I) → I.Machines → List (Decision I) → Type 0
  SparesSince old u ds = (new : List (Decision I)) × (ds ≡ new ++ old) × All (Spares u) new

  -- A call that began with the messages `old` has come this far.
  abbrev pub Filled : List (Decision I) → I.Machines → State I → Type 0
  Filled old u s = Accounted s × (s.unavailable_machines ≡ u) × SparesSince old u s.decisions

-- The released jobs are of the workload, and ask for machines.
abbrev pub AllAsking : Workload → List ℕ → Type 0
AllAsking w = All (λ id. (j : Job) × (w id ≡ some j) × (0 < j.nb_requested_resources))

-- A job is given at least one machine, and no more than it asked for.
abbrev pub IsFraction : (ℕ → ℕ) → Type 0
IsFraction nb_to_allocate = (n : ℕ) → 0 < n → (0 < nb_to_allocate n) × (nb_to_allocate n ≤ n)

module _ (I : Intervals) (L : IntervalLaws I) where
  end_jobs-Accounted :
      (s : State I) (ids : List ℕ)
      → Accounted I s
      → AllRunning ids s.current_allocations
      → Accounted I (end_jobs I s ids)
        × ((end_jobs I s ids).decisions ≡ s.decisions)
        × ((end_jobs I s ids).unavailable_machines ≡ s.unavailable_machines)
  unfolding end_jobs end_job
  end_jobs-Accounted s [] v running = (v, refl, refl)
  end_jobs-Accounted s (id ∷ ids) v (m, e, running) =
      let back =
        give_back I (λ m. m) L id s.available_machines s.current_allocations m v.free v.exclusive
          e in
      let v' : Accounted I (end_job I s id) =
        rw e (record { free = back.0; exclusive = back.1; asking = v.asking }) in
      end_jobs-Accounted (end_job I s id) ids v' running

  module _ (old : List (Decision I)) (u : I.Machines) (date : ℕ) where
    release_job-Filled :
        (s : State I) (j : Job)
        → 0 < j.nb_requested_resources
        → Filled I old u s
        → Filled I old u (release_job I date s j)
    unfolding release_job
    release_job-Filled s j pos (v, e, (new, d, spared)) =
        elim (Bool-cases (ltb s.nb_machines j.nb_requested_resources)) [
          | inl big ↦
              rw big (
                v,
                e,
                (reject_job j.id date ∷ new, ap (◌∷◌ (reject_job j.id date)) d, (tt, spared)),
              )
          | inr fits ↦ simp fits (
            record {
              free = v.free;
              exclusive = v.exclusive;
              asking =
                  append_job-Each (λ i. 0 < i.nb_requested_resources) j date s.queue pos v.asking;
            },
            e,
            (new, d, spared),
          )
        ]

    start_job-Filled :
        (s : State I) (j : Job) (usable used : I.Machines)
        → Subset I used usable
        → Subset I usable s.available_machines
        → Disjoint I usable u
        → Filled I old u s
        → Filled I old u (start_job I date s j used)
    unfolding start_job
    start_job-Filled s j usable used sub open_to apart (v, e, (new, d, spared)) =
        let owned =
          take_free I (λ m. m) L j.id s.available_machines s.current_allocations used v.free
            v.exclusive (λ i h. open_to i (sub i h)) in
        (
          record { free = owned.0; exclusive = owned.1; asking = v.asking },
          e,
          (
            execute_job j.id used date ∷ new,
            ap (◌∷◌ (execute_job j.id used date)) d,
            ((λ i h. apart i (sub i h)), spared),
          ),
        )

    release_jobs-Filled :
        (w : Workload) (s : State I) (ids : List ℕ)
        → AllAsking w ids
        → Filled I old u s
        → Returns (Filled I old u) (release_jobs I w date s ids)
    unfolding release_jobs
    release_jobs-Filled w s [] known a = a
    release_jobs-Filled w s (id ∷ ids) ((j, e, pos), known) a =
        rw e
          (release_jobs-Filled w (release_job I date s j) ids known (release_job-Filled s j pos a))

    with_queue :
        (s : State I) (qs : List SortableJob)
        → All (λ q. 0 < q.job.nb_requested_resources) qs
        → Filled I old u s
        → Filled I old u (record s { queue = qs })
    with_queue s qs asking (v, e, rest) =
        (record { free = v.free; exclusive = v.exclusive; asking = asking }, e, rest)

    module _ (selector : Selector I) (nb_to_allocate : ℕ → ℕ)
        (fraction : IsFraction nb_to_allocate) where
      fill_queue-Filled :
          (s : State I) (usable : I.Machines) (nb_usable : ℕ) (kept ahead : List SortableJob)
          → Subset I usable s.available_machines
          → Disjoint I usable u
          → All (λ q. 0 < q.job.nb_requested_resources) kept
          → All (λ q. 0 < q.job.nb_requested_resources) ahead
          → Filled I old u s
          → Returns
              (Filled I old u)
              (fill_queue I selector nb_to_allocate date s usable nb_usable kept ahead)
      unfolding fill_queue start_job
      fill_queue-Filled s usable nb_usable kept [] open_to apart k a f = with_queue s kept k f
      fill_queue-Filled s usable nb_usable kept (q ∷ qs) open_to apart k a f =
          let n = nb_to_allocate q.job.nb_requested_resources in
          elim (Bool-cases (ltb 0 nb_usable)) [
            | inr full ↦
                rw (full, fill_queue)
                  (with_queue s (kept ++ q ∷ qs)
                    (All-append (λ x. 0 < x.job.nb_requested_resources) kept (q ∷ qs) k a) f)
            | inl free ↦ elim (Option-cases (selector.fit q.job usable)) [
              | inl waits ↦
                  rw (free, fill_queue)
                    (rw (waits, fill_queue)
                      (fill_queue-Filled s usable nb_usable (kept ++ q ∷ []) qs open_to apart
                        (All-append (λ x. 0 < x.job.nb_requested_resources) kept (q ∷ []) k
                          (a.0, tt))
                        (a.1) f))
              | inr (fitting, runs) ↦
                  let used = I.left fitting n in
                  let sub : Subset I used usable = λ i h.
                    selector.fit-Subset q.job usable fitting runs i (L.left-Subset fitting n i h) in
                  let sized : (ltb 0 n && leb n q.job.nb_requested_resources) ≡ true =
                    ground (arith, fraction q.job.nb_requested_resources (a.0)) in
                  rw (free, fill_queue)
                    (rw (runs, fill_queue)
                      (rw (sized, fill_queue)
                        (fill_queue-Filled (start_job I date s q.job used) (I.remove usable used)
                          (nb_usable - I.size used) kept qs
                          (λ i h. ground (
                            arith,
                            L.contains-remove usable used i,
                            L.contains-remove s.available_machines used i,
                            open_to i,
                          ))
                          (λ i h. apart i (remove-Subset I L usable used i h)) k (a.1)
                          (start_job-Filled s q.job usable used sub open_to apart f))))
            ]
          ]

module _ (I : Intervals) (L : IntervalLaws I) (w : Workload) where
  pub on_simulation_start-Accounted : (n : ℕ) → Accounted I (on_simulation_start I n)
  unfolding on_simulation_start
  on_simulation_start-Accounted n = record { free = tt; exclusive = tt; asking = tt }

  -- Where `nb_to_allocate` gives a job between one machine and all that it asked for, a call of
  -- make_decisions that is told of running jobs that ended, each once, and of released jobs of the
  -- workload that ask for machines ends without a failed assertion. No machine is then held by two
  -- jobs, or held and free, whichever selector is used, and none of the jobs that the call starts
  -- is given a machine that is unavailable after the events of users.
  pub make_decisions-spares_unavailable :
      (selector : Selector I) (nb_to_allocate : ℕ → ℕ) (order : SortableJobOrder) (date : ℕ)
      (ended released : List ℕ) (became_available became_unavailable : I.Machines) (s : State I)
      → IsFraction nb_to_allocate
      → Accounted I s
      → AllRunning ended s.current_allocations
      → AllAsking w released
      → Returns
          (Filled I s.decisions
            (I.insert (I.remove s.unavailable_machines became_available) became_unavailable))
          (make_decisions I selector nb_to_allocate w order date ended released became_available
            became_unavailable s)
  unfolding make_decisions fill update_unavailable
  make_decisions-spares_unavailable selector nb_to_allocate order date ended released
        became_available became_unavailable s fraction v running asking =
      let u = I.insert (I.remove s.unavailable_machines became_available) became_unavailable in
      let s₁ = end_jobs I s ended in
      let (v₁, d₁, e₁) = end_jobs-Accounted I L s ended v running in
      let Done = Filled I s.decisions u in
      let s₂ = update_unavailable I became_available became_unavailable s₁ in
      Returns-bind Done Done (release_jobs I w date s₂ released) _
        (release_jobs-Filled I L s.decisions u date w s₂ released asking (
          record { free = v₁.free; exclusive = v₁.exclusive; asking = v₁.asking },
          ap (λ m. I.insert (I.remove m became_available) became_unavailable) e₁,
          ([], d₁, tt),
        ))
        λ s₃ (v₃, e₃, rest).
          let usable = I.remove s₃.available_machines s₃.unavailable_machines in
          let queue = sort_queue order date s₃.queue in
          let k =
            sort_queue-Each (λ j. 0 < j.nb_requested_resources) order date s₃.queue v₃.asking in
          fill_queue-Filled I L s.decisions u date selector nb_to_allocate fraction
            (record s₃ { queue = queue }) usable (I.size usable) [] queue
            (remove-Subset I L s₃.available_machines s₃.unavailable_machines)
            (λ i h. ground (
              arith,
              L.contains-remove s₃.available_machines s₃.unavailable_machines i,
              ap (λ m. I.contains m i) e₃,
            ))
            tt k (record { free = v₃.free; exclusive = v₃.exclusive; asking = k }, e₃, rest)
