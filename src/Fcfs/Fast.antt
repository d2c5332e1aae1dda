-- ===== src/Fcfs/Fast.antt =====
-- batsched4/src/algo/fcfs_fast.cpp and .hpp: the class FCFSFast, which is FCFS but for its own test of
-- whether a pending job fits and its own choice of machines. The state and the other steps are those
-- of FCFS, word for word, and are used from there.
use schedule_test.Base.{
  ℕ, ◌≡◌, refl, sym, ◌∙◌, List, [], ◌∷◌, some, true, false, All, arith, Bool-cases, inl, inr, leb,
  if◌then◌else◌, is_empty, Result, ok, err, ◌>>=◌, Returns,
}
use schedule_test.Intervals.Interface.{Intervals, IntervalLaws}
use schedule_test.Workload.{Job, Workload, AllRunning}
use schedule_test.Locality.{basic, basic_fit}
use schedule_test.Fcfs
use schedule_test.Fcfs.{State, execute, end_jobs, release_jobs}
use schedule_test.Fcfs.Accounts.{Accounted, execute-Accounted, end_jobs-Accounted}

module _ (I : Intervals) where
  -- The loop that executes the pending jobs as long as they fit.
  pub run_queue : (date : ℕ) → State I → List Job → State I
  run_queue date s [] = record s { pending_jobs = [] }
  run_queue date s (j ∷ js) =
      let machines = I.left s.available_machines j.nb_requested_resources in
      let rest = run_queue date (execute I date s j machines) js in
      if leb j.nb_requested_resources s.nb_available_machines
      then rest
      else record s { pending_jobs = j ∷ js }

  pub make_decisions :
      Workload → (date : ℕ) → (ended released : List ℕ) → State I → Result (State I)
  make_decisions w date ended released s = do
    s' ← end_jobs I w s ended
    release_jobs I w date (if is_empty ended then s' else run_queue date s' s'.pending_jobs)
        released

module _ (I : Intervals) (L : IntervalLaws I) (w : Workload) where
  run_queue-same :
      (date : ℕ) (s : State I) (js : List Job)
      → Accounted I w s
      → All (λ j. w j.id ≡ some j) js
      → run_queue I date s js ≡ Fcfs.run_queue I (basic I L) date s js
  unfolding run_queue Fcfs.run_queue basic_fit
  run_queue-same date s [] v known = refl
  run_queue-same date s (j ∷ js) v known =
      let n = j.nb_requested_resources in
      let machines = I.left s.available_machines n in
      elim (Bool-cases (leb n s.nb_available_machines)) [
        | inl fits ↦
            let fits' : leb n (I.size s.available_machines) ≡ true = ground (arith, v.counted) in
            let s' = execute I date s j machines in
            let runs : Fcfs.run_queue I (basic I L) date s (j ∷ js)
                ≡ Fcfs.run_queue I (basic I L) date s' js =
              rw (fits', Fcfs.run_queue) refl in
            rw fits (
              run_queue-same date s' js
                (execute-Accounted I L w date s j machines v (known.0)
                  (L.left-Subset s.available_machines n)
                  (L.size-left s.available_machines n (ground arith)))
                (known.1)
              ∙ sym runs)
        | inr lack ↦
            let lack' : leb n (I.size s.available_machines) ≡ false = ground (arith, v.counted) in
            let stops : Fcfs.run_queue I (basic I L) date s (j ∷ js)
                ≡ record s { pending_jobs = j ∷ js } =
              rw (lack', Fcfs.run_queue) refl in
            rw lack (sym stops)
      ]

  -- Under the conditions of the account of FCFS, FCFSFast does in a call what FCFS does with
  -- the basic resource selector: the same messages and the same state.
  pub make_decisions-same :
      (date : ℕ) (ended released : List ℕ) (s : State I)
      → Accounted I w s
      → AllRunning ended s.current_allocations
      → make_decisions I w date ended released s
        ≡ Fcfs.make_decisions I (basic I L) w date ended released s
  unfolding make_decisions Fcfs.make_decisions
  make_decisions-same date ended released s v running =
      same (end_jobs I w s ended) (end_jobs-Accounted I L w s ended v running)
    where
      same :
          (r : Result (State I))
          → Returns (Accounted I w) r
          → (r >>= λ s'.
              release_jobs I w date
                (if is_empty ended then s' else run_queue I date s' s'.pending_jobs)
                released)
            ≡ (r >>= λ s'.
                release_jobs I w date
                  (if is_empty ended
                    then s'
                    else Fcfs.run_queue I (basic I L) date s' s'.pending_jobs)
                  released)
      same (ok s') a = rw (run_queue-same date s' s'.pending_jobs a a.known) refl
      same (err e) a = refl
