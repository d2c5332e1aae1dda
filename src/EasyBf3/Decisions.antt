-- ===== src/EasyBf3/Decisions.antt =====
-- A call of EasyBackfilling3's make_decisions keeps the account of machines.
use schedule_test.Base.{
  ℕ, ◌≡◌, refl, sym, subst, List, [], ◌∷◌, ◌++◌, Option, some, All, All-append, Bool-cases,
  Option-cases, inl, inr, ltb, if◌then◌else◌, is_empty, Returns, Returns-bind,
}
use schedule_test.Intervals.Interface.{Intervals, IntervalLaws}
use schedule_test.Workload.{Job, Workload, AllKnown}
use schedule_test.Queue.{
  SortableJob, SortableJobOrder, remove_job, contains_job, first_job_or_nullptr, sort_queue,
}
use schedule_test.Queue.Entries.{append_job-Each, remove_job-Each, sort_queue-Each}
use schedule_test.EasyBf3.{
  State, find_scheduled, on_simulation_start, same_job, handle_finished_job, handle_finished_jobs,
  check_priority_job, check_next_job, send_execute, release_job, release_jobs, start_priority_jobs,
  sort_queue_while_handling_priority_job, try_job, try_released_jobs, traverse_queue,
  make_decisions,
}
use schedule_test.EasyBf3.Ascending.{AscendingFrom, erase-AscendingFrom}
use schedule_test.EasyBf3.Accounts.{on_simulation_start-Core, handle_finished_job-Core}
use schedule_test.EasyBf3.Checks.{
  Named, Running, check_priority_job-Running, check_next_job-Running, queue-check_next_job,
}

module _ (I : Intervals) (w : Workload) where
  abbrev pub Known : SortableJob → Type 0
  Known q = w q.job.id ≡ some q.job

  -- The account between two calls: machines, the size of the priority job, a schedule in ascending
  -- order, and a queue of jobs of the workload.
  abbrev pub Accounted : State I → Type 0
  Accounted s = Running I w s × All Known s.queue

module _ (I : Intervals) (L : IntervalLaws I) (w : Workload) (date : ℕ) where
  start_priority_jobs-Accounted :
      (s : State I) (qs : List SortableJob)
      → Running I w s
      → All (Known I w) qs
      → Accounted I w (start_priority_jobs I date s qs)
  unfolding start_priority_jobs
  start_priority_jobs-Accounted s [] r k = (r, tt)
  start_priority_jobs-Accounted s (q ∷ qs) r k =
      let checked = check_priority_job I date s q.job in
      let r' = check_priority_job-Running I L w date s q.job (k.0) r in
      elim (Option-cases (checked.1)) [
        | inl waits ↦ rw (waits, start_priority_jobs) (r', k)
        | inr (sj, runs) ↦
            rw (runs, start_priority_jobs)
              (start_priority_jobs-Accounted (send_execute I date (checked.0) sj) qs r' (k.1))
      ]

  sort_queue_while-Accounted :
      (order : SortableJobOrder) (before : Option Job) (s : State I)
      → Accounted I w s
      → Accounted I w ((sort_queue_while_handling_priority_job I order date before s).0)
  unfolding sort_queue_while_handling_priority_job
  sort_queue_while-Accounted order before s (r, k) =
      let queue = sort_queue order date s.queue in
      let k' = sort_queue-Each (λ j. w j.id ≡ some j) order date s.queue k in
      elim (Bool-cases (same_job (first_job_or_nullptr queue) before)) [
        | inl same ↦ rw same (r, k')
        | inr changed ↦ rw changed (start_priority_jobs-Accounted s queue r k')
      ]

  traverse_queue-Accounted :
      (prio : Option Job) (s : State I) (kept ahead : List SortableJob)
      → Running I w s
      → All (Known I w) kept
      → All (Known I w) ahead
      → Accounted I w (traverse_queue I date prio s kept ahead)
  unfolding traverse_queue
  traverse_queue-Accounted prio s kept [] r k a = (r, k)
  traverse_queue-Accounted prio s kept (q ∷ qs) r k a =
      let first = same_job (some q.job) prio in
      let checked =
        (if first then check_priority_job I date s q.job else check_next_job I date s q.job) in
      let r' : Running I w (checked.0) = elim (Bool-cases first) [
        | inl head ↦ rw head (check_priority_job-Running I L w date s q.job (a.0) r)
        | inr behind ↦ rw behind (check_next_job-Running I L w date s q.job r)
      ] in
      let after = (if first then first_job_or_nullptr (kept ++ qs) else prio) in
      elim (Bool-cases (ltb 0 s.nb_available_machines)) [
        | inl some_free ↦ elim (Option-cases (checked.1)) [
          | inl waits ↦
              rw (some_free, traverse_queue)
                (rw (waits, traverse_queue)
                  (traverse_queue-Accounted prio (checked.0) (kept ++ q ∷ []) qs r'
                    (All-append (Known I w) kept (q ∷ []) k (a.0, tt)) (a.1)))
          | inr (sj, runs) ↦
              rw (some_free, traverse_queue)
                (rw (runs, traverse_queue)
                  (traverse_queue-Accounted after (send_execute I date (checked.0) sj) kept qs r' k
                    (a.1)))
        ]
        | inr full ↦ rw (full, traverse_queue) (r, All-append (Known I w) kept (q ∷ qs) k a)
      ]

  try_job-Accounted :
      (prio : Option Job) (s : State I) (j : Job)
      → Accounted I w s
      → Returns (Accounted I w) (try_job I date prio s j)
  unfolding try_job
  try_job-Accounted prio s j (r, k) =
      let checked = check_next_job I date s j in
      let r' = check_next_job-Running I L w date s j r in
      elim (Bool-cases (contains_job j s.queue)) [
        | inl there ↦ elim (Bool-cases (same_job (some j) prio)) [
          | inl first ↦ rw (there, first) (r, k)
          | inr later ↦ elim (Option-cases (checked.1)) [
            | inl waits ↦
                rw (there, later, waits)
                  (r', subst (All (Known I w)) (sym (queue-check_next_job I L w date s j)) k)
            | inr (sj, runs) ↦
                rw (there, later, runs)
                  (Returns-bind (All (Known I w)) (Accounted I w) (remove_job j s.queue) _
                    (remove_job-Each (λ j. w j.id ≡ some j) j s.queue there k) λ queue k'. (r', k'))
          ]
        ]
        | inr gone ↦ rw gone (r, k)
      ]

  try_released_jobs-Accounted :
      (prio : Option Job) (s : State I) (ids : List ℕ)
      → Accounted I w s
      → AllKnown w ids
      → Returns (Accounted I w) (try_released_jobs I w date prio s ids)
  unfolding try_released_jobs
  try_released_jobs-Accounted prio s [] a known = a
  try_released_jobs-Accounted prio s (id ∷ ids) a ((j, e, named), known) =
      elim (Bool-cases (ltb 0 s.nb_available_machines)) [
        | inl some_free ↦ rw some_free (
            rw e (
              Returns-bind (Accounted I w) (Accounted I w) (try_job I date prio s j) _
                (try_job-Accounted prio s j a)
                λ s' a'. try_released_jobs-Accounted prio s' ids a' known))
        | inr full ↦ rw full a
      ]

  handle_finished_job-Accounted :
      (s : State I) (id : ℕ) → Accounted I w s → Accounted I w (handle_finished_job I s id)
  unfolding handle_finished_job
  handle_finished_job-Accounted s id ((c, named, up), k) =
      let kept : Named w ((handle_finished_job I s id).p_job)
          × All (Known I w) ((handle_finished_job I s id).queue)
          × AscendingFrom I 0 ((handle_finished_job I s id).scheduled_jobs) =
        elim (Option-cases (find_scheduled I id s.scheduled_jobs)) [
          | inl absent ↦ rw (absent, handle_finished_job) (named, k, up)
          | inr (sj, found) ↦
              rw (found, handle_finished_job)
                (named, k, erase-AscendingFrom I id 0 s.scheduled_jobs up)
        ] in
      ((handle_finished_job-Core I L s id c, kept.0, kept.2), kept.1)

  handle_finished_jobs-Accounted :
      (s : State I) (ids : List ℕ) → Accounted I w s → Accounted I w (handle_finished_jobs I s ids)
  unfolding handle_finished_jobs
  handle_finished_jobs-Accounted s [] a = a
  handle_finished_jobs-Accounted s (id ∷ ids) a =
      handle_finished_jobs-Accounted (handle_finished_job I s id) ids
        (handle_finished_job-Accounted s id a)

  -- With the account, the jobs to try are of the workload.
  abbrev Released : State I × List ℕ → Type 0
  Released r = Accounted I w (r.0) × AllKnown w (r.1)

  release_job-Released :
      (s : State I) (j : Job)
      → Accounted I w s
      → w j.id ≡ some j
      → Released (release_job I date s j)
  unfolding release_job
  release_job-Released s j (r, k) known =
      elim (Bool-cases (ltb s.nb_machines j.nb_requested_resources)) [
        | inl big ↦ rw big ((r, k), tt)
        | inr small ↦ elim (Bool-cases (j.has_walltime)) [
          | inl timed ↦
              simp (small, timed)
                (
                  (r, append_job-Each (λ j. w j.id ≡ some j) j date s.queue known k),
                  ((j, known, refl), tt),
                )
          | inr endless ↦ simp (small, endless) ((r, k), tt)
        ]
      ]

  release_jobs-Released :
      (s : State I) (ids : List ℕ)
      → Accounted I w s
      → AllKnown w ids
      → Returns Released (release_jobs I w date s ids)
  unfolding release_jobs
  release_jobs-Released s [] a known = (a, tt)
  release_jobs-Released s (id ∷ ids) a ((j, e, named), known) =
      let one = release_job-Released s j a (subst (λ i. w i ≡ some j) (sym named) e) in
      rw e (
        Returns-bind Released Released (release_jobs I w date ((release_job I date s j).0) ids) _
          (release_jobs-Released ((release_job I date s j).0) ids (one.0) known)
          λ r rest. (rest.0, All-append _ ((release_job I date s j).1) (r.1) (one.1) (rest.1)))

module _ (I : Intervals) (L : IntervalLaws I) (w : Workload) where
  pub on_simulation_start-Accounted : (n : ℕ) → Accounted I w (on_simulation_start I n)
  unfolding on_simulation_start
  on_simulation_start-Accounted n = ((on_simulation_start-Core I L n, tt, tt), tt)

  -- A call of make_decisions, in any queue order and told of any ended jobs and of released jobs of
  -- the workload, ends without a failed assertion, and keeps the account: the count of free
  -- machines is right and with what the scheduled jobs asked for it is the platform, each
  -- scheduled job holds as many machines as it asked for, every machine of the platform, and no
  -- other, is either free or held by exactly one scheduled job, and the schedule ascends in expected
  -- ends.
  pub make_decisions-keeps_machines :
      (order : SortableJobOrder) (date : ℕ) (ended released : List ℕ) (s : State I)
      → Accounted I w s
      → AllKnown w released
      → Returns (Accounted I w) (make_decisions I w order date ended released s)
  unfolding make_decisions
  make_decisions-keeps_machines order date ended released s a known =
      let s₁ = handle_finished_jobs I s ended in
      Returns-bind (Released I L w date) (Accounted I w) (release_jobs I w date s₁ released) _
        (release_jobs-Released I L w date s₁ released
          (handle_finished_jobs-Accounted I L w date s ended a) known)
        λ r (a', tried).
          let t =
            sort_queue_while_handling_priority_job I order date (first_job_or_nullptr s.queue)
              (r.0) in
          let (run, k') =
            sort_queue_while-Accounted I L w date order (first_job_or_nullptr s.queue) (r.0) a' in
          elim (Bool-cases (is_empty ended)) [
            | inl none_ended ↦
                rw none_ended
                  (try_released_jobs-Accounted I L w date (t.1) (t.0) (r.1) (run, k') tried)
            | inr some_ended ↦
                rw some_ended
                  (traverse_queue-Accounted I L w date (t.1) (t.0) [] (t.0.queue) run tt k')
          ]
