-- ===== src/EasyFast/Ended.antt =====
-- EasyBackfillingFast when jobs have ended.
use schedule_test.Base.{
  ℕ, ◌≡◌, refl, sym, subst, List, [], ◌∷◌, Option, none, some, All, arith, lookup, Bool-cases,
  Option-cases, inl, inr, ltb, ok, ◌>>=◌, Returns, Returns-bind,
}
use schedule_test.Intervals.Interface.{Intervals, IntervalLaws}
use schedule_test.Workload.{AllRunning, Job, Workload}
use schedule_test.EasyFast.Horizon.{released_by-erase}
use schedule_test.EasyFast.{
  PriorityJob, Allocation, State, end_job, end_jobs, backfill, try_priority, serve,
}
use schedule_test.EasyFast.Invariant.{Core, Valid, Planned, Blocked, Queued, Inv}
use schedule_test.EasyFast.Accounts.{end_job-Core, lookup-Entry}
use schedule_test.EasyFast.Steps.{try_priority-Inv}
use schedule_test.EasyFast.Backfill.{Backfilled, backfill-Backfilled}

module _ (I : Intervals) (L : IntervalLaws I) (w : Workload) where
  backfill_rest-Inv :
      (date : ℕ) (s : State I) (q : Option PriorityJob)
      → s.priority_job ≡ q
      → Inv I w s
      → Returns
          (Inv I w)
          (backfill I date s s.pending_jobs >>= λ r. ok (record (r.0) { pending_jobs = r.1 }))
  unfolding backfill
  backfill_rest-Inv date s none e ((c, pending, planned), blocked) =
      let idle : s.pending_jobs ≡ [] = subst (Planned I w s) e planned in
      rw idle ((c, tt, subst (Planned I w (record s { pending_jobs = [] })) (sym e) refl), blocked)
  backfill_rest-Inv date s (some p) e ((c, pending, planned), blocked) =
      let plan : Planned I w s (some p) = subst (Planned I w s) e planned in
      let block = subst (Blocked I w s.nb_available_machines) e blocked in
      Returns-bind (Backfilled I L w s.nb_machines p) (Inv I w) (backfill I date s s.pending_jobs) _
        (backfill-Backfilled I L w date s.nb_machines s s.pending_jobs p c pending e (block, plan.1)
          refl)
        λ (s', js) (c', rest, e', (lack, plan'), same). (
          (
            c',
            subst (λ n. All (Valid I w n) js) (sym same) rest,
            subst (Planned I w (record s' { pending_jobs = js })) (sym e')
                (subst (λ n. Valid I w n p.job) (sym same) (plan.0), plan'),
          ),
          subst (Blocked I w s'.nb_available_machines) (sym e') lack,
        )

  pub serve-Inv : (date : ℕ) (s : State I) → Queued I w s → Returns (Inv I w) (serve I date s)
  unfolding serve
  serve-Inv date s (c, pending, planned) = elim (Option-cases s.priority_job) [
    | inl e ↦
        rw (e, serve)
          ((c, pending, planned), subst (Blocked I w s.nb_available_machines) (sym e) tt)
    | inr (p, e) ↦
        rw (e, serve)
          (Returns-bind (Inv I w) (Inv I w) (try_priority I date s p) _
            (try_priority-Inv I L w date s p (c, pending, planned) e)
            λ s' v. elim (Bool-cases (ltb 0 s'.nb_available_machines)) [
              | inl some_left ↦ rw some_left (backfill_rest-Inv date s' s'.priority_job refl v)
              | inr none_left ↦ rw none_left v
            ])
  ]

  -- A job that ends can only bring the priority job's date nearer.
  end_job-Planned :
      (s : State I) (id : ℕ) (j : Job) (a : Allocation I) (q : Option PriorityJob)
      → Core I w s
      → w id ≡ some j
      → lookup id s.current_allocations ≡ some a
      → Planned I w s q
      → Planned I w (end_job I s id j a) q
  unfolding end_job
  end_job-Planned s id j a none c known running planned = planned
  end_job-Planned s id j a (some p) c known running (valid, plan) =
      let (below, (k, known', found, sized)) =
        lookup-Entry I w id s.next_node s.horizons s.current_allocations a c.tracked running in
      let same : k.nb_requested_resources ≡ j.nb_requested_resources = ground arith in
      let freed =
        released_by-erase a.horizon_it k.nb_requested_resources p.completion_time s.horizons
          found in
      (valid, omega arith)

  pub end_jobs-Queued :
      (s : State I) (ids : List ℕ)
      → Queued I w s
      → AllRunning ids s.current_allocations
      → Returns (Queued I w) (end_jobs I w s ids)
  unfolding end_jobs end_job
  end_jobs-Queued s [] q r = q
  end_jobs-Queued s (id ∷ ids) (c, pending, planned) (a, running, rest) =
      let (below, (j, known, found, sized)) =
        lookup-Entry I w id s.next_node s.horizons s.current_allocations a c.tracked running in
      rw (known, running)
        (end_jobs-Queued (end_job I s id j a) ids
          (
            end_job-Core I L w s id j a c known running,
            pending,
            end_job-Planned s id j a s.priority_job c known running planned,
          )
          rest)
