-- ===== src/EasyFast/Release.antt =====
-- EasyBackfillingFast when jobs are released.
use schedule_test.Base.{
  ℕ, ◌≤◌, ◌≡◌, refl, sym, subst, List, [], ◌∷◌, ◌++◌, Option, none, some, false, arith, Bool-cases,
  Option-cases, inl, inr, leb, ltb, Returns, Returns-bind, All-append, leb→lt, leb→le,
}
use schedule_test.Intervals.Interface.{Intervals, IntervalLaws}
use schedule_test.Workload.{AllKnown, Job, Workload}
use schedule_test.EasyFast.{PriorityJob, State, execute, hinders, release_job, release_jobs}
use schedule_test.EasyFast.Invariant.{Valid, Planned, Blocked, Inv}
use schedule_test.EasyFast.Accounts.{execute-Core}
use schedule_test.EasyFast.Steps.{make_priority-Inv, execute-Promised}

module _ (I : Intervals) (L : IntervalLaws I) (w : Workload) where
  enqueue-Inv :
      (s : State I) (j : Job) (p : PriorityJob)
      → s.priority_job ≡ some p
      → Inv I w s
      → Valid I w s.nb_machines j
      → Inv I w (record s { pending_jobs = s.pending_jobs ++ j ∷ [] })
  enqueue-Inv s j p e ((c, pending, planned), blocked) valid = (
    (
      c,
      All-append _ s.pending_jobs (j ∷ []) pending (valid, tt),
      subst (Planned I w (record s { pending_jobs = s.pending_jobs ++ j ∷ [] })) (sym e)
          (subst (Planned I w s) e planned),
    ),
    blocked,
  )

  -- Starting a job beside the priority job, if there is one.
  execute-Inv :
      (date : ℕ) (s : State I) (j : Job) (q : Option PriorityJob)
      → s.priority_job ≡ q
      → Inv I w s
      → w j.id ≡ some j
      → j.nb_requested_resources ≤ s.nb_available_machines
      → ((p : PriorityJob) → q ≡ some p → hinders I date j p ≡ false)
      → Inv I w (execute I date s j)
  unfolding execute
  execute-Inv date s j none e ((c, pending, planned), blocked) known fits free = (
    (
      execute-Core I L w date s j c known fits,
      pending,
      subst (Planned I w (execute I date s j)) (sym e) (subst (Planned I w s) e planned),
    ),
    subst (Blocked I w _) (sym e) tt,
  )
  execute-Inv date s j (some p) e ((c, pending, planned), blocked) known fits free =
      let plan : Planned I w s (some p) = subst (Planned I w s) e planned in
      let block = subst (Blocked I w s.nb_available_machines) e blocked in
      let promised = execute-Promised I L w date s j p fits (free p refl) (block, plan.1) in
      (
        (
          execute-Core I L w date s j c known fits,
          pending,
          subst (Planned I w (execute I date s j)) (sym e) (plan.0, promised.1),
        ),
        subst (Blocked I w _) (sym e) promised.0,
      )

  release_job-Inv :
      (date : ℕ) (s : State I) (j : Job)
      → Inv I w s
      → w j.id ≡ some j
      → Returns (Inv I w) (release_job I date s j)
  unfolding release_job
  release_job-Inv date s j ((c, pending, planned), blocked) known =
      let v : Inv I w s = ((c, pending, planned), blocked) in
      elim (Bool-cases (leb j.nb_requested_resources s.nb_available_machines)) [
        | inl fits ↦
            let fit = leb→le j.nb_requested_resources s.nb_available_machines fits in
            elim (Option-cases s.priority_job) [
              | inl e ↦ rw (fits, e) (execute-Inv date s j none e v known fit (λ p q. cc))
              | inr (p, e) ↦ elim (Bool-cases (hinders I date j p)) [
                | inl late ↦
                    rw (fits, e, late) (enqueue-Inv s j p e v (known, omega (arith, c.balanced)))
                | inr free ↦
                    rw (fits, e, free)
                      (execute-Inv date s j (some p) e v known fit (λ p' q.
                        let same : p ≡ p' = cc in
                        subst (λ r. hinders I date j r ≡ false) same free))
              ]
            ]
        | inr lack ↦ elim (Bool-cases (ltb s.nb_machines j.nb_requested_resources)) [
          | inl huge ↦ rw (lack, huge) v
          | inr possible ↦
              let valid : Valid I w s.nb_machines j = (known, ground arith) in
              elim (Option-cases s.priority_job) [
                | inl e ↦
                    rw (lack, possible, e)
                      (make_priority-Inv I L w s j c pending valid (leb→lt _ _ lack))
                | inr (p, e) ↦ rw (lack, possible, e) (enqueue-Inv s j p e v valid)
              ]
        ]
      ]

  pub release_jobs-Inv :
      (date : ℕ) (s : State I) (ids : List ℕ)
      → Inv I w s
      → AllKnown w ids
      → Returns (Inv I w) (release_jobs I w date s ids)
  unfolding release_jobs
  release_jobs-Inv date s [] v known = v
  release_jobs-Inv date s (id ∷ ids) v ((j, e, named), known) = rw e (
      Returns-bind (Inv I w) (Inv I w) (release_job I date s j) _
        (release_job-Inv date s j v (subst (λ i. w i ≡ some j) (sym named) e))
        λ s' v'. release_jobs-Inv date s' ids v' known)
