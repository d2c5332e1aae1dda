-- ===== src/EasyFast/Backfill.antt =====
-- The backfilling loop of EasyBackfillingFast.
use schedule_test.Base.{
  ℕ, ◌≡◌, ◌∙◌, List, [], ◌∷◌, some, All, Bool-cases, inl, inr, leb, ◌==◌, Result, ok, err, ◌>>=◌,
  Returns, leb→le,
}
use schedule_test.Intervals.Interface.{Intervals, IntervalLaws}
use schedule_test.Workload.{Job, Workload}
use schedule_test.EasyFast.{PriorityJob, State, execute, hinders, backfill}
use schedule_test.EasyFast.Invariant.{Core, Valid, Promised}
use schedule_test.EasyFast.Accounts.{execute-Core}
use schedule_test.EasyFast.Steps.{execute-Promised, execute_keeps}

module _ (I : Intervals) (L : IntervalLaws I) (w : Workload) where
  -- After the backfilling: the priority job is the one before and keeps its reservation.
  abbrev pub Backfilled : ℕ → PriorityJob → State I × List Job → Type 0
  Backfilled n p (s, js) =
      Core I w s
      × All (Valid I w n) js
      × (s.priority_job ≡ some p)
      × Promised I w s p
      × (s.nb_machines ≡ n)

  skip-Backfilled :
      (n : ℕ) (p : PriorityJob) (j : Job) (r : Result (State I × List Job))
      → Valid I w n j
      → Returns (Backfilled n p) r
      → Returns (Backfilled n p) (r >>= λ r. ok (r.0, j ∷ r.1))
  skip-Backfilled n p j (ok (s, js)) v (c, rest, e, promised, same) =
      (c, (v, rest), e, promised, same)
  skip-Backfilled n p j (err f) v h = h

  pub backfill-Backfilled :
      (date n : ℕ) (s : State I) (js : List Job) (p : PriorityJob)
      → Core I w s
      → All (Valid I w n) js
      → s.priority_job ≡ some p
      → Promised I w s p
      → s.nb_machines ≡ n
      → Returns (Backfilled n p) (backfill I date s js)
  unfolding backfill
  backfill-Backfilled date n s [] p c valid e promised same = (c, tt, e, promised, same)
  backfill-Backfilled date n s (j ∷ js) p c (v, rest) e promised same =
      let skipped =
        skip-Backfilled n p j (backfill I date s js) v
          (backfill-Backfilled date n s js p c rest e promised same) in
      elim (Bool-cases (leb j.nb_requested_resources s.nb_available_machines)) [
        | inr lack ↦ rw lack skipped
        | inl fits ↦ elim (Bool-cases (hinders I date j p)) [
          | inl late ↦ rw (fits, e, late) skipped
          | inr free ↦
              let s' = execute I date s j in
              let c' : Core I w s' = execute-Core I L w date s j c v.0 (leb→le _ _ fits) in
              let promised' : Promised I w s' p =
                execute-Promised I L w date s j p (leb→le _ _ fits) free promised in
              let kept = execute_keeps I L w date s j in
              elim (Bool-cases (s'.nb_available_machines == 0)) [
                | inl busy ↦
                    rw (fits, e, free, busy) (c', rest, kept.0 ∙ e, promised', kept.1 ∙ same)
                | inr left ↦
                    rw (fits, e, free, left)
                      (backfill-Backfilled date n s' js p c' rest (kept.0 ∙ e) promised'
                        (kept.1 ∙ same))
              ]
        ]
      ]
