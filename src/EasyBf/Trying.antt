-- ===== src/EasyBf/Trying.antt =====
-- easy_bf.cpp: backfilling over the jobs that have just been released.
use schedule_test.Base.{
  ℕ, ◌+◌, ◌≤◌, ◌≡◌, ◌∙◌, List, [], ◌∷◌, Option, some, true, false, arith, ◌&&◌, Bool-cases, inl,
  inr, not, Returns, Returns-bind, subst, Returns-weaken, Returns-both, All, ltb, leb,
}
use schedule_test.Intervals.Interface.{Intervals, IntervalLaws}
use schedule_test.Workload.{Job, Workload}
use schedule_test.Locality.{basic}
use schedule_test.Queue.{SortableJob, first_job_or_nullptr, remove_job}
use schedule_test.Queue
use schedule_test.Queue.Entries.{Each, remove_job-Each}
use schedule_test.Queue.Distinct.{SameFirst, remove_job-Fewer, Fewer, remove_job-SameFirst}
use schedule_test.EasyBf.{State, same_pointer, backfill, try_job, try_released_jobs}
use schedule_test.EasyBf.Planning.{Fits}
use schedule_test.EasyBf.Keeping.{Other}
use schedule_test.EasyBf.Backfill.{Backfilled, backfill-Backfilled}
use schedule_test.EasyBf.Start.{Waits, Ordered}
use schedule_test.EasyBf.Attempts.{
  same_pointer-Other, Other-some, Waits-contained, Tried, Tried-nothing, Tried-then, started-Tried,
  stays-Tried,
}

module _ (I : Intervals) (L : IntervalLaws I) (second n longest h date : ℕ)
    (upto : date + (longest + longest + longest) ≤ h) where
  -- What is known of the queue once a job has been taken out of it.
  abbrev Taken : State I → Job → List SortableJob → Type 0
  Taken s j rs =
      (Fewer j s.queue rs × Each (Fits n longest) rs)
      × (Each (Waits I (first_job_or_nullptr s.queue) s.schedule) rs × SameFirst s.queue rs)

  taken :
      (s : State I) (j : Job)
      → Ordered I n longest h date s
      → Queue.contains_job j s.queue ≡ true
      → Other j (first_job_or_nullptr s.queue)
      → Returns (Taken s j) (remove_job j s.queue)
  taken s j ordered there other =
      let qs = s.queue in
      let o = first_job_or_nullptr qs in
      let P = λ (rs : List SortableJob). Fewer j qs rs × Each (Fits n longest) rs in
      let Q = λ (rs : List SortableJob). Each (Waits I o s.schedule) rs × SameFirst qs rs in
      Returns-both P Q (remove_job j qs)
        (Returns-both (Fewer j qs) (Each (Fits n longest)) (remove_job j qs)
          (remove_job-Fewer j qs there ordered.distinct)
          (remove_job-Each (Fits n longest) j qs there ordered.fits))
        (Returns-both (Each (Waits I o s.schedule)) (SameFirst qs) (remove_job j qs)
          (remove_job-Each (Waits I o s.schedule) j qs there ordered.waits)
          (remove_job-SameFirst j qs there
            (λ k first. Other-some j k (first_job_or_nullptr qs) first other)))

  -- Trying a job that fits, whatever the number of machines that are available is said to be.
  pub try_job-Tried :
      (nb : ℕ) (s : State I) (j : Job)
      → Ordered I n longest h date s
      → Fits n longest j
      → Returns
          (λ r. Tried I n longest h date s (r.0))
          (try_job I (basic I L) second date (first_job_or_nullptr s.queue) nb s j)
  unfolding try_job
  try_job-Tried nb s j ordered fits =
      let o = first_job_or_nullptr s.queue in
      elim (Bool-cases (
        Queue.contains_job j s.queue
        && not (same_pointer (some j) o)
        && leb j.nb_requested_resources nb)) [
          | inr passes ↦ rw passes (Tried-nothing I n longest h date s ordered)
          | inl tries ↦
              let there : Queue.contains_job j s.queue ≡ true = ground (arith, tries) in
              let differ : same_pointer (some j) o ≡ false = ground (arith, tries) in
              let other = same_pointer-Other j o differ in
              let new = Waits-contained I j o s.schedule s.queue there other ordered.waits in
              rw tries (
                Returns-bind (Backfilled I L second n longest h date o s j) _
                  (backfill I (basic I L) second date s j) _
                  (backfill-Backfilled I L second n longest h date o s j ordered.plan new fits other
                    upto)
                  (λ (u, started) b. elim (Bool-cases started) [
                    | inl now ↦
                        let done : Backfilled I L second n longest h date o s j (u, true) =
                          (rw now at b) in
                        rw (now, done.2.queue)
                          (Returns-bind (Taken s j) _ (remove_job j s.queue) _
                            (taken s j ordered there other)
                            (λ rs ((fewer, fit), (waits, first)).
                              started-Tried I L second n longest h date upto s u j rs ordered there
                                new done fewer fit waits first))
                    | inr not_now ↦
                        let done : Backfilled I L second n longest h date o s j (u, false) =
                          (rw not_now at b) in
                        rw not_now (stays-Tried I L second n longest h date upto s u j ordered done)
                  ]))
        ]

  -- try_released_jobs from an ordered state, with three longest walltimes left before `h`, over jobs of the
  -- workload that fit: it ends without a fault in an ordered state with the same priority job. Every job
  -- that is in the schedule, the priority job among them, stays there and holds the machines that it held,
  -- at every date; and so do the jobs that are not in the queue.
  pub try_released_jobs-Tried :
      (w : Workload) (o : Option Job) (nb : ℕ) (s : State I) (ids : List ℕ)
      → Ordered I n longest h date s
      → first_job_or_nullptr s.queue ≡ o
      → All (λ id. (j : Job) × (w id ≡ some j) × Fits n longest j) ids
      → Returns
          (Tried I n longest h date s)
          (try_released_jobs I (basic I L) second w date o nb s ids)
  unfolding try_released_jobs
  try_released_jobs-Tried w o nb s [] ordered first known =
      Tried-nothing I n longest h date s ordered
  try_released_jobs-Tried w o nb s (id ∷ ids) ordered first known =
      let (j, is, fits) = known.0 in
      elim (Bool-cases (ltb 0 nb)) [
        | inr full ↦ rw full (Tried-nothing I n longest h date s ordered)
        | inl some_left ↦
            rw (some_left, is)
              (Returns-bind (λ r. Tried I n longest h date s (r.0)) (Tried I n longest h date s)
                (try_job I (basic I L) second date o nb s j) _
                (subst
                  (λ p.
                    Returns (λ r. Tried I n longest h date s (r.0))
                      (try_job I (basic I L) second date p nb s j))
                  first (try_job-Tried nb s j ordered fits))
                (λ r t.
                  Returns-weaken (Tried I n longest h date (r.0)) (Tried I n longest h date s)
                    (try_released_jobs I (basic I L) second w date o (r.1) (r.0) ids)
                    (λ u v. Tried-then I n longest h date s (r.0) u t v)
                    (try_released_jobs-Tried w o (r.1) (r.0) ids t.ordered (t.first ∙ first)
                      (known.1))))
      ]
