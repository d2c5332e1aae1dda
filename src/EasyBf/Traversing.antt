-- ===== src/EasyBf/Traversing.antt =====
-- easy_bf.cpp: the loop over the whole queue.
use schedule_test.Base.{
  ℕ, ◌+◌, ◌≤◌, ◌≡◌, refl, ◌∙◌, List, [], ◌∷◌, ◌++◌, Option, some, Bool, true, false, arith, ◌==◌,
  Bool-cases, inl, inr, ok, Returns, Returns-bind, subst, Returns-weaken, sym,
}
use schedule_test.Intervals.Interface.{Intervals, IntervalLaws}
use schedule_test.Workload.{Job}
use schedule_test.Locality.{basic}
use schedule_test.Queue.{SortableJob, first_job_or_nullptr}
use schedule_test.Queue.Distinct.{
  middle-Each, middle-here, middle-Fewer, middle-contained, pass, passed_all,
}
use schedule_test.Schedule.{Schedule, contains_job}
use schedule_test.EasyBf.{State, backfill, remove_if_contained, replan_priority_job, traverse_queue}
use schedule_test.EasyBf.Planning.{Fits}
use schedule_test.EasyBf.Backfill.{Backfilled, backfill-Backfilled}
use schedule_test.EasyBf.Start.{Waits, Contained, Ordered, Reaches}
use schedule_test.EasyBf.Sorting.{Cleared}
use schedule_test.EasyBf.Attempts.{
  Tried, Tried-nothing, Tried-then, started-Tried, stays-Tried, Waits-contained,
}
use schedule_test.EasyBf.Replanning.{
  with_queue, remove_if_contained-Cleared, Replanned, replan_priority_job-Replanned,
}

module _ (I : Intervals) (L : IntervalLaws I) (second n longest h date : ℕ)
    (upto : date + (longest + longest + longest) ≤ h) where
  -- Backfilling does not look at the queue.
  requeue :
      (o : Option Job) (s u : State I) (j : Job) (started : Bool) (qs : List SortableJob)
      → Backfilled I L second n longest h date o s j (u, started)
      → Backfilled I L second n longest h date o (with_queue s qs) j (with_queue u qs, started)
  requeue o s u j true qs (plan, outcome, alone) = (
    plan,
    outcome,
    record {
      queue = refl;
      platform = alone.platform;
      contains = alone.contains;
      others = alone.others;
    },
  )
  requeue o s u j false qs (plan, outcome, alone) = (
    plan,
    record { sent = outcome.sent; free = outcome.free; held = outcome.held },
    record {
      queue = refl;
      platform = alone.platform;
      contains = alone.contains;
      others = alone.others;
    },
  )

  unplanned_stays :
      (j : Job) (s : Schedule I)
      → contains_job I j.id s ≡ false
      → remove_if_contained I (basic I L) second j s ≡ ok s
  unfolding remove_if_contained
  unplanned_stays j s new = rw new refl

  -- Behind the priority job, which is planned, jobs are backfilled.
  traverse_queue-behind :
      (p : SortableJob) (kept ahead : List SortableJob) (s : State I)
      → Ordered I n longest h date (with_queue s (p ∷ kept ++ ahead))
      → Returns
          (Tried I n longest h date (with_queue s (p ∷ kept ++ ahead)))
          (traverse_queue I (basic I L) second date (some p.job) s (p ∷ kept) ahead)
  unfolding traverse_queue first_job_or_nullptr
  traverse_queue-behind p kept [] s ordered =
      let kept_all =
        λ (qs : List SortableJob). Ordered I n longest h date (with_queue s (p ∷ qs)) in
      subst (λ qs. Tried I n longest h date (with_queue s (p ∷ qs)) (with_queue s (p ∷ kept)))
        (sym (passed_all kept))
        (Tried-nothing I n longest h date (with_queue s (p ∷ kept))
          (subst kept_all (passed_all kept) ordered))
  traverse_queue-behind p kept (q ∷ qs) s ordered =
      let all = p ∷ kept ++ q ∷ qs in
      let before = with_queue s all in
      let o : Option Job = some p.job in
      let there = middle-contained (p ∷ kept) q qs in
      let other : (q.job.id == p.job.id) ≡ false =
        middle-here (λ j. (j.id == p.job.id) ≡ false) kept q qs (ordered.distinct.0) in
      let new = Waits-contained I q.job o s.schedule all there other ordered.waits in
      let stays = unplanned_stays q.job s.schedule new in
      rw (stays, other)
        (Returns-bind (Backfilled I L second n longest h date o s q.job) _
          (backfill I (basic I L) second date s q.job) _
          (backfill-Backfilled I L second n longest h date o s q.job ordered.plan new
            (middle-here (Fits n longest) (p ∷ kept) q qs ordered.fits) other upto)
          (λ (u, started) b. elim (Bool-cases started) [
            | inl now ↦
                let done : Backfilled I L second n longest h date o s q.job (u, true) =
                  (rw now at b) in
                let after = with_queue u (p ∷ kept ++ qs) in
                let tried : Tried I n longest h date before after =
                  started-Tried I L second n longest h date upto before (with_queue u all) q.job
                    (p ∷ kept ++ qs) ordered there new (requeue o s u q.job true all done)
                    (middle-Fewer (p ∷ kept) q qs ordered.distinct)
                    (middle-Each (Fits n longest) (p ∷ kept) q qs ordered.fits)
                    (middle-Each (Waits I o s.schedule) (p ∷ kept) q qs ordered.waits) refl in
                rw (now, other)
                  (Returns-weaken (Tried I n longest h date after) (Tried I n longest h date before)
                    (traverse_queue I (basic I L) second date o u (p ∷ kept) qs)
                    (λ v t. Tried-then I n longest h date before after v tried t)
                    (traverse_queue-behind p kept qs u tried.ordered))
            | inr not_now ↦
                let done : Backfilled I L second n longest h date o s q.job (u, false) =
                  (rw not_now at b) in
                let after = with_queue u (p ∷ (kept ++ q ∷ []) ++ qs) in
                let tried : Tried I n longest h date before after =
                  subst (λ ks. Tried I n longest h date before (with_queue u (p ∷ ks)))
                    (pass kept q qs)
                    (stays-Tried I L second n longest h date upto before (with_queue u all) q.job
                      ordered (requeue o s u q.job false all done)) in
                rw not_now (
                  Returns-weaken (Tried I n longest h date after) (Tried I n longest h date before)
                    (traverse_queue I (basic I L) second date o u (p ∷ kept ++ q ∷ []) qs)
                    (λ v t. Tried-then I n longest h date before after v tried t)
                    (traverse_queue-behind p (kept ++ q ∷ []) qs u tried.ordered))
          ]))

  -- The loop over the whole queue of an ordered state ends without a fault in an ordered state. No job
  -- outside the queue is disturbed.
  pub traverse_queue-Reaches :
      (qs : List SortableJob) (s : State I)
      → Ordered I n longest h date (with_queue s qs)
      → Returns
          (Reaches I n longest h date qs s)
          (traverse_queue I (basic I L) second date (first_job_or_nullptr qs) s [] qs)
  unfolding traverse_queue first_job_or_nullptr
  traverse_queue-Reaches [] s ordered =
      (ordered, refl, λ id new. (tt, λ d i. refl), tt, λ order sorted. tt, λ k served. served)
  traverse_queue-Reaches (q ∷ qs) s ordered =
      let own : (q.job.id == q.job.id) ≡ true = ground arith in
      let o : Option Job = some q.job in
      rw own (
        Returns-bind (Cleared I L second n longest h date o (q ∷ qs) s.schedule)
          (Reaches I n longest h date (q ∷ qs) s)
          (remove_if_contained I (basic I L) second q.job s.schedule) _
          (remove_if_contained-Cleared I L second n longest h date upto q.job (q ∷ qs) s.schedule
            ordered.plan ordered.waits)
          (λ v (plan, unplanned, steady).
            let cleared = record s { schedule = v } in
            Returns-bind (Replanned I L second n longest h date upto q qs cleared)
              (Reaches I n longest h date (q ∷ qs) s)
              (replan_priority_job I (basic I L) second date cleared q.job) _
              (replan_priority_job-Replanned I L second n longest h date upto q qs cleared plan
                ordered.fits ordered.distinct unplanned)
              (λ (u, started) r. elim (Bool-cases started) [
                | inl now ↦
                    let done : Replanned I L second n longest h date upto q qs cleared (u, true) =
                      (rw now at r) in
                    rw (now, own)
                      (Returns-weaken (Reaches I n longest h date qs u)
                        (Reaches I n longest h date (q ∷ qs) s)
                        (traverse_queue I (basic I L) second date (first_job_or_nullptr qs) u [] qs)
                        (λ x (ordered', platform, undisturbed, reserved, in_order, serves). (
                          ordered',
                          platform ∙ done.1,
                          λ id new.
                              let (out, same) = undisturbed id (new.1) in
                              (
                                out,
                                λ d i. same d i ∙ done.2 id (new.0) d i ∙ steady id (new.0) d i,
                              ),
                          reserved,
                          λ order sorted. in_order order (sorted.1),
                          λ k served. serves k (done.4 k served),
                        ))
                        (traverse_queue-Reaches qs u (done.0)))
                | inr not_now ↦
                    let done : Replanned I L second n longest h date upto q qs cleared (u, false) =
                      (rw not_now at r) in
                    let before = with_queue u (q ∷ qs) in
                    rw not_now (
                      Returns-weaken (Tried I n longest h date before)
                        (Reaches I n longest h date (q ∷ qs) s)
                        (traverse_queue I (basic I L) second date o u (q ∷ []) qs)
                        (λ x t. (
                          t.ordered,
                          t.platform ∙ done.1,
                          λ id new.
                              let (out, same) = t.steady id new in
                              (
                                out,
                                λ d i. same d i ∙ done.2 id (new.0) d i ∙ steady id (new.0) d i,
                              ),
                          subst (λ o. Contained I o x.schedule) (sym t.first)
                              ((t.reserved q.job.id (done.3)).0),
                          λ order sorted. t.in_order order sorted,
                          λ k served. t.serves k (done.4 k served),
                        ))
                        (traverse_queue-behind q [] qs u (done.0)))
              ])))
