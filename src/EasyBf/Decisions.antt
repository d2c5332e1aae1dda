-- ===== src/EasyBf/Decisions.antt =====
-- easy_bf.cpp, make_decisions: it ends without a fault in an ordered state, and running jobs stay put.
use schedule_test.Base.{
  subst, sym, none, ℕ, ◌+◌, ◌≤◌, ◌<◌, ◌≡◌, refl, ◌∙◌, List, [], ◌∷◌, Option, some, false, arith,
  Bool-cases, inl, inr, Result, ok, ◌>>=◌, Returns, Returns-bind, Returns-weaken, Returns-both, All,
  ltb, is_empty, if◌then◌else◌,
}
use schedule_test.Intervals.Interface.{Intervals, IntervalLaws}
use schedule_test.Workload.{Job, Workload}
use schedule_test.Locality.{basic}
use schedule_test.Queue.{SortableJob, SortableJobOrder, first_job_or_nullptr}
use schedule_test.Queue.Sort.{IsSorted}
use schedule_test.Queue.Entries.{Each}
use schedule_test.Queue.Distinct.{Unlisted}
use schedule_test.Schedule.{Schedule, contains_job}
use schedule_test.Schedule.View.{held_at}
use schedule_test.Schedule.Updating.{update_first_slice}
use schedule_test.EasyBf.{
  State, nb_available, end_jobs, release_jobs, sort_queue_while_handling_priority_job,
  try_released_jobs, traverse_queue, make_decisions,
}
use schedule_test.EasyBf.Planning.{Fits, Plan}
use schedule_test.EasyBf.Start.{Waits, Contained, Reserved, Served, Ordered, Reaches}
use schedule_test.EasyBf.Sorting.{Apart, Sorted, sort_queue_while_handling_priority_job-Ordered}
use schedule_test.EasyBf.Attempts.{Tried}
use schedule_test.EasyBf.Trying.{try_released_jobs-Tried}
use schedule_test.EasyBf.Traversing.{traverse_queue-Reaches}
use schedule_test.EasyBf.Ending.{
  NotAmong, AllEnding, Ended, end_jobs-Ended, Timed, AllNew, AllNew-after, Queued, Released,
  release_jobs-Released,
}
use schedule_test.EasyBf.Deciding.{InFirst, PresentAt, available_in, update_first_slice-Plan}

Waits-present :
    {I : Intervals} (o : Option Job) (s t : Schedule I) (qs : List SortableJob)
    → ((id : ℕ) → contains_job I id s ≡ false → contains_job I id t ≡ false)
    → Each (Waits I o s) qs
    → Each (Waits I o t) qs
Waits-present o s t [] fewer all = tt
Waits-present o s t (q ∷ qs) fewer all =
    (λ other. fewer q.job.id (all.0 other), Waits-present o s t qs fewer (all.1))

Contained-kept :
    {I : Intervals} (o : Option Job) (s t : Schedule I)
    → ((id : ℕ) → contains_job I id t ≡ contains_job I id s)
    → Contained I o s
    → Contained I o t
Contained-kept none s t contains there = tt
Contained-kept (some k) s t contains there = contains k.id ∙ there

Contained-Tried :
    {I : Intervals} (n longest h date : ℕ) (o : Option Job) (s u : State I)
    → Tried I n longest h date s u
    → Contained I o s.schedule
    → Contained I o u.schedule
Contained-Tried n longest h date none s u r there = tt
Contained-Tried n longest h date (some k) s u r there = (r.reserved k.id there).0

-- The first job stays first, and in the schedule.
Tried-Reserved :
    {I : Intervals} (n longest h date : ℕ) (s u : State I)
    → Tried I n longest h date s u
    → Reserved I s
    → Reserved I u
Tried-Reserved {I = I} n longest h date s u r there =
    subst (λ o. Contained I o u.schedule) (sym r.first)
      (Contained-Tried n longest h date (first_job_or_nullptr s.queue) s u r there)

first-Apart : (id : ℕ) (qs : List SortableJob) → Unlisted id qs → Apart id (first_job_or_nullptr qs)
unfolding first_job_or_nullptr
first-Apart id [] out = tt
first-Apart id (q ∷ qs) out = out.0

module _ (I : Intervals) (L : IntervalLaws I) (second n longest h date : ℕ) (positive : 0 < longest)
    (upto : date + (longest + longest + longest) ≤ h) (w : Workload) where
  -- The last part of the handler, with the queue sorted and the first job started or planned.
  abbrev backfilling : (ended recent : List ℕ) → State I → (nb : ℕ) → Result (State I)
  backfilling ended recent t nb =
      if is_empty ended
      then try_released_jobs I (basic I L) second w date (first_job_or_nullptr t.queue) nb t recent
      else if ltb 0 nb
      then traverse_queue I (basic I L) second date (first_job_or_nullptr t.queue) t [] t.queue
      else ok t

  backfilling-Reaches :
      (ended recent : List ℕ) (t : State I) (nb : ℕ)
      → Ordered I n longest h date t
      → Reserved I t
      → All (λ id. (j : Job) × (w id ≡ some j) × Fits n longest j) recent
      → Returns (Reaches I n longest h date t.queue t) (backfilling ended recent t nb)
  backfilling-Reaches [] recent t nb ordered there fit =
      Returns-weaken (Tried I n longest h date t) (Reaches I n longest h date t.queue t)
        (try_released_jobs I (basic I L) second w date (first_job_or_nullptr t.queue) nb t recent)
        (λ u r. (
          r.ordered,
          r.platform,
          r.steady,
          Tried-Reserved n longest h date t u r there,
          r.in_order,
          r.serves,
        ))
        (try_released_jobs-Tried I L second n longest h date upto w (first_job_or_nullptr t.queue)
          nb t recent ordered refl fit)
  backfilling-Reaches (e ∷ ended) recent t nb ordered there fit = elim (Bool-cases (ltb 0 nb)) [
    | inr full ↦ rw full (
      ordered,
      refl,
      λ id new. (new, λ d i. refl),
      there,
      λ order sorted. sorted,
      λ k served. served,
    )
    | inl some_left ↦
        rw some_left (traverse_queue-Reaches I L second n longest h date upto t.queue t ordered)
  ]

  -- The update of the present, the sorting and backfilling.
  abbrev deciding :
      SortableJobOrder
      → (epsilon : ℕ) → (before : Option Job) → (ended : List ℕ) → State I × List ℕ
      → Result (State I)
  deciding order epsilon before ended r =
      update_first_slice I epsilon date r.0.schedule >>= λ present.
      sort_queue_while_handling_priority_job I (basic I L) second order date before
        (record (r.0) { schedule = present })
      >>= λ t. nb_available I t.schedule >>= λ nb. backfilling ended (r.1) t nb

  -- An ordered state, in which the jobs that are not in the queue hold what they held from now on, the
  -- first job of the queue is in the schedule, and the queue is sorted.
  abbrev Decided : SortableJobOrder → Option Job → (s u : State I) → Type 0
  Decided order before s u =
      Ordered I n longest h date u
      × (u.nb_machines ≡ s.nb_machines)
      × ((id d i : ℕ)
          → Unlisted id s.queue
          → Apart id before
          → date ≤ d
          → held_at I id d i u.schedule.profile ≡ held_at I id d i s.schedule.profile)
      × Reserved I u
      × IsSorted order u.queue
      × ((k : Job) → Served I k s.queue s.decisions → Served I k u.queue u.decisions)

  deciding-Decided :
      (order : SortableJobOrder) (epsilon c : ℕ) (before : Option Job) (ended recent : List ℕ)
      → (s : State I) → c ≤ date
      → Plan I n longest h c before s.schedule
      → Queued I n longest before s.queue s.schedule
      → Contained I before s.schedule
      → InFirst I date s.schedule
      → All (λ id. (j : Job) × (w id ≡ some j) × Fits n longest j) recent
      → Returns (Decided order before s) (deciding order epsilon before ended (s, recent))
  deciding-Decided order epsilon c before ended recent s early plan (fits, distinct, waits) there
        inside fit =
      Returns-bind (PresentAt I n longest h date before s.schedule) (Decided order before s)
        (update_first_slice I epsilon date s.schedule) _
        (update_first_slice-Plan I n longest h epsilon c date before s.schedule early plan inside)
        (λ present (plan', contains, held).
          let now = record s { schedule = present } in
          let waits' =
            Waits-present before s.schedule present s.queue (λ id new. contains id ∙ new) waits in
          Returns-bind (Sorted I L second n longest h date order before now)
            (Decided order before s)
            (sort_queue_while_handling_priority_job I (basic I L) second order date before now) _
            (sort_queue_while_handling_priority_job-Ordered I L second n longest h date order before
              now upto plan' fits distinct waits'
              (Contained-kept before s.schedule present contains there))
            (λ t (ordered, platform, steady, reserved, sorted, serves).
              Returns-bind (λ nb. Unit {0}) (Decided order before s) (nb_available I t.schedule) _
                (available_in I date t.schedule t.schedule.profile refl
                  (ordered.plan.lasting date (omega arith) (omega arith)))
                (λ nb x.
                  Returns-weaken (Reaches I n longest h date t.queue t) (Decided order before s)
                    (backfilling ended recent t nb)
                    (λ u (ordered', platform', undisturbed, reserved', in_order, serves'). (
                      ordered',
                      platform' ∙ platform,
                      λ id d i new apart from.
                          let (out, same) = steady id new apart in
                          (undisturbed id out).1 d i ∙ same d i ∙ held id d i from,
                      reserved',
                      in_order order sorted,
                      λ k served. serves' k (serves k served),
                    ))
                    (backfilling-Reaches ended recent t nb ordered reserved fit))))

  -- With BasicResourceSelector, where no walltime is longer than a longest one, which is not 0, and three
  -- of that length are left before `h`: make_decisions at a date before the end of the first slice (once
  -- the ended jobs are removed), from an ordered state at a date not later on a platform of `n` machines,
  -- whose first queued job is in the schedule, when the jobs that have ended are in the schedule and not
  -- the priority job, and the released ones are new and in the workload: it ends without a fault, in an
  -- ordered state at that date, whose queue is sorted by the order and whose first queued job, if there is
  -- one, is in the schedule. A job of the former queue is in the queue or a message starts it. The jobs
  -- that are neither in the queue nor released nor ended hold the machines
  -- that they held, from now on.
  pub make_decisions-Ordered :
      (order : SortableJobOrder) (epsilon c : ℕ) (ended released : List ℕ) (s : State I)
      → c ≤ date
      → Ordered I n longest h c s
      → Reserved I s
      → s.nb_machines ≡ n
      → AllEnding I w s.schedule (first_job_or_nullptr s.queue) ended
      → Returns (InFirst I date) (end_jobs I second w s.schedule ended)
      → All (Timed w longest) released
      → AllNew I s.queue s.schedule released
      → Returns
          (λ u.
            Ordered I n longest h date u
            × (u.nb_machines ≡ n)
            × ((id d i : ℕ)
                → Unlisted id s.queue
                → NotAmong id ended
                → NotAmong id released
                → date ≤ d
                → held_at I id d i u.schedule.profile ≡ held_at I id d i s.schedule.profile)
            × Reserved I u
            × IsSorted order u.queue
            × ((k : Job) → Served I k s.queue s.decisions → Served I k u.queue u.decisions))
          (make_decisions I (basic I L) second w order epsilon date ended released s)
  unfolding make_decisions
  make_decisions-Ordered order epsilon c ended released s early ordered there platform ending inside
        timed new =
      let o = first_job_or_nullptr s.queue in
      let E = Ended I L second n longest h c w o ended s.schedule in
      Returns-bind (λ t. E t × InFirst I date t) _ (end_jobs I second w s.schedule ended) _
        (Returns-both E (InFirst I date) (end_jobs I second w s.schedule ended)
          (end_jobs-Ended I L second n longest h c w o ended s.schedule ordered.plan ending) inside)
        (λ t ((plan, fewer, left, stays), in_first).
          let s' = record s { schedule = t } in
          let waits = Waits-present o s.schedule t s.queue fewer ordered.waits in
          Returns-bind (Released I w n longest date o released s') _
            (release_jobs I w date s' released) _
            (release_jobs-Released I w n longest date o s' released platform timed
              (AllNew-after I s.queue s.schedule t released fewer new)
              (ordered.fits, ordered.distinct, waits))
            (λ (v, recent) (queued, same, kept, fit, listed, serves).
              Returns-weaken (Decided order o v) _ (deciding order epsilon o ended (v, recent))
                (λ u (ordered', platform', held, reserved, sorted, serves'). (
                  ordered',
                  platform' ∙ kept ∙ platform,
                  λ id d i unlisted out old from.
                      held id d i (listed id unlisted old) (first-Apart id s.queue unlisted) from
                      ∙ rw same (left id out d i),
                  reserved,
                  sorted,
                  λ k served. serves' k (serves k served),
                ))
                (deciding-Decided order epsilon c o ended recent v early (rw same plan) queued
                  (rw same (stays there)) (rw same in_first) fit)))
