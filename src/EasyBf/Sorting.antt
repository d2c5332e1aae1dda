-- ===== src/EasyBf/Sorting.antt =====
-- easy_bf.cpp, sort_queue_while_handling_priority_job: it ends with the first job started or planned.
use schedule_test.Base.{
  ℕ, ◌+◌, ◌≤◌, ◌≡◌, refl, ◌∙◌, List, [], ◌∷◌, Option, none, some, true, false, arith, ◌==◌, ◌&&◌,
  Bool-cases, inl, inr, not, Returns, Returns-bind, subst, Returns-weaken, ==_iff,
}
use schedule_test.Intervals.Interface.{Intervals, IntervalLaws}
use schedule_test.Workload.{Job}
use schedule_test.Locality.{basic}
use schedule_test.Queue.{SortableJob, SortableJobOrder, first_job_or_nullptr, sort_queue}
use schedule_test.Queue.Sort.{IsSorted, sort_queue-sorts}
use schedule_test.Queue.Entries.{Each, sort_queue-Each}
use schedule_test.Queue.Distinct.{Unlisted, Distinct, sort_queue-Distinct, contains_job-sort_queue}
use schedule_test.Schedule.{Schedule, contains_job, remove_job_if_exists}
use schedule_test.Schedule.State.{contains_job-Absent}
use schedule_test.Schedule.Placing.Took.{held_at-own}
use schedule_test.Schedule.Leaving.{remove_job_if_exists-Removed}
use schedule_test.EasyBf.{
  State, same_pointer, remove_if_exists, start_priority_jobs,
  sort_queue_while_handling_priority_job,
}
use schedule_test.EasyBf.Planning.{Room, Fits, Plan}
use schedule_test.EasyBf.Keeping.{Plan-frees}
use schedule_test.EasyBf.Start.{
  Waits, Unplanned, Undisturbed, Contained, Reserved, Served, Ordered, Reaches,
  start_priority_jobs-Ordered,
}

-- The identifier is not that of the job.
abbrev pub Apart : ℕ → Option Job → Type 0
Apart id none = Unit {0}
Apart id (some k) = (k.id == id) ≡ false

module _ (I : Intervals) (n longest h date : ℕ) where
  alias-Room :
      (from : ℕ) (j k : Job) (s : Schedule I)
      → (j.id == k.id) ≡ true
      → Room I n h from (some k) s
      → Room I n h from (some j) s
  alias-Room from j k s same room d i late upto low =
      rw ((==_iff j.id k.id).0 same) (room d i late upto low)

  -- Two pointers to one job are alike.
  Plan-alias :
      (o o' : Option Job) (s : Schedule I)
      → same_pointer o o' ≡ true
      → Plan I n longest h date o' s
      → Plan I n longest h date o s
  Plan-alias none none s same plan = plan
  Plan-alias none (some k) s same plan = absurd (cc same)
  Plan-alias (some j) none s same plan = absurd (cc same)
  Plan-alias (some j) (some k) s same plan = record {
    sound = plan.sound;
    lasting = plan.lasting;
    soon = alias-Room (date + longest) j k s same plan.soon;
    then_free = plan.then_free;
  }

  Contained-alias :
      (o o' : Option Job) (s : Schedule I)
      → same_pointer o o' ≡ true
      → Contained I o' s
      → Contained I o s
  Contained-alias none o' s same there = tt
  Contained-alias (some j) none s same there = absurd (cc same)
  Contained-alias (some j) (some k) s same there = rw ((==_iff j.id k.id).0 same) there

  Waits-alias :
      (o o' : Option Job) (s : Schedule I) (qs : List SortableJob)
      → same_pointer o o' ≡ true
      → Each (Waits I o' s) qs
      → Each (Waits I o s) qs
  Waits-alias o o' s [] same all = tt
  Waits-alias none none s (q ∷ qs) same all = all
  Waits-alias none (some k) s (q ∷ qs) same all = absurd (cc same)
  Waits-alias (some j) none s (q ∷ qs) same all = absurd (cc same)
  Waits-alias (some j) (some k) s (q ∷ qs) same all = (
    λ other. all.0 (subst (λ i. (q.job.id == i) ≡ false) ((==_iff j.id k.id).0 same) other),
    Waits-alias (some j) (some k) s qs same (all.1),
  )

  Waits-none :
      (s : Schedule I) (qs : List SortableJob) → Each (Waits I none s) qs → Each (Unplanned I s) qs
  Waits-none s [] all = tt
  Waits-none s (q ∷ qs) all = (all.0 tt, Waits-none s qs (all.1))

  pub Waits-out :
      (k : Job) (s t : Schedule I) (qs : List SortableJob)
      → ((id : ℕ) → contains_job I id t ≡ (not (k.id == id) && contains_job I id s))
      → Each (Waits I (some k) s) qs
      → Each (Unplanned I t) qs
  Waits-out k s t [] contains all = tt
  Waits-out k s t (q ∷ qs) contains all = (
    elim (Bool-cases (q.job.id == k.id)) [
      | inl same ↦ ground (arith, contains q.job.id)
      | inr other ↦ ground (arith, contains q.job.id, all.0 other)
    ],
    Waits-out k s t qs contains (all.1),
  )

  -- A job that is not in the schedule reserves nothing.
  pub Plan-nothing :
      (k : Job) (s : Schedule I)
      → contains_job I k.id s ≡ false
      → Plan I n longest h date (some k) s
      → Plan I n longest h date none s
  Plan-nothing k s new plan = record {
    sound = plan.sound;
    lasting = plan.lasting;
    soon = λ d i late upto low.
        let own : (k.id == k.id) ≡ true = ground arith in
        let holds = held_at-own I k.id k.id d i s.profile (contains_job-Absent I k.id s new) own in
        ground (arith, plan.soon d i late upto low, holds);
    then_free = plan.then_free;
  }

module _ (I : Intervals) (L : IntervalLaws I) (second n longest h date : ℕ) where
  -- The schedule no longer has the priority job, and no queued job is in it.
  abbrev pub Cleared : Option Job → List SortableJob → (s t : Schedule I) → Type 0
  Cleared o qs s t =
      Plan I n longest h date none t
      × Each (Unplanned I t) qs
      × ((id : ℕ) → Apart id o → Undisturbed I id s t)

  remove_if_exists-Cleared :
      (o : Option Job) (qs : List SortableJob) (s : Schedule I)
      → Plan I n longest h date o s
      → Each (Waits I o s) qs
      → Returns (Cleared o qs s) (remove_if_exists I (basic I L) second o s)
  unfolding remove_if_exists
  remove_if_exists-Cleared none qs s plan waits =
      (plan, Waits-none I n longest h date s qs waits, λ id apart d i. refl)
  remove_if_exists-Cleared (some k) qs s plan waits =
      let (a, planned) = plan.sound in
      Returns-bind _ (Cleared (some k) qs s) (remove_job_if_exists I second k s) _
        (remove_job_if_exists-Removed I L second date a k s planned)
        (λ r cases. elim cases [
          | inl (new, same) ↦ rw same (
            Plan-nothing I n longest h date k s new plan,
            Waits-out I n longest h date k s s qs
                (λ id. elim (Bool-cases (k.id == id)) [
                  | inl its ↦
                      let out =
                        subst (λ i. contains_job I i s ≡ false) ((==_iff k.id id).0 its) new in
                      ground (arith, out)
                  | inr other ↦ rw other refl
                ])
                waits,
            λ id apart d i. refl,
          )
          | inr (gone, out) ↦ (
            Plan-frees I n longest h date k s (r.0) a gone k (ground arith) plan,
            Waits-out I n longest h date k s (r.0) qs gone.contains waits,
            λ id apart d i. ground (arith, gone.held id d i),
          )
        ])

  -- An ordered state whose queue is sorted and whose first job, if there is one, is in the schedule; the
  -- jobs that waited wait or are started;
  -- the jobs that are neither in the queue nor the former priority job hold what they held.
  abbrev pub Sorted : SortableJobOrder → Option Job → (s u : State I) → Type 0
  Sorted order before s u =
      Ordered I n longest h date u
      × (u.nb_machines ≡ s.nb_machines)
      × ((id : ℕ)
          → Unlisted id s.queue
          → Apart id before
          → Unlisted id u.queue × Undisturbed I id s.schedule u.schedule)
      × Reserved I u
      × IsSorted order u.queue
      × ((k : Job) → Served I k s.queue s.decisions → Served I k u.queue u.decisions)

  -- With BasicResourceSelector: where the schedule is as planned, the queued jobs fit, none is queued
  -- twice and at most the former priority job is both queued and in the schedule, the former priority job,
  -- if there is one, is in the schedule, and three longest walltimes are left before `h`:
  -- sort_queue_while_handling_priority_job ends without a fault in an ordered state. Its queue is sorted by
  -- the order, and the first job of it, if there is one, is in the schedule. A job of the former queue is
  -- in the queue or a message starts it. The jobs that are neither in
  -- the former queue nor the former priority job are not in the queue afterwards and hold what they held.
  pub sort_queue_while_handling_priority_job-Ordered :
      (order : SortableJobOrder) (before : Option Job) (s : State I)
      → date + (longest + longest + longest) ≤ h
      → Plan I n longest h date before s.schedule
      → Each (Fits n longest) s.queue
      → Distinct s.queue
      → Each (Waits I before s.schedule) s.queue
      → Contained I before s.schedule
      → Returns
          (Sorted order before s)
          (sort_queue_while_handling_priority_job I (basic I L) second order date before s)
  unfolding sort_queue_while_handling_priority_job
  sort_queue_while_handling_priority_job-Ordered order before s upto plan fits distinct waits
        there =
      let queue = sort_queue order date s.queue in
      let o = first_job_or_nullptr queue in
      let in_order = (sort_queue-sorts order date s.queue).0 in
      let fits' = sort_queue-Each (Fits n longest) order date s.queue fits in
      let distinct' = sort_queue-Distinct order date s.queue distinct in
      let waits' = sort_queue-Each (Waits I before s.schedule) order date s.queue waits in
      elim (Bool-cases (same_pointer o before)) [
        | inl same ↦ rw same (
          record {
            plan = Plan-alias I n longest h date o before s.schedule same plan;
            fits = fits';
            distinct = distinct';
            waits = Waits-alias I n longest h date o before s.schedule queue same waits';
          },
          refl,
          λ id new apart.
              (sort_queue-Each (λ k. (k.id == id) ≡ false) order date s.queue new, λ d i. refl),
          Contained-alias I n longest h date o before s.schedule same there,
          in_order,
          λ k served. rw (contains_job-sort_queue order date k s.queue) served,
        )
        | inr changed ↦ rw changed (
            Returns-bind (Cleared before queue s.schedule) (Sorted order before s)
              (remove_if_exists I (basic I L) second before s.schedule) _
              (remove_if_exists-Cleared before queue s.schedule plan waits')
              (λ t (plan', unplanned, steady).
                let cleared = record s { schedule = t } in
                Returns-weaken (Reaches I n longest h date queue cleared) (Sorted order before s)
                  (start_priority_jobs I (basic I L) second date cleared queue)
                  (λ u (ordered, platform, undisturbed, reserved, kept, serves). (
                    ordered,
                    platform,
                    λ id new apart.
                        let (out, same) =
                          undisturbed id
                            (sort_queue-Each (λ k. (k.id == id) ≡ false) order date s.queue new) in
                        (out, λ d i. same d i ∙ steady id apart d i),
                    reserved,
                    kept order in_order,
                    λ k served. serves k (rw (contains_job-sort_queue order date k s.queue) served),
                  ))
                  (start_priority_jobs-Ordered I L second n longest h date upto queue cleared plan'
                    fits' distinct' unplanned)))
      ]
