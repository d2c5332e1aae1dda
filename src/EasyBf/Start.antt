-- ===== src/EasyBf/Start.antt =====
-- easy_bf.cpp, sort_queue_while_handling_priority_job: the priority job starts or is reserved.
use schedule_test.Base.{
  Bool, ℕ, ◌+◌, ◌≤◌, ◌≡◌, refl, ◌∙◌, List, [], ◌∷◌, Option, none, some, true, false, arith, ◌==◌,
  ◌||◌, Bool-cases, inl, inr, Returns, Returns-bind, Returns-weaken,
}
use schedule_test.Intervals.Interface.{Intervals, IntervalLaws}
use schedule_test.Workload.{Job, Decision, execute_job, reject_job}
use schedule_test.Locality.{basic}
use schedule_test.Queue.{SortableJob, SortableJobOrder, first_job_or_nullptr}
use schedule_test.Queue.Sort.{IsSorted}
use schedule_test.Queue.Entries.{Each}
use schedule_test.Queue.Distinct.{Unlisted, Distinct, contains_job-behind}
use schedule_test.Schedule.{Schedule, contains_job}
use schedule_test.Schedule.View.{held_at}
use schedule_test.Queue
use schedule_test.EasyBf.{State, insert, start_priority_jobs, send_execute}
use schedule_test.EasyBf.Planning.{Fits, Plan, Puts, insert-Puts}
use schedule_test.EasyBf.Keeping.{Other, Plan-starts, Plan-reserves}

module _ (I : Intervals) where
  -- A job that is not the priority job is not in the schedule.
  abbrev pub Waits : Option Job → Schedule I → Job → Type 0
  Waits o schedule j = Other j o → contains_job I j.id schedule ≡ false

  abbrev pub Unplanned : Schedule I → Job → Type 0
  Unplanned schedule j = contains_job I j.id schedule ≡ false

  -- A job with the identifier holds what it held.
  abbrev pub Undisturbed : ℕ → (s u : Schedule I) → Type 0
  Undisturbed id s u = (d i : ℕ) → held_at I id d i u.profile ≡ held_at I id d i s.profile

  -- The job, if there is one, is in the schedule.
  abbrev pub Contained : Option Job → Schedule I → Type 0
  Contained none s = Unit {0}
  Contained (some k) s = contains_job I k.id s ≡ true

  -- The first job of the queue, if there is one, has its reservation: it is in the schedule.
  abbrev pub Reserved : State I → Type 0
  Reserved s = Contained (first_job_or_nullptr s.queue) s.schedule

  -- Is there a message that starts the job?
  unfoldable pub is_sent : ℕ → List (Decision I) → Bool
  is_sent id [] = false
  is_sent id (execute_job k machines date ∷ ds) = k == id || is_sent id ds
  is_sent id (reject_job k date ∷ ds) = is_sent id ds

  -- The job waits in the queue, or a message starts it.
  abbrev pub Served : Job → List SortableJob → List (Decision I) → Type 0
  Served k qs ds = (Queue.contains_job k qs || is_sent k.id ds) ≡ true

  -- A job that is started has been taken out of the queue, where the others wait.
  pub Served-taken :
      (k j : Job) (qs rs : List SortableJob) (m : I.Machines) (date : ℕ) (ds : List (Decision I))
      → ((j.id == k.id) ≡ false → Queue.contains_job k qs ≡ true → Queue.contains_job k rs ≡ true)
      → Served k qs ds
      → Served k rs (execute_job j.id m date ∷ ds)
  unfolding is_sent
  Served-taken k j qs rs m date ds others served = elim (Bool-cases (j.id == k.id)) [
    | inl its ↦ ground (arith, its)
    | inr differ ↦ elim (Bool-cases (Queue.contains_job k qs)) [
      | inl there ↦ ground (arith, others differ there)
      | inr absent ↦ ground (arith, served, absent)
    ]
  ]

  -- The first one is started.
  pub Served-first :
      (k : Job) (q : SortableJob) (qs : List SortableJob) (m : I.Machines) (date : ℕ)
      → (ds : List (Decision I)) → Served k (q ∷ qs) ds
      → Served k qs (execute_job q.job.id m date ∷ ds)
  Served-first k q qs m date ds served =
      Served-taken k q.job (q ∷ qs) qs m date ds (contains_job-behind k q qs) served

module _ (I : Intervals) (n longest h : ℕ) where
  -- The jobs of the queue fit, no one is there twice, and at most the first is in the schedule, which
  -- reserves its machines.
  abbrev pub Ordered : (date : ℕ) → State I → Type 0
  Ordered date s = record {
    plan : Plan I n longest h date (first_job_or_nullptr s.queue) s.schedule;
    fits : Each (Fits n longest) s.queue;
    distinct : Distinct s.queue;
    waits : Each (Waits I (first_job_or_nullptr s.queue) s.schedule) s.queue;
  }

  -- From `s` to an ordered state in which the first job of the queue is in the schedule, with no job
  -- disturbed that is not in the list; if the list is sorted, so is the queue, and a job that waits in
  -- the list waits in the queue or is started.
  abbrev pub Reaches : (date : ℕ) → List SortableJob → (s u : State I) → Type 0
  Reaches date qs s u =
      Ordered date u
      × (u.nb_machines ≡ s.nb_machines)
      × ((id : ℕ) → Unlisted id qs → Unlisted id u.queue × Undisturbed I id s.schedule u.schedule)
      × Reserved I u
      × ((order : SortableJobOrder) → IsSorted order qs → IsSorted order u.queue)
      × ((k : Job) → Served I k qs s.decisions → Served I k u.queue u.decisions)

-- When a job that is not in the queue is put into the schedule, the others are in it as before.
pub Unplanned-others :
    {I : Intervals} (j : Job) (s t : Schedule I) (qs : List SortableJob)
    → ((id : ℕ) → contains_job I id t ≡ (j.id == id || contains_job I id s))
    → Unlisted j.id qs
    → Each (Unplanned I s) qs
    → Each (Unplanned I t) qs
Unplanned-others j s t [] contains new all = tt
Unplanned-others j s t (q ∷ qs) contains new all = (
  ground (arith, contains q.job.id, new.0, all.0),
  Unplanned-others j s t qs contains (new.1) (all.1),
)

pub Waits-others :
    {I : Intervals} (o : Option Job) (s : Schedule I) (qs : List SortableJob)
    → Each (Unplanned I s) qs
    → Each (Waits I o s) qs
Waits-others o s [] all = tt
Waits-others o s (q ∷ qs) all = (λ other. all.0, Waits-others o s qs (all.1))

module _ (I : Intervals) (L : IntervalLaws I) (second n longest h date : ℕ)
    (upto : date + (longest + longest + longest) ≤ h) where
  -- While no queued job is in the schedule: jobs are started until one cannot start, which is planned
  -- then. No job outside the queue is disturbed.
  pub start_priority_jobs-Ordered :
      (qs : List SortableJob) (s : State I)
      → Plan I n longest h date none s.schedule
      → Each (Fits n longest) qs
      → Distinct qs
      → Each (Unplanned I s.schedule) qs
      → Returns
          (Reaches I n longest h date qs s)
          (start_priority_jobs I (basic I L) second date s qs)
  unfolding start_priority_jobs send_execute first_job_or_nullptr
  start_priority_jobs-Ordered [] s plan fits distinct waits = (
    record { plan = plan; fits = tt; distinct = tt; waits = tt },
    refl,
    λ id new. (tt, λ d i. refl),
    tt,
    λ order sorted. tt,
    λ k served. served,
  )
  start_priority_jobs-Ordered (q ∷ qs) s plan fits distinct waits =
      Returns-bind (Puts I date (date + longest) q.job s.schedule) _
        (insert I (basic I L) second q.job s.schedule) _
        (insert-Puts I L second n longest h date none q.job s.schedule (date + longest) plan
          (waits.0) (fits.0) (omega arith) plan.soon (omega arith))
        (λ (t, alloc) (a, r, early, same).
          let same_others : (id : ℕ) → (q.job.id == id) ≡ false → Undisturbed I id s.schedule t =
            λ id differ d i. ground (arith, r.held id d i) in
          let rest = Unplanned-others q.job s.schedule t qs r.contains (distinct.0) (waits.1) in
          elim (Bool-cases alloc.started_in_first_slice) [
            | inl now ↦
                let started = send_execute I date q.job alloc (record s { schedule = t }) in
                rw now (
                  Returns-weaken (Reaches I n longest h date qs started)
                    (Reaches I n longest h date (q ∷ qs) s)
                    (start_priority_jobs I (basic I L) second date started qs)
                    (λ u (ordered, platform, steady, reserved, in_order, serves). (
                      ordered,
                      platform,
                      λ id new.
                          let (out, same_rest) = steady id (new.1) in
                          (out, λ d i. same_rest d i ∙ same_others id (new.0) d i),
                      reserved,
                      λ order sorted. in_order order (sorted.1),
                      λ k served.
                          serves k
                            (Served-first I k q qs alloc.used_machines date s.decisions served),
                    ))
                    (start_priority_jobs-Ordered qs started
                      (Plan-starts I n longest h date q.job s.schedule t alloc a r none plan
                        (fits.0) tt (ground (arith, r.started)) same)
                      (fits.1) (distinct.1) rest))
            | inr not_now ↦ rw not_now (
              record {
                plan =
                    Plan-reserves I n longest h date q.job s.schedule t alloc a r plan (fits.0)
                      early same;
                fits = fits;
                distinct = distinct;
                waits =
                    (λ other. absurd (ground (arith, other)), Waits-others (some q.job) t qs rest);
              },
              refl,
              λ id new. (new, λ d i. same_others id (new.0) d i),
              (let own : (q.job.id == q.job.id) ≡ true = ground arith in
                  ground (arith, r.contains q.job.id, own)),
              λ order sorted. sorted,
              λ k served. served,
            )
          ])
