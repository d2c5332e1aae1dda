-- ===== src/EasyBf/Ending.antt =====
-- easy_bf.cpp, the start of make_decisions: jobs that have ended, and jobs that are released.
use schedule_test.Base.{
  none, ℕ, ◌≤◌, ◌<◌, ◌≡◌, refl, ◌∙◌, List, [], ◌∷◌, Option, some, true, false, arith, ◌==◌, ◌&&◌,
  Bool-cases, inl, inr, not, Returns, Returns-bind, subst, Returns-weaken, sym, All, ltb,
  All-append,
}
use schedule_test.Intervals.Interface.{Intervals, IntervalLaws}
use schedule_test.Workload.{Job, Workload}
use schedule_test.Queue.{SortableJob, append_job}
use schedule_test.Queue
use schedule_test.Queue.Entries.{Each, append_job-Each}
use schedule_test.Queue.Distinct.{Unlisted, Distinct, append_job-Distinct, contains_job-append_job}
use schedule_test.Schedule.{Schedule, contains_job, remove_job}
use schedule_test.Schedule.Leaving.{Removed, remove_job-Removed}
use schedule_test.EasyBf.{State, end_jobs, release_job, release_jobs}
use schedule_test.EasyBf.Planning.{Fits, Plan}
use schedule_test.EasyBf.Keeping.{Other, Plan-loses}
use schedule_test.EasyBf.Start.{Waits, Undisturbed, Contained, Served, is_sent}

-- The identifier is not in the list.
abbrev pub NotAmong : ℕ → List ℕ → Type 0
NotAmong id = All (λ e. (e == id) ≡ false)

module _ (I : Intervals) (w : Workload) where
  -- The jobs that have ended are in the schedule, each is named once, and the priority job is not
  -- among them.
  abbrev pub AllEnding : Schedule I → Option Job → List ℕ → Type 0
  AllEnding s o [] = Unit
  AllEnding s o (id ∷ ids) =
      ((j : Job) × (w id ≡ some j) × (j.id ≡ id) × Other j o)
      × (contains_job I id s ≡ true)
      × NotAmong id ids
      × AllEnding s o ids

  AllEnding-other :
      (id : ℕ) (s t : Schedule I) (o : Option Job) (ids : List ℕ)
      → ((k : ℕ) → contains_job I k t ≡ (not (id == k) && contains_job I k s))
      → NotAmong id ids
      → AllEnding s o ids
      → AllEnding t o ids
  AllEnding-other id s t o [] contains apart all = tt
  AllEnding-other id s t o (k ∷ ids) contains apart all = (
    all.0,
    ground (arith, contains k, apart.0, all.1),
    all.2,
    AllEnding-other id s t o ids contains (apart.1) (all.3),
  )

module _ (I : Intervals) (L : IntervalLaws I) (second n longest h c : ℕ) (w : Workload)
    (o : Option Job) where
  Contained-Other :
      (j : Job) (p : Option Job) (s t : Schedule I)
      → Other j p
      → ((k : ℕ) → contains_job I k t ≡ (not (j.id == k) && contains_job I k s))
      → Contained I p s
      → Contained I p t
  Contained-Other j none s t other contains there = tt
  Contained-Other j (some k) s t other contains there = ground (arith, contains k.id, other, there)

  -- The plan is kept, no job is new in the schedule, the other jobs hold what they held, and the priority
  -- job stays in the schedule.
  abbrev pub Ended : List ℕ → (s t : Schedule I) → Type 0
  Ended ids s t =
      Plan I n longest h c o t
      × ((id : ℕ) → contains_job I id s ≡ false → contains_job I id t ≡ false)
      × ((id : ℕ) → NotAmong id ids → Undisturbed I id s t)
      × (Contained I o s → Contained I o t)

  pub end_jobs-Ended :
      (ids : List ℕ) (s : Schedule I)
      → Plan I n longest h c o s
      → AllEnding I w s o ids
      → Returns (Ended ids s) (end_jobs I second w s ids)
  unfolding end_jobs
  end_jobs-Ended [] s plan all = (plan, λ id new. new, λ id out d i. refl, λ there. there)
  end_jobs-Ended (id ∷ ids) s plan all =
      let (j, is, own, other) = all.0 in
      let (a, planned) = plan.sound in
      let there : contains_job I j.id s ≡ true = rw own (all.1) in
      rw is (
        Returns-bind (Removed I c a j s) (Ended (id ∷ ids) s) (remove_job I second j s) _
          (remove_job-Removed I L second c a j s planned there)
          (λ t gone.
            let left = AllEnding-other I w j.id s t o ids gone.contains (rw own (all.2)) (all.3) in
            Returns-weaken (Ended ids t) (Ended (id ∷ ids) s) (end_jobs I second w t ids)
              (λ u (plan', fewer, steady, stays). (
                plan',
                λ k new. fewer k (ground (arith, gone.contains k, new)),
                λ k out d i.
                    let differ : (j.id == k) ≡ false = rw own (out.0) in
                    steady k (out.1) d i ∙ ground (arith, gone.held k d i, differ),
                λ held. stays (Contained-Other j o s t other gone.contains held),
              ))
              (end_jobs-Ended ids t (Plan-loses I n longest h c j s t a gone o other plan) left)))

module _ (w : Workload) (longest : ℕ) where
  -- A job of the workload whose walltime, if it has one, is neither 0 nor longer than the longest.
  abbrev pub Timed : ℕ → Type 0
  Timed id =
      (j : Job) × (w id ≡ some j)
      × (j.id ≡ id)
      × (j.has_walltime ≡ true → (0 < j.walltime) × (j.walltime ≤ longest))

module _ (I : Intervals) where
  -- The jobs are new: neither in the queue nor in the schedule, and each is named once.
  abbrev pub AllNew : List SortableJob → Schedule I → List ℕ → Type 0
  AllNew qs s [] = Unit
  AllNew qs s (id ∷ ids) =
      Unlisted id qs × (contains_job I id s ≡ false) × NotAmong id ids × AllNew qs s ids

  pub AllNew-after :
      (qs : List SortableJob) (s t : Schedule I) (ids : List ℕ)
      → ((id : ℕ) → contains_job I id s ≡ false → contains_job I id t ≡ false)
      → AllNew qs s ids
      → AllNew qs t ids
  AllNew-after qs s t [] fewer all = tt
  AllNew-after qs s t (id ∷ ids) fewer all =
      (all.0, fewer id (all.1), all.2, AllNew-after qs s t ids fewer (all.3))

  -- What holds of the queue: its jobs fit, each is there once, and at most the priority job is in the
  -- schedule.
  abbrev pub Queued : (n longest : ℕ) → Option Job → List SortableJob → Schedule I → Type 0
  Queued n longest o qs s = Each (Fits n longest) qs × Distinct qs × Each (Waits I o s) qs

module _ (I : Intervals) (w : Workload) (n longest date : ℕ) (o : Option Job) where
  AllNew-appended :
      (j : Job) (qs : List SortableJob) (s : Schedule I) (ids : List ℕ)
      → NotAmong j.id ids
      → AllNew I qs s ids
      → AllNew I (append_job j date qs) s ids
  AllNew-appended j qs s [] apart all = tt
  AllNew-appended j qs s (k ∷ ids) apart all =
      let differ : (j.id == k) ≡ false = ground (arith, apart.0) in
      (
        append_job-Each (λ x. (x.id == k) ≡ false) j date qs differ (all.0),
        all.1,
        all.2,
        AllNew-appended j qs s ids (apart.1) (all.3),
      )

  -- The schedule is as before; what is queued recently fits.
  abbrev pub Released : List ℕ → State I → State I × List ℕ → Type 0
  Released ids s (u, recent) =
      Queued I n longest o u.queue u.schedule
      × (u.schedule ≡ s.schedule)
      × (u.nb_machines ≡ s.nb_machines)
      × All (λ id. (j : Job) × (w id ≡ some j) × Fits n longest j) recent
      × ((id : ℕ) → Unlisted id s.queue → NotAmong id ids → Unlisted id u.queue)
      × ((k : Job) → Served I k s.queue s.decisions → Served I k u.queue u.decisions)

  -- Appending a job starts none and takes none out.
  Served-appended :
      (k j : Job) (s : State I)
      → Served I k s.queue s.decisions
      → Served I k (append_job j date s.queue) s.decisions
  Served-appended k j s served = elim (Bool-cases (Queue.contains_job k s.queue)) [
    | inl there ↦ ground (arith, contains_job-append_job j date k s.queue there)
    | inr absent ↦ ground (arith, served, absent)
  ]

  release_job-Released :
      (id : ℕ) (j : Job) (s : State I)
      → s.nb_machines ≡ n
      → w id ≡ some j
      → j.id ≡ id
      → (j.has_walltime ≡ true → (0 < j.walltime) × (j.walltime ≤ longest))
      → Unlisted id s.queue
      → contains_job I id s.schedule ≡ false
      → Queued I n longest o s.queue s.schedule
      → Released (id ∷ []) s (release_job I date s j)
  unfolding release_job is_sent
  release_job-Released id j s platform is own timed out new (fits, distinct, waits) =
      elim (Bool-cases (ltb s.nb_machines j.nb_requested_resources)) [
        | inl big ↦
            rw big ((fits, distinct, waits), refl, refl, tt, λ k old apart. old, λ k served. served)
        | inr small ↦ elim (Bool-cases j.has_walltime) [
          | inr endless ↦
              simp (small, endless)
                ((fits, distinct, waits), refl, refl, tt, λ k old apart. old, λ k served. served)
          | inl has ↦
              let fit : Fits n longest j = record {
                sized = ground (arith, small, platform);
                timed = has;
                lasts = (timed has).0;
                short = (timed has).1;
              } in
              simp (small, has)
                (
                  (
                    append_job-Each (Fits n longest) j date s.queue fit fits,
                    append_job-Distinct j date s.queue (rw own out) distinct,
                    append_job-Each (Waits I o s.schedule) j date s.queue (λ other. rw own new)
                        waits,
                  ),
                  refl,
                  refl,
                  ((j, subst (λ k. w k ≡ some j) (sym own) is, fit), tt),
                  λ k old apart.
                      append_job-Each (λ x. (x.id == k) ≡ false) j date s.queue (rw own (apart.0))
                        old,
                  λ k served. Served-appended k j s served,
                )
        ]
      ]

  AllNew-released :
      (id : ℕ) (j : Job) (s : State I) (ids : List ℕ)
      → j.id ≡ id
      → NotAmong id ids
      → AllNew I s.queue s.schedule ids
      → AllNew I ((release_job I date s j).0.queue) ((release_job I date s j).0.schedule) ids
  unfolding release_job
  AllNew-released id j s ids own apart all =
      elim (Bool-cases (ltb s.nb_machines j.nb_requested_resources)) [
        | inl big ↦ rw big all
        | inr small ↦ elim (Bool-cases j.has_walltime) [
          | inr endless ↦ simp (small, endless) all
          | inl has ↦
              simp (small, has) (AllNew-appended j s.queue s.schedule ids (rw own apart) all)
        ]
      ]

  -- The released jobs are rejected or queued, and the queue is as it should be.
  pub release_jobs-Released :
      (s : State I) (ids : List ℕ)
      → s.nb_machines ≡ n
      → All (Timed w longest) ids
      → AllNew I s.queue s.schedule ids
      → Queued I n longest o s.queue s.schedule
      → Returns (Released ids s) (release_jobs I w date s ids)
  unfolding release_jobs
  release_jobs-Released s [] platform timed new queued =
      (queued, refl, refl, tt, λ id old out. old, λ k served. served)
  release_jobs-Released s (id ∷ ids) platform timed new queued =
      let (j, is, own, limits) = timed.0 in
      let first = release_job-Released id j s platform is own limits (new.0) (new.1) queued in
      let rest = AllNew-released id j s ids own (new.2) (new.3) in
      let s' = (release_job I date s j).0 in
      rw is (
        Returns-bind (Released ids s') (Released (id ∷ ids) s) (release_jobs I w date s' ids) _
          (release_jobs-Released s' ids (first.2 ∙ platform) (timed.1) rest (first.0))
          (λ (u, recent) r. (
            r.0,
            r.1 ∙ first.1,
            r.2 ∙ first.2,
            All-append (λ k. (x : Job) × (w k ≡ some x) × Fits n longest x)
                ((release_job I date s j).1) recent (first.3) (r.3),
            λ k old out. r.4 k (first.4 k old (out.0, tt)) (out.1),
            λ k served. r.5 k (first.5 k served),
          )))
