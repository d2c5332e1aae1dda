-- ===== src/EasyBf3/Checks.antt =====
-- The checks of EasyBackfilling3 keep the account of machines.
use schedule_test.Base.{
  ℕ, ◌+◌, subst, ◌≤◌, ◌<◌, ◌≡◌, refl, sym, ap, ◌∙◌, List, [], ◌∷◌, Option, none, some, true, false,
  arith, Bool-cases, inl, inr, ◌==◌, ==_iff, leb,
}
use schedule_test.Intervals.Interface.{Intervals, IntervalLaws}
use schedule_test.Workload.{Job, Workload}
use schedule_test.EasyBf3.{
  PriorityJob, ScheduledJob, State, set_priority, reserve, handle_scheduled_job, sort_schedule,
  check_priority_job, check_next_job, can_backfill,
}
use schedule_test.EasyBf3.Ascending.{
  AscendingFrom, Reservation, sort_schedule-AscendingFrom, reserve-Reservation,
}
use schedule_test.EasyBf3.Accounts.{Core, sort_schedule-Core, handle_scheduled_job-Core}

module _ (w : Workload) where
  -- The size kept for the priority job is that of the job of its name.
  abbrev pub NamedBy : ℕ → Option ℕ → Type 0
  NamedBy n none = Unit {0}
  NamedBy n (some id) = (j : Job) × (w id ≡ some j) × (n ≡ j.nb_requested_resources)

  abbrev pub Named : PriorityJob → Type 0
  Named p = NamedBy p.requested_resources p.id

  set_priority-Named :
      (p : PriorityJob) (j : Job)
      → w j.id ≡ some j
      → Named p
      → Named (set_priority p j)
        × ((set_priority p j).requested_resources ≡ j.nb_requested_resources)
  unfolding set_priority
  set_priority-Named p j known h = named p.id refl h
    where
      named :
          (o : Option ℕ)
          → p.id ≡ o
          → NamedBy p.requested_resources o
          → Named (set_priority p j)
            × ((set_priority p j).requested_resources ≡ j.nb_requested_resources)
      named none e h = rw (e, set_priority) ((j, known, refl), refl)
      named (some id) e (k, k_known, size) = elim (Bool-cases (id == j.id)) [
        | inl same ↦
            let one : id ≡ j.id = (==_iff id j.id).0 same in
            let job : k ≡ j = cc in
            rw (e, set_priority)
              (rw same (
                subst (NamedBy p.requested_resources) (sym e) (k, k_known, size),
                subst (λ (x : Job). p.requested_resources ≡ x.nb_requested_resources) job size,
              ))
        | inr changed ↦ rw (e, set_priority) (rw changed ((j, known, refl), refl))
      ]

  reserve-Named :
      (I : Intervals) (count : ℕ) (p : PriorityJob) (j : Job) (sjs : List (ScheduledJob I))
      → Named p
      → Named (reserve I count p j sjs)
  unfolding reserve
  reserve-Named I count p j [] h = h
  reserve-Named I count p j (sj ∷ sjs) h =
      elim (Bool-cases (leb p.requested_resources (count + sj.requested_resources))) [
        | inl enough ↦ rw enough h
        | inr more ↦ rw more (reserve-Named I (count + sj.requested_resources) p j sjs h)
      ]

-- Between two steps of a call: the account of machines, the size of the priority job, and a schedule
-- in ascending order.
abbrev pub Running : (I : Intervals) → Workload → State I → Type 0
Running I w s = Core I s × Named w s.p_job × AscendingFrom I 0 s.scheduled_jobs

module _ (I : Intervals) (L : IntervalLaws I) (w : Workload) (date : ℕ) where
  pub check_priority_job-Running :
      (s : State I) (j : Job)
      → w j.id ≡ some j
      → Running I w s
      → Running I w ((check_priority_job I date s j).0)
  unfolding check_priority_job sort_schedule handle_scheduled_job
  check_priority_job-Running s j known (c, named, up) =
      let p = set_priority s.p_job j in
      let (named', size) = set_priority-Named w s.p_job j known named in
      let s' : State I = record s { p_job = p } in
      elim (Bool-cases (leb p.requested_resources s.nb_available_machines)) [
        | inl fits ↦ rw fits (
          sort_schedule-Core I ((handle_scheduled_job I date s' j).0)
              (handle_scheduled_job-Core I L date s' j (ground (arith, size)) c),
          named',
          sort_schedule-AscendingFrom I ((handle_scheduled_job I date s' j).0),
        )
        | inr lack ↦
            rw lack (c, reserve-Named w I s.nb_available_machines p j s.scheduled_jobs named', up)
      ]

  fits_of_can_backfill :
      (s : State I) (j : Job)
      → can_backfill I date s j ≡ true
      → j.nb_requested_resources ≤ s.nb_available_machines
  unfolding can_backfill
  fits_of_can_backfill s j h = ground arith

  pub check_next_job-Running :
      (s : State I) (j : Job) → Running I w s → Running I w ((check_next_job I date s j).0)
  unfolding check_next_job sort_schedule handle_scheduled_job
  check_next_job-Running s j (c, named, up) = elim (Bool-cases (can_backfill I date s j)) [
    | inl fits ↦ rw fits (
      sort_schedule-Core I ((handle_scheduled_job I date s j).0)
          (handle_scheduled_job-Core I L date s j (fits_of_can_backfill s j fits) c),
      named,
      sort_schedule-AscendingFrom I ((handle_scheduled_job I date s j).0),
    )
    | inr lack ↦ rw lack (c, named, up)
  ]

  pub queue-check_next_job : (s : State I) (j : Job) → (check_next_job I date s j).0.queue ≡ s.queue
  unfolding check_next_job sort_schedule handle_scheduled_job
  queue-check_next_job s j = elim (Bool-cases (can_backfill I date s j)) [
    | inl fits ↦ rw fits refl
    | inr lack ↦ rw lack refl
  ]

  set_priority-id : (p : PriorityJob) (j : Job) → (set_priority p j).id ≡ some j.id
  unfolding set_priority
  set_priority-id p j = named p.id refl
    where
      named : (o : Option ℕ) → p.id ≡ o → (set_priority p j).id ≡ some j.id
      named none e = rw (e, set_priority) refl
      named (some id) e = elim (Bool-cases (id == j.id)) [
        | inl same ↦
            let one : id ≡ j.id = (==_iff id j.id).0 same in
            rw (e, set_priority) (rw same (e ∙ ap some one))
        | inr changed ↦ rw (e, set_priority) (rw changed refl)
      ]

  -- On a job of the workload that the platform can hold but that lacks machines now, `check_priority_job`
  -- schedules nothing and leaves a reservation for that job: by its date enough machines are expected
  -- to be free, those that it counts as extra included.
  pub check_priority_job-reserves :
      (s : State I) (j : Job)
      → w j.id ≡ some j
      → Running I w s
      → j.nb_requested_resources ≤ s.nb_machines
      → s.nb_available_machines < j.nb_requested_resources
      → ((check_priority_job I date s j).1 ≡ none)
        × Reservation I s.nb_available_machines 0
            (some j.id)
            j
            s.scheduled_jobs
            ((check_priority_job I date s j).0.p_job)
  unfolding check_priority_job
  check_priority_job-reserves s j known (c, named, up) holds lack =
      let p = set_priority s.p_job j in
      let size = (set_priority-Named w s.p_job j known named).1 in
      let refused : leb p.requested_resources s.nb_available_machines ≡ false =
        ground (arith, size) in
      let r =
        reserve-Reservation I s.nb_available_machines 0 p j s.scheduled_jobs up size lack
          (omega (arith, c.balanced)) in
      rw refused (
        refl,
        subst
            (λ i.
              Reservation I s.nb_available_machines 0 i j s.scheduled_jobs
                (reserve I s.nb_available_machines p j s.scheduled_jobs))
            (set_priority-id s.p_job j) r,
      )
