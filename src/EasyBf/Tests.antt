-- ===== src/EasyBf/Tests.antt =====
-- EasyBackfilling on a platform of four machines, with one second as the unit of time.
use schedule_test.Base.{
  suc, zero, subst, pos, ℕ, ◌≤◌, ◌<◌, ◌≡◌, refl, List, [], ◌∷◌, none, some, Bool, true, false, ◌==◌,
  if◌then◌else◌, Returns, Result, ok, err, arith, All,
}
use schedule_test.Intervals.Masks.{masks, masks-laws}
use schedule_test.Workload.{Job, Workload}
use schedule_test.Locality.{Selector, basic}
use schedule_test.Queue.{SortableJob, fcfs, first_job_or_nullptr}
use schedule_test.Queue.Sort.{IsSorted}
use schedule_test.Queue.Distinct.{Unlisted, Distinct}
use schedule_test.Schedule.{Schedule, infinity, new_schedule, contains_job}
use schedule_test.Schedule.View.{held_at, free_at}
use schedule_test.EasyBf.{
  State, on_simulation_start, backfill, sort_queue_while_handling_priority_job, try_released_jobs,
  make_decisions, end_jobs,
}
use schedule_test.EasyBf.Planning.{Fits, Plan}
use schedule_test.EasyBf.Backfill.{Backfilled, backfill-Backfilled, backfill-starts}
use schedule_test.EasyBf.Start.{Reserved, Served, Ordered, Waits}
use schedule_test.EasyBf.Sorting.{Sorted, sort_queue_while_handling_priority_job-Ordered}
use schedule_test.EasyBf.Attempts.{Tried}
use schedule_test.EasyBf.Trying.{try_released_jobs-Tried}
use schedule_test.EasyBf.Ending.{NotAmong, Timed, AllNew}
use schedule_test.EasyBf.Decisions.{make_decisions-Ordered}
use schedule_test.EasyBf.Deciding.{InFirst}
use schedule_test.Schedule.Placing.Earliest.{FreeDuring}
use schedule_test.EasyBf.Runs.{Called, begins, decides, Sane, Called-Sane}
use schedule_test.EasyBf.Initial.{on_simulation_start-Ordered}

abbrev job : ℕ → ℕ → ℕ → Job
job id n walltime = record {
  id = id;
  nb_requested_resources = n;
  walltime = walltime;
  has_walltime = true;
  is_reservation = false;
}

abbrev workload : Workload
workload id =
    if id == 1
    then some (job 1 3 10)
    else if id == 2
    then some (job 2 4 5)
    else if id == 3
    then some (job 3 1 4)
    else none

abbrev selector : Selector masks
selector = basic masks masks-laws

abbrev Fresh : State masks → Type 0
Fresh s =
    Ordered masks 4 10 (infinity 1) 0 s
    × (s.nb_machines ≡ 4)
    × (s.queue ≡ [])
    × ((id : ℕ) → contains_job masks id s.schedule ≡ false)

on_simulation_start-Ordered_example : Returns Fresh (on_simulation_start masks 1 4 0)
on_simulation_start-Ordered_example =
    on_simulation_start-Ordered masks masks-laws 1 4 10 0 (omega arith) (omega arith)

abbrev value_or : {A : Type 0} → A → Result A → A
value_or d (ok a) = a
value_or d (err e) = d

-- What a run returns has what the run is known to return.
value-Returns :
    {A : Type 0} (P : A → Type 0) (d : A) (r : Result A) → Returns P r → P (value_or d r)
value-Returns P d (ok a) h = h
value-Returns P d (err e) h = absurd h

abbrev no_schedule : Schedule masks
no_schedule = record {
  nb_machines = 0;
  profile = [];
  repair_machines = [];
  size = pos 0;
  nb_jobs_size = pos 0;
  nb_reservations_size = pos 0;
  smallest_time_slice_length = 0;
  largest_time_slice_length = 0;
  allocations = λ id. [];
}

abbrev nothing : State masks
nothing = record { nb_machines = 0; schedule = no_schedule; queue = []; decisions = [] }

abbrev start : State masks
start = value_or nothing (on_simulation_start masks 1 4 0)

start-Fresh : Fresh start
start-Fresh =
    value-Returns Fresh nothing (on_simulation_start masks 1 4 0)
      (on_simulation_start-Ordered masks masks-laws 1 4 10 0 (omega arith) (omega arith))

fits : (id n walltime : ℕ) → n ≤ 4 → 0 < walltime → walltime ≤ 10 → Fits 4 10 (job id n walltime)
fits id n walltime sized lasts short = record {
  sized = sized;
  timed = refl;
  lasts = lasts;
  short = short;
}

start-Plan : Plan masks 4 10 (infinity 1) 0 none start.schedule
unfolding first_job_or_nullptr
start-Plan =
    subst (λ qs. Plan masks 4 10 (infinity 1) 0 (first_job_or_nullptr qs) start.schedule)
      (start-Fresh.2) (start-Fresh.0.plan)

backfill-Backfilled_example :
    Returns
      (Backfilled masks masks-laws 1 4 10 (infinity 1) 0 none start (job 1 3 10))
      (backfill masks selector 1 0 start (job 1 3 10))
backfill-Backfilled_example =
    backfill-Backfilled masks masks-laws 1 4 10 (infinity 1) 0 none start (job 1 3 10) start-Plan
      (start-Fresh.3 1) (fits 1 3 10 (omega arith) (omega arith) (omega arith)) tt (omega arith)

-- The machines 0 to 2.
abbrev three : List Bool
three = true ∷ true ∷ true ∷ []

three-FreeDuring : FreeDuring masks three 0 10 start.schedule.profile
unfolding on_simulation_start new_schedule free_at
three-FreeDuring d zero inside has = ground arith
three-FreeDuring d (suc zero) inside has = ground arith
three-FreeDuring d (suc (suc zero)) inside has = ground arith
three-FreeDuring d (suc (suc (suc i))) inside has = cc has

backfill-starts_example :
    Returns
      (λ r.
        (r.1 ≡ true) × Backfilled masks masks-laws 1 4 10 (infinity 1) 0 none start (job 1 3 10) r)
      (backfill masks selector 1 0 start (job 1 3 10))
backfill-starts_example =
    backfill-starts masks masks-laws 1 4 10 (infinity 1) 0 none start (job 1 3 10) three start-Plan
      (start-Fresh.3 1) (fits 1 3 10 (omega arith) (omega arith) (omega arith)) tt (omega arith)
      refl three-FreeDuring

-- The three jobs are in the queue.
abbrev queued : ℕ → ℕ → ℕ → SortableJob
queued id n walltime = record { job = job id n walltime; release_date = 0; slowdown = 0 }

abbrev waiting : State masks
waiting = record start { queue = queued 1 3 10 ∷ queued 2 4 5 ∷ queued 3 1 4 ∷ [] }

jobs_fit : All (λ q. Fits 4 10 q.job) waiting.queue
jobs_fit = (
  fits 1 3 10 (omega arith) (omega arith) (omega arith),
  (
    fits 2 4 5 (omega arith) (omega arith) (omega arith),
    (fits 3 1 4 (omega arith) (omega arith) (omega arith), tt),
  ),
)

jobs-Distinct : Distinct waiting.queue
jobs-Distinct = ((refl, (refl, tt)), ((refl, tt), (tt, tt)))

nobody_planned : All (λ q. Waits masks none start.schedule q.job) waiting.queue
nobody_planned = (λ o. start-Fresh.3 1, (λ o. start-Fresh.3 2, (λ o. start-Fresh.3 3, tt)))

sort_queue_while_handling_priority_job-Ordered_example :
    Returns
      (Sorted masks masks-laws 1 4 10 (infinity 1) 0 fcfs none waiting)
      (sort_queue_while_handling_priority_job masks selector 1 fcfs 0 none waiting)
sort_queue_while_handling_priority_job-Ordered_example =
    sort_queue_while_handling_priority_job-Ordered masks masks-laws 1 4 10 (infinity 1) 0 fcfs none
      waiting (omega arith) start-Plan jobs_fit jobs-Distinct nobody_planned tt

-- The first job has started, the second one is planned.
abbrev reserved : State masks
reserved =
    value_or nothing (sort_queue_while_handling_priority_job masks selector 1 fcfs 0 none waiting)

reserved-Ordered : Ordered masks 4 10 (infinity 1) 0 reserved
reserved-Ordered =
    (value-Returns (Sorted masks masks-laws 1 4 10 (infinity 1) 0 fcfs none waiting) nothing
      (sort_queue_while_handling_priority_job masks selector 1 fcfs 0 none waiting)
      (sort_queue_while_handling_priority_job-Ordered masks masks-laws 1 4 10 (infinity 1) 0 fcfs
        none waiting (omega arith) start-Plan jobs_fit jobs-Distinct nobody_planned tt)).0

try_released_jobs-Tried_example : Returns (Tried masks 4 10 (infinity 1) 0 reserved) (
    try_released_jobs masks selector 1 workload 0
      (first_job_or_nullptr reserved.queue)
      1
      reserved
      (2 ∷ 3 ∷ []))
try_released_jobs-Tried_example =
    try_released_jobs-Tried masks masks-laws 1 4 10 (infinity 1) 0 (omega arith) workload
      (first_job_or_nullptr reserved.queue) 1 reserved (2 ∷ 3 ∷ []) reserved-Ordered refl
      ((job 2 4 5, refl, jobs_fit.1.0), ((job 3 1 4, refl, jobs_fit.1.1.0), tt))

start-InFirst : InFirst masks 0 start.schedule
unfolding on_simulation_start new_schedule
start-InFirst = (_, [], refl, omega arith)

start-empty : Returns (InFirst masks 0) (end_jobs masks 1 workload start.schedule [])
unfolding end_jobs
start-empty = start-InFirst

timed : All (Timed workload 10) (1 ∷ 2 ∷ 3 ∷ [])
timed = (
  (job 1 3 10, refl, refl, λ has. (omega arith, omega arith)),
  (
    (job 2 4 5, refl, refl, λ has. (omega arith, omega arith)),
    ((job 3 1 4, refl, refl, λ has. (omega arith, omega arith)), tt),
  ),
)

nothing-Unlisted : (id : ℕ) → Unlisted id start.queue
nothing-Unlisted id = rw (start-Fresh.2) tt

new_jobs : AllNew masks start.queue start.schedule (1 ∷ 2 ∷ 3 ∷ [])
new_jobs = (
  nothing-Unlisted 1,
  start-Fresh.3 1,
  (refl, (refl, tt)),
  (nothing-Unlisted 2, start-Fresh.3 2, (refl, tt), (nothing-Unlisted 3, start-Fresh.3 3, tt, tt)),
)

start-Reserved : Reserved masks start
unfolding first_job_or_nullptr
start-Reserved = rw (start-Fresh.2) tt

make_decisions-Ordered_example :
    Returns
      (λ u.
        Ordered masks 4 10 (infinity 1) 0 u
        × (u.nb_machines ≡ 4)
        × ((id d i : ℕ)
            → Unlisted id start.queue
            → NotAmong id []
            → NotAmong id (1 ∷ 2 ∷ 3 ∷ [])
            → 0 ≤ d
            → held_at masks id d i u.schedule.profile ≡ held_at masks id d i start.schedule.profile)
        × Reserved masks u
        × IsSorted fcfs u.queue
        × ((k : Job)
            → Served masks k start.queue start.decisions
            → Served masks k u.queue u.decisions))
      (make_decisions masks selector 1 workload fcfs 0 0 [] (1 ∷ 2 ∷ 3 ∷ []) start)
make_decisions-Ordered_example =
    make_decisions-Ordered masks masks-laws 1 4 10 (infinity 1) 0 (omega arith) (omega arith)
      workload fcfs 0 0 [] (1 ∷ 2 ∷ 3 ∷ []) start (omega arith) (start-Fresh.0) start-Reserved
      (start-Fresh.1) tt start-empty timed new_jobs

value-ok :
    {A : Type 0} (P : A → Type 0) (d : A) (r : Result A) → Returns P r → r ≡ ok (value_or d r)
value-ok P d (ok a) h = refl
value-ok P d (err e) h = absurd h

-- The state after the first call.
abbrev decided : State masks
decided =
    value_or nothing (make_decisions masks selector 1 workload fcfs 0 0 [] (1 ∷ 2 ∷ 3 ∷ []) start)

start-Called : Called masks masks-laws 1 4 10 workload fcfs 0 0 start
start-Called = begins 0 start (omega arith) (
    value-ok Fresh nothing (on_simulation_start masks 1 4 0)
      (on_simulation_start-Ordered masks masks-laws 1 4 10 0 (omega arith) (omega arith)))

decided-Called : Called masks masks-laws 1 4 10 workload fcfs 0 0 decided
decided-Called =
    decides 0 0 [] (1 ∷ 2 ∷ 3 ∷ []) start decided start-Called (omega arith) (omega arith) tt
      start-empty timed new_jobs
      (value-ok _ nothing
        (make_decisions masks selector 1 workload fcfs 0 0 [] (1 ∷ 2 ∷ 3 ∷ []) start)
        (make_decisions-Ordered masks masks-laws 1 4 10 (infinity 1) 0 (omega arith) (omega arith)
          workload fcfs 0 0 [] (1 ∷ 2 ∷ 3 ∷ []) start (omega arith) (start-Fresh.0) start-Reserved
          (start-Fresh.1) tt start-empty timed new_jobs))

Called-Sane_example : Sane masks masks-laws 1 4 10 workload fcfs 0 0 decided
Called-Sane_example =
    Called-Sane masks masks-laws 1 4 10 workload fcfs 0 (omega arith) (omega arith) 0 decided
      decided-Called
