-- ===== src/Workload.antt =====
-- batsched4/src/json_workload.hpp: the jobs that the schedulers share, and the decisions that they
-- send. A job identifier, a string that the code here only compares, is a number; so are the dates
-- and walltimes, counted in one fixed unit of simulated time.
use schedule_test.Base.{ℕ, ◌≡◌, Bool, Option, some, List, [], ◌∷◌, All, lookup, delete}
use schedule_test.Intervals.Interface.{Intervals}

-- The fields of `struct Job` that the modelled schedulers read. A job without a walltime has the walltime
-- -1 in the code, and any number here, with `has_walltime` false.
pub record Job : Type 0 where
  pub id : ℕ
  pub nb_requested_resources : ℕ
  pub walltime : ℕ
  pub has_walltime : Bool
  -- `purpose == "reservation"`.
  pub is_reservation : Bool

-- `Workload::operator[]`, which asserts that the job exists: `none` is the failed assertion.
abbrev pub Workload : Type 0
Workload = ℕ → Option Job

-- The messages of SchedulingDecision that the schedulers add, newest first in a list of them.
pub data Decision (I : Intervals) : Type 0 where
  execute_job : (id : ℕ) → (machines : I.Machines) → (date : ℕ) → Decision I
  reject_job : (id : ℕ) → (date : ℕ) → Decision I

-- The jobs that end are running, each once.
abbrev pub AllRunning {ℓ} : {V : Type ℓ} → List ℕ → List (ℕ × V) → Type ℓ
AllRunning {V} [] rs = Unit
AllRunning {V} (id ∷ ids) rs = (a : V) × (lookup id rs ≡ some a) × AllRunning ids (delete id rs)

-- The jobs are in the workload, each under its own identifier.
abbrev pub AllKnown : Workload → List ℕ → Type 0
AllKnown w = All (λ id. (j : Job) × (w id ≡ some j) × (j.id ≡ id))
