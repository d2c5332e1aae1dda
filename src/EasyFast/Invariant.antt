-- ===== src/EasyFast/Invariant.antt =====
-- The invariant of EasyBackfillingFast between two calls of make_decisions.
use schedule_test.Base.{ℕ, ◌+◌, ◌≤◌, ◌<◌, ◌≡◌, List, [], ◌∷◌, Option, none, some, All}
use schedule_test.Intervals.Interface.{Intervals}
use schedule_test.Intervals.Exclusive.{FreeOf, Exclusive}
use schedule_test.Workload.{Job, Workload}
use schedule_test.EasyFast.Horizon.{
  FinishedHorizonPoint, find, total, released_by, SortedFrom, NodesBelow,
}
use schedule_test.EasyFast.{PriorityJob, Allocation, State}

module _ (I : Intervals) (w : Workload) where
  -- A running job holds as many machines as it asked for, and its point in the list releases them.
  abbrev pub Entry : List FinishedHorizonPoint → ℕ → Allocation I → Type 0
  Entry hs id a =
      (j : Job) × (w id ≡ some j)
      × (find a.horizon_it hs ≡ some j.nb_requested_resources)
      × (I.size a.machines ≡ j.nb_requested_resources)

  -- Every running job has an entry; the names of their points descend from `n`.
  abbrev pub Tracked : ℕ → List FinishedHorizonPoint → List (ℕ × Allocation I) → Type 0
  Tracked n hs [] = Unit
  Tracked n hs ((id, a) ∷ rs) = (a.horizon_it < n) × Entry hs id a × Tracked a.horizon_it hs rs

  -- The account of machines.
  abbrev pub Core : State I → Type 0
  Core s = record {
    counted : I.size s.available_machines ≡ s.nb_available_machines;
    balanced : s.nb_available_machines + total s.horizons ≡ s.nb_machines;
    sorted : SortedFrom 0 s.horizons;
    named : NodesBelow s.next_node s.horizons;
    tracked : Tracked s.next_node s.horizons s.current_allocations;
    free : FreeOf I (λ a. a.machines) s.available_machines s.current_allocations;
    exclusive : Exclusive I (λ a. a.machines) s.current_allocations;
  }

  -- A job of the workload that the platform can hold.
  abbrev pub Valid : ℕ → Job → Type 0
  Valid n j = (w j.id ≡ some j) × (j.nb_requested_resources ≤ n)

  -- The machines free now and those released by the date that the priority job was given are enough
  -- for it.
  abbrev pub Reserved : State I → PriorityJob → Type 0
  Reserved s p =
      p.job.nb_requested_resources
      ≤ s.nb_available_machines + released_by p.completion_time s.horizons

  -- Nobody waits unless a priority job does, and that one has its reservation.
  abbrev pub Planned : State I → Option PriorityJob → Type 0
  Planned s none = s.pending_jobs ≡ []
  Planned s (some p) = Valid s.nb_machines p.job × Reserved s p

  -- The priority job cannot start now.
  abbrev pub Blocked : ℕ → Option PriorityJob → Type 0
  Blocked n none = Unit
  Blocked n (some p) = n < p.job.nb_requested_resources

  -- Not now, but by its date.
  abbrev pub Promised : State I → PriorityJob → Type 0
  Promised s p = (s.nb_available_machines < p.job.nb_requested_resources) × Reserved s p

  abbrev pub Queued : State I → Type 0
  Queued s = Core s × All (Valid s.nb_machines) s.pending_jobs × Planned s s.priority_job

  abbrev pub Inv : State I → Type 0
  Inv s = Queued s × Blocked s.nb_available_machines s.priority_job
