-- ===== src/Schedule/View.antt =====
-- What a list of time slices means: which machines are free, and which a job holds, at every date; and
-- the invariant of such a list. The dates of a slice are those from its begin to before its end.
pub mod Follows
use schedule_test.Base.{
  ℕ, ◌+◌, ◌<◌, ◌≡◌, List, [], ◌∷◌, none, some, Bool, true, false, All, ltb, leb, ◌&&◌, bit, sum_of,
  if◌then◌else◌, ◌⊎◌,
}
use schedule_test.Intervals.Interface.{Intervals}
use schedule_test.Workload.{Job}
use schedule_test.Schedule.JobMap.{find_job}
use schedule_test.Schedule.JobMap.Laws.{Assigned}
use schedule_test.Schedule.JobMap.Unique.{Unique}
use schedule_test.Schedule.Slices.{TimeSlice, slice_contains_job}

-- The date lies in the period.
abbrev pub within : (begin end t : ℕ) → Bool
within begin end t = leb begin t && ltb t end

module _ (I : Intervals) where
  unfoldable pub holds : ℕ → ℕ → TimeSlice I → Bool
  holds id i s = elim (find_job id s.allocated_jobs) [
    | none ↦ false
    | some machines ↦ I.contains machines i
  ]

  -- Is the machine `i` free at the date `t`?
  unfoldable pub free_at : (t i : ℕ) → List (TimeSlice I) → Bool
  free_at t i [] = false
  free_at t i (s ∷ ss) =
      if ltb t s.end then leb s.begin t && I.contains s.available_machines i else free_at t i ss

  -- Does the job hold the machine `i` at the date `t`?
  unfoldable pub held_at : (id t i : ℕ) → List (TimeSlice I) → Bool
  unfolding holds
  held_at id t i [] = false
  held_at id t i (s ∷ ss) = if ltb t s.end then leb s.begin t && holds id i s else held_at id t i ss

  -- Does a slice contain the date?
  unfoldable pub covered : ℕ → List (TimeSlice I) → Bool
  covered d [] = false
  covered d (s ∷ ss) = if ltb d s.end then leb s.begin d else covered d ss

  -- The slices follow one another from `b` on, none empty, with their lengths.
  abbrev pub ChainFrom : ℕ → List (TimeSlice I) → Type 0
  ChainFrom b [] = Unit {0}
  ChainFrom b (s ∷ ss) = (s.begin ≡ b) × (b < s.end) × (b + s.length ≡ s.end) × ChainFrom s.end ss

  -- How many jobs hold the machine.
  abbrev pub holders : ℕ → List (Job × I.Machines) → ℕ
  holders i = sum_of (λ e. bit (I.contains e.1 i))

  -- The account of one slice: of `n` machines each is free, in repair or held by one job, and no
  -- other machine is; the count and the set of allocated machines agree; and the machines of each
  -- job are those that `a` assigns to it, and no job is there twice.
  abbrev pub Balanced :
      (n : ℕ) → (repair : I.Machines) → (a : ℕ → I.Machines) → TimeSlice I → Type 0
  Balanced n repair a s = record {
    counted : I.size s.available_machines ≡ s.nb_available_machines;
    placed :
        (i : ℕ)
        → bit (I.contains s.available_machines i)
            + holders i s.allocated_jobs
            + bit (I.contains repair i)
          ≡ bit (ltb i n);
    allocated : (i : ℕ) → bit (I.contains s.allocated_machines i) ≡ holders i s.allocated_jobs;
    assigned : Assigned a s.allocated_jobs;
    unique : Unique s.allocated_jobs;
  }

  -- The job is in no slice.
  abbrev pub Absent : ℕ → List (TimeSlice I) → Type 0
  Absent id = All (λ s. slice_contains_job I id s ≡ false)

  -- Every slice is balanced.
  abbrev pub AllBalanced : (n : ℕ) → I.Machines → (ℕ → I.Machines) → List (TimeSlice I) → Type 0
  AllBalanced n repair a = All (Balanced n repair a)

  -- The slices with the job are the first ones.
  abbrev pub RunFirst : ℕ → List (TimeSlice I) → Type 0
  RunFirst id [] = Unit {0}
  RunFirst id (s ∷ ss) =
      (slice_contains_job I id s ≡ true) × RunFirst id ss
      ⊎ (slice_contains_job I id s ≡ false) × Absent id ss

  -- The slices with the job are consecutive.
  abbrev pub Together : ℕ → List (TimeSlice I) → Type 0
  Together id [] = Unit {0}
  Together id (s ∷ ss) =
      (slice_contains_job I id s ≡ true) × RunFirst id ss
      ⊎ (slice_contains_job I id s ≡ false) × Together id ss
