-- ===== src/Schedule/Dates.antt =====
-- schedule.cpp, add_job_first_fit and query_wait: the date at which a job begins.
use mathlib.Core.Option
use schedule_test.Base.{
  ℕ, ◌+◌, ◌≤◌, ◌<◌, ◌≡◌, Option, true, false, inl, inr, Returns, Present, Present-map, arith,
}
use schedule_test.Intervals.Interface.{Intervals, IntervalLaws}
use schedule_test.Workload.{Job}
use schedule_test.Locality.{Selector, basic}
use schedule_test.Schedule.{
  JobAlloc, Schedule, alloc_of, add_job_first_fit, add_job_first_fit_after_time_slice, contains_job,
  infinite_horizon,
}
use schedule_test.Schedule.Placing.{first_fit}
use schedule_test.Schedule.Placing.Earliest.{FreeDuring, first_fit-finds}
use schedule_test.Schedule.Adding.{Planned, from_start}
use schedule_test.Schedule.State.{horizon-eq}

module _ (I : Intervals) (selector : Selector I) (second : ℕ) (j : Job) (s : Schedule I)
    (new : contains_job I j.id s ≡ false) where
  place :
      (P : Option (JobAlloc I) → Type 0)
      → P (Option.map (alloc_of I 0) (first_fit I selector (infinite_horizon I s) j s.profile))
      → Returns (λ r. P (r.1)) (add_job_first_fit_after_time_slice I second selector j 0 false s)
  place P h = elim (from_start I selector second j s) [
    | inl (fails, stays) ↦ rw stays (rw fails at h)
    | inr (f, found, adds) ↦ rw adds (rw found at h)
  ]

  -- The allocation is that of what the scan finds.
  add_job_first_fit-scan :
      (P : Option (JobAlloc I) → Type 0)
      → P (Option.map (alloc_of I 0) (first_fit I selector (infinite_horizon I s) j s.profile))
      → Returns (λ r. P (r.1)) (add_job_first_fit I second selector j false s)
  unfolding add_job_first_fit
  add_job_first_fit-scan P h = rw new (place P h)

module _ (I : Intervals) (L : IntervalLaws I) (second c : ℕ) (a : ℕ → I.Machines) (j : Job)
    (s : Schedule I) where
  -- With BasicResourceSelector, for a job with a walltime that is not in the schedule: if as many
  -- machines as it asks for are free from a date on for its walltime, which ends by the horizon, then
  -- add_job_first_fit ends without a fault and plans the job, at that date or before.
  pub add_job_first_fit-earliest :
      Planned I c a s
      → contains_job I j.id s ≡ false
      → j.has_walltime ≡ true
      → 0 < j.walltime
      → (date : ℕ) (machines : I.Machines) → c ≤ date
      → date + j.walltime ≤ infinite_horizon I s
      → I.size machines ≡ j.nb_requested_resources
      → FreeDuring I machines date (date + j.walltime) s.profile
      → Returns
          (λ r. Present (λ alloc. alloc.begin ≤ date) (r.1))
          (add_job_first_fit I second (basic I L) j false s)
  unfolding alloc_of
  add_job_first_fit-earliest (chain, v, near) new has lasts date machines from upto size free =
      add_job_first_fit-scan I (basic I L) second j s new (Present (λ alloc. alloc.begin ≤ date)) (
        Present-map (λ f. f.begin ≤ date) (λ alloc. alloc.begin ≤ date) _
          (first_fit I (basic I L) (infinite_horizon I s) j s.profile) (λ f h. h)
          (first_fit-finds I L j machines size s.nb_machines s.repair_machines a
            (infinite_horizon I s) date c s.profile chain v has lasts from
            (omega (arith, horizon-eq I s), free)))
