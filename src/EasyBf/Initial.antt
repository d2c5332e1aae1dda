-- ===== src/EasyBf/Initial.antt =====
-- easy_bf.cpp, on_simulation_start: the first ordered state.
use schedule_test.Base.{
  ℕ, ◌<◌, ◌≡◌, refl, [], ◌∷◌, List, true, false, arith, ltb, Bool-cases, inl, inr, Returns,
  Returns-bind,
}
use schedule_test.Intervals.Interface.{Intervals, IntervalLaws}
use schedule_test.Queue.{first_job_or_nullptr}
use schedule_test.Schedule.{infinity, new_schedule, contains_job}
use schedule_test.Schedule.Slices.{TimeSlice}
use schedule_test.Schedule.View.{free_at, covered}
use schedule_test.Schedule.Adding.{new_schedule-Planned}
use schedule_test.EasyBf.{on_simulation_start}
use schedule_test.EasyBf.Start.{Ordered}

module _ (I : Intervals) where
  -- A date at which a machine is free is in a slice.
  free-covered :
      (d i : ℕ) (ss : List (TimeSlice I)) → free_at I d i ss ≡ true → covered I d ss ≡ true
  unfolding free_at covered
  free-covered d i [] h = h
  free-covered d i (s ∷ ss) h = elim (Bool-cases (ltb d s.end)) [
    | inl here ↦ ground (arith, h)
    | inr after ↦ rw after (free-covered d i ss (rw after at h))
  ]

module _ (I : Intervals) (L : IntervalLaws I) where
  -- on_simulation_start on a platform with machines, before the horizon, ends without a fault in an
  -- ordered state with no job in the queue or in the
  -- schedule, whatever the longest walltime is.
  pub on_simulation_start-Ordered :
      (second n longest date : ℕ)
      → 0 < n
      → date < infinity second
      → Returns
          (λ s.
            Ordered I n longest (infinity second) date s
            × (s.nb_machines ≡ n)
            × (s.queue ≡ [])
            × ((id : ℕ) → contains_job I id s.schedule ≡ false))
          (on_simulation_start I second n date)
  unfolding on_simulation_start first_job_or_nullptr
  on_simulation_start-Ordered second n longest date some_machines before =
      let nobody : ℕ → I.Machines = λ id. I.empty in
      Returns-bind _ _ (new_schedule I second n date) _
        (new_schedule-Planned I L second n date nobody some_machines before)
        (λ s (planned, new, free). (
          record {
            plan = record {
              sound = (nobody, planned);
              lasting = λ d from below.
                  free-covered I d 0 s.profile (ground (arith, free d 0, some_machines));
              soon = λ d i from below low. ground (arith, free d i);
              then_free = λ d i from below low. ground (arith, free d i);
            };
            fits = tt;
            distinct = tt;
            waits = tt;
          },
          refl,
          refl,
          new,
        ))
