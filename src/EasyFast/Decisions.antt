-- ===== src/EasyFast/Decisions.antt =====
-- The handler make_decisions of EasyBackfillingFast.
use schedule_test.Base.{ℕ, refl, List, [], ◌∷◌, arith, Returns, Returns-bind}
use schedule_test.Intervals.Interface.{Intervals, IntervalLaws}
use schedule_test.Workload.{AllRunning, AllKnown, Workload}
use schedule_test.EasyFast.Horizon.{total-nil}
use schedule_test.EasyFast.{State, end_jobs, serve, make_decisions, on_simulation_start}
use schedule_test.EasyFast.Invariant.{Queued, Inv}
use schedule_test.EasyFast.Ended.{serve-Inv, end_jobs-Queued}
use schedule_test.EasyFast.Release.{release_jobs-Inv}

module _ (I : Intervals) (L : IntervalLaws I) (w : Workload) where
  -- The state that the simulation starts from meets the invariant.
  pub on_simulation_start-Inv : (n : ℕ) → Inv I w (on_simulation_start I n)
  unfolding on_simulation_start
  on_simulation_start-Inv n = (
    (
      record {
        counted = L.size-first n;
        balanced = omega (arith, total-nil);
        sorted = tt;
        named = tt;
        tracked = tt;
        free = tt;
        exclusive = tt;
      },
      tt,
      refl,
    ),
    tt,
  )

  -- A call of make_decisions that is told of running jobs that ended, each once, and of released jobs of
  -- the workload ends without a failed assertion or a null pointer, and keeps the invariant: the count
  -- of free machines is right, with what the running jobs will release it is the platform, no machine
  -- is held twice, the horizon list is sorted, nobody waits without a priority job, and the
  -- priority job cannot start now but by its date it can.
  pub make_decisions-Inv :
      (date : ℕ) (ended released : List ℕ) (s : State I)
      → Inv I w s
      → AllRunning ended s.current_allocations
      → AllKnown w released
      → Returns (Inv I w) (make_decisions I w date ended released s)
  unfolding make_decisions end_jobs
  make_decisions-Inv date [] released s v running known =
      release_jobs-Inv I L w date s released v known
  make_decisions-Inv date (id ∷ ids) released s v running known =
      Returns-bind (Queued I w) (Inv I w) (end_jobs I w s (id ∷ ids)) _
        (end_jobs-Queued I L w s (id ∷ ids) v.0 running)
        λ s₁ q.
          Returns-bind (Inv I w) (Inv I w) (serve I date s₁) _ (serve-Inv I L w date s₁ q)
            λ s₂ v₂. release_jobs-Inv I L w date s₂ released v₂ known
