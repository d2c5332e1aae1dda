-- ===== src/Locality.antt =====
-- batsched4/src/locality.cpp and .hpp: how a scheduler chooses machines for a job. `Selector` is
-- what the method `fit` of the class ResourceSelector promises to its clients, and BasicResourceSelector
-- fills it. `Limited` is about LimitedRangeResourceSelector.
pub mod Limited
mod Tests
use schedule_test.Base.{◌≡◌, Option, some, none, leb, if◌then◌else◌, arith, subst, ◌≤◌, ◌↔◌}
use schedule_test.Intervals.Interface.{Intervals, IntervalLaws, Subset}
use schedule_test.Workload.{Job}

module _ (I : Intervals) where
  -- `fit` returns whether the job fits and, if it does, sets `allocated`.
  pub record Selector : Type 0 where
    pub fit : Job → I.Machines → Option I.Machines
    pub fit-Subset :
        (j : Job) (available allocated : I.Machines)
        → fit j available ≡ some allocated
        → Subset I allocated available
    pub size-fit :
        (j : Job) (available allocated : I.Machines)
        → fit j available ≡ some allocated
        → I.size allocated ≡ j.nb_requested_resources
    -- A job that does not fit on some machines does not fit on fewer.
    pub fit-shrink :
        (j : Job) (available fewer : I.Machines)
        → fit j available ≡ none
        → Subset I fewer available
        → fit j fewer ≡ none

  -- `BasicResourceSelector::fit`. Its assertion on the size is the law `size-left`.
  unfoldable pub basic_fit : Job → I.Machines → Option I.Machines
  basic_fit j available =
      if leb j.nb_requested_resources (I.size available)
      then some (I.left available j.nb_requested_resources)
      else none

module _ (I : Intervals) (L : IntervalLaws I) where
  pub basic_fit-Subset :
      (j : Job) (available allocated : I.Machines)
      → basic_fit I j available ≡ some allocated
      → Subset I allocated available
  unfolding basic_fit
  basic_fit-Subset j available allocated e =
      let same : I.left available j.nb_requested_resources ≡ allocated = ground arith in
      subst (λ m. Subset I m available) same (L.left-Subset available j.nb_requested_resources)

  pub size-basic_fit :
      (j : Job) (available allocated : I.Machines)
      → basic_fit I j available ≡ some allocated
      → I.size allocated ≡ j.nb_requested_resources
  unfolding basic_fit
  size-basic_fit j available allocated e =
      ground (arith, L.size-left available j.nb_requested_resources)

  pub basic_fit-shrink :
      (j : Job) (available fewer : I.Machines)
      → basic_fit I j available ≡ none
      → Subset I fewer available
      → basic_fit I j fewer ≡ none
  unfolding basic_fit
  basic_fit-shrink j available fewer e sub = ground (arith, L.size-remove available fewer sub)

  -- It finds machines exactly when enough are free.
  pub basic_fit_iff :
      (j : Job) (available : I.Machines)
      → ((m : I.Machines) × (basic_fit I j available ≡ some m))
        ↔ (j.nb_requested_resources ≤ I.size available)
  unfolding basic_fit
  basic_fit_iff j available =
      (λ (m, e). ground arith, λ h. (I.left available j.nb_requested_resources, ground arith))

  abbrev pub basic : Selector I
  basic = record {
    fit = basic_fit I;
    fit-Subset = basic_fit-Subset;
    size-fit = size-basic_fit;
    fit-shrink = basic_fit-shrink;
  }
