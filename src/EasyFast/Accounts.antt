-- ===== src/EasyFast/Accounts.antt =====
-- Starting a job and ending one keep the account of machines of EasyBackfillingFast.
use schedule_test.Base.{
  ℕ, suc, ◌+◌, ◌≤◌, ◌<◌, ◌≡◌, ◌≢◌, List, [], ◌∷◌, some, arith, ◌==◌, lookup, delete, put, ◌∙◌,
  subst, Bool-cases, inl, inr, ==_iff,
}
use schedule_test.Intervals.Interface.{Intervals, IntervalLaws, Subset}
use schedule_test.Intervals.Exclusive.{lookup-FreeOf, Disjoint-sym, give_back, take_free}
use schedule_test.Workload.{Job, Workload}
use schedule_test.EasyFast.Horizon.{
  FinishedHorizonPoint, erase, find, total-insert_horizon_point, insert_horizon_point-Sorted,
  find-insert_horizon_point, find-insert_horizon_point_self, NodesBelow-mono, find_above,
  insert_horizon_point-NodesBelow, erase-NodesBelow, erase-SortedFrom, total-erase, find-erase,
}
use schedule_test.EasyFast.{Allocation, State, execute, end_job}
use schedule_test.EasyFast.Invariant.{Entry, Tracked, Core}

lt_irrefl : {m n : ℕ} → m < n → m ≢ n
lt_irrefl h e = absurd (omega arith)

module _ (I : Intervals) (w : Workload) where
  Tracked-mono :
      (m n : ℕ) (hs : List FinishedHorizonPoint) (rs : List (ℕ × Allocation I))
      → m ≤ n
      → Tracked I w m hs rs
      → Tracked I w n hs rs
  Tracked-mono m n hs [] h t = tt
  Tracked-mono m n hs ((id, a) ∷ rs) h t = (omega arith, t.1, t.2)

  -- Entries outlive a change of the list that leaves the points below `n` alone.
  Tracked-transfer :
      (n : ℕ) (hs hs' : List FinishedHorizonPoint) (rs : List (ℕ × Allocation I))
      → ((m : ℕ) → m < n → find m hs' ≡ find m hs)
      → Tracked I w n hs rs
      → Tracked I w n hs' rs
  Tracked-transfer n hs hs' [] same t = tt
  Tracked-transfer n hs hs' ((id, a) ∷ rs) same (below, (j, known, found, sized), rest) = (
    below,
    (j, known, same a.horizon_it below ∙ found, sized),
    Tracked-transfer a.horizon_it hs hs' rs (λ m h. same m (omega arith)) rest,
  )

  delete-Tracked :
      (id n : ℕ) (hs : List FinishedHorizonPoint) (rs : List (ℕ × Allocation I))
      → Tracked I w n hs rs
      → Tracked I w n hs (delete id rs)
  unfolding delete
  delete-Tracked id n hs [] t = tt
  delete-Tracked id n hs ((k, a) ∷ rs) (below, entry, rest) = elim (Bool-cases (k == id)) [
    | inl hit ↦ rw hit (Tracked-mono a.horizon_it n hs rs (omega arith) rest)
    | inr miss ↦ rw miss (below, entry, delete-Tracked id a.horizon_it hs rs rest)
  ]

  pub lookup-Entry :
      (id n : ℕ) (hs : List FinishedHorizonPoint) (rs : List (ℕ × Allocation I)) (a : Allocation I)
      → Tracked I w n hs rs
      → lookup id rs ≡ some a
      → (a.horizon_it < n) × Entry I w hs id a
  unfolding lookup
  lookup-Entry id n hs [] a t e = cc
  lookup-Entry id n hs ((k, b) ∷ rs) a (below, entry, rest) e = elim (Bool-cases (k == id)) [
    | inl hit ↦
        let same : b ≡ a = ground arith in
        let key : k ≡ id = (==_iff k id).0 hit in
        subst (λ i. (a.horizon_it < n) × Entry I w hs i a) key
          (subst (λ c. (c.horizon_it < n) × Entry I w hs k c) same (below, entry))
    | inr miss ↦
        let (lower, found) = lookup-Entry id b.horizon_it hs rs a rest (rw miss at e) in
        (omega arith, found)
  ]

  -- What is left once the entry of `id` is gone does not use its point.
  delete_avoids :
      (id n : ℕ) (hs : List FinishedHorizonPoint) (rs : List (ℕ × Allocation I)) (a : Allocation I)
      → Tracked I w n hs rs
      → lookup id rs ≡ some a
      → Tracked I w n (erase a.horizon_it hs) (delete id rs)
  unfolding lookup delete
  delete_avoids id n hs [] a t e = cc
  delete_avoids id n hs ((k, b) ∷ rs) a (below, entry, rest) e = elim (Bool-cases (k == id)) [
    | inl hit ↦
        let same : b ≡ a = ground arith in
        rw hit (
          Tracked-mono b.horizon_it n _ rs (omega arith) (
            Tracked-transfer b.horizon_it hs _ rs
              (λ m h.
                find-erase m a.horizon_it hs
                  (λ q. lt_irrefl (subst (λ c. m < c.horizon_it) same h) q))
              rest))
    | inr miss ↦
        let e' : lookup id rs ≡ some a = (rw miss at e) in
        let lower : a.horizon_it < b.horizon_it =
          (lookup-Entry id b.horizon_it hs rs a rest e').0 in
        let (j, known, found, sized) = entry in
        rw miss (
          below,
          (
            j,
            known,
            find-erase b.horizon_it a.horizon_it hs (λ q. absurd (omega arith)) ∙ found,
            sized,
          ),
          delete_avoids id b.horizon_it hs rs a rest e',
        )
  ]

module _ (I : Intervals) (L : IntervalLaws I) (w : Workload) where
  -- Starting a job that fits.
  pub execute-Core :
      (date : ℕ) (s : State I) (j : Job)
      → Core I w s
      → w j.id ≡ some j
      → j.nb_requested_resources ≤ s.nb_available_machines
      → Core I w (execute I date s j)
  unfolding execute put
  execute-Core date s j c known fits =
      let n = j.nb_requested_resources in
      let room : n ≤ I.size s.available_machines = omega (arith, c.counted) in
      let machines = I.left s.available_machines n in
      let sub : Subset I machines s.available_machines = L.left-Subset s.available_machines n in
      let point : FinishedHorizonPoint = record {
        node = s.next_node;
        nb_released_machines = n;
        date = date + j.walltime;
      } in
      let owned =
        take_free I (λ a. a.machines) L j.id s.available_machines s.current_allocations
          (record { machines = machines; horizon_it = s.next_node }) c.free c.exclusive sub in
      record {
        counted = omega (
          arith,
          L.size-remove s.available_machines machines sub,
          L.size-left s.available_machines n room,
          c.counted,
        );
        balanced = omega (arith, total-insert_horizon_point point s.horizons, c.balanced);
        sorted = insert_horizon_point-Sorted point s.horizons c.sorted;
        named =
            insert_horizon_point-NodesBelow (suc s.next_node) point s.horizons (omega arith)
              (NodesBelow-mono s.next_node (suc s.next_node) s.horizons (omega arith) c.named);
        tracked = (
          omega arith,
          (
            j,
            known,
            find-insert_horizon_point_self point s.horizons
                (find_above s.next_node s.horizons c.named),
            L.size-left s.available_machines n room,
          ),
          Tracked-transfer I w s.next_node s.horizons _ _
              (λ m h. find-insert_horizon_point point m s.horizons (lt_irrefl h))
              (delete-Tracked I w j.id s.next_node s.horizons s.current_allocations c.tracked),
        );
        free = owned.0;
        exclusive = owned.1;
      }

  -- Taking the machines of a job that has ended back.
  pub end_job-Core :
      (s : State I) (id : ℕ) (j : Job) (a : Allocation I)
      → Core I w s
      → w id ≡ some j
      → lookup id s.current_allocations ≡ some a
      → Core I w (end_job I s id j a)
  unfolding end_job
  end_job-Core s id j a c known running =
      let (below, (k, known', found, sized)) =
        lookup-Entry I w id s.next_node s.horizons s.current_allocations a c.tracked running in
      let same : k.nb_requested_resources ≡ j.nb_requested_resources = ground arith in
      let away = Disjoint-sym I L a.machines s.available_machines (
        lookup-FreeOf I (λ a. a.machines) id s.available_machines s.current_allocations a c.free
          running) in
      let owned =
        give_back I (λ a. a.machines) L id s.available_machines s.current_allocations a c.free
          c.exclusive running in
      record {
        counted =
            omega
              (arith, L.size-insert s.available_machines a.machines away, sized, same, c.counted);
        balanced = omega (
          arith,
          total-erase a.horizon_it k.nb_requested_resources s.horizons found,
          same,
          c.balanced,
        );
        sorted = erase-SortedFrom a.horizon_it 0 s.horizons c.sorted;
        named = erase-NodesBelow s.next_node a.horizon_it s.horizons c.named;
        tracked =
            delete_avoids I w id s.next_node s.horizons s.current_allocations a c.tracked running;
        free = owned.0;
        exclusive = owned.1;
      }
