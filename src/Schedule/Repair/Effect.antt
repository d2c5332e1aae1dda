-- ===== src/Schedule/Repair/Effect.antt =====
-- add_repair_machine and remove_repair_machines on the schedule.
use schedule_test.Base.{
  ℕ, ◌≡◌, refl, ◌∙◌, List, [], ◌∷◌, Bool, true, false, All, arith, ◌&&◌, ◌||◌, not, Bool-cases, inl,
  inr,
}
use schedule_test.Intervals.Interface.{Intervals, IntervalLaws, Disjoint}
use schedule_test.Schedule.{Schedule}
use schedule_test.Schedule.Slices.{TimeSlice}
use schedule_test.Schedule.View.{free_at, held_at, covered, AllBalanced}
use schedule_test.Schedule.Adding.{Planned}
use schedule_test.Schedule.Repair.{add_repair_machine, remove_repair_machines}
use schedule_test.Schedule.Repair.Account.{Unallocated, withdraw-Changes, give_back-Changes}

module _ (I : Intervals) (L : IntervalLaws I) (n : ℕ) (a : ℕ → I.Machines) where
  same_repair-AllBalanced :
      (repair repair' : I.Machines) (ss : List (TimeSlice I))
      → ((i : ℕ) → I.contains repair' i ≡ I.contains repair i)
      → AllBalanced I n repair a ss
      → AllBalanced I n repair' a ss
  same_repair-AllBalanced repair repair' [] same v = tt
  same_repair-AllBalanced repair repair' (t ∷ ts) same v = (
    record {
      counted = v.0.counted;
      placed = λ i. ground (arith, v.0.placed i, same i);
      allocated = v.0.allocated;
      assigned = v.0.assigned;
      unique = v.0.unique;
    },
    same_repair-AllBalanced repair repair' ts same (v.1),
  )

  -- A machine in repair is not free.
  free_at-repair :
      (repair : I.Machines) (d i : ℕ) (ss : List (TimeSlice I))
      → AllBalanced I n repair a ss
      → I.contains repair i ≡ true
      → free_at I d i ss ≡ false
  unfolding free_at
  free_at-repair repair d i [] v has = refl
  free_at-repair repair d i (t ∷ ts) v has =
      ground (arith, v.0.placed i, free_at-repair repair d i ts (v.1) has)

  -- A machine of the platform that is neither allocated nor in repair is free.
  free_at-idle :
      (repair machine : I.Machines) (d i : ℕ) (ss : List (TimeSlice I))
      → AllBalanced I n repair a ss
      → All (Unallocated I L n a machine) ss
      → I.contains machine i ≡ true
      → I.contains repair i ≡ false
      → free_at I d i ss ≡ covered I d ss
  unfolding free_at covered
  free_at-idle repair machine d i [] v idle has whole = refl
  free_at-idle repair machine d i (t ∷ ts) v idle has whole = ground (
    arith,
    v.0.placed i,
    v.0.allocated i,
    idle.0.0 i has,
    idle.0.1 i has,
    L.contains-first n i,
    free_at-idle repair machine d i ts (v.1) (idle.1) has whole,
  )

module _ (I : Intervals) (L : IntervalLaws I) (c : ℕ) (a : ℕ → I.Machines) (s : Schedule I) where
  -- From the schedule `s` to `t`, a machine is free at a date as `f` says; nothing else changes for any
  -- date, and the invariant holds.
  abbrev pub Frees : (f : ℕ → ℕ → Bool) → (t : Schedule I) → Type 0
  Frees f t = record {
    planned : Planned I c a t;
    free : (d i : ℕ) → free_at I d i t.profile ≡ f d i;
    held : (id d i : ℕ) → held_at I id d i t.profile ≡ held_at I id d i s.profile;
    cover : (d : ℕ) → covered I d t.profile ≡ covered I d s.profile;
  }

  -- add_repair_machine of machines of the platform that are allocated to no job in any slice: they
  -- are not free at any date, nothing else changes, and the invariant holds.
  pub add_repair_machine-Frees :
      (machine : I.Machines)
      → Planned I c a s
      → All (Unallocated I L s.nb_machines a machine) s.profile
      → Frees
          (λ d i. free_at I d i s.profile && not (I.contains machine i))
          ((add_repair_machine I machine s).0)
  unfolding add_repair_machine
  add_repair_machine-Frees machine (chain, v, near) idle =
      let n = s.nb_machines in
      let repair = s.repair_machines in
      elim (Bool-cases (I.is_empty (I.remove machine repair))) [
        | inr more ↦
            let r = withdraw-Changes I L n a repair machine c s.profile chain v idle in
            rw more (record {
              planned = (r.chain, r.balanced, λ id. (r.follows id).together (near id));
              free = r.free;
              held = r.held;
              cover = r.cover;
            })
        | inl none_new ↦
            let old = (L.is_empty_iff (I.remove machine repair)).0 none_new in
            rw none_new (record {
              planned = (
                chain,
                same_repair-AllBalanced I L n a repair (I.insert repair machine) s.profile
                    (λ i. ground (
                      arith,
                      old i,
                      L.contains-remove machine repair i,
                      L.contains-insert repair machine i,
                    ))
                    v,
                near,
              );
              free = λ d i. ground (
                arith,
                old i,
                L.contains-remove machine repair i,
                free_at-repair I L n a repair d i s.profile v,
              );
              held = λ id d i. refl;
              cover = λ d. refl;
            })
      ]

  -- remove_repair_machines: of the given machines those in repair are free at every date of the
  -- schedule, nothing else changes, and the invariant holds.
  pub remove_repair_machines-Frees :
      (machines : I.Machines)
      → Planned I c a s
      → Frees
          (λ d i.
            free_at I d i s.profile
            || covered I d s.profile && I.contains s.repair_machines i && I.contains machines i)
          ((remove_repair_machines I machines s).0)
  unfolding remove_repair_machines
  remove_repair_machines-Frees machines (chain, v, near) =
      let n = s.nb_machines in
      let repair = s.repair_machines in
      elim (Bool-cases (I.is_empty (I.inter repair machines))) [
        | inr more ↦
            let r = give_back-Changes I L n a repair machines c s.profile chain v in
            rw more (record {
              planned = (r.chain, r.balanced, λ id. (r.follows id).together (near id));
              free = r.free;
              held = r.held;
              cover = r.cover;
            })
        | inl none_there ↦
            let old = (L.is_empty_iff (I.inter repair machines)).0 none_there in
            rw none_there (record {
              planned = (
                chain,
                same_repair-AllBalanced I L n a repair (I.remove repair machines) s.profile
                    (λ i. ground (
                      arith,
                      old i,
                      L.contains-inter repair machines i,
                      L.contains-remove repair machines i,
                    ))
                    v,
                near,
              );
              free = λ d i. ground (arith, old i, L.contains-inter repair machines i);
              held = λ id d i. refl;
              cover = λ d. refl;
            })
      ]

module _ (I : Intervals) (L : IntervalLaws I) (c : ℕ) (a : ℕ → I.Machines) (s : Schedule I) where
  -- Machines of the platform that are allocated to no job in any slice and are not in repair: after
  -- add_repair_machine and remove_repair_machines of them, at every date the same machines are free,
  -- and held by each job, as before, and the invariant holds.
  pub remove_repair_machines-add_repair_machine :
      (machine : I.Machines)
      → Planned I c a s
      → All (Unallocated I L s.nb_machines a machine) s.profile
      → Disjoint I machine s.repair_machines
      → Frees I L c a s
          (λ d i. free_at I d i s.profile)
          ((remove_repair_machines I machine ((add_repair_machine I machine s).0)).0)
  unfolding add_repair_machine
  remove_repair_machines-add_repair_machine machine planned idle whole =
      let t = (add_repair_machine I machine s).0 in
      let into = add_repair_machine-Frees I L c a s machine planned idle in
      let back = remove_repair_machines-Frees I L c a t machine into.planned in
      record {
        planned = back.planned;
        free = λ d i. ground (
          arith,
          back.free d i,
          into.free d i,
          into.cover d,
          L.contains-insert s.repair_machines machine i,
          free_at-idle I L s.nb_machines a s.repair_machines machine d i s.profile (planned.1) idle,
          whole i,
        );
        held = λ id d i. back.held id d i ∙ into.held id d i;
        cover = λ d. back.cover d ∙ into.cover d;
      }
