-- ===== src/Schedule/Removing/Run.antt =====
-- remove_job_internal releases the slices of the job and merges them.
use schedule_test.Base.{
  ℕ, suc, arith, ◌≡◌, refl, List, [], ◌∷◌, ◌++◌, Option, none, some, true, All, Bool-cases,
  Option-cases, inl, inr, subst, ok, ◌>>=◌, Returns, Returns-bind, ◌&&◌, not,
}
use schedule_test.Intervals.Interface.{Intervals, IntervalLaws}
use schedule_test.Workload.{Job}
use schedule_test.Schedule.JobMap.{same_ids}
use schedule_test.Schedule.JobMap.Laws.{find-Assigned, has_job-eq_find}
use schedule_test.Schedule.Slices.{TimeSlice, slice_contains_job, release}
use schedule_test.Schedule.Slices.Account.{merge-Balanced, same_ids-available}
use schedule_test.Schedule.View.{Balanced, AllBalanced, RunFirst, Together}
use schedule_test.Schedule.Removing.{join, remove_run, remove_from, find_first_occurence_of_job}
use schedule_test.Schedule.Removing.Merging.{Merged, keep, two, Merged-refl}
use schedule_test.Schedule.Removing.Released.{
  release_if_there, release_if_there-absent, release_all, release_all-Absent, release_if_there-Left,
}

-- The slice before, as a list.
abbrev before : {A : Type 0} → Option A → List A
before none = []
before (some p) = p ∷ []

module _ (I : Intervals) (L : IntervalLaws I) (n : ℕ) (repair : I.Machines)
    (a : ℕ → I.Machines) where
  -- What is before the slice and the slice, after a join, in place of the two.
  abbrev Joins : (p s : TimeSlice I) → List (TimeSlice I) × TimeSlice I × List ℕ → Type 0
  Joins p s r =
      Balanced I n repair a r.1
      × ((ss us : List (TimeSlice I)) → Merged I (r.1 ∷ ss) us → Merged I (p ∷ s ∷ ss) (r.0 ++ us))

  join-Joins :
      (p s : TimeSlice I)
      → Balanced I n repair a p
      → Balanced I n repair a s
      → Returns (Joins p s) (join I (some p) s)
  unfolding join
  join-Joins p s v w = elim (Bool-cases (same_ids p.allocated_jobs s.allocated_jobs)) [
    | inr differ ↦ rw differ (w, λ ss us m. keep p (s ∷ ss) us m)
    | inl same ↦
        let equal = same_ids-available I L n repair a p s same v w in
        rw (same, equal) (merge-Balanced I L n repair a p s w, λ ss us m. two p s ss us same m)
  ]

  module _ (j : Job) (back : I.Machines)
      (same : (i : ℕ)
        → I.contains back i ≡ (I.contains (a j.id) i && not (I.contains repair i))) where
    remove_run-Merged :
        (p : TimeSlice I) (ss : List (TimeSlice I))
        → Balanced I n repair a p
        → AllBalanced I n repair a ss
        → RunFirst I j.id ss
        → Returns
            (λ r. Merged I (p ∷ release_all I j back ss) (r.0))
            (remove_run I j back (some p) ss)
    unfolding remove_run release_if_there
    remove_run-Merged p [] v w run = Merged-refl I (p ∷ [])
    remove_run-Merged p (s ∷ ss) v w (inr (gone, new)) =
        let stays = release_all-Absent I j back ss new in
        let goal =
          Returns-bind (Joins p s) (λ r. Merged I (p ∷ s ∷ ss) (r.0)) (join I (some p) s)
            (λ r. ok (r.0 ++ r.1 ∷ ss, r.2)) (join-Joins p s v (w.0))
            (λ r q. q.1 ss (r.1 ∷ ss) (Merged-refl I (r.1 ∷ ss))) in
        rw (gone, stays) goal
    remove_run-Merged p (s ∷ ss) v w (inl (there, run)) =
        let left = release_if_there-Left I L n repair a j back same s (w.0) in
        let s' = release I j back s in
        let here : release_if_there I j back s ≡ s' = rw there refl in
        let v' : Balanced I n repair a s' =
          subst (λ t. Balanced I n repair a t) here left.balanced in
        let goal : Returns
            (λ (r : List (TimeSlice I) × List ℕ). Merged I (p ∷ s' ∷ release_all I j back ss) (r.0))
            (join I (some p) s' >>= λ r.
              remove_run I j back (some (r.1)) ss >>= λ rest. ok (r.0 ++ rest.0, r.2 ++ rest.1)) =
          Returns-bind (Joins p s') (λ r. Merged I (p ∷ s' ∷ release_all I j back ss) (r.0))
            (join I (some p) s')
            (λ r. remove_run I j back (some (r.1)) ss >>= λ rest. ok (r.0 ++ rest.0, r.2 ++ rest.1))
            (join-Joins p s' v v')
            (λ r q.
              Returns-bind (λ rest. Merged I (r.1 ∷ release_all I j back ss) (rest.0))
                (λ rest. Merged I (p ∷ s' ∷ release_all I j back ss) (rest.0))
                (remove_run I j back (some (r.1)) ss) (λ rest. ok (r.0 ++ rest.0, r.2 ++ rest.1))
                (remove_run-Merged (r.1) ss (q.0) (w.1) run)
                (λ rest m. q.1 (release_all I j back ss) (rest.0) m)) in
        rw there goal

    -- From the first slice with the job.
    run_start-Merged :
        (previous : Option (TimeSlice I)) (s : TimeSlice I) (ss : List (TimeSlice I))
        → All (Balanced I n repair a) (before previous)
        → AllBalanced I n repair a (s ∷ ss)
        → slice_contains_job I j.id s ≡ true
        → RunFirst I j.id ss
        → Returns
            (λ r. Merged I (before previous ++ release_all I j back (s ∷ ss)) (r.0))
            (remove_run I j back previous (s ∷ ss))
    unfolding remove_run release_if_there join
    run_start-Merged (some p) s ss v w there run =
        remove_run-Merged p (s ∷ ss) (v.0) w (inl (there, run))
    run_start-Merged none s ss v w there run =
        let left = release_if_there-Left I L n repair a j back same s (w.0) in
        let s' = release I j back s in
        let here : release_if_there I j back s ≡ s' = rw there refl in
        let v' : Balanced I n repair a s' =
          subst (λ t. Balanced I n repair a t) here left.balanced in
        let rest : Returns
            (λ (r : List (TimeSlice I) × List ℕ). Merged I (s' ∷ release_all I j back ss) (r.0))
            (remove_run I j back (some s') ss >>= λ rest. ok (rest.0, rest.1)) =
          Returns-bind (λ r. Merged I (s' ∷ release_all I j back ss) (r.0))
            (λ r. Merged I (s' ∷ release_all I j back ss) (r.0)) (remove_run I j back (some s') ss)
            (λ rest. ok (rest.0, rest.1)) (remove_run-Merged s' ss v' (w.1) run) (λ r m. m) in
        rw there rest

  -- From the position of the first slice with the job; what precedes it stays.
  pub remove_from-Merged :
      (j : Job) (previous : Option (TimeSlice I)) (k : ℕ) (ss : List (TimeSlice I))
      → All (Balanced I n repair a) (before previous)
      → AllBalanced I n repair a ss
      → Together I j.id ss
      → find_first_occurence_of_job I j.id ss ≡ some k
      → Returns
          (λ r. Merged I (before previous ++ release_all I j (I.remove (a j.id) repair) ss) (r.0))
          (remove_from I repair j k previous ss)
  unfolding remove_from find_first_occurence_of_job
  remove_from-Merged j previous k [] v w run first = absurd (cc first)
  remove_from-Merged j previous k (s ∷ ss) v w (inl (there, run)) first =
      let start : k ≡ 0 = ground (arith, rw there at first) in
      elim (has_job-eq_find j.id s.allocated_jobs) [
        | inr (gone, e) ↦ absurd (cc gone)
        | inl (yes_there, (m, found)) ↦
            let assigned = find-Assigned a j.id m s.allocated_jobs w.0.assigned found in
            rw (start, found, assigned)
              (run_start-Merged j (I.remove (a j.id) repair)
                (λ i. L.contains-remove (a j.id) repair i) previous s ss v w there run)
      ]
  remove_from-Merged j none k (s ∷ ss) v w (inr (gone, run)) first =
      elim (Option-cases (find_first_occurence_of_job I j.id ss)) [
        | inl never ↦ absurd (cc (rw (gone, never) at first))
        | inr (l, later) ↦
            let position : k ≡ suc l = ground (arith, rw (gone, later) at first) in
            rw (position, release_if_there-absent I j (I.remove (a j.id) repair) s gone)
              (remove_from-Merged j (some s) l ss (w.0, tt) (w.1) run later)
      ]
  remove_from-Merged j (some p) k (s ∷ ss) v w (inr (gone, run)) first =
      let back = I.remove (a j.id) repair in
      let here : release_if_there I j back s ≡ s = release_if_there-absent I j back s gone in
      elim (Option-cases (find_first_occurence_of_job I j.id ss)) [
        | inl never ↦ absurd (cc (rw (gone, never) at first))
        | inr (l, later) ↦
            let position : k ≡ suc l = ground (arith, rw (gone, later) at first) in
            rw (position, here)
              (Returns-bind (λ r. Merged I (s ∷ release_all I j back ss) (r.0))
                (λ r. Merged I (p ∷ s ∷ release_all I j back ss) (r.0))
                (remove_from I repair j l (some s) ss) (λ r. ok (p ∷ r.0, r.1))
                (remove_from-Merged j (some s) l ss (w.0, tt) (w.1) run later)
                (λ r m. keep p (s ∷ release_all I j back ss) (r.0) m))
      ]
