-- ===== src/Schedule/Leaving.antt =====
-- schedule.cpp, remove_job: what it does to the schedule, and that it undoes add_job_first_fit.
use schedule_test.Base.{
  ℕ, ==_iff, Bool-cases, ◌<◌, ◌≡◌, refl, sym, subst, ◌∙◌, ap, Option, none, some, true, false,
  arith, ◌==◌, ◌&&◌, ◌||◌, not, false, ◌⊎◌, Option-cases, inl, inr, Returns, Returns-bind,
  Returns-weaken, Result, ok, ◌>>=◌, pred_ℤ, pred_ℤ-suc_ℤ,
}
use schedule_test.Intervals.Interface.{Intervals, IntervalLaws}
use schedule_test.Workload.{Job}
use schedule_test.Locality.{Selector}
use schedule_test.Schedule.{
  JobAlloc, Schedule, add_job_first_fit, remove_job, remove_job_first_occurence,
  remove_job_internal, contains_job, remove_job_if_exists,
}
use schedule_test.Schedule.View.Follows.{Together-all, Together-Absent}
use schedule_test.Schedule.View.{free_at, held_at, covered, Absent}
use schedule_test.Schedule.Removing.{find_first_occurence_of_job, remove_from}
use schedule_test.Schedule.Removing.Merging.{Merged, Merged-Same, Merged-Absent}
use schedule_test.Schedule.Removing.Released.{release_all, release_all-Gone}
use schedule_test.Schedule.Removing.Run.{remove_from-Merged}
use schedule_test.Schedule.JobMap.Laws.{assign}
use schedule_test.Schedule.Placing.Took.{held_at-own}
use schedule_test.Schedule.Adding.{Planned, add_job_first_fit-Added, AddedOrNot}
use schedule_test.Schedule.State.{
  find_first_occurence-Absent, contains_job-Absent, contains_job-gone, contains_job-alike,
  set_lengths-keeps,
}

module _ (I : Intervals) where
  -- From the schedule `s` to `t`: what the job held is free and nothing else has changed for any date.
  -- The invariant holds, and the job is in no slice.
  abbrev pub Removed : (c : ℕ) → (a : ℕ → I.Machines) → Job → (s t : Schedule I) → Type 0
  Removed c a j s t = record {
    planned : Planned I c a t;
    free :
        (d i : ℕ)
        → free_at I d i t.profile ≡ (free_at I d i s.profile || held_at I j.id d i s.profile);
    held :
        (id d i : ℕ)
        → held_at I id d i t.profile ≡ (not (j.id == id) && held_at I id d i s.profile);
    contains : (id : ℕ) → contains_job I id t ≡ (not (j.id == id) && contains_job I id s);
    cover : (d : ℕ) → covered I d t.profile ≡ covered I d s.profile;
    counted : t.size ≡ pred_ℤ s.size;
  }

  contains_job-find :
      (id : ℕ) (s : Schedule I)
      → contains_job I id s ≡ true
      → (k : ℕ) × (find_first_occurence_of_job I id s.profile ≡ some k)
  unfolding contains_job
  contains_job-find id s h = elim (Option-cases (find_first_occurence_of_job I id s.profile)) [
    | inr found ↦ found
    | inl gone ↦
        let lacks : contains_job I id s ≡ false = rw (gone, contains_job) refl in absurd (cc lacks)
  ]

module _ (I : Intervals) (L : IntervalLaws I) (second c : ℕ) (a : ℕ → I.Machines) (j : Job)
    (s : Schedule I) where
  internal-Removed :
      (k : ℕ)
      → Planned I c a s
      → find_first_occurence_of_job I j.id s.profile ≡ some k
      → Returns (Removed I c a j s) (remove_job_internal I second j k s)
  unfolding remove_job_internal
  internal-Removed k (chain, v, near) found =
      let back = I.remove (a j.id) s.repair_machines in
      Returns-bind (λ r. Merged I (release_all I j back s.profile) (r.0)) (Removed I c a j s)
        (remove_from I s.repair_machines j k none s.profile) _
        (remove_from-Merged I L s.nb_machines s.repair_machines a j none k s.profile tt v
          (near j.id) found)
        (λ r m.
          let gone =
            release_all-Gone I L s.nb_machines s.repair_machines a j back
              (λ i. L.contains-remove (a j.id) s.repair_machines i) c s.profile chain v in
          let merged =
            Merged-Same I L s.nb_machines s.repair_machines a c (release_all I j back s.profile)
              (r.0) gone.chain gone.balanced m in
          set_lengths-keeps I (Removed I c a j s) second (r.1) _ (λ x y. record {
            planned = (
              merged.chain,
              merged.balanced,
              λ id. (merged.follows id).together (
                  Together-all I j.id s.profile (release_all I j back s.profile) gone.follows
                    (Together-Absent I j.id (release_all I j back s.profile) gone.absent) near id),
            );
            free = λ d i. merged.free d i ∙ gone.free d i;
            held = λ id d i. merged.held id d i ∙ gone.held id d i;
            contains = λ id. elim (Bool-cases (j.id == id)) [
              | inl its ↦
                  let new =
                    Merged-Absent I j.id (release_all I j back s.profile) (r.0) gone.absent m in
                  rw its (
                    contains_job-gone I id _
                      (subst (λ k. Absent I k (r.0)) ((==_iff j.id id).0 its) new))
              | inr other ↦
                  let out = gone.follows id other in
                  let joined = merged.follows id in
                  rw other (
                    contains_job-alike I id s _ (λ h. joined.absent (out.absent h))
                      (λ h. out.back (joined.back h)))
            ];
            cover = λ d. merged.cover d ∙ gone.cover d;
            counted = refl;
          }))

  -- remove_job of a job that is in the schedule ends without a fault, so that the
  -- assertion before a merge holds: what the job held is free, nothing else is free or held that was
  -- not, the job is in no slice, and the invariant holds.
  pub remove_job-Removed :
      Planned I c a s
      → contains_job I j.id s ≡ true
      → Returns (Removed I c a j s) (remove_job I second j s)
  unfolding remove_job_first_occurence
  remove_job-Removed planned there =
      let (k, found) = contains_job-find I j.id s there in
      rw found (internal-Removed k planned found)

  -- remove_job_if_exists ends without a fault: it leaves a schedule without the job alone, and
  -- otherwise removes the job.
  pub remove_job_if_exists-Removed :
      Planned I c a s
      → Returns
          (λ r.
            (contains_job I j.id s ≡ false) × (r ≡ (s, false))
            ⊎ Removed I c a j s (r.0) × (r.1 ≡ true))
          (remove_job_if_exists I second j s)
  unfolding remove_job_if_exists
  remove_job_if_exists-Removed planned =
      elim (Option-cases (find_first_occurence_of_job I j.id s.profile)) [
        | inl gone ↦
            let eq : remove_job_if_exists I second j s ≡ ok (s, false) =
              rw (gone, remove_job_if_exists) refl in
            let absent = find_first_occurence-Absent I j.id s.profile gone in
            rw eq (inl (contains_job-gone I j.id s absent, refl))
        | inr (k, found) ↦
            let eq : remove_job_if_exists I second j s
                ≡ remove_job_internal I second j k s >>= λ t. ok (t, true) =
              rw (found, remove_job_if_exists) refl in
            rw eq (
              Returns-bind (Removed I c a j s) _ (remove_job_internal I second j k s) _
                (internal-Removed k planned found) (λ t r. inr (r, refl)))
      ]

module _ (I : Intervals) (L : IntervalLaws I) (selector : Selector I) (second c : ℕ)
    (a : ℕ → I.Machines) (j : Job) (s : Schedule I) where
  -- The same machines are free and held at every date, and as many jobs are planned.
  abbrev pub Restored : (t : Schedule I) → Type 0
  Restored t =
      ((d i : ℕ) → free_at I d i t.profile ≡ free_at I d i s.profile)
      × ((id d i : ℕ) → held_at I id d i t.profile ≡ held_at I id d i s.profile)
      × (t.size ≡ s.size)

  -- If the job is planned, remove it.
  abbrev pub and_remove : Schedule I × Option (JobAlloc I) → Result (Schedule I)
  and_remove (t, none) = ok t
  and_remove (t, some alloc) = remove_job I second j t

  after :
      Absent I j.id s.profile
      → (r : Schedule I × Option (JobAlloc I)) → AddedOrNot I c a j s r
      → Returns Restored (and_remove r)
  after new (t, none) same = subst Restored (sym same) (λ d i. refl, λ id d i. refl, refl)
  after new (t, some alloc) h =
      let own : (j.id == j.id) ≡ true = ground arith in
      let there : contains_job I j.id t ≡ true = h.contains j.id ∙ rw own refl in
      let m = alloc.used_machines in
      Returns-weaken (Removed I c (assign a j.id m) j t) Restored (remove_job I second j t)
        (λ u r. (
          λ d i. ground (arith, r.free d i, h.free d i, h.held j.id d i, h.room d i),
          λ id d i.
              ground (arith, r.held id d i, h.held id d i, held_at-own I j.id id d i s.profile new),
          r.counted ∙ ap pred_ℤ h.counted ∙ pred_ℤ-suc_ℤ s.size,
        ))
        (remove_job-Removed I L second c (assign a j.id m) j t h.planned there)

  -- add_job_first_fit of a job that is not in the schedule and lasts some time if it has a walltime,
  -- followed by remove_job if the job was planned: both end without a fault, and at every date the same
  -- machines are free, and held by each job, as before. The size is as before.
  pub remove_job-add_job_first_fit :
      Planned I c a s
      → contains_job I j.id s ≡ false
      → (j.has_walltime ≡ true → 0 < j.walltime)
      → Returns Restored (add_job_first_fit I second selector j false s >>= and_remove)
  remove_job-add_job_first_fit planned new lasts =
      Returns-bind (AddedOrNot I c a j s) Restored (add_job_first_fit I second selector j false s)
        and_remove (add_job_first_fit-Added I L selector second c a j s planned new lasts)
        (after (contains_job-Absent I j.id s new))
