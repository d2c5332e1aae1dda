-- ===== src/Schedule/Slices/Account.antt =====
-- One slice keeps its account when a job takes machines or leaves, when it is split, and when it is
-- merged.
use schedule_test.Base.{
  ℕ, ◌≡◌, refl, ◌∙◌, none, some, true, false, arith, ◌==◌, ◌&&◌, not, bit, if◌then◌else◌,
  Bool-cases, inl, inr,
}
use schedule_test.Intervals.Interface.{Intervals, IntervalLaws, Subset}
use schedule_test.Workload.{Job}
use schedule_test.Schedule.JobMap.{insert_job, find_job, erase_job, same_ids}
use schedule_test.Schedule.JobMap.Laws.{
  sum-insert_job, sum-erase_job, assign, insert_job-Assigned, erase_job-Assigned, find-insert_job,
  sum-same_ids, has_job-eq_find,
}
use schedule_test.Schedule.JobMap.Unique.{
  Unique, insert_job-Unique, erase_job-Unique, find-erase_job, has_job-insert_job,
  has_job-erase_other,
}
use schedule_test.Schedule.Slices.{TimeSlice, slice_contains_job, allocate, release, merge}
use schedule_test.Schedule.View.{holds, Balanced}

module _ (I : Intervals) (L : IntervalLaws I) (n : ℕ) (repair : I.Machines)
    (a : ℕ → I.Machines) where
  pub allocate-Balanced :
      (j : Job) (m : I.Machines) (s : TimeSlice I)
      → slice_contains_job I j.id s ≡ false
      → Subset I m s.available_machines
      → I.size m ≡ j.nb_requested_resources
      → Balanced I n repair a s
      → Balanced I n repair (assign a j.id m) (allocate I j m s)
  unfolding allocate
  allocate-Balanced j m s new sub size v =
      let held = λ (i : ℕ).
        sum-insert_job (λ (e : Job × I.Machines). bit (I.contains e.1 i)) j m s.allocated_jobs
          new in
      record {
        counted = omega (arith, L.size-remove s.available_machines m sub, v.counted);
        placed = λ i.
            ground (arith, v.placed i, held i, sub i, L.contains-remove s.available_machines m i);
        allocated = λ i. ground (
          arith,
          v.placed i,
          v.allocated i,
          held i,
          sub i,
          L.contains-insert s.allocated_machines m i,
        );
        assigned = insert_job-Assigned a j m s.allocated_jobs new v.assigned;
        unique = insert_job-Unique j m s.allocated_jobs new v.unique;
      }

  -- A job gives back a set with the same machines as it holds.
  pub release-Balanced :
      (j : Job) (m back : I.Machines) (s : TimeSlice I)
      → find_job j.id s.allocated_jobs ≡ some m
      → ((i : ℕ) → I.contains back i ≡ I.contains m i)
      → Balanced I n repair a s
      → Balanced I n repair a (release I j back s)
  unfolding release
  release-Balanced j m back s there same v =
      let held = λ (i : ℕ).
        sum-erase_job (λ (x : I.Machines). bit (I.contains x i)) j.id m s.allocated_jobs there in
      record {
        counted = omega (
          arith,
          v.counted,
          L.size-insert s.available_machines back
              (λ i h. ground (arith, v.placed i, held i, same i)),
        );
        placed = λ i.
            ground
              (arith, v.placed i, held i, same i, L.contains-insert s.available_machines back i);
        allocated = λ i. ground (
          arith,
          v.placed i,
          v.allocated i,
          held i,
          same i,
          L.contains-remove s.allocated_machines back i,
        );
        assigned = erase_job-Assigned a j.id s.allocated_jobs v.assigned;
        unique = erase_job-Unique j.id s.allocated_jobs v.unique;
      }

  pub merge-Balanced :
      (s t : TimeSlice I) → Balanced I n repair a t → Balanced I n repair a (merge I s t)
  unfolding merge
  merge-Balanced s t v = record {
    counted = v.counted;
    placed = v.placed;
    allocated = v.allocated;
    assigned = v.assigned;
    unique = v.unique;
  }

  -- Where the same jobs run, the same machines are free: the assertion before a merge.
  pub same_ids-available :
      (s t : TimeSlice I)
      → same_ids s.allocated_jobs t.allocated_jobs ≡ true
      → Balanced I n repair a s
      → Balanced I n repair a t
      → I.equal s.available_machines t.available_machines ≡ true
  same_ids-available s t same v u = (L.equal_iff s.available_machines t.available_machines).1 λ i.
      ground (
        arith,
        v.placed i,
        u.placed i,
        sum-same_ids (λ (x : I.Machines). bit (I.contains x i)) a s.allocated_jobs t.allocated_jobs
            same v.assigned u.assigned,
      )

module _ (I : Intervals) where
  pub holds-allocate :
      (j : Job) (m : I.Machines) (id i : ℕ) (s : TimeSlice I)
      → holds I id i (allocate I j m s) ≡ (if j.id == id then I.contains m i else holds I id i s)
  unfolding holds allocate
  holds-allocate j m id i s =
      let found = find-insert_job j m id s.allocated_jobs in
      elim (Bool-cases (j.id == id)) [
        | inl own ↦
            let its : find_job id (insert_job j m s.allocated_jobs) ≡ some m =
              found ∙ rw own refl in
            rw (its, own, holds) refl
        | inr other ↦
            let stays : find_job id (insert_job j m s.allocated_jobs)
                ≡ find_job id s.allocated_jobs =
              found ∙ rw other refl in
            rw (stays, other, holds) refl
      ]

  pub holds-absent :
      (id i : ℕ) (s : TimeSlice I) → find_job id s.allocated_jobs ≡ none → holds I id i s ≡ false
  unfolding holds
  holds-absent id i s e = rw (e, holds) refl

  pub holds-find :
      (id i : ℕ) (m : I.Machines) (s : TimeSlice I)
      → find_job id s.allocated_jobs ≡ some m
      → holds I id i s ≡ I.contains m i
  unfolding holds
  holds-find id i m s e = rw (e, holds) refl

  pub contains_job-allocate :
      (j : Job) (m : I.Machines) (s : TimeSlice I)
      → slice_contains_job I j.id (allocate I j m s) ≡ true
  unfolding allocate
  contains_job-allocate j m s = ground (arith, has_job-insert_job j m j.id s.allocated_jobs)

  pub contains_job-allocate_other :
      (j : Job) (m : I.Machines) (id : ℕ) (s : TimeSlice I)
      → (j.id == id) ≡ false
      → slice_contains_job I id (allocate I j m s) ≡ slice_contains_job I id s
  unfolding allocate
  contains_job-allocate_other j m id s other =
      ground (arith, has_job-insert_job j m id s.allocated_jobs)

  pub contains_job-release_other :
      (j : Job) (back : I.Machines) (id : ℕ) (s : TimeSlice I)
      → (j.id == id) ≡ false
      → slice_contains_job I id (release I j back s) ≡ slice_contains_job I id s
  unfolding release
  contains_job-release_other j back id s other = has_job-erase_other j.id id s.allocated_jobs other

  -- A job that has left holds nothing; the others hold what they did.
  pub holds-release :
      (j : Job) (back : I.Machines) (id i : ℕ) (s : TimeSlice I)
      → Unique s.allocated_jobs
      → holds I id i (release I j back s) ≡ (not (j.id == id) && holds I id i s)
  unfolding holds release
  holds-release j back id i s u =
      let found = find-erase_job j.id id s.allocated_jobs u in
      elim (Bool-cases (j.id == id)) [
        | inl own ↦
            let gone : find_job id (erase_job j.id s.allocated_jobs) ≡ none = found ∙ rw own refl in
            rw (gone, own, holds) refl
        | inr other ↦
            let stays : find_job id (erase_job j.id s.allocated_jobs)
                ≡ find_job id s.allocated_jobs =
              found ∙ rw other refl in
            rw (stays, other, holds) refl
      ]

  pub contains_job-release :
      (j : Job) (back : I.Machines) (s : TimeSlice I)
      → Unique s.allocated_jobs
      → slice_contains_job I j.id (release I j back s) ≡ false
  unfolding release
  contains_job-release j back s u =
      let own : (j.id == j.id) ≡ true = ground arith in
      elim (has_job-eq_find j.id (erase_job j.id s.allocated_jobs)) [
        | inr (gone, e) ↦ gone
        | inl (there, (m, e)) ↦
            let gone : find_job j.id (erase_job j.id s.allocated_jobs) ≡ none =
              find-erase_job j.id j.id s.allocated_jobs u ∙ rw own refl in
            absurd (cc e)
      ]

  pub holds-not_there :
      (id i : ℕ) (s : TimeSlice I) → slice_contains_job I id s ≡ false → holds I id i s ≡ false
  unfolding holds
  holds-not_there id i s new = elim (has_job-eq_find id s.allocated_jobs) [
    | inl (there, found) ↦ cc
    | inr (gone, e) ↦ rw (e, holds) refl
  ]
