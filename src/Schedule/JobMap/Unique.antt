-- ===== src/Schedule/JobMap/Unique.antt =====
-- No job is twice in the map.
use schedule_test.Base.{
  ℕ, ◌≡◌, refl, List, [], ◌∷◌, none, true, false, arith, ltb, ◌==◌, ◌||◌, if◌then◌else◌, Bool-cases,
  inl, inr,
}
use schedule_test.Workload.{Job}
use schedule_test.Schedule.JobMap.{insert_job, find_job, has_job, erase_job, same_ids}

module _ {M : Type 0} where
  abbrev pub Unique : List (Job × M) → Type 0
  Unique [] = Unit
  Unique (x ∷ xs) = (has_job x.0.id xs ≡ false) × Unique xs

  pub has_job-insert_job :
      (j : Job) (m : M) (id : ℕ) (xs : List (Job × M))
      → has_job id (insert_job j m xs) ≡ (j.id == id || has_job id xs)
  unfolding has_job insert_job
  has_job-insert_job j m id [] = ground arith
  has_job-insert_job j m id ((k, n) ∷ xs) = ground (arith, has_job-insert_job j m id xs)

  pub insert_job-Unique :
      (j : Job) (m : M) (xs : List (Job × M))
      → has_job j.id xs ≡ false
      → Unique xs
      → Unique (insert_job j m xs)
  unfolding has_job insert_job
  insert_job-Unique j m [] new u = (refl, tt)
  insert_job-Unique j m ((k, n) ∷ xs) new u = elim (Bool-cases (k.id == j.id)) [
    | inl hit ↦ absurd (ground arith)
    | inr miss ↦
        let new' : has_job j.id xs ≡ false = (rw miss at new) in
        elim (Bool-cases (ltb j.id k.id)) [
          | inl before ↦ rw (miss, before) (new, u)
          | inr after ↦
              rw (miss, after)
                (
                  ground (arith, has_job-insert_job j m k.id xs, u.0),
                  insert_job-Unique j m xs new' (u.1),
                )
        ]
  ]

  has_job-erase_job :
      (id k : ℕ) (xs : List (Job × M)) → has_job k xs ≡ false → has_job k (erase_job id xs) ≡ false
  unfolding has_job erase_job
  has_job-erase_job id k [] h = refl
  has_job-erase_job id k ((l, n) ∷ xs) h = ground (arith, has_job-erase_job id k xs)

  pub has_job-erase_other :
      (id k : ℕ) (xs : List (Job × M))
      → (id == k) ≡ false
      → has_job k (erase_job id xs) ≡ has_job k xs
  unfolding has_job erase_job
  has_job-erase_other id k [] other = refl
  has_job-erase_other id k ((l, n) ∷ xs) other = ground (arith, has_job-erase_other id k xs)

  pub has_job-same_ids :
      (id : ℕ) (xs ys : List (Job × M)) → same_ids xs ys ≡ true → has_job id ys ≡ has_job id xs
  unfolding has_job same_ids
  has_job-same_ids id [] [] e = refl
  has_job-same_ids id [] (y ∷ ys) e = cc
  has_job-same_ids id (x ∷ xs) [] e = cc
  has_job-same_ids id (x ∷ xs) (y ∷ ys) e = ground (arith, has_job-same_ids id xs ys)

  pub erase_job-Unique : (id : ℕ) (xs : List (Job × M)) → Unique xs → Unique (erase_job id xs)
  unfolding erase_job
  erase_job-Unique id [] u = tt
  erase_job-Unique id ((l, n) ∷ xs) u = elim (Bool-cases (l.id == id)) [
    | inl hit ↦ rw hit (u.1)
    | inr miss ↦ rw miss (has_job-erase_job id l.id xs (u.0), erase_job-Unique id xs (u.1))
  ]

  find-none :
      (id k : ℕ) (xs : List (Job × M))
      → has_job id xs ≡ false
      → (id == k) ≡ true
      → find_job k xs ≡ none
  unfolding has_job find_job
  find-none id k [] h e = refl
  find-none id k ((l, n) ∷ xs) h e = ground (arith, find-none id k xs)

  -- An erased job is gone, and the others stay.
  pub find-erase_job :
      (id k : ℕ) (xs : List (Job × M))
      → Unique xs
      → find_job k (erase_job id xs) ≡ (if id == k then none else find_job k xs)
  unfolding find_job erase_job
  find-erase_job id k [] u = ground arith
  find-erase_job id k ((l, n) ∷ xs) u =
      ground (arith, find-erase_job id k xs (u.1), find-none l.id k xs (u.0))
