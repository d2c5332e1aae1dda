-- ===== src/Schedule/JobMap/Laws.antt =====
-- What the operations of the map change and keep.
use schedule_test.Base.{
  ℕ, ◌+◌, ◌≡◌, refl, ap, ap₂, ◌⊎◌, List, [], ◌∷◌, none, some, true, false, All, arith, ltb, ◌==◌,
  ==_iff, if◌then◌else◌, Bool-cases, inl, inr, sum_of,
}
use schedule_test.Workload.{Job}
use schedule_test.Schedule.JobMap.{insert_job, find_job, has_job, erase_job, same_ids}

module _ {M : Type 0} where
  pub find-insert_job :
      (j : Job) (m : M) (id : ℕ) (xs : List (Job × M))
      → find_job id (insert_job j m xs) ≡ (if j.id == id then some m else find_job id xs)
  unfolding find_job insert_job
  find-insert_job j m id [] = refl
  find-insert_job j m id ((k, n) ∷ xs) = ground (arith, find-insert_job j m id xs)

  pub has_job-eq_find :
      (id : ℕ) (xs : List (Job × M))
      → ((has_job id xs ≡ true) × ((m : M) × (find_job id xs ≡ some m)))
        ⊎ ((has_job id xs ≡ false) × (find_job id xs ≡ none))
  unfolding has_job find_job
  has_job-eq_find id [] = inr (refl, refl)
  has_job-eq_find id ((k, n) ∷ xs) = elim (Bool-cases (k.id == id)) [
    | inl hit ↦ inl (rw hit refl, (n, rw hit refl))
    | inr miss ↦ rw miss (has_job-eq_find id xs)
  ]

  module _ (f : Job × M → ℕ) where
    pub sum-insert_job :
        (j : Job) (m : M) (xs : List (Job × M))
        → has_job j.id xs ≡ false
        → sum_of f (insert_job j m xs) ≡ f (j, m) + sum_of f xs
    unfolding sum_of insert_job has_job
    sum-insert_job j m [] h = refl
    sum-insert_job j m ((k, n) ∷ xs) h = ground (arith, sum-insert_job j m xs)

  pub sum-erase_job :
      (f : M → ℕ) (id : ℕ) (m : M) (xs : List (Job × M))
      → find_job id xs ≡ some m
      → sum_of (λ e. f e.1) xs ≡ f m + sum_of (λ e. f e.1) (erase_job id xs)
  unfolding sum_of find_job erase_job
  sum-erase_job f id m [] h = cc
  sum-erase_job f id m ((k, n) ∷ xs) h = elim (Bool-cases (k.id == id)) [
    | inl hit ↦ let same : n ≡ m = ground arith in rw hit (rw same refl)
    | inr miss ↦ rw miss (omega (arith, sum-erase_job f id m xs (rw miss at h)))
  ]

  -- Every entry has the machines that `a` assigns to its job.
  abbrev pub Assigned : (ℕ → M) → List (Job × M) → Type 0
  Assigned a = All (λ e. e.1 ≡ a e.0.id)

  pub find-Assigned :
      (a : ℕ → M) (id : ℕ) (m : M) (xs : List (Job × M))
      → Assigned a xs
      → find_job id xs ≡ some m
      → m ≡ a id
  unfolding find_job
  find-Assigned a id m [] h e = cc
  find-Assigned a id m ((k, n) ∷ xs) h e = elim (Bool-cases (k.id == id)) [
    | inl hit ↦
        let key : k.id ≡ id = (==_iff k.id id).0 hit in
        let same : n ≡ m = ground arith in let n_is : n ≡ a k.id = h.0 in cc (ap a key)
    | inr miss ↦ find-Assigned a id m xs (h.1) (rw miss at e)
  ]

  abbrev pub assign : (ℕ → M) → ℕ → M → ℕ → M
  assign a id m k = if k == id then m else a k

  pub assign-Assigned :
      (a : ℕ → M) (id : ℕ) (m : M) (xs : List (Job × M))
      → has_job id xs ≡ false
      → Assigned a xs
      → Assigned (assign a id m) xs
  unfolding has_job
  assign-Assigned a id m [] h as_is = tt
  assign-Assigned a id m ((k, n) ∷ xs) h as_is = elim (Bool-cases (k.id == id)) [
    | inl hit ↦ absurd (ground arith)
    | inr miss ↦ (rw miss as_is.0, assign-Assigned a id m xs (rw miss at h) (as_is.1))
  ]

  pub insert_job-Assigned :
      (a : ℕ → M) (j : Job) (m : M) (xs : List (Job × M))
      → has_job j.id xs ≡ false
      → Assigned a xs
      → Assigned (assign a j.id m) (insert_job j m xs)
  unfolding has_job insert_job
  insert_job-Assigned a j m [] h as_is = (ground arith, tt)
  insert_job-Assigned a j m ((k, n) ∷ xs) h as_is =
      let own : (j.id == j.id) ≡ true = ground arith in
      elim (Bool-cases (k.id == j.id)) [
        | inl hit ↦ absurd (ground arith)
        | inr miss ↦
            let h' : has_job j.id xs ≡ false = (rw miss at h) in
            elim (Bool-cases (ltb j.id k.id)) [
              | inl before ↦
                  rw (miss, before)
                    (rw own refl, (rw miss as_is.0, assign-Assigned a j.id m xs h' (as_is.1)))
              | inr after ↦
                  rw (miss, after) (rw miss as_is.0, insert_job-Assigned a j m xs h' (as_is.1))
            ]
      ]

  pub erase_job-Assigned :
      (a : ℕ → M) (id : ℕ) (xs : List (Job × M)) → Assigned a xs → Assigned a (erase_job id xs)
  unfolding erase_job
  erase_job-Assigned a id [] h = tt
  erase_job-Assigned a id ((k, n) ∷ xs) h = elim (Bool-cases (k.id == id)) [
    | inl hit ↦ rw hit (h.1)
    | inr miss ↦ rw miss (h.0, erase_job-Assigned a id xs (h.1))
  ]

  -- Of one assignment, two maps with the same jobs hold the same machines.
  pub sum-same_ids :
      (f : M → ℕ) (a : ℕ → M) (xs ys : List (Job × M))
      → same_ids xs ys ≡ true
      → Assigned a xs
      → Assigned a ys
      → sum_of (λ e. f e.1) xs ≡ sum_of (λ e. f e.1) ys
  unfolding same_ids sum_of
  sum-same_ids f a [] [] e h k = refl
  sum-same_ids f a [] (y ∷ ys) e h k = cc
  sum-same_ids f a (x ∷ xs) [] e h k = cc
  sum-same_ids f a (x ∷ xs) (y ∷ ys) e h k =
      let key : x.0.id ≡ y.0.id = ground arith in
      let first : f x.1 ≡ f y.1 = cc (ap (λ i. f (a i)) key, ap f (h.0), ap f (k.0)) in
      ap₂ ◌+◌ first (sum-same_ids f a xs ys (ground arith) (h.1) (k.1))

  pub find-same_ids :
      (a : ℕ → M) (id : ℕ) (xs ys : List (Job × M))
      → same_ids xs ys ≡ true
      → Assigned a xs
      → Assigned a ys
      → find_job id xs ≡ find_job id ys
  unfolding same_ids find_job
  find-same_ids a id [] [] e h k = refl
  find-same_ids a id [] (y ∷ ys) e h k = cc
  find-same_ids a id (x ∷ xs) [] e h k = cc
  find-same_ids a id (x ∷ xs) (y ∷ ys) e h k =
      let key : x.0.id ≡ y.0.id = ground arith in
      let first : x.1 ≡ y.1 = cc (ap a key, h.0, k.0) in
      ground (arith, find-same_ids a id xs ys (ground arith) (h.1) (k.1))
