-- ===== src/Queue/Distinct.antt =====
-- A queue in which no job is twice, and what keeps it so.
use schedule_test.Base.{
  ◌∙◌, if◌then◌else◌, All, All-append, ==_iff, ℕ, ◌≡◌, refl, ap, subst, List, [], ◌∷◌, ◌++◌, map,
  some, true, false, arith, Bool-cases, inl, inr, ◌==◌, Returns, Returns-bind,
}
use schedule_test.Workload.{Job}
use schedule_test.Queue.{
  SortableJob, SortableJobOrder, compare_jobs, update_job, append_job, remove_job, contains_job,
  first_job_or_nullptr, insert_sorted, sort_jobs, sort_queue,
}
use schedule_test.Queue.Sort.{IsSorted, insert_sorted-All, update_job-job}
use schedule_test.Queue.Entries.{Each, sort_jobs-Each, map-Each, remove_job-Each}

-- No job of the queue has the identifier.
abbrev pub Unlisted : ℕ → List SortableJob → Type 0
Unlisted id = Each (λ k. (k.id == id) ≡ false)

abbrev pub Distinct : List SortableJob → Type 0
Distinct [] = Unit
Distinct (q ∷ qs) = Unlisted q.job.id qs × Distinct qs

abbrev pub SameFirst : (before after : List SortableJob) → Type 0
SameFirst before after = first_job_or_nullptr after ≡ first_job_or_nullptr before

swap_id : (i k : ℕ) → (i == k) ≡ false → (k == i) ≡ false
swap_id i k h = ground arith

pub contains_job-Unlisted :
    (j : Job) (qs : List SortableJob) → contains_job j qs ≡ false → Unlisted j.id qs
unfolding contains_job
contains_job-Unlisted j [] h = tt
contains_job-Unlisted j (q ∷ qs) h = elim (Bool-cases (q.job.id == j.id)) [
  | inl same ↦ absurd (cc (rw same at h))
  | inr differ ↦ (differ, contains_job-Unlisted j qs (rw differ at h))
]

-- What holds of every job of the queue holds of one that it contains, as far as identifiers go.
pub contains_job-Each :
    (P : ℕ → Type 0) (j : Job) (qs : List SortableJob)
    → contains_job j qs ≡ true
    → Each (λ k. P k.id) qs
    → P j.id
unfolding contains_job
contains_job-Each P j [] h all = absurd (cc h)
contains_job-Each P j (q ∷ qs) h all = elim (Bool-cases (q.job.id == j.id)) [
  | inl same ↦ subst P ((==_iff q.job.id j.id).0 same) (all.0)
  | inr differ ↦ contains_job-Each P j qs (rw differ at h) (all.1)
]

module _ (order : SortableJobOrder) where
  insert_sorted-Distinct :
      (q : SortableJob) (ks : List SortableJob)
      → Unlisted q.job.id ks
      → Distinct ks
      → Distinct (insert_sorted order q ks)
  unfolding insert_sorted
  insert_sorted-Distinct q [] new distinct = (tt, tt)
  insert_sorted-Distinct q (k ∷ ks) new distinct = elim (Bool-cases (compare_jobs order k q)) [
    | inr here ↦ rw here (new, distinct)
    | inl later ↦ rw later (
      insert_sorted-All order (λ x. (x.job.id == k.job.id) ≡ false) q ks
          (swap_id k.job.id q.job.id (new.0)) (distinct.0),
      insert_sorted-Distinct q ks (new.1) (distinct.1),
    )
  ]

  sort_jobs-Distinct : (qs : List SortableJob) → Distinct qs → Distinct (sort_jobs order qs)
  unfolding sort_jobs
  sort_jobs-Distinct [] distinct = tt
  sort_jobs-Distinct (q ∷ qs) distinct =
      insert_sorted-Distinct q (sort_jobs order qs)
        (sort_jobs-Each (λ k. (k.id == q.job.id) ≡ false) order qs (distinct.0))
        (sort_jobs-Distinct qs (distinct.1))

  map-Distinct :
      (date : ℕ) (qs : List SortableJob) → Distinct qs → Distinct (map (update_job order date) qs)
  map-Distinct date [] distinct = tt
  map-Distinct date (q ∷ qs) distinct = (
    rw (update_job-job order date q)
        (map-Each (λ k. (k.id == q.job.id) ≡ false) order date qs (distinct.0)),
    map-Distinct date qs (distinct.1),
  )

  pub sort_queue-Distinct :
      (date : ℕ) (qs : List SortableJob) → Distinct qs → Distinct (sort_queue order date qs)
  unfolding sort_queue
  sort_queue-Distinct date qs distinct =
      sort_jobs-Distinct (map (update_job order date) qs) (map-Distinct date qs distinct)

pub contains_job-behind :
    (k : Job) (q : SortableJob) (qs : List SortableJob)
    → (q.job.id == k.id) ≡ false
    → contains_job k (q ∷ qs) ≡ true
    → contains_job k qs ≡ true
unfolding contains_job
contains_job-behind k q qs differ there = rw differ at there

-- Sorting takes no job out, and neither does appending one.
contains_job-insert_sorted :
    (order : SortableJobOrder) (k : Job) (q : SortableJob) (qs : List SortableJob)
    → contains_job k (insert_sorted order q qs) ≡ contains_job k (q ∷ qs)
unfolding insert_sorted contains_job
contains_job-insert_sorted order k q [] = refl
contains_job-insert_sorted order k q (x ∷ qs) = elim (Bool-cases (compare_jobs order x q)) [
  | inr here ↦ rw here refl
  | inl later ↦
      rw (later, contains_job-insert_sorted order k q qs)
        (elim (Bool-cases (q.job.id == k.id)) [
          | inl its ↦ rw its (elim (Bool-cases (x.job.id == k.id)) [
            | inl same ↦ rw same refl
            | inr other ↦ rw other refl
          ])
          | inr other ↦ rw other refl
        ])
]

pub contains_job-sort_queue :
    (order : SortableJobOrder) (date : ℕ) (k : Job) (qs : List SortableJob)
    → contains_job k (sort_queue order date qs) ≡ contains_job k qs
unfolding sort_queue sort_jobs contains_job
contains_job-sort_queue order date k [] = refl
contains_job-sort_queue order date k (q ∷ qs) =
    contains_job-insert_sorted order k (update_job order date q) _
    ∙ rw (update_job-job order date q)
        (ap (λ b. if q.job.id == k.id then true else b) (contains_job-sort_queue order date k qs))

pub contains_job-append_job :
    (j : Job) (date : ℕ) (k : Job) (qs : List SortableJob)
    → contains_job k qs ≡ true
    → contains_job k (append_job j date qs) ≡ true
unfolding append_job contains_job
contains_job-append_job j date k [] there = absurd (cc there)
contains_job-append_job j date k (q ∷ qs) there = elim (Bool-cases (q.job.id == k.id)) [
  | inl its ↦ rw its refl
  | inr other ↦ rw other (contains_job-append_job j date k qs (rw other at there))
]

pub append_job-Distinct :
    (j : Job) (date : ℕ) (qs : List SortableJob)
    → Unlisted j.id qs
    → Distinct qs
    → Distinct (append_job j date qs)
unfolding append_job
append_job-Distinct j date [] new distinct = (tt, tt)
append_job-Distinct j date (q ∷ qs) new distinct = (
  All-append (λ k. (k.job.id == q.job.id) ≡ false) qs (_ ∷ []) (distinct.0)
      (swap_id q.job.id j.id (new.0), tt),
  append_job-Distinct j date qs (new.1) (distinct.1),
)

-- No job of the queue comes before the entry.
abbrev Behind : SortableJobOrder → SortableJob → List SortableJob → Type 0
Behind order q = All (λ k. compare_jobs order k q ≡ false)

-- A job that is contained can be removed; it is not in the queue then, no other job is new there, and
-- the rest of the queue stands as it stood.
abbrev pub Fewer : Job → (qs rs : List SortableJob) → Type 0
Fewer j qs rs =
    Distinct rs
    × Unlisted j.id rs
    × ((id : ℕ) → Unlisted id qs → Unlisted id rs)
    × ((order : SortableJobOrder) (q : SortableJob) → Behind order q qs → Behind order q rs)
    × ((order : SortableJobOrder) → IsSorted order qs → IsSorted order rs)
    × ((k : Job) → (j.id == k.id) ≡ false → contains_job k qs ≡ true → contains_job k rs ≡ true)

pub remove_job-Fewer :
    (j : Job) (qs : List SortableJob)
    → contains_job j qs ≡ true
    → Distinct qs
    → Returns (Fewer j qs) (remove_job j qs)
unfolding remove_job contains_job
remove_job-Fewer j [] there distinct = absurd (cc there)
remove_job-Fewer j (q ∷ qs) there distinct = elim (Bool-cases (q.job.id == j.id)) [
  | inl hit ↦ rw hit (
    distinct.1,
    subst (λ i. Unlisted i qs) ((==_iff q.job.id j.id).0 hit) (distinct.0),
    λ id out. out.1,
    λ order k behind. behind.1,
    λ order sorted. sorted.1,
    λ k differ there. let other : (q.job.id == k.id) ≡ false = ground arith in rw other at there,
  )
  | inr miss ↦ rw miss (
      Returns-bind (Fewer j qs) _ (remove_job j qs) _
        (remove_job-Fewer j qs (rw miss at there) (distinct.1))
        (λ rs (fewer, gone, keeps, after, in_order, others). (
          (keeps q.job.id (distinct.0), fewer),
          (miss, gone),
          λ id out. (out.0, keeps id (out.1)),
          λ order k behind. (behind.0, after order k (behind.1)),
          λ order sorted. (after order q (sorted.0), in_order order (sorted.1)),
          λ k differ there. elim (Bool-cases (q.job.id == k.id)) [
            | inl its ↦ rw its refl
            | inr other ↦ rw other (others k differ (rw other at there))
          ],
        )))
]

nothing : (qs : List SortableJob) → Each (λ k. Unit {0}) qs
nothing [] = tt
nothing (q ∷ qs) = (tt, nothing qs)

-- Removing a job that is not the first one leaves that one first.
pub remove_job-SameFirst :
    (j : Job) (qs : List SortableJob)
    → contains_job j qs ≡ true
    → ((k : Job) → first_job_or_nullptr qs ≡ some k → (j.id == k.id) ≡ false)
    → Returns (SameFirst qs) (remove_job j qs)
unfolding remove_job contains_job first_job_or_nullptr
remove_job-SameFirst j [] there differ = absurd (cc there)
remove_job-SameFirst j (q ∷ qs) there differ =
    let miss = swap_id j.id q.job.id (differ q.job refl) in
    rw miss (
      Returns-bind (Each (λ k. Unit {0})) _ (remove_job j qs) _
        (remove_job-Each (λ k. Unit {0}) j qs (rw miss at there) (nothing qs)) (λ rs t. refl))

-- One entry in the middle of the queue is passed, or taken out.
pub middle-Each :
    (P : Job → Type 0) (kept : List SortableJob) (q : SortableJob) (qs : List SortableJob)
    → Each P (kept ++ q ∷ qs)
    → Each P (kept ++ qs)
middle-Each P [] q qs all = all.1
middle-Each P (k ∷ kept) q qs all = (all.0, middle-Each P kept q qs (all.1))

pub middle-here :
    (P : Job → Type 0) (kept : List SortableJob) (q : SortableJob) (qs : List SortableJob)
    → Each P (kept ++ q ∷ qs)
    → P q.job
middle-here P [] q qs all = all.0
middle-here P (k ∷ kept) q qs all = middle-here P kept q qs (all.1)

pub middle-Fewer :
    (kept : List SortableJob) (q : SortableJob) (qs : List SortableJob)
    → Distinct (kept ++ q ∷ qs)
    → Fewer q.job (kept ++ q ∷ qs) (kept ++ qs)
unfolding contains_job
middle-Fewer [] q qs distinct = (
  distinct.1,
  distinct.0,
  λ id out. out.1,
  λ order k behind. behind.1,
  λ order sorted. sorted.1,
  λ k differ there. rw differ at there,
)
middle-Fewer (k ∷ kept) q qs distinct =
    let (fewer, gone, keeps, after, in_order, others) = middle-Fewer kept q qs (distinct.1) in
    let apart = middle-Each (λ j. (j.id == k.job.id) ≡ false) kept q qs (distinct.0) in
    (
      (apart, fewer),
      (
        swap_id q.job.id k.job.id
            (middle-here (λ j. (j.id == k.job.id) ≡ false) kept q qs (distinct.0)),
        gone,
      ),
      λ id out. (out.0, keeps id (out.1)),
      λ order x behind. (behind.0, after order x (behind.1)),
      λ order sorted. (after order k (sorted.0), in_order order (sorted.1)),
      λ x differ there. elim (Bool-cases (k.job.id == x.id)) [
        | inl its ↦ rw its refl
        | inr other ↦ rw other (others x differ (rw other at there))
      ],
    )

pub middle-contained :
    (kept : List SortableJob) (q : SortableJob) (qs : List SortableJob)
    → contains_job q.job (kept ++ q ∷ qs) ≡ true
unfolding contains_job
middle-contained [] q qs = let own : (q.job.id == q.job.id) ≡ true = ground arith in rw own refl
middle-contained (k ∷ kept) q qs = elim (Bool-cases (k.job.id == q.job.id)) [
  | inl same ↦ rw same refl
  | inr differ ↦ rw differ (middle-contained kept q qs)
]

pub pass :
    (kept : List SortableJob) (q : SortableJob) (qs : List SortableJob)
    → kept ++ q ∷ qs ≡ (kept ++ q ∷ []) ++ qs
pass [] q qs = refl
pass (k ∷ kept) q qs = ap (◌∷◌ k) (pass kept q qs)

pub passed_all : (kept : List SortableJob) → kept ++ [] ≡ kept
passed_all [] = refl
passed_all (k ∷ kept) = ap (◌∷◌ k) (passed_all kept)
