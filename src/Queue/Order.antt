-- ===== src/Queue/Order.antt =====
-- The seven orders of the queue that are modelled are strict total orders, as std::list::sort demands.
use schedule_test.Base.{refl, ℕ, ◌≡◌, Bool, true, false, ltb, ◌==◌, if◌then◌else◌, arith}
use schedule_test.Queue.{
  SortableJob, SortableJobOrder, fcfs, lcfs, descending_slowdown, ascending_size, descending_size,
  ascending_walltime, descending_walltime, compare_jobs,
}

-- The comparison by numbers alone.
abbrev by_key : Bool → ℕ → ℕ → ℕ → ℕ → Bool
by_key up k₁ i₁ k₂ i₂ = if k₁ == k₂ then ltb i₁ i₂ else if up then ltb k₁ k₂ else ltb k₂ k₁

by_key_trans :
    (up : Bool) (k₁ i₁ k₂ i₂ k₃ i₃ : ℕ)
    → by_key up k₁ i₁ k₂ i₂ ≡ true
    → by_key up k₂ i₂ k₃ i₃ ≡ true
    → by_key up k₁ i₁ k₃ i₃ ≡ true
by_key_trans true k₁ i₁ k₂ i₂ k₃ i₃ h g = ground arith
by_key_trans false k₁ i₁ k₂ i₂ k₃ i₃ h g = ground arith

by_key-asym :
    (up : Bool) (k₁ i₁ k₂ i₂ : ℕ) → by_key up k₁ i₁ k₂ i₂ ≡ true → by_key up k₂ i₂ k₁ i₁ ≡ false
by_key-asym true k₁ i₁ k₂ i₂ h = ground arith
by_key-asym false k₁ i₁ k₂ i₂ h = ground arith

by_key-total :
    (up : Bool) (k₁ i₁ k₂ i₂ : ℕ)
    → by_key up k₁ i₁ k₂ i₂ ≡ false
    → by_key up k₂ i₂ k₁ i₁ ≡ false
    → (k₁ ≡ k₂) × (i₁ ≡ i₂)
by_key-total true k₁ i₁ k₂ i₂ h g = (ground arith, ground arith)
by_key-total false k₁ i₁ k₂ i₂ h g = (ground arith, ground arith)

by_key-not_before :
    (up : Bool) (k₁ i₁ k₂ i₂ k₃ i₃ : ℕ)
    → by_key up k₂ i₂ k₁ i₁ ≡ false
    → by_key up k₃ i₃ k₂ i₂ ≡ false
    → by_key up k₃ i₃ k₁ i₁ ≡ false
by_key-not_before true k₁ i₁ k₂ i₂ k₃ i₃ h g = ground arith
by_key-not_before false k₁ i₁ k₂ i₂ k₃ i₃ h g = ground arith

-- The key that an order sorts by, and whether it ascends.
pub key : SortableJobOrder → SortableJob → ℕ
key fcfs j = j.release_date
key lcfs j = j.release_date
key descending_slowdown j = j.slowdown
key ascending_size j = j.job.nb_requested_resources
key descending_size j = j.job.nb_requested_resources
key ascending_walltime j = j.job.walltime
key descending_walltime j = j.job.walltime

ascends : SortableJobOrder → Bool
ascends fcfs = true
ascends lcfs = false
ascends descending_slowdown = false
ascends ascending_size = true
ascends descending_size = false
ascends ascending_walltime = true
ascends descending_walltime = false

compare_jobs-by_key :
    (order : SortableJobOrder) (a b : SortableJob)
    → compare_jobs order a b ≡ by_key (ascends order) (key order a) a.job.id (key order b) b.job.id
unfolding compare_jobs key ascends
compare_jobs-by_key fcfs a b = refl
compare_jobs-by_key _ a b = refl

-- Each of the seven orders of SortableJobOrder is a strict total order: no job comes before one that comes before it (so none before
-- itself), coming before is transitive, and two jobs of which neither comes before the other have
-- the same key and the same identifier.
pub compare_jobs-IsStrictTotal :
    (order : SortableJobOrder) (a b c : SortableJob)
    → (compare_jobs order a b ≡ true → compare_jobs order b a ≡ false)
      × (compare_jobs order a b ≡ true
          → compare_jobs order b c ≡ true
          → compare_jobs order a c ≡ true)
      × (compare_jobs order a b ≡ false
          → compare_jobs order b a ≡ false
          → (key order a ≡ key order b) × (a.job.id ≡ b.job.id))
compare_jobs-IsStrictTotal order a b c = simp compare_jobs-by_key (
  by_key-asym (ascends order) (key order a) a.job.id (key order b) b.job.id,
  by_key_trans (ascends order) (key order a) a.job.id (key order b) b.job.id (key order c) c.job.id,
  by_key-total (ascends order) (key order a) a.job.id (key order b) b.job.id,
)

-- Not to come before is transitive too.
pub compare_jobs-not_before :
    (order : SortableJobOrder) (a b c : SortableJob)
    → compare_jobs order b a ≡ false
    → compare_jobs order c b ≡ false
    → compare_jobs order c a ≡ false
compare_jobs-not_before order a b c = simp compare_jobs-by_key (
    by_key-not_before (ascends order) (key order a) a.job.id (key order b) b.job.id (key order c)
      c.job.id)
