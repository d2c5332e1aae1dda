-- ===== src/EasyBf3/Heap.antt =====
-- The heap sort of the schedule in easy_bf3.cpp: `max_heapify` and `sort_max_heap`. The recursion of
-- `max_heapify` goes up in the index, so a fuel of the size is enough.
pub mod Fuel
pub mod Sift
pub mod Sorts
mod Tests
use schedule_test.Base.{
  ℕ, zero, suc, ◌+◌, ◌*◌, ◌-◌, ◌/◌, List, ltb, ◌&&◌, ◌==◌, if◌then◌else◌, length,
}
use schedule_test.EasyBf3.Vector.{swap, time}

module _ {A : Type 0} (est_finish_time : A → ℕ) where
  -- `if (child < size && ...) max = child;`
  pub larger : (child size max : ℕ) → List A → ℕ
  larger child size max xs =
      if ltb child size && ltb (time est_finish_time xs max) (time est_finish_time xs child)
      then child
      else max

  -- The largest of the root and its children below `size`.
  pub largest : (root size : ℕ) → List A → ℕ
  largest root size xs =
      let left = 2 * root + 1 in
      let right = left + 1 in larger right size (larger left size root xs) xs

  pub max_heapify : (fuel root size : ℕ) → List A → List A
  max_heapify zero root size xs = xs
  max_heapify (suc fuel) root size xs =
      let m = largest root size xs in
      let rest = max_heapify fuel m size (swap xs root m) in if m == root then xs else rest

  -- `for (int i = size / 2; i >= 0; i--)`.
  pub build_heap : (i size : ℕ) → List A → List A
  build_heap zero size xs = max_heapify size 0 size xs
  build_heap (suc i) size xs = build_heap i size (max_heapify size (suc i) size xs)

  -- `for (int j = size - 1; j > 0; j--)`.
  pub extract_all : (j : ℕ) → List A → List A
  extract_all zero xs = xs
  extract_all (suc j) xs = extract_all j (max_heapify (suc j) 0 (suc j) (swap xs 0 (suc j)))

  pub sort_max_heap : (size : ℕ) → List A → List A
  unfolding build_heap extract_all
  sort_max_heap size xs =
      if ltb size 2 then xs else extract_all (size - 1) (build_heap (size / 2) size xs)
