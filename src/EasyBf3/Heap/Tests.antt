-- ===== src/EasyBf3/Heap/Tests.antt =====
-- The heap sort on a schedule of five jobs, each an identifier and an expected end.
use mathlib.Core.List.{Perm}
use schedule_test.Base.{arith, ℕ, ◌≡◌, refl, List, [], ◌∷◌}
use schedule_test.EasyBf3.Heap.{sort_max_heap, max_heapify, larger, largest}
use schedule_test.EasyBf3.Heap.Fuel.{max_heapify-ends}
use schedule_test.EasyBf3.Heap.Sorts.{IsAscending, sort_max_heap-sorts}
use schedule_test.EasyBf3.Vector.{swap, set, get_elem?, time}

abbrev est : ℕ × ℕ → ℕ
est j = j.1

abbrev schedule : List (ℕ × ℕ)
schedule = (1, 30) ∷ (2, 10) ∷ (3, 50) ∷ (4, 10) ∷ (5, 20) ∷ []

sort_max_heap_run :
    sort_max_heap est 5 schedule ≡ (4, 10) ∷ (2, 10) ∷ (5, 20) ∷ (1, 30) ∷ (3, 50) ∷ []
unfolding sort_max_heap max_heapify largest larger time swap set get_elem?
sort_max_heap_run = refl

sort_max_heap-sorts_example :
    IsAscending est (sort_max_heap est 5 schedule) × Perm (sort_max_heap est 5 schedule) schedule
sort_max_heap-sorts_example = sort_max_heap-sorts est schedule

max_heapify-ends_example : max_heapify est 9 0 5 schedule ≡ max_heapify est 5 0 5 schedule
max_heapify-ends_example = max_heapify-ends est 9 5 0 5 schedule (omega arith) (omega arith)
