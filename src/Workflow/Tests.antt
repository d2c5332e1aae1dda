-- ===== src/Workflow/Tests.antt =====
-- A workflow of three tasks.
use schedule_test.Base.{ℕ, ◌≡◌, refl, List, [], ◌∷◌, map, Returns}
use schedule_test.Workflow.{
  Task, add_task, add_edge, add_edges, change_task, add_parent, add_child, get_source_tasks,
  get_sink_tasks,
}
use schedule_test.Workflow.Changes.{listed}
use schedule_test.Workflow.Edges.{Knows, add_edges-Knows}

abbrev task : ℕ → Task
task id = record { id = id; num_procs = 1; execution_time = 5; parents = []; children = [] }

abbrev tasks : List Task
tasks = task 1 ∷ task 2 ∷ task 3 ∷ []

tasks_are_added : add_task (task 2) (add_task (task 1) (add_task (task 3) [])) ≡ tasks
unfolding add_task
tasks_are_added = refl

-- The third task has the others as its parents.
abbrev edges : List (ℕ × List ℕ)
edges = (3, 1 ∷ 2 ∷ []) ∷ []

add_edges-Knows_example : Returns (Knows tasks (λ p c. listed p c edges)) (add_edges edges tasks)
add_edges-Knows_example =
    add_edges-Knows tasks edges (refl, (refl, (refl, tt)))
      ((refl, ((refl, refl), ((refl, refl), tt))), tt)

-- The first two tasks have no parents, and the third one has no children.
ends :
    (map (λ t. t.id) (get_source_tasks (add_edge 2 3 (add_edge 1 3 tasks))) ≡ 1 ∷ 2 ∷ [])
    × (map (λ t. t.id) (get_sink_tasks (add_edge 2 3 (add_edge 1 3 tasks))) ≡ 3 ∷ [])
unfolding add_edge change_task add_parent add_child get_source_tasks get_sink_tasks
ends = (refl, refl)

-- An edge that is added twice leaves one parent and two children.
added_twice :
    map {B = List ℕ × List ℕ} (λ t. (t.parents, t.children)) (add_edge 1 2 (add_edge 1 2 tasks))
    ≡ ([], 2 ∷ 2 ∷ []) ∷ (1 ∷ [], []) ∷ ([], []) ∷ []
unfolding add_edge change_task add_parent add_child
added_twice = refl
