-- ===== src/Workflow.antt =====
-- batsim4/src/workflow.cpp and .hpp: the tasks of a workflow and the edges between them. A pointer to a
-- task is the identifier of the task, under which the workflow keeps it; `Changes` and `Edges` are about
-- the edges.
pub mod Changes
pub mod Edges
mod Tests
use schedule_test.Base.{
  ℕ, ◌+◌, List, [], ◌∷◌, ◌++◌, Option, none, some, Bool, true, false, ltb, ◌==◌, if◌then◌else◌,
  is_empty, Result, ok, err, ◌>>=◌, or_fail, unknown_task,
}

pub record Task : Type 0 where
  pub id : ℕ
  pub num_procs : ℕ
  pub execution_time : ℕ
  pub parents : List ℕ
  pub children : List ℕ

-- `std::find(ids.begin(), ids.end(), id) != ids.end()`.
abbrev pub mem : ℕ → List ℕ → Bool
mem id [] = false
mem id (i ∷ ids) = if i == id then true else mem id ids

-- `tasks[task.id] = &task` on the std::map, whose entries stand in the order of the identifiers.
pub add_task : Task → List Task → List Task
add_task task [] = task ∷ []
add_task task (t ∷ ts) =
    if task.id == t.id
    then task ∷ ts
    else if ltb task.id t.id
    then task ∷ t ∷ ts
    else t ∷ add_task task ts

pub find_task : ℕ → List Task → Option Task
find_task id [] = none
find_task id (t ∷ ts) = if t.id == id then some t else find_task id ts

pub get_task : ℕ → List Task → Result Task
get_task id tasks = or_fail (find_task id tasks) unknown_task

-- The task to which the pointer points is changed.
pub change_task : ℕ → (Task → Task) → List Task → List Task
change_task id f [] = []
change_task id f (t ∷ ts) = (if t.id == id then f t else t) ∷ change_task id f ts

pub add_parent : (parent : ℕ) → Task → Task
add_parent parent child =
    if mem parent child.parents
    then child
    else record child { parents = child.parents ++ parent ∷ [] }

-- The search for an edge that is there already is for the parent, not for the child.
pub add_child : (child : ℕ) → Task → Task
add_child child parent =
    if mem parent.id parent.children
    then parent
    else record parent { children = parent.children ++ child ∷ [] }

pub add_edge : (parent child : ℕ) → List Task → List Task
add_edge parent child tasks =
    change_task parent (add_child child) (change_task child (add_parent parent) tasks)

-- The loops of load_from_xml over the edges: each task is named with its parents.
pub add_parents : (dest : ℕ) → (sources : List ℕ) → List Task → Result (List Task)
add_parents dest [] tasks = ok tasks
add_parents dest (source ∷ sources) tasks =
    let rest = add_parents dest sources (add_edge source dest tasks) in
    get_task source tasks >>= λ s. rest

pub add_edges : List (ℕ × List ℕ) → List Task → Result (List Task)
add_edges [] tasks = ok tasks
add_edges ((dest, sources) ∷ edges) tasks =
    get_task dest tasks >>= λ d. add_parents dest sources tasks >>= λ tasks'. add_edges edges tasks'

pub get_source_tasks : List Task → List Task
get_source_tasks [] = []
get_source_tasks (t ∷ ts) =
    if is_empty t.parents then t ∷ get_source_tasks ts else get_source_tasks ts

pub get_sink_tasks : List Task → List Task
get_sink_tasks [] = []
get_sink_tasks (t ∷ ts) = if is_empty t.children then t ∷ get_sink_tasks ts else get_sink_tasks ts
