-- ===== src/Workflow/Edges.antt =====
-- workflow.cpp: which edges the tasks know of, after a list of edges has been added.
use schedule_test.Base.{
  Returns-bind, Returns-weaken, ℕ, ◌≡◌, refl, ◌∙◌, List, [], ◌∷◌, some, Bool, true, false, ◌==◌,
  ◌&&◌, ◌||◌, arith, Bool-cases, inl, inr, Returns, All,
}
use schedule_test.Workflow.{
  Task, mem, find_task, get_task, change_task, add_parent, add_child, add_edge, add_parents,
  add_edges,
}
use schedule_test.Workflow.Changes.{
  known, is_parent, is_child, listed, Loopless, known-change, add_parent-id, add_child-id,
  is_parent-add_parent, is_parent-add_child, is_child-add_child, is_child-add_parent,
  Loopless-add_parent, Loopless-add_child,
}

find-known :
    (id : ℕ) (ts : List Task) → known id ts ≡ true → (t : Task) × (find_task id ts ≡ some t)
unfolding find_task
find-known id [] h = absurd (cc h)
find-known id (t ∷ ts) h = elim (Bool-cases (t.id == id)) [
  | inl here ↦ (t, rw here refl)
  | inr there ↦ let (u, found) = find-known id ts (rw there at h) in (u, rw there found)
]

-- The edges are between two different tasks that are known.
abbrev pub Proper : List Task → List (ℕ × List ℕ) → Type 0
Proper ts = All (λ (dest, sources).
    (known dest ts ≡ true)
    × All (λ source. (known source ts ≡ true) × ((source == dest) ≡ false)) sources)

-- Both ends of an edge know of it: these are the edges from before and the new ones.
abbrev pub Knows : (before : List Task) → (new : ℕ → ℕ → Bool) → List Task → Type 0
Knows before new after =
    ((i : ℕ) → known i after ≡ known i before)
    × ((p c : ℕ) → is_parent p c after ≡ (is_parent p c before || new p c))
    × ((p c : ℕ) → is_child p c after ≡ (is_child p c before || new p c))
    × Loopless after

add_edge-Knows :
    (a b : ℕ) (ts : List Task)
    → Loopless ts
    → (known a ts ≡ true) × (known b ts ≡ true) × ((a == b) ≡ false)
    → Knows ts (λ p c. a == p && b == c) (add_edge a b ts)
unfolding add_edge
add_edge-Knows a b ts free (known_a, known_b, differ) =
    let us = change_task b (add_parent a) ts in
    let same = λ (i : ℕ). known-change i b (add_parent a) ts (add_parent-id a) in
    let free' = Loopless-add_parent a b ts free in
    (
      λ i. known-change i a (add_child b) us (add_child-id b) ∙ same i,
      λ p c.
          ground (arith, is_parent-add_child p c a b us, is_parent-add_parent p c a b ts, known_b),
      λ p c. ground (
        arith,
        is_child-add_child p c a b us free',
        is_child-add_parent p c a b ts,
        same a,
        known_a,
      ),
      Loopless-add_child a b us differ free',
    )

Sources-same :
    (ts us : List Task) (dest : ℕ) (sources : List ℕ)
    → ((i : ℕ) → known i us ≡ known i ts)
    → All (λ source. (known source ts ≡ true) × ((source == dest) ≡ false)) sources
    → All (λ source. (known source us ≡ true) × ((source == dest) ≡ false)) sources
Sources-same ts us dest [] same proper = tt
Sources-same ts us dest (a ∷ sources) same ((known_a, differ), rest) =
    ((same a ∙ known_a, differ), Sources-same ts us dest sources same rest)

Proper-same :
    (ts us : List Task) (edges : List (ℕ × List ℕ))
    → ((i : ℕ) → known i us ≡ known i ts)
    → Proper ts edges
    → Proper us edges
Proper-same ts us [] same proper = tt
Proper-same ts us ((dest, sources) ∷ edges) same ((known_dest, proper), rest) = (
  (same dest ∙ known_dest, Sources-same ts us dest sources same proper),
  Proper-same ts us edges same rest,
)

Knows-then :
    (before between after : List Task) (first second : ℕ → ℕ → Bool)
    → Knows before first between
    → Knows between second after
    → Knows before (λ p c. first p c || second p c) after
Knows-then before between after first second x y = (
  λ i. y.0 i ∙ x.0 i,
  λ p c. ground (arith, y.1 p c, x.1 p c),
  λ p c. ground (arith, y.2 p c, x.2 p c),
  y.3,
)

-- The same edges, said in another way.
Knows-same :
    (before after : List Task) (new same : ℕ → ℕ → Bool)
    → ((p c : ℕ) → new p c ≡ same p c)
    → Knows before new after
    → Knows before same after
Knows-same before after new same h x =
    (x.0, λ p c. ground (arith, x.1 p c, h p c), λ p c. ground (arith, x.2 p c, h p c), x.3)

add_parents-Knows :
    (dest : ℕ) (ts : List Task) (sources : List ℕ)
    → Loopless ts
    → known dest ts ≡ true
    → All (λ source. (known source ts ≡ true) × ((source == dest) ≡ false)) sources
    → Returns (Knows ts (λ p c. dest == c && mem p sources)) (add_parents dest sources ts)
unfolding add_parents get_task
add_parents-Knows dest ts [] free known_dest proper =
    (λ i. refl, λ p c. ground arith, λ p c. ground arith, free)
add_parents-Knows dest ts (a ∷ sources) free known_dest ((known_a, differ), rest) =
    let (s, found) = find-known a ts known_a in
    let us = add_edge a dest ts in
    let first = add_edge-Knows a dest ts free (known_a, known_dest, differ) in
    rw found (
      Returns-weaken (Knows us (λ p c. dest == c && mem p sources))
        (Knows ts (λ p c. dest == c && mem p (a ∷ sources))) (add_parents dest sources us)
        (λ vs later.
          Knows-same ts vs _ (λ p c. dest == c && mem p (a ∷ sources)) (λ p c. ground arith)
            (Knows-then ts us vs _ (λ p c. dest == c && mem p sources) first later))
        (add_parents-Knows dest us sources (first.3) (first.0 dest ∙ known_dest)
          (Sources-same ts us dest sources (first.0) rest)))

-- Where no task is its own child, adding edges between known tasks, none from a task to itself, ends
-- without a fault. Then a task has another one as a parent exactly if it had before or there is such
-- an edge, and the other one has it as a child exactly if it had before or there is such an edge; the
-- same tasks are known, and none is its own child.
pub add_edges-Knows :
    (ts : List Task) (edges : List (ℕ × List ℕ))
    → Loopless ts
    → Proper ts edges
    → Returns (Knows ts (λ p c. listed p c edges)) (add_edges edges ts)
unfolding add_edges get_task
add_edges-Knows ts [] free proper = (λ i. refl, λ p c. ground arith, λ p c. ground arith, free)
add_edges-Knows ts ((dest, sources) ∷ edges) free ((known_dest, proper), rest) =
    let (t, found) = find-known dest ts known_dest in
    let own : ℕ → ℕ → Bool = λ p c. dest == c && mem p sources in
    rw found (
      Returns-bind (Knows ts own) (Knows ts (λ p c. listed p c ((dest, sources) ∷ edges)))
        (add_parents dest sources ts) _ (add_parents-Knows dest ts sources free known_dest proper)
        (λ us first.
          Returns-weaken (Knows us (λ p c. listed p c edges))
            (Knows ts (λ p c. listed p c ((dest, sources) ∷ edges))) (add_edges edges us)
            (λ vs later. Knows-then ts us vs own (λ p c. listed p c edges) first later)
            (add_edges-Knows us edges (first.3) (Proper-same ts us edges (first.0) rest))))
