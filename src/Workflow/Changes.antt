-- ===== src/Workflow/Changes.antt =====
-- workflow.cpp: what the two changes of an edge do to parents and children.
use schedule_test.Base.{
  ℕ, ◌≡◌, refl, subst, ◌∙◌, List, [], ◌∷◌, ◌++◌, Bool, true, false, ◌==◌, ◌&&◌, ◌||◌, arith,
  Bool-cases, inl, inr, All, ==_iff,
}
use schedule_test.Workflow.{Task, mem, change_task, add_parent, add_child}

-- Is there a task with the identifier?
abbrev pub known : ℕ → List Task → Bool
known id [] = false
known id (t ∷ ts) = t.id == id || known id ts

-- Does a task with the one identifier have the other as a parent?
abbrev pub is_parent : (parent child : ℕ) → List Task → Bool
is_parent p c [] = false
is_parent p c (t ∷ ts) = t.id == c && mem p t.parents || is_parent p c ts

-- Does it have the other as a child?
abbrev pub is_child : (parent child : ℕ) → List Task → Bool
is_child p c [] = false
is_child p c (t ∷ ts) = t.id == p && mem c t.children || is_child p c ts

-- Is the one named as a parent of the other?
abbrev pub listed : (parent child : ℕ) → List (ℕ × List ℕ) → Bool
listed p c [] = false
listed p c ((dest, sources) ∷ edges) = dest == c && mem p sources || listed p c edges

mem-append : (i k : ℕ) (ids : List ℕ) → mem i (ids ++ k ∷ []) ≡ (mem i ids || k == i)
mem-append i k [] = ground arith
mem-append i k (j ∷ ids) = ground (arith, mem-append i k ids)

-- No task is its own child.
abbrev pub Loopless : List Task → Type 0
Loopless = All (λ t. mem t.id t.children ≡ false)

pub known-change :
    (i id : ℕ) (f : Task → Task) (ts : List Task)
    → ((t : Task) → (f t).id ≡ t.id)
    → known i (change_task id f ts) ≡ known i ts
unfolding change_task
known-change i id f [] keeps = refl
known-change i id f (t ∷ ts) keeps = elim (Bool-cases (t.id == id)) [
  | inl here ↦ rw (here, keeps t, known-change i id f ts keeps) refl
  | inr there ↦ rw (there, known-change i id f ts keeps) refl
]

pub add_parent-id : (p : ℕ) (t : Task) → (add_parent p t).id ≡ t.id
unfolding add_parent
add_parent-id p t = elim (Bool-cases (mem p t.parents)) [
  | inl there ↦ rw there refl
  | inr new ↦ rw new refl
]

pub add_child-id : (c : ℕ) (t : Task) → (add_child c t).id ≡ t.id
unfolding add_child
add_child-id c t = elim (Bool-cases (mem t.id t.children)) [
  | inl loop ↦ rw loop refl
  | inr none_yet ↦ rw none_yet refl
]

mem-add_parent :
    (p q : ℕ) (t : Task) → mem q ((add_parent p t).parents) ≡ (mem q t.parents || p == q)
unfolding add_parent
mem-add_parent p q t = elim (Bool-cases (mem p t.parents)) [
  | inl there ↦ rw there (elim (Bool-cases (p == q)) [
    | inl same ↦ rw same (
        subst (λ x. mem x t.parents ≡ (mem x t.parents || true)) ((==_iff p q).0 same)
          (rw there refl))
    | inr other ↦ rw other (ground arith)
  ])
  | inr new ↦ rw new (mem-append q p t.parents)
]

-- The children of the child, and the parents of the parent, are as they were.
parent-children : (p : ℕ) (t : Task) → (add_parent p t).children ≡ t.children
unfolding add_parent
parent-children p t = elim (Bool-cases (mem p t.parents)) [
  | inl there ↦ rw there refl
  | inr new ↦ rw new refl
]

child-parents : (c : ℕ) (t : Task) → (add_child c t).parents ≡ t.parents
unfolding add_child
child-parents c t = elim (Bool-cases (mem t.id t.children)) [
  | inl loop ↦ rw loop refl
  | inr none_yet ↦ rw none_yet refl
]

mem-add_child :
    (c d : ℕ) (t : Task)
    → mem t.id t.children ≡ false
    → mem d ((add_child c t).children) ≡ (mem d t.children || c == d)
unfolding add_child
mem-add_child c d t free = rw free (mem-append d c t.children)

pub is_parent-add_parent :
    (p c a b : ℕ) (ts : List Task)
    → is_parent p c (change_task b (add_parent a) ts)
      ≡ (is_parent p c ts || a == p && b == c && known b ts)
unfolding change_task
is_parent-add_parent p c a b [] = ground arith
is_parent-add_parent p c a b (t ∷ ts) =
    let ih = is_parent-add_parent p c a b ts in
    elim (Bool-cases (t.id == b)) [
      | inr there ↦ rw (there, ih) (ground (arith, there))
      | inl here ↦ rw (here, ih, add_parent-id a t, mem-add_parent a p t) (ground (arith, here))
    ]

pub is_parent-add_child :
    (p c a b : ℕ) (ts : List Task)
    → is_parent p c (change_task a (add_child b) ts) ≡ is_parent p c ts
unfolding change_task
is_parent-add_child p c a b [] = refl
is_parent-add_child p c a b (t ∷ ts) =
    let ih = is_parent-add_child p c a b ts in
    elim (Bool-cases (t.id == a)) [
      | inr there ↦ rw (there, ih) refl
      | inl here ↦ rw (here, ih, add_child-id b t, child-parents b t) refl
    ]

pub is_child-add_child :
    (p c a b : ℕ) (ts : List Task)
    → Loopless ts
    → is_child p c (change_task a (add_child b) ts)
      ≡ (is_child p c ts || a == p && b == c && known a ts)
unfolding change_task
is_child-add_child p c a b [] free = ground arith
is_child-add_child p c a b (t ∷ ts) free =
    let ih = is_child-add_child p c a b ts (free.1) in
    elim (Bool-cases (t.id == a)) [
      | inr there ↦ rw (there, ih) (ground (arith, there))
      | inl here ↦
          rw (here, ih, add_child-id b t, mem-add_child b c t (free.0)) (ground (arith, here))
    ]

pub is_child-add_parent :
    (p c a b : ℕ) (ts : List Task)
    → is_child p c (change_task b (add_parent a) ts) ≡ is_child p c ts
unfolding change_task
is_child-add_parent p c a b [] = refl
is_child-add_parent p c a b (t ∷ ts) =
    let ih = is_child-add_parent p c a b ts in
    elim (Bool-cases (t.id == b)) [
      | inr there ↦ rw (there, ih) refl
      | inl here ↦ rw (here, ih, add_parent-id a t, parent-children a t) refl
    ]

pub Loopless-add_parent :
    (a b : ℕ) (ts : List Task) → Loopless ts → Loopless (change_task b (add_parent a) ts)
unfolding change_task
Loopless-add_parent a b [] free = tt
Loopless-add_parent a b (t ∷ ts) free = elim (Bool-cases (t.id == b)) [
  | inr there ↦ rw there (free.0, Loopless-add_parent a b ts (free.1))
  | inl here ↦
      rw (here, add_parent-id a t, parent-children a t)
        (free.0, Loopless-add_parent a b ts (free.1))
]

pub Loopless-add_child :
    (a b : ℕ) (ts : List Task)
    → (a == b) ≡ false
    → Loopless ts
    → Loopless (change_task a (add_child b) ts)
unfolding change_task
Loopless-add_child a b [] differ free = tt
Loopless-add_child a b (t ∷ ts) differ free = elim (Bool-cases (t.id == a)) [
  | inr there ↦ rw there (free.0, Loopless-add_child a b ts differ (free.1))
  | inl here ↦
      let own : mem t.id ((add_child b t).children) ≡ false =
        mem-add_child b t.id t (free.0) ∙ ground (arith, here, differ, free.0) in
      rw (here, add_child-id b t) (own, Loopless-add_child a b ts differ (free.1))
]
