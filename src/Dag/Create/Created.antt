-- ===== src/Dag/Create/Created.antt =====
-- What creating a task does to the graph.
use omni_orchestration.Prelude.{
  ℕ, zero, suc, ◌+◌, ◌≤◌, ◌<◌, String, ◌≡◌, refl, sym, ◌∙◌, ap, none, some, List, [], ◌∷◌, ◌++◌,
  any, arith, Bool-cases, Option-cases, inl, inr, ◌⊎◌, IsIn, here, there, IsIn-append,
  IsIn-singleton,
}
use omni_orchestration.Session.{ok, err}
use omni_orchestration.Dag.{pending, Task, Dependency, Dag, parent_not_found, task_by_id, quiet}
use omni_orchestration.Dag.Create.{create_task_full, new_task, insert_edge, same_edge}
use omni_orchestration.Dag.Unblock.Guard.{IsGuarded}

-- AUTOINCREMENT has passed every id in use, and every edge names tasks that it has passed.
pub record IsNumbered (d : Dag) : Type 0 where
  pub tasks_below : (t : Task) → IsIn t d.tasks → t.id ≤ d.last_id
  pub edges_below :
      (e : Dependency)
      → IsIn e d.dependencies
      → (e.task_id ≤ d.last_id) × (e.depends_on_id ≤ d.last_id)

find_fresh :
    (id : ℕ) (t : Task) (ts : List Task)
    → ((x : Task) → IsIn x ts → x.id < id)
    → t.id ≡ id
    → task_by_id id (ts ++ t ∷ []) ≡ some t
find_fresh id t [] h e = ground arith
find_fresh id t (x ∷ ts) h e =
    ground (arith, h x (here refl), find_fresh id t ts (λ y m. h y (there m)) e)

-- The graph with one more task and the edge to its parent.
abbrev pub with_task : (ℕ → Task) → List Dependency → Dag → Dag
with_task row es d = record d {
  tasks = d.tasks ++ row (d.last_id + 1) ∷ [];
  last_id = d.last_id + 1;
  dependencies = es;
}

-- On a session without faults, a task without a parent is created as pending: the row that comes back
-- is the row that was inserted, under the next id, and no edge is added.
pub create_task_full_alone :
    (run : ℕ) (title repo command validator paths : String) (d : Dag)
    → IsNumbered d
    → create_task_full run title 0 repo command validator paths (quiet d) ≡ (
      ok (new_task run title 0 repo command validator paths (d.last_id + 1)),
      quiet (with_task (new_task run title 0 repo command validator paths) d.dependencies d),
    )
unfolding create_task_full
create_task_full_alone run title repo command validator paths d n = ground (
  arith,
  find_fresh (d.last_id + 1) (new_task run title 0 repo command validator paths (d.last_id + 1))
      d.tasks (λ x m. omega (arith, n.tasks_below x m)) refl,
)

-- On a session without faults, a task whose parent exists is created as blocked, with the edge to its
-- parent, and the row that comes back is the row that was inserted, under the next id.
pub create_task_full_child :
    (run on : ℕ) (title repo command validator paths : String) (d : Dag) (parent : Task)
    → IsNumbered d
    → task_by_id (suc on) d.tasks ≡ some parent
    → create_task_full run title (suc on) repo command validator paths (quiet d) ≡ (
      ok (new_task run title (suc on) repo command validator paths (d.last_id + 1)),
      quiet (
          with_task
            (new_task run title (suc on) repo command validator paths)
            (insert_edge (d.last_id + 1) (suc on) d.dependencies)
            d),
    )
unfolding create_task_full
create_task_full_child run on title repo command validator paths d parent n h = ground (
  arith,
  find_fresh (d.last_id + 1)
      (new_task run title (suc on) repo command validator paths (d.last_id + 1)) d.tasks
      (λ x m. omega (arith, n.tasks_below x m)) refl,
)

-- On a session without faults, a task whose parent does not exist is refused, and nothing is created.
pub create_task_full_orphan :
    (run on : ℕ) (title repo command validator paths : String) (d : Dag)
    → task_by_id (suc on) d.tasks ≡ none
    → create_task_full run title (suc on) repo command validator paths (quiet d)
      ≡ (err parent_not_found, quiet d)
unfolding create_task_full
create_task_full_orphan run on title repo command validator paths d h = ground arith

insert_edge-IsIn :
    (task on : ℕ) (e : Dependency) (es : List Dependency)
    → IsIn e (insert_edge task on es)
    → IsIn e es ⊎ (e.task_id ≡ task)
insert_edge-IsIn task on e es m = elim (Bool-cases (any (same_edge task on) es)) [
  | inl old ↦ inl (rw old at m)
  | inr new ↦ elim (IsIn-append e es _ (rw new at m)) [
    | inl n ↦ inl n
    | inr n ↦ inr (ap (λ (x : Dependency). x.task_id) (IsIn-singleton e _ n))
  ]
]

-- A task joins a guarded graph with edges from itself alone, and with none if it is pending.
with_task-IsGuarded :
    (row : ℕ → Task) (es : List Dependency) (d : Dag)
    → IsNumbered d
    → IsGuarded d
    → (row (d.last_id + 1)).id ≡ d.last_id + 1
    → ((e : Dependency) → IsIn e es → IsIn e d.dependencies ⊎ (e.task_id ≡ d.last_id + 1))
    → ((row (d.last_id + 1)).status ≡ pending
        → (e : Dependency) → IsIn e es
        → IsIn e d.dependencies)
    → IsGuarded (with_task row es d)
with_task-IsGuarded row es d n g id own free t m p r = elim (IsIn-append t d.tasks _ m) [
  | inr new ↦
      let now : t ≡ row (d.last_id + 1) = IsIn-singleton t _ new in
      let old_edge = free (sym (ap (λ (x : Task). x.status) now) ∙ p) r.edge r.edge_in in
      absurd
        (omega (arith, n.edges_below r.edge old_edge, r.of_child, ap (λ (x : Task). x.id) now, id))
  | inl old ↦ elim (own r.edge r.edge_in) [
    | inr new_edge ↦ absurd (omega (arith, n.tasks_below t old, r.of_child, new_edge))
    | inl old_edge ↦ elim (IsIn-append r.task d.tasks _ r.task_in) [
      | inr new ↦ absurd (
          omega (
            arith,
            n.edges_below r.edge old_edge,
            r.is_parent,
            id,
            ap (λ (x : Task). x.id) (IsIn-singleton r.task _ new),
          ))
      | inl old_parent ↦ g t old p (record {
        edge = r.edge;
        task = r.task;
        edge_in = old_edge;
        task_in = old_parent;
        of_child = r.of_child;
        is_parent = r.is_parent;
      })
    ]
  ]
]

-- Creating a task keeps the fan-in guarantee on a session without faults, when every id in use is
-- one that the counter has passed.
pub create_task_full-IsGuarded :
    (run on : ℕ) (title repo command validator paths : String) (d : Dag)
    → IsNumbered d
    → IsGuarded d
    → IsGuarded (create_task_full run title on repo command validator paths (quiet d)).1.tables
create_task_full-IsGuarded run zero title repo command validator paths d n g =
    rw (create_task_full_alone run title repo command validator paths d n) (
      with_task-IsGuarded (new_task run title 0 repo command validator paths) d.dependencies d n g
        refl (λ e m. inl m) (λ _ e m. m))
create_task_full-IsGuarded run (suc on) title repo command validator paths d n g =
    elim (Option-cases (task_by_id (suc on) d.tasks)) [
      | inl missing ↦
          rw (create_task_full_orphan run on title repo command validator paths d missing) g
      | inr (parent, found) ↦
          rw (create_task_full_child run on title repo command validator paths d parent n found) (
            with_task-IsGuarded (new_task run title (suc on) repo command validator paths) _ d n g
              refl (λ e m. insert_edge-IsIn _ _ e d.dependencies m) (λ q. absurd (ground arith)))
    ]
