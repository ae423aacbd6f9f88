-- ===== src/Dag/Unblock/Parents.antt =====
-- The joins of `AllParentsComplete` and `UnblockIfReady` against the parents that they count.
use omni_orchestration.Prelude.{
  ℕ, ◌<◌, ◌≡◌, refl, inl, inr, IsIn, here, there, Bool, true, false, ◌&&◌, List, [], ◌∷◌, ◌==◌,
  count_where, arith, Bool-cases, ltb, sym, ◌∙◌, count_where-pos, count_where-IsIn,
}
use mathlib.Core.Bool.{true≢false}
use omni_orchestration.Dag.{Status, Task, Dependency}
use omni_orchestration.Dag.Unblock.{parent_rows}

-- A parent of the child: an edge from the child, and a task row with the edge's id.
pub record Parent (child : ℕ) (tasks : List Task) (es : List Dependency) : Type 0 where
  pub edge : Dependency
  pub task : Task
  pub edge_in : IsIn edge es
  pub task_in : IsIn task tasks
  pub of_child : edge.task_id ≡ child
  pub is_parent : task.id ≡ edge.depends_on_id

module _ (p : Status → Bool) (child : ℕ) (tasks : List Task) where
  abbrev joins : Dependency → Task → Bool
  joins e t = t.id == e.depends_on_id && p t.status

  more :
      (e : Dependency) (es : List Dependency) → Parent child tasks es → Parent child tasks (e ∷ es)
  more e es r = record {
    edge = r.edge;
    task = r.task;
    edge_in = there r.edge_in;
    task_in = r.task_in;
    of_child = r.of_child;
    is_parent = r.is_parent;
  }

  -- A join with a row comes from a parent that passes the test.
  pub parent_rows-pos :
      (es : List Dependency)
      → 0 < parent_rows p child tasks es
      → (r : Parent child tasks es) × (p r.task.status ≡ true)
  unfolding parent_rows more
  parent_rows-pos [] h = absurd (omega arith)
  parent_rows-pos (e ∷ es) h = elim (Bool-cases (e.task_id == child)) [
    | inl mine ↦ elim (Bool-cases (ltb 0 (count_where (joins e) tasks))) [
      | inl found ↦
          let (t, m, q) = count_where-pos (joins e) tasks (ground arith) in
          (
            record {
              edge = e;
              task = t;
              edge_in = here refl;
              task_in = m;
              of_child = ground arith;
              is_parent = ground arith;
            },
            ground arith,
          )
      | inr empty ↦ let (r, q) = parent_rows-pos es (ground arith) in (more e es r, q)
    ]
    | inr other ↦ let (r, q) = parent_rows-pos es (ground arith) in (more e es r, q)
  ]

  edge_counts :
      (e : Dependency) (t : Task) (es : List Dependency)
      → IsIn e es
      → IsIn t tasks
      → e.task_id ≡ child
      → t.id ≡ e.depends_on_id
      → p t.status ≡ true
      → 0 < parent_rows p child tasks es
  unfolding parent_rows
  edge_counts e t [] m n a b h = elim m [ ]
  edge_counts e t (x ∷ es) (here same) n a b h =
      let c : 0 < count_where (joins e) tasks =
        count_where-IsIn (joins e) t tasks n (ground arith) in
      ground arith
  edge_counts e t (x ∷ es) (there m) n a b h = omega (arith, edge_counts e t es m n a b h)

  -- A parent that passes the test is counted.
  pub Parent-pos :
      (es : List Dependency) (r : Parent child tasks es)
      → p r.task.status ≡ true
      → 0 < parent_rows p child tasks es
  Parent-pos es r h = edge_counts r.edge r.task es r.edge_in r.task_in r.of_child r.is_parent h

  -- A join is empty when no parent passes the test.
  pub parent_rows-zero :
      (es : List Dependency)
      → ((r : Parent child tasks es) → p r.task.status ≡ false)
      → parent_rows p child tasks es ≡ 0
  parent_rows-zero es blank = elim (Bool-cases (ltb 0 (parent_rows p child tasks es))) [
    | inl found ↦
        let (r, q) = parent_rows-pos es (ground arith) in absurd (true≢false (sym q ∙ blank r))
    | inr empty ↦ ground arith
  ]
