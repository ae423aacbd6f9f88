-- ===== src/Dag/Unblock/Due.antt =====
-- internal/dag/dag.go, `UnblockDependents`: a task that may start, while the children of others are settled.
use omni_orchestration.Prelude.{ℕ, ◌≡◌, IsIn, IsIn-update_where, if◌then◌else◌, arith, List}
use omni_orchestration.Dag.{
  Status, pending, blocked, failed, Task, Dependency, Dag, in_state, with_status,
}
use omni_orchestration.Dag.Unblock.Settle.{IsReady, moved}
use omni_orchestration.Dag.Unblock.Verdict.{Settled, unblocks, fails, waits}
use omni_orchestration.Dag.Unblock.Guard.{Settled-IsReady}
use omni_orchestration.Dag.Unblock.Dependents.{
  SettledAll, nil, cons, SettledAll-keeps, NotBlocked, after_unblock, dependents_settle,
}

-- The edge is there, its parent has a row, and all parents of its child have completed.
pub record IsDue (e : Dependency) (d : Dag) : Type 0 where
  pub edge : IsIn e d.dependencies
  pub ready : IsReady e.task_id d
  pub parent : (p : Task) × IsIn p d.tasks × (p.id ≡ e.depends_on_id)

moved-parent :
    (to : Status) (child id : ℕ) (d : Dag)
    → (p : Task) × IsIn p d.tasks × (p.id ≡ id)
    → (p : Task) × IsIn p (moved blocked to child d).tasks × (p.id ≡ id)
moved-parent to child id d (p, m, same) = (
  (if in_state child blocked p then with_status to p else p),
  IsIn-update_where (in_state child blocked) (with_status to) p d.tasks m,
  ground (arith, same),
)

Settled-IsDue :
    (child : ℕ) (e : Dependency) {d d' : Dag} → Settled child d d' → IsDue e d → IsDue e d'
Settled-IsDue child e {d} {d'} st k = record {
  edge = edge_kept st;
  ready = Settled-IsReady child e.task_id st k.ready;
  parent = parent_kept st;
}
  where
    edge_kept : Settled child d d' → IsIn e d'.dependencies
    edge_kept (unblocks h q) = rw q k.edge
    edge_kept (fails q) = rw q k.edge
    edge_kept (waits h q) = rw q k.edge

    parent_kept : Settled child d d' → (p : Task) × IsIn p d'.tasks × (p.id ≡ e.depends_on_id)
    parent_kept (unblocks h q) = rw q (moved-parent pending child e.depends_on_id d k.parent)
    parent_kept (fails q) = rw q (moved-parent failed child e.depends_on_id d k.parent)
    parent_kept (waits h q) = rw q k.parent

SettledAll-IsDue :
    (e : Dependency) {cs : List ℕ} {d d' : Dag} → SettledAll cs d d' → IsDue e d → IsDue e d'
SettledAll-IsDue e nil k = k
SettledAll-IsDue e (cons {c = x} st rest) k = SettledAll-IsDue e rest (Settled-IsDue x e st k)

pub unblock_dependents-IsDue :
    (parent : ℕ) (e : Dependency) (d : Dag) → IsDue e d → IsDue e (after_unblock parent d)
unblock_dependents-IsDue parent e d k = SettledAll-IsDue e (dependents_settle parent d) k

-- On a session without faults, `UnblockDependents` blocks no task.
pub unblock_dependents_keeps :
    (parent c : ℕ) (d : Dag) → NotBlocked c d → NotBlocked c (after_unblock parent d)
unblock_dependents_keeps parent c d k = SettledAll-keeps c (dependents_settle parent d) k
