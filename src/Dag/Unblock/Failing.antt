-- ===== src/Dag/Unblock/Failing.antt =====
-- internal/dag/dag.go: `FailDependents` and the children of a failed task.
use omni_orchestration.Prelude.{
  ℕ, ◌≡◌, ◌≢◌, refl, Bool, true, false, ◌==◌, ◌&&◌, any, arith, Bool-cases, inl, inr, ◌⊎◌, IsIn,
  any-IsIn, any-eq_true, IsIn-update_where, if◌then◌else◌,
}
use omni_orchestration.Dag.{blocked, failed, Task, Dependency, Dag, with_status, quiet}
use omni_orchestration.Dag.Unblock.{fail_dependents, is_blocked_child}

abbrev pub after_failure : ℕ → Dag → Dag
after_failure parent d = (fail_dependents parent (quiet d)).1.tables

row_after :
    (parent : ℕ) (d : Dag) (t t' : Task) (b : Bool)
    → is_blocked_child parent d.dependencies t ≡ b
    → (if b then with_status failed t else t) ≡ t'
    → IsIn t d.tasks
    → IsIn t' (after_failure parent d).tasks
unfolding fail_dependents
row_after parent d t t' b h e m = rw (← e) (
    rw (← h)
      (IsIn-update_where (is_blocked_child parent d.dependencies) (with_status failed) t d.tasks m))

-- On a session without faults, a blocked task with an edge to the failed parent is failed afterwards.
pub fail_dependents_fails :
    (parent : ℕ) (d : Dag) (t : Task) (e : Dependency)
    → IsIn t d.tasks
    → IsIn e d.dependencies
    → e.depends_on_id ≡ parent
    → e.task_id ≡ t.id
    → t.status ≡ blocked
    → IsIn (with_status failed t) (after_failure parent d).tasks
fail_dependents_fails parent d t e m n h k b =
    row_after parent d t _ true
      (ground (
        arith,
        any-IsIn (λ x. x.depends_on_id == parent && x.task_id == t.id) e d.dependencies n
            (ground arith),
      ))
      refl m

-- On a session without faults, a task that is not blocked, or has no edge to the failed parent, stays
-- as it is; so the failure does not go on to the children of the children.
pub fail_dependents_spares :
    (parent : ℕ) (d : Dag) (t : Task)
    → IsIn t d.tasks
    → (t.status ≢ blocked)
      ⊎ ((e : Dependency) → IsIn e d.dependencies → e.depends_on_id ≡ parent → e.task_id ≢ t.id)
    → IsIn t (after_failure parent d).tasks
fail_dependents_spares parent d t m h = row_after parent d t t false (spared h) refl m
  where
    spared :
        (t.status ≢ blocked)
          ⊎ ((e : Dependency) → IsIn e d.dependencies → e.depends_on_id ≡ parent → e.task_id ≢ t.id)
        → is_blocked_child parent d.dependencies t ≡ false
    spared (inl other) = ground arith
    spared (inr away) =
        elim (Bool-cases
          (any (λ x. x.depends_on_id == parent && x.task_id == t.id) d.dependencies)) [
            | inl found ↦
                let (e, n, q) =
                  any-eq_true (λ (x : Dependency). x.depends_on_id == parent && x.task_id == t.id)
                    d.dependencies found in
                absurd (away e n (ground arith) (ground arith))
            | inr none_found ↦ ground arith
          ]
