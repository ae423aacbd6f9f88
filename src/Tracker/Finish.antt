-- ===== src/Tracker/Finish.antt =====
-- internal/daemon/tracker.go: what a finished run does to the graph.
use omni_orchestration.Prelude.{
  ℕ, str_eq, ◌≡◌, refl, false, List, [], ◌∷◌, ◌++◌, IsIn, ◌==◌, All, update_where,
  update_where-IsIn, ap, sym, ◌∙◌, Bool-cases, inl, inr, arith,
}
use omni_orchestration.Session.{Session}
use omni_orchestration.Dag.{Dependency, Dag, Task, Status, active, completed, with_status, quiet}
use omni_orchestration.Dag.Unblock.Settle.{IsReady}
use omni_orchestration.Dag.Unblock.Dependents.{
  NotBlocked, IsCompleted, unblock_dependents-NotBlocked, unblock_dependents-IsCompleted,
}
use omni_orchestration.Coordinator.{Decision, complete, fail}
use omni_orchestration.Tracker.{settle_decisions, settle_run, decided}

-- The graph in which the rows of a task have a status.
abbrev pub marked : ℕ → Status → Dag → Dag
marked id st d = record d { tasks = update_where (λ t. t.id == id) (with_status st) d.tasks }

settle_first_complete :
    (id : ℕ) (ds later : List Decision) (s : Session Dag)
    → All (λ x. (str_eq x complete ≡ false) × (str_eq x fail ≡ false)) ds
    → settle_decisions id (ds ++ complete ∷ later) s ≡ settle_decisions id (complete ∷ []) s
unfolding settle_decisions
settle_first_complete id [] later s h = refl
settle_first_complete id (x ∷ ds) later s h =
    rw (h.0.0, h.0.1) (settle_first_complete id ds later s h.1)

marked-IsCompleted : (id : ℕ) (d : Dag) → IsCompleted id (marked id completed d)
marked-IsCompleted id d t m e =
    let (b, n, q) = update_where-IsIn (λ t. t.id == id) (with_status completed) t d.tasks m in
    elim (Bool-cases (b.id == id)) [
      | inl hit ↦
          let now : t ≡ with_status completed b = q ∙ rw hit in ap (λ (r : Task). r.status) now
      | inr miss ↦
          let now : t ≡ b = q ∙ rw miss in
          let own = sym (ap (λ (r : Task). r.id) now) ∙ e in absurd (ground arith)
    ]

-- On a session without faults, after a run whose first decisive decision is COMPLETE, whatever
-- decisions follow: every row of its task is completed, and a task with an edge to it whose parents had
-- all completed once the task's own status was set is blocked no more.
pub settle_run_completes :
    (id : ℕ) (ds later : List Decision) (d : Dag)
    → All (λ x. (str_eq x complete ≡ false) × (str_eq x fail ≡ false)) ds
    → let final = (settle_run id (decided (ds ++ complete ∷ later)) (quiet d)).1.tables in
      IsCompleted id final
      × ((e : Dependency)
          → IsIn e d.dependencies
          → e.depends_on_id ≡ id
          → IsReady e.task_id (marked id completed (marked id active d))
          → NotBlocked e.task_id final)
unfolding settle_run
settle_run_completes id ds later d h =
    let done = marked id completed (marked id active d) in
    rw (settle_first_complete id ds later (quiet (marked id active d)) h) (
      unblock_dependents-IsCompleted id id done (marked-IsCompleted id (marked id active d)),
      λ e m p k. unblock_dependents-NotBlocked id done e m p k,
    )
