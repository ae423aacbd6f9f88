-- ===== src/Dag/Unblock.antt =====
-- internal/dag/dag.go, progress: `AllParentsComplete`, `UnblockIfReady`, `UnblockTask`,
-- `UnblockDependents`, `FailDependents`.
pub mod Parents
pub mod Settle
pub mod Verdict
pub mod Guard
pub mod Dependents
pub mod Due
pub mod Failing
use omni_orchestration.Prelude.{
  ℕ, ◌+◌, Bool, true, false, ◌&&◌, List, [], ◌∷◌, ◌==◌, ltb, any, count_where, update_where,
  if◌then◌else◌, keep_where,
}
use omni_orchestration.Session.{
  Result, ok, err, Action, pure, raise, ◌>>=◌, ◌>>◌, attempt, statement, query,
}
use omni_orchestration.Dag.{
  Status, pending, blocked, completed, failed, same_status, Task, Dependency, Dag, Error, db_error,
  DagAction, with_status, move_status,
}

-- The rows of `task_dependencies JOIN dag_tasks` for one child, whose parent's status passes `p`.
unfoldable pub parent_rows : (Status → Bool) → ℕ → List Task → List Dependency → ℕ
parent_rows p child tasks [] = 0
parent_rows p child tasks (e ∷ es) =
    (if e.task_id == child
      then count_where (λ t. t.id == e.depends_on_id && p t.status) tasks
      else 0)
    + parent_rows p child tasks es

-- `dt.status NOT IN ('completed', 'failed')`.
abbrev pub unfinished : Status → Bool
unfinished completed = false
unfinished failed = false
unfinished _ = true

abbrev pub is_failed : Status → Bool
is_failed st = same_status st failed

unfoldable pub all_parents_complete : ℕ → DagAction Bool
all_parents_complete child =
    query db_error (λ d. parent_rows unfinished child d.tasks d.dependencies == 0)

-- `failures` keeps its zero value when the count cannot be read.
abbrev pub count_or_zero : Result Error ℕ → ℕ
count_or_zero (ok n) = n
count_or_zero (err _) = 0

-- The rest of `UnblockIfReady`, where every parent has finished.
unfoldable pub settle : ℕ → DagAction Bool
unfolding move_status
settle child = do
  failures ← attempt (query db_error (λ d. parent_rows is_failed child d.tasks d.dependencies))
  if ltb 0 (count_or_zero failures)
      then (do attempt (move_status blocked failed child); pure false)
      else (do n ← move_status blocked pending child; pure (ltb 0 n))

-- With no other writer of the graph between its statements, of which only the first holds the lock.
unfoldable pub unblock_if_ready : ℕ → DagAction Bool
unfolding all_parents_complete settle
unblock_if_ready child = do
  done ← all_parents_complete child
  if done then settle child else pure false

unfoldable pub unblock_task : ℕ → DagAction (Unit {0})
unfolding move_status
unblock_task id = do move_status blocked pending id; pure tt

-- `SELECT DISTINCT task_id`, in the order of the rows.
unfoldable pub children_of : ℕ → List Dependency → List ℕ
children_of parent [] = []
children_of parent (e ∷ es) =
    let rest = children_of parent es in
    if e.depends_on_id == parent
    then e.task_id ∷ keep_where (λ c. if c == e.task_id then false else true) rest
    else rest

-- The error of a child's check is dropped, and the child counts as not unblocked.
abbrev pub as_count : Result Error Bool → ℕ
as_count (ok true) = 1
as_count _ = 0

unfoldable pub unblock_each : List ℕ → DagAction ℕ
unfolding unblock_if_ready
unblock_each [] = pure 0
unblock_each (c ∷ cs) = do
  unblocked ← attempt (unblock_if_ready c)
  n ← unblock_each cs
  pure (as_count unblocked + n)

unfoldable pub unblock_dependents : ℕ → DagAction ℕ
unfolding unblock_each children_of
unblock_dependents parent = do
  children ← query db_error (λ d. children_of parent d.dependencies)
  unblock_each children

-- The condition of the UPDATE in `FailDependents`.
abbrev pub is_blocked_child : ℕ → List Dependency → Task → Bool
is_blocked_child parent es t =
    any (λ e. e.depends_on_id == parent && e.task_id == t.id) es && same_status t.status blocked

unfoldable pub fail_dependents : ℕ → DagAction ℕ
fail_dependents parent = statement db_error λ d. (
  count_where (is_blocked_child parent d.dependencies) d.tasks,
  record d {
    tasks = update_where (is_blocked_child parent d.dependencies) (with_status failed) d.tasks;
  },
)
