-- ===== src/Dag.antt =====
-- internal/dag/dag.go: the task graph kept in SQLite. `Dag` holds the tables `dag_tasks`,
-- `task_dependencies` and `path_leases`; each exported method is an action of a session with them.
-- The methods stand in the modules below, by what they work on.
pub mod Leases
pub mod Create
pub mod Unblock
pub mod Circular
mod Tests
use omni_orchestration.Prelude.{
  ℕ, ◌+◌, String, Bool, true, false, Option, none, some, List, [], ◌∷◌, ◌==◌, ◌&&◌, if◌then◌else◌,
  find?, count_where, keep_where, update_where,
}
use omni_orchestration.Session.{
  Result, ok, err, Session, Action, pure, raise, ◌>>=◌, statement, query,
}

pub data Status : Type 0 where
  pending blocked active completed failed : Status

abbrev pub same_status : Status → Status → Bool
same_status pending pending = true
same_status blocked blocked = true
same_status active active = true
same_status completed completed = true
same_status failed failed = true
same_status _ _ = false

-- A row of `dag_tasks`, without `created_at`; `depends_on` 0 is a task with no single parent.
pub record Task : Type 0 where
  pub id : ℕ
  pub run_id : ℕ
  pub title : String
  pub status : Status
  pub command : String
  pub validator : String
  pub owned_paths : String
  pub depends_on : ℕ
  pub repo : String

pub record Dependency : Type 0 where
  pub task_id : ℕ
  pub depends_on_id : ℕ

pub record Lease : Type 0 where
  pub owner : ℕ
  pub path : String

-- `last_id` is the counter behind AUTOINCREMENT.
pub record Dag : Type 0 where
  pub tasks : List Task
  pub last_id : ℕ
  pub dependencies : List Dependency
  pub leases : List Lease

pub data Error : Type 0 where
  db_error no_rows parent_not_found self_dependency circular cycle_found too_deep : Error

abbrev pub DagAction : Type 0 → Type 0
DagAction A = Action Error Dag A

-- A session on which every statement runs.
abbrev pub quiet : Dag → Session Dag
quiet d = record { tables = d; faults = [] }

abbrev pub task_by_id : ℕ → List Task → Option Task
task_by_id id = find? (λ t. t.id == id)

abbrev pub or_no_rows : {A : Type 0} → Option A → DagAction A
or_no_rows (some a) = pure a
or_no_rows none = raise no_rows

unfoldable pub get_task : ℕ → DagAction Task
get_task id = do found ← query db_error (λ d. task_by_id id d.tasks); or_no_rows found

abbrev pub with_status : Status → Task → Task
with_status st t = record t { status = st }

-- `UPDATE dag_tasks SET status=? WHERE id=?`.
unfoldable pub update_task_status : ℕ → Status → DagAction (Unit {0})
update_task_status id st =
    statement db_error
      (λ d. (tt, record d { tasks = update_where (λ t. t.id == id) (with_status st) d.tasks }))

abbrev pub in_state : ℕ → Status → Task → Bool
in_state id st t = t.id == id && same_status t.status st

-- `UPDATE dag_tasks SET status=? WHERE id=? AND status=?`, with the number of rows that it changed.
unfoldable pub move_status : Status → Status → ℕ → DagAction ℕ
move_status from to id = statement db_error λ d. (
  count_where (in_state id from) d.tasks,
  record d { tasks = update_where (in_state id from) (with_status to) d.tasks },
)

-- `queryTasks` with a condition on one column.
abbrev pub query_tasks : (Task → Bool) → DagAction (List Task)
query_tasks p = query db_error (λ d. keep_where p d.tasks)

unfoldable pub get_ready_tasks : DagAction (List Task)
get_ready_tasks = query_tasks (λ t. same_status t.status pending)

unfoldable pub get_blocked_tasks : DagAction (List Task)
get_blocked_tasks = query_tasks (λ t. same_status t.status blocked)

unfoldable pub get_tasks_by_run : ℕ → DagAction (List Task)
get_tasks_by_run run = query_tasks (λ t. t.run_id == run)
