-- ===== src/Dag/Create.antt =====
-- internal/dag/dag.go, creation: `CreateTaskFull` (and the short forms that call it),
-- `CreateTaskMultiDep`, `AddDependency`, `GetDependencies`.
pub mod Created
use omni_orchestration.Prelude.{
  ℕ, ◌+◌, String, Bool, Option, none, some, List, [], ◌∷◌, ◌++◌, ◌==◌, ◌&&◌, ltb, any, zero, suc,
  if◌then◌else◌, keep_where, map,
}
use omni_orchestration.Session.{
  Result, ok, err, Action, pure, raise, ◌>>=◌, ◌>>◌, attempt, statement, query,
}
use omni_orchestration.Dag.{
  Status, pending, blocked, Task, Dependency, Dag, Error, db_error, parent_not_found, DagAction,
  task_by_id, get_task,
}

abbrev pub same_edge : ℕ → ℕ → Dependency → Bool
same_edge task on e = e.task_id == task && e.depends_on_id == on

-- `INSERT OR IGNORE INTO task_dependencies`: the pair is UNIQUE.
abbrev pub insert_edge : ℕ → ℕ → List Dependency → List Dependency
insert_edge task on es =
    if any (same_edge task on) es
    then es
    else es ++ record { task_id = task; depends_on_id = on } ∷ []

unfoldable pub add_dependency : ℕ → ℕ → DagAction (Unit {0})
add_dependency task on =
    statement db_error (λ d. (tt, record d { dependencies = insert_edge task on d.dependencies }))

-- `INSERT INTO dag_tasks`, with the new row's id as result.
unfoldable pub insert_task : (ℕ → Task) → DagAction ℕ
insert_task row =
    statement db_error
      λ d. let id = d.last_id + 1 in (id, record d { tasks = d.tasks ++ row id ∷ []; last_id = id })

abbrev pub status_for : ℕ → Status
status_for zero = pending
status_for (suc _) = blocked

-- The row that `CreateTaskFull` inserts.
abbrev pub new_task : ℕ → String → ℕ → String → String → String → String → ℕ → Task
new_task run title on repo command validator paths id = record {
  id = id;
  run_id = run;
  title = title;
  status = status_for on;
  command = command;
  validator = validator;
  owned_paths = paths;
  depends_on = on;
  repo = repo;
}

-- The parent is looked up only for `dependsOn > 0`; any failure of the lookup reads "not found".
abbrev pub require_parent : ℕ → Result Error (Option Status) → DagAction (Unit {0})
require_parent on (ok (some _)) = pure tt
require_parent on _ = raise parent_not_found

abbrev pub status_of : ℕ → Dag → Option Status
status_of id d = elim (task_by_id id d.tasks) [ none ↦ none | some t ↦ some t.status ]

unfoldable pub check_parent : ℕ → DagAction (Unit {0})
check_parent zero = pure tt
check_parent (suc n) = do
  found ← attempt (query db_error (status_of (suc n)))
  require_parent (suc n) found

-- The edge's own error is dropped.
unfoldable pub link_parent : ℕ → ℕ → DagAction (Unit {0})
unfolding add_dependency
link_parent id zero = pure tt
link_parent id (suc n) = do attempt (add_dependency id (suc n)); pure tt

unfoldable pub create_task_full :
    ℕ → String → ℕ → String → String → String → String → DagAction Task
unfolding check_parent link_parent insert_task get_task
create_task_full run title on repo command validator paths = do
  check_parent on
  id ← insert_task (new_task run title on repo command validator paths)
  link_parent id on
  get_task id

unfoldable pub create_task : ℕ → String → ℕ → DagAction Task
unfolding create_task_full
create_task run title on = create_task_full run title on "" "" "" ""

unfoldable pub create_task_with_repo : ℕ → String → ℕ → String → DagAction Task
unfolding create_task_full
create_task_with_repo run title on repo = create_task_full run title on repo "" "" ""

unfoldable pub link_parents : ℕ → List ℕ → DagAction (Unit {0})
unfolding add_dependency
link_parents id [] = pure tt
link_parents id (on ∷ rest) = do attempt (add_dependency id on); link_parents id rest

abbrev pub status_for_all : List ℕ → Status
status_for_all [] = pending
status_for_all (_ ∷ _) = blocked

-- `CreateTaskMultiDep`: the column of the single parent stays 0, and the title is the command too.
unfoldable pub create_task_multi_dep : ℕ → String → List ℕ → String → DagAction Task
unfolding link_parents insert_task get_task
create_task_multi_dep run title parents repo = do
  id ←
      insert_task
        λ id. record (new_task run title 0 repo title "" "" id) { status = status_for_all parents }
  link_parents id parents
  get_task id

unfoldable pub get_dependencies : ℕ → DagAction (List ℕ)
get_dependencies task =
    query db_error
      (λ d. map (λ e. e.depends_on_id) (keep_where (λ e. e.task_id == task) d.dependencies))
