-- ===== src/Tracker/Tests.antt =====
-- A concrete pool and graph for internal/daemon/tracker.go.
use omni_orchestration.Prelude.{
  ℕ, String, ◌≡◌, refl, false, List, [], ◌∷◌, IsIn, here, there, arith,
}
use omni_orchestration.Session.{ok}
use omni_orchestration.Dag.{
  Status, active, pending, blocked, completed, Task, Dag, Dependency, quiet, get_task,
  get_ready_tasks, get_blocked_tasks,
}
use omni_orchestration.Dag.Unblock.{parent_rows, unblock_dependents}
use omni_orchestration.Dag.Unblock.Verdict.{count-IsReady, count-IsFinished}
use omni_orchestration.Dag.Unblock.Settle.{IsReady}
use omni_orchestration.Dag.Unblock.Dependents.{NotBlocked, IsCompleted}
use omni_orchestration.Dag.Unblock.Due.{IsDue}
use omni_orchestration.Coordinator.{validate, complete}
use omni_orchestration.Tracker.{Tracker, poll, settle_run, decided}
use omni_orchestration.Tracker.Resume.{resume_task, resume_each, resume_active_tasks}
use omni_orchestration.Tracker.Resume.Freed.{resume_active_tasks-NotBlocked}
use omni_orchestration.Tracker.Pool.{IsPool, poll-IsPool}
use omni_orchestration.Tracker.Finish.{marked, settle_run_completes}

abbrev task : ℕ → Status → Task
task id st = record {
  id = id;
  run_id = 1;
  title = "t";
  status = st;
  command = "make";
  validator = "";
  owned_paths = "src";
  depends_on = 0;
  repo = "";
}

abbrev graph : Dag
graph = record {
  tasks = task 1 pending ∷ task 2 blocked ∷ [];
  last_id = 2;
  dependencies = record { task_id = 2; depends_on_id = 1 } ∷ [];
  leases = [];
}

abbrev pool : Tracker
pool = record { running = 7 ∷ []; max_workers = 2; closed = false }

pool-IsPool : IsPool pool
pool-IsPool = record { bounded = omega arith; distinct = (refl, tt) }

abbrev one_path : String → List String
one_path s = s ∷ []

poll-IsPool_example :
    (t : Tracker) × ((poll one_path (λ s. s) pool (quiet graph)).0 ≡ ok t)
    × IsPool t
    × (t.max_workers ≡ 2)
poll-IsPool_example = poll-IsPool one_path (λ s. s) pool (quiet graph) pool-IsPool

child-IsReady : IsReady 2 (marked 1 completed (marked 1 active graph))
unfolding parent_rows
child-IsReady =
    count-IsReady 2 (marked 1 completed (marked 1 active graph))
      (count-IsFinished 2 (marked 1 completed (marked 1 active graph)) refl) refl

settle_run_completes_example :
    let final = (settle_run 1 (decided (validate ∷ complete ∷ [])) (quiet graph)).1.tables in
    IsCompleted 1 final
    × ((e : Dependency)
        → IsIn e graph.dependencies
        → e.depends_on_id ≡ 1
        → IsReady e.task_id (marked 1 completed (marked 1 active graph))
        → NotBlocked e.task_id final)
settle_run_completes_example = settle_run_completes 1 (validate ∷ []) [] graph ((refl, refl), tt)

child_settled :
    NotBlocked 2 (settle_run 1 (decided (validate ∷ complete ∷ [])) (quiet graph)).1.tables
child_settled =
    (settle_run_completes 1 (validate ∷ []) [] graph ((refl, refl), tt)).1
      (record { task_id = 2; depends_on_id = 1 }) (here refl) refl child-IsReady

-- The daemon stopped after task 1 had completed, and before its child was unblocked.
abbrev restart : Dag
restart = record graph {
  tasks = task 1 completed ∷ record (task 2 blocked) { depends_on = 1 } ∷ [];
}

restart_resumes : resume_active_tasks (quiet restart) ≡ (
  ok tt,
  quiet (record restart {
    tasks = task 1 completed ∷ record (task 2 pending) { depends_on = 1 } ∷ [];
  }),
)
unfolding resume_active_tasks resume_each resume_task get_task get_ready_tasks get_blocked_tasks
    unblock_dependents parent_rows
restart_resumes = refl

restart_child-IsDue : IsDue (record { task_id = 2; depends_on_id = 1 }) restart
unfolding parent_rows
restart_child-IsDue = record {
  edge = here refl;
  ready = count-IsReady 2 restart (count-IsFinished 2 restart refl) refl;
  parent = (task 1 completed, here refl, refl);
}

resume_active_tasks-NotBlocked_example :
    (d : Dag) × (resume_active_tasks (quiet restart) ≡ (ok tt, quiet d)) × NotBlocked 2 d
resume_active_tasks-NotBlocked_example =
    resume_active_tasks-NotBlocked restart (record (task 2 blocked) { depends_on = 1 })
      (there (here refl)) refl (λ e. ground arith) restart_child-IsDue
