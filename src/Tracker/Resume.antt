-- ===== src/Tracker/Resume.antt =====
-- internal/daemon/tracker.go: `ResumeActiveTasks`, which the daemon calls when it starts again.
pub mod Freed
use omni_orchestration.Prelude.{Bool, false, List, [], ◌∷◌, ◌==◌, if◌then◌else◌}
use omni_orchestration.Session.{Result, ok, err, pure, ◌>>=◌, ◌>>◌, attempt}
use omni_orchestration.Dag.{
  Task, Error, DagAction, completed, same_status, get_ready_tasks, get_blocked_tasks, get_task,
}
use omni_orchestration.Dag.Unblock.{unblock_dependents}
use omni_orchestration.Tracker.{or_no_tasks}

abbrev pub is_completed : Result Error Task → Bool
is_completed (ok t) = same_status t.status completed
is_completed (err _) = false

-- The single parent of a blocked task, if it has completed; errors are dropped.
unfoldable pub resume_task : Task → DagAction (Unit {0})
resume_task t = if t.depends_on == 0 then pure tt else do
  parent ← attempt (get_task t.depends_on)
  if is_completed parent then (attempt (unblock_dependents t.depends_on) >> pure tt) else pure tt

unfoldable pub resume_each : List Task → DagAction (Unit {0})
resume_each [] = pure tt
resume_each (t ∷ ts) = do resume_task t; resume_each ts

-- The ready tasks are only logged.
unfoldable pub resume_active_tasks : DagAction (Unit {0})
resume_active_tasks = do
  attempt get_ready_tasks
  waiting ← attempt get_blocked_tasks
  resume_each (or_no_tasks waiting)
