-- ===== src/Orchestrator/Recovery.antt =====
-- internal/orchestrator/recovery.go: `Reconcile` after a restart, and what `ResumeWithRecovery` makes of
-- the attempts that are still active. `alive` is whether signal 0 reaches a process.
pub mod Quiet
pub mod Lost
pub mod Again
use omni_orchestration.Prelude.{
  ℕ, ◌+◌, String, str_eq, Bool, true, false, not, ◌&&◌, ◌||◌, Option, none, some, List, [], ◌∷◌,
  ◌++◌, ltb, ◌==◌, length, if◌then◌else◌,
}
use omni_orchestration.Session.{Result, ok, err, pure, ◌>>=◌, ◌>>◌, attempt}
use omni_orchestration.Taskstore.{
  Status, pending, running, completed, failed, other_status, Attempt, WorkerRecord, Task, Error,
  StoreAction,
}
use omni_orchestration.Taskstore.Work.{
  get_active_attempts, get_task, get_worker_by_attempt, update_attempt_status, update_worker_status,
  update_run_status, update_task_status, is_active,
}

abbrev pub interrupted : Status
interrupted = other_status "interrupted"

-- `ReconcileResult`; nothing counts the stale coordinators.
pub record ReconcileResult : Type 0 where
  pub orphan_runs : ℕ
  pub recovered_runs : ℕ
  pub interrupted_count : ℕ
  pub errors : List Error

abbrev pub is_live : (ℕ → Bool) → Result Error WorkerRecord → Bool
is_live alive (ok w) = ltb 0 w.pid && alive w.pid
is_live alive (err _) = false

-- `runID` keeps its zero value when the task is not found.
abbrev pub run_of : Result Error Task → ℕ
run_of (ok t) = t.run_id
run_of (err _) = 0

abbrev pub mark_worker : Status → Result Error WorkerRecord → StoreAction (Unit {0})
mark_worker st (ok w) = attempt (update_worker_status w.id st) >> pure tt
mark_worker st (err _) = pure tt

-- The attempt's worker, its row, its run and its task; errors are dropped.
unfoldable pub terminalize : Attempt → StoreAction (Unit {0})
unfolding get_task get_worker_by_attempt update_worker_status update_attempt_status
    update_run_status update_task_status
terminalize a = do
  task ← attempt (get_task a.task_id)
  worker ← attempt (get_worker_by_attempt a.id)
  mark_worker interrupted worker
  attempt (update_attempt_status a.id interrupted)
  attempt (update_run_status (run_of task) interrupted)
  attempt (update_task_status a.task_id interrupted)
  pure tt

abbrev pub unless_live : Attempt → Bool → StoreAction ℕ
unless_live a true = pure 0
unless_live a false = do terminalize a; pure 1

-- One of the active attempts: a checkpoint or a live worker preserves it. The loop's test of the status
-- is left out, since `GetActiveAttempts` gives only rows that pass it.
unfoldable pub reconcile_one : (ℕ → Bool) → Attempt → StoreAction ℕ
unfolding get_worker_by_attempt terminalize
reconcile_one alive a =
    if str_eq a.checkpoint_commit ""
    then (do worker ← attempt (get_worker_by_attempt a.id); unless_live a (is_live alive worker))
    else pure 0

unfoldable pub reconcile_each : (ℕ → Bool) → List Attempt → StoreAction ℕ
unfolding reconcile_one
reconcile_each alive [] = pure 0
reconcile_each alive (a ∷ rest) = do
  n ← reconcile_one alive a
  m ← reconcile_each alive rest
  pure (n + m)

unfoldable pub reconcile_active :
    (ℕ → Bool) → Result Error (List Attempt) → StoreAction ReconcileResult
unfolding reconcile_each
reconcile_active alive (err e) =
    pure (record { orphan_runs = 0; recovered_runs = 0; interrupted_count = 0; errors = e ∷ [] })
reconcile_active alive (ok active) = do
  n ← reconcile_each alive active
  pure (record {
    orphan_runs = length active;
    recovered_runs = length active;
    interrupted_count = n;
    errors = [];
  })

-- `Reconcile`, and `RecoverOnly`, which logs the result.
unfoldable pub reconcile : (ℕ → Bool) → StoreAction ReconcileResult
unfolding get_active_attempts reconcile_active
reconcile alive = do active ← attempt get_active_attempts; reconcile_active alive active

abbrev pub stale_coordinator_detected : ℕ → ℕ → Bool
stale_coordinator_detected generation last_known =
    ltb 0 generation && (ltb 0 last_known && not (generation == last_known))
