-- ===== src/Orchestrator/Terminal.antt =====
-- internal/orchestrator/orchestrator.go: `finalizeTerminal` and `tombstoneBeforeKill`.
pub mod Closes
use omni_orchestration.Prelude.{
  ℕ, String, Bool, true, false, not, Option, none, some, List, [], ◌∷◌, if◌then◌else◌,
}
use Prim.Native.String.{◌++◌ as append}
use omni_orchestration.Session.{Result, ok, err}
use omni_orchestration.Taskstore.{
  Status, completed, failed, cancelled, Attempt, WorkerRecord, Error,
}
use omni_orchestration.Taskstore.Work.{
  get_attempt, get_worker, update_attempt_status, update_worker_status, update_run_status,
  update_task_status,
}
use omni_orchestration.Orchestrator.Authority.{Authority, current_authority, record_tombstone}
use omni_orchestration.Orchestrator.Format.{show_status}
use omni_orchestration.Orchestrator.World.{
  World, Program, pure, ◌>>=◌, ◌>>◌, on_store, close_worker,
}

-- `attemptState`: its runtime is known by the PID, its worker's row by `worker_id`.
pub record Tracked : Type 0 where
  pub attempt_id : ℕ
  pub number : ℕ
  pub worker_id : ℕ
  pub pid : ℕ
  pub branch : String

abbrev pub is_terminal : Status → Bool
is_terminal completed = true
is_terminal failed = true
is_terminal cancelled = true
is_terminal _ = false

-- `err == nil && !isTerminal(cur.Status)`.
abbrev pub is_open_attempt : Result Error Attempt → Bool
is_open_attempt (ok a) = not (is_terminal a.status)
is_open_attempt (err _) = false

abbrev pub is_open_worker : Result Error WorkerRecord → Bool
is_open_worker (ok w) = not (is_terminal w.status)
is_open_worker (err _) = false

unfoldable pub settle_attempt : ℕ → Status → Program (Unit {0})
unfolding get_attempt update_attempt_status
settle_attempt id st = do
  cur ← on_store (get_attempt id)
  if is_open_attempt cur then (do on_store (update_attempt_status id st); pure tt) else pure tt

unfoldable pub settle_worker : ℕ → Status → Program (Unit {0})
unfolding get_worker update_worker_status
settle_worker id st = do
  cur ← on_store (get_worker id)
  if is_open_worker cur then (do on_store (update_worker_status id st); pure tt) else pure tt

unfoldable pub settle_tracked : Status → Tracked → Program (Unit {0})
unfolding settle_attempt settle_worker
settle_tracked st a = do
  close_worker a.pid
  settle_attempt a.attempt_id st
  settle_worker a.worker_id st

unfoldable pub settle_all : Status → List Tracked → Program (Unit {0})
unfolding settle_tracked
settle_all st [] = pure tt
settle_all st (a ∷ rest) = do settle_tracked st a; settle_all st rest

unfoldable pub settle_last : Status → Option Tracked → Program (Unit {0})
unfolding settle_tracked
settle_last st none = pure tt
settle_last st (some a) = settle_tracked st a

abbrev pub authority_of : Result Error Authority → Authority
authority_of (ok a) = a
authority_of (err _) = record {
  run_epoch = 0;
  task_generation = 0;
  attempt_generation = 0;
  worker_lease_generation = 0;
  base_sha = "";
}

unfoldable pub tombstone_before_kill : ℕ → ℕ → String → Program (Unit {0})
unfolding current_authority record_tombstone
tombstone_before_kill run task action = do
  auth ← on_store (current_authority run task)
  on_store (record_tombstone run action (authority_of auth))
  pure tt

-- The tracked attempts, then the one at hand once more, then the run and the task.
unfoldable pub finalize_terminal :
    ℕ → ℕ → List Tracked → Option Tracked → Status → Program (Unit {0})
unfolding tombstone_before_kill settle_all settle_last update_run_status update_task_status
finalize_terminal run task tracked last st = do
  tombstone_before_kill run task (append "finalizeTerminal:" (show_status st))
  settle_all st tracked
  settle_last st last
  on_store (update_run_status run st)
  on_store (update_task_status task st)
  pure tt
