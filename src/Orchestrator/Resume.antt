-- ===== src/Orchestrator/Resume.antt =====
-- internal/orchestrator/recovery.go: `ResumeWithRecovery` and `ResumeRun`. A goroutine that watches an
-- attempt taken over sees its process end at the earliest after two seconds, when the loop over the
-- attempts is through; the goroutines' updates stand after the loop, in the order of the attempts.
pub mod Ours
use omni_orchestration.Prelude.{
  ℕ, String, str_eq, Bool, true, false, not, Option, none, some, List, [], ◌∷◌, ◌++◌, codes,
  if◌then◌else◌,
}
use Prim.Native.String.{◌++◌ as append}
use omni_orchestration.Session.{Result, ok, err, pure, ◌>>=◌, ◌>>◌, attempt}
use omni_orchestration.Supervisor.{State, exited, crashed}
use omni_orchestration.Taskstore.{
  Status, running, completed, failed, Attempt, WorkerRecord, Task, Error, StoreAction,
}
use omni_orchestration.Taskstore.Work.{
  get_active_attempts, get_task, get_worker_by_attempt, update_attempt_status, update_worker_status,
  update_run_status, update_task_status,
}
use omni_orchestration.Coordinator.{Decision, fail, retry_clean, replace, CoordinatorRuntime}
use omni_orchestration.Runtime.{RuntimeError, new_with_id}
use omni_orchestration.Runtime.Attach.{AttachIdentity, Processes, attach}
use omni_orchestration.Orchestrator.Format.{show}
use omni_orchestration.Orchestrator.Launch.{or_none, run}
use omni_orchestration.Orchestrator.Recovery.{run_of, reconcile}
use omni_orchestration.Orchestrator.Run.{Ending}
use omni_orchestration.Orchestrator.World.{World, Config, Environment, Program, on_store}

-- What a goroutine sees: the states, in order, the exit code if it is 0 or above, and the validator.
pub record Watched : Type 0 where
  pub states : List State
  pub exit_code : Option ℕ
  pub passes : Bool

-- An attempt that is taken over, with its run.
pub record Owned : Type 0 where
  pub row : Attempt
  pub worker : WorkerRecord
  pub run_id : ℕ

abbrev pub stored_identity : WorkerRecord → AttachIdentity
stored_identity w = record {
  pid = w.pid;
  executable = codes w.command;
  cwd = codes w.cwd;
  start_time_ms = w.start_time;
  start_time_sec = 0;
  pgid = w.pgid;
}

abbrev pub fail_worker : Option WorkerRecord → StoreAction (Unit {0})
fail_worker none = pure tt
fail_worker (some w) = attempt (update_worker_status w.id failed) >> pure tt

-- The decision FAIL, with the updates before it.
unfoldable pub give_up : ℕ → Attempt → Option WorkerRecord → StoreAction (Decision × Option Owned)
unfolding update_attempt_status update_worker_status update_run_status update_task_status
give_up run_id a w = do
  attempt (update_attempt_status a.id failed)
  fail_worker w
  attempt (update_run_status run_id failed)
  attempt (update_task_status a.task_id failed)
  pure (fail, none)

abbrev pub attached : Processes → Attempt → WorkerRecord → Result RuntimeError (Unit {0})
attached os a w =
    (attach os w.pid (append "attached-" (show w.pid)) (stored_identity w) w.generation
      (new_with_id a.worker_id w.generation)).0

unfoldable pub with_attached :
    ℕ
    → Attempt
    → WorkerRecord
    → Result RuntimeError (Unit {0})
    → StoreAction (Decision × Option Owned)
unfolding give_up update_attempt_status
with_attached run_id a w (err e) = give_up run_id a (some w)
with_attached run_id a w (ok _) = do
  attempt (update_attempt_status a.id running)
  pure (retry_clean, some (record { row = a; worker = w; run_id = run_id }))

unfoldable pub with_worker :
    Processes → ℕ → Attempt → Result Error WorkerRecord → StoreAction (Decision × Option Owned)
unfolding give_up attach with_attached
with_worker os run_id a (err e) = give_up run_id a none
with_worker os run_id a (ok w) =
    if not (os.is_alive w.pid)
    then give_up run_id a (some w)
    else with_attached run_id a w (attached os a w)

unfoldable pub resume_one : Processes → Attempt → StoreAction (Decision × Option Owned)
unfolding get_task get_worker_by_attempt with_worker
resume_one os a = do
  task ← attempt (get_task a.task_id)
  worker ← attempt (get_worker_by_attempt a.id)
  with_worker os (run_of task) a worker

abbrev pub add_owned : Option Owned → List Owned → List Owned
add_owned none rest = rest
add_owned (some o) rest = o ∷ rest

unfoldable pub resume_each : Processes → List Attempt → StoreAction (List Decision × List Owned)
unfolding resume_one
resume_each os [] = pure ([], [])
resume_each os (a ∷ rest) = do
  first ← resume_one os a
  later ← resume_each os rest
  pure (first.0 ∷ later.0, add_owned first.1 later.1)

-- The status that a goroutine stores once the process has ended; `none` where it never sees that.
abbrev pub end_status : String → Watched → Status
end_status validator w = elim w.exit_code [
  | none ↦ failed
  | some code ↦ if str_eq validator "" then completed else if w.passes then completed else failed
]

unfoldable pub watched_status : String → Watched → List State → Option Status
watched_status validator w [] = none
watched_status validator w (exited ∷ later) = some (end_status validator w)
watched_status validator w (crashed ∷ later) = some failed
watched_status validator w (_ ∷ later) = watched_status validator w later

unfoldable pub store_status : Owned → Option Status → StoreAction (Unit {0})
unfolding update_attempt_status update_worker_status update_run_status update_task_status
store_status o none = pure tt
store_status o (some st) = do
  attempt (update_worker_status o.worker.id st)
  attempt (update_attempt_status o.row.id st)
  attempt (update_run_status o.run_id st)
  attempt (update_task_status o.row.task_id st)
  pure tt

unfoldable pub watch_each : String → (ℕ → Watched) → List Owned → StoreAction (Unit {0})
unfolding store_status watched_status
watch_each validator seen [] = pure tt
watch_each validator seen (o ∷ rest) = do
  store_status o (watched_status validator (seen o.row.id) (seen o.row.id).states)
  watch_each validator seen rest

unfoldable pub resume_active :
    Processes → String → (ℕ → Watched) → List Attempt → StoreAction (List Decision)
unfolding resume_each watch_each
resume_active os validator seen active = do
  owned ← resume_each os active
  watch_each validator seen owned.1
  pure owned.0

abbrev pub ending_of : Result Error (List Decision) → Option Ending
ending_of (ok ds) = some (record { decisions = ds; error = none })
ending_of (err _) = some (record { decisions = []; error = none })

-- With no active attempt left, a new run.
abbrev pub resume_or_run :
    Config → Environment → Processes → (ℕ → Watched) → List Attempt → Program (Option Ending)
resume_or_run cfg env os seen [] w = run cfg env w
resume_or_run cfg env os seen (a ∷ rest) w =
    let (made, w1) = on_store (resume_active os cfg.validator seen (a ∷ rest)) w in
    (ending_of made, w1)

unfoldable pub resume_with_recovery :
    Config → Environment → Processes → (ℕ → Watched) → Program (Option Ending)
unfolding reconcile get_active_attempts resume_active run
resume_with_recovery cfg env os seen w =
    let w1 = (on_store (reconcile os.is_alive) w).1 in
    let (active, w2) = on_store get_active_attempts w1 in
    resume_or_run cfg env os seen (or_none active) w2

abbrev pub replace_if : Bool → World → World
replace_if false w = w
replace_if true w = record w {
  coordinator = replace (append "coordinator-" (append w.coordinator.id "-resume")) w.coordinator;
}

abbrev pub reconcile_if : (ℕ → Bool) → List Attempt → Program (Unit {0})
reconcile_if alive [] w = (tt, w)
reconcile_if alive (a ∷ rest) w = (tt, (on_store (reconcile alive) w).1)

-- The attempts are read again after the reconciliation, for the log.
unfoldable pub resume_run : Config → Environment → (ℕ → Bool) → Program (Option Ending)
unfolding reconcile get_active_attempts replace run
resume_run cfg env alive w =
    let (active, w1) = on_store get_active_attempts w in
    let w2 = (reconcile_if alive (or_none active) w1).1 in
    let w3 = (on_store get_active_attempts w2).1 in run cfg env (replace_if cfg.has_coordinator w3)
