-- ===== src/Orchestrator/Launch/Quiet.antt =====
-- The worker processes that `Run` leaves.
use omni_orchestration.Prelude.{
  ℕ, suc, refl, ◌==◌, str_eq, not, ◌&&◌, Option, none, some, List, [], ◌∷◌, inl, inr, Bool-cases,
}
use omni_orchestration.Session.{Result, ok, err}
use omni_orchestration.Taskstore.{Attempt, Task, Run, Error, cancelled, failed}
use omni_orchestration.Taskstore.Work.{
  get_run, get_task, get_active_attempts, update_attempt_status,
}
use omni_orchestration.Coordinator.{fail, WakeResponse}
use omni_orchestration.Orchestrator.Attempts.{Context, RunError}
use omni_orchestration.Orchestrator.Observe.{wake_coordinator}
use omni_orchestration.Orchestrator.Observe.Keeps.{wake_coordinator-Keeps}
use omni_orchestration.Orchestrator.Run.{or_fail}
use omni_orchestration.Orchestrator.Run.Closed.{
  IsQuiet, Keeps-IsQuiet, run_loop-IsQuiet, finalize_terminal-IsQuiet,
}
use omni_orchestration.Orchestrator.Launch.{
  is_incomplete, run, launch, with_context, with_first, first_packet, first_state, open_run,
  reconcile_attempts, cancel_stale, is_gone, or_none, with_run, with_rows, with_task, announce,
  run_row, task_row, found,
}
use omni_orchestration.Orchestrator.Terminal.Closes.{Keeps, Keeps-refl, Keeps-trans}
use omni_orchestration.Orchestrator.World.{Config, Environment, World, on_store}

cancel_stale-Keeps :
    (env : Environment) (attempts : List Attempt) (w : World)
    → Keeps w (cancel_stale env attempts w).1
unfolding cancel_stale
cancel_stale-Keeps env [] w = Keeps-refl w
cancel_stale-Keeps env (a ∷ rest) w = elim (Bool-cases (is_gone env a)) [
  | inl gone ↦
      rw gone (cancel_stale-Keeps env rest (on_store (update_attempt_status a.id cancelled) w).1)
  | inr kept ↦ rw kept (cancel_stale-Keeps env rest w)
]

reconcile_attempts-Keeps : (env : Environment) (w : World) → Keeps w (reconcile_attempts env w).1
unfolding reconcile_attempts
reconcile_attempts-Keeps env w =
    let (existing, w1) = on_store get_active_attempts w in
    cancel_stale-Keeps env (or_none existing) w1

run_row-Keeps : (r : Option Run) (w : World) → Keeps w (run_row r w).1
run_row-Keeps (some r) w = Keeps-refl w
run_row-Keeps none w = (refl, λ pid m. m)

task_row-Keeps :
    (cfg : Config) (id : ℕ) (t : Option Task) (w : World) → Keeps w (task_row cfg id t w).1
task_row-Keeps cfg id (some t) w = Keeps-refl w
task_row-Keeps cfg id none w = (refl, λ pid m. m)

announce-Keeps : (cfg : Config) (id : ℕ) (w : World) → Keeps w (announce cfg id w).1
unfolding announce
announce-Keeps cfg id w = elim (Bool-cases (not (str_eq cfg.provider "") && cfg.run_id == 0)) [
  | inl new ↦ rw new (refl, λ pid m. m)
  | inr given ↦ rw given (refl, λ pid m. m)
]

with_task-Keeps :
    (cfg : Config) (env : Environment) (id : ℕ) (t : Result Error Task) (w : World)
    → Keeps w (with_task cfg env id t w).1
with_task-Keeps cfg env id (ok t) w = Keeps-refl w
with_task-Keeps cfg env id (err e) w = Keeps-refl w

with_run-Keeps :
    (cfg : Config) (env : Environment) (t : Option Task) (r : Result Error Run) (w : World)
    → Keeps w (with_run cfg env t r w).1
unfolding with_run
with_run-Keeps cfg env t (err e) w = Keeps-refl w
with_run-Keeps cfg env t (ok r) w =
    let w1 = (announce cfg r.id w).1 in
    let (row, w2) = task_row cfg r.id t w1 in
    Keeps-trans w w1 (with_task cfg env r.id row w2).1 (announce-Keeps cfg r.id w) (
      Keeps-trans w1 w2 (with_task cfg env r.id row w2).1 (task_row-Keeps cfg r.id t w1)
        (with_task-Keeps cfg env r.id row w2))

with_rows-Keeps :
    (cfg : Config) (env : Environment) (r : Option Run) (t : Option Task) (w : World)
    → Keeps w (with_rows cfg env r t w).1
unfolding with_rows
with_rows-Keeps cfg env r t w =
    let (row, w1) = run_row r w in
    Keeps-trans w w1 (with_run cfg env t row w1).1 (run_row-Keeps r w)
      (with_run-Keeps cfg env t row w1)

open_run-Keeps : (cfg : Config) (env : Environment) (w : World) → Keeps w (open_run cfg env w).1
unfolding open_run
open_run-Keeps cfg env w = elim (Bool-cases (cfg.run_id == 0)) [
  | inl new ↦ rw new (with_rows-Keeps cfg env none none w)
  | inr given ↦
      let (r, w1) = on_store (get_run cfg.run_id) w in
      let (t, w2) = on_store (get_task cfg.task_id) w1 in
      rw given (with_rows-Keeps cfg env (found r) (found t) w2)
]

with_first-IsQuiet :
    (c : Context) (r : WakeResponse) (w : World) → IsQuiet w → IsQuiet (with_first c r w).1
unfolding with_first
with_first-IsQuiet c r w h = elim (Bool-cases (str_eq r.decision fail)) [
  | inl failing ↦ rw failing (finalize_terminal-IsQuiet c.run_id c.task_id [] none failed w h)
  | inr going ↦ rw going (run_loop-IsQuiet (suc c.max_attempts) c (first_state c r) w h)
]

with_context-IsQuiet :
    (opened : Result RunError Context) (w : World) → IsQuiet w → IsQuiet (with_context opened w).1
unfolding with_context
with_context-IsQuiet (err e) w h = h
with_context-IsQuiet (ok c) w h =
    let (woken, w1) = wake_coordinator c (first_packet c) w in
    with_first-IsQuiet c (or_fail c woken) w1
      (Keeps-IsQuiet w w1 (wake_coordinator-Keeps c (first_packet c) w) h)

-- A run that begins where the runtime of every process started is closed ends so, whatever the store, the
-- engine, the workers and the validator do, and whether it returns an error or not.
pub run-IsQuiet :
    (cfg : Config) (env : Environment) (w : World) → IsQuiet w → IsQuiet (run cfg env w).1
unfolding run launch
run-IsQuiet cfg env w h = elim (Bool-cases (is_incomplete cfg)) [
  | inl missing ↦ rw missing h
  | inr given ↦
      let w1 = (reconcile_attempts env w).1 in
      let (opened, w2) = open_run cfg env w1 in
      let k : Keeps w w2 =
        Keeps-trans w w1 w2 (reconcile_attempts-Keeps env w) (open_run-Keeps cfg env w1) in
      rw given (with_context-IsQuiet opened w2 (Keeps-IsQuiet w w2 k h))
]
