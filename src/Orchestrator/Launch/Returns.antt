-- ===== src/Orchestrator/Launch/Returns.antt =====
-- internal/orchestrator/orchestrator.go: the rounds of `Run`, against the attempts allowed.
use omni_orchestration.Prelude.{
  ℕ, suc, ◌+◌, ◌≤◌, ◌≡◌, ◌≢◌, refl, ◌==◌, str_eq, Option, none, some, [], ◌∷◌, length, arith, inl,
  inr, Bool-cases,
}
use omni_orchestration.Session.{Result, ok, err}
use omni_orchestration.Taskstore.{Task, Run, Error}
use omni_orchestration.Taskstore.Work.{get_run, get_task}
use omni_orchestration.Coordinator.{fail, WakeResponse}
use omni_orchestration.Orchestrator.Attempts.{Context, RunError, missing_config, gateway_rejected}
use omni_orchestration.Orchestrator.Observe.{wake_coordinator}
use omni_orchestration.Orchestrator.Run.{Ending, or_fail}
use omni_orchestration.Orchestrator.Run.Bounds.{run_loop_finishes}
use omni_orchestration.Orchestrator.Launch.{
  is_incomplete, run, launch, with_context, with_first, first_packet, first_state, open_run,
  reconcile_attempts, or_default, with_run, with_rows, with_task, announce, run_row, task_row,
  found,
}
use omni_orchestration.Orchestrator.World.{Config, Environment, World, on_store}

abbrev Returns : ℕ → Option Ending × World → Type 0
Returns max out = (e : Ending) × (out.0 ≡ some e) × (length e.decisions ≤ max + 1)

with_first-Returns :
    (c : Context) (r : WakeResponse) (w : World) → Returns c.max_attempts (with_first c r w)
unfolding with_first
with_first-Returns c r w = elim (Bool-cases (str_eq r.decision fail)) [
  | inl failing ↦
      rw failing (record { decisions = r.decision ∷ []; error = none }, refl, omega arith)
  | inr going ↦
      let (e, given, bound) =
        run_loop_finishes (suc c.max_attempts) c (first_state c r) w (omega arith) in
      rw going (e, given, omega arith)
]

-- The context of a run that is opened: its bound is the configured one, 3 where that is 0. An error is
-- none of the gateway's.
abbrev pub Fits : Config → Environment → Result RunError Context → Type 0
Fits cfg env (ok c) = (c.max_attempts ≡ or_default cfg.max_attempts) × (c.cfg ≡ cfg) × (c.env ≡ env)
Fits cfg env (err e) = e ≢ gateway_rejected

with_task-Fits :
    (cfg : Config) (env : Environment) (id : ℕ) (t : Result Error Task) (w : World)
    → Fits cfg env (with_task cfg env id t w).0
with_task-Fits cfg env id (ok t) w = (refl, refl, refl)
with_task-Fits cfg env id (err e) w = λ k. cc

with_run-Fits :
    (cfg : Config) (env : Environment) (task : Option Task) (r : Result Error Run) (w : World)
    → Fits cfg env (with_run cfg env task r w).0
unfolding with_run
with_run-Fits cfg env task (err e) w = λ k. cc
with_run-Fits cfg env task (ok r) w =
    let w1 = (announce cfg r.id w).1 in
    let (row, w2) = task_row cfg r.id task w1 in with_task-Fits cfg env r.id row w2

with_rows-Fits :
    (cfg : Config) (env : Environment) (r : Option Run) (t : Option Task) (w : World)
    → Fits cfg env (with_rows cfg env r t w).0
unfolding with_rows
with_rows-Fits cfg env r t w = let (row, w1) = run_row r w in with_run-Fits cfg env t row w1

pub open_run-Fits :
    (cfg : Config) (env : Environment) (w : World) → Fits cfg env (open_run cfg env w).0
unfolding open_run
open_run-Fits cfg env w = elim (Bool-cases (cfg.run_id == 0)) [
  | inl new ↦ rw new (with_rows-Fits cfg env none none w)
  | inr given ↦
      let (r, w1) = on_store (get_run cfg.run_id) w in
      let (t, w2) = on_store (get_task cfg.task_id) w1 in
      rw given (with_rows-Fits cfg env (found r) (found t) w2)
]

with_context-Returns :
    (cfg : Config) (env : Environment) (opened : Result RunError Context) (w : World)
    → Fits cfg env opened
    → Returns (or_default cfg.max_attempts) (with_context opened w)
unfolding with_context
with_context-Returns cfg env (err e) w h =
    (record { decisions = []; error = some e }, refl, omega arith)
with_context-Returns cfg env (ok c) w h =
    let (woken, w1) = wake_coordinator c (first_packet c) w in
    let (e, given, bound) = with_first-Returns c (or_fail c woken) w1 in
    (e, given, omega (arith, h.0))

-- Where every call of the store, git, the validator and the engine returns and every worker's watch
-- receives finitely many events, as an `Environment` has it, the rounds of `Run` do not run out: it gives
-- an ending, whose decisions are at most one more than the attempts allowed, 3 where none are configured.
pub run_returns :
    (cfg : Config) (env : Environment) (w : World)
    → (e : Ending) × ((run cfg env w).0 ≡ some e)
      × (length e.decisions ≤ or_default cfg.max_attempts + 1)
unfolding run launch
run_returns cfg env w = elim (Bool-cases (is_incomplete cfg)) [
  | inl missing ↦
      rw missing (record { decisions = []; error = some missing_config }, refl, omega arith)
  | inr complete ↦
      let w1 = (reconcile_attempts env w).1 in
      let (opened, w2) = open_run cfg env w1 in
      rw complete (with_context-Returns cfg env opened w2 (open_run-Fits cfg env w1))
]
