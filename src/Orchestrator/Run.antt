-- ===== src/Orchestrator/Run.antt =====
-- internal/orchestrator/orchestrator.go: `Run`, its loop over the attempts one round at a time, and
-- `DecisionGateway.Validate` with a durable store. The fuel of `run` bounds the rounds: each one but
-- the last has a number of its own up to `max_attempts`.
pub mod Bounds
pub mod Closed
pub mod Accepted
pub mod Rule
use omni_orchestration.Prelude.{
  ℕ, zero, suc, ◌+◌, String, str_eq, Bool, true, false, not, ◌&&◌, ◌||◌, Option, none, some, List,
  [], ◌∷◌, ◌++◌, ◌==◌, ltb, if◌then◌else◌,
}
use Prim.Native.String.{◌++◌ as append}
use omni_orchestration.Session.{Result, ok, err}
use omni_orchestration.Taskstore.{
  Status, completed, failed, cancelled, Attempt, Run, Task, RunRecord, Error,
}
use omni_orchestration.Taskstore.Work.{
  get_run, create_run, get_task, create_task, get_active_attempts, update_attempt_status,
  update_worker_status, update_run_status, update_task_status,
}
use omni_orchestration.Taskstore.Effects.{record_effect}
use omni_orchestration.Taskstore.Records.{get_run_record, record_run, record_candidate}
use omni_orchestration.Coordinator.{
  Decision, validate, complete, replace_worker, fail, WakePacket, WakeResponse, WakeError,
}
use omni_orchestration.Orchestrator.Attempts.{
  Context, RunError, missing_config, context_done, create_run_failed, create_task_failed,
  effect_failed, gateway_rejected, candidate_failed, candidate_impossible, open_attempt,
}
use omni_orchestration.Orchestrator.Format.{effect_key}
use omni_orchestration.Orchestrator.Observe.{
  wake_coordinator, ObserveResult, show_state, validator_result, allowed_decisions,
  observe_and_wait,
}
use omni_orchestration.Orchestrator.Terminal.{Tracked, finalize_terminal}
use omni_orchestration.Orchestrator.World.{
  Config, Environment, World, Program, pure, ◌>>=◌, ◌>>◌, on_store,
}

pub record LoopState : Type 0 where
  pub first_decision : Decision
  pub number : ℕ
  pub auto_count : ℕ
  pub base : String
  pub instruction : String
  pub tracked : List Tracked
  pub decisions : List Decision

-- What `Run` returns; `none` is no error.
pub record Ending : Type 0 where
  pub decisions : List Decision
  pub error : Option RunError

pub data Step : Type 0 where
  stop : Ending → Step
  again : LoopState → Step

abbrev pub ending : List Decision → Option RunError → Step
ending ds e = stop (record { decisions = ds; error = e })

unfoldable pub finish :
    Context → LoopState → Option Tracked → Status → Option RunError → Program Step
unfolding finalize_terminal
finish c s last st e = do
  finalize_terminal c.run_id c.task_id s.tracked last st
  pure (ending s.decisions e)

-- The four updates before an error on the way to COMPLETE; nothing is closed.
unfoldable pub abandon : Context → LoopState → Tracked → RunError → Program Step
unfolding update_run_status update_task_status update_attempt_status update_worker_status
abandon c s a e = do
  on_store (update_run_status c.run_id failed)
  on_store (update_task_status c.task_id failed)
  on_store (update_attempt_status a.attempt_id failed)
  on_store (update_worker_status a.worker_id failed)
  pure (ending s.decisions (some e))

-- `DecisionGateway.Validate`: its generation grows when it accepts.
unfoldable pub gateway_validate : Decision → Bool → Program Bool
gateway_validate d passed w =
    if str_eq d complete && not passed
    then (false, w)
    else (true, record w { gateway = w.gateway + 1 })

unfoldable pub with_candidate :
    Context → LoopState → Tracked → Result Error (Unit {0}) → Program Step
unfolding finish abandon
with_candidate c s a (ok _) = finish c s (some a) completed none
with_candidate c s a (err e) = abandon c s a (candidate_failed e)

-- A run without a record is refused only where the provider is known.
unfoldable pub with_record : Context → LoopState → Tracked → Result Error RunRecord → Program Step
unfolding record_candidate with_candidate finish abandon
with_record c s a (ok _) = do
  marked ← on_store (record_candidate c.env.force_candidate_error c.run_id s.number)
  with_candidate c s a marked
with_record c s a (err e) =
    if str_eq c.cfg.provider ""
    then finish c s (some a) completed none
    else abandon c s a (candidate_impossible e)

unfoldable pub with_gateway : Context → LoopState → Tracked → Bool → Program Step
unfolding get_run_record with_record abandon
with_gateway c s a false = abandon c s a gateway_rejected
with_gateway c s a true = do found ← on_store (get_run_record c.run_id); with_record c s a found

abbrev pub starts_with_task : Context → String → Bool
starts_with_task c text = str_eq text "" || not (c.env.contains text c.cfg.task)

unfoldable pub next_instruction : Context → WakeResponse → String
next_instruction c r =
    if starts_with_task c r.next_instruction
    then append c.cfg.task (append "\n" r.next_instruction)
    else r.next_instruction

-- RETRY_CLEAN, REPLACE, and any decision but COMPLETE and FAIL.
unfoldable pub next_round : Context → LoopState → Tracked → WakeResponse → LoopState
unfolding next_instruction
next_round c s a r = record s {
  number = s.number + 1;
  instruction = next_instruction c r;
  base = if str_eq r.decision replace_worker then a.branch else "HEAD";
}

-- The decision applied once its effect key is recorded.
unfoldable pub apply_decision :
    Context → LoopState → Tracked → ObserveResult → WakeResponse → Program Step
unfolding gateway_validate with_gateway finish next_round
apply_decision c s a res r =
    if str_eq r.decision complete
    then (do
      accepted ← gateway_validate r.decision res.validator_passed
      with_gateway c s a accepted)
    else if str_eq r.decision fail
    then finish c s (some a) failed none
    else pure (again (next_round c s a r))

unfoldable pub with_effect :
    Context → LoopState → Tracked → ObserveResult → WakeResponse → Result Error Bool → Program Step
unfolding finish apply_decision
with_effect c s a res r (err e) = finish c s (some a) failed (some (effect_failed e))
with_effect c s a res r (ok false) = finish c s (some a) cancelled none
with_effect c s a res r (ok true) = apply_decision c s a res r

abbrev pub wake_failed : Context → WakeResponse
wake_failed c = record { decision = fail; reason = "wake failed"; next_instruction = c.cfg.task }

abbrev pub or_fail : Context → Result WakeError WakeResponse → WakeResponse
or_fail c (ok r) = r
or_fail c (err _) = wake_failed c

-- The response of a round: a failed wake is FAIL, and without a coordinator a validator that passes
-- is COMPLETE.
unfoldable pub response : Context → ObserveResult → Result WakeError WakeResponse → WakeResponse
response c res woken =
    if not c.cfg.has_coordinator && res.validator_passed
    then record {
      decision = complete;
      reason = "validator passed (no coordinator)";
      next_instruction = "";
    }
    else or_fail c woken

abbrev pub result_packet : Context → ℕ → ObserveResult → WakePacket
result_packet c number res = record {
  run_id = c.run_id;
  task_id = c.task_id;
  task_title = c.cfg.task;
  attempt_number = number;
  attempt_status = res.decision;
  worker_state = show_state res.state;
  exit_code = res.exit_code;
  checkpoint_sha = res.checkpoint;
  validator_output = validator_result res;
  diff_summary = "";
  allowed_decisions = allowed_decisions res;
}

abbrev pub decided_state : LoopState → Decision → LoopState
decided_state s d = record s { decisions = s.decisions ++ d ∷ [] }

unfoldable pub decide : Context → LoopState → Tracked → ObserveResult → WakeResponse → Program Step
unfolding record_effect effect_key with_effect
decide c s a res r = do
  is_new ← on_store (record_effect c.run_id (effect_key c.run_id s.number r.decision))
  with_effect c (decided_state s r.decision) a res r is_new

-- The rest of a round: `s` already tracks the attempt.
unfoldable pub work : Context → LoopState → Tracked → Program Step
unfolding observe_and_wait wake_coordinator response decide allowed_decisions
work c s a = do
  res ← observe_and_wait c (c.env.observation s.number) a
  woken ← wake_coordinator c (result_packet c s.number res)
  decide c s a res (response c res woken)

abbrev pub tracking : LoopState → Tracked → LoopState
tracking s a = record s { tracked = s.tracked ++ a ∷ [] }

unfoldable pub with_attempt : Context → LoopState → Result RunError Tracked → Program Step
unfolding finish work
with_attempt c s (err e) = finish c s none failed (some e)
with_attempt c s (ok a) = work c (tracking s a) a

abbrev pub is_automatic : Context → LoopState → Bool
is_automatic c s = str_eq s.first_decision validate && not c.cfg.has_coordinator

-- The counter of automatic VALIDATEs; the loop ends above three.
abbrev pub counted : Context → LoopState → LoopState
counted c s = record s { auto_count = if is_automatic c s then s.auto_count + 1 else 0 }

unfoldable pub attempt_round : Context → LoopState → Program Step
unfolding finish open_attempt with_attempt
attempt_round c s =
    if ltb c.max_attempts s.number
    then finish c s none failed none
    else (do made ← open_attempt c s.number s.base s.instruction; with_attempt c s made)

unfoldable pub round : Context → LoopState → Program Step
unfolding finish attempt_round
round c s =
    if c.env.is_done s.number
    then finish c s none cancelled (some context_done)
    else if is_automatic c s && ltb 3 (counted c s).auto_count
    then finish c (counted c s) none failed none
    else attempt_round c (counted c s)

abbrev pub follow : (LoopState → Program (Option Ending)) → Step → Program (Option Ending)
follow next (stop e) = pure (some e)
follow next (again s) = next s

-- `none` is a loop that has not ended within the fuel.
unfoldable pub run_loop : ℕ → Context → LoopState → Program (Option Ending)
unfolding round
run_loop zero c s = pure none
run_loop (suc fuel) c s = round c s >>= follow (run_loop fuel c)
