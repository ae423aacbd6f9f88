-- ===== src/Orchestrator/Observe.antt =====
-- internal/orchestrator/orchestrator.go: `observeAndWait` and what it reports, `wakeCoordinator`, and
-- the functions of a round's result.
pub mod Keeps
use omni_orchestration.Prelude.{
  ℕ, String, str_eq, Bool, true, false, not, ◌&&◌, ◌||◌, Option, none, some, List, [], ◌∷◌, ◌==◌,
  if◌then◌else◌,
}
use Prim.Native.String.{◌++◌ as append}
use omni_orchestration.Session.{Result, ok, err}
use omni_orchestration.Mailbox.{
  MessageType, attempt_completed, validation_accepted, validation_rejected, Envelope, waiting,
  enqueue,
}
use omni_orchestration.Dag.Unblock.{unblock_dependents}
use omni_orchestration.Supervisor.{State, unknown, active, quiescent_candidate, exited, crashed}
use omni_orchestration.Taskstore.{Status, completed, failed}
use omni_orchestration.Taskstore.Work.{
  update_attempt_status, update_attempt_checkpoint, update_worker_status,
}
use omni_orchestration.Taskstore.Records.{record_attempt_outcome}
use omni_orchestration.Coordinator.{
  Decision, validate, continue, complete, retry_clean, WakePacket, WakeResponse, WakeError, wake,
}
use omni_orchestration.Orchestrator.Attempts.{Context}
use omni_orchestration.Orchestrator.Format.{show_status, show_bool, attempt_message}
use omni_orchestration.Orchestrator.Terminal.{Tracked}
use omni_orchestration.Orchestrator.World.{
  Config, Observation, World, Program, pure, ◌>>=◌, ◌>>◌, on_store, on_mailbox, on_graph,
  close_worker,
}

-- Without a coordinator every answer is VALIDATE.
abbrev pub auto_validate : Context → WakeResponse
auto_validate c = record {
  decision = validate;
  reason = "no coordinator";
  next_instruction = c.cfg.task;
}

-- The generation is read right before the wake.
unfoldable pub wake_coordinator : Context → WakePacket → Program (Result WakeError WakeResponse)
unfolding wake
wake_coordinator c p w =
    if c.cfg.has_coordinator
    then (
      (wake c.env.engine w.coordinator.gen p w.coordinator).0,
      record w { coordinator = (wake c.env.engine w.coordinator.gen p w.coordinator).1 },
    )
    else (ok (auto_validate c), w)

-- `none` is the zero value of a state, the empty text.
abbrev pub show_state : Option State → String
show_state none = ""
show_state (some unknown) = "UNKNOWN"
show_state (some active) = "ACTIVE"
show_state (some quiescent_candidate) = "QUIESCENT_CANDIDATE"
show_state (some exited) = "EXITED"
show_state (some crashed) = "CRASHED"

-- The variables `finalState`, `exited` and `exitCode`.
pub record Watch : Type 0 where
  pub state : Option State
  pub has_exited : Bool
  pub exit_code : ℕ

abbrev pub nothing_seen : Watch
nothing_seen = record { state = none; has_exited = false; exit_code = 0 }

abbrev pub quiescent_packet : Context → WakePacket
quiescent_packet c = record {
  run_id = c.run_id;
  task_id = c.task_id;
  task_title = c.cfg.task;
  attempt_number = 1;
  attempt_status = "running";
  worker_state = "QUIESCENT_CANDIDATE";
  exit_code = 0;
  checkpoint_sha = "";
  validator_output = "";
  diff_summary = "";
  allowed_decisions = "CONTINUE" ∷ "RETRY_CLEAN" ∷ "FAIL" ∷ [];
}

abbrev pub answers : Decision → Result WakeError WakeResponse → Bool
answers d (ok r) = str_eq r.decision d
answers d (err _) = false

abbrev pub ended : State → ℕ → Watch
ended st code = record { state = some st; has_exited = true; exit_code = code }

-- After the answer on a quiet worker: CONTINUE waits and goes on, RETRY_CLEAN closes the worker, and
-- with any other answer, or none, the loop goes on too.
unfoldable pub after_quiet :
    Tracked → ℕ → Program Watch → Result WakeError WakeResponse → Program Watch
after_quiet a code rest resp =
    if answers continue resp
    then rest
    else if answers retry_clean resp
    then (do close_worker a.pid; pure (ended quiescent_candidate code))
    else rest

-- The loop over the supervisor's channel.
unfoldable pub watch : Context → Tracked → ℕ → Watch → List State → Program Watch
unfolding wake_coordinator after_quiet
watch c a code seen [] = pure seen
watch c a code seen (st ∷ later) =
    let rest = watch c a code (record seen { state = some st }) later in
    elim st [
      | exited ↦ pure (ended exited code)
      | crashed ↦ pure (ended crashed code)
      | quiescent_candidate ↦ wake_coordinator c (quiescent_packet c) >>= after_quiet a code rest
      | _ ↦ rest
    ]

pub record ObserveResult : Type 0 where
  pub state : Option State
  pub checkpoint : String
  pub decision : Decision
  pub has_exited : Bool
  pub validator_passed : Bool
  pub exit_code : ℕ

unfoldable pub derive_decision : Option State → Bool → Decision
derive_decision (some exited) passed = if passed then complete else retry_clean
derive_decision (some crashed) passed = retry_clean
derive_decision _ passed = continue

abbrev pub validator_result : ObserveResult → String
validator_result r = if r.validator_passed then "PASS" else "FAIL"

unfoldable pub allowed_decisions : ObserveResult → List String
allowed_decisions r =
    if r.validator_passed
    then "COMPLETE" ∷ "RETRY_CLEAN" ∷ "FAIL" ∷ []
    else if r.has_exited
    then "RETRY_CLEAN" ∷ "REPLACE" ∷ "FAIL" ∷ []
    else "CONTINUE" ∷ "RETRY_CLEAN" ∷ "FAIL" ∷ []

abbrev pub envelope : Context → Tracked → String → MessageType → String → Envelope
envelope c a what type payload = record {
  message_id = attempt_message a.attempt_id what;
  run_id = c.run_id;
  run_epoch = 1;
  task_id = c.task_id;
  task_generation = 1;
  attempt_id = a.attempt_id;
  attempt_generation = 1;
  sender = "orchestrator";
  recipient = "coordinator";
  type = type;
  artifact_refs = "";
  payload = payload;
  ack_required = 0;
  delivery = waiting;
  acked_at = none;
  leased_at = none;
  delivery_attempt = 0;
  lease_owner = "";
}

abbrev pub completed_message : Context → Tracked → Status → Bool → Envelope
completed_message c a st passed = envelope c a "completed" attempt_completed (
    append "{\"status\":\""
      (append (show_status st) (append "\",\"validator_passed\":" (append (show_bool passed) "}"))))

abbrev pub verdict_type : Bool → MessageType
verdict_type passed = if passed then validation_accepted else validation_rejected

abbrev pub validation_message : Context → Tracked → Bool → Envelope
validation_message c a passed =
    envelope c a "validation" (verdict_type passed)
      (append "{\"passed\":" (append (show_bool passed) "}"))

-- Errors of the mailbox and of the graph are logged. The graph is given the attempt's id.
unfoldable pub report : Context → Tracked → Status → Bool → Program (Unit {0})
unfolding enqueue attempt_message unblock_dependents
report c a st passed =
    if c.cfg.has_mailbox
    then (do
      on_mailbox (enqueue (some (completed_message c a st passed)))
      on_mailbox (enqueue (some (validation_message c a passed)))
      if passed && c.cfg.has_graph
          then (do on_graph (unblock_dependents a.attempt_id); pure tt)
          else pure tt)
    else pure tt

abbrev pub validator_passes : Config → Observation → Bool
validator_passes cfg o = not (str_eq cfg.validator "") && o.passes

abbrev pub outcome : Bool → ℕ → Status
outcome passed code = if not passed || not (code == 0) then failed else completed

unfoldable pub conclude : Context → Observation → Tracked → Watch → Program ObserveResult
unfolding update_attempt_checkpoint update_attempt_status update_worker_status report
    record_attempt_outcome derive_decision
conclude c o a seen = do
  on_store (update_attempt_checkpoint a.attempt_id o.checkpoint)
  on_store (update_attempt_status a.attempt_id (outcome (validator_passes c.cfg o) seen.exit_code))
  on_store (update_worker_status a.worker_id (outcome (validator_passes c.cfg o) seen.exit_code))
  report c a (outcome (validator_passes c.cfg o) seen.exit_code) (validator_passes c.cfg o)
  on_store (record_attempt_outcome c.run_id a.number (validator_passes c.cfg o) o.duration_ms)
  pure (record {
    state = seen.state;
    checkpoint = o.checkpoint;
    decision = derive_decision seen.state (validator_passes c.cfg o);
    has_exited = seen.has_exited;
    validator_passed = validator_passes c.cfg o;
    exit_code = seen.exit_code;
  })

-- `Recover` stops the worker first, whatever ended the watch; the rest of it is in `o.checkpoint`.
unfoldable pub observe_and_wait : Context → Observation → Tracked → Program ObserveResult
unfolding watch conclude
observe_and_wait c o a = do
  seen ← watch c a o.exit_code nothing_seen o.states
  close_worker a.pid
  conclude c o a seen
