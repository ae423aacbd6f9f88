-- ===== src/Coordinator.antt =====
-- internal/coordinator/coordinator.go, runtime.go and the decision names of codex_coordinator.go: a
-- decision, and the runtime that asks for one under a generation. The decision engine (`Coordinator`)
-- is an argument, a function that also says what happens to the runtime meanwhile; so are the JSON
-- decoder and `strings.ToUpper(strings.TrimSpace(_))` of Go's library.
pub mod Gate
pub mod Parse
pub mod Extract
mod Tests
use omni_orchestration.Prelude.{
  ℕ, ◌+◌, String, str_eq, Bool, true, false, not, ◌&&◌, ◌||◌, Option, none, some, List, [], ◌∷◌,
  ◌==◌, if◌then◌else◌, any,
}
use omni_orchestration.Session.{Result, ok, err}

-- `type Decision string`.
abbrev pub Decision : Type 0
Decision = String

abbrev pub start : Decision
start = "START"

abbrev pub validate : Decision
validate = "VALIDATE"

abbrev pub continue : Decision
continue = "CONTINUE"

abbrev pub complete : Decision
complete = "COMPLETE"

abbrev pub retry_clean : Decision
retry_clean = "RETRY_CLEAN"

abbrev pub replace_worker : Decision
replace_worker = "REPLACE"

abbrev pub fail : Decision
fail = "FAIL"

-- `Result`, the engine's answer.
pub record Answer : Type 0 where
  pub decision : Decision
  pub reason : String
  pub next_instruction : String

pub record RunState : Type 0 where
  pub run_id : ℕ
  pub task_id : ℕ
  pub task_title : String
  pub task_status : String
  pub attempt_number : ℕ
  pub attempt_status : String
  pub checkpoint_sha : String
  pub base_commit : String
  pub branch : String
  pub diff_summary : String
  pub validator_output : String

pub record WakePacket : Type 0 where
  pub run_id : ℕ
  pub task_id : ℕ
  pub task_title : String
  pub attempt_number : ℕ
  pub attempt_status : String
  pub worker_state : String
  pub exit_code : ℕ
  pub checkpoint_sha : String
  pub validator_output : String
  pub diff_summary : String
  pub allowed_decisions : List String

pub record WakeResponse : Type 0 where
  pub decision : Decision
  pub reason : String
  pub next_instruction : String

-- The runtime's process is left out; `id` is its identity.
pub record CoordinatorRuntime : Type 0 where
  pub gen : ℕ
  pub id : String
  pub ack_seq : ℕ
  pub timeout : ℕ

pub data DecideError : Type 0 where
  deadline_exceeded other_error : DecideError

pub data WakeError : Type 0 where
  stale_coordinator coordinator_timeout decide_failed malformed_response : WakeError

abbrev pub new_coordinator_runtime : String → CoordinatorRuntime
new_coordinator_runtime id = record { gen = 0; id = id; ack_seq = 0; timeout = 120 }

abbrev pub set_timeout : ℕ → CoordinatorRuntime → CoordinatorRuntime
set_timeout d c = record c { timeout = d }

abbrev pub Engine : Type 0
Engine = RunState → CoordinatorRuntime → Result DecideError Answer × CoordinatorRuntime

abbrev pub state_of : WakePacket → RunState
state_of p = record {
  run_id = p.run_id;
  task_id = p.task_id;
  task_title = p.task_title;
  task_status = p.attempt_status;
  attempt_number = p.attempt_number;
  attempt_status = p.attempt_status;
  checkpoint_sha = p.checkpoint_sha;
  base_commit = "";
  branch = "";
  diff_summary = p.diff_summary;
  validator_output = p.validator_output;
}

unfoldable pub is_allowed : Decision → List String → Bool
is_allowed d [] = false
is_allowed d (a ∷ rest) = if str_eq d a then true else is_allowed d rest

unfoldable pub build_instruction : Decision → String
build_instruction d =
    if str_eq d validate
    then "Run the validator against the current checkpoint."
    else if str_eq d continue
    then "Continue executing. No changes needed."
    else if str_eq d complete
    then "Task completed successfully. Stop the run."
    else if str_eq d retry_clean
    then "Discard current work. Start a fresh attempt with the same task."
    else if str_eq d replace_worker
    then "Task specification needs human intervention."
    else if str_eq d fail
    then "Unrecoverable error. Stop the run."
    else "Unknown decision."

-- `len(allowed) > 0` and the decision is not among them.
abbrev pub is_refused : Decision → List String → Bool
is_refused d [] = false
is_refused d (a ∷ rest) = not (is_allowed d (a ∷ rest))

abbrev pub response_of : Answer → WakeResponse
response_of a = record {
  decision = a.decision;
  reason = a.reason;
  next_instruction =
      if str_eq a.next_instruction "" then build_instruction a.decision else a.next_instruction;
}

-- What `Wake` makes of the engine's answer, at the generation `now` that holds after it.
unfoldable pub judge :
    ℕ → ℕ → List String → Result DecideError Answer → Result WakeError WakeResponse
unfolding is_allowed build_instruction
judge generation now allowed (err deadline_exceeded) = err coordinator_timeout
judge generation now allowed (err other_error) = err decide_failed
judge generation now allowed (ok a) =
    if not (now == generation)
    then err stale_coordinator
    else if is_refused a.decision allowed
    then err malformed_response
    else ok (response_of a)

unfoldable pub wake :
    Engine
    → ℕ
    → WakePacket
    → CoordinatorRuntime
    → Result WakeError WakeResponse × CoordinatorRuntime
unfolding judge
wake decide generation p c =
    if not (generation == c.gen)
    then (err stale_coordinator, c)
    else let (answer, c') = decide (state_of p) (record c { ack_seq = c.ack_seq + 1 }) in
      (judge generation c'.gen p.allowed_decisions answer, c')

unfoldable pub replace : String → CoordinatorRuntime → CoordinatorRuntime
replace id c = record c { id = id; gen = c.gen + 1 }

-- `normalizeDecision`; `fold` is the trimmed text in upper case.
unfoldable pub normalize_decision : (String → String) → String → Decision
normalize_decision fold s =
    let t = fold s in
    if str_eq t "START"
    then start
    else if str_eq t "VALIDATE"
    then validate
    else if str_eq t "CONTINUE"
    then continue
    else if str_eq t "COMPLETE"
    then complete
    else if str_eq t "RETRY_CLEAN" || str_eq t "RETRY"
    then retry_clean
    else if str_eq t "REPLACE"
    then replace_worker
    else fail

abbrev pub parse_decoded : (String → String) → Option WakeResponse → Result WakeError WakeResponse
parse_decoded fold none = err malformed_response
parse_decoded fold (some r) =
    if str_eq r.decision ""
    then err malformed_response
    else if str_eq (normalize_decision fold r.decision) fail && not (str_eq r.decision fail)
    then err malformed_response
    else ok (record r { decision = normalize_decision fold r.decision })

unfoldable pub unmarshal_response :
    (String → Option WakeResponse) → (String → String) → String → Result WakeError WakeResponse
unfolding normalize_decision
unmarshal_response decode fold bytes = parse_decoded fold (decode bytes)
