-- ===== src/Coordinator/Tests.antt =====
-- Concrete wakes for internal/coordinator/runtime.go.
use omni_orchestration.Prelude.{
  String, str_eq, ◌≡◌, ◌≢◌, ◌⊎◌, refl, ◌||◌, codes, Option, none, some, [], ◌∷◌, IsIn,
  if◌then◌else◌,
}
use omni_orchestration.Session.{ok}
use omni_orchestration.Runtime.Attach.{Text, same_text, trim_left, trim_right}
use omni_orchestration.Worktree.{starts_with}
use omni_orchestration.Coordinator.Extract.{
  Decoder, agy, reasonix, from_last_open, up_to_last_close, after_first, before_first, extract_json,
  code_fence, extract_reasonix_commentary, extract,
}
use omni_orchestration.Coordinator.Extract.Valid.{IsValid, extract-IsValid}
use omni_orchestration.Coordinator.{
  Answer, WakePacket, WakeResponse, CoordinatorRuntime, Engine, complete, fail,
  new_coordinator_runtime, wake, response_of, unmarshal_response, normalize_decision,
}
use omni_orchestration.Coordinator.Gate.{asked, wake_sound}
use omni_orchestration.Coordinator.Parse.{decisions, unmarshal_response_sound}

abbrev runtime : CoordinatorRuntime
runtime = new_coordinator_runtime "c1"

abbrev answer : Answer
answer = record { decision = complete; reason = "validator passed"; next_instruction = "stop" }

abbrev engine : Engine
engine state c = (ok answer, c)

abbrev packet : WakePacket
packet = record {
  run_id = 1;
  task_id = 1;
  task_title = "task";
  attempt_number = 1;
  attempt_status = "VALIDATE";
  worker_state = "EXITED";
  exit_code = 0;
  checkpoint_sha = "abc";
  validator_output = "ACCEPT";
  diff_summary = "";
  allowed_decisions = "COMPLETE" ∷ "FAIL" ∷ [];
}

wake_sound_example :
    (runtime.gen ≡ 0)
    × ((asked engine packet runtime).1.gen ≡ 0)
    × ((packet.allowed_decisions ≡ []) ⊎ IsIn "COMPLETE" packet.allowed_decisions)
    × (a : Answer) × ((asked engine packet runtime).0 ≡ ok a)
    × (response_of answer ≡ response_of a)
unfolding wake
wake_sound_example = wake_sound engine 0 packet runtime (response_of answer) refl

abbrev raw : String → WakeResponse
raw decision = record { decision = decision; reason = "done"; next_instruction = "" }

-- A decoder that reads any text as the decision, and a folding of one word.
abbrev decode : String → Option WakeResponse
decode s = some (raw s)

abbrev fold : String → String
fold s = if str_eq s "fail" then "FAIL" else s

unmarshal_response_sound_example :
    (r : WakeResponse) × (decode "COMPLETE" ≡ some r)
    × (raw complete ≡ record r { decision = normalize_decision fold r.decision })
    × IsIn complete decisions
    × ((complete ≢ fail) ⊎ (r.decision ≡ fail))
unfolding unmarshal_response
unmarshal_response_sound_example =
    unmarshal_response_sound decode fold "COMPLETE" (raw complete) refl

abbrev object : Text
object = codes "{\"decision\":\"FAIL\"}"

abbrev nested : Text
nested = codes "{\"decision\":\"FAIL\",\"why\":{}}"

-- Two texts are valid; nothing is a line of Codex or has a result.
abbrev decoder : Decoder
decoder = record {
  is_valid = λ t. same_text t object || same_text t nested;
  line = λ t. none;
  result = λ t. none;
}

abbrev commentary : Text
commentary = codes "I think:\n```json\n{\"decision\":\"FAIL\",\"why\":{}}\n```\n"

commentary_fenced : extract decoder reasonix commentary ≡ some nested
unfolding extract extract_reasonix_commentary code_fence after_first before_first starts_with
    same_text trim_left trim_right
commentary_fenced = refl

-- The last brace that opens is the inner one.
nested_lost : extract decoder agy nested ≡ none
unfolding extract extract_json from_last_open up_to_last_close same_text
nested_lost = refl

extract-IsValid_example : IsValid decoder (extract decoder reasonix commentary)
extract-IsValid_example = extract-IsValid decoder reasonix commentary
