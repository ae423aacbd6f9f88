-- ===== src/Runtime/Attach.antt =====
-- internal/runtime/runtime.go: `Attach`, which takes over a process of an earlier daemon once `ps` has
-- shown who it is, with `commandMatches`. Texts are the numbers of their characters.
pub mod Command
pub mod Identity
use omni_orchestration.Prelude.{
  ℕ, ◌+◌, ◌/◌, String, Bool, true, false, not, ◌&&◌, ◌||◌, Option, none, some, List, [], ◌∷◌, ◌++◌,
  ltb, leb, ◌==◌, any, length, codes, if◌then◌else◌,
}
use omni_orchestration.Session.{Result, ok, err}
use omni_orchestration.Runtime.{
  Runtime, RuntimeError, not_started, not_alive, unverified, command_mismatch, start_time_mismatch,
  cwd_mismatch,
}

abbrev pub Text : Type 0
Text = List ℕ

unfoldable pub same_text : Text → Text → Bool
same_text [] [] = true
same_text (b ∷ s) (c ∷ t) = b == c && same_text s t
same_text [] (c ∷ t) = false
same_text (b ∷ s) [] = false

abbrev pub is_empty : Text → Bool
is_empty [] = true
is_empty (_ ∷ _) = false

-- The white space of ASCII, as Go's `strings` has it there.
abbrev pub is_space : ℕ → Bool
is_space b = b == 32 || (leb 9 b && leb b 13)

abbrev pub is_slash : ℕ → Bool
is_slash b = b == 47

unfoldable pub trim_left : (ℕ → Bool) → Text → Text
trim_left p [] = []
trim_left p (b ∷ s) = if p b then trim_left p s else b ∷ s

unfoldable pub trim_right : (ℕ → Bool) → Text → Text
trim_right p [] = []
trim_right p (b ∷ s) = let rest = trim_right p s in if p b && is_empty rest then [] else b ∷ rest

abbrev pub trim_space : Text → Text
trim_space s = trim_left is_space (trim_right is_space s)

-- `strings.Fields`, with the field that has begun.
unfoldable pub fields_from : Text → Text → List Text
fields_from word [] = if is_empty word then [] else word ∷ []
fields_from word (b ∷ s) =
    let rest = fields_from (if is_space b then [] else word ++ b ∷ []) s in
    if is_space b && not (is_empty word) then word ∷ rest else rest

unfoldable pub fields : Text → List Text
unfolding fields_from
fields s = fields_from [] s

-- What follows the last slash.
unfoldable pub last_part : Text → Text → Text
last_part part [] = part
last_part part (b ∷ s) = last_part (if is_slash b then [] else part ++ b ∷ []) s

abbrev pub or_slash : Text → Text
or_slash [] = 47 ∷ []
or_slash (b ∷ s) = b ∷ s

-- `filepath.Base`.
unfoldable pub base : Text → Text
unfolding trim_right last_part
base [] = 46 ∷ []
base (b ∷ s) = or_slash (last_part [] (trim_right is_slash (b ∷ s)))

abbrev pub is_blank : ℕ → Bool
is_blank b = b == 32

unfoldable pub before_blank : Text → Text
before_blank [] = []
before_blank (b ∷ s) = let rest = before_blank s in if is_blank b then [] else b ∷ rest

-- Up to the first blank, unless the text begins with one.
abbrev pub first_token : Text → Text
first_token [] = []
first_token (b ∷ s) = if is_blank b then b ∷ s else before_blank (b ∷ s)

abbrev pub without_dash : Text → Text
without_dash [] = []
without_dash (b ∷ s) = if b == 45 then s else b ∷ s

abbrev pub known_shells : List Text
known_shells = codes "bash" ∷ codes "sh" ∷ codes "zsh" ∷ codes "dash" ∷ []

-- The process runs the stored command itself, a shell for a command of several words, or one of the
-- command's words.
unfoldable pub command_matches : Text → Text → Bool
unfolding same_text trim_left trim_right fields base before_blank
command_matches stored actual =
    let name = without_dash (trim_space actual) in
    if same_text (base (trim_space (first_token stored))) name
    then true
    else if any (same_text name) known_shells && any is_blank stored
    then true
    else any (λ token. same_text (base token) name) (fields stored)

-- An identity as it is stored, or as `ps` shows it; times that are not known are 0.
pub record AttachIdentity : Type 0 where
  pub pid : ℕ
  pub executable : Text
  pub cwd : Text
  pub start_time_ms : ℕ
  pub start_time_sec : ℕ
  pub pgid : ℕ

-- Whether signal 0 reaches a process, the output of `ps`, and Go's reading of its five words of time.
pub record Processes : Type 0 where
  pub is_alive : ℕ → Bool
  pub ps : ℕ → Option Text
  pub parse_time : List Text → Option ℕ

abbrev pub or_zero : Option ℕ → ℕ
or_zero none = 0
or_zero (some n) = n

unfoldable pub identity_of : Processes → ℕ → List Text → Option AttachIdentity
identity_of os pid (day ∷ month ∷ date ∷ clock ∷ year ∷ executable ∷ _) = some (record {
  pid = pid;
  executable = executable;
  cwd = [];
  start_time_ms = 0;
  start_time_sec = or_zero (os.parse_time (day ∷ month ∷ date ∷ clock ∷ year ∷ []));
  pgid = 0;
})
identity_of os pid _ = none

abbrev pub of_output : Processes → ℕ → Option Text → Option AttachIdentity
of_output os pid none = none
of_output os pid (some out) = identity_of os pid (fields (trim_space out))

unfoldable pub verify_identity : Processes → ℕ → Option AttachIdentity
unfolding identity_of fields trim_left trim_right
verify_identity os pid = of_output os pid (os.ps pid)

-- What the stored and the verified identity must agree on, where both are known.
unfoldable pub compare_identity : AttachIdentity → AttachIdentity → Result RuntimeError (Unit {0})
unfolding command_matches same_text
compare_identity id found =
    if not (is_empty id.executable) && not (command_matches id.executable found.executable)
    then err command_mismatch
    else if ltb 0 id.start_time_ms
        && (ltb 0 found.start_time_sec && not (id.start_time_ms / 1000 == found.start_time_sec))
    then err start_time_mismatch
    else if not (is_empty id.cwd) && (not (is_empty found.cwd) && not (same_text id.cwd found.cwd))
    then err cwd_mismatch
    else ok tt

-- The stored generation is taken over; `id` is the text `attached-` with the PID.
abbrev pub taken_over : ℕ → String → ℕ → Runtime → Runtime
taken_over pid id generation r = record r {
  process = some pid;
  gen = generation;
  id = id;
  started = true;
}

abbrev pub with_comparison :
    ℕ
    → String
    → ℕ
    → Result RuntimeError (Unit {0})
    → Runtime
    → Result RuntimeError (Unit {0}) × Runtime
with_comparison pid name generation (err e) r = (err e, r)
with_comparison pid name generation (ok _) r = (ok tt, taken_over pid name generation r)

abbrev pub comparison : AttachIdentity → Option AttachIdentity → Result RuntimeError (Unit {0})
comparison id none = err unverified
comparison id (some found) = compare_identity id found

unfoldable pub attach :
    Processes → ℕ → String → AttachIdentity → ℕ → Runtime → Result RuntimeError (Unit {0}) × Runtime
unfolding verify_identity compare_identity
attach os pid name id generation r =
    if pid == 0
    then (err not_started, r)
    else if not (os.is_alive pid)
    then (err not_alive, r)
    else with_comparison pid name generation (comparison id (verify_identity os pid)) r
