-- ===== src/Coordinator/Extract.antt =====
-- internal/coordinator/extract.go and `extractJSON` of codex_coordinator.go: the JSON text in what a
-- provider printed. The JSON decoder of Go's library is an argument. Texts are the numbers of their
-- characters.
pub mod Valid
use omni_orchestration.Prelude.{
  ℕ, Bool, true, false, not, ◌&&◌, Option, none, some, List, [], ◌∷◌, ◌==◌, codes, if◌then◌else◌,
}
use omni_orchestration.Runtime.Attach.{Text, is_empty, same_text, trim_space}
use omni_orchestration.Worktree.{starts_with, split_from}

pub record Content : Type 0 where
  pub kind : Text
  pub text : Text

-- A line of Codex's output: its type, the contents of its message, and its item.
pub record Line : Type 0 where
  pub kind : Text
  pub contents : List Content
  pub item : Content

-- `json.Valid`, and `json.Unmarshal` into a line of Codex and into Claude's field `result`, none where it
-- gives an error.
pub record Decoder : Type 0 where
  pub is_valid : Text → Bool
  pub line : Text → Option Line
  pub result : Text → Option Text

pub data Provider : Type 0 where
  codex claude agy reasonix : Provider

abbrev pub or_else : Option Text → Option Text → Option Text
or_else (some t) later = some t
or_else none later = later

-- From the last `{` on, and up to the last `}`.
unfoldable pub from_last_open : Text → Option Text
from_last_open [] = none
from_last_open (b ∷ s) =
    let later = from_last_open s in
    elim later [ some r ↦ some r | none ↦ if b == 123 then some (b ∷ s) else none ]

unfoldable pub up_to_last_close : Text → Option Text
up_to_last_close [] = none
up_to_last_close (b ∷ s) =
    let later = up_to_last_close s in
    elim later [ some r ↦ some (b ∷ r) | none ↦ if b == 125 then some (b ∷ []) else none ]

-- What follows the first place of a text, and what stands before it.
unfoldable pub after_first : Text → Text → Option Text
after_first n [] = starts_with n []
after_first n (b ∷ s) = let later = after_first n s in or_else (starts_with n (b ∷ s)) later

unfoldable pub before_first : Text → Text → Option Text
before_first n [] = elim (starts_with n []) [ some _ ↦ some [] | none ↦ none ]
before_first n (b ∷ s) =
    let later = before_first n s in
    elim (starts_with n (b ∷ s)) [
      | some _ ↦ some []
      | none ↦ elim later [ some before ↦ some (b ∷ before) | none ↦ none ]
    ]

-- `strings.ReplaceAll` of a backslash and a quote by the quote.
unfoldable pub unescaped : Text → Text
unescaped [] = []
unescaped (b ∷ []) = b ∷ []
unescaped (b ∷ c ∷ s) =
    let past = unescaped s in
    let next = unescaped (c ∷ s) in if b == 92 && c == 34 then 34 ∷ past else b ∷ next

module _ (json : Decoder) where
  abbrev pub if_valid : Text → Option Text
  if_valid t = if json.is_valid t then some t else none

  abbrev pub if_some_valid : Option Text → Option Text
  if_some_valid (some t) = if_valid t
  if_some_valid none = none

  abbrev pub closed_part : Option Text → Option Text
  closed_part (some t) = up_to_last_close t
  closed_part none = none

  unfoldable pub extract_json : Text → Option Text
  extract_json s = if_some_valid (closed_part (from_last_open s))

  abbrev pub before_fence : Option Text → Option Text
  before_fence (some t) = before_first (codes "```") t
  before_fence none = none

  abbrev pub trimmed : Option Text → Option Text
  trimmed (some t) = some (trim_space t)
  trimmed none = none

  unfoldable pub code_fence : Text → Option Text
  code_fence s = if_some_valid (trimmed (before_fence (after_first (codes "```json") s)))

  unfoldable pub first_text : List Content → Option Text
  first_text [] = none
  first_text (c ∷ cs) =
      let rest = first_text cs in
      if same_text c.kind (codes "text") then or_else (if_valid c.text) rest else rest

  abbrev pub from_line : Option Line → Option Text
  from_line none = none
  from_line (some l) =
      or_else (if same_text l.kind (codes "result") then first_text l.contents else none) (
        if same_text l.kind (codes "item.completed")
          && same_text l.item.kind (codes "agent_message")
        then if_valid l.item.text
        else none)

  abbrev pub line_of : Text → Option Line
  line_of s = if is_empty s then none else json.line s

  unfoldable pub first_line : List Text → Option Text
  first_line [] = none
  first_line (l ∷ ls) =
      let rest = first_line ls in or_else (from_line (line_of (trim_space l))) rest

  unfoldable pub extract_codex_jsonl : Text → Option Text
  extract_codex_jsonl s =
      or_else (if_valid s) (or_else (first_line (split_from 10 [] s)) (extract_json s))

  -- A `result` that is not there reads as the empty text.
  abbrev pub from_result : Option Text → Option Text
  from_result none = none
  from_result (some r) = if is_empty r then none else if_valid (unescaped r)

  unfoldable pub extract_claude_code_block : Text → Option Text
  extract_claude_code_block s =
      or_else (from_result (json.result s))
        (or_else (if_valid s) (or_else (code_fence s) (extract_json s)))

  unfoldable pub extract_reasonix_commentary : Text → Option Text
  extract_reasonix_commentary s = or_else (code_fence s) (or_else (if_valid s) (extract_json s))

  -- The extraction of each provider; AGY's is `extractJSON` itself.
  unfoldable pub extract : Provider → Text → Option Text
  extract codex s = extract_codex_jsonl s
  extract claude s = extract_claude_code_block s
  extract agy s = extract_json s
  extract reasonix s = extract_reasonix_commentary s
