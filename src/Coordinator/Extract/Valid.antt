-- ===== src/Coordinator/Extract/Valid.antt =====
-- internal/coordinator/extract.go: whether the text that an extraction returns is valid JSON.
use omni_orchestration.Prelude.{
  ◌≡◌, Bool, true, false, Option, none, some, List, [], ◌∷◌, codes, Bool-cases, inl, inr,
  if◌then◌else◌,
}
use omni_orchestration.Runtime.Attach.{Text, trim_space, same_text, is_empty}
use omni_orchestration.Worktree.{split_from}
use omni_orchestration.Coordinator.Extract.{
  Content, Line, Decoder, Provider, codex, claude, agy, reasonix, or_else, from_last_open,
  unescaped, if_valid, if_some_valid, closed_part, extract_json, trimmed, before_fence, code_fence,
  after_first, first_text, from_line, line_of, first_line, extract_codex_jsonl, from_result,
  extract_claude_code_block, extract_reasonix_commentary, extract,
}

-- No text, or one that the decoder accepts.
pub data IsValid (json : Decoder) : Option Text → Type 0 where
  missing : IsValid json none
  valid : {t : Text} → json.is_valid t ≡ true → IsValid json (some t)

module _ (json : Decoder) where
  or_else-IsValid :
      {o p : Option Text} → IsValid json o → IsValid json p → IsValid json (or_else o p)
  or_else-IsValid missing v = v
  or_else-IsValid (valid e) v = valid e

  if_valid-IsValid : (t : Text) → IsValid json (if_valid json t)
  if_valid-IsValid t = elim (Bool-cases (json.is_valid t)) [
    | inl good ↦ rw good (valid good)
    | inr bad ↦ rw bad missing
  ]

  if_some_valid-IsValid : (o : Option Text) → IsValid json (if_some_valid json o)
  if_some_valid-IsValid (some t) = if_valid-IsValid t
  if_some_valid-IsValid none = missing

  if-IsValid :
      (b : Bool) {o p : Option Text}
      → IsValid json o
      → IsValid json p
      → IsValid json (if b then o else p)
  if-IsValid true u v = u
  if-IsValid false u v = v

  extract_json-IsValid : (s : Text) → IsValid json (extract_json json s)
  unfolding extract_json
  extract_json-IsValid s = if_some_valid-IsValid (closed_part json (from_last_open s))

  code_fence-IsValid : (s : Text) → IsValid json (code_fence json s)
  unfolding code_fence
  code_fence-IsValid s =
      if_some_valid-IsValid (trimmed json (before_fence json (after_first (codes "```json") s)))

  first_text-IsValid : (cs : List Content) → IsValid json (first_text json cs)
  unfolding first_text
  first_text-IsValid [] = missing
  first_text-IsValid (c ∷ cs) =
      if-IsValid (same_text c.kind (codes "text"))
        (or_else-IsValid (if_valid-IsValid c.text) (first_text-IsValid cs)) (first_text-IsValid cs)

  from_line-IsValid : (o : Option Line) → IsValid json (from_line json o)
  from_line-IsValid none = missing
  from_line-IsValid (some l) =
      or_else-IsValid (if-IsValid _ (first_text-IsValid l.contents) missing)
        (if-IsValid _ (if_valid-IsValid l.item.text) missing)

  first_line-IsValid : (ls : List Text) → IsValid json (first_line json ls)
  unfolding first_line
  first_line-IsValid [] = missing
  first_line-IsValid (l ∷ ls) =
      or_else-IsValid (from_line-IsValid (line_of json (trim_space l))) (first_line-IsValid ls)

  from_result-IsValid : (o : Option Text) → IsValid json (from_result json o)
  from_result-IsValid none = missing
  from_result-IsValid (some r) = if-IsValid (is_empty r) missing (if_valid-IsValid (unescaped r))

  -- Whatever a provider printed, what its extraction returns is valid JSON, if it returns a text.
  pub extract-IsValid : (p : Provider) (s : Text) → IsValid json (extract json p s)
  unfolding extract extract_codex_jsonl extract_claude_code_block extract_reasonix_commentary
  extract-IsValid codex s =
      or_else-IsValid (if_valid-IsValid s)
        (or_else-IsValid (first_line-IsValid (split_from 10 [] s)) (extract_json-IsValid s))
  extract-IsValid claude s = or_else-IsValid (from_result-IsValid (json.result s)) (
      or_else-IsValid (if_valid-IsValid s)
        (or_else-IsValid (code_fence-IsValid s) (extract_json-IsValid s)))
  extract-IsValid agy s = extract_json-IsValid s
  extract-IsValid reasonix s =
      or_else-IsValid (code_fence-IsValid s)
        (or_else-IsValid (if_valid-IsValid s) (extract_json-IsValid s))
