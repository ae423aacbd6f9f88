-- ===== src/Runtime/Lines.antt =====
-- internal/runtime/runtime.go: `readOutput`, which cuts what the process writes into lines. The
-- bytes come in chunks, those that are read before the loop stops; what is sent is the list of lines
-- offered to the channel.
pub mod Whole
use omni_orchestration.Prelude.{
  ℕ, Bool, true, false, not, Option, none, some, List, [], ◌∷◌, ◌++◌, ◌==◌, if◌then◌else◌,
}

-- The variable `line`, and the lines offered so far.
pub record Reader : Type 0 where
  pub line : List ℕ
  pub offered : List (List ℕ)

abbrev pub newline : ℕ
newline = 10

abbrev pub carriage_return : ℕ
carriage_return = 13

abbrev pub read_byte : Reader → ℕ → Reader
read_byte r b =
    if b == newline
    then record { line = []; offered = r.offered ++ r.line ∷ [] }
    else if not (b == carriage_return)
    then record r { line = r.line ++ b ∷ [] }
    else r

unfoldable pub read_chunk : Reader → List ℕ → Reader
read_chunk r [] = r
read_chunk r (b ∷ rest) = read_chunk (read_byte r b) rest

unfoldable pub read_chunks : Reader → List (List ℕ) → Reader
unfolding read_chunk
read_chunks r [] = r
read_chunks r (chunk ∷ rest) = read_chunks (read_chunk r chunk) rest

abbrev pub is_empty : List ℕ → Bool
is_empty [] = true
is_empty (_ ∷ _) = false

-- Why the loop stops: a Read gives an error, the end of the output included, or the context is done
-- before the next Read, as when the process has ended or the runtime is closed.
pub data Stop : Type 0 where
  read_fails context_done : Stop

-- After an error a line that is not empty is offered too.
abbrev pub flush : Reader → List (List ℕ)
flush r = if is_empty r.line then r.offered else r.offered ++ r.line ∷ []

abbrev pub stopped : Stop → Reader → List (List ℕ)
stopped read_fails r = flush r
stopped context_done r = r.offered

unfoldable pub read_output : Stop → List (List ℕ) → List (List ℕ)
unfolding read_chunks
read_output stop chunks = stopped stop (read_chunks (record { line = []; offered = [] }) chunks)
