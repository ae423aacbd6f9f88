-- ===== src/Runtime/Lines/Whole.antt =====
-- internal/runtime/runtime.go: the lines that `readOutput` offers, against what it has read.
use omni_orchestration.Prelude.{
  ℕ, ◌≡◌, ◌≢◌, refl, sym, ap, ◌∙◌, false, List, [], ◌∷◌, ◌++◌, ◌==◌, arith, inl, inr, Bool-cases,
  All, All-append, if◌then◌else◌,
}
use mathlib.Core.List.{append_assoc, append-nil}
use omni_orchestration.Runtime.Lines.{
  Reader, newline, carriage_return, read_byte, read_chunk, read_chunks, is_empty, flush,
  read_output, Stop, read_fails, context_done, stopped,
}

-- The chunks in one, and the output without its carriage returns.
unfoldable pub join : List (List ℕ) → List ℕ
join [] = []
join (c ∷ cs) = c ++ join cs

unfoldable pub printed : List ℕ → List ℕ
printed [] = []
printed (b ∷ bs) = let rest = printed bs in if b == carriage_return then rest else b ∷ rest

-- Each line with the newline that ended it.
unfoldable pub unlines : List (List ℕ) → List ℕ
unlines [] = []
unlines (l ∷ ls) = l ++ newline ∷ unlines ls

abbrev pub HasNone : ℕ → List ℕ → Type 0
HasNone b = All (λ c. c ≢ b)

read_chunk-append :
    (r : Reader) (xs ys : List ℕ) → read_chunk r (xs ++ ys) ≡ read_chunk (read_chunk r xs) ys
unfolding read_chunk
read_chunk-append r [] ys = refl
read_chunk-append r (x ∷ xs) ys = read_chunk-append (read_byte r x) xs ys

-- How the process's output is cut into chunks makes no difference to the reader.
read_chunks-join :
    (r : Reader) (chunks : List (List ℕ)) → read_chunks r chunks ≡ read_chunk r (join chunks)
unfolding read_chunks join
read_chunks-join r [] = refl
read_chunks-join r (c ∷ cs) =
    read_chunks-join (read_chunk r c) cs ∙ sym (read_chunk-append r c (join cs))

unlines-append : (xs ys : List (List ℕ)) → unlines (xs ++ ys) ≡ unlines xs ++ unlines ys
unfolding unlines
unlines-append [] ys = refl
unlines-append (x ∷ xs) ys = simp (unlines-append xs ys, append_assoc)

-- What the reader holds, as one text.
abbrev shown : Reader → List ℕ
shown r = unlines r.offered ++ r.line

shown-read_byte : (r : Reader) (b : ℕ) → shown (read_byte r b) ≡ shown r ++ printed (b ∷ [])
unfolding printed unlines
shown-read_byte r b = elim (Bool-cases (b == newline)) [
  | inl ends ↦
      let same : b ≡ newline = ground arith in
      let other : (b == carriage_return) ≡ false = ground arith in
      rw (ends, other, same)
        (simp (unlines-append r.offered (r.line ∷ []), append-nil, append_assoc))
  | inr inside ↦ elim (Bool-cases (b == carriage_return)) [
    | inl dropped ↦ rw (inside, dropped) (sym (append-nil (shown r)))
    | inr kept ↦ rw (inside, kept) (sym (append_assoc (unlines r.offered) r.line (b ∷ [])))
  ]
]

printed-append : (xs ys : List ℕ) → printed (xs ++ ys) ≡ printed xs ++ printed ys
unfolding printed
printed-append [] ys = refl
printed-append (x ∷ xs) ys = elim (Bool-cases (x == carriage_return)) [
  | inl dropped ↦ rw dropped (printed-append xs ys)
  | inr kept ↦ rw kept (ap (◌∷◌ x) (printed-append xs ys))
]

shown-read_chunk : (r : Reader) (bs : List ℕ) → shown (read_chunk r bs) ≡ shown r ++ printed bs
unfolding read_chunk printed
shown-read_chunk r [] = sym (append-nil (shown r))
shown-read_chunk r (b ∷ bs) =
    shown-read_chunk (read_byte r b) bs
    ∙ ap (λ (l : List ℕ). l ++ printed bs) (shown-read_byte r b)
    ∙ append_assoc (shown r) (printed (b ∷ [])) (printed bs)
    ∙ ap (λ (l : List ℕ). shown r ++ l) (sym (printed-append (b ∷ []) bs))

-- No newline stands in a line, offered or not.
abbrev IsCut : Reader → Type 0
IsCut r = All (HasNone newline) r.offered × HasNone newline r.line

read_byte-IsCut : (r : Reader) (b : ℕ) → IsCut r → IsCut (read_byte r b)
read_byte-IsCut r b h = elim (Bool-cases (b == newline)) [
  | inl ends ↦ rw ends (All-append (HasNone newline) r.offered (r.line ∷ []) h.0 (h.1, tt), tt)
  | inr inside ↦ elim (Bool-cases (b == carriage_return)) [
    | inl dropped ↦ rw (inside, dropped) h
    | inr kept ↦
        let other : b ≢ newline = λ e. ground arith in
        rw (inside, kept) (h.0, All-append (λ c. c ≢ newline) r.line (b ∷ []) h.1 (other, tt))
  ]
]

read_chunk-IsCut : (r : Reader) (bs : List ℕ) → IsCut r → IsCut (read_chunk r bs)
unfolding read_chunk
read_chunk-IsCut r [] h = h
read_chunk-IsCut r (b ∷ bs) h = read_chunk-IsCut (read_byte r b) bs (read_byte-IsCut r b h)

abbrev pub last_line : List ℕ → List (List ℕ)
last_line line = if is_empty line then [] else line ∷ []

flush_lem : (r : Reader) → flush r ≡ r.offered ++ last_line r.line
flush_lem r = elim (Bool-cases (is_empty r.line)) [
  | inl empty ↦ rw empty (sym (append-nil r.offered))
  | inr more ↦ rw more refl
]

-- What is offered of the text after the last newline: nothing once the context is done.
abbrev pub last_offered : Stop → List ℕ → List (List ℕ)
last_offered read_fails line = last_line line
last_offered context_done line = []

stopped_lem : (stop : Stop) (r : Reader) → stopped stop r ≡ r.offered ++ last_offered stop r.line
stopped_lem read_fails r = flush_lem r
stopped_lem context_done r = sym (append-nil r.offered)

-- The lines that the reader offers are what it has read, without the carriage returns: the lines that a
-- newline ended, in order, and, if it stops on an error or the end of the output, the text after the last
-- newline where there is some; if the context is done, that text is not offered. No line has a newline
-- in it.
pub read_output_whole :
    (stop : Stop) (chunks : List (List ℕ))
    → (ended : List (List ℕ)) × (rest : List ℕ) × (read_output stop chunks
        ≡ ended ++ last_offered stop rest)
      × (unlines ended ++ rest ≡ printed (join chunks))
      × All (HasNone newline) ended
      × HasNone newline rest
unfolding read_output unlines
read_output_whole stop chunks =
    let fresh : Reader = record { line = []; offered = [] } in
    let r = read_chunk fresh (join chunks) in
    let (ended_cut, rest_cut) = read_chunk-IsCut fresh (join chunks) (tt, tt) in
    (
      r.offered,
      r.line,
      ap (stopped stop) (read_chunks-join fresh chunks) ∙ stopped_lem stop r,
      shown-read_chunk fresh (join chunks),
      ended_cut,
      rest_cut,
    )

-- The lines depend on what was read and on why the reader stopped, not on how it is cut into chunks.
pub read_output_chunks :
    (stop : Stop) (chunks others : List (List ℕ))
    → join chunks ≡ join others
    → read_output stop chunks ≡ read_output stop others
unfolding read_output
read_output_chunks stop chunks others h =
    let fresh : Reader = record { line = []; offered = [] } in
    ap (stopped stop) (
      read_chunks-join fresh chunks ∙ ap (read_chunk fresh) h ∙ sym (read_chunks-join fresh others))
