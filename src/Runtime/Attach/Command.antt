-- ===== src/Runtime/Attach/Command.antt =====
-- internal/runtime/runtime.go, `commandMatches`: which commands of a process count as the stored one.
use omni_orchestration.Prelude.{
  ℕ, ◌≡◌, refl, ap, ◌++◌, ◌&&◌, Bool, true, false, if◌then◌else◌, List, [], ◌∷◌, ◌==◌, IsIn, any,
  any-eq_true, arith, inl, inr, Bool-cases, &&-eq-true,
}
use omni_orchestration.Runtime.Attach.{
  Text, same_text, trim_space, without_dash, base, first_token, fields, known_shells, is_blank,
  command_matches,
}

-- The name that `ps` shows, without the dash of a login shell.
abbrev pub shown_name : Text → Text
shown_name actual = without_dash (trim_space actual)

-- The process runs the first word of the stored command, or a shell where the command has a blank, or
-- any of the command's words; of a path the last part counts.
pub data Runs (stored actual : Text) : Type 0 where
  runs_first : base (trim_space (first_token stored)) ≡ shown_name actual → Runs stored actual
  runs_shell :
      IsIn (shown_name actual) known_shells
      → (before : List ℕ) × (after : List ℕ) × (stored ≡ before ++ 32 ∷ after)
      → Runs stored actual
  runs_word :
      (word : Text) → IsIn word (fields stored) → base word ≡ shown_name actual → Runs stored actual

same_text_sound : (s t : Text) → same_text s t ≡ true → s ≡ t
unfolding same_text
same_text_sound [] [] h = refl
same_text_sound (b ∷ s) (c ∷ t) h =
    let (same, rest) = &&-eq-true (b == c) (same_text s t) h in
    let equal : b ≡ c = ground arith in rw (equal, same_text_sound s t rest) refl
same_text_sound [] (c ∷ t) h = absurd (ground arith)
same_text_sound (b ∷ s) [] h = absurd (ground arith)

has_blank :
    (s : Text)
    → any is_blank s ≡ true
    → (before : List ℕ) × (after : List ℕ) × (s ≡ before ++ 32 ∷ after)
has_blank [] h = absurd (ground arith)
has_blank (b ∷ s) h = elim (Bool-cases (is_blank b)) [
  | inl blank ↦ let same : b ≡ 32 = ground arith in ([], s, rw same refl)
  | inr ink ↦
      let (before, after, given) = has_blank s (ground arith) in
      (b ∷ before, after, ap (◌∷◌ b) given)
]

last_test :
    (a b c : Bool)
    → (if a then true else if b then true else c) ≡ true
    → a ≡ false
    → b ≡ false
    → c ≡ true
last_test a b c h k l = ground arith

first_Runs :
    (stored actual : Text)
    → same_text (base (trim_space (first_token stored))) (shown_name actual) ≡ true
    → Runs stored actual
first_Runs stored actual h =
    runs_first (same_text_sound (base (trim_space (first_token stored))) (shown_name actual) h)

shell_Runs :
    (stored actual : Text)
    → (any (same_text (shown_name actual)) known_shells && any is_blank stored) ≡ true
    → Runs stored actual
shell_Runs stored actual h =
    let shells = any (same_text (shown_name actual)) known_shells in
    let (known, blank) = &&-eq-true shells (any is_blank stored) h in
    let (name, m, same) = any-eq_true (same_text (shown_name actual)) known_shells known in
    runs_shell (rw (same_text_sound (shown_name actual) name same) m) (has_blank stored blank)

word_Runs :
    (stored actual : Text)
    → any (λ token. same_text (base token) (shown_name actual)) (fields stored) ≡ true
    → Runs stored actual
word_Runs stored actual h =
    let is_shown : Text → Bool = λ token. same_text (base token) (shown_name actual) in
    let (word, m, same) = any-eq_true is_shown (fields stored) h in
    runs_word word m (same_text_sound (base word) (shown_name actual) same)

pub command_matches-Runs :
    (stored actual : Text) → command_matches stored actual ≡ true → Runs stored actual
unfolding command_matches
command_matches-Runs stored actual h =
    let first = same_text (base (trim_space (first_token stored))) (shown_name actual) in
    let shell = any (same_text (shown_name actual)) known_shells && any is_blank stored in
    let words = any (λ token. same_text (base token) (shown_name actual)) (fields stored) in
    elim (Bool-cases first) [
      | inl yes_first ↦ first_Runs stored actual yes_first
      | inr other ↦ elim (Bool-cases shell) [
        | inl yes_shell ↦ shell_Runs stored actual yes_shell
        | inr plain ↦ word_Runs stored actual (last_test first shell words h other plain)
      ]
    ]
