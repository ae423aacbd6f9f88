-- ===== src/Worktree/Trimmed.antt =====
-- What `Status` makes of a line that begins with a blank.
use omni_orchestration.Prelude.{
  ℕ, ◌≡◌, refl, sym, ap, ◌∙◌, false, none, List, [], ◌∷◌, ◌++◌, ◌==◌, All, arith, ◌⊎◌, inl, inr,
  Bool-cases, codes,
}
use mathlib.Core.Path.{subst}
use mathlib.Core.List.{append_assoc, append-nil}
use omni_orchestration.Runtime.Attach.{Text, is_empty, is_space, trim_left, trim_right, trim_space}
use omni_orchestration.Worktree.{starts_with, split_from, trimmed_lines, changed_lines}
use omni_orchestration.Worktree.Recover.{arrow_rest}

-- A text without white space.
abbrev pub IsWord : Text → Type 0
IsWord = All (λ b. is_space b ≡ false)

-- The line of a file that is changed and not staged, without the blank that it begins with.
abbrev pub shortened : ℕ → ℕ → Text → Text
shortened st c name = st ∷ 32 ∷ c ∷ name

trim_right-append :
    (s t : Text) → IsWord s → trim_right is_space (s ++ t) ≡ s ++ trim_right is_space t
unfolding trim_right
trim_right-append [] t h = refl
trim_right-append (b ∷ s) t h = rw (h.0, trim_right-append s t h.1) refl

trim_space-append :
    (st c : ℕ) (name t : Text)
    → is_space st ≡ false
    → IsWord (c ∷ name)
    → trim_space (shortened st c (name ++ t)) ≡ shortened st c (name ++ trim_right is_space t)
unfolding trim_left trim_right
trim_space-append st c name t h k = rw (trim_right-append name t k.1, k.0, h) (rw h refl)

trim_space-blank :
    (st c : ℕ) (name t : Text)
    → is_space st ≡ false
    → IsWord (c ∷ name)
    → trim_space (32 ∷ shortened st c (name ++ t)) ≡ shortened st c (name ++ trim_right is_space t)
unfolding trim_left trim_right
trim_space-blank st c name t h k = rw (trim_right-append name t k.1, k.0, h) (rw h refl)

trim_space_same :
    (st c : ℕ) (name : Text)
    → is_space st ≡ false
    → IsWord (c ∷ name)
    → trim_space (shortened st c name) ≡ shortened st c name
unfolding trim_right
trim_space_same st c name h k =
    subst (λ n. trim_space (shortened st c n) ≡ shortened st c n) (append-nil name)
      (trim_space-append st c name [] h k)

-- After the line, the trimmed output ends or goes on with a newline.
trim_right-newline :
    (more : Text)
    → (trim_right is_space (10 ∷ more) ≡ [])
      ⊎ (trim_right is_space (10 ∷ more) ≡ 10 ∷ trim_right is_space more)
unfolding trim_right
trim_right-newline more = elim (Bool-cases (is_empty (trim_right is_space more))) [
  | inl blank ↦ inl (rw blank refl)
  | inr inked ↦ inr (rw inked refl)
]

not_newline : (b : ℕ) → is_space b ≡ false → (10 == b) ≡ false
not_newline b h = ground arith

split_from-word :
    (part s t : Text) → IsWord s → split_from 10 part (s ++ t) ≡ split_from 10 (part ++ s) t
unfolding split_from
split_from-word part [] t h = ap (λ p. split_from 10 p t) (sym (append-nil part))
split_from-word part (b ∷ s) t h = rw (not_newline b h.0) (
    split_from-word (part ++ b ∷ []) s t h.1
    ∙ ap (λ p. split_from 10 p t) (append_assoc part (b ∷ []) s))

split_from-shortened :
    (st c : ℕ) (name t : Text)
    → is_space st ≡ false
    → IsWord (c ∷ name)
    → split_from 10 [] (shortened st c (name ++ t)) ≡ split_from 10 (shortened st c name) t
unfolding split_from
split_from-shortened st c name t h k =
    rw (not_newline st h, not_newline c k.0) (split_from-word (st ∷ 32 ∷ c ∷ []) name t k.1)

first_part :
    (line t : Text)
    → (t ≡ []) ⊎ ((u : Text) × (t ≡ 10 ∷ u))
    → (later : List Text) × (split_from 10 line t ≡ line ∷ later)
unfolding split_from
first_part line t (inl e) = ([], rw e refl)
first_part line t (inr (u, e)) = (split_from 10 [] u, rw e refl)

-- The first of the changed files is the line without its blank.
pub changed_lines-shortened :
    (st c : ℕ) (name more : Text)
    → is_space st ≡ false
    → IsWord (c ∷ name)
    → (later : List Text) × (changed_lines (32 ∷ shortened st c (name ++ 10 ∷ more))
        ≡ shortened st c name ∷ later)
unfolding trimmed_lines
changed_lines-shortened st c name more h k =
    let rest = trim_right is_space (10 ∷ more) in
    let ends : (rest ≡ []) ⊎ ((u : Text) × (rest ≡ 10 ∷ u)) = elim (trim_right-newline more) [
      | inl e ↦ inl e
      | inr e ↦ inr (trim_right is_space more, e)
    ] in
    let (later, parts) = first_part (shortened st c name) rest ends in
    let same : trim_space (shortened st c name) ≡ shortened st c name =
      trim_space_same st c name h k in
    let one : trimmed_lines (shortened st c name ∷ later)
        ≡ shortened st c name ∷ trimmed_lines later =
      rw same refl in
    (
      trimmed_lines later,
      ap (λ s. trimmed_lines (split_from 10 [] s)) (trim_space-blank st c name (10 ∷ more) h k)
          ∙ ap trimmed_lines (split_from-shortened st c name rest h k ∙ parts)
          ∙ one,
    )

not_blank : (b : ℕ) → is_space b ≡ false → (32 == b) ≡ false
not_blank b h = ground arith

starts_with-word : (s : Text) → IsWord s → starts_with (45 ∷ 62 ∷ 32 ∷ []) s ≡ none
unfolding starts_with
starts_with-word [] h = refl
starts_with-word (a ∷ []) h = ground arith
starts_with-word (a ∷ b ∷ []) h = ground arith
starts_with-word (a ∷ b ∷ d ∷ s) h = let other = not_blank d h.1.1.0 in ground arith

starts_with-ink :
    (b : ℕ) (s : Text) → is_space b ≡ false → starts_with (codes " -> ") (b ∷ s) ≡ none
unfolding starts_with
starts_with-ink b s h = rw (not_blank b h) refl

arrow_rest-cons :
    (b : ℕ) (s : Text)
    → starts_with (codes " -> ") (b ∷ s) ≡ none
    → arrow_rest (b ∷ s) ≡ arrow_rest s
unfolding arrow_rest
arrow_rest-cons b s e = rw (arrow_rest, e) refl

arrow_rest-word : (s : Text) → IsWord s → arrow_rest s ≡ none
unfolding arrow_rest
arrow_rest-word [] h = refl
arrow_rest-word (b ∷ s) h = arrow_rest-cons b s (starts_with-ink b s h.0) ∙ arrow_rest-word s h.1

starts_with-blank :
    (s : Text) → starts_with (codes " -> ") (32 ∷ s) ≡ starts_with (45 ∷ 62 ∷ 32 ∷ []) s
unfolding starts_with
starts_with-blank s = refl

pub arrow_rest-shortened :
    (st c : ℕ) (name : Text)
    → is_space st ≡ false
    → IsWord (c ∷ name)
    → arrow_rest (shortened st c name) ≡ none
arrow_rest-shortened st c name h k =
    arrow_rest-cons st (32 ∷ c ∷ name) (starts_with-ink st (32 ∷ c ∷ name) h)
    ∙ arrow_rest-cons 32 (c ∷ name) (starts_with-blank (c ∷ name) ∙ starts_with-word (c ∷ name) k)
    ∙ arrow_rest-word (c ∷ name) k
