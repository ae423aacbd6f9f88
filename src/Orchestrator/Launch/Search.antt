-- ===== src/Orchestrator/Launch/Search.antt =====
-- The search of git's list of worktrees for a branch.
use omni_orchestration.Prelude.{
  ℕ, ◌≤◌, ◌≡◌, ◌≢◌, ◌↔◌, refl, ap, true, List, [], ◌∷◌, ◌++◌, ◌==◌, leb, length, length-append,
  arith, inl, inr, Bool-cases, &&-eq-true,
}
use omni_orchestration.Orchestrator.Launch.{is_prefix, search_haystack, contains_str}

-- The needle stands somewhere in the haystack.
abbrev pub Occurs : List ℕ → List ℕ → Type 0
Occurs n h = (before : List ℕ) × (after : List ℕ) × (h ≡ before ++ (n ++ after))

is_prefix_sound : (n h : List ℕ) → is_prefix n h ≡ true → (after : List ℕ) × (h ≡ n ++ after)
unfolding is_prefix
is_prefix_sound [] h e = (h, refl)
is_prefix_sound (c ∷ n) [] e = cc
is_prefix_sound (c ∷ n) (d ∷ h) e =
    let (same, rest) = &&-eq-true (c == d) (is_prefix n h) e in
    let (after, given) = is_prefix_sound n h rest in
    let equal : d ≡ c = ground arith in (after, rw (equal, given) refl)

is_prefix_complete : (n after : List ℕ) → is_prefix n (n ++ after) ≡ true
unfolding is_prefix
is_prefix_complete [] after = refl
is_prefix_complete (c ∷ n) after = ground (arith, is_prefix_complete n after)

search_haystack_sound : (h n : List ℕ) → search_haystack h n ≡ true → Occurs n h
unfolding search_haystack
search_haystack_sound [] n e = let (after, given) = is_prefix_sound n [] e in ([], after, given)
search_haystack_sound (c ∷ h) n e = elim (Bool-cases (is_prefix n (c ∷ h))) [
  | inl hit ↦ let (after, given) = is_prefix_sound n (c ∷ h) hit in ([], after, given)
  | inr miss ↦
      let (before, after, given) = search_haystack_sound h n (ground arith) in
      (c ∷ before, after, ap (◌∷◌ c) given)
]

search_haystack-prefix : (h n : List ℕ) → is_prefix n h ≡ true → search_haystack h n ≡ true
unfolding search_haystack
search_haystack-prefix [] n e = e
search_haystack-prefix (c ∷ h) n e = rw e refl

search_haystack_complete :
    (before n after : List ℕ) → search_haystack (before ++ (n ++ after)) n ≡ true
unfolding search_haystack
search_haystack_complete [] n after =
    search_haystack-prefix (n ++ after) n (is_prefix_complete n after)
search_haystack_complete (b ∷ before) n after =
    ground (arith, search_haystack_complete before n after)

length-Occurs : (n h : List ℕ) → Occurs n h → length n ≤ length h
length-Occurs n h (before, after, given) =
    rw given (omega (arith, length-append before (n ++ after), length-append n after))

nil_of_length : (n : List ℕ) → length n ≤ 0 → n ≡ []
nil_of_length [] h = refl
nil_of_length (c ∷ n) h = absurd (omega arith)

search_haystack_iff : (h n : List ℕ) → (search_haystack h n ≡ true) ↔ Occurs n h
search_haystack_iff h n =
    (search_haystack_sound h n, λ o. rw (o.2) (search_haystack_complete o.0 n o.1))

-- The search finds a needle exactly where it occurs in the haystack and the needle is not empty: it asks for
-- no boundary around the needle.
pub contains_str_iff : (h n : List ℕ) → (contains_str h n ≡ true) ↔ ((n ≢ []) × Occurs n h)
unfolding contains_str
contains_str_iff [] n = (λ e. cc, λ o. absurd (o.0 (nil_of_length n (length-Occurs n [] o.1))))
contains_str_iff (c ∷ h) [] = (λ e. cc, λ o. absurd (o.0 refl))
contains_str_iff (c ∷ h) (d ∷ n) = (
  λ e. (λ k. cc, search_haystack_sound (c ∷ h) (d ∷ n) (ground arith)),
  λ o.
      let fits = length-Occurs (d ∷ n) (c ∷ h) o.1 in
      let found = (search_haystack_iff (c ∷ h) (d ∷ n)).1 o.1 in
      let room : leb (length (d ∷ n)) (length (c ∷ h)) ≡ true = ground arith in rw room found,
)
