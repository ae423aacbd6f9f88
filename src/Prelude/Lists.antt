-- ===== src/Prelude/Lists.antt =====
-- Lists measured by native numbers, and the list functions behind the SQL statements: a filter, an
-- update of the rows that a condition selects, and the count of those rows.
use omni_orchestration.Prelude.Logic.{if◌then◌else◌, Bool-cases}
use mathlib.Core.Logic.{inl, inr, ◌⊎◌}
use Prim.Native.Nat.{ℕ, suc, ◌+◌, ◌<◌}
use mathlib.Core.Path.{◌≡◌, refl, ap}
use mathlib.Core.List.{List, [], ◌∷◌, ◌++◌}
use mathlib.Core.Bool.{Bool, true, false, ◌||◌}
use mathlib.Core.Option.{Option, none, some}
use native.Mathlib.Omega.{arith}

module _ {ℓ} {A : Type ℓ} where
  abbrev pub length : List A → ℕ
  length [] = 0
  length (x ∷ xs) = suc (length xs)

  -- The first element that passes the test.
  abbrev pub find? : (A → Bool) → List A → Option A
  find? p [] = none
  find? p (x ∷ xs) = if p x then some x else find? p xs

  abbrev pub any : (A → Bool) → List A → Bool
  any p [] = false
  any p (x ∷ xs) = p x || any p xs

  abbrev pub count_where : (A → Bool) → List A → ℕ
  count_where p [] = 0
  count_where p (x ∷ xs) = (if p x then 1 else 0) + count_where p xs

  abbrev pub keep_where : (A → Bool) → List A → List A
  keep_where p [] = []
  keep_where p (x ∷ xs) = let rest = keep_where p xs in if p x then x ∷ rest else rest

  abbrev pub update_where : (A → Bool) → (A → A) → List A → List A
  update_where p f [] = []
  update_where p f (x ∷ xs) = (if p x then f x else x) ∷ update_where p f xs

  -- Every element satisfies a predicate.
  abbrev pub All {κ} : (A → Type κ) → List A → Type κ
  All P [] = Unit
  All P (x ∷ xs) = P x × All P xs

-- An occurrence of an element.
pub data IsIn {ℓ} {A : Type ℓ} (a : A) : List A → Type ℓ where
  here : {x : A} {xs : List A} → a ≡ x → IsIn a (x ∷ xs)
  there : {x : A} {xs : List A} → IsIn a xs → IsIn a (x ∷ xs)

module _ {ℓ} {A : Type ℓ} where
  -- A row that the count found.
  pub count_where-pos :
      (p : A → Bool) (xs : List A) → 0 < count_where p xs → (a : A) × IsIn a xs × (p a ≡ true)
  count_where-pos p [] h = absurd (omega arith)
  count_where-pos p (x ∷ xs) h = elim (Bool-cases (p x)) [
    | inl hit ↦ (x, here refl, hit)
    | inr miss ↦ let (a, m, q) = count_where-pos p xs (ground arith) in (a, there m, q)
  ]

  pub count_where-IsIn :
      (p : A → Bool) (a : A) (xs : List A) → IsIn a xs → p a ≡ true → 0 < count_where p xs
  count_where-IsIn p a [] m h = elim m [ ]
  count_where-IsIn p a (x ∷ xs) (here e) h = ground arith
  count_where-IsIn p a (x ∷ xs) (there m) h = omega (arith, count_where-IsIn p a xs m h)

  -- A row of an updated table comes from a row of the table.
  pub update_where-IsIn :
      (p : A → Bool) (f : A → A) (a : A) (xs : List A)
      → IsIn a (update_where p f xs)
      → (b : A) × IsIn b xs × (a ≡ (if p b then f b else b))
  update_where-IsIn p f a [] m = elim m [ ]
  update_where-IsIn p f a (x ∷ xs) (here e) = (x, here refl, e)
  update_where-IsIn p f a (x ∷ xs) (there m) =
      let (b, n, e) = update_where-IsIn p f a xs m in (b, there n, e)

  pub IsIn-update_where :
      (p : A → Bool) (f : A → A) (b : A) (xs : List A)
      → IsIn b xs
      → IsIn (if p b then f b else b) (update_where p f xs)
  IsIn-update_where p f b [] m = elim m [ ]
  IsIn-update_where p f b (x ∷ xs) (here e) = here (rw e)
  IsIn-update_where p f b (x ∷ xs) (there m) = there (IsIn-update_where p f b xs m)

  pub any-eq_true :
      (p : A → Bool) (xs : List A) → any p xs ≡ true → (a : A) × IsIn a xs × (p a ≡ true)
  any-eq_true p [] h = cc
  any-eq_true p (x ∷ xs) h = elim (Bool-cases (p x)) [
    | inl hit ↦ (x, here refl, hit)
    | inr miss ↦ let (a, m, q) = any-eq_true p xs (ground arith) in (a, there m, q)
  ]

  pub any-IsIn : (p : A → Bool) (a : A) (xs : List A) → IsIn a xs → p a ≡ true → any p xs ≡ true
  any-IsIn p a [] m h = elim m [ ]
  any-IsIn p a (x ∷ xs) (here e) h = ground arith
  any-IsIn p a (x ∷ xs) (there m) h = ground (arith, any-IsIn p a xs m h)

  pub IsIn-keep_where :
      (p : A → Bool) (a : A) (xs : List A) → IsIn a xs → p a ≡ true → IsIn a (keep_where p xs)
  IsIn-keep_where p a [] m h = elim m [ ]
  IsIn-keep_where p a (x ∷ xs) (here e) h = let k : p x ≡ true = rw (← e) h in rw k (here e)
  IsIn-keep_where p a (x ∷ xs) (there m) h = elim (Bool-cases (p x)) [
    | inl kept ↦ rw kept (there (IsIn-keep_where p a xs m h))
    | inr gone ↦ rw gone (IsIn-keep_where p a xs m h)
  ]

  pub length-append : (xs ys : List A) → length (xs ++ ys) ≡ length xs + length ys
  length-append [] ys = omega arith
  length-append (x ∷ xs) ys = omega (arith, length-append xs ys)

  pub IsIn-append : (a : A) (xs ys : List A) → IsIn a (xs ++ ys) → IsIn a xs ⊎ IsIn a ys
  IsIn-append a [] ys m = inr m
  IsIn-append a (x ∷ xs) ys (here e) = inl (here e)
  IsIn-append a (x ∷ xs) ys (there m) = elim (IsIn-append a xs ys m) [
    | inl n ↦ inl (there n)
    | inr n ↦ inr n
  ]

  pub IsIn-append_left : (a : A) (xs ys : List A) → IsIn a xs → IsIn a (xs ++ ys)
  IsIn-append_left a [] ys m = elim m [ ]
  IsIn-append_left a (x ∷ xs) ys (here e) = here e
  IsIn-append_left a (x ∷ xs) ys (there m) = there (IsIn-append_left a xs ys m)

  pub IsIn-append_right : (a : A) (xs ys : List A) → IsIn a ys → IsIn a (xs ++ ys)
  IsIn-append_right a [] ys m = m
  IsIn-append_right a (x ∷ xs) ys m = there (IsIn-append_right a xs ys m)

  pub IsIn-singleton : (a x : A) → IsIn a (x ∷ []) → a ≡ x
  IsIn-singleton a x (here e) = e
  IsIn-singleton a x (there m) = elim m [ ]

  pub update_where_of_count :
      (p : A → Bool) (f : A → A) (xs : List A) → count_where p xs ≡ 0 → update_where p f xs ≡ xs
  update_where_of_count p f [] h = refl
  update_where_of_count p f (x ∷ xs) h = elim (Bool-cases (p x)) [
    | inl hit ↦ absurd (ground arith)
    | inr miss ↦ rw miss (ap (◌∷◌ x) (update_where_of_count p f xs (ground arith)))
  ]

  pub All-update_where {κ} :
      (P : A → Type κ) (p : A → Bool) (f : A → A) (xs : List A)
      → ((a : A) → P a → p a ≡ true → P (f a))
      → All P xs
      → All P (update_where p f xs)
  All-update_where P p f [] h k = tt
  All-update_where P p f (x ∷ xs) h k = (
    elim (Bool-cases (p x)) [ inl hit ↦ rw hit (h x k.0 hit) | inr miss ↦ rw miss k.0 ],
    All-update_where P p f xs h k.1,
  )

  pub All-append {κ} : (P : A → Type κ) (xs ys : List A) → All P xs → All P ys → All P (xs ++ ys)
  All-append P [] ys h k = k
  All-append P (x ∷ xs) ys h k = (h.0, All-append P xs ys h.1 k)

  pub All-find? {κ} :
      (P : A → Type κ) (p : A → Bool) (a : A) (xs : List A)
      → All P xs
      → find? p xs ≡ some a
      → P a × (p a ≡ true)
  All-find? P p a [] h e = absurd (ground arith)
  All-find? P p a (x ∷ xs) h e = elim (Bool-cases (p x)) [
    | inl hit ↦ let same : x ≡ a = ground arith in rw (← same) (h.0, hit)
    | inr miss ↦ All-find? P p a xs h.1 (ground arith)
  ]

  pub find?-test : (p : A → Bool) (a : A) (xs : List A) → find? p xs ≡ some a → p a ≡ true
  find?-test p a [] e = absurd (ground arith)
  find?-test p a (x ∷ xs) e = ground (arith, find?-test p a xs)
