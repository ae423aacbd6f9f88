-- ===== src/Session.antt =====
-- A session with a SQLite database, as every store of internal/ holds one (`db *sql.DB`). The driver
-- is a third-party package: whether a statement reports an error is an input, one entry of `faults`
-- for each statement in turn, and no entry means that the statement runs. A statement that fails
-- leaves the tables as they are.
use omni_orchestration.Prelude.{Bool, false, List, [], ◌∷◌, if◌then◌else◌}

pub data Result {ℓ} (E A : Type ℓ) : Type ℓ where
  ok : A → Result E A
  err : E → Result E A

pub record Session {ℓ} (T : Type ℓ) : Type ℓ where
  pub tables : T
  pub faults : List Bool

abbrev pub Action {ℓ} : Type ℓ → Type ℓ → Type ℓ → Type ℓ
Action E T A = Session T → Result E A × Session T

module _ {ℓ} {E T : Type ℓ} where
  abbrev pub pure : {A : Type ℓ} → A → Action E T A
  pure a s = (ok a, s)

  abbrev pub raise : {A : Type ℓ} → E → Action E T A
  raise e s = (err e, s)

  abbrev pub and_then : {A B : Type ℓ} → Result E A → (A → Action E T B) → Action E T B
  and_then (ok a) f s = f a s
  and_then (err e) f s = (err e, s)

  infixl 5 ◌>>=◌
  abbrev pub ◌>>=◌ : {A B : Type ℓ} → Action E T A → (A → Action E T B) → Action E T B
  ◌>>=◌ m f s = and_then (m s).0 f (m s).1

  infixl 5 ◌>>◌
  abbrev pub ◌>>◌ : {A B : Type ℓ} → Action E T A → Action E T B → Action E T B
  m >> k = m >>= λ _. k

  -- Run an action and hand on its error as a value.
  abbrev pub attempt : {A : Type ℓ} → Action E T A → Action E T (Result E A)
  attempt m s = (ok (m s).0, (m s).1)

abbrev pub head_fault : List Bool → Bool
head_fault [] = false
head_fault (b ∷ bs) = b

abbrev pub later_faults : List Bool → List Bool
later_faults [] = []
later_faults (b ∷ bs) = bs

-- One statement: what it returns and the new tables, or the driver's error `e`.
abbrev pub statement {ℓ} : {E T A : Type ℓ} → E → (T → A × T) → Action E T A
statement e run s =
    if head_fault s.faults
    then (err e, record s { faults = later_faults s.faults })
    else (ok (run s.tables).0, record { tables = (run s.tables).1; faults = later_faults s.faults })

-- A statement that only reads.
abbrev pub query {ℓ} : {E T A : Type ℓ} → E → (T → A) → Action E T A
query e read = statement e (λ t. (read t, t))
