-- ===== src/Dag/Circular/Chain.antt =====
-- internal/dag/dag.go, `DetectCircular`, and the chain of single parents.
use omni_orchestration.Prelude.{
  ℕ, zero, suc, ◌≤◌, ◌<◌, ◌≡◌, ◌≢◌, refl, sym, ◌∙◌, ap, false, Option, none, some, List, [], ◌∷◌,
  ◌==◌, any, if◌then◌else◌, arith, Bool-cases, inl, inr,
}
use omni_orchestration.Session.{ok}
use omni_orchestration.Dag.{quiet, Dag, task_by_id}
use omni_orchestration.Dag.Circular.{follow, detect_circular}

-- The single parent of a task, if the task exists and has one.
abbrev pub parent_id : Dag → ℕ → Option ℕ
parent_id d a = elim (task_by_id a d.tasks) [
  | none ↦ none
  | some t ↦ if t.depends_on == 0 then none else some t.depends_on
]

-- The chain of parents from a task reaches another one.
pub data Reaches (d : Dag) : ℕ → ℕ → Type 0 where
  here : {a b : ℕ} → a ≡ b → Reaches d a b
  up : {a b c : ℕ} → parent_id d a ≡ some b → Reaches d b c → Reaches d a c

-- The chain from a task ends after so many links.
pub data Ends (d : Dag) : ℕ → ℕ → Type 0 where
  top : {a : ℕ} → parent_id d a ≡ none → Ends d zero a
  link : {n a b : ℕ} → parent_id d a ≡ some b → Ends d n b → Ends d (suc n) a

-- One round of the loop on a session without faults.
follow_ends :
    (n from current : ℕ) (visited : List ℕ) (d : Dag)
    → current ≢ from
    → any (λ v. v == current) visited ≡ false
    → parent_id d current ≡ none
    → follow (suc n) from current visited (quiet d) ≡ (ok tt, quiet d)
unfolding follow
follow_ends n from current visited d h k e = ground arith

follow_next :
    (n from current next : ℕ) (visited : List ℕ) (d : Dag)
    → current ≢ from
    → any (λ v. v == current) visited ≡ false
    → parent_id d current ≡ some next
    → follow (suc n) from current visited (quiet d)
      ≡ follow n from next (current ∷ visited) (quiet d)
unfolding follow
follow_next n from current next visited d h k e = ground arith

follow_ok :
    (n from current : ℕ) (visited : List ℕ) (d : Dag)
    → (follow (suc n) from current visited (quiet d)).0 ≡ ok tt
    → (current ≢ from) × (any (λ v. v == current) visited ≡ false)
unfolding follow
follow_ok n from current visited d h = ground arith

-- A loop that reports no cycle has walked a chain without `from`.
follow_sound :
    (n from current : ℕ) (visited : List ℕ) (d : Dag)
    → (follow n from current visited (quiet d)).0 ≡ ok tt
    → Reaches d current from
    → ⊥
unfolding follow
follow_sound zero from current visited d h r = absurd (ground arith)
follow_sound (suc n) from current visited d h (here e) = (follow_ok n from current visited d h).0 e
follow_sound (suc n) from current visited d h (up {b = next} e r) =
    let (a, b) = follow_ok n from current visited d h in
    follow_sound n from next (current ∷ visited) d
      (ap (λ x. x.0) (sym (follow_next n from current next visited d a b e)) ∙ h) r

Ends-unique : (d : Dag) {n m a : ℕ} → Ends d n a → Ends d m a → n ≡ m
Ends-unique d (top e) (top f) = refl
Ends-unique d (top e) (link f r) = absurd (ground arith)
Ends-unique d (link e r) (top f) = absurd (ground arith)
Ends-unique d (link {b = b} e r) (link {b = c} f q) =
    let same : b ≡ c = ground arith in ap suc (Ends-unique d r (rw same q))

-- Every visited task is further from the end of the chain than `n` links.
abbrev Further : Dag → ℕ → List ℕ → Type 0
Further d n [] = Unit
Further d n (v ∷ vs) = ((m : ℕ) × Ends d m v × (n < m)) × Further d n vs

Further-weaken : (d : Dag) (n k : ℕ) (vs : List ℕ) → k ≤ n → Further d n vs → Further d k vs
Further-weaken d n k [] h f = tt
Further-weaken d n k (v ∷ vs) h ((m, e, lt), f) = ((m, e, omega arith), Further-weaken d n k vs h f)

not_visited :
    (d : Dag) (n a : ℕ) (vs : List ℕ) → Ends d n a → Further d n vs → any (λ v. v == a) vs ≡ false
not_visited d n a [] e f = refl
not_visited d n a (v ∷ vs) e ((m, q, lt), f) = elim (Bool-cases (v == a)) [
  | inl same ↦
      let is_a : v ≡ a = ground arith in absurd (omega (arith, Ends-unique d e (rw is_a at q)))
  | inr other ↦ rw (other, not_visited d n a vs e f)
]

follow_complete :
    (n rounds from current : ℕ) (visited : List ℕ) (d : Dag)
    → Ends d n current
    → n < rounds
    → (Reaches d current from → ⊥)
    → Further d n visited
    → follow rounds from current visited (quiet d) ≡ (ok tt, quiet d)
follow_complete n zero from current visited d e lt away f = absurd (omega arith)
follow_complete n (suc rounds) from current visited d (top e) lt away f =
    follow_ends rounds from current visited d (λ q. away (here q))
      (not_visited d zero current visited (top e) f) e
follow_complete n (suc rounds) from current visited d (link {n = k} {b = next} e r) lt away f =
    follow_next rounds from current next visited d (λ q. away (here q))
      (not_visited d (suc k) current visited (link e r) f) e
    ∙ follow_complete k rounds from next (current ∷ visited) d r (omega arith) (λ q. away (up e q))
        ((suc k, link e r, omega arith), Further-weaken d (suc k) k visited (omega arith) f)

-- If `DetectCircular` reports no error on a session without faults, the chain of single parents from
-- the new parent does not reach the task, so the new edge closes no cycle of single parents.
pub detect_circular_sound :
    (from to : ℕ) (d : Dag) → (detect_circular from to (quiet d)).0 ≡ ok tt → ¬ Reaches d to from
unfolding detect_circular
detect_circular_sound from to d h = elim (Bool-cases (from == to)) [
  | inl same ↦ absurd (ground arith)
  | inr other ↦ follow_sound 100 from to [] d (ground arith)
]

-- If the chain of single parents from the new parent ends after fewer than 100 links and does not
-- reach the task, `DetectCircular` reports no error on a session without faults.
pub detect_circular_complete :
    (from to n : ℕ) (d : Dag)
    → Ends d n to
    → n < 100
    → (Reaches d to from → ⊥)
    → detect_circular from to (quiet d) ≡ (ok tt, quiet d)
unfolding detect_circular
detect_circular_complete from to n d e lt away =
    let differ : from ≢ to = λ q. away (here (sym q)) in
    let test : (from == to) ≡ false = ground arith in
    rw test (follow_complete n 100 from to [] d e lt away tt)
