-- ===== src/Runtime/Attach/Identity.antt =====
-- internal/runtime/runtime.go: the identity checks of `Attach`.
use omni_orchestration.Prelude.{
  ℕ, ◌/◌, ◌≡◌, refl, String, Option, none, some, List, [], ◌∷◌, ◌==◌, arith, ◌⊎◌, inl, inr,
  Bool-cases,
}
use omni_orchestration.Session.{Result, ok, err}
use omni_orchestration.Runtime.{Runtime, RuntimeError}
use omni_orchestration.Runtime.Attach.Command.{Runs}
use omni_orchestration.Runtime.Attach.{
  Text, AttachIdentity, Processes, identity_of, of_output, verify_identity, compare_identity,
  with_comparison, comparison, attach, fields, trim_space,
}

-- What is shown of a process agrees with what was stored, where both are known.
pub record Agrees (id found : AttachIdentity) : Type 0 where
  pub command : (id.executable ≡ []) ⊎ Runs id.executable found.executable
  pub start_time :
      (id.start_time_ms ≡ 0)
      ⊎ ((found.start_time_sec ≡ 0) ⊎ (id.start_time_ms / 1000 ≡ found.start_time_sec))

with_comparison_err :
    (pid : ℕ) (name : String) (g : ℕ) (made : Result RuntimeError (Unit {0})) (r : Runtime)
    (e : RuntimeError)
    → (with_comparison pid name g made r).0 ≡ err e
    → (with_comparison pid name g made r).1 ≡ r
with_comparison_err pid name g (err e') r e h = refl
with_comparison_err pid name g (ok _) r e h = absurd (ground arith)

-- A refused Attach leaves the runtime as it is.
pub attach_refused :
    (os : Processes) (pid : ℕ) (name : String) (id : AttachIdentity) (g : ℕ) (r : Runtime)
    (e : RuntimeError)
    → (attach os pid name id g r).0 ≡ err e
    → (attach os pid name id g r).1 ≡ r
unfolding attach
attach_refused os pid name id g r e h = elim (Bool-cases (pid == 0)) [
  | inl zero_pid ↦ ground arith
  | inr given ↦ elim (Bool-cases (os.is_alive pid)) [
    | inr dead ↦ ground arith
    | inl alive ↦
        let made = comparison id (verify_identity os pid) in
        let refused : (with_comparison pid name g made r).0 ≡ err e = ground arith in
        rw (given, alive) (with_comparison_err pid name g made r e refused)
  ]
]

identity_of_cwd :
    (os : Processes) (pid : ℕ) (words : List Text) (found : AttachIdentity)
    → identity_of os pid words ≡ some found
    → found.cwd ≡ []
unfolding identity_of
identity_of_cwd os pid [] found h = absurd (ground arith)
identity_of_cwd os pid (a ∷ []) found h = absurd (ground arith)
identity_of_cwd os pid (a ∷ b ∷ []) found h = absurd (ground arith)
identity_of_cwd os pid (a ∷ b ∷ c ∷ []) found h = absurd (ground arith)
identity_of_cwd os pid (a ∷ b ∷ c ∷ d ∷ []) found h = absurd (ground arith)
identity_of_cwd os pid (a ∷ b ∷ c ∷ d ∷ e ∷ []) found h = absurd (ground arith)
identity_of_cwd os pid (a ∷ b ∷ c ∷ d ∷ e ∷ x ∷ rest) found h = ground arith

of_output_cwd :
    (os : Processes) (pid : ℕ) (out : Option Text) (found : AttachIdentity)
    → of_output os pid out ≡ some found
    → found.cwd ≡ []
of_output_cwd os pid none found h = absurd (ground arith)
of_output_cwd os pid (some out) found h = identity_of_cwd os pid (fields (trim_space out)) found h

compare_identity_unread :
    (id found : AttachIdentity) (cwd : Text)
    → found.cwd ≡ []
    → compare_identity (record id { cwd = cwd }) found ≡ compare_identity id found
unfolding compare_identity
compare_identity_unread id found cwd h = ground arith

comparison_unread :
    (id : AttachIdentity) (cwd : Text) (o : Option AttachIdentity)
    → ((found : AttachIdentity) → o ≡ some found → found.cwd ≡ [])
    → comparison (record id { cwd = cwd }) o ≡ comparison id o
comparison_unread id cwd none h = refl
comparison_unread id cwd (some found) h = compare_identity_unread id found cwd (h found refl)

-- The stored working directory makes no difference to Attach: none is ever read from the process.
pub attach_ignores_cwd :
    (os : Processes) (pid : ℕ) (name : String) (id : AttachIdentity) (g : ℕ) (r : Runtime)
    (cwd : Text)
    → attach os pid name (record id { cwd = cwd }) g r ≡ attach os pid name id g r
unfolding attach verify_identity
attach_ignores_cwd os pid name id g r cwd =
    rw (comparison_unread id cwd (verify_identity os pid) (of_output_cwd os pid (os.ps pid))) refl
