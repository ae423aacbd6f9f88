-- ===== src/Orchestrator/Launch/Earned.antt =====
-- COMPLETE in the decisions that `Run` returns.
use omni_orchestration.Prelude.{
  ℕ, suc, ◌≤◌, ◌≡◌, ◌≢◌, sym, str_eq, eq_iff, true, false, Option, none, some, [], ◌∷◌, inl, inr,
  Bool-cases, IsIn, IsIn-singleton,
}
use omni_orchestration.Session.{Result, ok, err}
use omni_orchestration.Coordinator.{complete, fail, WakeResponse, is_allowed}
use omni_orchestration.Orchestrator.Attempts.{Context, RunError, gateway_rejected}
use omni_orchestration.Orchestrator.Observe.{wake_coordinator, validator_passes}
use omni_orchestration.Orchestrator.Run.{Ending, or_fail}
use omni_orchestration.Orchestrator.Run.Accepted.{
  EndsFair, IsEarned, run_loop_fair, or_fail_allowed, wake_coordinator_allowed,
  wake_without_coordinator,
}
use omni_orchestration.Orchestrator.Launch.{
  is_incomplete, run, launch, with_context, with_first, first_packet, first_state, open_run,
  reconcile_attempts, or_default,
}
use omni_orchestration.Orchestrator.Launch.Returns.{Fits, open_run-Fits}
use omni_orchestration.Orchestrator.World.{Config, Environment, World}

-- The first decision is not COMPLETE.
first_unearned :
    (c : Context) (w : World)
    → str_eq (or_fail c (wake_coordinator c (first_packet c) w).0).decision complete ≢ true
unfolding is_allowed
first_unearned c w h = elim (Bool-cases c.cfg.has_coordinator) [
  | inl given ↦
      let allowed : is_allowed complete (first_packet c).allowed_decisions ≡ true =
        or_fail_allowed c (first_packet c).allowed_decisions
          (wake_coordinator c (first_packet c) w).0
          (λ r. wake_coordinator_allowed c (first_packet c) w r given (λ k. cc)) h in
      let j : false ≡ true = allowed in cc
  | inr absent ↦
      let j : false ≡ true = rw (wake_without_coordinator c (first_packet c) w absent) at h in cc
]

with_first_fair :
    (c : Context) (r : WakeResponse) (w : World)
    → str_eq r.decision complete ≢ true
    → EndsFair c (with_first c r w).0
unfolding with_first
with_first_fair c r w h =
    let none_earned : IsEarned c (r.decision ∷ []) = λ m.
      absurd (h ((eq_iff r.decision complete).1 (sym (IsIn-singleton complete r.decision m)))) in
    elim (Bool-cases (str_eq r.decision fail)) [
      | inl failing ↦ rw failing (none_earned, λ k. cc)
      | inr going ↦ rw going (run_loop_fair (suc c.max_attempts) c (first_state c r) w none_earned)
    ]

-- An ending of `Run`.
abbrev IsSound : Config → Environment → Option Ending → Type 0
IsSound cfg env none = Unit
IsSound cfg env (some e) =
    (IsIn complete e.decisions
      → (n : ℕ) × (n ≤ or_default cfg.max_attempts)
        × (validator_passes cfg (env.observation n) ≡ true))
    × (e.error ≢ some gateway_rejected)

EndsFair-IsSound :
    (cfg : Config) (env : Environment) (c : Context) (o : Option Ending)
    → Fits cfg env (ok c)
    → EndsFair c o
    → IsSound cfg env o
EndsFair-IsSound cfg env c none h k = tt
EndsFair-IsSound cfg env c (some e) h k =
    (λ m. let (n, within, passed) = k.0 m in (n, rw (← h.0) within, rw (← h.1, ← h.2) passed), k.1)

with_context-IsSound :
    (cfg : Config) (env : Environment) (opened : Result RunError Context) (w : World)
    → Fits cfg env opened
    → IsSound cfg env (with_context opened w).0
unfolding with_context
with_context-IsSound cfg env (err e) w h = (λ m. elim m [ ], λ k. h (cc))
with_context-IsSound cfg env (ok c) w h =
    let (woken, w1) = wake_coordinator c (first_packet c) w in
    EndsFair-IsSound cfg env c (with_first c (or_fail c woken) w1).0 h
      (with_first_fair c (or_fail c woken) w1 (first_unearned c w))

run-IsSound : (cfg : Config) (env : Environment) (w : World) → IsSound cfg env (run cfg env w).0
unfolding run launch
run-IsSound cfg env w = elim (Bool-cases (is_incomplete cfg)) [
  | inl missing ↦ rw missing (λ m. elim m [ ], λ k. cc)
  | inr given ↦
      let w1 = (reconcile_attempts env w).1 in
      let (opened, w2) = open_run cfg env w1 in
      rw given (with_context-IsSound cfg env opened w2 (open_run-Fits cfg env w1))
]

-- `Run` returns COMPLETE among its decisions only where the validator is set and passed on one of the
-- attempts that the bound allows, whatever the engine decides; its gateway never refuses a COMPLETE.
pub run_earned :
    (cfg : Config) (env : Environment) (w : World) (e : Ending)
    → (run cfg env w).0 ≡ some e
    → (IsIn complete e.decisions
        → (n : ℕ) × (n ≤ or_default cfg.max_attempts)
          × (validator_passes cfg (env.observation n) ≡ true))
      × (e.error ≢ some gateway_rejected)
run_earned cfg env w e h = rw h at (run-IsSound cfg env w)
