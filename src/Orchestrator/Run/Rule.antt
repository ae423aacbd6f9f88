-- ===== src/Orchestrator/Run/Rule.antt =====
-- A rule for the part of a round that applies the decision: what holds of every ending and of the next
-- round holds of the part, with an invariant of the world that the store's actions and the gateway keep.
use omni_orchestration.Prelude.{
  ◌+◌, ◌≡◌, ◌≢◌, refl, str_eq, Bool, true, false, Option, none, some, arith, inl, inr, Bool-cases,
}
use omni_orchestration.Session.{Result, ok, err}
use omni_orchestration.Taskstore.{
  Status, completed, failed, cancelled, Error, RunRecord, StoreAction,
}
use omni_orchestration.Taskstore.Records.{get_run_record, record_candidate}
use omni_orchestration.Coordinator.{complete, fail, WakeResponse}
use omni_orchestration.Orchestrator.Attempts.{
  Context, RunError, gateway_rejected, candidate_failed, candidate_impossible, effect_failed,
}
use omni_orchestration.Orchestrator.Observe.{ObserveResult}
use omni_orchestration.Orchestrator.Run.{
  LoopState, Step, again, finish, abandon, gateway_validate, with_candidate, with_record,
  with_gateway, next_round, apply_decision, with_effect,
}
use omni_orchestration.Orchestrator.Terminal.{Tracked}
use omni_orchestration.Orchestrator.World.{World, on_store}

-- The errors after `abandon`.
abbrev pub is_abandoned : RunError → Bool
is_abandoned gateway_rejected = true
is_abandoned (candidate_failed _) = true
is_abandoned (candidate_impossible _) = true
is_abandoned _ = false

-- COMPLETE where the validator did not pass.
abbrev pub IsUnearned : ObserveResult → WakeResponse → Type 0
IsUnearned res r = (str_eq r.decision complete ≡ true) × (res.validator_passed ≡ false)

module _ (c : Context) (s : LoopState) (a : Tracked) (res : ObserveResult) (r : WakeResponse)
    (I : World → Type 0) (P : Step × World → Type 0)
    (store : (A : Type 0) (m : StoreAction A) (w : World) → I w → I (on_store m w).1)
    (gate : (w : World) → I w → I (record w { gateway = w.gateway + 1 }))
    (on_finish : (st : Status) (e : Option RunError) (w : World)
      → (st ≡ completed → res.validator_passed ≡ true)
      → e ≢ some gateway_rejected
      → I w
      → P (finish c s (some a) st e w))
    (on_abandon : (e : RunError) (w : World)
      → is_abandoned e ≡ true
      → (e ≡ gateway_rejected → IsUnearned res r)
      → I w
      → P (abandon c s a e w))
    (on_next : (w : World) → I w → P (again (next_round c s a r), w)) where
  with_candidate_rule :
      (marked : Result Error (Unit {0})) (w : World)
      → res.validator_passed ≡ true
      → I w
      → P (with_candidate c s a marked w)
  unfolding with_candidate
  with_candidate_rule (ok _) w h i = on_finish completed none w (λ _. h) (λ k. cc) i
  with_candidate_rule (err e) w h i = on_abandon (candidate_failed e) w refl (λ k. cc) i

  with_record_rule :
      (found : Result Error RunRecord) (w : World)
      → res.validator_passed ≡ true
      → I w
      → P (with_record c s a found w)
  unfolding with_record
  with_record_rule (ok _) w h i =
      let mark = record_candidate c.env.force_candidate_error c.run_id s.number in
      with_candidate_rule (on_store mark w).0 (on_store mark w).1 h (store (Unit {0}) mark w i)
  with_record_rule (err e) w h i = elim (Bool-cases (str_eq c.cfg.provider "")) [
    | inl unknown ↦ rw unknown (on_finish completed none w (λ _. h) (λ k. cc) i)
    | inr known ↦ rw known (on_abandon (candidate_impossible e) w refl (λ k. cc) i)
  ]

  with_complete_rule :
      (w : World)
      → str_eq r.decision complete ≡ true
      → I w
      → P (
          with_gateway c s a
            (gateway_validate r.decision res.validator_passed w).0
            (gateway_validate r.decision res.validator_passed w).1)
  unfolding gateway_validate with_gateway
  with_complete_rule w h i = elim (Bool-cases res.validator_passed) [
    | inr failing ↦ rw (h, failing) (on_abandon gateway_rejected w refl (λ _. (h, failing)) i)
    | inl passed ↦
        let w' = record w { gateway = w.gateway + 1 } in
        rw (h, passed)
          (with_record_rule (on_store (get_run_record c.run_id) w').0
            (on_store (get_run_record c.run_id) w').1 passed
            (store RunRecord (get_run_record c.run_id) w' (gate w i)))
  ]

  apply_decision_rule : (w : World) → I w → P (apply_decision c s a res r w)
  unfolding apply_decision
  apply_decision_rule w i = elim (Bool-cases (str_eq r.decision complete)) [
    | inl done ↦ rw done (with_complete_rule w done i)
    | inr more ↦ elim (Bool-cases (str_eq r.decision fail)) [
      | inl failing ↦
          rw (more, failing) (on_finish failed none w (λ k. absurd (ground arith)) (λ k. cc) i)
      | inr going ↦ rw (more, going) (on_next w i)
    ]
  ]

  pub with_effect_rule :
      (is_new : Result Error Bool) (w : World) → I w → P (with_effect c s a res r is_new w)
  unfolding with_effect
  with_effect_rule (err e) w i =
      on_finish failed (some (effect_failed e)) w (λ k. absurd (ground arith)) (λ k. cc) i
  with_effect_rule (ok false) w i =
      on_finish cancelled none w (λ k. absurd (ground arith)) (λ k. cc) i
  with_effect_rule (ok true) w i = apply_decision_rule w i
