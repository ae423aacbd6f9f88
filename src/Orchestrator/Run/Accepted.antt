-- ===== src/Orchestrator/Run/Accepted.antt =====
-- internal/orchestrator/orchestrator.go: COMPLETE in the loop of `Run`, with the validator and the gateway.
use omni_orchestration.Prelude.{
  ℕ, zero, suc, ◌≤◌, ◌≡◌, ◌≢◌, ◌∙◌, refl, sym, String, str_eq, eq_iff, true, false, not, ◌&&◌,
  Option, none, some, List, [], ◌∷◌, ltb, arith, inl, inr, Bool-cases, IsIn, IsIn-append,
  IsIn-singleton,
}
use omni_orchestration.Session.{Result, ok, err}
use omni_orchestration.Taskstore.{Error, WorkerRecord}
use omni_orchestration.Taskstore.Effects.{record_effect}
use omni_orchestration.Coordinator.{
  Decision, complete, WakePacket, WakeResponse, WakeError, wake, is_allowed,
}
use omni_orchestration.Coordinator.Gate.{wake_sound, IsIn-is_allowed}
use omni_orchestration.Orchestrator.Attempts.{
  Context, RunError, gateway_rejected, open_attempt, with_worker, Site, site_of,
}
use omni_orchestration.Orchestrator.Attempts.Rule.{open_attempt_rule}
use omni_orchestration.Orchestrator.Format.{effect_key}
use omni_orchestration.Orchestrator.Observe.{
  ObserveResult, wake_coordinator, auto_validate, observe_and_wait, conclude, validator_passes,
  allowed_decisions,
}
use omni_orchestration.Orchestrator.Run.{
  LoopState, Ending, Step, stop, again, finish, abandon, next_round, response, or_fail,
  decided_state, decide, work, tracking, with_attempt, counted, is_automatic, attempt_round, round,
  follow, run_loop, result_packet,
}
use omni_orchestration.Orchestrator.Run.Rule.{with_effect_rule, IsUnearned}
use omni_orchestration.Orchestrator.Terminal.{Tracked}
use omni_orchestration.Orchestrator.World.{World, on_store}

-- COMPLETE is allowed only where the validator passed.
allowed_earned :
    (res : ObserveResult)
    → is_allowed complete (allowed_decisions res) ≡ true
    → res.validator_passed ≡ true
unfolding allowed_decisions is_allowed
allowed_earned res h = elim (Bool-cases res.validator_passed) [
  | inl passed ↦ passed
  | inr failing ↦ elim (Bool-cases res.has_exited) [
    | inl gone ↦ absurd (let k = rw (failing, gone) at h in cc)
    | inr going ↦ absurd (let k = rw (failing, going) at h in cc)
  ]
]

-- A decision that a wake returns is allowed by its packet.
pub wake_coordinator_allowed :
    (c : Context) (p : WakePacket) (w : World) (r : WakeResponse)
    → c.cfg.has_coordinator ≡ true
    → p.allowed_decisions ≢ []
    → (wake_coordinator c p w).0 ≡ ok r
    → is_allowed r.decision p.allowed_decisions ≡ true
unfolding wake_coordinator
wake_coordinator_allowed c p w r given some_allowed h =
    let woken : (wake c.env.engine w.coordinator.gen p w.coordinator).0 ≡ ok r = rw given at h in
    elim ((wake_sound c.env.engine w.coordinator.gen p w.coordinator r woken).2) [
      | inl none_allowed ↦ absurd (some_allowed none_allowed)
      | inr m ↦ IsIn-is_allowed r.decision p.allowed_decisions m
    ]

allowed_decisions-ne-nil : (res : ObserveResult) → allowed_decisions res ≢ []
unfolding allowed_decisions
allowed_decisions-ne-nil res h = ground arith

pub or_fail_allowed :
    (c : Context) (allowed : List String) (woken : Result WakeError WakeResponse)
    → ((r : WakeResponse) → woken ≡ ok r → is_allowed r.decision allowed ≡ true)
    → str_eq (or_fail c woken).decision complete ≡ true
    → is_allowed complete allowed ≡ true
or_fail_allowed c allowed (err e) h k = cc
or_fail_allowed c allowed (ok r) h k =
    let same : r.decision ≡ complete = (eq_iff r.decision complete).0 k in rw (← same) (h r refl)

pub wake_without_coordinator :
    (c : Context) (p : WakePacket) (w : World)
    → c.cfg.has_coordinator ≡ false
    → (wake_coordinator c p w).0 ≡ ok (auto_validate c)
unfolding wake_coordinator
wake_without_coordinator c p w h = rw h refl

-- A round without a coordinator, or with one, whose validator did not pass: the answer is no COMPLETE.
woken_earned :
    (c : Context) (n : ℕ) (res : ObserveResult) (w : World)
    → str_eq (or_fail c (wake_coordinator c (result_packet c n res) w).0).decision complete ≡ true
    → res.validator_passed ≡ true
woken_earned c n res w h = elim (Bool-cases c.cfg.has_coordinator) [
  | inl given ↦ allowed_earned res (
      or_fail_allowed c (allowed_decisions res) (wake_coordinator c (result_packet c n res) w).0
        (λ r.
          wake_coordinator_allowed c (result_packet c n res) w r given
            (allowed_decisions-ne-nil res))
        h)
  | inr absent ↦
      let k = rw (wake_without_coordinator c (result_packet c n res) w absent) at h in
      absurd (let j : false ≡ true = k in cc)
]

-- The response of a round is COMPLETE only where the validator passed.
response_earned :
    (c : Context) (n : ℕ) (res : ObserveResult) (w : World)
    → str_eq (response c res (wake_coordinator c (result_packet c n res) w).0).decision complete
      ≡ true
    → res.validator_passed ≡ true
unfolding response
response_earned c n res w h =
    elim (Bool-cases (not c.cfg.has_coordinator && res.validator_passed)) [
      | inl auto ↦ ground arith
      | inr asked ↦ woken_earned c n res w (rw asked at h)
    ]

-- The validator passed on an attempt that the bound allows, if COMPLETE is among the decisions.
abbrev pub IsEarned : Context → List Decision → Type 0
IsEarned c ds =
    IsIn complete ds
    → (n : ℕ) × (n ≤ c.max_attempts) × (validator_passes c.cfg (c.env.observation n) ≡ true)

-- What a step keeps.
abbrev IsFair : Context → Step → Type 0
IsFair c (stop e) = IsEarned c e.decisions × (e.error ≢ some gateway_rejected)
IsFair c (again s) = IsEarned c s.decisions

decided_IsEarned :
    (c : Context) (s : LoopState) (d : Decision)
    → s.number ≤ c.max_attempts
    → IsEarned c s.decisions
    → (str_eq d complete ≡ true → validator_passes c.cfg (c.env.observation s.number) ≡ true)
    → IsEarned c (decided_state s d).decisions
decided_IsEarned c s d within h k m = elim (IsIn-append complete s.decisions (d ∷ []) m) [
  | inl before ↦ h before
  | inr now ↦ (s.number, within, k ((eq_iff d complete).1 (sym (IsIn-singleton complete d now))))
]

decide-IsFair :
    (c : Context) (s : LoopState) (a : Tracked) (res : ObserveResult) (r : WakeResponse) (w : World)
    → s.number ≤ c.max_attempts
    → IsEarned c s.decisions
    → res.validator_passed ≡ validator_passes c.cfg (c.env.observation s.number)
    → (str_eq r.decision complete ≡ true → res.validator_passed ≡ true)
    → IsFair c (decide c s a res r w).0
unfolding decide finish abandon next_round
decide-IsFair c s a res r w within h seen earned =
    let s' = decided_state s r.decision in
    let kept : IsEarned c s'.decisions =
      decided_IsEarned c s r.decision within h (λ e. sym seen ∙ earned e) in
    let not_unearned : (e : RunError)
        → (e ≡ gateway_rejected → IsUnearned res r)
        → some e ≢ some gateway_rejected =
      λ e unearned k.
        let (is_complete, failing) = unearned (cc) in let passed = earned is_complete in cc in
    let (is_new, w1) =
      on_store (record_effect c.run_id (effect_key c.run_id s.number r.decision)) w in
    with_effect_rule c s' a res r (λ _. Unit {0}) (λ p. IsFair c p.0) (λ A m v i. tt) (λ v i. tt)
      (λ st e v st_completed other i. (kept, other))
      (λ e v abandoned unearned i. (kept, λ k. not_unearned e unearned k)) (λ v i. kept) is_new w1
      tt

-- `createAttempt` has other errors.
abbrev IsOther : Result RunError Tracked → Type 0
IsOther made = made ≢ err gateway_rejected

with_worker-IsOther :
    (c : Context) (s : Site) (pid : ℕ) (made : Result Error WorkerRecord) (w : World)
    → IsOther (with_worker s pid made w).0
unfolding with_worker
with_worker-IsOther c s pid (err e) w k = cc
with_worker-IsOther c s pid (ok worker) w k = cc

open_attempt-IsOther :
    (c : Context) (number : ℕ) (base instruction : String) (w : World)
    → IsOther (open_attempt c number base instruction w).0
open_attempt-IsOther c number base instruction w =
    open_attempt_rule c number base instruction (λ _. Unit {0}) (λ _ _. Unit {0}) (λ p. IsOther p.0)
      (λ A m v i. tt) (λ A m pid v i. tt) (λ pid v i. tt) (λ v h i k. cc)
      (λ info e v h other i k. other (cc))
      (λ info row pid made v h k i.
        with_worker-IsOther c (site_of c number info instruction row) pid made v)
      w tt

with_attempt-IsFair :
    (c : Context) (s : LoopState) (made : Result RunError Tracked) (w : World)
    → s.number ≤ c.max_attempts
    → IsEarned c s.decisions
    → IsOther made
    → IsFair c (with_attempt c s made w).0
unfolding with_attempt finish work observe_and_wait conclude
with_attempt-IsFair c s (err e) w within h other = (h, λ k. other (cc))
with_attempt-IsFair c s (ok a) w within h other =
    let (res, w1) = observe_and_wait c (c.env.observation s.number) a w in
    let (woken, w2) = wake_coordinator c (result_packet c s.number res) w1 in
    decide-IsFair c (tracking s a) a res (response c res woken) w2 within h refl
      (response_earned c s.number res w1)

round-IsFair :
    (c : Context) (s : LoopState) (w : World) → IsEarned c s.decisions → IsFair c (round c s w).0
unfolding round attempt_round finish
round-IsFair c s w h = elim (Bool-cases (c.env.is_done s.number)) [
  | inl done ↦ rw done (h, λ k. cc)
  | inr open_run ↦ elim (Bool-cases (is_automatic c s && ltb 3 (counted c s).auto_count)) [
    | inl many ↦ rw (open_run, many) (h, λ k. cc)
    | inr few ↦ elim (Bool-cases (ltb c.max_attempts s.number)) [
      | inl above ↦ rw (open_run, few, above) (h, λ k. cc)
      | inr within ↦
          let (made, w1) = open_attempt c s.number s.base s.instruction w in
          rw (open_run, few, within)
            (with_attempt-IsFair c (counted c s) made w1 (ground arith) h
              (open_attempt-IsOther c s.number s.base s.instruction w))
    ]
  ]
]

-- An ending of the loop.
abbrev pub EndsFair : Context → Option Ending → Type 0
EndsFair c none = Unit
EndsFair c (some e) = IsEarned c e.decisions × (e.error ≢ some gateway_rejected)

follow_fair :
    (c : Context) (step : Step) (w : World) (next : LoopState → World → Option Ending × World)
    → IsFair c step
    → ((s : LoopState) → IsEarned c s.decisions → EndsFair c (next s w).0)
    → EndsFair c (follow next step w).0
follow_fair c (stop e) w next h k = h
follow_fair c (again s) w next h k = k s h

-- Where COMPLETE was not unearned before the loop it is not after it, and the gateway refuses nothing.
pub run_loop_fair :
    (fuel : ℕ) (c : Context) (s : LoopState) (w : World)
    → IsEarned c s.decisions
    → EndsFair c (run_loop fuel c s w).0
unfolding run_loop
run_loop_fair zero c s w h = tt
run_loop_fair (suc fuel) c s w h =
    follow_fair c (round c s w).0 (round c s w).1 (run_loop fuel c) (round-IsFair c s w h)
      λ s' k. run_loop_fair fuel c s' (round c s w).1 k
