-- ===== src/Orchestrator/Run/Closed.antt =====
-- internal/orchestrator/orchestrator.go: the worker processes of a round.
use omni_orchestration.Prelude.{
  ℕ, zero, suc, ◌≡◌, refl, Option, none, some, List, [], ◌∷◌, ◌++◌, ltb, ◌&&◌, inl, inr, Bool-cases,
  IsIn, here, IsIn-append, IsIn-append_left, IsIn-append_right, IsIn-singleton,
}
use omni_orchestration.Session.{Result, ok, err}
use omni_orchestration.Taskstore.{Status, failed, cancelled}
use omni_orchestration.Taskstore.Effects.{record_effect}
use omni_orchestration.Coordinator.{WakeResponse}
use omni_orchestration.Orchestrator.Attempts.{Context, RunError, context_done, open_attempt}
use omni_orchestration.Orchestrator.Attempts.Cleanup.{IsTidy, IsClosed, open_attempt-IsTidy}
use omni_orchestration.Orchestrator.Format.{effect_key}
use omni_orchestration.Orchestrator.Observe.{ObserveResult, wake_coordinator, observe_and_wait}
use omni_orchestration.Orchestrator.Observe.Keeps.{wake_coordinator-Keeps, observe_and_wait_closes}
use omni_orchestration.Orchestrator.Run.{
  LoopState, Ending, Step, stop, again, finish, abandon, next_round, response, decided_state,
  decide, work, tracking, with_attempt, counted, is_automatic, attempt_round, round, follow,
  run_loop, result_packet,
}
use omni_orchestration.Orchestrator.Run.Rule.{with_effect_rule}
use omni_orchestration.Orchestrator.Terminal.{Tracked, finalize_terminal}
use omni_orchestration.Orchestrator.Terminal.Closes.{Keeps, finalize_terminal_closes}
use omni_orchestration.Orchestrator.World.{World, on_store}

-- Every process that was started is closed.
abbrev pub IsQuiet : World → Type 0
IsQuiet w = (pid : ℕ) → IsIn pid w.started → IsIn pid w.closed

pub Keeps-IsQuiet : (w w' : World) → Keeps w w' → IsQuiet w → IsQuiet w'
Keeps-IsQuiet w w' k h pid m = k.1 pid (h pid (rw (← k.0) m))

pub finalize_terminal-IsQuiet :
    (run task : ℕ) (tracked : List Tracked) (last : Option Tracked) (st : Status) (w : World)
    → IsQuiet w
    → IsQuiet (finalize_terminal run task tracked last st w).1
finalize_terminal-IsQuiet run task tracked last st w h =
    Keeps-IsQuiet w (finalize_terminal run task tracked last st w).1
      (finalize_terminal_closes run task tracked last st w).0 h

finish-IsQuiet :
    (c : Context) (s : LoopState) (last : Option Tracked) (st : Status) (e : Option RunError)
    (w : World)
    → IsQuiet w
    → IsQuiet (finish c s last st e w).1
unfolding finish
finish-IsQuiet c s last st e w h =
    finalize_terminal-IsQuiet c.run_id c.task_id s.tracked last st w h

decide-IsQuiet :
    (c : Context) (s : LoopState) (a : Tracked) (res : ObserveResult) (r : WakeResponse) (w : World)
    → IsQuiet w
    → IsQuiet (decide c s a res r w).1
unfolding decide abandon next_round
decide-IsQuiet c s a res r w h =
    let record_it = on_store (record_effect c.run_id (effect_key c.run_id s.number r.decision)) in
    with_effect_rule c (decided_state s r.decision) a res r IsQuiet (λ p. IsQuiet p.1)
      (λ A m v i. i) (λ v i. i)
      (λ st e v h' other i. finish-IsQuiet c (decided_state s r.decision) (some a) st e v i)
      (λ e v given unearned i. i) (λ v i. i) (record_it w).0 (record_it w).1 h

-- The process of the attempt is the only one that may be open.
closed_after :
    (pid : ℕ) (w w1 w2 : World)
    → w1.started ≡ w.started ++ pid ∷ []
    → w1.closed ≡ w.closed
    → Keeps w1 w2
    → IsIn pid w2.closed
    → IsQuiet w
    → IsQuiet w2
closed_after pid w w1 w2 e k kept gone h p m =
    elim (IsIn-append p w.started (pid ∷ []) (rw (← e, ← kept.0) m)) [
      | inr new ↦ rw (IsIn-singleton p pid new) gone
      | inl old ↦ kept.1 p (rw k (h p old))
    ]

unmade-IsQuiet : (w w1 : World) → IsClosed w w1 → IsQuiet w → IsQuiet w1
unmade-IsQuiet w w1 (inl (e, k)) h pid m = rw k (h pid (rw (← e) m))
unmade-IsQuiet w w1 (inr (p, e, k)) h pid m =
    elim (IsIn-append pid w.started (p ∷ []) (rw (← e) m)) [
      | inr new ↦
          rw (k, IsIn-singleton pid p new) (IsIn-append_right p w.closed (p ∷ []) (here refl))
      | inl old ↦ rw k (IsIn-append_left pid w.closed (p ∷ []) (h pid old))
    ]

with_attempt-IsQuiet :
    (c : Context) (s : LoopState) (made : Result RunError Tracked) (w w1 : World)
    → IsQuiet w
    → IsTidy c s.number w (made, w1)
    → IsQuiet (with_attempt c s made w1).1
unfolding with_attempt work
with_attempt-IsQuiet c s (err e) w w1 h k =
    finish-IsQuiet c s none failed (some e) w1 (unmade-IsQuiet w w1 k.1 h)
with_attempt-IsQuiet c s (ok a) w w1 h k =
    let (res, w2) = observe_and_wait c (c.env.observation s.number) a w1 in
    let (woken, w3) = wake_coordinator c (result_packet c s.number res) w2 in
    let (kept, gone) = observe_and_wait_closes c (c.env.observation s.number) a w1 in
    decide-IsQuiet c (tracking s a) a res (response c res woken) w3 (
      Keeps-IsQuiet w2 w3 (wake_coordinator-Keeps c (result_packet c s.number res) w2)
        (closed_after a.pid w w1 w2 k.1 k.2 kept gone h))

round-IsQuiet : (c : Context) (s : LoopState) (w : World) → IsQuiet w → IsQuiet (round c s w).1
unfolding round attempt_round
round-IsQuiet c s w h = elim (Bool-cases (c.env.is_done s.number)) [
  | inl done ↦ rw done (finish-IsQuiet c s none cancelled (some context_done) w h)
  | inr open_run ↦ elim (Bool-cases (is_automatic c s && ltb 3 (counted c s).auto_count)) [
    | inl many ↦ rw (open_run, many) (finish-IsQuiet c (counted c s) none failed none w h)
    | inr few ↦ elim (Bool-cases (ltb c.max_attempts s.number)) [
      | inl above ↦ rw (open_run, few, above) (finish-IsQuiet c (counted c s) none failed none w h)
      | inr within ↦
          let (made, w1) = open_attempt c s.number s.base s.instruction w in
          rw (open_run, few, within)
            (with_attempt-IsQuiet c (counted c s) made w w1 h
              (open_attempt-IsTidy c s.number s.base s.instruction w))
    ]
  ]
]

follow-IsQuiet :
    (step : Step) (w : World) (next : LoopState → World → Option Ending × World)
    → IsQuiet w
    → ((s : LoopState) → IsQuiet (next s w).1)
    → IsQuiet (follow next step w).1
follow-IsQuiet (stop e) w next h k = h
follow-IsQuiet (again s) w next h k = k s

pub run_loop-IsQuiet :
    (fuel : ℕ) (c : Context) (s : LoopState) (w : World)
    → IsQuiet w
    → IsQuiet (run_loop fuel c s w).1
unfolding run_loop
run_loop-IsQuiet zero c s w h = h
run_loop-IsQuiet (suc fuel) c s w h =
    let (step, w1) = round c s w in
    let q : IsQuiet w1 = round-IsQuiet c s w h in
    follow-IsQuiet step w1 (run_loop fuel c) q λ s'. run_loop-IsQuiet fuel c s' w1 q
