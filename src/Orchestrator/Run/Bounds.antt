-- ===== src/Orchestrator/Run/Bounds.antt =====
-- internal/orchestrator/orchestrator.go: the rounds of the loop of `Run`, with the decisions that it counts.
use omni_orchestration.Prelude.{
  ℕ, zero, suc, ◌+◌, ◌-◌, ◌≤◌, ◌<◌, ◌≡◌, refl, Bool, ◌&&◌, Option, some, [], ◌∷◌, ltb, length,
  length-append, arith, inl, inr, Bool-cases,
}
use omni_orchestration.Session.{Result, ok, err}
use omni_orchestration.Taskstore.{Error}
use omni_orchestration.Taskstore.Effects.{record_effect}
use omni_orchestration.Coordinator.{Decision, WakeResponse}
use omni_orchestration.Orchestrator.Attempts.{Context, RunError, open_attempt}
use omni_orchestration.Orchestrator.Format.{effect_key}
use omni_orchestration.Orchestrator.Observe.{ObserveResult, wake_coordinator, observe_and_wait}
use omni_orchestration.Orchestrator.Run.{
  LoopState, Ending, Step, stop, again, finish, abandon, next_round, with_effect, response,
  decided_state, decide, work, tracking, with_attempt, counted, is_automatic, attempt_round, round,
  follow, run_loop, result_packet,
}
use omni_orchestration.Orchestrator.Run.Rule.{with_effect_rule}
use omni_orchestration.Orchestrator.Terminal.{Tracked}
use omni_orchestration.Orchestrator.World.{World, on_store}

-- A step of a round: it ends with at most one decision more, or goes on at the next number with one.
abbrev pub Advances : LoopState → Step → Type 0
Advances s (stop e) = length e.decisions ≤ length s.decisions + 1
Advances s (again s') = (s'.number ≡ s.number + 1) × (length s'.decisions ≡ length s.decisions + 1)

-- The same once the decision stands in the state.
abbrev Ends : LoopState → Step → Type 0
Ends s (stop e) = e.decisions ≡ s.decisions
Ends s (again s') = (s'.number ≡ s.number + 1) × (s'.decisions ≡ s.decisions)

with_effect-Ends :
    (c : Context) (s : LoopState) (a : Tracked) (res : ObserveResult) (r : WakeResponse)
    (is_new : Result Error Bool) (w : World)
    → Ends s (with_effect c s a res r is_new w).0
unfolding finish abandon next_round
with_effect-Ends c s a res r is_new w =
    with_effect_rule c s a res r (λ _. Unit {0}) (λ p. Ends s p.0) (λ A m v i. tt) (λ v i. tt)
      (λ st e v h k i. refl) (λ e v b h i. refl) (λ v i. (refl, refl)) is_new w tt

Ends-Advances :
    (s : LoopState) (d : Decision) (step : Step) → Ends (decided_state s d) step → Advances s step
Ends-Advances s d (stop e) h = rw h (omega (arith, length-append s.decisions (d ∷ [])))
Ends-Advances s d (again s') h = (h.0, rw h.1 (length-append s.decisions (d ∷ [])))

decide-Advances :
    (c : Context) (s : LoopState) (a : Tracked) (res : ObserveResult) (r : WakeResponse) (w : World)
    → Advances s (decide c s a res r w).0
unfolding decide
decide-Advances c s a res r w =
    let record_it = on_store (record_effect c.run_id (effect_key c.run_id s.number r.decision)) in
    Ends-Advances s r.decision
      (with_effect c (decided_state s r.decision) a res r (record_it w).0 (record_it w).1).0
      (with_effect-Ends c (decided_state s r.decision) a res r (record_it w).0 (record_it w).1)

with_attempt-Advances :
    (c : Context) (s : LoopState) (made : Result RunError Tracked) (w : World)
    → Advances s (with_attempt c s made w).0
unfolding with_attempt finish work
with_attempt-Advances c s (err e) w = omega arith
with_attempt-Advances c s (ok a) w =
    let (res, w1) = observe_and_wait c (c.env.observation s.number) a w in
    let (woken, w2) = wake_coordinator c (result_packet c s.number res) w1 in
    decide-Advances c (tracking s a) a res (response c res woken) w2

-- The rounds left from `s`, the one at hand included.
abbrev pub rounds_left : Context → LoopState → ℕ
rounds_left c s = c.max_attempts + 1 - s.number

-- A step of a round, as above; only a round within the bound decides and goes on.
abbrev pub Proceeds : Context → LoopState → Step → Type 0
Proceeds c s (stop e) = length e.decisions ≤ length s.decisions + rounds_left c s
Proceeds c s (again s') =
    (s'.number ≡ s.number + 1)
    × (length s'.decisions ≡ length s.decisions + 1)
    × (s.number ≤ c.max_attempts)

Proceeds-Advances :
    (c : Context) (s : LoopState) (step : Step)
    → s.number ≤ c.max_attempts
    → Advances s step
    → Proceeds c s step
Proceeds-Advances c s (stop e) h k = omega (arith, k)
Proceeds-Advances c s (again s') h k = (k.0, k.1, h)

round-Proceeds : (c : Context) (s : LoopState) (w : World) → Proceeds c s (round c s w).0
unfolding round attempt_round finish
round-Proceeds c s w = elim (Bool-cases (c.env.is_done s.number)) [
  | inl done ↦ rw done (omega arith)
  | inr open_run ↦ elim (Bool-cases (is_automatic c s && ltb 3 (counted c s).auto_count)) [
    | inl many ↦ rw (open_run, many) (omega arith)
    | inr few ↦ elim (Bool-cases (ltb c.max_attempts s.number)) [
      | inl above ↦ rw (open_run, few, above) (omega arith)
      | inr within ↦
          let (made, w1) = open_attempt c s.number s.base s.instruction w in
          rw (open_run, few, within)
            (Proceeds-Advances c s (with_attempt c (counted c s) made w1).0 (ground arith)
              (with_attempt-Advances c (counted c s) made w1))
    ]
  ]
]

abbrev Finishes : Context → LoopState → Option Ending × World → Type 0
Finishes c s out =
    (e : Ending) × (out.0 ≡ some e) × (length e.decisions ≤ length s.decisions + rounds_left c s)

follow-Finishes :
    (c : Context) (s : LoopState) (step : Step) (w : World)
    (next : LoopState → World → Option Ending × World)
    → Proceeds c s step
    → ((s' : LoopState)
        → s'.number ≡ s.number + 1
        → s.number ≤ c.max_attempts
        → Finishes c s' (next s' w))
    → Finishes c s (follow next step w)
follow-Finishes c s (stop e) w next h k = (e, refl, omega (arith, h))
follow-Finishes c s (again s') w next h k =
    let (e, given, bound) = k s' h.0 h.2 in (e, given, omega (arith, h.0, h.1, h.2, bound))

-- With fuel for the rounds left, the loop ends, and it returns at most one decision for each of these
-- rounds besides the ones before it.
pub run_loop_finishes :
    (fuel : ℕ) (c : Context) (s : LoopState) (w : World)
    → rounds_left c s < fuel
    → (e : Ending) × ((run_loop fuel c s w).0 ≡ some e)
      × (length e.decisions ≤ length s.decisions + rounds_left c s)
unfolding run_loop
run_loop_finishes zero c s w h = absurd (omega arith)
run_loop_finishes (suc fuel) c s w h =
    follow-Finishes c s (round c s w).0 (round c s w).1 (run_loop fuel c) (round-Proceeds c s w)
      λ s' e k. run_loop_finishes fuel c s' (round c s w).1 (omega arith)
