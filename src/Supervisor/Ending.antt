-- ===== src/Supervisor/Ending.antt =====
-- How an observation ends.
use omni_orchestration.Prelude.{
  ℕ, ◌≡◌, refl, Bool, true, false, ◌||◌, Option, none, some, List, [], ◌∷◌, ◌++◌, ◌==◌,
  if◌then◌else◌, arith, All,
}
use omni_orchestration.Supervisor.{
  State, unknown, active, exited, crashed, same_state, is_terminal, StateChange, Config, Event,
  cancels, output, exits, tick, Observer, ended, stops, after, Round, sent, observe_from, observe,
  first_sent,
}

abbrev pub last_state : List StateChange → Option State
last_state [] = none
last_state (c ∷ cs) = let later = last_state cs in elim later [ some s ↦ some s | none ↦ some c.to ]

last_state-append :
    (s : State) (xs ys : List StateChange) → last_state ys ≡ some s → last_state (xs ++ ys) ≡ some s
last_state-append s [] ys h = h
last_state-append s (x ∷ xs) ys h = rw (last_state-append s xs ys h) refl

-- An event that does not end the loop leads to no terminal state.
stays_live :
    (cfg : Config) (o : Observer) (e : Event)
    → stops e ≡ false
    → is_terminal o.current ≡ false
    → is_terminal (after cfg o e).current ≡ false
stays_live cfg o (cancels now) h k = absurd (ground arith)
stays_live cfg o (output now ok) h k = ground arith
stays_live cfg o (exits now code) h k = absurd (ground arith)
stays_live cfg o (tick now) h k = ground arith

ends_in :
    (from : State) (t code : ℕ)
    → is_terminal from ≡ false
    → (same_state from (ended code) || is_terminal from) ≡ false
ends_in from t code h = ground arith

observe_from-exit :
    (cfg : Config) (o : Observer) (rs later : List Round) (t code : ℕ)
    → is_terminal o.current ≡ false
    → All (λ r. stops r.event ≡ false) rs
    → last_state
        (observe_from cfg o (rs ++ record { event = exits t code; delivered = true } ∷ later))
      ≡ some (ended code)
unfolding observe_from
observe_from-exit cfg o [] later t code live h = rw (ends_in o.current t code live) refl
observe_from-exit cfg o (r ∷ rs) later t code live h = rw h.0 (
    last_state-append (ended code) (sent cfg o r) _ (
      observe_from-exit cfg (after cfg o r.event) rs later t code
        (stays_live cfg o r.event h.0 live) h.1))

-- When the process exits before the context is done, and that change is not dropped, the last change
-- is to EXITED for exit code 0 and to CRASHED for any other, whatever was received before and
-- whatever would come after.
pub observe_exit :
    (cfg : Config) (now : ℕ) (delivered : Bool) (rs later : List Round) (t code : ℕ)
    → All (λ r. stops r.event ≡ false) rs
    → last_state (
        observe cfg now delivered none
          (rs ++ record { event = exits t code; delivered = true } ∷ later))
      ≡ some (if code == 0 then exited else crashed)
unfolding observe
observe_exit cfg now delivered rs later t code h =
    let start : Observer = record { current = active; last_output = now } in
    last_state-append (ended code)
      (first_sent delivered (record { from = unknown; to = active; observed_at = now }))
      (observe_from cfg start (rs ++ record { event = exits t code; delivered = true } ∷ later))
      (observe_from-exit cfg start rs later t code refl h)
