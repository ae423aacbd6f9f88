-- ===== src/Coordinator/Gate.antt =====
-- The generation gate of `Wake`.
use omni_orchestration.Prelude.{
  ℕ, ◌+◌, String, str_eq, eq_iff, ◌≡◌, ◌≢◌, refl, sym, true, false, ◌⊎◌, inl, inr, List, [], ◌∷◌,
  ◌==◌, arith, Bool-cases, IsIn, here, there,
}
use omni_orchestration.Session.{Result, ok, err}
use omni_orchestration.Coordinator.{
  Decision, Answer, WakePacket, WakeResponse, CoordinatorRuntime, Engine, DecideError,
  deadline_exceeded, other_error, stale_coordinator, is_allowed, is_refused, response_of, judge,
  wake, replace, state_of,
}

-- A wake at another generation than the runtime's is refused before the engine is asked: the runtime
-- stays as it is, whatever the engine does.
pub wake_stale :
    (decide : Engine) (generation : ℕ) (p : WakePacket) (c : CoordinatorRuntime)
    → generation ≢ c.gen
    → wake decide generation p c ≡ (err stale_coordinator, c)
unfolding wake
wake_stale decide generation p c h =
    let test : (generation == c.gen) ≡ false = ground arith in rw test refl

-- A holder of the generation before `Replace` is refused after it.
pub wake-replace :
    (decide : Engine) (id : String) (p : WakePacket) (c : CoordinatorRuntime)
    → wake decide c.gen p (replace id c) ≡ (err stale_coordinator, replace id c)
unfolding replace
wake-replace decide id p c = wake_stale decide c.gen p (replace id c) (λ e. omega arith)

is_allowed-IsIn : (d : Decision) (ds : List String) → is_allowed d ds ≡ true → IsIn d ds
unfolding is_allowed
is_allowed-IsIn d [] h = absurd (ground arith)
is_allowed-IsIn d (a ∷ ds) h = elim (Bool-cases (str_eq d a)) [
  | inl hit ↦ here ((eq_iff d a).0 hit)
  | inr miss ↦ there (is_allowed-IsIn d ds (ground arith))
]

pub IsIn-is_allowed : (d : Decision) (ds : List String) → IsIn d ds → is_allowed d ds ≡ true
unfolding is_allowed
IsIn-is_allowed d [] m = elim m [ ]
IsIn-is_allowed d (a ∷ ds) (here e) = rw ((eq_iff d a).1 e) refl
IsIn-is_allowed d (a ∷ ds) (there m) = elim (Bool-cases (str_eq d a)) [
  | inl hit ↦ rw hit refl
  | inr miss ↦ rw miss (IsIn-is_allowed d ds m)
]

-- The engine's answer and the runtime after it.
abbrev pub asked :
    Engine → WakePacket → CoordinatorRuntime → Result DecideError Answer × CoordinatorRuntime
asked decide p c = decide (state_of p) (record c { ack_seq = c.ack_seq + 1 })

allowed_of_test :
    (d : Decision) (ds : List String) → is_refused d ds ≡ false → (ds ≡ []) ⊎ IsIn d ds
allowed_of_test d [] h = inl refl
allowed_of_test d (a ∷ ds) h = inr (is_allowed-IsIn d (a ∷ ds) (ground arith))

judge_ok :
    (generation now : ℕ) (allowed : List String) (res : Result DecideError Answer)
    (r : WakeResponse)
    → judge generation now allowed res ≡ ok r
    → (now ≡ generation)
      × ((allowed ≡ []) ⊎ IsIn r.decision allowed)
      × (a : Answer) × (res ≡ ok a)
      × (r ≡ response_of a)
unfolding judge
judge_ok generation now allowed (err deadline_exceeded) r h = absurd (ground arith)
judge_ok generation now allowed (err other_error) r h = absurd (ground arith)
judge_ok generation now allowed (ok a) r h = elim (Bool-cases (now == generation)) [
  | inr other ↦ absurd (ground arith)
  | inl same ↦ elim (Bool-cases (is_refused a.decision allowed)) [
    | inl refused ↦ absurd (ground arith)
    | inr fine ↦
        let given : response_of a ≡ r = ground arith in
        (ground arith, rw (← given) (allowed_of_test a.decision allowed fine), a, refl, sym given)
  ]
]

-- A decision that `Wake` returns was asked for and given under one generation, the caller's, and is
-- one of the allowed decisions if the packet names any; it is the engine's decision, with its
-- instruction or, where that is empty, the one built from the decision.
pub wake_sound :
    (decide : Engine) (generation : ℕ) (p : WakePacket) (c : CoordinatorRuntime) (r : WakeResponse)
    → (wake decide generation p c).0 ≡ ok r
    → (c.gen ≡ generation)
      × ((asked decide p c).1.gen ≡ generation)
      × ((p.allowed_decisions ≡ []) ⊎ IsIn r.decision p.allowed_decisions)
      × (a : Answer) × ((asked decide p c).0 ≡ ok a)
      × (r ≡ response_of a)
unfolding wake
wake_sound decide generation p c r h = elim (Bool-cases (generation == c.gen)) [
  | inr other ↦ absurd (ground arith)
  | inl same ↦
      let judged : judge generation (asked decide p c).1.gen p.allowed_decisions
            (asked decide p c).0
          ≡ ok r =
        rw (← h, same) refl in
      let (now, fits, a, given, made) =
        judge_ok generation (asked decide p c).1.gen p.allowed_decisions (asked decide p c).0 r
          judged in
      (ground arith, now, fits, a, given, made)
]
