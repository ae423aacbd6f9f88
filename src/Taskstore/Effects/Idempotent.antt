-- ===== src/Taskstore/Effects/Idempotent.antt =====
-- internal/taskstore/store.go: effect keys that are recorded again.
use omni_orchestration.Prelude.{
  ℕ, String, str_eq, eq_iff, eq_refl, ◌≡◌, refl, Bool, true, false, not, ◌||◌, ◌&&◌, List, [], ◌∷◌,
  ◌++◌, ◌==◌, ltb, any, count_where, arith, Bool-cases, inl, inr, ==_refl, &&-eq-true,
}
use omni_orchestration.Session.{ok}
use omni_orchestration.Taskstore.{EffectKey, Taskstore, quiet}
use omni_orchestration.Taskstore.Effects.{same_key, record_effect, has_effect}

any-append_key :
    (p : EffectKey → Bool) (e : EffectKey) (es : List EffectKey)
    → any p (es ++ e ∷ []) ≡ (any p es || p e)
any-append_key p e [] = ground arith
any-append_key p e (x ∷ es) = ground (arith, any-append_key p e es)

any-count : (p : EffectKey → Bool) (es : List EffectKey) → ltb 0 (count_where p es) ≡ any p es
any-count p [] = refl
any-count p (x ∷ es) = elim (Bool-cases (p x)) [
  | inl hit ↦ ground arith
  | inr miss ↦ ground (arith, any-count p es)
]

-- A pair that is the recorded one is recorded.
known :
    (run run' : ℕ) (key key' : String) (es : List EffectKey)
    → any (same_key run key) es ≡ true
    → (run == run' && str_eq key key') ≡ true
    → any (same_key run' key') es ≡ true
known run run' key key' es h same =
    let (r, k) = &&-eq-true (run == run') (str_eq key key') same in
    let here : run ≡ run' = ground arith in rw (← here, ← (eq_iff key key').0 k) h

-- On sessions without faults, `RecordEffect` returns true exactly when `HasEffect` was false before.
pub record_effect_fresh :
    (run : ℕ) (key : String) (t : Taskstore) (b : Bool)
    → (has_effect run key (quiet t)).0 ≡ ok b
    → (record_effect run key (quiet t)).0 ≡ ok (not b)
unfolding has_effect record_effect
record_effect_fresh run key t b h = ground (arith, any-count (same_key run key) t.effect_keys)

-- On sessions without faults, `HasEffect` after a `RecordEffect` holds of the pair that was recorded,
-- and of any other pair exactly if it held before.
pub has_effect-record_effect :
    (run run' : ℕ) (key key' : String) (t : Taskstore) (b : Bool)
    → (has_effect run' key' (quiet t)).0 ≡ ok b
    → (has_effect run' key' (record_effect run key (quiet t)).1).0
      ≡ ok (b || (run == run' && str_eq key key'))
unfolding has_effect record_effect
has_effect-record_effect run run' key key' t b h =
    let held : any (same_key run' key') t.effect_keys ≡ b =
      ground (arith, any-count (same_key run' key') t.effect_keys) in
    elim (Bool-cases (any (same_key run key) t.effect_keys)) [
      | inl old ↦
          rw (old, any-count (same_key run' key') t.effect_keys, held)
            (ground (arith, known run run' key key' t.effect_keys old))
      | inr new ↦
          rw
            (
              new,
              any-count (same_key run' key')
                  (t.effect_keys ++ record { run_id = run; key = key } ∷ []),
              any-append_key (same_key run' key') (record { run_id = run; key = key })
                  t.effect_keys,
              held,
            )
            refl
    ]

-- On sessions without faults, to record an effect again returns false and changes nothing.
pub record_effect_twice :
    (run : ℕ) (key : String) (t : Taskstore)
    → record_effect run key (record_effect run key (quiet t)).1
      ≡ (ok false, (record_effect run key (quiet t)).1)
unfolding record_effect
record_effect_twice run key t = elim (Bool-cases (any (same_key run key) t.effect_keys)) [
  | inl old ↦ ground arith
  | inr new ↦ ground (
    arith,
    any-append_key (same_key run key) (record { run_id = run; key = key }) t.effect_keys,
    ==_refl run,
    eq_refl key,
  )
]
