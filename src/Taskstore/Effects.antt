-- ===== src/Taskstore/Effects.antt =====
-- internal/taskstore/store.go: the durable effect keys of a run, and the tombstones.
pub mod Idempotent
use omni_orchestration.Prelude.{
  ℕ, String, str_eq, Bool, true, false, ◌&&◌, List, [], ◌∷◌, ◌++◌, ◌==◌, ltb, any, count_where,
  if◌then◌else◌,
}
use omni_orchestration.Session.{Result, ok, err, pure, ◌>>=◌, ◌>>◌, attempt, statement, query}
use omni_orchestration.Taskstore.{EffectKey, Tombstone, Taskstore, Error, db_error, StoreAction}

abbrev pub same_key : ℕ → String → EffectKey → Bool
same_key run key e = e.run_id == run && str_eq e.key key

-- `INSERT OR IGNORE`: the pair is UNIQUE. `RowsAffected` is 1 or 0.
unfoldable pub record_effect : ℕ → String → StoreAction Bool
record_effect run key = do
  n ← statement db_error λ t.
      if any (same_key run key) t.effect_keys
      then (0, t)
      else (1, record t { effect_keys = t.effect_keys ++ record { run_id = run; key = key } ∷ [] })
  pure (ltb 0 n)

abbrev pub count_or_zero : Result Error ℕ → ℕ
count_or_zero (ok n) = n
count_or_zero (err _) = 0

unfoldable pub has_effect : ℕ → String → StoreAction Bool
has_effect run key = do
  n ← attempt (query db_error (λ t. count_where (same_key run key) t.effect_keys))
  pure (ltb 0 (count_or_zero n))

unfoldable pub record_tombstone : ℕ → String → ℕ → ℕ → ℕ → ℕ → StoreAction (Unit {0})
record_tombstone run action epoch task attempt worker = statement db_error λ t. (
  tt,
  record t {
    tombstones =
        t.tombstones
        ++ record {
          run_id = run;
          action = action;
          run_epoch = epoch;
          task_gen = task;
          attempt_gen = attempt;
          worker_lease_gen = worker;
        }
          ∷ [];
  },
)
