-- ===== src/Taskstore/Events.antt =====
-- internal/taskstore/store.go: events, their acknowledgements, and the effect keys kept as events.
pub mod Delivery
use omni_orchestration.Prelude.{
  ℕ, String, str_eq, Bool, false, not, ◌&&◌, Option, none, some, List, [], ◌∷◌, ◌++◌, ◌==◌, ltb,
  any, find?, count_where, keep_where, if◌then◌else◌,
}
use omni_orchestration.Session.{Result, ok, err, pure, ◌>>=◌, ◌>>◌, attempt, statement, query}
use omni_orchestration.Taskstore.{Event, Taskstore, Error, db_error, StoreAction, insert}

-- `nil` is `none`.
abbrev pub payload_or_empty : Option String → String
payload_or_empty none = "{}"
payload_or_empty (some p) = p

abbrev pub new_event : ℕ → ℕ → ℕ → ℕ → String → String → ℕ → Event
new_event run task attempt worker type payload id = record {
  id = id;
  run_id = run;
  task_id = task;
  attempt_id = attempt;
  worker_id = worker;
  type = type;
  payload = payload;
}

unfoldable pub emit_event : ℕ → ℕ → ℕ → ℕ → String → Option String → StoreAction Event
emit_event run task attempt worker type payload = do
  id ← statement db_error λ t.
      let (id, events) =
        insert (new_event run task attempt worker type (payload_or_empty payload)) t.events in
      (id, record t { events = events })
  pure (new_event run task attempt worker type (payload_or_empty payload) id)

abbrev pub is_acked : List ℕ → ℕ → Bool
is_acked acks id = any (λ a. a == id) acks

-- The LEFT JOIN with `a.id IS NULL`.
abbrev pub unacked : Taskstore → List Event
unacked t = keep_where (λ e. not (is_acked t.event_acks e.id)) t.events.rows

unfoldable pub get_unacked_events : StoreAction (List Event)
get_unacked_events = query db_error unacked

-- `INSERT OR IGNORE`: `event_id` is UNIQUE.
abbrev pub insert_ack : ℕ → List ℕ → List ℕ
insert_ack id acks = if is_acked acks id then acks else acks ++ id ∷ []

unfoldable pub ack_event : ℕ → StoreAction (Unit {0})
ack_event id = statement db_error (λ t. (tt, record t { event_acks = insert_ack id t.event_acks }))

-- `LIKE '%key%'`, which SQLite decides, is the argument `like`.
abbrev pub is_effect : (String → String → Bool) → String → Event → Bool
is_effect like key e = str_eq e.type "effect" && like key e.payload

-- `SELECT COUNT(*) FROM event_acks WHERE event_id=(…)`: no event is no row.
abbrev pub acks_of : Option Event → List ℕ → ℕ
acks_of none acks = 0
acks_of (some e) acks = count_where (λ a. a == e.id) acks

-- The count keeps its zero value when the query fails.
abbrev pub positive_count : Result Error ℕ → Bool
positive_count (ok n) = ltb 0 n
positive_count (err _) = false

unfoldable pub has_effect_key : (String → String → Bool) → String → StoreAction Bool
has_effect_key like key = do
  n ←
      attempt
        (query db_error (λ t. acks_of (find? (is_effect like key) t.events.rows) t.event_acks))
  pure (positive_count n)

unfoldable pub record_effect_key : String → StoreAction (Unit {0})
record_effect_key key = statement db_error λ t.
    let (id, events) = insert (new_event 0 0 0 0 "effect" key) t.events in
    (tt, record t { events = events })
