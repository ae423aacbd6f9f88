-- ===== src/Taskstore/Events/Delivery.antt =====
-- internal/taskstore/store.go: events and their acknowledgements, and effect keys kept as events.
use omni_orchestration.Prelude.{
  ℕ, ◌+◌, ◌≤◌, String, ◌≡◌, refl, Bool, true, false, not, ◌||◌, Option, none, some, List, [], ◌∷◌,
  ◌++◌, ◌==◌, find?, count_where, keep_where, arith, Bool-cases, inl, inr, IsIn, here, there,
}
use omni_orchestration.Session.{ok}
use omni_orchestration.Taskstore.{Event, Taskstore, quiet}
use omni_orchestration.Taskstore.Events.{
  emit_event, get_unacked_events, ack_event, has_effect_key, record_effect_key, new_event,
  payload_or_empty, is_acked, insert_ack, unacked, is_effect,
}

-- AUTOINCREMENT has passed every event that was acknowledged.
abbrev pub IsNumbered : Taskstore → Type 0
IsNumbered t = (id : ℕ) → IsIn id t.event_acks → id ≤ t.events.last_id

is_acked-insert_ack :
    (id e : ℕ) (acks : List ℕ) → is_acked (insert_ack id acks) e ≡ (is_acked acks e || (id == e))
is_acked-insert_ack id e acks = elim (Bool-cases (is_acked acks id)) [
  | inl old ↦ rw old (already acks old)
  | inr new ↦ rw new (appended acks)
]
  where
    appended : (xs : List ℕ) → is_acked (xs ++ id ∷ []) e ≡ (is_acked xs e || (id == e))
    appended [] = ground arith
    appended (a ∷ xs) = ground (arith, appended xs)

    already : (xs : List ℕ) → is_acked xs id ≡ true → is_acked xs e ≡ (is_acked xs e || (id == e))
    already [] h = absurd (ground arith)
    already (a ∷ xs) h = elim (Bool-cases (a == id)) [
      | inl same ↦ ground arith
      | inr other ↦ ground (arith, already xs (ground arith))
    ]

fresh_unacked :
    (n : ℕ) (acks : List ℕ) → ((id : ℕ) → IsIn id acks → id ≤ n) → is_acked acks (n + 1) ≡ false
fresh_unacked n [] h = refl
fresh_unacked n (a ∷ acks) h =
    ground (arith, h a (here refl), fresh_unacked n acks (λ id m. h id (there m)))

keep_unacked :
    (id : ℕ) (acks : List ℕ) (es : List Event)
    → keep_where (λ e. not (is_acked (insert_ack id acks) e.id)) es
      ≡ keep_where (λ e. not (id == e.id)) (keep_where (λ e. not (is_acked acks e.id)) es)
keep_unacked id acks [] = refl
keep_unacked id acks (e ∷ es) = elim (Bool-cases (is_acked acks e.id)) [
  | inl old ↦ ground (arith, keep_unacked id acks es, is_acked-insert_ack id e.id acks)
  | inr new ↦ ground (arith, keep_unacked id acks es, is_acked-insert_ack id e.id acks)
]

-- On a session without faults, `AckEvent` takes the event out of the unacknowledged ones and leaves
-- the others as they are.
pub get_unacked_events-ack_event :
    (id : ℕ) (t : Taskstore)
    → (get_unacked_events (ack_event id (quiet t)).1).0
      ≡ ok (keep_where (λ e. not (id == e.id)) (unacked t))
unfolding get_unacked_events ack_event
get_unacked_events-ack_event id t = rw (keep_unacked id t.event_acks t.events.rows) refl

keep-append :
    (p : Event → Bool) (e : Event) (es : List Event)
    → p e ≡ true
    → keep_where p (es ++ e ∷ []) ≡ keep_where p es ++ e ∷ []
keep-append p e [] h = ground arith
keep-append p e (x ∷ es) h = ground (arith, keep-append p e es h)

-- On a session without faults, when AUTOINCREMENT has passed every acknowledged event, an event that
-- is emitted is the last of the unacknowledged ones afterwards, and the others stay.
pub get_unacked_events-emit_event :
    (run task attempt worker : ℕ) (type : String) (payload : Option String) (t : Taskstore)
    → IsNumbered t
    → (get_unacked_events (emit_event run task attempt worker type payload (quiet t)).1).0
      ≡ ok (
          unacked t
          ++ new_event run task attempt worker type
              (payload_or_empty payload)
              (t.events.last_id + 1)
            ∷ [])
unfolding get_unacked_events emit_event
get_unacked_events-emit_event run task attempt worker type payload t n =
    rw
      (keep-append (λ e. not (is_acked t.event_acks e.id))
        (new_event run task attempt worker type (payload_or_empty payload) (t.events.last_id + 1))
        t.events.rows (rw (fresh_unacked t.events.last_id t.event_acks n) refl))
      refl

find-append :
    (p : Event → Bool) (e : Event) (es : List Event)
    → find? p es ≡ none
    → p e ≡ true
    → find? p (es ++ e ∷ []) ≡ some e
find-append p e [] h k = ground arith
find-append p e (x ∷ es) h k = ground (arith, find-append p e es)

count-unacked :
    (id : ℕ) (acks : List ℕ) → is_acked acks id ≡ false → count_where (λ a. a == id) acks ≡ 0
count-unacked id [] h = refl
count-unacked id (a ∷ acks) h = ground (arith, count-unacked id acks)

-- On sessions without faults, when AUTOINCREMENT has passed every acknowledged event, a new effect key
-- that `RecordEffectKey` has just stored is not reported by `HasEffectKey`, if the store had no effect
-- event like the key and the pattern matches the key itself.
pub has_effect_key-record_effect_key :
    (like : String → String → Bool) (key : String) (t : Taskstore)
    → IsNumbered t
    → find? (is_effect like key) t.events.rows ≡ none
    → like key key ≡ true
    → (has_effect_key like key (record_effect_key key (quiet t)).1).0 ≡ ok false
unfolding has_effect_key record_effect_key
has_effect_key-record_effect_key like key t n h k =
    rw
      (
        find-append (is_effect like key) (new_event 0 0 0 0 "effect" key (t.events.last_id + 1))
            t.events.rows h (ground arith),
        count-unacked (t.events.last_id + 1) t.event_acks
            (fresh_unacked t.events.last_id t.event_acks n),
      )
      refl
