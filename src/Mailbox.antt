-- ===== src/Mailbox.antt =====
-- internal/mailbox/mailbox.go: the durable mailbox. `Mailbox` is the table
-- `envelopes`, in the order of the ids; each method is an action of a session with it.
pub mod Unique
pub mod Claim
pub mod Consumer
pub mod Once
pub mod Delivered
mod Tests
use omni_orchestration.Prelude.{
  ℕ, ◌+◌, ◌-◌, String, str_eq, Bool, true, false, not, ◌&&◌, ◌||◌, Option, none, some, List, [],
  ◌∷◌, ◌++◌, ltb, leb, ◌==◌, if◌then◌else◌, find?, any, count_where, keep_where, update_where,
}
use omni_orchestration.Session.{
  Result, ok, err, Session, Action, pure, raise, ◌>>=◌, ◌>>◌, attempt, statement, query,
}

-- The nine message types; any other text is `unknown`.
pub data MessageType : Type 0 where
  task_assigned progress_reported worker_blocked attempt_completed : MessageType
  validation_accepted validation_rejected retry_requested handoff_ready cancelled : MessageType
  unknown : String → MessageType

abbrev pub valid_type : MessageType → Bool
valid_type (unknown _) = false
valid_type _ = true

-- The column `acked`: 0, -1 or 1.
pub data Delivery : Type 0 where
  waiting in_flight consumed : Delivery

abbrev pub is_waiting : Delivery → Bool
is_waiting waiting = true
is_waiting _ = false

abbrev pub is_consumed : Delivery → Bool
is_consumed consumed = true
is_consumed _ = false

-- A row of `envelopes`; times are seconds.
pub record Envelope : Type 0 where
  pub message_id : String
  pub run_id : ℕ
  pub run_epoch : ℕ
  pub task_id : ℕ
  pub task_generation : ℕ
  pub attempt_id : ℕ
  pub attempt_generation : ℕ
  pub sender : String
  pub recipient : String
  pub type : MessageType
  pub artifact_refs : String
  pub payload : String
  pub ack_required : ℕ
  pub delivery : Delivery
  pub acked_at : Option ℕ
  pub leased_at : Option ℕ
  pub delivery_attempt : ℕ
  pub lease_owner : String

abbrev pub Mailbox : Type 0
Mailbox = List Envelope

pub data Error : Type 0 where
  db_error nil_message no_message_id invalid_type no_address effect_failed ack_failed : Error

abbrev pub MailAction : Type 0 → Type 0
MailAction A = Action Error Mailbox A

abbrev pub empty_text : String → Bool
empty_text s = str_eq s ""

-- What `INSERT` stores: the columns that it does not name take their defaults.
abbrev pub as_row : Envelope → Envelope
as_row m = record m {
  payload = if empty_text m.payload then "{}" else m.payload;
  delivery = waiting;
  acked_at = none;
  leased_at = none;
  delivery_attempt = 0;
  lease_owner = "";
}

abbrev pub has_id : String → Envelope → Bool
has_id id m = str_eq m.message_id id

-- `INSERT OR IGNORE`: `message_id` is UNIQUE.
abbrev pub insert_row : Envelope → Mailbox → Mailbox
insert_row m rows = if any (has_id m.message_id) rows then rows else rows ++ as_row m ∷ []

abbrev pub store_message : Envelope → MailAction (Unit {0})
store_message m = statement db_error (λ rows. (tt, insert_row m rows))

unfoldable pub enqueue : Option Envelope → MailAction (Unit {0})
enqueue none = raise nil_message
enqueue (some m) =
    if empty_text m.message_id
    then raise no_message_id
    else if not (valid_type m.type)
    then raise invalid_type
    else if empty_text m.sender || empty_text m.recipient
    then raise no_address
    else store_message m

abbrev pub claimable : String → Envelope → Bool
claimable recipient m = str_eq m.recipient recipient && is_waiting m.delivery

-- The row after the claim: in flight, leased now, one more delivery.
abbrev pub claimed : ℕ → String → Envelope → Envelope
claimed now owner m = record m {
  delivery = in_flight;
  leased_at = some now;
  delivery_attempt = m.delivery_attempt + 1;
  lease_owner = owner;
}

abbrev pub claimable_row : String → Envelope → Bool
claimable_row id m = has_id id m && is_waiting m.delivery

-- `UPDATE … WHERE message_id=? AND acked=0`, with the number of rows that it changed.
unfoldable pub claim : ℕ → String → String → MailAction ℕ
claim now owner id = statement db_error λ rows.
    (count_where (claimable_row id) rows, update_where (claimable_row id) (claimed now owner) rows)

unfoldable pub get_by_message_id : String → MailAction (Option Envelope)
get_by_message_id id = query db_error (find? (has_id id))

-- What other processes do to the table meanwhile.
abbrev pub interfere : (Mailbox → Mailbox) → MailAction (Unit {0})
interfere others s = (ok tt, record s { tables = others s.tables })

-- The claim of the row that the query found; `others` comes between the two statements.
unfoldable pub claim_found :
    (Mailbox → Mailbox) → ℕ → String → Option Envelope → MailAction (Option Envelope)
unfolding claim get_by_message_id
claim_found others now owner none = pure none
claim_found others now owner (some m) = do
  interfere others
  n ← claim now owner m.message_id
  if n == 0 then pure none else get_by_message_id m.message_id

unfoldable pub dequeue : (Mailbox → Mailbox) → ℕ → String → String → MailAction (Option Envelope)
unfolding claim_found
dequeue others now recipient owner = do
  oldest ← query db_error (find? (claimable recipient))
  claim_found others now owner oldest

abbrev pub unconsumed_row : String → Envelope → Bool
unconsumed_row id m = has_id id m && not (is_consumed m.delivery)

abbrev pub acknowledged : ℕ → Envelope → Envelope
acknowledged now m = record m { delivery = consumed; acked_at = some now }

unfoldable pub ack : ℕ → String → MailAction (Unit {0})
ack now id =
    statement db_error (λ rows. (tt, update_where (unconsumed_row id) (acknowledged now) rows))

-- `leased_at IS NULL OR leased_at <= now - timeout`.
abbrev pub lease_expired : ℕ → ℕ → Option ℕ → Bool
lease_expired now timeout none = true
lease_expired now timeout (some t) = leb (t + timeout) now

unfoldable pub redeliver : ℕ → ℕ → MailAction (List Envelope)
redeliver now timeout =
    query db_error
      (keep_where (λ m. not (is_consumed m.delivery) && lease_expired now timeout m.leased_at))

-- A session on which every statement runs.
abbrev pub quiet : Mailbox → Session Mailbox
quiet rows = record { tables = rows; faults = [] }
