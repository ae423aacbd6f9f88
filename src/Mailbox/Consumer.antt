-- ===== src/Mailbox/Consumer.antt =====
-- internal/mailbox/mailbox.go: the consumer loop's step `ProcessOne`. The two callbacks are arguments:
-- `authority` says whether a message is current, and `effect` whether its effect succeeded; `none` is
-- a callback that is not set.
use omni_orchestration.Prelude.{
  ℕ, String, eq_iff, ◌≡◌, refl, ap, ◌∙◌, Bool, true, false, Option, none, some, find?, update_where,
  if◌then◌else◌, arith, Bool-cases, inl, inr, ◌⊎◌, IsIn, update_where-IsIn,
}
use omni_orchestration.Session.{
  Result, ok, err, Session, pure, raise, ◌>>=◌, ◌>>◌, attempt, and_then,
}
use omni_orchestration.Mailbox.{
  Envelope, Mailbox, MailAction, Error, effect_failed, ack_failed, consumed, claimable,
  claimable_row, claimed, unconsumed_row, acknowledged, dequeue, ack, quiet,
}
use omni_orchestration.Mailbox.Unique.{IsUnique}
use omni_orchestration.Mailbox.Claim.{claim_rows, dequeue_first}
use omni_orchestration.Mailbox.Once.{dequeue_rows, ack_rows}

abbrev pub Callback : Type 0
Callback = Option (Envelope → Bool)

abbrev pub passes : Callback → Envelope → Bool
passes none m = true
passes (some f) m = f m

-- In Go a failed acknowledgement returns `true` beside its error.
abbrev pub after_ack : Result Error (Unit {0}) → MailAction Bool
after_ack (ok _) = pure true
after_ack (err _) = raise ack_failed

unfoldable pub process : Callback → Callback → ℕ → Option Envelope → MailAction Bool
unfolding ack
process authority effect now none = pure false
process authority effect now (some m) =
    if passes authority m
    then if passes effect m
      then (do done ← attempt (ack now m.message_id); after_ack done)
      else raise effect_failed
    else (do attempt (ack now m.message_id); pure true)

unfoldable pub process_one :
    Callback → Callback → (Mailbox → Mailbox) → ℕ → String → String → MailAction Bool
unfolding process
process_one authority effect others now recipient owner = do
  message ← dequeue others now recipient owner
  process authority effect now message

module _ (authority effect : Callback) (now : ℕ) (r owner : String) (m : Envelope) (rows : Mailbox)
    (unique : IsUnique rows) (oldest : find? (claimable r) rows ≡ some m) where
  abbrev in_hand : Mailbox
  in_hand = claim_rows now owner m.message_id rows

  abbrev done : Mailbox
  done = update_where (unconsumed_row m.message_id) (acknowledged now) in_hand

  handed_out :
      dequeue (λ t. t) now r owner (quiet rows) ≡ (ok (some (claimed now owner m)), quiet in_hand)
  handed_out = dequeue_first now r owner m rows unique oldest

  -- With no other process at work and no fault, a message that is not current is consumed; the effect
  -- is not looked at, so the result is the same for every effect.
  pub process_one_stale :
      passes authority (claimed now owner m) ≡ false
      → process_one authority effect (λ t. t) now r owner (quiet rows) ≡ (ok true, quiet done)
  unfolding process_one
  process_one_stale stale = rw (handed_out, stale)

  -- With no other process at work and no fault, a current message whose effect fails stays in flight,
  -- leased to this consumer, and is not acknowledged.
  pub process_one_failed :
      passes authority (claimed now owner m) ≡ true
      → passes effect (claimed now owner m) ≡ false
      → process_one authority effect (λ t. t) now r owner (quiet rows)
        ≡ (err effect_failed, quiet in_hand)
  unfolding process_one
  process_one_failed current fails = rw (handed_out, current, fails)

  -- With no other process at work and no fault, a current message whose effect succeeds is consumed.
  pub process_one_succeeds :
      passes authority (claimed now owner m) ≡ true
      → passes effect (claimed now owner m) ≡ true
      → process_one authority effect (λ t. t) now r owner (quiet rows) ≡ (ok true, quiet done)
  unfolding process_one
  process_one_succeeds current works = rw (handed_out, current, works)

consumed_by_claim :
    (now : ℕ) (owner id : String) (rows : Mailbox) (x : Envelope)
    → IsIn x (claim_rows now owner id rows)
    → x.delivery ≡ consumed
    → IsIn x rows
consumed_by_claim now owner id rows x m c =
    let (b, n, e) = update_where-IsIn (claimable_row id) (claimed now owner) x rows m in
    elim (Bool-cases (claimable_row id b)) [
      | inl hit ↦ absurd (ground arith)
      | inr miss ↦ let same : x ≡ b = e ∙ rw miss in rw same n
    ]

-- A `Dequeue` consumes nothing.
consumed_by_dequeue :
    (now : ℕ) (r owner : String) (s : Session Mailbox) (x : Envelope)
    → IsIn x (dequeue (λ t. t) now r owner s).1.tables
    → x.delivery ≡ consumed
    → IsIn x s.tables
consumed_by_dequeue now r owner s x m c = elim (dequeue_rows now r owner s) [
  | inl same ↦ rw same at m
  | inr (id, new) ↦ consumed_by_claim now owner id s.tables x (rw new at m) c
]

-- A message that the callbacks let the consumer acknowledge.
abbrev pub MayAck : Callback → Callback → Envelope → Type 0
MayAck authority effect m = (passes authority m ≡ false) ⊎ (passes effect m ≡ true)

consumed_by_ack :
    (now : ℕ) (id : String) (s : Session Mailbox) (x : Envelope)
    → IsIn x (ack now id s).1.tables
    → IsIn x s.tables ⊎ (x.message_id ≡ id)
consumed_by_ack now id s x m = elim (ack_rows now id s) [
  | inl same ↦ inl (rw same at m)
  | inr new ↦
      let (b, n, e) =
        update_where-IsIn (unconsumed_row id) (acknowledged now) x s.tables (rw new at m) in
      elim (Bool-cases (unconsumed_row id b)) [
        | inl hit ↦ inr (ground (arith, eq_iff b.message_id id))
        | inr miss ↦ let same : x ≡ b = e ∙ rw miss in inl (rw same n)
      ]
]

process_tables :
    (authority effect : Callback) (now : ℕ) (m : Envelope) (s : Session Mailbox)
    → ((process authority effect now (some m) s).1.tables ≡ s.tables)
      ⊎ (((process authority effect now (some m) s).1.tables ≡ (ack now m.message_id s).1.tables)
          × MayAck authority effect m)
unfolding process
process_tables authority effect now m s = elim (Bool-cases (passes authority m)) [
  | inl current ↦ elim (Bool-cases (passes effect m)) [
    | inl works ↦ inr (ground arith, inr works)
    | inr fails ↦ inl (rw (current, fails))
  ]
  | inr stale ↦ inr (rw stale, inl stale)
]

consumed_by_process :
    (authority effect : Callback) (now : ℕ) (o : Option Envelope) (s : Session Mailbox)
    (x : Envelope)
    → IsIn x (process authority effect now o s).1.tables
    → IsIn x s.tables
      ⊎ ((m : Envelope) × (o ≡ some m) × (x.message_id ≡ m.message_id) × MayAck authority effect m)
unfolding process
consumed_by_process authority effect now none s x m = inl m
consumed_by_process authority effect now (some msg) s x m =
    elim (process_tables authority effect now msg s) [
      | inl same ↦ inl (rw same at m)
      | inr (new, may) ↦ elim (consumed_by_ack now msg.message_id s x (rw new at m)) [
        | inl old ↦ inl old
        | inr named ↦ inr (msg, refl, named, may)
      ]
    ]

consumed_after :
    (authority effect : Callback) (now : ℕ) (res : Result Error (Option Envelope))
    (before s : Session Mailbox) (x : Envelope)
    → (IsIn x s.tables → IsIn x before.tables)
    → IsIn x (and_then res (λ o. process authority effect now o) s).1.tables
    → IsIn x before.tables
      ⊎ ((m : Envelope) × (res ≡ ok (some m))
          × (x.message_id ≡ m.message_id)
          × MayAck authority effect m)
consumed_after authority effect now (err e) before s x back m = inl (back m)
consumed_after authority effect now (ok o) before s x back m =
    elim (consumed_by_process authority effect now o s x m) [
      | inl old ↦ inl (back old)
      | inr (msg, e, named, may) ↦ inr (msg, ap ok e, named, may)
    ]

-- Whatever the driver's faults, `ProcessOne` with no other process at work acknowledges a message only
-- if it is not current or its effect succeeded: a row that is consumed afterwards stood in the table
-- before, consumed, or has the id of the message that was dequeued, and that message is not current or
-- its effect succeeded.
pub process_one_acks :
    (authority effect : Callback) (now : ℕ) (r owner : String) (s : Session Mailbox) (x : Envelope)
    → IsIn x (process_one authority effect (λ t. t) now r owner s).1.tables
    → x.delivery ≡ consumed
    → IsIn x s.tables
      ⊎ ((m : Envelope) × ((dequeue (λ t. t) now r owner s).0 ≡ ok (some m))
          × (x.message_id ≡ m.message_id)
          × MayAck authority effect m)
unfolding process_one
process_one_acks authority effect now r owner s x m c =
    consumed_after authority effect now (dequeue (λ t. t) now r owner s).0 s
      (dequeue (λ t. t) now r owner s).1 x (λ n. consumed_by_dequeue now r owner s x n c) m
