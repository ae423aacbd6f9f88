-- ===== src/Mailbox/Once.antt =====
-- internal/mailbox/mailbox.go: sequences of mailbox operations, and what they do to a message's row.
use omni_orchestration.Prelude.{
  ℕ, String, ◌≡◌, ◌≢◌, refl, ◌∙◌, true, Option, none, some, [], ◌∷◌, any, find?, All, update_where,
  arith, Bool-cases, Option-cases, inl, inr, ◌⊎◌, All-update_where, All-append,
}
use omni_orchestration.Session.{Session}
use omni_orchestration.Mailbox.{
  Envelope, Mailbox, Delivery, waiting, is_waiting, has_id, as_row, insert_row, claimable,
  claimable_row, claimed, unconsumed_row, acknowledged, enqueue, dequeue, ack, redeliver,
}
use omni_orchestration.Mailbox.Unique.{enqueue_rows, any-append_one, any-update}
use omni_orchestration.Mailbox.Claim.{claim_rows}

-- The exported operations of one process.
pub data Operation : Type 0 where
  enqueues : Option Envelope → Operation
  dequeues : ℕ → String → String → Operation
  acks : ℕ → String → Operation
  redelivers : ℕ → ℕ → Operation

unfoldable pub apply : Operation → Session Mailbox → Session Mailbox
unfolding enqueue dequeue ack redeliver
apply (enqueues m) s = (enqueue m s).1
apply (dequeues now recipient owner) s = (dequeue (λ t. t) now recipient owner s).1
apply (acks now id) s = (ack now id s).1
apply (redelivers now timeout) s = (redeliver now timeout s).1

pub dequeue_rows :
    (now : ℕ) (r owner : String) (s : Session Mailbox)
    → ((dequeue (λ t. t) now r owner s).1.tables ≡ s.tables)
      ⊎ ((id : String) × ((dequeue (λ t. t) now r owner s).1.tables
            ≡ claim_rows now owner id s.tables))
unfolding dequeue
dequeue_rows now r owner s = elim (Option-cases (find? (claimable r) s.tables)) [
  | inl missing ↦ inl (ground arith)
  | inr (m, found) ↦ elim (claim_or_not m found) [
    | inl same ↦ inl same
    | inr new ↦ inr (m.message_id, new)
  ]
]
  where
    claim_or_not :
        (m : Envelope)
        → find? (claimable r) s.tables ≡ some m
        → ((dequeue (λ t. t) now r owner s).1.tables ≡ s.tables)
          ⊎ ((dequeue (λ t. t) now r owner s).1.tables ≡ claim_rows now owner m.message_id s.tables)
    claim_or_not m found = ground arith

pub ack_rows :
    (now : ℕ) (id : String) (s : Session Mailbox)
    → ((ack now id s).1.tables ≡ s.tables)
      ⊎ ((ack now id s).1.tables ≡ update_where (unconsumed_row id) (acknowledged now) s.tables)
unfolding ack
ack_rows now id s = ground arith

redeliver_rows :
    (now timeout : ℕ) (s : Session Mailbox) → (redeliver now timeout s).1.tables ≡ s.tables
unfolding redeliver
redeliver_rows now timeout s = ground arith

-- A property of the table that the three writes keep.
pub record IsInvariant (Q : Mailbox → Type 0) : Type 0 where
  inserts : (m : Envelope) (rows : Mailbox) → Q rows → Q (insert_row m rows)
  pub claims :
      (now : ℕ) (owner id : String) (rows : Mailbox) → Q rows → Q (claim_rows now owner id rows)
  pub consumes :
      (now : ℕ) (id : String) (rows : Mailbox)
      → Q rows
      → Q (update_where (unconsumed_row id) (acknowledged now) rows)

module _ (Q : Mailbox → Type 0) (inv : IsInvariant Q) where
  pub apply-keeps : (o : Operation) (s : Session Mailbox) → Q s.tables → Q (apply o s).tables
  unfolding apply
  apply-keeps (enqueues none) s h = h
  apply-keeps (enqueues (some m)) s h = elim (enqueue_rows m s) [
    | inl same ↦ rw same h
    | inr more ↦ rw more (inv.inserts m s.tables h)
  ]
  apply-keeps (dequeues now r owner) s h = elim (dequeue_rows now r owner s) [
    | inl same ↦ rw same h
    | inr (id, new) ↦ rw new (inv.claims now owner id s.tables h)
  ]
  apply-keeps (acks now id) s h = elim (ack_rows now id s) [
    | inl same ↦ rw same h
    | inr new ↦ rw new (inv.consumes now id s.tables h)
  ]
  apply-keeps (redelivers now timeout) s h = rw (redeliver_rows now timeout s) h

pub waiting_of_test : (d : Delivery) → is_waiting d ≡ true → d ≡ waiting
waiting_of_test d h = ground arith

-- The table has the message, and not as a waiting one.
abbrev pub IsTaken : String → Mailbox → Type 0
IsTaken id rows =
    (any (has_id id) rows ≡ true) × All (λ m. m.message_id ≡ id → m.delivery ≢ waiting) rows

pub IsTaken-IsInvariant : (id : String) → IsInvariant (IsTaken id)
IsTaken-IsInvariant id = record {
  inserts = λ m rows h. elim (Bool-cases (any (has_id m.message_id) rows)) [
    | inl old ↦ rw old h
    | inr new ↦ rw new (
      rw (any-append_one (has_id id) (as_row m) rows) (ground arith),
      All-append (λ x. x.message_id ≡ id → x.delivery ≢ waiting) rows (as_row m ∷ []) h.1
          (λ e w. absurd (ground (arith, h.0)), tt),
    )
  ];
  claims = λ now owner k rows h. (
    any-update (claimable_row k) (claimed now owner) id rows (λ x. refl) ∙ h.0,
    All-update_where (λ x. x.message_id ≡ id → x.delivery ≢ waiting) (claimable_row k)
        (claimed now owner) rows (λ m q t e w. absurd (ground arith)) h.1,
  );
  consumes = λ now k rows h. (
    any-update (unconsumed_row k) (acknowledged now) id rows (λ x. refl) ∙ h.0,
    All-update_where (λ x. x.message_id ≡ id → x.delivery ≢ waiting) (unconsumed_row k)
        (acknowledged now) rows (λ m q t e w. absurd (ground arith)) h.1,
  );
}
