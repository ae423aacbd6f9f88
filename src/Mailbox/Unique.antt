-- ===== src/Mailbox/Unique.antt =====
-- internal/mailbox/mailbox.go: the ids of the table, and calls that are made again.
use omni_orchestration.Prelude.{
  ℕ, String, eq_iff, ◌≡◌, refl, Bool, true, false, ◌||◌, Option, none, some, [], ◌∷◌, ◌++◌, any,
  update_where, arith, Bool-cases, inl, inr, ◌⊎◌,
}
use omni_orchestration.Session.{ok, Session}
use omni_orchestration.Mailbox.{
  Envelope, Mailbox, has_id, as_row, insert_row, enqueue, empty_text, valid_type, unconsumed_row,
  acknowledged, ack, quiet,
}

abbrev pub IsUnique : Mailbox → Type 0
IsUnique [] = Unit
IsUnique (m ∷ ms) = (any (has_id m.message_id) ms ≡ false) × IsUnique ms

pub any-append_one :
    (p : Envelope → Bool) (m : Envelope) (ms : Mailbox) → any p (ms ++ m ∷ []) ≡ (any p ms || p m)
any-append_one p m [] = ground arith
any-append_one p m (x ∷ ms) = ground (arith, any-append_one p m ms)

append-IsUnique :
    (m : Envelope) (ms : Mailbox)
    → any (has_id m.message_id) ms ≡ false
    → IsUnique ms
    → IsUnique (ms ++ as_row m ∷ [])
append-IsUnique m [] h u = (refl, tt)
append-IsUnique m (x ∷ ms) h u = (
  rw (any-append_one (has_id x.message_id) (as_row m) ms)
      (ground (arith, eq_iff x.message_id m.message_id, eq_iff m.message_id x.message_id)),
  append-IsUnique m ms (ground arith) u.1,
)

insert_row-IsUnique : (m : Envelope) (ms : Mailbox) → IsUnique ms → IsUnique (insert_row m ms)
insert_row-IsUnique m ms u = elim (Bool-cases (any (has_id m.message_id) ms)) [
  | inl old ↦ rw old u
  | inr new ↦ rw new (append-IsUnique m ms new u)
]

-- An update that keeps the ids keeps them unique.
pub any-update :
    (p : Envelope → Bool) (f : Envelope → Envelope) (id : String) (ms : Mailbox)
    → ((x : Envelope) → (f x).message_id ≡ x.message_id)
    → any (has_id id) (update_where p f ms) ≡ any (has_id id) ms
any-update p f id [] h = refl
any-update p f id (x ∷ ms) h = ground (arith, any-update p f id ms h, h x)

pub update-IsUnique :
    (p : Envelope → Bool) (f : Envelope → Envelope) (ms : Mailbox)
    → ((x : Envelope) → (f x).message_id ≡ x.message_id)
    → IsUnique ms
    → IsUnique (update_where p f ms)
update-IsUnique p f [] h u = tt
update-IsUnique p f (x ∷ ms) h u = (
  ground (arith, any-update p f x.message_id ms h, any-update p f (f x).message_id ms h, h x),
  update-IsUnique p f ms h u.1,
)

pub enqueue_rows :
    (m : Envelope) (s : Session Mailbox)
    → ((enqueue (some m) s).1.tables ≡ s.tables)
      ⊎ ((enqueue (some m) s).1.tables ≡ insert_row m s.tables)
unfolding enqueue
enqueue_rows m s = ground arith

-- Whatever the driver's faults, `Enqueue` keeps the message ids unique.
pub enqueue-IsUnique :
    (m : Option Envelope) (s : Session Mailbox)
    → IsUnique s.tables
    → IsUnique (enqueue m s).1.tables
unfolding enqueue
enqueue-IsUnique none s u = u
enqueue-IsUnique (some m) s u = elim (enqueue_rows m s) [
  | inl same ↦ rw same u
  | inr more ↦ rw more (insert_row-IsUnique m s.tables u)
]

-- On sessions without faults, to enqueue a message again changes nothing and is no error, also after
-- the first copy has been claimed or consumed: the table keeps the row with that id.
pub enqueue_twice :
    (m : Envelope) (rows : Mailbox)
    → any (has_id m.message_id) rows ≡ true
    → empty_text m.message_id ≡ false
    → valid_type m.type ≡ true
    → empty_text m.sender ≡ false
    → empty_text m.recipient ≡ false
    → enqueue (some m) (quiet rows) ≡ (ok tt, quiet rows)
unfolding enqueue
enqueue_twice m rows h a b c d = ground arith

ack_rows_twice :
    (now later : ℕ) (id : String) (ms : Mailbox)
    → update_where
        (unconsumed_row id)
        (acknowledged later)
        (update_where (unconsumed_row id) (acknowledged now) ms)
      ≡ update_where (unconsumed_row id) (acknowledged now) ms
ack_rows_twice now later id [] = refl
ack_rows_twice now later id (m ∷ ms) = ground (arith, ack_rows_twice now later id ms)

-- On sessions without faults, a second `Ack` of a message changes nothing: the time of the first
-- acknowledgement stays.
pub ack_twice :
    (now later : ℕ) (id : String) (rows : Mailbox)
    → ack later id (ack now id (quiet rows)).1 ≡ ack now id (quiet rows)
unfolding ack
ack_twice now later id rows = rw (ack_rows_twice now later id rows)
