-- ===== src/Mailbox/Claim.antt =====
-- internal/mailbox/mailbox.go: the claim of `Dequeue`, with other consumers at work.
use omni_orchestration.Prelude.{
  ℕ, String, str_eq, eq_iff, eq_refl, ◌≡◌, refl, ap, ◌∙◌, true, false, none, some, [], ◌∷◌, any,
  find?, count_where, update_where, update_where_of_count, arith, Bool-cases, inl, inr, ◌==◌,
}
use omni_orchestration.Session.{ok}
use omni_orchestration.Mailbox.{
  Envelope, Mailbox, has_id, claimable, claimable_row, claimed, dequeue, quiet,
}
use omni_orchestration.Mailbox.Unique.{IsUnique}

-- The table after the claim of one message.
abbrev pub claim_rows : ℕ → String → String → Mailbox → Mailbox
claim_rows now owner id = update_where (claimable_row id) (claimed now owner)

find-has_id :
    (r : String) (m : Envelope) (ms : Mailbox)
    → find? (claimable r) ms ≡ some m
    → any (has_id m.message_id) ms ≡ true
find-has_id r m [] h = ground arith
find-has_id r m (x ∷ ms) h =
    ground (arith, find-has_id r m ms, eq_refl m.message_id, eq_iff x.message_id m.message_id)

-- In a table with unique ids the row that a query found is the row that the claim updates.
found_is_claimed :
    (now : ℕ) (r owner : String) (m : Envelope) (ms : Mailbox)
    → IsUnique ms
    → find? (claimable r) ms ≡ some m
    → find? (has_id m.message_id) (claim_rows now owner m.message_id ms)
      ≡ some (claimed now owner m)
found_is_claimed now r owner m [] u h = ground arith
found_is_claimed now r owner m (x ∷ ms) u h = elim (Bool-cases (claimable r x)) [
  | inl hit ↦ let same : x ≡ m = ground arith in rw (← same) (ground (arith, eq_refl x.message_id))
  | inr miss ↦
      let rest : find? (claimable r) ms ≡ some m = ground arith in
      let differ : str_eq x.message_id m.message_id ≡ false =
        elim (Bool-cases (str_eq x.message_id m.message_id)) [
          | inl same ↦
              let named : x.message_id ≡ m.message_id = (eq_iff x.message_id m.message_id).0 same in
              absurd (ground (arith, find-has_id r m ms rest, u.0))
          | inr other ↦ other
        ] in
      rw (differ, differ) (found_is_claimed now r owner m ms u.1 rest)
]

-- One row is counted where the query found one.
claim_counts :
    (r : String) (m : Envelope) (ms : Mailbox)
    → find? (claimable r) ms ≡ some m
    → (count_where (claimable_row m.message_id) ms == 0) ≡ false
claim_counts r m [] h = ground arith
claim_counts r m (x ∷ ms) h = ground (arith, claim_counts r m ms, eq_refl m.message_id)

-- With no other process at work and no fault, `Dequeue` hands out the first waiting message of the
-- recipient, with its lease, and marks that row and no other.
pub dequeue_first :
    (now : ℕ) (r owner : String) (m : Envelope) (rows : Mailbox)
    → IsUnique rows
    → find? (claimable r) rows ≡ some m
    → dequeue (λ t. t) now r owner (quiet rows)
      ≡ (ok (some (claimed now owner m)), quiet (claim_rows now owner m.message_id rows))
unfolding dequeue
dequeue_first now r owner m rows u h =
    rw (h, claim_counts r m rows h, found_is_claimed now r owner m rows u h)

-- With no waiting message for the recipient, `Dequeue` returns none and changes nothing.
pub dequeue_empty :
    (others : Mailbox → Mailbox) (now : ℕ) (r owner : String) (rows : Mailbox)
    → find? (claimable r) rows ≡ none
    → dequeue others now r owner (quiet rows) ≡ (ok none, quiet rows)
unfolding dequeue
dequeue_empty others now r owner rows h = rw h

none_left :
    (now : ℕ) (owner id : String) (ms : Mailbox)
    → (count_where (claimable_row id) (claim_rows now owner id ms) == 0) ≡ true
none_left now owner id [] = refl
none_left now owner id (x ∷ ms) = ground (arith, none_left now owner id ms)

-- If other processes leave no waiting row with the id that was read, `Dequeue` returns none and adds
-- nothing to what they did.
pub dequeue_late :
    (others : Mailbox → Mailbox) (now : ℕ) (r owner : String) (m : Envelope) (rows : Mailbox)
    → find? (claimable r) rows ≡ some m
    → count_where (claimable_row m.message_id) (others rows) ≡ 0
    → dequeue others now r owner (quiet rows) ≡ (ok none, quiet (others rows))
unfolding dequeue
dequeue_late others now r owner m rows h k =
    rw
      (h, k, update_where_of_count (claimable_row m.message_id) (claimed now owner) (others rows) k)

-- Two consumers race for one recipient: both have read the oldest message, and the one whose claim
-- comes second gets none and changes nothing.
pub dequeue_race :
    (now now' : ℕ) (r owner owner' : String) (m : Envelope) (rows : Mailbox)
    → IsUnique rows
    → find? (claimable r) rows ≡ some m
    → dequeue (λ t. (dequeue (λ t'. t') now' r owner' (quiet t)).1.tables) now r owner (quiet rows)
      ≡ (ok none, quiet (claim_rows now' owner' m.message_id rows))
dequeue_race now now' r owner owner' m rows u h =
    let first = dequeue_first now' r owner' m rows u h in
    let left = none_left now' owner' m.message_id rows in
    let others = λ (t : Mailbox). (dequeue (λ t'. t') now' r owner' (quiet t)).1.tables in
    let same : others rows ≡ claim_rows now' owner' m.message_id rows =
      ap (λ x. x.1.tables) first in
    dequeue_late others now r owner m rows h (rw same (ground arith))
    ∙ ap (λ t. (ok none, quiet t)) same
