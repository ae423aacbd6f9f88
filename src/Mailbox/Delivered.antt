-- ===== src/Mailbox/Delivered.antt =====
-- internal/mailbox/mailbox.go: the messages that the calls of `Dequeue` return, one after the other.
use omni_orchestration.Prelude.{
  ℕ, String, str_eq, eq_iff, ◌≡◌, ◌≢◌, refl, sym, ◌∙◌, Bool, true, Option, none, some, List, [],
  ◌∷◌, ◌++◌, IsIn-append, any, find?, All, All-find?, find?-test, IsIn, here, there, arith,
  Bool-cases, Option-cases, inl, inr, &&-eq-true,
}
use omni_orchestration.Session.{Result, ok, err, Session}
use omni_orchestration.Mailbox.{
  Envelope, Mailbox, Error, waiting, is_waiting, has_id, claimable, claimable_row, dequeue,
}
use omni_orchestration.Mailbox.Claim.{claim_rows}
use omni_orchestration.Mailbox.Once.{
  Operation, enqueues, dequeues, acks, redelivers, apply, apply-keeps, IsTaken, IsTaken-IsInvariant,
  waiting_of_test,
}

abbrev pub id_of : Result Error (Option Envelope) → List String
id_of (ok (some m)) = m.message_id ∷ []
id_of (ok none) = []
id_of (err _) = []

-- What an operation hands out, with no other process at work in it.
unfoldable pub handed : Operation → Session Mailbox → List String
unfolding dequeue
handed (enqueues m) s = []
handed (dequeues now r owner) s = id_of (dequeue (λ t. t) now r owner s).0
handed (acks now id) s = []
handed (redelivers now timeout) s = []

-- The ids that a sequence of operations hands out, in order.
unfoldable pub handed_out : List Operation → Session Mailbox → List String
unfolding handed apply
handed_out [] s = []
handed_out (o ∷ os) s = handed o s ++ handed_out os (apply o s)

-- No id stands in the list twice.
abbrev pub HasNoRepeat : List String → Type 0
HasNoRepeat [] = Unit
HasNoRepeat (x ∷ xs) = (IsIn x xs → ⊥) × HasNoRepeat xs

-- What a `Dequeue` that returns a message has found, and made of the table.
record Took (now : ℕ) (r owner : String) (s : Session Mailbox) (x : Envelope) : Type 0 where
  row : Envelope
  found : find? (claimable r) s.tables ≡ some row
  named : x.message_id ≡ row.message_id
  left : (dequeue (λ t. t) now r owner s).1.tables ≡ claim_rows now owner row.message_id s.tables
  present : find? (has_id row.message_id) (claim_rows now owner row.message_id s.tables) ≡ some x

dequeued :
    (now : ℕ) (r owner : String) (s : Session Mailbox) (x : Envelope)
    → (dequeue (λ t. t) now r owner s).0 ≡ ok (some x)
    → Took now r owner s x
unfolding dequeue
dequeued now r owner s x h = elim (Option-cases (find? (claimable r) s.tables)) [
  | inl missing ↦ absurd (ground arith)
  | inr (m, seen) ↦
      let there_is : find? (has_id m.message_id) (claim_rows now owner m.message_id s.tables)
          ≡ some x =
        ground arith in
      record {
        row = m;
        found = seen;
        named = (eq_iff x.message_id m.message_id).0 (
            find?-test (has_id m.message_id) x (claim_rows now owner m.message_id s.tables)
              there_is);
        left = ground arith;
        present = there_is;
      }
]

claim_rows-NotWaiting :
    (now : ℕ) (owner id : String) (rows : Mailbox)
    → All (λ x. x.message_id ≡ id → x.delivery ≢ waiting) (claim_rows now owner id rows)
claim_rows-NotWaiting now owner id [] = tt
claim_rows-NotWaiting now owner id (m ∷ rows) = elim (Bool-cases (claimable_row id m)) [
  | inl hit ↦ rw hit ((λ e w. absurd (ground arith)), claim_rows-NotWaiting now owner id rows)
  | inr miss ↦ rw miss (
    (λ e w. absurd (ground (arith, (eq_iff m.message_id id).1 e))),
    claim_rows-NotWaiting now owner id rows,
  )
]

find?-any :
    (p : Envelope → Bool) (rows : Mailbox) (x : Envelope)
    → find? p rows ≡ some x
    → any p rows ≡ true
find?-any p [] x h = absurd (ground arith)
find?-any p (m ∷ rows) x h = elim (Bool-cases (p m)) [
  | inl hit ↦ rw hit refl
  | inr miss ↦
      let later : find? p rows ≡ some x = ground arith in rw (miss, find?-any p rows x later) refl
]

dequeued-IsTaken :
    (now : ℕ) (r owner : String) (s : Session Mailbox) (x : Envelope)
    → (dequeue (λ t. t) now r owner s).0 ≡ ok (some x)
    → IsTaken x.message_id (dequeue (λ t. t) now r owner s).1.tables
dequeued-IsTaken now r owner s x h =
    let t = dequeued now r owner s x h in
    rw (t.left, t.named)
      (
        find?-any (has_id t.row.message_id) (claim_rows now owner t.row.message_id s.tables) x
            t.present,
        claim_rows-NotWaiting now owner t.row.message_id s.tables,
      )

dequeued_ne_taken :
    (id : String) (now : ℕ) (r owner : String) (s : Session Mailbox) (x : Envelope)
    → IsTaken id s.tables
    → (dequeue (λ t. t) now r owner s).0 ≡ ok (some x)
    → x.message_id ≢ id
dequeued_ne_taken id now r owner s x h e same =
    let t = dequeued now r owner s x e in
    let (free, test) =
      All-find? (λ (y : Envelope). y.message_id ≡ id → y.delivery ≢ waiting) (claimable r) t.row
        s.tables h.1 t.found in
    free (sym t.named ∙ same) (
      waiting_of_test t.row.delivery
        (&&-eq-true (str_eq t.row.recipient r) (is_waiting t.row.delivery) test).1)

id_of_message :
    (x : String) (out : Result Error (Option Envelope))
    → IsIn x (id_of out)
    → (m : Envelope) × (out ≡ ok (some m)) × (x ≡ m.message_id)
id_of_message x (ok (some m)) (here e) = (m, refl, e)
id_of_message x (ok (some m)) (there n) = elim n [ ]
id_of_message x (ok none) n = elim n [ ]
id_of_message x (err _) n = elim n [ ]

handed-IsTaken :
    (o : Operation) (s : Session Mailbox) (x : String)
    → IsIn x (handed o s)
    → IsTaken x (apply o s).tables
unfolding handed apply
handed-IsTaken (enqueues m) s x n = elim n [ ]
handed-IsTaken (dequeues now r owner) s x n =
    let (m, out, same) = id_of_message x (dequeue (λ t. t) now r owner s).0 n in
    rw same (dequeued-IsTaken now r owner s m out)
handed-IsTaken (acks now id) s x n = elim n [ ]
handed-IsTaken (redelivers now timeout) s x n = elim n [ ]

handed_ne_taken :
    (o : Operation) (s : Session Mailbox) (id : String)
    → IsTaken id s.tables
    → IsIn id (handed o s)
    → ⊥
unfolding handed
handed_ne_taken (enqueues m) s id h n = elim n [ ]
handed_ne_taken (dequeues now r owner) s id h n =
    let (m, out, same) = id_of_message id (dequeue (λ t. t) now r owner s).0 n in
    dequeued_ne_taken id now r owner s m h out (sym same)
handed_ne_taken (acks now k) s id h n = elim n [ ]
handed_ne_taken (redelivers now timeout) s id h n = elim n [ ]

handed_out_ne_taken :
    (os : List Operation) (s : Session Mailbox) (id : String)
    → IsTaken id s.tables
    → IsIn id (handed_out os s)
    → ⊥
unfolding handed_out
handed_out_ne_taken [] s id h n = elim n [ ]
handed_out_ne_taken (o ∷ os) s id h n =
    elim (IsIn-append id (handed o s) (handed_out os (apply o s)) n) [
      | inl now_one ↦ handed_ne_taken o s id h now_one
      | inr later ↦
          handed_out_ne_taken os (apply o s) id
            (apply-keeps (IsTaken id) (IsTaken-IsInvariant id) o s h) later
    ]

HasNoRepeat-append :
    (xs ys : List String)
    → HasNoRepeat xs
    → HasNoRepeat ys
    → ((x : String) → IsIn x xs → IsIn x ys → ⊥)
    → HasNoRepeat (xs ++ ys)
HasNoRepeat-append [] ys a b apart = b
HasNoRepeat-append (x ∷ xs) ys a b apart = (
  λ m. elim (IsIn-append x xs ys m) [ inl n ↦ a.0 n | inr n ↦ apart x (here refl) n ],
  HasNoRepeat-append xs ys a.1 b (λ y n. apart y (there n)),
)

id_of-HasNoRepeat : (out : Result Error (Option Envelope)) → HasNoRepeat (id_of out)
id_of-HasNoRepeat (ok (some m)) = ((λ n. elim n [ ]), tt)
id_of-HasNoRepeat (ok none) = tt
id_of-HasNoRepeat (err _) = tt

handed-HasNoRepeat : (o : Operation) (s : Session Mailbox) → HasNoRepeat (handed o s)
unfolding handed
handed-HasNoRepeat (enqueues m) s = tt
handed-HasNoRepeat (dequeues now r owner) s = id_of-HasNoRepeat (dequeue (λ t. t) now r owner s).0
handed-HasNoRepeat (acks now id) s = tt
handed-HasNoRepeat (redelivers now timeout) s = tt

-- Whatever operations run one after the other, on whatever table and with whatever faults of the driver,
-- and with no other process at work between the statements of a `Dequeue`: no two calls of `Dequeue`
-- return messages of the same id.
pub handed_out-HasNoRepeat :
    (os : List Operation) (s : Session Mailbox) → HasNoRepeat (handed_out os s)
unfolding handed_out
handed_out-HasNoRepeat [] s = tt
handed_out-HasNoRepeat (o ∷ os) s =
    HasNoRepeat-append (handed o s) (handed_out os (apply o s)) (handed-HasNoRepeat o s)
      (handed_out-HasNoRepeat os (apply o s))
      (λ x n m. handed_out_ne_taken os (apply o s) x (handed-IsTaken o s x n) m)
