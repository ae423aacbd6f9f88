-- ===== src/Mailbox/Tests.antt =====
-- Concrete mailboxes for internal/mailbox/mailbox.go.
use omni_orchestration.Prelude.{
  String, ◌≡◌, refl, false, some, none, List, [], ◌∷◌, ◌⊎◌, IsIn, here,
}
use omni_orchestration.Session.{ok}
use omni_orchestration.Mailbox.{
  task_assigned, waiting, Envelope, Mailbox, dequeue, enqueue, redeliver, quiet, claimed,
  acknowledged,
}
use omni_orchestration.Mailbox.Delivered.{handed_out, HasNoRepeat, handed_out-HasNoRepeat}
use omni_orchestration.Mailbox.Once.{Operation, enqueues, dequeues, redelivers}
use omni_orchestration.Mailbox.Consumer.{process_one, MayAck, process_one_acks}

abbrev message : String → Envelope
message id = record {
  message_id = id;
  run_id = 1;
  run_epoch = 1;
  task_id = 2;
  task_generation = 1;
  attempt_id = 3;
  attempt_generation = 1;
  sender = "omnid";
  recipient = "worker";
  type = task_assigned;
  artifact_refs = "";
  payload = "{}";
  ack_required = 1;
  delivery = waiting;
  acked_at = none;
  leased_at = none;
  delivery_attempt = 0;
  lease_owner = "";
}

abbrev rows : Mailbox
rows = message "a" ∷ message "b" ∷ []

abbrev operations : List Operation
operations =
    enqueues (some (message "a"))
    ∷ dequeues 1 "worker" "me"
    ∷ redelivers 99 1
    ∷ dequeues 2 "worker" "you"
    ∷ []

-- The second Dequeue finds nothing.
operations_hand_out : handed_out operations (record { tables = []; faults = false ∷ [] }) ≡ "a" ∷ []
unfolding handed_out enqueue dequeue redeliver
operations_hand_out = refl

handed_out-HasNoRepeat_example :
    HasNoRepeat (handed_out operations (record { tables = []; faults = false ∷ [] }))
handed_out-HasNoRepeat_example =
    handed_out-HasNoRepeat operations (record { tables = []; faults = false ∷ [] })

abbrev row_a : Envelope
row_a = acknowledged 7 (claimed 7 "me" (message "a"))

abbrev row_b : Envelope
row_b = claimed 9 "me" (message "b")

process_one_acks_example :
    IsIn row_a rows
    ⊎ ((m : Envelope) × ((dequeue (λ t. t) 7 "worker" "me" (quiet rows)).0 ≡ ok (some m))
        × (row_a.message_id ≡ m.message_id)
        × MayAck none none m)
unfolding process_one dequeue
process_one_acks_example =
    process_one_acks none none 7 "worker" "me" (quiet rows) row_a (here refl) refl
