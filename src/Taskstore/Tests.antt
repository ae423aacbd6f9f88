-- ===== src/Taskstore/Tests.antt =====
-- A concrete store for internal/taskstore/store.go.
use omni_orchestration.Prelude.{
  ℕ, ◌≤◌, str_eq, ◌≡◌, refl, true, false, List, [], ◌∷◌, IsIn, here, there, arith,
}
use omni_orchestration.Session.{ok}
use omni_orchestration.Taskstore.{Attempt, Event, RunRecord, Taskstore, pending, quiet}
use omni_orchestration.Taskstore.Work.{new_attempt}
use omni_orchestration.Taskstore.Events.{has_effect_key, record_effect_key, new_event}
use omni_orchestration.Taskstore.Events.Delivery.{has_effect_key-record_effect_key}
use omni_orchestration.Taskstore.Records.{new_record}
use omni_orchestration.Taskstore.Records.Outcomes.{
  Outcome, starts, outcome, candidate, not_adopted, run_all, NoneAdopted, run_all-NoneAdopted,
}

abbrev event : ℕ → Event
event id = new_event 1 1 1 1 "checkpoint" "{}" id

abbrev attempt : Attempt
attempt = new_attempt 1 1 "T1-A1" "omni/T1" "HEAD" 1

abbrev record_one : RunRecord
record_one = new_record 1 "codex" "m" "coordinator" "task" "repo" 1

abbrev store : Taskstore
store = record {
  runs = record { rows = record { id = 1; status = pending } ∷ []; last_id = 1 };
  tasks = record {
    rows = record { id = 1; run_id = 1; title = "task"; status = pending } ∷ [];
    last_id = 1;
  };
  attempts = record { rows = attempt ∷ []; last_id = 1 };
  workers = record { rows = []; last_id = 0 };
  events = record { rows = event 1 ∷ event 2 ∷ []; last_id = 2 };
  event_acks = 1 ∷ [];
  run_records = record { rows = record_one ∷ []; last_id = 1 };
  tombstones = [];
  effect_keys = record { run_id = 1; key = "run-1-att-1" } ∷ [];
}

acks_below : (id : ℕ) → IsIn id store.event_acks → id ≤ 2
acks_below id (here e) = ground arith
acks_below id (there m) = elim m [ ]

has_effect_key-record_effect_key_example :
    (has_effect_key str_eq "k" (record_effect_key "k" (quiet store)).1).0 ≡ ok false
has_effect_key-record_effect_key_example =
    has_effect_key-record_effect_key str_eq "k" store acks_below refl refl

attempts_below : (a : Attempt) → IsIn a store.attempts.rows → a.id ≤ 1
attempts_below a (here e) = ground arith
attempts_below a (there m) = elim m [ ]

abbrev outcomes : List Outcome
outcomes =
    record { number = 1; passed = false; ms = 10 }
    ∷ record { number = 2; passed = true; ms = 20 }
    ∷ []

run_all-NoneAdopted_example :
    NoneAdopted
      (run_all
        (starts 2 "claude" "m" "coordinator" "task" "repo"
          ∷ outcome 2 1 true 5
          ∷ candidate false 2 1
          ∷ not_adopted false 2 1
          ∷ [])
        (quiet store)).tables.run_records.rows
run_all-NoneAdopted_example =
    run_all-NoneAdopted
      (starts 2 "claude" "m" "coordinator" "task" "repo"
        ∷ outcome 2 1 true 5
        ∷ candidate false 2 1
        ∷ not_adopted false 2 1
        ∷ [])
      (quiet store) (refl, tt)
