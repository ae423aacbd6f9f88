-- ===== src/Taskstore.antt =====
-- internal/taskstore/store.go: the event store in SQLite. `Taskstore` holds its tables; each exported
-- method is an action of a session with them. Creation stamps are left out; the methods stand in the
-- modules below, by the tables that they work on. Foreign keys are not enforced by SQLite unless it is
-- asked to, and the store does not ask.
pub mod Work
pub mod Events
pub mod Effects
pub mod Records
mod Tests
use omni_orchestration.Prelude.{ℕ, ◌+◌, String, Option, none, some, List, [], ◌∷◌, ◌++◌}
use omni_orchestration.Session.{Result, ok, err, Session, Action, pure, raise}

pub data Status : Type 0 where
  pending running completed failed cancelled : Status
  other_status : String → Status

-- The rows of a table, and the counter behind AUTOINCREMENT.
pub record Table {ℓ} (A : Type ℓ) : Type ℓ where
  pub rows : List A
  pub last_id : ℕ

-- `INSERT`, with `LastInsertId`.
abbrev pub insert {ℓ} : {A : Type ℓ} → (ℕ → A) → Table A → ℕ × Table A
insert row t = let id = t.last_id + 1 in (id, record { rows = t.rows ++ row id ∷ []; last_id = id })

pub record Run : Type 0 where
  pub id : ℕ
  pub status : Status

pub record Task : Type 0 where
  pub id : ℕ
  pub run_id : ℕ
  pub title : String
  pub status : Status

pub record Attempt : Type 0 where
  pub id : ℕ
  pub task_id : ℕ
  pub number : ℕ
  pub worker_id : String
  pub branch : String
  pub base_commit : String
  pub checkpoint_commit : String
  pub status : Status

pub record WorkerRecord : Type 0 where
  pub id : ℕ
  pub attempt_id : ℕ
  pub command : String
  pub cwd : String
  pub role : String
  pub generation : ℕ
  pub status : Status
  pub pid : ℕ
  pub pgid : ℕ
  pub start_time : ℕ

pub record Event : Type 0 where
  pub id : ℕ
  pub run_id : ℕ
  pub task_id : ℕ
  pub attempt_id : ℕ
  pub worker_id : ℕ
  pub type : String
  pub payload : String

-- A row of `run_records`, with the column of the candidate that a migration adds.
pub record RunRecord : Type 0 where
  pub id : ℕ
  pub run_id : ℕ
  pub provider : String
  pub model : String
  pub role : String
  pub task_category : String
  pub repo : String
  pub attempt_count : ℕ
  pub validator_reject_count : ℕ
  pub replacement_count : ℕ
  pub duration_ms : ℕ
  pub final_adopted_attempt : ℕ
  pub candidate_accepted_attempt : ℕ

pub record Tombstone : Type 0 where
  pub run_id : ℕ
  pub action : String
  pub run_epoch : ℕ
  pub task_gen : ℕ
  pub attempt_gen : ℕ
  pub worker_lease_gen : ℕ

pub record EffectKey : Type 0 where
  pub run_id : ℕ
  pub key : String

pub record Taskstore : Type 0 where
  pub runs : Table Run
  pub tasks : Table Task
  pub attempts : Table Attempt
  pub workers : Table WorkerRecord
  pub events : Table Event
  pub event_acks : List ℕ
  pub run_records : Table RunRecord
  pub tombstones : List Tombstone
  pub effect_keys : List EffectKey

pub data Error : Type 0 where
  db_error no_rows forced : Error

abbrev pub StoreAction : Type 0 → Type 0
StoreAction A = Action Error Taskstore A

abbrev pub quiet : Taskstore → Session Taskstore
quiet t = record { tables = t; faults = [] }

abbrev pub or_no_rows : {A : Type 0} → Option A → StoreAction A
or_no_rows (some a) = pure a
or_no_rows none = raise no_rows
