-- ===== src/Taskstore/Work.antt =====
-- internal/taskstore/store.go: runs, tasks, attempts and workers.
pub mod Found
use omni_orchestration.Prelude.{
  ℕ, ◌+◌, String, Bool, true, false, ◌||◌, Option, none, some, List, [], ◌∷◌, ◌==◌, ltb,
  if◌then◌else◌, find?, keep_where, update_where,
}
use omni_orchestration.Session.{Result, ok, Session, pure, ◌>>=◌, ◌>>◌, statement, query}
use omni_orchestration.Taskstore.{
  Status, pending, running, Table, insert, Run, Task, Attempt, WorkerRecord, Taskstore, db_error,
  StoreAction, or_no_rows,
}

unfoldable pub get_run : ℕ → StoreAction Run
get_run id = do found ← query db_error (λ t. find? (λ r. r.id == id) t.runs.rows); or_no_rows found

unfoldable pub create_run : StoreAction Run
unfolding get_run
create_run = do
  id ← statement db_error λ t.
      let (id, runs) = insert (λ id. record { id = id; status = pending }) t.runs in
      (id, record t { runs = runs })
  get_run id

unfoldable pub update_run_status : ℕ → Status → StoreAction (Unit {0})
update_run_status id st = statement db_error λ t. (
  tt,
  record t {
    runs = record t.runs {
      rows = update_where (λ r. r.id == id) (λ r. record r { status = st }) t.runs.rows;
    };
  },
)

abbrev pub new_task : ℕ → String → ℕ → Task
new_task run title id = record { id = id; run_id = run; title = title; status = pending }

unfoldable pub create_task : ℕ → String → StoreAction Task
create_task run title = do
  id ←
      statement db_error λ t.
        let (id, tasks) = insert (new_task run title) t.tasks in (id, record t { tasks = tasks })
  pure (new_task run title id)

unfoldable pub update_task_status : ℕ → Status → StoreAction (Unit {0})
update_task_status id st = statement db_error λ t. (
  tt,
  record t {
    tasks = record t.tasks {
      rows = update_where (λ r. r.id == id) (λ r. record r { status = st }) t.tasks.rows;
    };
  },
)

unfoldable pub get_tasks_by_run : ℕ → StoreAction (List Task)
get_tasks_by_run run = query db_error (λ t. keep_where (λ r. r.run_id == run) t.tasks.rows)

unfoldable pub get_task : ℕ → StoreAction Task
get_task id = do
  found ← query db_error (λ t. find? (λ r. r.id == id) t.tasks.rows)
  or_no_rows found

abbrev pub new_attempt : ℕ → ℕ → String → String → String → ℕ → Attempt
new_attempt task number worker branch base id = record {
  id = id;
  task_id = task;
  number = number;
  worker_id = worker;
  branch = branch;
  base_commit = base;
  checkpoint_commit = "";
  status = pending;
}

unfoldable pub create_attempt : ℕ → ℕ → String → String → String → StoreAction Attempt
create_attempt task number worker branch base = do
  id ← statement db_error λ t.
      let (id, attempts) = insert (new_attempt task number worker branch base) t.attempts in
      (id, record t { attempts = attempts })
  pure (new_attempt task number worker branch base id)

abbrev pub update_attempts : ℕ → (Attempt → Attempt) → Taskstore → Unit {0} × Taskstore
update_attempts id f t = (
  tt,
  record t {
    attempts = record t.attempts { rows = update_where (λ r. r.id == id) f t.attempts.rows };
  },
)

unfoldable pub update_attempt_status : ℕ → Status → StoreAction (Unit {0})
update_attempt_status id st =
    statement db_error (update_attempts id (λ r. record r { status = st }))

unfoldable pub update_attempt_checkpoint : ℕ → String → StoreAction (Unit {0})
update_attempt_checkpoint id sha =
    statement db_error (update_attempts id (λ r. record r { checkpoint_commit = sha }))

abbrev pub is_active : Status → Bool
is_active pending = true
is_active running = true
is_active _ = false

unfoldable pub get_active_attempts : StoreAction (List Attempt)
get_active_attempts = query db_error (λ t. keep_where (λ r. is_active r.status) t.attempts.rows)

-- A stable insertion sort by number, as `ORDER BY number`.
abbrev pub insert_by_number : Attempt → List Attempt → List Attempt
insert_by_number a [] = a ∷ []
insert_by_number a (b ∷ bs) =
    let rest = insert_by_number a bs in if ltb b.number a.number then b ∷ rest else a ∷ b ∷ bs

abbrev pub by_number : List Attempt → List Attempt
by_number [] = []
by_number (a ∷ rest) = insert_by_number a (by_number rest)

unfoldable pub get_attempts_by_task : ℕ → StoreAction (List Attempt)
get_attempts_by_task task =
    query db_error (λ t. by_number (keep_where (λ r. r.task_id == task) t.attempts.rows))

unfoldable pub get_attempt : ℕ → StoreAction Attempt
get_attempt id = do
  found ← query db_error (λ t. find? (λ r. r.id == id) t.attempts.rows)
  or_no_rows found

abbrev pub new_worker : ℕ → ℕ → String → String → String → ℕ → ℕ → ℕ → ℕ → WorkerRecord
new_worker now attempt command cwd role generation pid pgid id = record {
  id = id;
  attempt_id = attempt;
  command = command;
  cwd = cwd;
  role = role;
  generation = generation;
  status = running;
  pid = pid;
  pgid = pgid;
  start_time = now;
}

unfoldable pub record_worker_pid :
    ℕ → ℕ → String → String → String → ℕ → ℕ → ℕ → StoreAction WorkerRecord
record_worker_pid now attempt command cwd role generation pid pgid = do
  id ← statement db_error λ t.
      let (id, workers) =
        insert (new_worker now attempt command cwd role generation pid pgid) t.workers in
      (id, record t { workers = workers })
  pure (new_worker now attempt command cwd role generation pid pgid id)

unfoldable pub record_worker : ℕ → ℕ → String → String → String → ℕ → StoreAction WorkerRecord
unfolding record_worker_pid
record_worker now attempt command cwd role generation =
    record_worker_pid now attempt command cwd role generation 0 0

unfoldable pub get_worker : ℕ → StoreAction WorkerRecord
get_worker id = do
  found ← query db_error (λ t. find? (λ r. r.id == id) t.workers.rows)
  or_no_rows found

-- The last row that passes the test: `ORDER BY id DESC LIMIT 1`, since the rows stand by id.
abbrev pub find_last : {A : Type 0} → (A → Bool) → List A → Option A
find_last p [] = none
find_last p (a ∷ rest) =
    let later = find_last p rest in
    elim later [ some b ↦ some b | none ↦ if p a then some a else none ]

unfoldable pub get_worker_by_attempt : ℕ → StoreAction WorkerRecord
get_worker_by_attempt attempt = do
  found ← query db_error (λ t. find_last (λ r. r.attempt_id == attempt) t.workers.rows)
  or_no_rows found

unfoldable pub update_worker_status : ℕ → Status → StoreAction (Unit {0})
update_worker_status id st = statement db_error λ t. (
  tt,
  record t {
    workers = record t.workers {
      rows = update_where (λ r. r.id == id) (λ r. record r { status = st }) t.workers.rows;
    };
  },
)
