-- ===== src/Orchestrator/Authority.antt =====
-- internal/orchestrator/authority.go: the authority tuple, and the check before a worker is created in
-- `createAttempt` of internal/orchestrator/orchestrator.go.
pub mod Stale
use omni_orchestration.Prelude.{
  ℕ, String, str_eq, Bool, Option, none, some, List, [], ◌∷◌, ltb, if◌then◌else◌,
}
use omni_orchestration.Session.{Result, ok, err, pure, ◌>>=◌, ◌>>◌, attempt}
use omni_orchestration.Taskstore.{Attempt, WorkerRecord, RunRecord, Task, Error, StoreAction}
use omni_orchestration.Taskstore.Work.{get_task, get_attempts_by_task, get_worker_by_attempt}
use omni_orchestration.Taskstore.Records.{get_run_record}
use omni_orchestration.Taskstore.Effects as Effects

pub record Authority : Type 0 where
  pub run_epoch : ℕ
  pub task_generation : ℕ
  pub attempt_generation : ℕ
  pub worker_lease_generation : ℕ
  pub base_sha : String

abbrev pub epoch_of : Result Error RunRecord → ℕ
epoch_of (ok r) = r.id
epoch_of (err _) = 1

abbrev pub task_of : Result Error Task → ℕ
task_of (ok t) = t.id
task_of (err _) = 1

abbrev pub or_empty : Result Error (List Attempt) → List Attempt
or_empty (ok attempts) = attempts
or_empty (err _) = []

abbrev pub last : List Attempt → Option Attempt
last [] = none
last (a ∷ rest) = let later = last rest in elim later [ some b ↦ some b | none ↦ some a ]

-- `WorkerLeaseGeneration` keeps its zero value when no worker is found.
abbrev pub lease_of : Result Error WorkerRecord → ℕ
lease_of (ok w) = w.generation
lease_of (err _) = 0

abbrev pub base_of : Attempt → String
base_of a = a.checkpoint_commit

-- The part of the tuple that the latest attempt gives.
unfoldable pub with_latest : ℕ → ℕ → Option Attempt → StoreAction Authority
unfolding get_worker_by_attempt
with_latest epoch task none = pure (record {
  run_epoch = epoch;
  task_generation = task;
  attempt_generation = 1;
  worker_lease_generation = 0;
  base_sha = "";
})
with_latest epoch task (some a) = do
  worker ← attempt (get_worker_by_attempt a.id)
  pure (record {
    run_epoch = epoch;
    task_generation = task;
    attempt_generation = a.number;
    worker_lease_generation = lease_of worker;
    base_sha = base_of a;
  })

unfoldable pub current_authority : ℕ → ℕ → StoreAction Authority
unfolding with_latest get_run_record get_task get_attempts_by_task
current_authority run task = do
  rec ← attempt (get_run_record run)
  row ← attempt (get_task task)
  attempts ← attempt (get_attempts_by_task task)
  with_latest (epoch_of rec) (task_of row) (last (or_empty attempts))

pub data Staleness : Type 0 where
  stale_run_epoch stale_task_generation stale_attempt_generation stale_worker_lease : Staleness

unfoldable pub validate_mutation : Authority → Option Authority → Result Staleness (Unit {0})
validate_mutation a none = ok tt
validate_mutation a (some current) =
    if ltb a.run_epoch current.run_epoch
    then err stale_run_epoch
    else if ltb a.task_generation current.task_generation
    then err stale_task_generation
    else if ltb a.attempt_generation current.attempt_generation
    then err stale_attempt_generation
    else if ltb a.worker_lease_generation current.worker_lease_generation
    then err stale_worker_lease
    else ok tt

unfoldable pub validate_child_result : Authority → Option Authority → Result Staleness (Unit {0})
validate_child_result a none = ok tt
validate_child_result a (some parent) =
    if ltb a.run_epoch parent.run_epoch
    then err stale_run_epoch
    else if ltb a.task_generation parent.task_generation
    then err stale_task_generation
    else if ltb a.attempt_generation parent.attempt_generation
    then err stale_attempt_generation
    else ok tt

unfoldable pub record_tombstone : ℕ → String → Authority → StoreAction (Unit {0})
unfolding Effects.record_tombstone
record_tombstone run action a =
    Effects.record_tombstone run action a.run_epoch a.task_generation a.attempt_generation
      a.worker_lease_generation

-- The intent of attempt `number` in `createAttempt`.
abbrev pub intent_of : ℕ → Authority → Authority
intent_of number current = record {
  run_epoch = current.run_epoch;
  task_generation = current.task_generation;
  attempt_generation = number;
  worker_lease_generation = 1;
  base_sha = "";
}

unfoldable pub check_attempt : ℕ → ℕ → ℕ → StoreAction (Result Staleness (Unit {0}))
unfolding current_authority validate_mutation
check_attempt run task number = do
  current ← current_authority run task
  pure (validate_mutation (intent_of number current) (some current))
