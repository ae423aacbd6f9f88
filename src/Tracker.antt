-- ===== src/Tracker.antt =====
-- internal/daemon/tracker.go: the tracker, which starts ready tasks on free workers and settles them in
-- the graph. It works on a session with `dag.Store`; `strings.Split(_, ",")` and `strings.TrimSpace` of
-- Go's library are the arguments `split` and `trim`, and a started task's run is its result.
pub mod Pool
pub mod Finish
pub mod Resume
mod Tests
use omni_orchestration.Prelude.{
  ℕ, zero, suc, ◌+◌, String, str_eq, Bool, true, false, not, List, [], ◌∷◌, leb, ◌==◌, any, length,
  keep_where, find?, if◌then◌else◌,
}
use omni_orchestration.Session.{Result, ok, err, pure, ◌>>=◌, ◌>>◌, attempt, query}
use omni_orchestration.Dag.{
  get_ready_tasks, Task, Dag, Error, active, completed, failed, blocked, same_status, db_error,
  DagAction, get_task, update_task_status,
}
use omni_orchestration.Dag.Leases.{acquire_path_lease, release_path_leases}
use omni_orchestration.Dag.Unblock.{unblock_dependents, fail_dependents}
use omni_orchestration.Coordinator.{Decision, complete, fail}

-- The map `active` by its keys, the ids of the running tasks.
pub record Tracker : Type 0 where
  pub running : List ℕ
  pub max_workers : ℕ
  pub closed : Bool

abbrev pub new_tracker : ℕ → Tracker
new_tracker workers = record {
  running = [];
  max_workers = if workers == 0 then 1 else workers;
  closed = false;
}

abbrev pub is_running : ℕ → Tracker → Bool
is_running id t = any (λ r. r == id) t.running

abbrev pub is_granted : Result Error Bool → Bool
is_granted (ok b) = b
is_granted (err _) = false

-- The loop over a task's paths (the empty ones are skipped, also the one of an empty text), with the paths acquired and whether all were.
unfoldable pub acquire_each : (String → String) → ℕ → List String → DagAction (Bool × ℕ)
unfolding acquire_path_lease
acquire_each trim id [] = pure (true, 0)
acquire_each trim id (p ∷ ps) =
    let rest = acquire_each trim id ps in
    if str_eq (trim p) "" then rest else (do
      granted ← attempt (acquire_path_lease id (trim p))
      if is_granted granted then (do r ← rest; pure (r.0, r.1 + 1)) else pure (false, 0))

-- One release for each path that was acquired.
unfoldable pub release_each : ℕ → ℕ → DagAction (Unit {0})
unfolding release_path_leases
release_each id zero = pure tt
release_each id (suc n) = do attempt (release_path_leases id); release_each id n

unfoldable pub acquire_paths : (String → List String) → (String → String) → Task → DagAction Bool
unfolding acquire_each release_each
acquire_paths split trim t = do
  r ← acquire_each trim t.id (split t.owned_paths)
  if r.0 then pure true else (do release_each t.id r.1; pure false)

abbrev pub started : ℕ → Tracker → Tracker
started id t = record t { running = id ∷ t.running }

unfoldable pub dispatch_each :
    (String → List String) → (String → String) → List Task → Tracker → DagAction Tracker
unfolding acquire_paths
dispatch_each split trim [] t = pure t
dispatch_each split trim (x ∷ xs) t =
    let rest = dispatch_each split trim xs in
    if leb t.max_workers (length t.running)
    then pure t
    else if is_running x.id t
    then rest t
    else (do
      granted ← acquire_paths split trim x
      if granted then rest (started x.id t) else rest t)

abbrev pub or_no_tasks : Result Error (List Task) → List Task
or_no_tasks (ok ts) = ts
or_no_tasks (err _) = []

unfoldable pub poll : (String → List String) → (String → String) → Tracker → DagAction Tracker
unfolding dispatch_each get_ready_tasks
poll split trim t =
    if t.closed then pure t else if leb t.max_workers (length t.running) then pure t else (do
      ready_tasks ← attempt get_ready_tasks
      dispatch_each split trim (or_no_tasks ready_tasks) t)

-- What the run of a task came to: no attempt could be created, or `orchestrator.Run` gave an error or
-- its decisions.
pub data Outcome : Type 0 where
  no_attempt : Outcome
  run_error : Outcome
  decided : List Decision → Outcome

unfoldable pub settle_decisions : ℕ → List Decision → DagAction (Unit {0})
unfolding update_task_status unblock_dependents fail_dependents
settle_decisions id [] = pure tt
settle_decisions id (d ∷ ds) =
    let rest = settle_decisions id ds in
    if str_eq d complete
    then (do attempt (update_task_status id completed); attempt (unblock_dependents id); pure tt)
    else if str_eq d fail
    then (do attempt (update_task_status id failed); attempt (fail_dependents id); pure tt)
    else rest

-- The goroutine of `executeTask` without its deferred release: the errors of the store are dropped.
unfoldable pub settle_run : ℕ → Outcome → DagAction (Unit {0})
unfolding settle_decisions
settle_run id no_attempt = do attempt (update_task_status id failed); pure tt
settle_run id run_error = do
  attempt (update_task_status id active)
  attempt (update_task_status id failed)
  pure tt
settle_run id (decided ds) = do attempt (update_task_status id active); settle_decisions id ds

-- The goroutine with what it defers.
unfoldable pub finish : ℕ → Outcome → DagAction (Unit {0})
unfolding settle_run
finish id outcome = do settle_run id outcome; attempt (release_path_leases id); pure tt

abbrev pub finished : ℕ → Tracker → Tracker
finished id t = record t { running = keep_where (λ r. not (r == id)) t.running }

abbrev pub close : Tracker → Tracker
close t = record t { running = []; closed = true }
