-- ===== src/Orchestrator/Launch.antt =====
-- internal/orchestrator/orchestrator.go: `Run` up to its loop, with the search of git's list of worktrees.
pub mod Search
mod Tests
pub mod Returns
pub mod Quiet
pub mod Earned
use omni_orchestration.Prelude.{
  ℕ, zero, suc, ◌+◌, String, str_eq, Bool, true, false, not, ◌&&◌, ◌||◌, Option, none, some, List,
  [], ◌∷◌, ◌==◌, leb, length, codes, if◌then◌else◌,
}
use omni_orchestration.Session.{Result, ok, err}
use omni_orchestration.Taskstore.{Status, failed, cancelled, Attempt, Run, Task, Error}
use omni_orchestration.Taskstore.Work.{
  get_run, create_run, get_task, create_task, get_active_attempts, update_attempt_status,
}
use omni_orchestration.Taskstore.Records.{record_run}
use omni_orchestration.Coordinator.{fail, WakePacket, WakeResponse}
use omni_orchestration.Orchestrator.Attempts.{
  Context, RunError, missing_config, create_run_failed, create_task_failed,
}
use omni_orchestration.Orchestrator.Observe.{wake_coordinator}
use omni_orchestration.Orchestrator.Run.{Ending, LoopState, or_fail, run_loop}
use omni_orchestration.Orchestrator.Terminal.{finalize_terminal}
use omni_orchestration.Orchestrator.World.{
  Config, Environment, World, Program, pure, ◌>>=◌, ◌>>◌, on_store,
}

-- `h[:len(n)] == n`, where `h` is long enough.
unfoldable pub is_prefix : List ℕ → List ℕ → Bool
is_prefix [] h = true
is_prefix (c ∷ n) [] = false
is_prefix (c ∷ n) (d ∷ h) = c == d && is_prefix n h

-- `searchHaystack`; at a place that leaves no room for the needle there is no match.
unfoldable pub search_haystack : List ℕ → List ℕ → Bool
unfolding is_prefix
search_haystack [] n = is_prefix n []
search_haystack (c ∷ h) n = is_prefix n (c ∷ h) || search_haystack h n

unfoldable pub contains_str : List ℕ → List ℕ → Bool
unfolding search_haystack
contains_str [] n = false
contains_str (c ∷ h) [] = false
contains_str (c ∷ h) (d ∷ n) =
    leb (length (d ∷ n)) (length (c ∷ h)) && search_haystack (c ∷ h) (d ∷ n)

-- `worktreeExists`; git's list may fail.
unfoldable pub worktree_exists : Option String → String → Bool
unfolding contains_str
worktree_exists none branch = false
worktree_exists (some listed) branch = contains_str (codes listed) (codes branch)

abbrev pub is_gone : Environment → Attempt → Bool
is_gone env a = not (str_eq a.branch "") && not (worktree_exists env.worktree_list a.branch)

-- Attempts left active by an earlier process whose worktree is gone.
unfoldable pub cancel_stale : Environment → List Attempt → Program (Unit {0})
unfolding worktree_exists update_attempt_status
cancel_stale env [] = pure tt
cancel_stale env (a ∷ rest) =
    if is_gone env a
    then (do on_store (update_attempt_status a.id cancelled); cancel_stale env rest)
    else cancel_stale env rest

abbrev pub or_none : Result Error (List Attempt) → List Attempt
or_none (ok attempts) = attempts
or_none (err _) = []

unfoldable pub reconcile_attempts : Environment → Program (Unit {0})
unfolding get_active_attempts cancel_stale
reconcile_attempts env = do
  existing ← on_store get_active_attempts
  cancel_stale env (or_none existing)

abbrev pub or_default : ℕ → ℕ
or_default n = if n == 0 then 3 else n

abbrev pub context_of : Config → Environment → ℕ → ℕ → Context
context_of cfg env run task = record {
  cfg = cfg;
  env = env;
  run_id = run;
  task_id = task;
  max_attempts = or_default cfg.max_attempts;
}

abbrev pub found : {A : Type 0} → Result Error A → Option A
found (ok a) = some a
found (err _) = none

-- The row made beforehand, if it was found, else a new one.
abbrev pub run_row : Option Run → Program (Result Error Run)
run_row (some r) = pure (ok r)
run_row none = on_store create_run

abbrev pub task_row : Config → ℕ → Option Task → Program (Result Error Task)
task_row cfg run (some t) = pure (ok t)
task_row cfg run none = on_store (create_task run cfg.task)

-- `RecordRun` where the provider is known and the run is new; its error is logged.
unfoldable pub announce : Config → ℕ → Program (Unit {0})
unfolding record_run
announce cfg run =
    if not (str_eq cfg.provider "") && cfg.run_id == 0
    then (do
      on_store (record_run run cfg.provider cfg.model "coordinator" cfg.task cfg.repo)
      pure tt)
    else pure tt

abbrev pub with_task :
    Config → Environment → ℕ → Result Error Task → Program (Result RunError Context)
with_task cfg env run (ok t) = pure (ok (context_of cfg env run t.id))
with_task cfg env run (err e) = pure (err (create_task_failed e))

unfoldable pub with_run :
    Config → Environment → Option Task → Result Error Run → Program (Result RunError Context)
unfolding announce create_task
with_run cfg env task (err e) = pure (err (create_run_failed e))
with_run cfg env task (ok r) = do
  announce cfg r.id
  row ← task_row cfg r.id task
  with_task cfg env r.id row

unfoldable pub with_rows :
    Config → Environment → Option Run → Option Task → Program (Result RunError Context)
unfolding create_run with_run
with_rows cfg env run task = do row ← run_row run; with_run cfg env task row

unfoldable pub open_run : Config → Environment → Program (Result RunError Context)
unfolding get_run get_task with_rows
open_run cfg env = if cfg.run_id == 0 then with_rows cfg env none none else (do
  r ← on_store (get_run cfg.run_id)
  t ← on_store (get_task cfg.task_id)
  with_rows cfg env (found r) (found t))

abbrev pub first_packet : Context → WakePacket
first_packet c = record {
  run_id = c.run_id;
  task_id = c.task_id;
  task_title = c.cfg.task;
  attempt_number = 0;
  attempt_status = "pending";
  worker_state = "pending";
  exit_code = 0;
  checkpoint_sha = "";
  validator_output = "";
  diff_summary = "";
  allowed_decisions = "START" ∷ "VALIDATE" ∷ "FAIL" ∷ [];
}

abbrev pub first_state : Context → WakeResponse → LoopState
first_state c r = record {
  first_decision = r.decision;
  number = 1;
  auto_count = 0;
  base = "HEAD";
  instruction = c.cfg.task;
  tracked = [];
  decisions = r.decision ∷ [];
}

-- The loop, unless the first decision is FAIL.
unfoldable pub with_first : Context → WakeResponse → Program (Option Ending)
unfolding finalize_terminal run_loop
with_first c r =
    if str_eq r.decision fail
    then (do
      finalize_terminal c.run_id c.task_id [] none failed
      pure (some (record { decisions = r.decision ∷ []; error = none })))
    else run_loop (suc c.max_attempts) c (first_state c r)

abbrev pub returns : RunError → Program (Option Ending)
returns e = pure (some (record { decisions = []; error = some e }))

unfoldable pub with_context : Result RunError Context → Program (Option Ending)
unfolding wake_coordinator with_first
with_context (err e) = returns e
with_context (ok c) = do woken ← wake_coordinator c (first_packet c); with_first c (or_fail c woken)

unfoldable pub launch : Config → Environment → Program (Option Ending)
unfolding reconcile_attempts open_run with_context
launch cfg env = do reconcile_attempts env; opened ← open_run cfg env; with_context opened

abbrev pub is_incomplete : Config → Bool
is_incomplete cfg = str_eq cfg.repo "" || str_eq cfg.task "" || str_eq cfg.command ""

-- `Run`; `none` would be a loop that has not ended.
unfoldable pub run : Config → Environment → Program (Option Ending)
unfolding launch
run cfg env = if is_incomplete cfg then returns missing_config else launch cfg env
