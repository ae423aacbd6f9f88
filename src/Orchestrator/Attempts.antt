-- ===== src/Orchestrator/Attempts.antt =====
-- internal/orchestrator/orchestrator.go: `runContext` and `createAttempt`, with the checks before a
-- worker's process is started.
pub mod Rule
pub mod Cleanup
use omni_orchestration.Prelude.{
  ℕ, String, str_eq, Bool, true, false, not, ◌&&◌, ◌||◌, Option, none, some, ◌==◌, if◌then◌else◌,
}
use Prim.Native.String.{◌++◌ as append}
use omni_orchestration.Session.{Result, ok, err}
use omni_orchestration.Policy.{Violation, Registry, check_provider}
use omni_orchestration.Taskstore.{Attempt, WorkerRecord, Error}
use omni_orchestration.Taskstore.Work.{get_attempt, create_attempt, record_worker_pid}
use omni_orchestration.Orchestrator.Authority.{Staleness, check_attempt}
use omni_orchestration.Orchestrator.Format.{worker_name}
use omni_orchestration.Orchestrator.Terminal.{Tracked}
use omni_orchestration.Orchestrator.World.{
  Config, WorktreeInfo, Environment, World, Program, pure, ◌>>=◌, ◌>>◌, on_store, close_worker,
  start_worker, tell_worker, remove_worktree,
}

pub record Context : Type 0 where
  pub cfg : Config
  pub env : Environment
  pub run_id : ℕ
  pub task_id : ℕ
  pub max_attempts : ℕ

-- The errors that `Run` returns, by the place that makes them.
pub data RunError : Type 0 where
  missing_config context_done worktree_failed outside_worktree start_failed : RunError
  gateway_rejected : RunError
  create_run_failed create_task_failed attempt_failed worker_failed : Error → RunError
  effect_failed candidate_failed candidate_impossible : Error → RunError
  policy_reject : Violation → RunError
  authority_reject : Staleness → RunError

-- `isWithinWorktree`; `rel` is the path from the worktree to the directory, if there is one.
abbrev pub is_within : Environment → Option String → Bool
is_within env none = false
is_within env (some rel) = not (env.has_prefix rel "..") && not (str_eq rel ".")

abbrev pub resolved : Environment → WorktreeInfo → WorktreeInfo
resolved env info = record info { path = env.resolve info.path }

abbrev pub cwd_of : Context → WorktreeInfo → String
cwd_of c info = c.env.resolve (if str_eq c.cfg.cwd "" then info.path else c.cfg.cwd)

abbrev pub is_outside : Context → WorktreeInfo → Bool
is_outside c info =
    not (str_eq (cwd_of c info) (resolved c.env info).path)
    && not (is_within c.env (c.env.relative (resolved c.env info).path (cwd_of c info)))

-- Every error after the worktree is made removes it.
abbrev pub reject : WorktreeInfo → RunError → Program (Result RunError Tracked)
reject info e = do remove_worktree info.path; pure (err e)

abbrev pub or_new_attempt :
    Context → ℕ → WorktreeInfo → String → Result Error Attempt → Program (Result Error Attempt)
or_new_attempt c number info base (ok a) = pure (ok a)
or_new_attempt c number info base (err _) =
    on_store (create_attempt c.task_id number (worker_name c.task_id number) info.branch base)

-- The row made beforehand if the configuration names one, else a new row.
unfoldable pub attempt_row : Context → ℕ → WorktreeInfo → String → Program (Result Error Attempt)
unfolding get_attempt create_attempt worker_name
attempt_row c number info base =
    if c.cfg.attempt_id == 0
    then on_store (create_attempt c.task_id number (worker_name c.task_id number) info.branch base)
    else (do
      found ← on_store (get_attempt c.cfg.attempt_id)
      or_new_attempt c number info base found)

abbrev pub policy_verdict : Option Registry → String → Result Violation (Unit {0})
policy_verdict none provider = ok tt
policy_verdict (some r) provider = if str_eq provider "" then ok tt else check_provider r provider

-- What the attempt is about: its round's number, its worktree, its row and its instruction.
pub record Site : Type 0 where
  pub number : ℕ
  pub info : WorktreeInfo
  pub cwd : String
  pub row : Attempt
  pub instruction : String

abbrev pub tell : ℕ → String → Program (Unit {0})
tell pid instruction =
    if str_eq instruction "" then pure tt else tell_worker pid (append instruction "\n")

abbrev pub tracked_of : Site → ℕ → WorkerRecord → Tracked
tracked_of s pid worker = record {
  attempt_id = s.row.id;
  number = s.row.number;
  worker_id = worker.id;
  pid = pid;
  branch = s.info.branch;
}

unfoldable pub with_worker :
    Site → ℕ → Result Error WorkerRecord → Program (Result RunError Tracked)
with_worker s pid (err e) = do close_worker pid; reject s.info (worker_failed e)
with_worker s pid (ok worker) = do tell pid s.instruction; pure (ok (tracked_of s pid worker))

unfoldable pub with_process : Context → Site → Option ℕ → Program (Result RunError Tracked)
unfolding with_worker record_worker_pid
with_process c s none = reject s.info start_failed
with_process c s (some pid) = do
  start_worker pid
  worker ←
      on_store
        (record_worker_pid (c.env.now s.number) s.row.id c.cfg.command s.cwd "primary" 1 pid 0)
  with_worker s pid worker

-- An authority that cannot be read is not checked.
unfoldable pub with_authority :
    Context → Site → Result Error (Result Staleness (Unit {0})) → Program (Result RunError Tracked)
unfolding with_process
with_authority c s (ok (err stale)) = reject s.info (authority_reject stale)
with_authority c s (ok (ok _)) = with_process c s (c.env.start s.number)
with_authority c s (err _) = with_process c s (c.env.start s.number)

unfoldable pub with_policy :
    Context → Site → Result Violation (Unit {0}) → Program (Result RunError Tracked)
unfolding with_authority check_attempt
with_policy c s (err v) = reject s.info (policy_reject v)
with_policy c s (ok _) = do
  verdict ← on_store (check_attempt c.run_id c.task_id s.number)
  with_authority c s verdict

abbrev pub site_of : Context → ℕ → WorktreeInfo → String → Attempt → Site
site_of c number info instruction row = record {
  number = number;
  info = resolved c.env info;
  cwd = cwd_of c info;
  row = row;
  instruction = instruction;
}

unfoldable pub with_row :
    Context → ℕ → WorktreeInfo → String → Result Error Attempt → Program (Result RunError Tracked)
unfolding with_policy
with_row c number info instruction (err e) = reject (resolved c.env info) (attempt_failed e)
with_row c number info instruction (ok row) =
    with_policy c (site_of c number info instruction row)
      (policy_verdict c.cfg.policy c.cfg.provider)

unfoldable pub in_worktree :
    Context → ℕ → String → String → Option WorktreeInfo → Program (Result RunError Tracked)
unfolding attempt_row with_row
in_worktree c number base instruction none = pure (err worktree_failed)
in_worktree c number base instruction (some info) =
    if is_outside c info
    then reject (resolved c.env info) outside_worktree
    else (do row ← attempt_row c number info base; with_row c number info instruction row)

-- `createAttempt`, for the round `number`.
unfoldable pub open_attempt : Context → ℕ → String → String → Program (Result RunError Tracked)
unfolding in_worktree
open_attempt c number base instruction =
    in_worktree c number base instruction (c.env.worktree number)
