-- ===== src/Orchestrator/Launch/Tests.antt =====
-- Concrete runs: one worker whose validator passes, without a coordinator.
use omni_orchestration.Prelude.{
  ℕ, ◌+◌, ◌≤◌, ◌≡◌, ◌≢◌, ◌↔◌, refl, true, false, none, some, List, [], ◌∷◌, length, IsIn,
}
use omni_orchestration.Session.{err}
use omni_orchestration.Dag as Graph
use omni_orchestration.Mailbox as Mail
use omni_orchestration.Taskstore as Tasks
use omni_orchestration.Taskstore.{Taskstore, completed}
use omni_orchestration.Coordinator.{complete, validate, new_coordinator_runtime, other_error}
use omni_orchestration.Supervisor.{active, exited}
use omni_orchestration.Orchestrator.Attempts.{Context, gateway_rejected, open_attempt}
use omni_orchestration.Orchestrator.Attempts.Cleanup.{IsTidy, open_attempt-IsTidy}
use omni_orchestration.Orchestrator.Observe.{validator_passes}
use omni_orchestration.Orchestrator.Run.{Ending}
use omni_orchestration.Orchestrator.Run.Closed.{IsQuiet}
use omni_orchestration.Orchestrator.Launch.{run, or_default, context_of, contains_str}
use omni_orchestration.Orchestrator.Launch.Returns.{run_returns}
use omni_orchestration.Orchestrator.Launch.Earned.{run_earned}
use omni_orchestration.Orchestrator.Launch.Quiet.{run-IsQuiet}
use omni_orchestration.Orchestrator.Launch.Search.{Occurs, contains_str_iff}
use omni_orchestration.Orchestrator.Terminal.{Tracked, finalize_terminal}
use omni_orchestration.Orchestrator.Terminal.Closes.{Keeps, finalize_terminal_closes}
use omni_orchestration.Orchestrator.World.{Config, Observation, Environment, World}

abbrev cfg : Config
cfg = record {
  repo = "/repo";
  task = "fix the build";
  command = "worker";
  cwd = "";
  validator = "make test";
  max_attempts = 0;
  run_id = 0;
  task_id = 0;
  attempt_id = 0;
  provider = "";
  model = "";
  has_mailbox = true;
  has_graph = true;
  policy = none;
  has_coordinator = false;
}

abbrev seen : Observation
seen = record {
  states = active ∷ exited ∷ [];
  exit_code = 0;
  checkpoint = "c0ffee";
  passes = true;
  duration_ms = 10;
}

abbrev env : Environment
env = record {
  worktree_list = none;
  resolve = λ path. path;
  relative = λ base path. none;
  has_prefix = λ text prefix. false;
  contains = λ text part. true;
  is_done = λ n. false;
  worktree = λ n. some (record { path = "/trees/T1-A1"; branch = "omni/T1-A1" });
  start = λ n. some (100 + n);
  now = λ n. n;
  observation = λ n. seen;
  engine = λ state rt. (err other_error, rt);
  force_candidate_error = false;
}

abbrev store : Taskstore
store = record {
  runs = record { rows = []; last_id = 0 };
  tasks = record { rows = []; last_id = 0 };
  attempts = record { rows = []; last_id = 0 };
  workers = record { rows = []; last_id = 0 };
  events = record { rows = []; last_id = 0 };
  event_acks = [];
  run_records = record { rows = []; last_id = 0 };
  tombstones = [];
  effect_keys = [];
}

abbrev world : World
world = record {
  store = Tasks.quiet store;
  mailbox = Mail.quiet [];
  graph = Graph.quiet (record { tasks = []; dependencies = []; leases = []; last_id = 0 });
  coordinator = new_coordinator_runtime "coordinator";
  gateway = 0;
  removed = [];
  started = [];
  told = [];
  closed = [];
}

abbrev end : Ending
end = record { decisions = validate ∷ complete ∷ []; error = none }

run_completes : (run cfg env world).0 ≡ some end
unfolding run
run_completes = refl

run_returns_example :
    (e : Ending) × ((run cfg env world).0 ≡ some e)
    × (length e.decisions ≤ or_default cfg.max_attempts + 1)
run_returns_example = run_returns cfg env world

run_earned_example :
    (IsIn complete end.decisions
      → (n : ℕ) × (n ≤ or_default cfg.max_attempts)
        × (validator_passes cfg (env.observation n) ≡ true))
    × (end.error ≢ some gateway_rejected)
run_earned_example = run_earned cfg env world end run_completes

none_open : IsQuiet world
none_open pid m = m

run-IsQuiet_example : IsQuiet (run cfg env world).1
run-IsQuiet_example = run-IsQuiet cfg env world none_open

abbrev context : Context
context = context_of cfg env 1 1

open_attempt-IsTidy_example :
    IsTidy context 1 world (open_attempt context 1 "HEAD" "fix the build" world)
open_attempt-IsTidy_example = open_attempt-IsTidy context 1 "HEAD" "fix the build" world

abbrev tracked : List Tracked
tracked =
    record { attempt_id = 1; number = 1; worker_id = 1; pid = 101; branch = "omni/T1-A1" } ∷ []

abbrev last : Tracked
last = record { attempt_id = 2; number = 2; worker_id = 2; pid = 102; branch = "omni/T1-A2" }

finalize_terminal_closes_example :
    Keeps world (finalize_terminal 1 1 tracked (some last) completed world).1
    × ((a : Tracked)
        → IsIn a tracked
        → IsIn a.pid (finalize_terminal 1 1 tracked (some last) completed world).1.closed)
    × ((a : Tracked)
        → some last ≡ some a
        → IsIn a.pid (finalize_terminal 1 1 tracked (some last) completed world).1.closed)
finalize_terminal_closes_example = finalize_terminal_closes 1 1 tracked (some last) completed world

-- The list names a longer branch, of which the one looked for is the beginning.
abbrev listed : List ℕ
listed = 47 ∷ 65 ∷ 49 ∷ 48 ∷ []

abbrev branch : List ℕ
branch = 65 ∷ 49 ∷ []

contains_str_iff_example :
    (contains_str listed branch ≡ true) ↔ ((branch ≢ []) × Occurs branch listed)
contains_str_iff_example = contains_str_iff listed branch
