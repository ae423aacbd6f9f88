-- ===== src/Orchestrator/World.antt =====
-- internal/orchestrator/orchestrator.go: what a run works on. `World` holds the sessions with the task
-- store, the mailbox and the graph, the coordinator's runtime, the gateway's generation, and a log of
-- what was done to worktrees and worker processes (a process is known by its PID). `Environment` is what the run meets outside of the repository's own state: the context,
-- git, the file system, processes, the validator and the decision engine.
use omni_orchestration.Prelude.{ℕ, String, Bool, Option, List, [], ◌∷◌, ◌++◌}
use omni_orchestration.Session.{Result, Session}
use omni_orchestration.Dag.{Dag, DagAction}
use omni_orchestration.Dag as Graph
use omni_orchestration.Mailbox.{Mailbox, MailAction}
use omni_orchestration.Mailbox as Mail
use omni_orchestration.Taskstore.{Taskstore, StoreAction}
use omni_orchestration.Taskstore as Tasks
use omni_orchestration.Policy.{Registry}
use omni_orchestration.Supervisor.{State}
use omni_orchestration.Coordinator.{CoordinatorRuntime, Engine}

-- `none` is a component that is not set. `attempt_id` 0 is no attempt made beforehand.
pub record Config : Type 0 where
  pub repo : String
  pub task : String
  pub command : String
  pub cwd : String
  pub validator : String
  pub max_attempts : ℕ
  pub run_id : ℕ
  pub task_id : ℕ
  pub attempt_id : ℕ
  pub provider : String
  pub model : String
  pub has_mailbox : Bool
  pub has_graph : Bool
  pub policy : Option Registry
  pub has_coordinator : Bool

pub record WorktreeInfo : Type 0 where
  pub path : String
  pub branch : String

-- What the supervisor, the recovery and the validator report of one attempt: the states in the order of
-- the channel, the exit code, the checkpoint, whether the validator passed, and the milliseconds.
pub record Observation : Type 0 where
  pub states : List State
  pub exit_code : ℕ
  pub checkpoint : String
  pub passes : Bool
  pub duration_ms : ℕ

-- The functions of a number are of the attempt's number: whether the context is done when its round
-- begins, the worktree that git makes, the PID of its process, the time, and what is observed.
-- `resolve` is `EvalSymlinks`, or the path itself on an error; `relative` is `filepath.Rel`;
-- `has_prefix` and `contains` are those of Go's `strings`, the text to look for second.
pub record Environment : Type 0 where
  pub worktree_list : Option String
  pub resolve : String → String
  pub relative : String → String → Option String
  pub has_prefix : String → String → Bool
  pub contains : String → String → Bool
  pub is_done : ℕ → Bool
  pub worktree : ℕ → Option WorktreeInfo
  pub start : ℕ → Option ℕ
  pub now : ℕ → ℕ
  pub observation : ℕ → Observation
  pub engine : Engine
  pub force_candidate_error : Bool

pub record World : Type 0 where
  pub store : Session Taskstore
  pub mailbox : Session Mailbox
  pub graph : Session Dag
  pub coordinator : CoordinatorRuntime
  pub gateway : ℕ
  pub removed : List String
  pub started : List ℕ
  pub told : List (ℕ × String)
  pub closed : List ℕ

abbrev pub Program : Type 0 → Type 0
Program A = World → A × World

abbrev pub pure : {A : Type 0} → A → Program A
pure a w = (a, w)

infixl 5 ◌>>=◌
abbrev pub ◌>>=◌ : {A B : Type 0} → Program A → (A → Program B) → Program B
◌>>=◌ m f w = f (m w).0 (m w).1

infixl 5 ◌>>◌
abbrev pub ◌>>◌ : {A B : Type 0} → Program A → Program B → Program B
◌>>◌ m k w = k (m w).1

-- An action of one store, with its error as a value.
abbrev pub on_store : {A : Type 0} → StoreAction A → Program (Result Tasks.Error A)
on_store m w = ((m w.store).0, record w { store = (m w.store).1 })

abbrev pub on_mailbox : {A : Type 0} → MailAction A → Program (Result Mail.Error A)
on_mailbox m w = ((m w.mailbox).0, record w { mailbox = (m w.mailbox).1 })

abbrev pub on_graph : {A : Type 0} → DagAction A → Program (Result Graph.Error A)
on_graph m w = ((m w.graph).0, record w { graph = (m w.graph).1 })

-- `rt.Close` or `rt.Stop`, `rt.Start` and `rt.Write` of the process, and `wt.Remove`. The log `closed` has
-- the processes whose runtime is closed; the error of a Close, which the callers drop, and whether the
-- process outlives its kill, are the runtime's.
abbrev pub close_worker : ℕ → Program (Unit {0})
close_worker pid w = (tt, record w { closed = w.closed ++ pid ∷ [] })

abbrev pub start_worker : ℕ → Program (Unit {0})
start_worker pid w = (tt, record w { started = w.started ++ pid ∷ [] })

abbrev pub tell_worker : ℕ → String → Program (Unit {0})
tell_worker pid text w = (tt, record w { told = w.told ++ (pid, text) ∷ [] })

abbrev pub remove_worktree : String → Program (Unit {0})
remove_worktree path w = (tt, record w { removed = w.removed ++ path ∷ [] })
