-- ===== src/Lib.antt =====
-- omni_orchestration runs coding tasks through worker processes under a coordinator. This library
-- models the part of it that decides: which task may start, who may touch a path, who gets a message,
-- which provider may be used, which decision is heard, and how a run goes on after it.
--
-- The parts, and the files that model them:
--   internal/dag/dag.go (`dag.Store`): Dag.antt holds the tables as the record `Dag` and the reads and
--     updates that the methods share; Dag/Leases.antt, Dag/Create.antt, Dag/Unblock.antt and
--     Dag/Circular.antt hold the methods, under the names of the source in snake case.
--   internal/mailbox/mailbox.go (`mailbox.Store`, `mailbox.Consumer`): Mailbox.antt is the table and its
--     methods, Mailbox/Consumer.antt is `ProcessOne`.
--   internal/policy/policy.go: Policy.antt.
--   internal/taskstore/store.go (`taskstore.Store`): Taskstore.antt holds the tables; its children Work,
--     Events, Effects and Records hold the methods.
--   internal/orchestrator/authority.go: Orchestrator/Authority.antt, with the check in `createAttempt` of
--     internal/orchestrator/orchestrator.go.
--   internal/orchestrator/orchestrator.go (`Run`): Orchestrator/World.antt is what a run works on,
--     Orchestrator/Launch.antt is `Run` up to its loop, Orchestrator/Run.antt the loop round by round,
--     Orchestrator/Attempts.antt `createAttempt`, Orchestrator/Observe.antt `observeAndWait` and the
--     wakes, Orchestrator/Terminal.antt `finalizeTerminal`, and Orchestrator/Format.antt the texts.
--   internal/orchestrator/recovery.go: Orchestrator/Recovery.antt is `Reconcile`, Orchestrator/Resume.antt
--     `ResumeWithRecovery` and `ResumeRun`.
--   internal/runtime/runtime.go (`runtime.Runtime`): Runtime.antt, with `Attach` in Runtime/Attach.antt and
--     `readOutput` in Runtime/Lines.antt.
--   internal/worktree/worktree.go (`worktree.Manager`): Worktree.antt, with Go's path functions in
--     Worktree/Paths.antt; internal/supervisor/recovery.go, which commits through it: Worktree/Recover.antt.
--   internal/supervisor/supervisor.go: Supervisor.antt, the loop of `Observe` over what it receives.
--   internal/coordinator/coordinator.go and runtime.go, and `normalizeDecision` of
--     codex_coordinator.go: Coordinator.antt. extract.go, with `extractJSON` of codex_coordinator.go:
--     Coordinator/Extract.antt.
--   internal/hardening/hardening.go: Hardening.antt.
--   internal/daemon/tracker.go (`daemon.Tracker`): Tracker.antt, on the session of the graph,
--     with `ResumeActiveTasks` in Tracker/Resume.antt.
--   Session.antt is what the stores have in common: a session with SQLite, in which each statement may
--     fail. A store's method is a function from a session to a result and a session.
--   Prelude.antt and its children are the shared helpers.
-- The daemon's tracker starts the ready tasks of `dag.Store` under path leases, runs the orchestrator on
-- each, and settles the task and its children by the decisions that come back. The orchestrator asks the
-- policy and checks the authority tuple, which is read from the task store, before it starts a worker; it
-- asks the coordinator through `Wake`, hears from the supervisor how the worker fares, and records each
-- decision's effect key in the task store. Processes hand each other messages through the mailbox.
--
-- Numbers: ids, counts and times are natural numbers; the ids that SQLite hands out start at 1, and 0 in
-- the column `depends_on_task_id` is a task without a single parent. Text is text. A table is the list of
-- its rows in the order of their ids. A mutex that is held for a whole method makes the method one action;
-- `Dequeue` takes what other processes do between its two statements as an argument, since the mutex does
-- not reach them. The methods of the graph that hold it for a part of their statements only, such as
-- `UnblockIfReady`, `UnblockDependents` and `DetectCircular`, are modelled with no other writer in between.
-- Bounds: the loop of `DetectCircular` has 100 rounds, as in the source, and a chain with fewer than 100
-- links always fits. The loop of `Run` has fuel for one round more than the attempts allowed: each round
-- but the last takes the next number, and a number above the bound ends it. The digits of a number, in Orchestrator/Format.antt, have the number's
-- successor as fuel, and any more makes no difference. No other loop runs on fuel.
-- `RetryBackoff` is computed in exact arithmetic; the floating-point products below its cap are exact.
--
-- Not modelled: the driver and the SQL text (a statement is the function on rows that the text says), the
-- creation stamps, averages in floating point, the router of the coordinator and the processes of its
-- providers, the daemon's process, observability, the benchmark, the command line, and what processes,
-- git and the file system themselves do, which is an argument where a part calls them.
pub mod Prelude
pub mod Session
pub mod Dag
pub mod Mailbox
pub mod Policy
pub mod Taskstore
pub mod Runtime
pub mod Worktree
pub mod Orchestrator
pub mod Supervisor
pub mod Coordinator
pub mod Hardening
pub mod Tracker
