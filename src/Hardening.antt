-- ===== src/Hardening.antt =====
-- internal/hardening/hardening.go: the retry backoff, a worker's budget, and the cleanup of orphans.
-- Durations are nanoseconds. `RetryBackoff` computes in floating point; the powers of two and the
-- products below 2 ^ 53 are exact there, and from the cap on both read the cap.
pub mod Backoff
pub mod Orphans
mod Tests
use omni_orchestration.Prelude.{
  ℕ, suc, ◌+◌, ◌-◌, ◌*◌, ◌^◌, Bool, true, false, not, ◌&&◌, List, [], ◌∷◌, ltb, leb, ◌==◌,
  if◌then◌else◌, keep_where,
}
use omni_orchestration.Session.{Result, ok, err, Session, pure, ◌>>=◌, ◌>>◌, attempt, query}
use omni_orchestration.Dag.{
  get_ready_tasks, Task, Dag, Status, pending, active, failed, same_status, DagAction, db_error,
  update_task_status,
}
use omni_orchestration.Dag.Leases.{release_path_leases}

abbrev pub second : ℕ
second = 1000000000

abbrev pub base : ℕ
base = second

abbrev pub max_backoff : ℕ
max_backoff = 300 * second

abbrev pub smaller : ℕ → ℕ → ℕ
smaller a b = if ltb a b then a else b

-- For `retry` from 1 on.
unfoldable pub retry_backoff : ℕ → ℕ
retry_backoff retry = smaller (base * 2 ^ (retry - 1)) max_backoff

pub record WorkerBudget : Type 0 where
  pub max_retries : ℕ
  pub max_runtime : ℕ
  pub retry_count : ℕ
  pub start_time : ℕ

-- 0 stands for 0 and below.
abbrev pub new_worker_budget : ℕ → ℕ → WorkerBudget
new_worker_budget retries runtime = record {
  max_retries = if retries == 0 then 3 else retries;
  max_runtime = if runtime == 0 then 1800 * second else runtime;
  retry_count = 0;
  start_time = 0;
}

abbrev pub can_retry : WorkerBudget → Bool
can_retry b = ltb b.retry_count b.max_retries

unfoldable pub backoff : WorkerBudget → ℕ
unfolding retry_backoff
backoff b = retry_backoff (b.retry_count + 1)

abbrev pub record_retry : WorkerBudget → WorkerBudget
record_retry b = record b { retry_count = b.retry_count + 1 }

abbrev pub over_runtime : ℕ → WorkerBudget → Bool
over_runtime now b = ltb b.max_runtime (now - b.start_time)

-- `attempts` says whether the task store has an active attempt at each check.
unfoldable pub clean_each : Bool → List Task → DagAction ℕ
unfolding update_task_status release_path_leases
clean_each attempts [] = pure 0
clean_each attempts (t ∷ ts) =
    if same_status t.status active && not attempts
    then (do
      attempt (update_task_status t.id failed)
      attempt (release_path_leases t.id)
      n ← clean_each attempts ts
      pure (n + 1))
    else clean_each attempts ts

unfoldable pub orphan_cleanup : Bool → DagAction ℕ
unfolding clean_each get_ready_tasks
orphan_cleanup attempts = do tasks ← get_ready_tasks; clean_each attempts tasks
