-- ===== src/Orchestrator/Tests.antt =====
-- Concrete stores for internal/orchestrator/authority.go and recovery.go.
use omni_orchestration.Prelude.{
  ℕ, Bool, false, ◌==◌, IsIn, codes, ◌≡◌, refl, some, [], ◌∷◌, here, arith,
}
use omni_orchestration.Session.{ok, err}
use omni_orchestration.Taskstore.{Taskstore, pending, quiet}
use omni_orchestration.Taskstore.{Attempt}
use omni_orchestration.Taskstore.Work.{new_attempt, new_worker}
use omni_orchestration.Runtime.Attach.{Processes}
use omni_orchestration.Orchestrator.Recovery.{reconcile, ReconcileResult}
use omni_orchestration.Orchestrator.Recovery.Quiet.{is_lost}
use omni_orchestration.Orchestrator.Recovery.Again.{active_of, reconcile_again}
use omni_orchestration.Orchestrator.Authority.{check_attempt, stale_attempt_generation}
use omni_orchestration.Orchestrator.Authority.Stale.{check_attempt_stale}

-- The second attempt of task 1 is in the store.
abbrev store : Taskstore
store = record {
  runs = record { rows = []; last_id = 0 };
  tasks = record {
    rows = record { id = 1; run_id = 1; title = "task"; status = pending } ∷ [];
    last_id = 1;
  };
  attempts = record {
    rows =
        new_attempt 1 2 "T1-A2" "omni/T1" "HEAD" 1
        ∷ new_attempt 1 1 "T1-A1" "omni/T1" "HEAD" 2
        ∷ [];
    last_id = 2;
  };
  workers = record { rows = []; last_id = 0 };
  events = record { rows = []; last_id = 0 };
  event_acks = [];
  run_records = record { rows = []; last_id = 0 };
  tombstones = [];
  effect_keys = [];
}

check_attempt_stale_example :
    (check_attempt 1 1 1 (quiet store)).0 ≡ ok (err stale_attempt_generation)
check_attempt_stale_example =
    check_attempt_stale 1 1 1 store (new_attempt 1 2 "T1-A2" "omni/T1" "HEAD" 1) (here refl) refl
      (omega arith)

-- The worker of the second attempt has the process 42.
abbrev with_worker : Taskstore
with_worker = record store {
  workers = record {
    rows = new_worker 5000 1 "worker" "/trees/T1" "primary" 1 42 0 1 ∷ [];
    last_id = 1;
  };
}

abbrev alive : ℕ → Bool
alive pid = pid == 42

reconcile_again_example :
    (t' : Taskstore) × (r : ReconcileResult) × ((reconcile alive (quiet with_worker)).1 ≡ quiet t')
    × ((b : Attempt)
        → IsIn b (active_of t')
        → IsIn b (active_of with_worker) × (is_lost alive with_worker.workers.rows b ≡ false))
    × (reconcile alive (quiet t') ≡ (ok r, quiet t'))
    × (r.interrupted_count ≡ 0)
reconcile_again_example = reconcile_again alive with_worker

abbrev os : Processes
os = record {
  is_alive = alive;
  ps = λ pid. some (codes "Mon Jan 2 15:04:05 2006 worker");
  parse_time = λ words. some 5;
}
