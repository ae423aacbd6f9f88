-- ===== src/Hardening/Tests.antt =====
-- Concrete budgets and graphs for internal/hardening/hardening.go.
use omni_orchestration.Prelude.{◌≡◌, false, [], ◌∷◌}
use omni_orchestration.Session.{ok}
use omni_orchestration.Dag.{Dag, active, quiet}
use omni_orchestration.Hardening.{orphan_cleanup}
use omni_orchestration.Hardening.Orphans.{orphan_cleanup_idle}

-- An active task without any active attempt.
abbrev graph : Dag
graph = record {
  tasks =
      record {
        id = 1;
        run_id = 1;
        title = "t";
        status = active;
        command = "";
        validator = "";
        owned_paths = "";
        depends_on = 0;
        repo = "";
      }
      ∷ [];
  last_id = 1;
  dependencies = [];
  leases = record { owner = 1; path = "src" } ∷ [];
}

orphan_cleanup_idle_example : orphan_cleanup false (quiet graph) ≡ (ok 0, quiet graph)
orphan_cleanup_idle_example = orphan_cleanup_idle false graph
