-- ===== src/Dag/Tests.antt =====
-- Concrete graphs for internal/dag/dag.go: what the operations do to them.
use omni_orchestration.Prelude.{
  ℕ, ◌≤◌, ◌≡◌, refl, true, false, List, [], ◌∷◌, IsIn, here, there, arith,
}
use omni_orchestration.Session.{ok}
use omni_orchestration.Dag.{
  Status, pending, blocked, active, completed, failed, Task, Dependency, Dag, quiet,
}
use omni_orchestration.Dag.Leases.{acquire_path_lease}
use omni_orchestration.Dag.Leases.Exclusive.{IsExclusive, acquire_path_lease_ignores_fault}
use omni_orchestration.Dag.Leases.Refines.{
  Request, acquire, release, serve, serve_store, locks_of, serve_store_refines,
}
use omni_orchestration.Dag.Create.{create_task_full}
use omni_orchestration.Dag.Create.Created.{IsNumbered, create_task_full-IsGuarded}
use omni_orchestration.Dag.Unblock.{parent_rows}
use omni_orchestration.Dag.Unblock.Settle.{IsReady, IsFinished, HasFailedParent}
use omni_orchestration.Dag.Unblock.Verdict.{count-IsFinished, count-IsReady}
use omni_orchestration.Dag.Unblock.Guard.{IsGuarded}
use omni_orchestration.Dag.Unblock.Dependents.{
  NotBlocked, after_unblock, unblock_dependents-IsGuarded, unblock_dependents-NotBlocked,
}
use omni_orchestration.Dag.Circular.{detect_circular}
use omni_orchestration.Dag.Circular.Chain.{Reaches, up, detect_circular_sound}

abbrev task : ℕ → Status → ℕ → Task
task id st on = record {
  id = id;
  run_id = 1;
  title = "t";
  status = st;
  command = "make";
  validator = "";
  owned_paths = "";
  depends_on = on;
  repo = "";
}

abbrev edge : ℕ → ℕ → Dependency
edge child parent = record { task_id = child; depends_on_id = parent }

-- Task 4 waits for two completed parents, task 5 for a completed and a failed one, task 6 for one
-- that is still active.
abbrev graph : Dag
graph = record {
  tasks =
      task 1 completed 0
      ∷ task 2 failed 0
      ∷ task 3 active 0
      ∷ task 4 blocked 1
      ∷ task 5 blocked 1
      ∷ task 6 blocked 3
      ∷ [];
  last_id = 6;
  dependencies = edge 4 1 ∷ edge 5 1 ∷ edge 5 2 ∷ edge 6 3 ∷ [];
  leases = record { owner = 3; path = "src" } ∷ record { owner = 1; path = "docs" } ∷ [];
}

graph-IsExclusive : IsExclusive graph.leases
graph-IsExclusive = (refl, (refl, tt))

-- Task 5 waits for a path that task 4 takes, and takes another that task 3 gives back.
abbrev requests : List Request
requests = acquire 4 "test" ∷ acquire 5 "test" ∷ release 3 ∷ acquire 5 "src" ∷ []

requests-answers : (serve requests (locks_of graph)).0 ≡ true ∷ false ∷ true ∷ []
requests-answers = refl

serve_store_refines_example :
    ((serve_store requests (quiet graph)).0 ≡ ok (serve requests (locks_of graph)).0)
    × ((serve_store requests (quiet graph)).1 ≡ quiet (serve_store requests (quiet graph)).1.tables)
    × (locks_of (serve_store requests (quiet graph)).1.tables ≡ (serve requests (locks_of graph)).1)
    × IsExclusive (serve_store requests (quiet graph)).1.tables.leases
serve_store_refines_example = serve_store_refines requests graph graph-IsExclusive

acquire_path_lease_ignores_fault_example :
    acquire_path_lease 4 "src" (record { tables = graph; faults = true ∷ [] })
    ≡ (ok true, quiet graph)
acquire_path_lease_ignores_fault_example =
    acquire_path_lease_ignores_fault 4 3 "src" graph refl (λ e. ground arith)

four-IsReady : IsReady 4 graph
unfolding parent_rows
four-IsReady = count-IsReady 4 graph (count-IsFinished 4 graph refl) refl

five-IsFinished : IsFinished 5 graph
unfolding parent_rows
five-IsFinished = count-IsFinished 5 graph refl

five-HasFailedParent : HasFailedParent 5 graph
five-HasFailedParent = (
  record {
    edge = edge 5 2;
    task = task 2 failed 0;
    edge_in = there (there (here refl));
    task_in = there (here refl);
    of_child = refl;
    is_parent = refl;
  },
  refl,
)

unblock_dependents-NotBlocked_example : NotBlocked 4 (after_unblock 1 graph)
unblock_dependents-NotBlocked_example =
    unblock_dependents-NotBlocked 1 graph (edge 4 1) (here refl) refl four-IsReady

-- Task 2 is pending behind a completed parent, and task 3 still blocked.
abbrev chain : Dag
chain = record {
  tasks = task 1 completed 0 ∷ task 2 pending 1 ∷ task 3 blocked 1 ∷ [];
  last_id = 3;
  dependencies = edge 2 1 ∷ edge 3 1 ∷ [];
  leases = [];
}

two-IsReady : IsReady 2 chain
unfolding parent_rows
two-IsReady = count-IsReady 2 chain (count-IsFinished 2 chain refl) refl

chain-IsGuarded : IsGuarded chain
chain-IsGuarded t (here e) p = absurd (ground arith)
chain-IsGuarded t (there (here e)) p = rw e two-IsReady
chain-IsGuarded t (there (there (here e))) p = absurd (ground arith)
chain-IsGuarded t (there (there (there m))) p = elim m [ ]

chain-IsNumbered : IsNumbered chain
chain-IsNumbered = record { tasks_below = below; edges_below = edges }
  where
    below : (t : Task) → IsIn t chain.tasks → t.id ≤ 3
    below t (here e) = ground arith
    below t (there (here e)) = ground arith
    below t (there (there (here e))) = ground arith
    below t (there (there (there m))) = elim m [ ]

    edges : (e : Dependency) → IsIn e chain.dependencies → (e.task_id ≤ 3) × (e.depends_on_id ≤ 3)
    edges e (here q) = ground arith
    edges e (there (here q)) = ground arith
    edges e (there (there m)) = elim m [ ]

unblock_dependents-IsGuarded_example : IsGuarded (after_unblock 1 chain)
unblock_dependents-IsGuarded_example = unblock_dependents-IsGuarded 1 chain chain-IsGuarded

create_task_full-IsGuarded_example :
    IsGuarded (create_task_full 1 "t" 3 "" "make" "" "" (quiet chain)).1.tables
create_task_full-IsGuarded_example =
    create_task_full-IsGuarded 1 3 "t" "" "make" "" "" chain chain-IsNumbered chain-IsGuarded

detect_circular_sound_example : ¬ Reaches chain 2 3
unfolding detect_circular
detect_circular_sound_example = detect_circular_sound 3 2 chain refl

one-Reaches_three : ¬ Reaches chain 1 3
one-Reaches_three (Reaches.here e) = absurd (omega arith)
one-Reaches_three (up e r) = absurd (ground arith)

two-Reaches_three : ¬ Reaches chain 2 3
two-Reaches_three (Reaches.here e) = absurd (omega arith)
two-Reaches_three (up {b = b} e r) =
    let one : b ≡ 1 = ground arith in one-Reaches_three (rw one at r)

-- Task 2 already waits for task 3 through an edge without the single-parent column.
abbrev looped : Dag
looped = record chain {
  tasks = task 2 blocked 0 ∷ task 3 blocked 0 ∷ [];
  dependencies = edge 2 3 ∷ [];
}

-- The edges of `task_dependencies` close a cycle that is not reported.
detect_circular_ignores_edges : detect_circular 3 2 (quiet looped) ≡ (ok tt, quiet looped)
unfolding detect_circular
detect_circular_ignores_edges = refl
