-- ===== src/Dag/Circular.antt =====
-- internal/dag/dag.go: `DetectCircular`, which follows the column `depends_on_task_id`.
pub mod Chain
use omni_orchestration.Prelude.{ℕ, zero, suc, Bool, List, [], ◌∷◌, ◌==◌, any, if◌then◌else◌}
use omni_orchestration.Session.{Result, ok, err, Action, pure, raise, ◌>>=◌, attempt}
use omni_orchestration.Dag.{
  Task, Error, self_dependency, circular, cycle_found, too_deep, DagAction, get_task,
}

-- What the loop does with the task that it read.
abbrev pub follow_parent : Result Error Task → (ℕ → DagAction (Unit {0})) → DagAction (Unit {0})
follow_parent (err e) rest = pure tt
follow_parent (ok t) rest = if t.depends_on == 0 then pure tt else rest t.depends_on

-- The loop `for i := 0; i < 100; i++`, by the rounds left; `visited` holds the ids seen. A task that
-- cannot be read ends the chain, whatever the error.
unfoldable pub follow : ℕ → ℕ → ℕ → List ℕ → DagAction (Unit {0})
unfolding get_task
follow zero from current visited = raise too_deep
follow (suc rounds) from current visited =
    let rest = λ (next : ℕ). follow rounds from next (current ∷ visited) in
    if current == from
    then raise circular
    else if any (λ v. v == current) visited
    then raise cycle_found
    else do found ← attempt (get_task current); follow_parent found rest

unfoldable pub detect_circular : ℕ → ℕ → DagAction (Unit {0})
unfolding follow
detect_circular from to = if from == to then raise self_dependency else follow 100 from to []
