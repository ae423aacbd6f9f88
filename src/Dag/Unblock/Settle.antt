-- ===== src/Dag/Unblock/Settle.antt =====
-- What `UnblockIfReady` does to a child, by the state of its parents.
use omni_orchestration.Prelude.{
  ℕ, ◌<◌, ◌≡◌, ◌≢◌, refl, ◌⊎◌, inl, inr, true, false, [], ◌∷◌, ltb, count_where, update_where,
  arith,
}
use omni_orchestration.Session.{ok}
use omni_orchestration.Dag.{
  Status, pending, blocked, completed, failed, Dag, in_state, with_status, quiet,
}
use omni_orchestration.Dag.Unblock.{unblock_if_ready, parent_rows, unfinished, is_failed}
use omni_orchestration.Dag.Unblock.Parents.{Parent, Parent-pos, parent_rows-zero}

abbrev pub ParentOf : ℕ → Dag → Type 0
ParentOf child d = Parent child d.tasks d.dependencies

-- Every parent has completed.
abbrev pub IsReady : ℕ → Dag → Type 0
IsReady child d = (r : ParentOf child d) → r.task.status ≡ completed

-- Every parent has completed or failed.
abbrev pub IsFinished : ℕ → Dag → Type 0
IsFinished child d = (r : ParentOf child d) → (r.task.status ≡ completed) ⊎ (r.task.status ≡ failed)

-- Some parent is pending, blocked or active.
abbrev pub IsWaiting : ℕ → Dag → Type 0
IsWaiting child d = (r : ParentOf child d) × (r.task.status ≢ completed) × (r.task.status ≢ failed)

abbrev pub HasFailedParent : ℕ → Dag → Type 0
HasFailedParent child d = (r : ParentOf child d) × (r.task.status ≡ failed)

-- The tables in which the rows of `child` with status `from` have status `to`.
abbrev pub moved : Status → Status → ℕ → Dag → Dag
moved from to child d = record d {
  tasks = update_where (in_state child from) (with_status to) d.tasks;
}

abbrev pub rows_in : Status → ℕ → Dag → ℕ
rows_in st child d = count_where (in_state child st) d.tasks

finished_status : (st : Status) → (st ≡ completed) ⊎ (st ≡ failed) → unfinished st ≡ false
finished_status st (inl e) = rw e
finished_status st (inr e) = rw e

unfinished_status : (st : Status) → st ≢ completed → st ≢ failed → unfinished st ≡ true
unfinished_status completed h k = absurd (h refl)
unfinished_status failed h k = absurd (k refl)
unfinished_status _ h k = refl

module _ (child : ℕ) (d : Dag) where
  pub no_unfinished : IsFinished child d → parent_rows unfinished child d.tasks d.dependencies ≡ 0
  no_unfinished h =
      parent_rows-zero unfinished child d.tasks d.dependencies
        (λ r. finished_status r.task.status (h r))

  pub some_unfinished : IsWaiting child d → 0 < parent_rows unfinished child d.tasks d.dependencies
  some_unfinished (r, h, k) =
      Parent-pos unfinished child d.tasks d.dependencies r (unfinished_status r.task.status h k)

  pub no_failed : IsReady child d → parent_rows is_failed child d.tasks d.dependencies ≡ 0
  no_failed h = parent_rows-zero is_failed child d.tasks d.dependencies (λ r. rw (h r))

  pub some_failed : HasFailedParent child d → 0 < parent_rows is_failed child d.tasks d.dependencies
  some_failed (r, h) = Parent-pos is_failed child d.tasks d.dependencies r (rw h)

-- On a session without faults, `UnblockIfReady` moves a child whose parents have all completed from
-- blocked to pending, says whether there was such a row, and changes nothing else.
pub unblock_if_ready_unblocks :
    (child : ℕ) (d : Dag)
    → IsReady child d
    → unblock_if_ready child (quiet d)
      ≡ (ok (ltb 0 (rows_in blocked child d)), quiet (moved blocked pending child d))
unfolding unblock_if_ready
unblock_if_ready_unblocks child d h =
    ground (arith, no_unfinished child d (λ r. inl (h r)), no_failed child d h)

-- On a session without faults, `UnblockIfReady` moves a child from blocked to failed when each of its
-- parents has completed or failed and one has failed; it returns false and changes nothing else.
pub unblock_if_ready_fails :
    (child : ℕ) (d : Dag)
    → IsFinished child d
    → HasFailedParent child d
    → unblock_if_ready child (quiet d) ≡ (ok false, quiet (moved blocked failed child d))
unfolding unblock_if_ready
unblock_if_ready_fails child d h k = ground (arith, no_unfinished child d h, some_failed child d k)

-- On a session without faults, `UnblockIfReady` returns false and changes nothing while some parent
-- of the child is pending, blocked or active.
pub unblock_if_ready_waits :
    (child : ℕ) (d : Dag)
    → IsWaiting child d
    → unblock_if_ready child (quiet d) ≡ (ok false, quiet d)
unfolding unblock_if_ready
unblock_if_ready_waits child d h = ground (arith, some_unfinished child d h)

-- When the driver fails to count the failed parents, and the statements before and after that count
-- run, `UnblockIfReady` moves the child from blocked to pending although a parent has failed.
pub unblock_if_ready_ignores_fault :
    (child : ℕ) (d : Dag)
    → IsFinished child d
    → HasFailedParent child d
    → unblock_if_ready child (record { tables = d; faults = false ∷ true ∷ [] })
      ≡ (ok (ltb 0 (rows_in blocked child d)), quiet (moved blocked pending child d))
unfolding unblock_if_ready
unblock_if_ready_ignores_fault child d h k = ground (arith, no_unfinished child d h)
