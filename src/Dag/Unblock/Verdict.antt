-- ===== src/Dag/Unblock/Verdict.antt =====
-- internal/dag/dag.go, `UnblockIfReady`: the cases of a child, by the state of its parents.
use omni_orchestration.Prelude.{
  ℕ, ◌≡◌, refl, ◌⊎◌, inl, inr, Bool, true, false, ltb, arith, Bool-cases,
}
use omni_orchestration.Session.{ok}
use omni_orchestration.Dag.{quiet, Status, pending, blocked, completed, failed, Dag}
use omni_orchestration.Dag.Unblock.{unblock_if_ready, parent_rows, unfinished, is_failed}
use omni_orchestration.Dag.Unblock.Parents.{parent_rows-pos, Parent-pos}
use omni_orchestration.Dag.Unblock.Settle.{
  ParentOf, IsReady, IsFinished, IsWaiting, HasFailedParent, moved, unblock_if_ready_unblocks,
  unblock_if_ready_fails, unblock_if_ready_waits,
}

-- The states that a child's parents can be in.
pub data Verdict (child : ℕ) (d : Dag) : Type 0 where
  is_ready : IsReady child d → Verdict child d
  is_doomed : IsFinished child d → HasFailedParent child d → Verdict child d
  is_waiting : IsWaiting child d → Verdict child d

pub count-IsFinished :
    (child : ℕ) (d : Dag)
    → ltb 0 (parent_rows unfinished child d.tasks d.dependencies) ≡ false
    → IsFinished child d
count-IsFinished child d h r = by_status r.task.status refl
  where
    by_status :
        (st : Status) → r.task.status ≡ st → (r.task.status ≡ completed) ⊎ (r.task.status ≡ failed)
    by_status completed e = inl e
    by_status failed e = inr e
    by_status _ e =
        absurd (ground (arith, Parent-pos unfinished child d.tasks d.dependencies r (rw e)))

pub count-IsReady :
    (child : ℕ) (d : Dag)
    → IsFinished child d
    → ltb 0 (parent_rows is_failed child d.tasks d.dependencies) ≡ false
    → IsReady child d
count-IsReady child d h k r = elim (h r) [
  | inl done ↦ done
  | inr bad ↦ absurd (ground (arith, Parent-pos is_failed child d.tasks d.dependencies r (rw bad)))
]

status-IsWaiting :
    (child : ℕ) (d : Dag) (r : ParentOf child d)
    → unfinished r.task.status ≡ true
    → IsWaiting child d
status-IsWaiting child d r h = (r, λ e. ground arith, λ e. ground arith)

failed_of_status : (st : Status) → is_failed st ≡ true → st ≡ failed
failed_of_status st h = ground arith

pub verdict : (child : ℕ) (d : Dag) → Verdict child d
verdict child d = elim (Bool-cases (ltb 0 (parent_rows unfinished child d.tasks d.dependencies))) [
  | inl some_left ↦
      let (r, q) = parent_rows-pos unfinished child d.tasks d.dependencies (ground arith) in
      is_waiting (status-IsWaiting child d r q)
  | inr none_left ↦
      let fin = count-IsFinished child d none_left in
      elim (Bool-cases (ltb 0 (parent_rows is_failed child d.tasks d.dependencies))) [
        | inl bad ↦
            let (r, q) = parent_rows-pos is_failed child d.tasks d.dependencies (ground arith) in
            is_doomed fin (r, failed_of_status r.task.status q)
        | inr good ↦ is_ready (count-IsReady child d fin good)
      ]
]

-- What one child's check does to the tables.
pub data Settled (child : ℕ) (d : Dag) (d' : Dag) : Type 0 where
  unblocks : IsReady child d → d' ≡ moved blocked pending child d → Settled child d d'
  fails : d' ≡ moved blocked failed child d → Settled child d d'
  waits : IsWaiting child d → d' ≡ d → Settled child d d'

pub settled :
    (child : ℕ) (d : Dag)
    → (d' : Dag) × (b : Bool) × (unblock_if_ready child (quiet d) ≡ (ok b, quiet d'))
      × Settled child d d'
settled child d = elim (verdict child d) [
  | is_ready h ↦
      (moved blocked pending child d, _, unblock_if_ready_unblocks child d h, unblocks h refl)
  | is_doomed h k ↦
      (moved blocked failed child d, _, unblock_if_ready_fails child d h k, fails refl)
  | is_waiting h ↦ (d, _, unblock_if_ready_waits child d h, waits h refl)
]
