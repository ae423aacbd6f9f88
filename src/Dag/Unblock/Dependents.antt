-- ===== src/Dag/Unblock/Dependents.antt =====
-- internal/dag/dag.go, `UnblockDependents`: the children of a task, settled in turn.
use omni_orchestration.Prelude.{
  ℕ, ◌+◌, ◌≡◌, ◌≢◌, refl, ◌⊎◌, inl, inr, true, false, ◌∙◌, sym, ◌==◌, if◌then◌else◌, arith,
  Bool-cases, IsIn, here, there, update_where-IsIn, IsIn-keep_where, ap, List, [], ◌∷◌,
}
use omni_orchestration.Session.{ok}
use omni_orchestration.Dag.{
  quiet, Status, pending, blocked, failed, completed, Task, Dependency, Dag, in_state, with_status,
}
use omni_orchestration.Dag.Unblock.{unblock_each, unblock_dependents, children_of, as_count}
use omni_orchestration.Dag.Unblock.Settle.{IsReady, moved}
use omni_orchestration.Dag.Unblock.Verdict.{Settled, unblocks, fails, waits, settled}
use omni_orchestration.Dag.Unblock.Guard.{IsGuarded, Settled-IsGuarded, Settled-IsReady}

-- The children of a list, settled in turn.
pub data SettledAll : List ℕ → Dag → Dag → Type 0 where
  nil : {d : Dag} → SettledAll [] d d
  cons :
      {c : ℕ} {cs : List ℕ} {d e f : Dag}
      → Settled c d e
      → SettledAll cs e f
      → SettledAll (c ∷ cs) d f

each_settles :
    (cs : List ℕ) (d : Dag)
    → (d' : Dag) × (n : ℕ) × (unblock_each cs (quiet d) ≡ (ok n, quiet d')) × SettledAll cs d d'
unfolding unblock_each
each_settles [] d = (d, 0, refl, nil)
each_settles (c ∷ cs) d =
    let (e, b, p, st) = settled c d in
    let (f, n, q, rest) = each_settles cs e in (f, as_count (ok b) + n, rw (p, q), cons st rest)

SettledAll-IsGuarded : {cs : List ℕ} {d e : Dag} → SettledAll cs d e → IsGuarded d → IsGuarded e
SettledAll-IsGuarded nil g = g
SettledAll-IsGuarded (cons {c = c} {d = d} st rest) g =
    SettledAll-IsGuarded rest (Settled-IsGuarded c d g st)

-- No row of the task is blocked.
abbrev pub NotBlocked : ℕ → Dag → Type 0
NotBlocked c d = (t : Task) → IsIn t d.tasks → t.id ≡ c → t.status ≢ blocked

-- A move out of `blocked` blocks nothing, and frees the child's own rows.
moved-NotBlocked :
    (to : Status) (child c : ℕ) (d : Dag)
    → to ≢ blocked
    → (c ≡ child) ⊎ NotBlocked c d
    → NotBlocked c (moved blocked to child d)
moved-NotBlocked to child c d h k t m e =
    let (b, n, q) = update_where-IsIn (in_state child blocked) (with_status to) t d.tasks m in
    elim (Bool-cases (in_state child blocked b)) [
      | inl hit ↦
          let now : t ≡ with_status to b = q ∙ rw hit in
          λ x. h (sym (ap (λ (r : Task). r.status) now) ∙ x)
      | inr miss ↦
          let now : t ≡ b = q ∙ rw miss in
          elim k [
            | inl own ↦ λ x. absurd (ground arith)
            | inr free ↦ λ x.
                free b n (sym (ap (λ (r : Task). r.id) now) ∙ e)
                  (sym (ap (λ (r : Task). r.status) now) ∙ x)
          ]
    ]

Settled-NotBlocked :
    (child c : ℕ) {d d' : Dag} → Settled child d d' → NotBlocked c d → NotBlocked c d'
Settled-NotBlocked child c {d} (unblocks h e) k =
    rw e (moved-NotBlocked pending child c d (λ x. ground arith) (inr k))
Settled-NotBlocked child c {d} (fails e) k =
    rw e (moved-NotBlocked failed child c d (λ x. ground arith) (inr k))
Settled-NotBlocked child c {d} (waits h e) k = rw e k

-- A ready child is not left blocked by its own check.
ready-NotBlocked : (c : ℕ) {d d' : Dag} → Settled c d d' → IsReady c d → NotBlocked c d'
ready-NotBlocked c {d} (unblocks h e) k =
    rw e (moved-NotBlocked pending c c d (λ x. ground arith) (inl refl))
ready-NotBlocked c {d} (fails e) k =
    rw e (moved-NotBlocked failed c c d (λ x. ground arith) (inl refl))
ready-NotBlocked c {d} (waits (r, a, b) e) k = absurd (a (k r))

pub SettledAll-keeps :
    (c : ℕ) {cs : List ℕ} {d e : Dag} → SettledAll cs d e → NotBlocked c d → NotBlocked c e
SettledAll-keeps c nil k = k
SettledAll-keeps c (cons {c = x} st rest) k = SettledAll-keeps c rest (Settled-NotBlocked x c st k)

SettledAll-NotBlocked :
    (c : ℕ) {cs : List ℕ} {d e : Dag} → SettledAll cs d e → IsIn c cs → IsReady c d → NotBlocked c e
SettledAll-NotBlocked c nil m k = elim m [ ]
SettledAll-NotBlocked c {d = d0} (cons {c = x} st rest) (here q) k =
    SettledAll-keeps c rest (rw q (ready-NotBlocked x st (rw (← q) k)))
SettledAll-NotBlocked c (cons {c = x} st rest) (there m) k =
    SettledAll-NotBlocked c rest m (Settled-IsReady x c st k)

IsIn-children_of :
    (parent : ℕ) (e : Dependency) (es : List Dependency)
    → IsIn e es
    → e.depends_on_id ≡ parent
    → IsIn e.task_id (children_of parent es)
unfolding children_of
IsIn-children_of parent e [] m h = elim m [ ]
IsIn-children_of parent e (x ∷ es) (here q) h =
    let k : (x.depends_on_id == parent) ≡ true = ground arith in
    rw k (here (ap (λ (r : Dependency). r.task_id) q))
IsIn-children_of parent e (x ∷ es) (there m) h = elim (Bool-cases (x.depends_on_id == parent)) [
  | inl k ↦ rw k (elim (Bool-cases (e.task_id == x.task_id)) [
    | inl same ↦ here (ground arith)
    | inr other ↦ there (
        IsIn-keep_where (λ c. if c == x.task_id then false else true) e.task_id _
          (IsIn-children_of parent e es m h) (rw other))
  ])
  | inr k ↦ rw k (IsIn-children_of parent e es m h)
]

-- Every row of the task is completed.
abbrev pub IsCompleted : ℕ → Dag → Type 0
IsCompleted c d = (t : Task) → IsIn t d.tasks → t.id ≡ c → t.status ≡ completed

moved-IsCompleted :
    (to : Status) (child c : ℕ) (d : Dag)
    → IsCompleted c d
    → IsCompleted c (moved blocked to child d)
moved-IsCompleted to child c d k t m e =
    let (b, n, q) = update_where-IsIn (in_state child blocked) (with_status to) t d.tasks m in
    elim (Bool-cases (in_state child blocked b)) [
      | inl hit ↦
          let now : t ≡ with_status to b = q ∙ rw hit in
          let done = k b n (sym (ap (λ (r : Task). r.id) now) ∙ e) in absurd (ground arith)
      | inr miss ↦
          let now : t ≡ b = q ∙ rw miss in
          ap (λ (r : Task). r.status) now ∙ k b n (sym (ap (λ (r : Task). r.id) now) ∙ e)
    ]

SettledAll-IsCompleted :
    (c : ℕ) {cs : List ℕ} {d e : Dag} → SettledAll cs d e → IsCompleted c d → IsCompleted c e
SettledAll-IsCompleted c nil k = k
SettledAll-IsCompleted c (cons {c = x} {d = d} (unblocks h e) rest) k =
    SettledAll-IsCompleted c rest (rw e (moved-IsCompleted pending x c d k))
SettledAll-IsCompleted c (cons {c = x} {d = d} (fails e) rest) k =
    SettledAll-IsCompleted c rest (rw e (moved-IsCompleted failed x c d k))
SettledAll-IsCompleted c (cons (waits h e) rest) k = SettledAll-IsCompleted c rest (rw e k)

-- The tables that `UnblockDependents` leaves behind on a session without faults.
abbrev pub after_unblock : ℕ → Dag → Dag
after_unblock parent d = (unblock_dependents parent (quiet d)).1.tables

pub dependents_settle :
    (parent : ℕ) (d : Dag)
    → SettledAll (children_of parent d.dependencies) d (after_unblock parent d)
unfolding unblock_dependents
dependents_settle parent d =
    let (e, n, q, st) = each_settles (children_of parent d.dependencies) d in rw q st

-- If every pending task has only completed parents, then so it is after `UnblockDependents` on a
-- session without faults: no child starts before all of its parents are done.
pub unblock_dependents-IsGuarded :
    (parent : ℕ) (d : Dag) → IsGuarded d → IsGuarded (after_unblock parent d)
unblock_dependents-IsGuarded parent d g = SettledAll-IsGuarded (dependents_settle parent d) g

-- After `UnblockDependents` on a session without faults, a task with an edge to the given parent
-- whose parents had all completed before the call is blocked no more.
pub unblock_dependents-NotBlocked :
    (parent : ℕ) (d : Dag) (e : Dependency)
    → IsIn e d.dependencies
    → e.depends_on_id ≡ parent
    → IsReady e.task_id d
    → NotBlocked e.task_id (after_unblock parent d)
unblock_dependents-NotBlocked parent d e m h k =
    SettledAll-NotBlocked e.task_id (dependents_settle parent d)
      (IsIn-children_of parent e d.dependencies m h) k

-- On a session without faults, `UnblockDependents` leaves a completed task completed.
pub unblock_dependents-IsCompleted :
    (parent c : ℕ) (d : Dag) → IsCompleted c d → IsCompleted c (after_unblock parent d)
unblock_dependents-IsCompleted parent c d k =
    SettledAll-IsCompleted c (dependents_settle parent d) k

-- A session without faults stays one.
pub unblock_dependents-quiet :
    (parent : ℕ) (d : Dag)
    → (n : ℕ) × (unblock_dependents parent (quiet d) ≡ (ok n, quiet (after_unblock parent d)))
unfolding unblock_dependents
unblock_dependents-quiet parent d =
    let (e, n, q, st) = each_settles (children_of parent d.dependencies) d in (n, rw q refl)
