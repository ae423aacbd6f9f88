-- ===== src/Tracker/Resume/Freed.antt =====
-- internal/daemon/tracker.go: what `ResumeActiveTasks` does to the tasks that are blocked.
use omni_orchestration.Prelude.{
  ℕ, ◌≡◌, ◌≢◌, refl, true, false, some, List, [], ◌∷◌, ◌==◌, arith, inl, inr, Bool-cases,
  Option-cases, IsIn, here, there, keep_where, IsIn-keep_where,
}
use omni_orchestration.Session.{Result, ok, err}
use omni_orchestration.Dag.{
  Task, Dependency, Dag, Error, no_rows, blocked, same_status, get_task, task_by_id,
  get_ready_tasks, get_blocked_tasks, quiet,
}
use omni_orchestration.Dag.Unblock.Dependents.{
  NotBlocked, after_unblock, unblock_dependents-NotBlocked, unblock_dependents-quiet,
}
use omni_orchestration.Dag.Unblock.Due.{IsDue, unblock_dependents-IsDue, unblock_dependents_keeps}
use omni_orchestration.Tracker.Resume.{is_completed, resume_task, resume_each, resume_active_tasks}

row_found :
    (id : ℕ) (ts : List Task)
    → (p : Task) × IsIn p ts × (p.id ≡ id)
    → (t : Task) × (task_by_id id ts ≡ some t) × IsIn t ts × (t.id ≡ id)
row_found id [] (p, m, e) = elim m [ ]
row_found id (x ∷ ts) (p, m, e) = elim (Bool-cases (x.id == id)) [
  | inl hit ↦ (x, rw hit refl, here refl, ground arith)
  | inr miss ↦ elim m [
    | here q ↦ absurd (ground (arith, e, q))
    | there n ↦
        let (t, found, k, same) = row_found id ts (p, n, e) in (t, rw miss found, there k, same)
  ]
]

-- The parent of a task that is due is read as completed.
parent_read :
    (e : Dependency) (d : Dag)
    → IsDue e d
    → (t : Task) × (get_task e.depends_on_id (quiet d) ≡ (ok t, quiet d))
      × (is_completed (ok t) ≡ true)
unfolding get_task
parent_read e d k =
    let (t, found, m, same) = row_found e.depends_on_id d.tasks k.parent in
    let done = k.ready (record {
      edge = e;
      task = t;
      edge_in = k.edge;
      task_in = m;
      of_child = refl;
      is_parent = same;
    }) in
    (t, rw found refl, rw done refl)

any_read : (id : ℕ) (d : Dag) → (r : Result Error Task) × (get_task id (quiet d) ≡ (r, quiet d))
unfolding get_task
any_read id d = elim (Option-cases (task_by_id id d.tasks)) [
  | inl gone ↦ (err no_rows, rw gone refl)
  | inr (t, found) ↦ (ok t, rw found refl)
]

-- What an action of the loop does to a task that is due.
abbrev Keeps : Dependency → Dag → Dag → Type 0
Keeps e d d' = IsDue e d' × (NotBlocked e.task_id d → NotBlocked e.task_id d')

resume_task-Keeps :
    (t : Task) (e : Dependency) (d : Dag)
    → IsDue e d
    → (d' : Dag) × (resume_task t (quiet d) ≡ (ok tt, quiet d')) × Keeps e d d'
unfolding resume_task
resume_task-Keeps t e d k = elim (Bool-cases (t.depends_on == 0)) [
  | inl root ↦ rw root (d, refl, (k, λ n. n))
  | inr child ↦
      let (r, read) = any_read t.depends_on d in
      elim (Bool-cases (is_completed r)) [
        | inl done ↦
            let (n, same) = unblock_dependents-quiet t.depends_on d in
            rw (child, read, done)
              (
                after_unblock t.depends_on d,
                rw same refl,
                (
                  unblock_dependents-IsDue t.depends_on e d k,
                  unblock_dependents_keeps t.depends_on e.task_id d,
                ),
              )
        | inr other ↦ rw (child, read, other) (d, refl, (k, λ n. n))
      ]
]

resume_task_frees :
    (t : Task) (e : Dependency) (d : Dag)
    → IsDue e d
    → t.depends_on ≡ e.depends_on_id
    → e.depends_on_id ≢ 0
    → (d' : Dag) × (resume_task t (quiet d) ≡ (ok tt, quiet d'))
      × IsDue e d'
      × NotBlocked e.task_id d'
unfolding resume_task
resume_task_frees t e d k same given =
    let (p, read, done) = parent_read e d k in
    let child : (e.depends_on_id == 0) ≡ false = ground arith in
    let (n, quiet_one) = unblock_dependents-quiet e.depends_on_id d in
    rw (same, child, read, done)
      (
        after_unblock e.depends_on_id d,
        rw quiet_one refl,
        unblock_dependents-IsDue e.depends_on_id e d k,
        unblock_dependents-NotBlocked e.depends_on_id d e k.edge refl k.ready,
      )

resume_each_keeps :
    (ts : List Task) (e : Dependency) (d : Dag)
    → IsDue e d
    → NotBlocked e.task_id d
    → (d' : Dag) × (resume_each ts (quiet d) ≡ (ok tt, quiet d')) × NotBlocked e.task_id d'
unfolding resume_each
resume_each_keeps [] e d k n = (d, refl, n)
resume_each_keeps (t ∷ ts) e d k n =
    let (a, first, (due, kept)) = resume_task-Keeps t e d k in
    let (b, later, free) = resume_each_keeps ts e a due (kept n) in
    (b, rw (first, later) refl, free)

resume_each_frees :
    (ts : List Task) (t : Task) (e : Dependency) (d : Dag)
    → IsIn t ts
    → IsDue e d
    → t.depends_on ≡ e.depends_on_id
    → e.depends_on_id ≢ 0
    → (d' : Dag) × (resume_each ts (quiet d) ≡ (ok tt, quiet d')) × NotBlocked e.task_id d'
unfolding resume_each
resume_each_frees [] t e d m k same given = elim m [ ]
resume_each_frees (x ∷ ts) t e d (here q) k same given =
    let (a, first, due, free) = resume_task_frees x e d k (rw (← q) same) given in
    let (b, later, free') = resume_each_keeps ts e a due free in (b, rw (first, later) refl, free')
resume_each_frees (x ∷ ts) t e d (there m) k same given =
    let (a, first, (due, kept)) = resume_task-Keeps x e d k in
    let (b, later, free) = resume_each_frees ts t e a m due same given in
    (b, rw (first, later) refl, free)

-- On a session without faults, ResumeActiveTasks returns, and a task that was blocked when it was called
-- is blocked no more, if its single parent is given, has a row, and is joined to it by an edge, and all
-- of its parents have completed.
pub resume_active_tasks-NotBlocked :
    (d : Dag) (t : Task)
    → IsIn t d.tasks
    → t.status ≡ blocked
    → t.depends_on ≢ 0
    → IsDue (record { task_id = t.id; depends_on_id = t.depends_on }) d
    → (d' : Dag) × (resume_active_tasks (quiet d) ≡ (ok tt, quiet d')) × NotBlocked t.id d'
unfolding resume_active_tasks get_ready_tasks get_blocked_tasks
resume_active_tasks-NotBlocked d t m waits given k =
    resume_each_frees (keep_where (λ r. same_status r.status blocked) d.tasks) t
      (record { task_id = t.id; depends_on_id = t.depends_on }) d
      (IsIn-keep_where (λ r. same_status r.status blocked) t d.tasks m (rw waits refl)) k refl given
