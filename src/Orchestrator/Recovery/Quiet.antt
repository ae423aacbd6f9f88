-- ===== src/Orchestrator/Recovery/Quiet.antt =====
-- `Reconcile` on a session without faults, as a function of the tables.
use omni_orchestration.Prelude.{
  ℕ, ◌+◌, ◌≡◌, refl, str_eq, Bool, false, not, ◌&&◌, Option, none, some, List, [], ◌∷◌, ltb, ◌==◌,
  inl, inr, Bool-cases, find?, update_where, if◌then◌else◌,
}
use omni_orchestration.Session.{ok}
use omni_orchestration.Taskstore.{Taskstore, Attempt, WorkerRecord, Task, quiet, or_no_rows}
use omni_orchestration.Taskstore.Work.{get_worker_by_attempt, find_last}
use omni_orchestration.Orchestrator.Recovery.{
  interrupted, terminalize, reconcile_one, reconcile_each, is_live,
}

abbrev pub worker_of : List WorkerRecord → ℕ → Option WorkerRecord
worker_of ws id = find_last (λ r. r.attempt_id == id) ws

abbrev pub live_worker : (ℕ → Bool) → Option WorkerRecord → Bool
live_worker alive none = false
live_worker alive (some w) = ltb 0 w.pid && alive w.pid

-- No checkpoint, and no live worker.
abbrev pub is_lost : (ℕ → Bool) → List WorkerRecord → Attempt → Bool
is_lost alive ws a = str_eq a.checkpoint_commit "" && not (live_worker alive (worker_of ws a.id))

abbrev pub interrupt : Attempt → Attempt
interrupt r = record r { status = interrupted }

abbrev pub interrupt_rows : ℕ → List Attempt → List Attempt
interrupt_rows id rows = update_where (λ r. r.id == id) interrupt rows

-- What terminalizing does to the workers.
abbrev pub stop_workers : Option WorkerRecord → List WorkerRecord → List WorkerRecord
stop_workers none ws = ws
stop_workers (some w) ws =
    update_where (λ r. r.id == w.id) (λ r. record r { status = interrupted }) ws

abbrev pub task_run : Option Task → ℕ
task_run none = 0
task_run (some t) = t.run_id

abbrev pub terminalized : Attempt → Taskstore → Taskstore
terminalized a t = record t {
  attempts = record t.attempts { rows = interrupt_rows a.id t.attempts.rows };
  workers = record t.workers { rows = stop_workers (worker_of t.workers.rows a.id) t.workers.rows };
  runs = record t.runs {
    rows =
        update_where (λ r. r.id == task_run (find? (λ r. r.id == a.task_id) t.tasks.rows))
          (λ r. record r { status = interrupted }) t.runs.rows;
  };
  tasks = record t.tasks {
    rows =
        update_where (λ r. r.id == a.task_id) (λ r. record r { status = interrupted }) t.tasks.rows;
  };
}

terminalize-quiet :
    (a : Attempt) (t : Taskstore) (found : Option Task) (w : Option WorkerRecord)
    → find? (λ r. r.id == a.task_id) t.tasks.rows ≡ found
    → worker_of t.workers.rows a.id ≡ w
    → terminalize a (quiet t) ≡ (ok tt, quiet (terminalized a t))
unfolding terminalize
terminalize-quiet a t none none h k = rw (h, k) refl
terminalize-quiet a t (some task) none h k = rw (h, k) refl
terminalize-quiet a t none (some w) h k = rw (h, k) refl
terminalize-quiet a t (some task) (some w) h k = rw (h, k) refl

abbrev pub count_of : Bool → ℕ
count_of lost = if lost then 1 else 0

abbrev pub settle_one : (ℕ → Bool) → Attempt → Taskstore → Taskstore
settle_one alive a t = if is_lost alive t.workers.rows a then terminalized a t else t

worker_read :
    (a : Attempt) (t : Taskstore) (w : Option WorkerRecord)
    → worker_of t.workers.rows a.id ≡ w
    → get_worker_by_attempt a.id (quiet t) ≡ or_no_rows w (quiet t)
unfolding get_worker_by_attempt
worker_read a t w h = rw (← h) refl

is_live_read :
    (alive : ℕ → Bool) (w : Option WorkerRecord) (t : Taskstore)
    → is_live alive (or_no_rows w (quiet t)).0 ≡ live_worker alive w
is_live_read alive none t = refl
is_live_read alive (some w) t = refl

or_no_rows_session :
    (w : Option WorkerRecord) (t : Taskstore) → (or_no_rows w (quiet t)).1 ≡ quiet t
or_no_rows_session none t = refl
or_no_rows_session (some w) t = refl

pub reconcile_one-quiet :
    (alive : ℕ → Bool) (a : Attempt) (t : Taskstore)
    → reconcile_one alive a (quiet t)
      ≡ (ok (count_of (is_lost alive t.workers.rows a)), quiet (settle_one alive a t))
unfolding reconcile_one
reconcile_one-quiet alive a t =
    let w = worker_of t.workers.rows a.id in
    let task = find? (λ r. r.id == a.task_id) t.tasks.rows in
    elim (Bool-cases (str_eq a.checkpoint_commit "")) [
      | inr kept ↦ rw kept refl
      | inl none_kept ↦ elim (Bool-cases (live_worker alive w)) [
        | inl live ↦
            rw
              (
                none_kept,
                worker_read a t w refl,
                is_live_read alive w t,
                or_no_rows_session w t,
                live,
              )
              refl
        | inr dead ↦
            rw
              (
                none_kept,
                worker_read a t w refl,
                is_live_read alive w t,
                or_no_rows_session w t,
                dead,
                terminalize-quiet a t task w refl refl,
              )
              refl
      ]
    ]

unfoldable pub settle_each : (ℕ → Bool) → List Attempt → Taskstore → Taskstore
settle_each alive [] t = t
settle_each alive (a ∷ rest) t = settle_each alive rest (settle_one alive a t)

unfoldable pub count_each : (ℕ → Bool) → List Attempt → Taskstore → ℕ
count_each alive [] t = 0
count_each alive (a ∷ rest) t =
    count_of (is_lost alive t.workers.rows a) + count_each alive rest (settle_one alive a t)

pub reconcile_each-quiet :
    (alive : ℕ → Bool) (as_read : List Attempt) (t : Taskstore)
    → reconcile_each alive as_read (quiet t)
      ≡ (ok (count_each alive as_read t), quiet (settle_each alive as_read t))
unfolding reconcile_each settle_each count_each
reconcile_each-quiet alive [] t = refl
reconcile_each-quiet alive (a ∷ rest) t =
    rw (reconcile_one-quiet alive a t, reconcile_each-quiet alive rest (settle_one alive a t)) refl
