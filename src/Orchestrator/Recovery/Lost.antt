-- ===== src/Orchestrator/Recovery/Lost.antt =====
-- internal/orchestrator/recovery.go: the attempts that are lost, and the updates of `Reconcile`.
use omni_orchestration.Prelude.{
  ℕ, ◌≡◌, refl, ◌∙◌, Bool, true, false, Option, none, some, List, [], ◌∷◌, ◌==◌, inl, inr,
  Bool-cases, update_where, if◌then◌else◌,
}
use omni_orchestration.Taskstore.{Taskstore, Status, Attempt, WorkerRecord}
use omni_orchestration.Orchestrator.Recovery.{interrupted}
use omni_orchestration.Orchestrator.Recovery.Quiet.{
  worker_of, live_worker, is_lost, stop_workers, settle_one, settle_each,
}

-- Stopping a worker's row changes no PID: whether a worker is live stays as it is.
abbrev SamePid : Option WorkerRecord → Option WorkerRecord → Type 0
SamePid none none = Unit {0}
SamePid (some v) (some w) = v.pid ≡ w.pid
SamePid none (some w) = ⊥
SamePid (some v) none = ⊥

abbrev or_this : Option WorkerRecord → Bool → WorkerRecord → Option WorkerRecord
or_this later hit w = elim later [ some v ↦ some v | none ↦ if hit then some w else none ]

or_this-SamePid :
    (x y : Option WorkerRecord) (hit : Bool) (v w : WorkerRecord)
    → v.pid ≡ w.pid
    → SamePid x y
    → SamePid (or_this x hit v) (or_this y hit w)
or_this-SamePid none none true v w e h = e
or_this-SamePid none none false v w e h = tt
or_this-SamePid (some x) (some y) hit v w e h = h
or_this-SamePid none (some y) hit v w e h = absurd h
or_this-SamePid (some x) none hit v w e h = absurd h

or_this_hits :
    (x y : Option WorkerRecord) (a b : Bool) (v w : WorkerRecord)
    → a ≡ b
    → v.pid ≡ w.pid
    → SamePid x y
    → SamePid (or_this x a v) (or_this y b w)
or_this_hits x y a b v w same e h = rw same (or_this-SamePid x y b v w e h)

marked_pid :
    (st : Status) (hit : Bool) (w : WorkerRecord)
    → (if hit then record w { status = st } else w).pid ≡ w.pid
marked_pid st true w = refl
marked_pid st false w = refl

marked_hit :
    (st : Status) (hit : Bool) (id : ℕ) (w : WorkerRecord)
    → ((if hit then record w { status = st } else w).attempt_id == id) ≡ (w.attempt_id == id)
marked_hit st true id w = refl
marked_hit st false id w = refl

worker_of-SamePid :
    (p : WorkerRecord → Bool) (st : Status) (id : ℕ) (ws : List WorkerRecord)
    → SamePid (worker_of (update_where p (λ r. record r { status = st }) ws) id) (worker_of ws id)
worker_of-SamePid p st id [] = tt
worker_of-SamePid p st id (w ∷ ws) =
    let later = worker_of (update_where p (λ r. record r { status = st }) ws) id in
    let v : WorkerRecord = if p w then record w { status = st } else w in
    let same_pid : v.pid ≡ w.pid = marked_pid st (p w) w in
    let same_hit : (v.attempt_id == id) ≡ (w.attempt_id == id) = marked_hit st (p w) id w in
    or_this_hits later (worker_of ws id) (v.attempt_id == id) (w.attempt_id == id) v w same_hit
      same_pid (worker_of-SamePid p st id ws)

live_same :
    (alive : ℕ → Bool) (x y : Option WorkerRecord)
    → SamePid x y
    → live_worker alive x ≡ live_worker alive y
live_same alive none none h = refl
live_same alive (some v) (some w) h = rw h refl
live_same alive none (some w) h = absurd h
live_same alive (some v) none h = absurd h

live_updated :
    (alive : ℕ → Bool) (p : WorkerRecord → Bool) (st : Status) (id : ℕ) (ws : List WorkerRecord)
    → live_worker alive (worker_of (update_where p (λ r. record r { status = st }) ws) id)
      ≡ live_worker alive (worker_of ws id)
live_updated alive p st id ws =
    live_same alive (worker_of (update_where p (λ r. record r { status = st }) ws) id)
      (worker_of ws id) (worker_of-SamePid p st id ws)

live_stopped :
    (alive : ℕ → Bool) (w : Option WorkerRecord) (id : ℕ) (ws : List WorkerRecord)
    → live_worker alive (worker_of (stop_workers w ws) id) ≡ live_worker alive (worker_of ws id)
live_stopped alive none id ws = refl
live_stopped alive (some w) id ws = live_updated alive (λ r. r.id == w.id) interrupted id ws

pub is_lost-settle_one :
    (alive : ℕ → Bool) (a b : Attempt) (t : Taskstore)
    → is_lost alive (settle_one alive a t).workers.rows b ≡ is_lost alive t.workers.rows b
is_lost-settle_one alive a b t = elim (Bool-cases (is_lost alive t.workers.rows a)) [
  | inr kept ↦ rw kept refl
  | inl lost ↦
      rw (lost, live_stopped alive (worker_of t.workers.rows a.id) b.id t.workers.rows) refl
]

pub is_lost-settle_each :
    (alive : ℕ → Bool) (found : List Attempt) (b : Attempt) (t : Taskstore)
    → is_lost alive (settle_each alive found t).workers.rows b ≡ is_lost alive t.workers.rows b
unfolding settle_each
is_lost-settle_each alive [] b t = refl
is_lost-settle_each alive (a ∷ rest) b t =
    is_lost-settle_each alive rest b (settle_one alive a t) ∙ is_lost-settle_one alive a b t
