-- ===== src/Orchestrator/Terminal/Closes.antt =====
-- internal/orchestrator/orchestrator.go: the runtimes that `finalizeTerminal` meets.
use omni_orchestration.Prelude.{
  ℕ, ◌≡◌, refl, ◌∙◌, String, Option, none, some, List, [], ◌∷◌, inl, inr, Bool-cases, IsIn, here,
  there, IsIn-append_left, IsIn-append_right, arith,
}
use Prim.Native.String.{◌++◌ as append}
use omni_orchestration.Taskstore.{Status}
use omni_orchestration.Taskstore.Work.{get_attempt, get_worker}
use omni_orchestration.Orchestrator.Format.{show_status}
use omni_orchestration.Orchestrator.Terminal.{
  Tracked, settle_attempt, settle_worker, settle_tracked, settle_all, settle_last,
  tombstone_before_kill, finalize_terminal, is_open_attempt, is_open_worker,
}
use omni_orchestration.Orchestrator.World.{World, on_store, close_worker}

-- No process is started, and those that were closed stay so.
abbrev pub Keeps : World → World → Type 0
Keeps w w' = (w'.started ≡ w.started) × ((pid : ℕ) → IsIn pid w.closed → IsIn pid w'.closed)

pub Keeps-refl : (w : World) → Keeps w w
Keeps-refl w = (refl, λ pid m. m)

pub Keeps-trans : (a b c : World) → Keeps a b → Keeps b c → Keeps a c
Keeps-trans a b c h k = (k.0 ∙ h.0, λ pid m. k.1 pid (h.1 pid m))

pub close_worker-Keeps : (pid : ℕ) (w : World) → Keeps w (close_worker pid w).1
close_worker-Keeps pid w = (refl, λ p m. IsIn-append_left p w.closed (pid ∷ []) m)

settle_attempt-Keeps : (id : ℕ) (st : Status) (w : World) → Keeps w (settle_attempt id st w).1
unfolding settle_attempt
settle_attempt-Keeps id st w = elim (Bool-cases (is_open_attempt (on_store (get_attempt id) w).0)) [
  | inl fresh ↦ rw fresh (refl, λ p m. m)
  | inr settled ↦ rw settled (refl, λ p m. m)
]

settle_worker-Keeps : (id : ℕ) (st : Status) (w : World) → Keeps w (settle_worker id st w).1
unfolding settle_worker
settle_worker-Keeps id st w = elim (Bool-cases (is_open_worker (on_store (get_worker id) w).0)) [
  | inl fresh ↦ rw fresh (refl, λ p m. m)
  | inr settled ↦ rw settled (refl, λ p m. m)
]

settle_tracked_closes :
    (st : Status) (a : Tracked) (w : World)
    → Keeps w (settle_tracked st a w).1 × IsIn a.pid (settle_tracked st a w).1.closed
unfolding settle_tracked
settle_tracked_closes st a w =
    let w1 = (close_worker a.pid w).1 in
    let w2 = (settle_attempt a.attempt_id st w1).1 in
    let w3 = (settle_worker a.worker_id st w2).1 in
    let k : Keeps w1 w3 =
      Keeps-trans w1 w2 w3 (settle_attempt-Keeps a.attempt_id st w1)
        (settle_worker-Keeps a.worker_id st w2) in
    (
      Keeps-trans w w1 w3 (close_worker-Keeps a.pid w) k,
      k.1 a.pid (IsIn-append_right a.pid w.closed (a.pid ∷ []) (here refl)),
    )

settle_all_closes :
    (st : Status) (tracked : List Tracked) (w : World)
    → Keeps w (settle_all st tracked w).1
      × ((a : Tracked) → IsIn a tracked → IsIn a.pid (settle_all st tracked w).1.closed)
unfolding settle_all
settle_all_closes st [] w = (Keeps-refl w, λ a m. elim m [ ])
settle_all_closes st (b ∷ rest) w =
    let w1 = (settle_tracked st b w).1 in
    let (k, closes) = settle_tracked_closes st b w in
    let (later, others) = settle_all_closes st rest w1 in
    (
      Keeps-trans w w1 (settle_all st rest w1).1 k later,
      λ a m. elim m [ here e ↦ rw e (later.1 b.pid closes) | there n ↦ others a n ],
    )

settle_last_closes :
    (st : Status) (last : Option Tracked) (w : World)
    → Keeps w (settle_last st last w).1
      × ((a : Tracked) → last ≡ some a → IsIn a.pid (settle_last st last w).1.closed)
unfolding settle_last
settle_last_closes st none w = (Keeps-refl w, λ a e. absurd (ground arith))
settle_last_closes st (some b) w =
    let (k, gone) = settle_tracked_closes st b w in
    (k, λ a e. let same : a ≡ b = ground arith in rw same gone)

tombstone_before_kill-Keeps :
    (run task : ℕ) (action : String) (w : World)
    → Keeps w (tombstone_before_kill run task action w).1
unfolding tombstone_before_kill
tombstone_before_kill-Keeps run task action w = (refl, λ p m. m)

-- Whatever the store does, and whatever the status of an attempt and its worker, the runtime of every
-- tracked attempt and of the one at hand is closed, no process is started, and what was closed stays so.
pub finalize_terminal_closes :
    (run task : ℕ) (tracked : List Tracked) (last : Option Tracked) (st : Status) (w : World)
    → Keeps w (finalize_terminal run task tracked last st w).1
      × ((a : Tracked)
          → IsIn a tracked
          → IsIn a.pid (finalize_terminal run task tracked last st w).1.closed)
      × ((a : Tracked)
          → last ≡ some a
          → IsIn a.pid (finalize_terminal run task tracked last st w).1.closed)
unfolding finalize_terminal
finalize_terminal_closes run task tracked last st w =
    let w1 = (tombstone_before_kill run task (append "finalizeTerminal:" (show_status st)) w).1 in
    let w2 = (settle_all st tracked w1).1 in
    let w3 = (settle_last st last w2).1 in
    let (k, closes) = settle_all_closes st tracked w1 in
    let (later, gone) = settle_last_closes st last w2 in
    let first : Keeps w w1 =
      tombstone_before_kill-Keeps run task (append "finalizeTerminal:" (show_status st)) w in
    let all : Keeps w w3 = Keeps-trans w w2 w3 (Keeps-trans w w1 w2 first k) later in
    ((all.0, all.1), λ a m. later.1 a.pid (closes a m), gone)
