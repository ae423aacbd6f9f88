-- ===== src/Orchestrator/Observe/Keeps.antt =====
-- internal/orchestrator/orchestrator.go: the worker processes of the watch and of the wakes.
use omni_orchestration.Prelude.{
  ℕ, refl, Bool, some, List, [], ◌∷◌, ◌&&◌, inl, inr, Bool-cases, IsIn, here, IsIn-append_right,
}
use omni_orchestration.Session.{Result}
use omni_orchestration.Taskstore.{Status}
use omni_orchestration.Taskstore.Work.{
  update_attempt_status, update_attempt_checkpoint, update_worker_status,
}
use omni_orchestration.Coordinator.{WakePacket, WakeResponse, WakeError, continue, retry_clean}
use omni_orchestration.Supervisor.{State, unknown, active, quiescent_candidate, exited, crashed}
use omni_orchestration.Orchestrator.Attempts.{Context}
use omni_orchestration.Orchestrator.Observe.{
  Watch, wake_coordinator, observe_and_wait, conclude, watch, after_quiet, answers,
  quiescent_packet, nothing_seen, report, validator_passes, outcome,
}
use omni_orchestration.Orchestrator.Terminal.{Tracked}
use omni_orchestration.Orchestrator.Terminal.Closes.{
  Keeps, Keeps-refl, Keeps-trans, close_worker-Keeps,
}
use omni_orchestration.Orchestrator.World.{Observation, World, Program, on_store, close_worker}

pub wake_coordinator-Keeps :
    (c : Context) (p : WakePacket) (w : World) → Keeps w (wake_coordinator c p w).1
unfolding wake_coordinator
wake_coordinator-Keeps c p w = elim (Bool-cases c.cfg.has_coordinator) [
  | inl given ↦ rw given (refl, λ pid m. m)
  | inr absent ↦ rw absent (refl, λ pid m. m)
]

after_quiet-Keeps :
    (a : Tracked) (code : ℕ) (rest : Program Watch) (resp : Result WakeError WakeResponse)
    (w : World)
    → ((v : World) → Keeps v (rest v).1)
    → Keeps w (after_quiet a code rest resp w).1
unfolding after_quiet
after_quiet-Keeps a code rest resp w h = elim (Bool-cases (answers continue resp)) [
  | inl going ↦ rw going (h w)
  | inr other ↦ elim (Bool-cases (answers retry_clean resp)) [
    | inl fresh ↦ rw (other, fresh) (close_worker-Keeps a.pid w)
    | inr ignored ↦ rw (other, ignored) (h w)
  ]
]

watch-Keeps :
    (c : Context) (a : Tracked) (code : ℕ) (seen : Watch) (states : List State) (w : World)
    → Keeps w (watch c a code seen states w).1
unfolding watch
watch-Keeps c a code seen [] w = Keeps-refl w
watch-Keeps c a code seen (exited ∷ later) w = Keeps-refl w
watch-Keeps c a code seen (crashed ∷ later) w = Keeps-refl w
watch-Keeps c a code seen (unknown ∷ later) w =
    watch-Keeps c a code (record seen { state = some unknown }) later w
watch-Keeps c a code seen (active ∷ later) w =
    watch-Keeps c a code (record seen { state = some active }) later w
watch-Keeps c a code seen (quiescent_candidate ∷ later) w =
    let seen' : Watch = record seen { state = some quiescent_candidate } in
    let (resp, w1) = wake_coordinator c (quiescent_packet c) w in
    let rest = watch c a code seen' later in
    Keeps-trans w w1 (after_quiet a code rest resp w1).1
      (wake_coordinator-Keeps c (quiescent_packet c) w)
      (after_quiet-Keeps a code rest resp w1 (λ v. watch-Keeps c a code seen' later v))

report-Keeps :
    (c : Context) (a : Tracked) (st : Status) (passed : Bool) (w : World)
    → Keeps w (report c a st passed w).1
unfolding report
report-Keeps c a st passed w = elim (Bool-cases c.cfg.has_mailbox) [
  | inr absent ↦ rw absent (refl, λ pid m. m)
  | inl given ↦ elim (Bool-cases (passed && c.cfg.has_graph)) [
    | inl graphed ↦ rw (given, graphed) (refl, λ pid m. m)
    | inr plain ↦ rw (given, plain) (refl, λ pid m. m)
  ]
]

conclude-Keeps :
    (c : Context) (o : Observation) (a : Tracked) (seen : Watch) (w : World)
    → Keeps w (conclude c o a seen w).1
unfolding conclude
conclude-Keeps c o a seen w =
    let st = outcome (validator_passes c.cfg o) seen.exit_code in
    let w1 = (on_store (update_attempt_checkpoint a.attempt_id o.checkpoint) w).1 in
    let w2 = (on_store (update_attempt_status a.attempt_id st) w1).1 in
    let w3 = (on_store (update_worker_status a.worker_id st) w2).1 in
    report-Keeps c a st (validator_passes c.cfg o) w3

-- The worker that was observed is stopped.
pub observe_and_wait_closes :
    (c : Context) (o : Observation) (a : Tracked) (w : World)
    → Keeps w (observe_and_wait c o a w).1 × IsIn a.pid (observe_and_wait c o a w).1.closed
unfolding observe_and_wait
observe_and_wait_closes c o a w =
    let (seen, w1) = watch c a o.exit_code nothing_seen o.states w in
    let w2 = (close_worker a.pid w1).1 in
    let later : Keeps w2 (conclude c o a seen w2).1 = conclude-Keeps c o a seen w2 in
    (
      Keeps-trans w w1 (conclude c o a seen w2).1
          (watch-Keeps c a o.exit_code nothing_seen o.states w)
          (Keeps-trans w1 w2 (conclude c o a seen w2).1 (close_worker-Keeps a.pid w1) later),
      later.1 a.pid (IsIn-append_right a.pid w1.closed (a.pid ∷ []) (here refl)),
    )
