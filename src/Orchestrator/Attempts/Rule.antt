-- ===== src/Orchestrator/Attempts/Rule.antt =====
-- A rule for `createAttempt`: what holds of every refusal and of the attempt that is made holds of its
-- result, with an invariant of the world that the store's actions keep, one before the worker's process
-- is started and one after.
use omni_orchestration.Prelude.{
  ℕ, ◌≡◌, ◌≢◌, refl, String, Option, none, some, ◌==◌, inl, inr, Bool-cases,
}
use omni_orchestration.Session.{Result, ok, err}
use omni_orchestration.Policy.{Violation}
use omni_orchestration.Taskstore.{Attempt, WorkerRecord, Error, StoreAction}
use omni_orchestration.Taskstore.Work.{get_attempt, create_attempt, record_worker_pid}
use omni_orchestration.Orchestrator.Authority.{Staleness, check_attempt}
use omni_orchestration.Orchestrator.Attempts.{
  Context, RunError, worktree_failed, outside_worktree, attempt_failed, policy_reject,
  authority_reject, start_failed, gateway_rejected, resolved, cwd_of, is_outside, reject,
  or_new_attempt, attempt_row, policy_verdict, with_worker, with_process, with_authority,
  with_policy, site_of, with_row, in_worktree, open_attempt,
}
use omni_orchestration.Orchestrator.Format.{worker_name}
use omni_orchestration.Orchestrator.Terminal.{Tracked}
use omni_orchestration.Orchestrator.World.{WorktreeInfo, World, on_store, start_worker}

module _ (c : Context) (number : ℕ) (base instruction : String) (I : World → Type 0)
    (J : ℕ → World → Type 0) (P : Result RunError Tracked × World → Type 0)
    (store : (A : Type 0) (m : StoreAction A) (w : World) → I w → I (on_store m w).1)
    (store_later : (A : Type 0) (m : StoreAction A) (pid : ℕ) (w : World)
      → J pid w
      → J pid (on_store m w).1)
    (start : (pid : ℕ) (w : World) → I w → J pid (start_worker pid w).1)
    (on_none : (w : World) → c.env.worktree number ≡ none → I w → P (err worktree_failed, w))
    (on_reject : (info : WorktreeInfo) (e : RunError) (w : World)
      → c.env.worktree number ≡ some info
      → e ≢ gateway_rejected
      → I w
      → P (reject (resolved c.env info) e w))
    (on_worker : (info : WorktreeInfo) (row : Attempt) (pid : ℕ) (made : Result Error WorkerRecord)
        (w : World)
      → c.env.worktree number ≡ some info
      → c.env.start number ≡ some pid
      → J pid w
      → P (with_worker (site_of c number info instruction row) pid made w)) where
  module _ (info : WorktreeInfo) (given : c.env.worktree number ≡ some info) where
    with_process_rule :
        (row : Attempt) (started : Option ℕ) (w : World)
        → c.env.start number ≡ started
        → I w
        → P (with_process c (site_of c number info instruction row) started w)
    unfolding with_process
    with_process_rule row none w e i = on_reject info start_failed w given (λ k. cc) i
    with_process_rule row (some pid) w e i =
        let w1 = (start_worker pid w).1 in
        let recorded =
          record_worker_pid (c.env.now number) row.id c.cfg.command (cwd_of c info) "primary" 1 pid
            0 in
        on_worker info row pid (on_store recorded w1).0 (on_store recorded w1).1 given e
          (store_later WorkerRecord recorded pid w1 (start pid w i))

    with_authority_rule :
        (row : Attempt) (verdict : Result Error (Result Staleness (Unit {0}))) (w : World)
        → I w
        → P (with_authority c (site_of c number info instruction row) verdict w)
    unfolding with_authority
    with_authority_rule row (ok (err stale)) w i =
        on_reject info (authority_reject stale) w given (λ k. cc) i
    with_authority_rule row (ok (ok _)) w i = with_process_rule row (c.env.start number) w refl i
    with_authority_rule row (err _) w i = with_process_rule row (c.env.start number) w refl i

    with_policy_rule :
        (row : Attempt) (verdict : Result Violation (Unit {0})) (w : World)
        → I w
        → P (with_policy c (site_of c number info instruction row) verdict w)
    unfolding with_policy
    with_policy_rule row (err v) w i = on_reject info (policy_reject v) w given (λ k. cc) i
    with_policy_rule row (ok _) w i =
        let check = check_attempt c.run_id c.task_id number in
        with_authority_rule row (on_store check w).0 (on_store check w).1
          (store (Result Staleness (Unit {0})) check w i)

    with_row_rule :
        (row : Result Error Attempt) (w : World)
        → I w
        → P (with_row c number info instruction row w)
    unfolding with_row
    with_row_rule (err e) w i = on_reject info (attempt_failed e) w given (λ k. cc) i
    with_row_rule (ok row) w i =
        with_policy_rule row (policy_verdict c.cfg.policy c.cfg.provider) w i

    or_new_attempt_rule :
        (found : Result Error Attempt) (w : World)
        → I w
        → I (or_new_attempt c number info base found w).1
    or_new_attempt_rule (ok a) w i = i
    or_new_attempt_rule (err _) w i =
        store Attempt
          (create_attempt c.task_id number (worker_name c.task_id number) info.branch base) w i

    attempt_row_rule : (w : World) → I w → I (attempt_row c number info base w).1
    unfolding attempt_row
    attempt_row_rule w i = elim (Bool-cases (c.cfg.attempt_id == 0)) [
      | inl new ↦ rw new (
          store Attempt
            (create_attempt c.task_id number (worker_name c.task_id number) info.branch base) w i)
      | inr made ↦
          let find = get_attempt c.cfg.attempt_id in
          rw made
            (or_new_attempt_rule (on_store find w).0 (on_store find w).1 (store Attempt find w i))
    ]

  in_worktree_rule :
      (made : Option WorktreeInfo) (w : World)
      → c.env.worktree number ≡ made
      → I w
      → P (in_worktree c number base instruction made w)
  unfolding in_worktree
  in_worktree_rule none w e i = on_none w e i
  in_worktree_rule (some info) w e i = elim (Bool-cases (is_outside c info)) [
    | inl out ↦ rw out (on_reject info outside_worktree w e (λ k. cc) i)
    | inr within ↦
        let (row, w1) = attempt_row c number info base w in
        rw within (with_row_rule info e row w1 (attempt_row_rule info e w i))
  ]

  pub open_attempt_rule : (w : World) → I w → P (open_attempt c number base instruction w)
  unfolding open_attempt
  open_attempt_rule w i = in_worktree_rule (c.env.worktree number) w refl i
