-- ===== src/Worktree/Earned.antt =====
-- internal/supervisor/recovery.go: the checkpoint of `Recover`, the files scanned and the commands run.
use omni_orchestration.Prelude.{
  ◌≡◌, refl, Bool, true, false, Option, none, some, List, [], ◌∷◌, any, codes, IsIn, here, there,
  inl, inr, ◌⊎◌, Option-cases, arith,
}
use mathlib.Core.Path.{subst}
use omni_orchestration.Session.{Result, ok, err}
use omni_orchestration.Runtime.{Runtime, RuntimeError, StopOutcome}
use omni_orchestration.Runtime.Attach.{Text, trim_space}
use omni_orchestration.Worktree.{System, GitError, StatusReport, checkpoint, validate, status}
use omni_orchestration.Worktree.Recover.{
  RecoveryConfig, scan_secrets, file_at, secret_patterns, finds, blocks, recover, message,
  stop_worker, after_stop, recover_worktree, save_changes, commit_result, commit_changes,
}

abbrev pub commit_args : Text → Text → List Text
commit_args path msg =
    codes "-C" ∷ path ∷ codes "commit" ∷ codes "-m" ∷ msg ∷ codes "--allow-empty" ∷ []

abbrev pub head_args : Text → List Text
head_args path = codes "-C" ∷ path ∷ codes "rev-parse" ∷ codes "--short" ∷ codes "HEAD" ∷ []

unblocked :
    (found : Option Bool) (content : Option Text)
    → blocks found content ≡ false
    → (found ≡ some true)
      ⊎ ((c : Text) × (found ≡ some false)
          × (content ≡ some c)
          × (any (finds c) secret_patterns ≡ false))
unblocked (some true) content h = inl refl
unblocked (some false) (some c) h = inr (c, refl, refl, h)
unblocked (some false) none h = ground arith
unblocked none content h = ground arith

commit_result_earned :
    (r : Result GitError Text)
    → (commit_result r).checkpointed ≡ true
    → r ≡ ok (commit_result r).commit_sha
commit_result_earned (ok sha) h = refl
commit_result_earned (err e) h = ground arith

module _ {W : Type 0} (sys : System W) where
  -- The changed file is a directory, or was read and holds none of the secrets.
  abbrev pub IsScanned : Text → W → Text → Type 0
  IsScanned root w entry =
      (sys.stat (file_at sys root entry) w ≡ some true)
      ⊎ ((content : Text) × (sys.stat (file_at sys root entry) w ≡ some false)
          × (sys.read_file (file_at sys root entry) w ≡ some content)
          × (any (finds content) secret_patterns ≡ false))

  -- The three commands of a checkpoint, each in the state that the one before it left, and the name that
  -- the last one printed.
  abbrev pub IsCommitted : Text → Text → W → Text → Type 0
  IsCommitted path msg w sha =
      let added = sys.git (codes "-C" ∷ path ∷ codes "add" ∷ codes "-A" ∷ []) w in
      let made = sys.git (commit_args path msg) added.1 in
      let head = sys.git (head_args path) made.1 in
      (added.0.fails ≡ false)
      × (made.0.fails ≡ false)
      × (head.0.fails ≡ false)
      × (sha ≡ trim_space head.0.stdout)

  not_blocked :
      (root entry : Text) (w : W)
      → blocks (sys.stat (file_at sys root entry) w) (sys.read_file (file_at sys root entry) w)
        ≡ false
      → IsScanned root w entry
  not_blocked root entry w h =
      unblocked (sys.stat (file_at sys root entry) w) (sys.read_file (file_at sys root entry) w) h

  scan_secrets-IsScanned :
      (root : Text) (files : List Text) (w : W)
      → scan_secrets sys root files w ≡ none
      → (entry : Text) → IsIn entry files
      → IsScanned root w entry
  unfolding scan_secrets
  scan_secrets-IsScanned root [] w h entry m = elim m [ ]
  scan_secrets-IsScanned root (e ∷ es) w h entry (here same) =
      rw same (not_blocked root e w (ground arith))
  scan_secrets-IsScanned root (e ∷ es) w h entry (there m) =
      scan_secrets-IsScanned root es w (ground arith) entry m

  validate_same : (path : Text) (w : W) → (validate sys path w).1 ≡ w
  unfolding validate
  validate_same path w = ground arith

  checkpoint-IsCommitted :
      (path msg sha : Text) (w : W)
      → (checkpoint sys path msg w).0 ≡ ok sha
      → IsCommitted path msg w sha
  unfolding checkpoint
  checkpoint-IsCommitted path msg sha w h = let same = validate_same path w in ground arith

  save_changes_commits :
      (cfg : RecoveryConfig) (report : StatusReport) (w : W)
      → cfg.secret_scan_enabled ≡ true
      → (save_changes sys cfg report w).0.checkpointed ≡ true
      → (scan_secrets sys cfg.worktree_path report.changed_files w ≡ none)
        × (save_changes sys cfg report w ≡ commit_changes sys cfg w)
  save_changes_commits cfg report w on h =
      elim (Option-cases (scan_secrets sys cfg.worktree_path report.changed_files w)) [
        | inl free ↦ (free, ground arith)
        | inr (name, bad) ↦ absurd (ground arith)
      ]

  -- What a result with a checkpoint rests on: the state and the report of the files that changed.
  abbrev pub IsEarned : RecoveryConfig → List Text → W → Text → Type 0
  IsEarned cfg files w sha =
      ((entry : Text) → IsIn entry files → IsScanned cfg.worktree_path w entry)
      × IsCommitted cfg.worktree_path (message cfg) w sha

  save_changes-IsEarned :
      (cfg : RecoveryConfig) (report : StatusReport) (w : W)
      → cfg.secret_scan_enabled ≡ true
      → (save_changes sys cfg report w).0.checkpointed ≡ true
      → IsEarned cfg report.changed_files w (save_changes sys cfg report w).0.commit_sha
  save_changes-IsEarned cfg report w on h =
      let (free, same) = save_changes_commits cfg report w on h in
      let done : (commit_changes sys cfg w).0.checkpointed ≡ true =
        subst (λ r. r.0.checkpointed ≡ true) same h in
      let made = commit_result_earned (checkpoint sys cfg.worktree_path (message cfg) w).0 done in
      rw same (
        scan_secrets-IsScanned cfg.worktree_path report.changed_files w free,
        checkpoint-IsCommitted cfg.worktree_path (message cfg)
            (commit_changes sys cfg w).0.commit_sha w made,
      )

  recover_worktree_saves :
      (cfg : RecoveryConfig) (has_manager : Bool) (w : W)
      → (recover_worktree sys cfg has_manager w).0.checkpointed ≡ true
      → recover_worktree sys cfg has_manager w
        ≡ save_changes sys cfg (status sys cfg.worktree_path w).0 (status sys cfg.worktree_path w).1
  recover_worktree_saves cfg has_manager w h = ground arith

  recover_worktree-IsEarned :
      (cfg : RecoveryConfig) (has_manager : Bool) (w : W)
      → cfg.secret_scan_enabled ≡ true
      → (recover_worktree sys cfg has_manager w).0.checkpointed ≡ true
      → IsEarned cfg
          (status sys cfg.worktree_path w).0.changed_files
          (status sys cfg.worktree_path w).1
          (recover_worktree sys cfg has_manager w).0.commit_sha
  recover_worktree-IsEarned cfg has_manager w on h =
      let same = recover_worktree_saves cfg has_manager w h in
      let s = status sys cfg.worktree_path w in
      rw same (save_changes-IsEarned cfg s.0 s.1 on (rw (← same) h))

  after_stop-IsEarned :
      (stopped : Result RuntimeError (Unit {0})) (cfg : RecoveryConfig) (has_manager : Bool) (w : W)
      → cfg.secret_scan_enabled ≡ true
      → (after_stop sys stopped cfg has_manager w).0.checkpointed ≡ true
      → IsEarned cfg
          (status sys cfg.worktree_path w).0.changed_files
          (status sys cfg.worktree_path w).1
          (after_stop sys stopped cfg has_manager w).0.commit_sha
  after_stop-IsEarned (ok _) cfg has_manager w on h =
      recover_worktree-IsEarned cfg has_manager w on h
  after_stop-IsEarned (err e) cfg has_manager w on h = absurd (ground arith)

  -- With the secret scan on, a checkpoint that Recover reports was committed: `git add`, `git commit`
  -- and `git rev-parse` ran in this order without failing, right after the status was read, and its
  -- name is what the last one printed, trimmed. Each changed file of that status is, where the scan looks for it, a
  -- directory, or was read and matched no pattern.
  pub recover-IsEarned :
      (outcome : StopOutcome) (worker : Option Runtime) (cfg : RecoveryConfig) (has_manager : Bool)
      (w : W)
      → cfg.secret_scan_enabled ≡ true
      → (recover sys outcome worker cfg has_manager w).0.checkpointed ≡ true
      → IsEarned cfg
          (status sys cfg.worktree_path w).0.changed_files
          (status sys cfg.worktree_path w).1
          (recover sys outcome worker cfg has_manager w).0.commit_sha
  unfolding recover
  recover-IsEarned outcome worker cfg has_manager w on h =
      after_stop-IsEarned (stop_worker outcome worker).0 cfg has_manager w on h
