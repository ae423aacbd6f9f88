-- ===== src/Worktree/Unstaged.antt =====
-- What `Recover` makes of two kinds of status: one that git did not give, and one of a file that is
-- changed but not staged.
use omni_orchestration.Prelude.{
  ℕ, ◌≡◌, ◌≢◌, refl, sym, ap, ◌∙◌, ◌++◌, ◌==◌, true, false, Option, none, some, List, [], ◌∷◌,
  codes, arith,
}
use mathlib.Core.Path.{subst}
use omni_orchestration.Session.{ok}
use omni_orchestration.Runtime.{StopOutcome, Runtime}
use omni_orchestration.Runtime.Attach.{Text, is_space}
use omni_orchestration.Worktree.{
  System, Command, StatusReport, validate, abbrev_ref, status, changed_lines,
}
use omni_orchestration.Worktree.Trimmed.{IsWord, changed_lines-shortened, arrow_rest-shortened}
use omni_orchestration.Worktree.Paths.{join}
use omni_orchestration.Worktree.Recover.{
  RecoveryConfig, no_result, blocked_by, arrow_rest, scan_secrets, file_at, entry_path,
  recover_worktree, save_changes, recover, checkpointed_successfully, stop_worker,
}

-- The third character is no blank, so nothing is taken for the status.
entry_path_same :
    (st c : ℕ) (name : Text)
    → is_space c ≡ false
    → arrow_rest (st ∷ 32 ∷ c ∷ name) ≡ none
    → entry_path (st ∷ 32 ∷ c ∷ name) ≡ st ∷ 32 ∷ c ∷ name
entry_path_same st c name h whole = let other : (c == 32) ≡ false = ground arith in ground arith

module _ {W : Type 0} (sys : System W) where
  -- A path with a manager of worktrees, where there is something.
  abbrev pub IsPresent : RecoveryConfig → W → Type 0
  IsPresent cfg w = (cfg.worktree_path ≢ []) × (sys.is_missing cfg.worktree_path w ≡ false)

  -- `git status --short` where `Status` runs it, after `git rev-parse --abbrev-ref HEAD`.
  abbrev pub short_status : Text → W → Command
  short_status path w =
      (sys.git (codes "-C" ∷ path ∷ codes "status" ∷ codes "--short" ∷ [])
        (sys.git (codes "-C" ∷ path ∷ abbrev_ref) w).1).0

  recover_worktree_saves :
      (cfg : RecoveryConfig) (w : W)
      → IsPresent cfg w
      → recover_worktree sys cfg true w
        ≡ save_changes sys cfg (status sys cfg.worktree_path w).0 (status sys cfg.worktree_path w).1
  recover_worktree_saves cfg w (named, there) = ground arith

  status-IsClean :
      (path : Text) (w : W)
      → validate sys path w ≡ (ok tt, w)
      → (short_status path w).fails ≡ true
      → (status sys path w).0.clean ≡ true
  unfolding status
  status-IsClean path w valid fails = ground arith

  status-files :
      (path : Text) (w : W)
      → validate sys path w ≡ (ok tt, w)
      → (short_status path w).fails ≡ false
      → (status sys path w).0.changed_files ≡ changed_lines (short_status path w).stdout
  unfolding status
  status-files path w valid fine = rw (valid, fine) refl

  status-IsDirty :
      (path e : Text) (es : List Text) (w : W)
      → (status sys path w).0.changed_files ≡ e ∷ es
      → (status sys path w).0.clean ≡ false
  unfolding status
  status-IsDirty path e es w given = ground arith

  save_changes_blocked :
      (cfg : RecoveryConfig) (report : StatusReport) (w : W) (name : Text)
      → cfg.secret_scan_enabled ≡ true
      → report.clean ≡ false
      → scan_secrets sys cfg.worktree_path report.changed_files w ≡ some name
      → save_changes sys cfg report w ≡ (blocked_by name, w)
  save_changes_blocked cfg report w name on dirty found = rw (on, dirty, found) refl

  scan_secrets_lost :
      (root e : Text) (es : List Text) (w : W)
      → sys.stat (file_at sys root e) w ≡ none
      → scan_secrets sys root (e ∷ es) w ≡ some (entry_path e)
  unfolding scan_secrets
  scan_secrets_lost root e es w lost = rw lost refl

  -- A worker that is gone, or that stops, leaves the rest of Recover to the worktree.
  recover_stopped :
      (outcome : StopOutcome) (worker : Option Runtime) (cfg : RecoveryConfig) (w : W)
      → (stop_worker outcome worker).0 ≡ ok tt
      → ((recover sys outcome worker cfg true w).0 ≡ (recover_worktree sys cfg true w).0)
        × ((recover sys outcome worker cfg true w).2 ≡ (recover_worktree sys cfg true w).1)
  unfolding recover
  recover_stopped outcome worker cfg w stopped = rw stopped (refl, refl)

  -- When there is no worker or it stops, and `git status` fails in its worktree, Recover takes the worktree
  -- for clean: it skips the checkpoint, commits nothing, and its result counts as a success.
  pub recover_hides_failure :
      (outcome : StopOutcome) (worker : Option Runtime) (cfg : RecoveryConfig) (w : W)
      → (stop_worker outcome worker).0 ≡ ok tt
      → IsPresent cfg w
      → validate sys cfg.worktree_path w ≡ (ok tt, w)
      → (short_status cfg.worktree_path w).fails ≡ true
      → ((recover sys outcome worker cfg true w).0 ≡ record no_result { skipped_clean = true })
        × (checkpointed_successfully (recover sys outcome worker cfg true w).0 ≡ true)
        × ((recover sys outcome worker cfg true w).2 ≡ (status sys cfg.worktree_path w).1)
  recover_hides_failure outcome worker cfg w stopped present valid fails =
      let (result, after) = recover_stopped outcome worker cfg w stopped in
      let clean = status-IsClean cfg.worktree_path w valid fails in
      let saves = recover_worktree_saves cfg w present in
      rw (result, after, saves, clean) (refl, refl, refl)

  blocked_by_lost :
      (cfg : RecoveryConfig) (w : W) (line : Text) (later : List Text)
      → IsPresent cfg w
      → cfg.secret_scan_enabled ≡ true
      → entry_path line ≡ line
      → (status sys cfg.worktree_path w).0.changed_files ≡ line ∷ later
      → sys.stat (join (cfg.worktree_path ∷ line ∷ [])) (status sys cfg.worktree_path w).1 ≡ none
      → recover_worktree sys cfg true w ≡ (blocked_by line, (status sys cfg.worktree_path w).1)
  blocked_by_lost cfg w line later present on named given lost =
      let after = status sys cfg.worktree_path w in
      let dirty = status-IsDirty cfg.worktree_path line later w given in
      let spot : sys.stat (file_at sys cfg.worktree_path line) after.1 ≡ none =
        subst (λ n. sys.stat (join (cfg.worktree_path ∷ n ∷ [])) after.1 ≡ none) (sym named) lost in
      let found = scan_secrets_lost cfg.worktree_path line later after.1 spot ∙ ap some named in
      recover_worktree_saves cfg w present
      ∙ save_changes_blocked cfg after.0 after.1 line on dirty (
          subst (λ files. scan_secrets sys cfg.worktree_path files after.1 ≡ some line) (sym given)
            found)

  -- When the first line of `git status` is that of a file that is changed but not staged (a blank, the
  -- status character `st`, a blank, and a name without white space), there is no worker or it stops, and
  -- the secret scan is on, Recover looks for a file named by the line without its first blank; if there
  -- is none, the scan blocks the checkpoint, whatever the file holds, and nothing is committed.
  pub recover_blocks_unstaged :
      (outcome : StopOutcome) (worker : Option Runtime) (cfg : RecoveryConfig) (w : W) (st c : ℕ)
      (name more : Text)
      → (stop_worker outcome worker).0 ≡ ok tt
      → IsPresent cfg w
      → cfg.secret_scan_enabled ≡ true
      → validate sys cfg.worktree_path w ≡ (ok tt, w)
      → is_space st ≡ false
      → IsWord (c ∷ name)
      → short_status cfg.worktree_path w
        ≡ record { fails = false; stdout = 32 ∷ st ∷ 32 ∷ c ∷ (name ++ 10 ∷ more) }
      → sys.stat
          (join (cfg.worktree_path ∷ (st ∷ 32 ∷ c ∷ name) ∷ []))
          (status sys cfg.worktree_path w).1
        ≡ none
      → ((recover sys outcome worker cfg true w).0 ≡ blocked_by (st ∷ 32 ∷ c ∷ name))
        × ((recover sys outcome worker cfg true w).2 ≡ (status sys cfg.worktree_path w).1)
  recover_blocks_unstaged outcome worker cfg w st c name more stopped present on valid ink word
        printed lost =
      let (result, after) = recover_stopped outcome worker cfg w stopped in
      let (later, parts) = changed_lines-shortened st c name more ink word in
      let given : (status sys cfg.worktree_path w).0.changed_files ≡ (st ∷ 32 ∷ c ∷ name) ∷ later =
        status-files cfg.worktree_path w valid (ap (λ o. o.fails) printed)
        ∙ ap (λ (o : Command). changed_lines o.stdout) printed
        ∙ parts in
      let whole = arrow_rest-shortened st c name ink word in
      let named : entry_path (st ∷ 32 ∷ c ∷ name) ≡ st ∷ 32 ∷ c ∷ name =
        entry_path_same st c name (word.0) whole in
      let blocked = blocked_by_lost cfg w (st ∷ 32 ∷ c ∷ name) later present on named given lost in
      (result ∙ ap (λ p. p.0) blocked, after ∙ ap (λ p. p.1) blocked)
