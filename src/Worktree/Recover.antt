-- ===== src/Worktree/Recover.antt =====
-- internal/supervisor/recovery.go: `Recover`, which stops a worker and commits what it left in its
-- worktree, once no changed file holds a secret.
use omni_orchestration.Prelude.{
  ℕ, zero, suc, Bool, true, false, not, ◌||◌, ◌&&◌, Option, none, some, List, [], ◌∷◌, ◌++◌, ◌==◌,
  leb, any, map, codes, if◌then◌else◌,
}
use omni_orchestration.Session.{Result, ok, err}
use omni_orchestration.Runtime.{Runtime, RuntimeError, StopOutcome, stop}
use omni_orchestration.Runtime.Attach.{Text, trim_space}
use omni_orchestration.Worktree.{
  System, GitError, StatusReport, starts_with, is_nil, checkpoint, status, remove,
}
use omni_orchestration.Worktree.Paths.{join}

-- A pattern is a test for each character of a match, since the only repetitions are one of 36, and
-- those at the end, which one character meets.
abbrev pub Pattern : Type 0
Pattern = List (ℕ → Bool)

abbrev pub between : ℕ → ℕ → ℕ → Bool
between low high b = leb low b && leb b high

abbrev pub is_alphanumeric : ℕ → Bool
is_alphanumeric b = between 65 90 b || between 97 122 b || between 48 57 b

abbrev pub or_dash : ℕ → Bool
or_dash b = is_alphanumeric b || b == 45

abbrev pub or_underscore : ℕ → Bool
or_underscore b = or_dash b || b == 95

abbrev pub exactly : Text → Pattern
exactly s = map (λ c b. b == c) s

unfoldable pub times : ℕ → (ℕ → Bool) → Pattern
times zero c = []
times (suc n) c = c ∷ times n c

abbrev pub private_key : Text → Pattern
private_key kind = exactly (codes "-----BEGIN " ++ (kind ++ codes " PRIVATE KEY-----"))

-- `secretPatterns`; the three kinds of private keys are one pattern there.
unfoldable pub secret_patterns : List Pattern
unfolding times
secret_patterns =
    (exactly (codes "sk-ant-api-") ++ or_underscore ∷ [])
    ∷ (exactly (codes "sk-orca-") ++ or_underscore ∷ [])
    ∷ (exactly (codes "ghp_") ++ times 36 is_alphanumeric)
    ∷ private_key (codes "RSA")
    ∷ private_key (codes "OPENSSH")
    ∷ private_key (codes "EC")
    ∷ (exactly (codes "xox") ++ (λ b. any (◌==◌ b) (codes "baprs")) ∷ (λ b. b == 45) ∷ or_dash ∷ [])
    ∷ []

unfoldable pub fits : Pattern → Text → Bool
fits [] s = true
fits (c ∷ cs) [] = false
fits (c ∷ cs) (b ∷ s) = c b && fits cs s

unfoldable pub finds : Text → Pattern → Bool
unfolding fits
finds [] p = fits p []
finds (b ∷ s) p = fits p (b ∷ s) || finds s p

-- The two status characters and the blank after them.
abbrev pub without_status : Text → Text
without_status (x ∷ y ∷ b ∷ name) = if b == 32 then trim_space name else x ∷ y ∷ b ∷ name
without_status entry = entry

-- What follows the first ` -> `.
unfoldable pub arrow_rest : Text → Option Text
unfolding starts_with
arrow_rest [] = none
arrow_rest (b ∷ s) =
    let later = arrow_rest s in
    elim (starts_with (codes " -> ") (b ∷ s)) [ some after ↦ some after | none ↦ later ]

abbrev pub new_name : Text → Text
new_name name = elim (arrow_rest name) [ some after ↦ after | none ↦ name ]

abbrev pub entry_path : Text → Text
entry_path entry = new_name (without_status entry)

abbrev pub holds_secret : Option Text → Bool
holds_secret none = true
holds_secret (some content) = any (finds content) secret_patterns

-- A file that cannot be looked at or read blocks; a directory does not.
abbrev pub blocks : Option Bool → Option Text → Bool
blocks none content = true
blocks (some true) content = false
blocks (some false) content = holds_secret content

pub record RecoveryConfig : Type 0 where
  pub worktree_path : Text
  pub attempt_id : Text
  pub secret_scan_enabled : Bool

pub data RecoveryError : Type 0 where
  worker_close : RuntimeError → RecoveryError
  path_missing : RecoveryError
  secret_in : Text → RecoveryError
  checkpoint_commit : GitError → RecoveryError

pub record RecoveryResult : Type 0 where
  pub checkpointed : Bool
  pub commit_sha : Text
  pub skipped_clean : Bool
  pub blocked_secret : Bool
  pub error : Option RecoveryError

abbrev pub no_result : RecoveryResult
no_result = record {
  checkpointed = false;
  commit_sha = [];
  skipped_clean = false;
  blocked_secret = false;
  error = none;
}

abbrev pub commit_result : Result GitError Text → RecoveryResult
commit_result (ok sha) = record no_result { checkpointed = true; commit_sha = sha }
commit_result (err e) = record no_result { error = some (checkpoint_commit e) }

abbrev pub blocked_by : Text → RecoveryResult
blocked_by name = record no_result { blocked_secret = true; error = some (secret_in name) }

abbrev pub stop_worker :
    StopOutcome → Option Runtime → Result RuntimeError (Unit {0}) × Option Runtime
stop_worker outcome none = (ok tt, none)
stop_worker outcome (some r) = ((stop outcome r).0, some (stop outcome r).1)

abbrev pub checkpointed_successfully : RecoveryResult → Bool
checkpointed_successfully r = elim r.error [ some _ ↦ false | none ↦ not r.blocked_secret ]

abbrev pub should_checkpoint : StatusReport → Bool × Text
should_checkpoint report = if report.clean then (false, codes "worktree is clean") else (true, [])

abbrev pub message : RecoveryConfig → Text
message cfg = codes "recovery: " ++ (cfg.attempt_id ++ codes " checkpoint")

module _ {W : Type 0} (sys : System W) where
  abbrev pub file_at : Text → Text → Text
  file_at root entry = join (root ∷ entry_path entry ∷ [])

  -- The first changed file that blocks.
  unfoldable pub scan_secrets : Text → List Text → W → Option Text
  scan_secrets root [] w = none
  scan_secrets root (e ∷ es) w =
      let rest = scan_secrets root es w in
      if blocks (sys.stat (file_at root e) w) (sys.read_file (file_at root e) w)
      then some (entry_path e)
      else rest

  abbrev pub scan : RecoveryConfig → List Text → W → Option Text
  scan cfg files w =
      if cfg.secret_scan_enabled then scan_secrets cfg.worktree_path files w else none

  abbrev pub commit_changes : RecoveryConfig → W → RecoveryResult × W
  commit_changes cfg w =
      let r = checkpoint sys cfg.worktree_path (message cfg) w in (commit_result r.0, r.1)

  abbrev pub save_changes : RecoveryConfig → StatusReport → W → RecoveryResult × W
  save_changes cfg report w =
      if report.clean
      then (record no_result { skipped_clean = true }, w)
      else elim (scan cfg report.changed_files w) [
        | some name ↦ (blocked_by name, w)
        | none ↦ commit_changes cfg w
      ]

  -- `false`: there is no manager of worktrees.
  abbrev pub recover_worktree : RecoveryConfig → Bool → W → RecoveryResult × W
  recover_worktree cfg has_manager w =
      if is_nil cfg.worktree_path || not has_manager
      then (no_result, w)
      else if sys.is_missing cfg.worktree_path w
      then (record no_result { error = some path_missing }, w)
      else let s = status sys cfg.worktree_path w in save_changes cfg s.0 s.1

  abbrev pub after_stop :
      Result RuntimeError (Unit {0}) → RecoveryConfig → Bool → W → RecoveryResult × W
  after_stop (ok _) cfg has_manager w = recover_worktree cfg has_manager w
  after_stop (err e) cfg has_manager w = (record no_result { error = some (worker_close e) }, w)

  -- The result, the stopped worker, and the system in the end.
  unfoldable pub recover :
      StopOutcome → Option Runtime → RecoveryConfig → Bool → W → RecoveryResult × Option Runtime × W
  recover outcome worker cfg has_manager w =
      let stopped = stop_worker outcome worker in
      let r = after_stop stopped.0 cfg has_manager w in (r.0, stopped.1, r.1)

  abbrev pub cleanup_worktree : Bool → Text → W → Result GitError (Unit {0}) × W
  cleanup_worktree has_manager path w = if has_manager then remove sys path w else (ok tt, w)
