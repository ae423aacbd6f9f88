-- ===== src/Worktree.antt =====
-- internal/worktree/worktree.go (`worktree.Manager`): git worktrees for the attempts of a task. The
-- file system and the git program are the record `System`, over a state `W` that only they know. Texts
-- are the numbers of their characters.
pub mod Recover
pub mod Earned
pub mod Unstaged
pub mod Trimmed
mod Tests
mod Paths
use omni_orchestration.Prelude.{
  ℕ, Bool, true, false, not, ◌||◌, ◌&&◌, Option, none, some, List, [], ◌∷◌, ◌++◌, ◌==◌, codes,
  if◌then◌else◌,
}
use omni_orchestration.Session.{Result, ok, err}
use omni_orchestration.Runtime.Attach.{Text, is_empty, trim_space, base}
use omni_orchestration.Worktree.Paths.{join, dir}

-- What a command did: whether it failed, and what it wrote to its standard output.
pub record Command : Type 0 where
  pub fails : Bool
  pub stdout : Text

-- `stat` is none where `os.Stat` fails, or else whether the path is a directory; `is_missing` is whether
-- its error is `IsNotExist`. `git` runs git with the arguments.
pub record System (W : Type 0) : Type 0 where
  pub stat : Text → W → Option Bool
  pub is_missing : Text → W → Bool
  pub read_file : Text → W → Option Text
  pub git : List Text → W → Command × W
  pub remove_all : Text → W → W

pub data GitError : Type 0 where
  no_path not_directory no_git_file unreadable unexpected_format : GitError
  branch_failed worktree_failed add_failed commit_failed rev_parse_failed remove_failed : GitError

pub record WorktreeInfo : Type 0 where
  pub path : Text
  pub branch : Text
  pub base_repo : Text
  pub task_id : Text
  pub attempt_id : Text

pub record StatusReport : Type 0 where
  pub path : Text
  pub branch : Text
  pub clean : Bool
  pub changed_files : List Text
  pub diff_stat : Text
  pub error : Option GitError

unfoldable pub starts_with : Text → Text → Option Text
starts_with [] s = some s
starts_with (c ∷ p) [] = none
starts_with (c ∷ p) (d ∷ s) = if c == d then starts_with p s else none

-- `strings.Split` at a character, with the part that has begun.
unfoldable pub split_from : ℕ → Text → Text → List Text
split_from c part [] = part ∷ []
split_from c part (d ∷ s) =
    let rest = split_from c (if c == d then [] else part ++ d ∷ []) s in
    if c == d then part ∷ rest else rest

-- The lines of the status that are not empty once they are trimmed.
unfoldable pub trimmed_lines : List Text → List Text
trimmed_lines [] = []
trimmed_lines (l ∷ ls) =
    let rest = trimmed_lines ls in if is_empty (trim_space l) then rest else trim_space l ∷ rest

abbrev pub changed_lines : Text → List Text
changed_lines out = trimmed_lines (split_from 10 [] (trim_space out))

-- `.git/worktrees/name` has the main repository three levels up.
abbrev pub main_repo_of : Option Text → Result GitError Text
main_repo_of none = err unexpected_format
main_repo_of (some git_dir) = ok (dir (dir (dir git_dir)))

abbrev pub Action : Type 0 → Type 0 → Type 0
Action W A = W → Result GitError A × W

module _ {W : Type 0} where
  abbrev pub pure : {A : Type 0} → A → Action W A
  pure a w = (ok a, w)

  abbrev pub raise : {A : Type 0} → GitError → Action W A
  raise e w = (err e, w)

  abbrev pub and_then : {A B : Type 0} → Result GitError A → (A → Action W B) → Action W B
  and_then (ok a) f w = f a w
  and_then (err e) f w = (err e, w)

  infixl 5 ◌>>=◌
  abbrev pub ◌>>=◌ : {A B : Type 0} → Action W A → (A → Action W B) → Action W B
  ◌>>=◌ m f w = and_then (m w).0 f (m w).1

  infixl 5 ◌>>◌
  abbrev pub ◌>>◌ : {A B : Type 0} → Action W A → Action W B → Action W B
  m >> k = m >>= λ _. k

  abbrev pub look : {A : Type 0} → (W → A) → Action W A
  look f w = (ok (f w), w)

  abbrev pub check : GitError → Bool → Action W (Unit {0})
  check e holds = if holds then pure tt else raise e

  abbrev pub all_well : GitError → Command → Action W Text
  all_well e c = if c.fails then raise e else pure c.stdout

  abbrev pub checked : {A : Type 0} → Result GitError A → Action W A
  checked r w = (r, w)

abbrev pub is_some {ℓ} : {A : Type ℓ} → Option A → Bool
is_some (some _) = true
is_some none = false

abbrev pub is_directory : Option Bool → Bool
is_directory (some d) = d
is_directory none = false

abbrev pub is_nil {ℓ} : {A : Type ℓ} → List A → Bool
is_nil [] = true
is_nil (_ ∷ _) = false

-- What was read, without the white space around it.
abbrev pub trimmed_or : Text → Command → Text
trimmed_or default c = if c.fails then default else trim_space c.stdout

abbrev pub git_dir_of : Option Text → Result GitError Text
git_dir_of none = err unreadable
git_dir_of (some content) = main_repo_of (starts_with (codes "gitdir: ") (trim_space content))

abbrev pub branch_name : Text → Text → Text
branch_name task attempt = codes "task/" ++ (task ++ (codes "/attempt-" ++ attempt))

abbrev pub worktree_path : Text → Text → Text → Text
worktree_path repo task attempt =
    join (dir repo ∷ codes ".worktrees" ∷ base repo ∷ (task ++ (codes "-" ++ attempt)) ∷ [])

abbrev pub abbrev_ref : List Text
abbrev_ref = codes "rev-parse" ∷ codes "--abbrev-ref" ∷ codes "HEAD" ∷ []

-- `Clean` keeps its zero value where the path is no worktree.
abbrev pub no_report : Text → GitError → StatusReport
no_report path e = record {
  path = path;
  branch = [];
  clean = false;
  changed_files = [];
  diff_stat = [];
  error = some e;
}

-- A command that fails leaves its part of the report empty.
abbrev pub report_of : Text → Command → Command → Command → StatusReport
report_of path branch short diff =
    let changed = if short.fails then [] else changed_lines short.stdout in
    record {
      path = path;
      branch = trimmed_or [] branch;
      clean = is_nil changed;
      changed_files = changed;
      diff_stat = trimmed_or [] diff;
      error = none;
    }

abbrev pub or_no_report : Text → Result GitError StatusReport → StatusReport
or_no_report path (ok r) = r
or_no_report path (err e) = no_report path e

module _ {W : Type 0} (sys : System W) where
  -- `exec.Command("git", "-C", path, args...)`, run to its end.
  abbrev pub git_at : Text → List Text → Action W Command
  git_at path args w =
      (ok (sys.git (codes "-C" ∷ path ∷ args) w).0, (sys.git (codes "-C" ∷ path ∷ args) w).1)

  -- `validateRepo` and `validateWorktree`, which differ in the texts of their errors.
  unfoldable pub validate : Text → Action W (Unit {0})
  validate path = do
    found ← look (sys.stat path)
    check no_path (is_some found)
    check not_directory (is_directory found)
    git_file ← look (sys.stat (join (path ∷ codes ".git" ∷ [])))
    check no_git_file (is_some git_file)

  abbrev pub delete_branch : Text → Text → Action W Command
  delete_branch repo branch = git_at repo (codes "branch" ∷ codes "-D" ∷ branch ∷ [])

  unfoldable pub create : Text → Text → Text → Action W WorktreeInfo
  create repo task attempt =
      let branch = branch_name task attempt in
      let path = worktree_path repo task attempt in
      do
        validate repo
        made ← git_at repo (codes "branch" ∷ branch ∷ codes "HEAD" ∷ [])
        all_well branch_failed made
        added ← git_at repo (codes "worktree" ∷ codes "add" ∷ path ∷ branch ∷ [])
        if added.fails
            then (delete_branch repo branch >> raise worktree_failed)
            else pure (record {
              path = path;
              branch = branch;
              base_repo = repo;
              task_id = task;
              attempt_id = attempt;
            })

  -- An error of the push is dropped.
  unfoldable pub checkpoint : Text → Text → Action W Text
  checkpoint path message = do
    validate path
    added ← git_at path (codes "add" ∷ codes "-A" ∷ [])
    all_well add_failed added
    committed ← git_at path (codes "commit" ∷ codes "-m" ∷ message ∷ codes "--allow-empty" ∷ [])
    all_well commit_failed committed
    head ← git_at path (codes "rev-parse" ∷ codes "--short" ∷ codes "HEAD" ∷ [])
    sha ← all_well rev_parse_failed head
    git_at path (codes "push" ∷ codes "origin" ∷ codes "HEAD" ∷ [])
    pure (trim_space sha)

  abbrev pub read_status : Text → Action W StatusReport
  read_status path = do
    branch ← git_at path abbrev_ref
    short ← git_at path (codes "status" ∷ codes "--short" ∷ [])
    diff ← git_at path (codes "diff" ∷ codes "--stat" ∷ codes "HEAD" ∷ [])
    pure (report_of path branch short diff)

  unfoldable pub status : Text → W → StatusReport × W
  status path w = let r = (validate path >> read_status path) w in (or_no_report path r.0, r.1)

  abbrev pub get_main_repo : Text → Action W Text
  get_main_repo path w = (git_dir_of (sys.read_file (join (path ∷ codes ".git" ∷ [])) w), w)

  -- What deleting the branch and the directory report is dropped.
  unfoldable pub remove : Text → Action W (Unit {0})
  remove path = do
    validate path
    branch ← git_at path abbrev_ref
    name ← all_well rev_parse_failed branch
    repo ← get_main_repo path
    removed ← git_at repo (codes "worktree" ∷ codes "remove" ∷ path ∷ codes "--force" ∷ [])
    all_well remove_failed removed
    delete_branch repo (trim_space name)
    λ w. (ok tt, sys.remove_all path w)
