-- ===== src/Dag/Leases.antt =====
-- internal/dag/dag.go, path leases: `AcquirePathLease`, `ReleasePathLeases`, `CheckPathOverlap`.
pub mod Exclusive
pub mod Refines
use omni_orchestration.Prelude.{
  ℕ, String, str_eq, Bool, true, false, not, Option, none, some, List, [], ◌∷◌, ◌++◌, ◌==◌,
  if◌then◌else◌, keep_where,
}
use omni_orchestration.Session.{Result, ok, pure, ◌>>=◌, ◌>>◌, attempt, statement, query}
use omni_orchestration.Dag.{Lease, Dag, Error, db_error, DagAction}

abbrev pub owner_of : String → List Lease → Option ℕ
owner_of path [] = none
owner_of path (l ∷ ls) = if str_eq l.path path then some l.owner else owner_of path ls

-- `INSERT OR IGNORE INTO path_leases`: the column `path` is UNIQUE.
abbrev pub insert_lease : ℕ → String → List Lease → List Lease
insert_lease task path ls = elim (owner_of path ls) [
  | some _ ↦ ls
  | none ↦ ls ++ record { owner = task; path = path } ∷ []
]

-- `err == nil && owner != taskID`: a read that fails does not stop the insertion.
abbrev pub owned_by_other : ℕ → Result Error (Option ℕ) → Bool
owned_by_other task (ok (some owner)) = not (owner == task)
owned_by_other task _ = false

unfoldable pub acquire_path_lease : ℕ → String → DagAction Bool
acquire_path_lease task path = do
  owner ← attempt (query db_error (λ d. owner_of path d.leases))
  if owned_by_other task owner then pure false else do
    statement db_error (λ d. (tt, record d { leases = insert_lease task path d.leases }))
    pure true

unfoldable pub release_path_leases : ℕ → DagAction (Unit {0})
release_path_leases task =
    statement db_error
      (λ d. (tt, record d { leases = keep_where (λ l. not (l.owner == task)) d.leases }))

-- A path whose read fails, or that nobody owns, is left out.
abbrev pub add_owner : Result Error (Option ℕ) → List ℕ → List ℕ
add_owner (ok (some owner)) owners = owner ∷ owners
add_owner _ owners = owners

unfoldable pub check_path_overlap : List String → DagAction (List ℕ)
check_path_overlap [] = pure []
check_path_overlap (p ∷ ps) = do
  owner ← attempt (query db_error (λ d. owner_of p d.leases))
  owners ← check_path_overlap ps
  pure (add_owner owner owners)
