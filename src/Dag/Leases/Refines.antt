-- ===== src/Dag/Leases/Refines.antt =====
-- internal/dag/dag.go: the path leases as a table of locks, without rows, sessions or SQL.
use omni_orchestration.Prelude.{
  ℕ, String, str_eq, eq_iff, ◌≡◌, refl, Bool, true, not, Option, none, some, List, [], ◌∷◌, ◌==◌,
  ◌&&◌, if◌then◌else◌, keep_where, arith, Bool-cases, inl, inr,
}
use mathlib.Core.Path.{fun_ext, subst}
use omni_orchestration.Session.{ok, Session, pure, ◌>>=◌, ◌>>◌}
use omni_orchestration.Dag.{Lease, Dag, DagAction, quiet}
use omni_orchestration.Dag.Leases.{acquire_path_lease, release_path_leases, owner_of, insert_lease}
use omni_orchestration.Dag.Leases.Exclusive.{
  IsExclusive, insert_lease-IsExclusive, owner_of-release, owner_of-append,
}

pub data Request : Type 0 where
  acquire : ℕ → String → Request
  release : ℕ → Request

-- Who holds each path.
abbrev pub Locks : Type 0
Locks = String → Option ℕ

abbrev pub may_take : ℕ → Option ℕ → Bool
may_take task none = true
may_take task (some owner) = owner == task

abbrev pub take_lock : ℕ → String → Locks → Locks
take_lock task path locks other =
    if may_take task (locks path) && str_eq path other then some task else locks other

abbrev pub free_of : ℕ → Option ℕ → Option ℕ
free_of task none = none
free_of task (some owner) = if owner == task then none else some owner

abbrev pub free_locks : ℕ → Locks → Locks
free_locks task locks other = free_of task (locks other)

-- The answers of the table of locks, and the table in the end.
abbrev pub serve : List Request → Locks → List Bool × Locks
serve [] locks = ([], locks)
serve (acquire task path ∷ rs) locks =
    let rest = serve rs (take_lock task path locks) in (may_take task (locks path) ∷ rest.0, rest.1)
serve (release task ∷ rs) locks = serve rs (free_locks task locks)

-- The answers of the code, one for each `AcquirePathLease`.
unfoldable pub serve_store : List Request → DagAction (List Bool)
serve_store [] = pure []
serve_store (acquire task path ∷ rs) = do
  granted ← acquire_path_lease task path
  answers ← serve_store rs
  pure (granted ∷ answers)
serve_store (release task ∷ rs) = do release_path_leases task; serve_store rs

-- The table that the rows stand for.
abbrev pub locks_of : Dag → Locks
locks_of d path = owner_of path d.leases

abbrev leased : ℕ → String → Dag → Dag
leased task path d =
    if may_take task (owner_of path d.leases)
    then record d { leases = insert_lease task path d.leases }
    else d

abbrev released : ℕ → Dag → Dag
released task d = record d { leases = keep_where (λ l. not (l.owner == task)) d.leases }

acquire_path_lease_serves :
    (task : ℕ) (path : String) (d : Dag)
    → acquire_path_lease task path (quiet d)
      ≡ (ok (may_take task (owner_of path d.leases)), quiet (leased task path d))
unfolding acquire_path_lease
acquire_path_lease_serves task path d = ground arith

leased_owner :
    (task : ℕ) (path other : String) (d : Dag)
    → locks_of (leased task path d) other ≡ take_lock task path (locks_of d) other
leased_owner task path other d =
    ground (arith, owner_of-append path other task d.leases, eq_iff path other)

leased-IsExclusive :
    (task : ℕ) (path : String) (d : Dag)
    → IsExclusive d.leases
    → IsExclusive (leased task path d).leases
leased-IsExclusive task path d x = elim (Bool-cases (may_take task (owner_of path d.leases))) [
  | inl free ↦ rw free (insert_lease-IsExclusive task path d.leases x)
  | inr held ↦ rw held x
]

released_owner :
    (task : ℕ) (other : String) (d : Dag)
    → IsExclusive d.leases
    → locks_of (released task d) other ≡ free_locks task (locks_of d) other
released_owner task other d x = rw (owner_of-release task other d.leases x) (ground arith)

release-IsExclusive :
    (task : ℕ) (ls : List Lease)
    → IsExclusive ls
    → IsExclusive (keep_where (λ l. not (l.owner == task)) ls)
release-IsExclusive task [] x = tt
release-IsExclusive task (l ∷ ls) x = elim (Bool-cases (l.owner == task)) [
  | inl mine ↦ rw mine (release-IsExclusive task ls x.1)
  | inr kept ↦
      rw kept (rw (owner_of-release task l.path ls x.1, x.0) refl, release-IsExclusive task ls x.1)
]

-- On a session without faults and with at most one row for each path, acquiring and releasing leases,
-- in whatever order and by whatever tasks, answers every request as the table of locks does, where a
-- free path is granted, and a path that is held only to the task that holds it, and ends in the rows
-- that stand for that table's last state; no path has two of them.
pub serve_store_refines :
    (rs : List Request) (d : Dag)
    → IsExclusive d.leases
    → ((serve_store rs (quiet d)).0 ≡ ok (serve rs (locks_of d)).0)
      × ((serve_store rs (quiet d)).1 ≡ quiet (serve_store rs (quiet d)).1.tables)
      × (locks_of (serve_store rs (quiet d)).1.tables ≡ (serve rs (locks_of d)).1)
      × IsExclusive (serve_store rs (quiet d)).1.tables.leases
unfolding serve_store release_path_leases
serve_store_refines [] d x = (refl, refl, refl, x)
serve_store_refines (acquire task path ∷ rs) d x =
    let locks : locks_of (leased task path d) ≡ take_lock task path (locks_of d) =
      fun_ext (λ other. leased_owner task path other d) in
    let later = serve_store_refines rs (leased task path d) (leased-IsExclusive task path d x) in
    rw (acquire_path_lease_serves task path d, ← locks, later.0) (refl, later.1, later.2, later.3)
serve_store_refines (release task ∷ rs) d x =
    let locks : locks_of (released task d) ≡ free_locks task (locks_of d) =
      fun_ext (λ other. released_owner task other d x) in
    let after : Session Dag = (serve_store rs (quiet (released task d))).1 in
    subst
      (λ held.
        ((serve_store rs (quiet (released task d))).0 ≡ ok (serve rs held).0)
        × (after ≡ quiet after.tables)
        × (locks_of after.tables ≡ (serve rs held).1)
        × IsExclusive after.tables.leases)
      locks (serve_store_refines rs (released task d) (release-IsExclusive task d.leases x))
