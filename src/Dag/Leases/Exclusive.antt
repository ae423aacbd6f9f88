-- ===== src/Dag/Leases/Exclusive.antt =====
-- internal/dag/dag.go: the owners of paths under `AcquirePathLease` and `ReleasePathLeases`.
use omni_orchestration.Prelude.{
  ℕ, String, str_eq, eq_iff, eq_refl, ◌≡◌, ◌≢◌, refl, true, false, not, none, some, List, [], ◌∷◌,
  ◌++◌, ◌==◌, if◌then◌else◌, keep_where, arith, Option-cases, inl, inr, ◌⊎◌, some,
}
use omni_orchestration.Session.{ok}
use omni_orchestration.Dag.{Lease, Dag, quiet}
use omni_orchestration.Dag.Leases.{
  acquire_path_lease, release_path_leases, check_path_overlap, owner_of, insert_lease,
}

-- The owners of the paths that have one.
abbrev pub owners : List String → List Lease → List ℕ
owners [] ls = []
owners (p ∷ ps) ls =
    let rest = owners ps ls in elim (owner_of p ls) [ some o ↦ o ∷ rest | none ↦ rest ]

-- No path has two rows.
abbrev pub IsExclusive : List Lease → Type 0
IsExclusive [] = Unit
IsExclusive (l ∷ ls) = (owner_of l.path ls ≡ none) × IsExclusive ls

pub owner_of-append :
    (p q : String) (task : ℕ) (ls : List Lease)
    → owner_of q (ls ++ record { owner = task; path = p } ∷ [])
      ≡ elim (owner_of q ls) [ some o ↦ some o | none ↦ if str_eq p q then some task else none ]
owner_of-append p q task [] = refl
owner_of-append p q task (l ∷ ls) = ground (arith, owner_of-append p q task ls)

append-IsExclusive :
    (p : String) (task : ℕ) (ls : List Lease)
    → owner_of p ls ≡ none
    → IsExclusive ls
    → IsExclusive (ls ++ record { owner = task; path = p } ∷ [])
append-IsExclusive p task [] h x = (refl, tt)
append-IsExclusive p task (l ∷ ls) h x = (
  rw (owner_of-append p l.path task ls) (ground (arith, eq_iff l.path p, eq_iff p l.path)),
  append-IsExclusive p task ls (ground arith) x.1,
)

pub insert_lease-IsExclusive :
    (task : ℕ) (p : String) (ls : List Lease)
    → IsExclusive ls
    → IsExclusive (insert_lease task p ls)
insert_lease-IsExclusive task p ls x = elim (Option-cases (owner_of p ls)) [
  | inl free ↦ rw (free, insert_lease) (append-IsExclusive p task ls free x)
  | inr (o, taken) ↦ rw (taken, insert_lease) x
]

-- On a session without faults, a path that another task owns is refused, and nothing changes.
pub acquire_path_lease_refuses :
    (task other : ℕ) (p : String) (d : Dag)
    → owner_of p d.leases ≡ some other
    → other ≢ task
    → acquire_path_lease task p (quiet d) ≡ (ok false, quiet d)
unfolding acquire_path_lease
acquire_path_lease_refuses task other p d h k = ground arith

-- On a session without faults, a path that is free or already the task's is granted: it is the task's
-- afterwards, and every other path keeps its owner.
pub acquire_path_lease_grants :
    (task : ℕ) (p q : String) (d : Dag)
    → (owner_of p d.leases ≡ none) ⊎ (owner_of p d.leases ≡ some task)
    → ((acquire_path_lease task p (quiet d)).0 ≡ ok true)
      × (owner_of q (acquire_path_lease task p (quiet d)).1.tables.leases
          ≡ (if str_eq p q then some task else owner_of q d.leases))
unfolding acquire_path_lease
acquire_path_lease_grants task p q d (inl free) =
    (ground arith, ground (arith, owner_of-append p q task d.leases, eq_iff p q))
acquire_path_lease_grants task p q d (inr mine) = (ground arith, ground (arith, eq_iff p q))

-- When the driver fails to read the owner and the next statement runs, `AcquirePathLease` grants the
-- path to a task although another task owns it, and the other task's lease stays.
pub acquire_path_lease_ignores_fault :
    (task other : ℕ) (p : String) (d : Dag)
    → owner_of p d.leases ≡ some other
    → other ≢ task
    → acquire_path_lease task p (record { tables = d; faults = true ∷ [] }) ≡ (ok true, quiet d)
unfolding acquire_path_lease
acquire_path_lease_ignores_fault task other p d h k = ground arith

pub owner_of-release :
    (task : ℕ) (q : String) (ls : List Lease)
    → IsExclusive ls
    → owner_of q (keep_where (λ l. not (l.owner == task)) ls)
      ≡ elim (owner_of q ls) [ none ↦ none | some o ↦ if o == task then none else some o ]
owner_of-release task q [] x = refl
owner_of-release task q (l ∷ ls) x = ground (arith, owner_of-release task q ls x.1, eq_iff l.path q)

-- On a session without faults, `ReleasePathLeases` frees exactly the paths that the task owned, when
-- no path has two rows.
pub owner_of-release_path_leases :
    (task : ℕ) (q : String) (d : Dag)
    → IsExclusive d.leases
    → owner_of q (release_path_leases task (quiet d)).1.tables.leases
      ≡ elim (owner_of q d.leases) [ none ↦ none | some o ↦ if o == task then none else some o ]
unfolding release_path_leases
owner_of-release_path_leases task q d x = owner_of-release task q d.leases x

-- Two grants of one path with no release between them are to the same task.
pub acquire_path_lease_once :
    (a b : ℕ) (p : String) (d : Dag)
    → (acquire_path_lease a p (quiet d)).0 ≡ ok true
    → (acquire_path_lease b p (acquire_path_lease a p (quiet d)).1).0 ≡ ok true
    → a ≡ b
unfolding acquire_path_lease
acquire_path_lease_once a b p d h k = ground (arith, owner_of-append p p a d.leases, eq_refl p)

-- The owners that `CheckPathOverlap` reports on a session without faults, in the order of the paths.
pub check_path_overlap_lem :
    (ps : List String) (d : Dag)
    → check_path_overlap ps (quiet d) ≡ (ok (owners ps d.leases), quiet d)
unfolding check_path_overlap
check_path_overlap_lem [] d = refl
check_path_overlap_lem (p ∷ ps) d = ground (arith, check_path_overlap_lem ps d)
