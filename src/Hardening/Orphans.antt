-- ===== src/Hardening/Orphans.antt =====
-- internal/hardening/hardening.go: the cleanup of orphaned tasks.
use omni_orchestration.Prelude.{
  ◌≡◌, refl, Bool, false, List, [], ◌∷◌, keep_where, arith, Bool-cases, inl, inr,
}
use omni_orchestration.Session.{ok, Session}
use omni_orchestration.Dag.{Dag, Task, pending, active, same_status, quiet}
use omni_orchestration.Hardening.{clean_each, orphan_cleanup}

clean_none :
    (attempts : Bool) (ts : List Task) (s : Session Dag)
    → clean_each attempts (keep_where (λ t. same_status t.status pending) ts) s ≡ (ok 0, s)
unfolding clean_each
clean_none attempts [] s = refl
clean_none attempts (t ∷ ts) s = elim (Bool-cases (same_status t.status pending)) [
  | inl here ↦
      let other : same_status t.status active ≡ false = ground arith in
      rw (here, other) (clean_none attempts ts s)
  | inr away ↦ rw away (clean_none attempts ts s)
]

-- On a session without faults, `OrphanCleanup` cleans nothing and changes nothing, whatever tasks the
-- graph holds and whether or not any attempt is active.
pub orphan_cleanup_idle :
    (attempts : Bool) (d : Dag) → orphan_cleanup attempts (quiet d) ≡ (ok 0, quiet d)
unfolding orphan_cleanup
orphan_cleanup_idle attempts d = clean_none attempts d.tasks (quiet d)
