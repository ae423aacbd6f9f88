-- ===== src/Orchestrator/Resume/Ours.antt =====
-- The attempts that are taken over after a restart.
use omni_orchestration.Prelude.{ℕ, ◌≡◌, true, Option, none, some, List, ◌∷◌, length, All}
use Prim.Native.String.{◌++◌ as append}
use omni_orchestration.Session.{Result, ok, err, Session}
use omni_orchestration.Taskstore.{Taskstore, Error}
use omni_orchestration.Coordinator.{Decision, fail, retry_clean}
use omni_orchestration.Runtime.Attach.{AttachIdentity, Processes, verify_identity}
use omni_orchestration.Runtime.Attach.Identity.{Agrees}
use omni_orchestration.Orchestrator.Resume.{Owned, stored_identity, add_owned}

-- The process of the attempt is alive, and `ps` shows what its worker's row says.
abbrev pub IsOurs : Processes → Owned → Type 0
IsOurs os o =
    (os.is_alive o.worker.pid ≡ true)
    × ((found : AttachIdentity) × (verify_identity os o.worker.pid ≡ some found)
        × Agrees (stored_identity o.worker) found)

-- One decision, and an attempt that is taken over exactly with RETRY_CLEAN.
abbrev IsDecided : Processes → Result Error (Decision × Option Owned) → Type 0
IsDecided os (ok (d, none)) = d ≡ fail
IsDecided os (ok (d, some o)) = (d ≡ retry_clean) × IsOurs os o
IsDecided os (err e) = ⊥

abbrev Resumes : Processes → ℕ → Result Error (List Decision × List Owned) → Type 0
Resumes os n out =
    (ds : List Decision) × (owned : List Owned) × (out ≡ ok (ds, owned))
    × (length ds ≡ n)
    × All (IsOurs os) owned

abbrev with_later :
    Result Error (List Decision × List Owned)
    → Decision × Option Owned
    → Result Error (List Decision × List Owned)
with_later (ok later) first = ok (first.0 ∷ later.0, add_owned first.1 later.1)
with_later (err e) first = err e
