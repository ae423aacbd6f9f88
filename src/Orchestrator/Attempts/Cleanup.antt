-- ===== src/Orchestrator/Attempts/Cleanup.antt =====
-- What `createAttempt` leaves behind: the worktree and the process of an attempt that is not made.
use omni_orchestration.Prelude.{
  ℕ, ◌≡◌, refl, ap, String, str_eq, none, some, List, [], ◌∷◌, ◌++◌, ◌⊎◌, inl, inr, Bool-cases,
}
use omni_orchestration.Session.{Result, ok, err}
use omni_orchestration.Taskstore.{Attempt, WorkerRecord, Error}
use omni_orchestration.Orchestrator.Attempts.{
  Context, RunError, resolved, with_worker, open_attempt, site_of,
}
use omni_orchestration.Orchestrator.Attempts.Rule.{open_attempt_rule}
use omni_orchestration.Orchestrator.Terminal.{Tracked}
use omni_orchestration.Orchestrator.World.{WorktreeInfo, World}

-- No worktree was made and none is removed, or the one that was made is removed.
abbrev pub IsRemoved : Context → ℕ → World → World → Type 0
IsRemoved c number w0 w =
    ((c.env.worktree number ≡ none) × (w.removed ≡ w0.removed))
    ⊎ ((info : WorktreeInfo) × (c.env.worktree number ≡ some info)
        × (w.removed ≡ w0.removed ++ (resolved c.env info).path ∷ []))

-- No process was started and none is closed, or the one that was started is closed.
abbrev pub IsClosed : World → World → Type 0
IsClosed w0 w =
    ((w.started ≡ w0.started) × (w.closed ≡ w0.closed))
    ⊎ ((pid : ℕ) × (w.started ≡ w0.started ++ pid ∷ []) × (w.closed ≡ w0.closed ++ pid ∷ []))

abbrev pub IsTidy : Context → ℕ → World → Result RunError Tracked × World → Type 0
IsTidy c number w0 (ok a, w) =
    (w.removed ≡ w0.removed)
    × (w.started ≡ w0.started ++ a.pid ∷ [])
    × (w.closed ≡ w0.closed)
    × (c.env.start number ≡ some a.pid)
IsTidy c number w0 (err e, w) = IsRemoved c number w0 w × IsClosed w0 w

abbrev Untouched : World → World → Type 0
Untouched w0 w = (w.removed ≡ w0.removed) × (w.started ≡ w0.started) × (w.closed ≡ w0.closed)

abbrev Started : World → ℕ → World → Type 0
Started w0 pid w =
    (w.removed ≡ w0.removed) × (w.started ≡ w0.started ++ pid ∷ []) × (w.closed ≡ w0.closed)

with_worker-IsTidy :
    (c : Context) (number : ℕ) (instruction : String) (w0 : World) (info : WorktreeInfo)
    (row : Attempt) (pid : ℕ) (made : Result Error WorkerRecord) (w : World)
    → c.env.worktree number ≡ some info
    → c.env.start number ≡ some pid
    → Started w0 pid w
    → IsTidy c number w0 (with_worker (site_of c number info instruction row) pid made w)
unfolding with_worker
with_worker-IsTidy c number instruction w0 info row pid (err e) w h k j = (
  inr (info, h, ap (λ (l : List String). l ++ (resolved c.env info).path ∷ []) j.0),
  inr (pid, j.1, ap (λ (l : List ℕ). l ++ pid ∷ []) j.2),
)
with_worker-IsTidy c number instruction w0 info row pid (ok worker) w h k j =
    elim (Bool-cases (str_eq instruction "")) [
      | inl silent ↦ rw silent (j.0, j.1, j.2, k)
      | inr told ↦ rw told (j.0, j.1, j.2, k)
    ]

-- An attempt that is made has a process of its own, which is not closed, and no worktree is removed. One
-- that fails leaves neither: the worktree is removed if git made one, and the process is closed if
-- one was started.
pub open_attempt-IsTidy :
    (c : Context) (number : ℕ) (base instruction : String) (w : World)
    → IsTidy c number w (open_attempt c number base instruction w)
open_attempt-IsTidy c number base instruction w =
    open_attempt_rule c number base instruction (Untouched w) (Started w) (IsTidy c number w)
      (λ A m v i. i) (λ A m pid v i. i)
      (λ pid v i. (i.0, ap (λ (l : List ℕ). l ++ pid ∷ []) i.1, i.2))
      (λ v h i. (inl (h, i.0), inl (i.1, i.2)))
      (λ info e v h k i. (
        inr (info, h, ap (λ (l : List String). l ++ (resolved c.env info).path ∷ []) i.0),
        inl (i.1, i.2),
      ))
      (with_worker-IsTidy c number instruction w) w (refl, refl, refl)
