-- ===== src/Taskstore/Work/Found.antt =====
-- internal/taskstore/store.go: runs, tasks and attempts, written and read.
use omni_orchestration.Prelude.{
  ℕ, ◌+◌, ◌≤◌, ◌<◌, String, ◌≡◌, refl, Bool, true, some, List, [], ◌∷◌, ◌++◌, ◌==◌, ltb, find?,
  update_where, arith, Bool-cases, inl, inr, ==_refl, IsIn, here, there, All,
}
use omni_orchestration.Session.{ok}
use omni_orchestration.Taskstore.{Status, Attempt, WorkerRecord, Taskstore, quiet}
use omni_orchestration.Taskstore.Work.{
  create_attempt, get_attempt, new_attempt, update_attempt_status, record_worker_pid,
  get_worker_by_attempt, new_worker, find_last, by_number, insert_by_number,
}

-- AUTOINCREMENT has passed every attempt.
abbrev pub IsNumbered : Taskstore → Type 0
IsNumbered t = (a : Attempt) → IsIn a t.attempts.rows → a.id ≤ t.attempts.last_id

find_new :
    (id : ℕ) (a : Attempt) (xs : List Attempt)
    → ((x : Attempt) → IsIn x xs → x.id < id)
    → a.id ≡ id
    → find? (λ r. r.id == id) (xs ++ a ∷ []) ≡ some a
find_new id a [] h e = ground arith
find_new id a (x ∷ xs) h e =
    ground (arith, h x (here refl), find_new id a xs (λ y m. h y (there m)) e)

-- On sessions without faults, when AUTOINCREMENT has passed every attempt, the attempt that
-- `CreateAttempt` returns is the one that `GetAttempt` finds under its id: pending, without a
-- checkpoint, and with the fields that were given.
pub get_attempt-create_attempt :
    (task number : ℕ) (worker branch base : String) (t : Taskstore)
    → IsNumbered t
    → (get_attempt
        (t.attempts.last_id + 1)
        (create_attempt task number worker branch base (quiet t)).1).0
      ≡ (create_attempt task number worker branch base (quiet t)).0
unfolding get_attempt create_attempt
get_attempt-create_attempt task number worker branch base t n =
    rw
      (find_new (t.attempts.last_id + 1)
        (new_attempt task number worker branch base (t.attempts.last_id + 1)) t.attempts.rows
        (λ x m. omega (arith, n x m)) refl)
      refl

find_updated :
    (id : ℕ) (f : Attempt → Attempt) (a : Attempt) (xs : List Attempt)
    → ((x : Attempt) → (f x).id ≡ x.id)
    → find? (λ r. r.id == id) xs ≡ some a
    → find? (λ r. r.id == id) (update_where (λ r. r.id == id) f xs) ≡ some (f a)
find_updated id f a [] keeps h = absurd (ground arith)
find_updated id f a (x ∷ xs) keeps h = elim (Bool-cases (x.id == id)) [
  | inl hit ↦ ground (arith, keeps x)
  | inr miss ↦ ground (arith, find_updated id f a xs keeps)
]

-- On sessions without faults, an attempt that is in the store has the new status after
-- `UpdateAttemptStatus`, and its other fields are as before.
pub get_attempt-update_attempt_status :
    (id : ℕ) (st : Status) (a : Attempt) (t : Taskstore)
    → find? (λ r. r.id == id) t.attempts.rows ≡ some a
    → (get_attempt id (update_attempt_status id st (quiet t)).1).0 ≡ ok (record a { status = st })
unfolding get_attempt update_attempt_status
get_attempt-update_attempt_status id st a t h =
    rw (find_updated id (λ r. record r { status = st }) a t.attempts.rows (λ x. refl) h) refl

find_last-append :
    (p : WorkerRecord → Bool) (w : WorkerRecord) (ws : List WorkerRecord)
    → p w ≡ true
    → find_last p (ws ++ w ∷ []) ≡ some w
find_last-append p w [] h = ground arith
find_last-append p w (x ∷ ws) h = ground (arith, find_last-append p w ws)

-- On sessions without faults, `GetWorkerByAttempt` finds the worker that was recorded last for the
-- attempt, whatever workers it had before.
pub get_worker_by_attempt-record_worker_pid :
    (now attempt : ℕ) (command cwd role : String) (generation pid pgid : ℕ) (t : Taskstore)
    → (get_worker_by_attempt attempt
        (record_worker_pid now attempt command cwd role generation pid pgid (quiet t)).1).0
      ≡ (record_worker_pid now attempt command cwd role generation pid pgid (quiet t)).0
unfolding get_worker_by_attempt record_worker_pid
get_worker_by_attempt-record_worker_pid now attempt command cwd role generation pid pgid t =
    rw
      (find_last-append (λ r. r.attempt_id == attempt)
        (new_worker now attempt command cwd role generation pid pgid (t.workers.last_id + 1))
        t.workers.rows (==_refl attempt))
      refl

-- The numbers do not fall.
abbrev pub IsSorted : List Attempt → Type 0
IsSorted [] = Unit
IsSorted (a ∷ rest) = All (λ b. a.number ≤ b.number) rest × IsSorted rest

All-insert_by_number :
    (n : ℕ) (a : Attempt) (xs : List Attempt)
    → n ≤ a.number
    → All (λ b. n ≤ b.number) xs
    → All (λ b. n ≤ b.number) (insert_by_number a xs)
All-insert_by_number n a [] h k = (h, tt)
All-insert_by_number n a (x ∷ xs) h k = elim (Bool-cases (ltb x.number a.number)) [
  | inl less ↦ rw less (k.0, All-insert_by_number n a xs h k.1)
  | inr more ↦ rw more (h, k)
]

All-weaken :
    (n m : ℕ) (xs : List Attempt) → n ≤ m → All (λ b. m ≤ b.number) xs → All (λ b. n ≤ b.number) xs
All-weaken n m [] h k = tt
All-weaken n m (x ∷ xs) h k = (omega (arith, k.0), All-weaken n m xs h k.1)

insert_by_number-IsSorted :
    (a : Attempt) (xs : List Attempt) → IsSorted xs → IsSorted (insert_by_number a xs)
insert_by_number-IsSorted a [] h = (tt, tt)
insert_by_number-IsSorted a (x ∷ xs) h = elim (Bool-cases (ltb x.number a.number)) [
  | inl less ↦
      rw less
        (All-insert_by_number x.number a xs (ground arith) h.0, insert_by_number-IsSorted a xs h.1)
  | inr more ↦
      let below : a.number ≤ x.number = ground arith in
      rw more ((below, All-weaken a.number x.number xs below h.0), h)
]

pub by_number-IsSorted : (xs : List Attempt) → IsSorted (by_number xs)
by_number-IsSorted [] = tt
by_number-IsSorted (x ∷ xs) = insert_by_number-IsSorted x (by_number xs) (by_number-IsSorted xs)
