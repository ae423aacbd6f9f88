-- ===== src/Orchestrator/Authority/Stale.antt =====
-- What the authority checks let through.
use omni_orchestration.Prelude.{
  ℕ, ◌≤◌, ◌<◌, ◌≡◌, refl, ap, Option, none, some, List, [], ◌∷◌, ◌==◌, ltb, find?, keep_where,
  arith, Bool-cases, inl, inr, ◌↔◌, ◌⊎◌, IsIn, here, there, IsIn-keep_where,
}
use omni_orchestration.Session.{ok, err}
use omni_orchestration.Taskstore.{Attempt, Taskstore, quiet, or_no_rows}
use omni_orchestration.Taskstore.Records.{of_run}
use omni_orchestration.Taskstore.Work.{by_number, insert_by_number}
use omni_orchestration.Taskstore.Work.Found.{IsSorted, by_number-IsSorted}
use omni_orchestration.Orchestrator.Authority.{
  Authority, stale_attempt_generation, validate_mutation, validate_child_result, last,
  check_attempt,
}

-- No generation of the first is below the second's.
pub record IsCurrent (a current : Authority) : Type 0 where
  pub epoch : current.run_epoch ≤ a.run_epoch
  pub task : current.task_generation ≤ a.task_generation
  pub attempt : current.attempt_generation ≤ a.attempt_generation
  pub worker : current.worker_lease_generation ≤ a.worker_lease_generation

-- `ValidateMutation` accepts an intent exactly when none of its four generations is below the
-- current one.
pub validate_mutation_iff :
    (a current : Authority) → (validate_mutation a (some current) ≡ ok tt) ↔ IsCurrent a current
unfolding validate_mutation
validate_mutation_iff a current = (
  λ h. record {
    epoch = ground arith;
    task = ground arith;
    attempt = ground arith;
    worker = ground arith;
  },
  λ c. ground (arith, c.epoch, c.task, c.attempt, c.worker),
)

-- A child's result that `ValidateChildResult` accepts against its parent is accepted against whatever
-- authority the parent is itself current for.
pub validate_child_result_trans :
    (child parent current : Authority)
    → validate_child_result child (some parent) ≡ ok tt
    → validate_mutation parent (some current) ≡ ok tt
    → validate_child_result child (some current) ≡ ok tt
unfolding validate_mutation validate_child_result
validate_child_result_trans child parent current h k = ground arith

last_largest :
    (a : Attempt) (xs : List Attempt)
    → IsSorted xs
    → IsIn a xs
    → (b : Attempt) × (last xs ≡ some b) × (a.number ≤ b.number)
last_largest a [] s m = elim m [ ]
last_largest a (x ∷ []) s (here e) = (x, refl, rw e (omega arith))
last_largest a (x ∷ []) s (there m) = elim m [ ]
last_largest a (x ∷ y ∷ ys) s (here e) =
    let (b, q, le) = last_largest y (y ∷ ys) s.1 (here refl) in
    (b, rw q refl, omega (arith, s.0.0, le, ap (λ (r : Attempt). r.number) e))
last_largest a (x ∷ y ∷ ys) s (there m) =
    let (b, q, le) = last_largest a (y ∷ ys) s.1 m in (b, rw q refl, le)

IsIn-insert_by_number :
    (a x : Attempt) (xs : List Attempt) → (a ≡ x) ⊎ IsIn a xs → IsIn a (insert_by_number x xs)
IsIn-insert_by_number a x [] (inl e) = here e
IsIn-insert_by_number a x [] (inr m) = elim m [ ]
IsIn-insert_by_number a x (y ∷ ys) m = elim (Bool-cases (ltb y.number x.number)) [
  | inl less ↦ rw less (later m (λ k. IsIn-insert_by_number a x ys k))
  | inr more ↦ rw more (front m)
]
  where
    later :
        (a ≡ x) ⊎ IsIn a (y ∷ ys)
        → ((a ≡ x) ⊎ IsIn a ys → IsIn a (insert_by_number x ys))
        → IsIn a (y ∷ insert_by_number x ys)
    later (inl e) k = there (k (inl e))
    later (inr (here e)) k = here e
    later (inr (there n)) k = there (k (inr n))

    front : (a ≡ x) ⊎ IsIn a (y ∷ ys) → IsIn a (x ∷ y ∷ ys)
    front (inl e) = here e
    front (inr n) = there n

IsIn-by_number : (a : Attempt) (xs : List Attempt) → IsIn a xs → IsIn a (by_number xs)
IsIn-by_number a [] m = elim m [ ]
IsIn-by_number a (x ∷ xs) (here e) = IsIn-insert_by_number a x (by_number xs) (inl e)
IsIn-by_number a (x ∷ xs) (there m) =
    IsIn-insert_by_number a x (by_number xs) (inr (IsIn-by_number a xs m))

latest :
    (a : Attempt) (task : ℕ) (t : Taskstore)
    → IsIn a t.attempts.rows
    → a.task_id ≡ task
    → (b : Attempt) × (last (by_number (keep_where (λ r. r.task_id == task) t.attempts.rows))
        ≡ some b)
      × (a.number ≤ b.number)
latest a task t m e =
    let kept = keep_where (λ (r : Attempt). r.task_id == task) t.attempts.rows in
    last_largest a (by_number kept) (by_number-IsSorted kept) (
      IsIn-by_number a kept
        (IsIn-keep_where (λ (r : Attempt). r.task_id == task) a t.attempts.rows m (ground arith)))

or_no_rows-keeps :
    {A : Type 0} (o : Option A) (t : Taskstore) → (or_no_rows o (quiet t)).1 ≡ quiet t
or_no_rows-keeps none t = refl
or_no_rows-keeps (some a) t = refl

-- On a session without faults, the check before a worker is created refuses an attempt when the store
-- holds an attempt of the same task with a larger number.
pub check_attempt_stale :
    (run task number : ℕ) (t : Taskstore) (a : Attempt)
    → IsIn a t.attempts.rows
    → a.task_id ≡ task
    → number < a.number
    → (check_attempt run task number (quiet t)).0 ≡ ok (err stale_attempt_generation)
unfolding check_attempt
check_attempt_stale run task number t a m e lt =
    let (b, q, le) = latest a task t m e in
    rw
      (
        or_no_rows-keeps (find? (of_run run) t.run_records.rows) t,
        or_no_rows-keeps (find? (λ r. r.id == task) t.tasks.rows) t,
        q,
      )
      (ground arith)
