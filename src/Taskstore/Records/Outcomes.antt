-- ===== src/Taskstore/Records/Outcomes.antt =====
-- What the run records say after any number of attempts.
use omni_orchestration.Prelude.{
  ℕ, ◌+◌, String, ◌≡◌, refl, ◌∙◌, Bool, true, false, some, List, [], ◌∷◌, any, find?, update_where,
  if◌then◌else◌, arith, Bool-cases, inl, inr, All, All-update_where, All-append,
}
use omni_orchestration.Session.{ok, Session, head_fault}
use omni_orchestration.Taskstore.{RunRecord, Taskstore, quiet}
use omni_orchestration.Taskstore.Records.{
  of_run, larger, with_outcome, record_run, get_run_record, record_attempt_outcome, record_adoption,
  record_candidate,
}

find-update :
    (run : ℕ) (f : RunRecord → RunRecord) (r : RunRecord) (rs : List RunRecord)
    → ((x : RunRecord) → (f x).run_id ≡ x.run_id)
    → find? (of_run run) rs ≡ some r
    → find? (of_run run) (update_where (of_run run) f rs) ≡ some (f r)
find-update run f r [] keeps h = absurd (ground arith)
find-update run f r (x ∷ rs) keeps h = elim (Bool-cases (of_run run x)) [
  | inl hit ↦ let same : x ≡ r = ground arith in rw (← same) (ground (arith, keeps x))
  | inr miss ↦ ground (arith, find-update run f r rs keeps)
]

-- One attempt: its number, whether its validator passed, and its time.
pub record Outcome : Type 0 where
  pub number : ℕ
  pub passed : Bool
  pub ms : ℕ

unfoldable pub record_all : ℕ → List Outcome → Session Taskstore → Session Taskstore
unfolding record_attempt_outcome
record_all run [] s = s
record_all run (o ∷ os) s =
    record_all run os (record_attempt_outcome run o.number o.passed o.ms s).1

abbrev pub largest : ℕ → List Outcome → ℕ
largest n [] = n
largest n (o ∷ os) = largest (larger n o.number) os

abbrev pub rejected : List Outcome → ℕ
rejected [] = 0
rejected (o ∷ os) = (if o.passed then 0 else 1) + rejected os

abbrev pub time : List Outcome → ℕ
time [] = 0
time (o ∷ os) = o.ms + time os

-- On a session without faults, after the outcomes of any number of attempts the run's record has the
-- largest attempt number, one more rejection for each attempt that its validator did not pass, and
-- the sum of the times; its other fields are as before.
pub get_run_record-record_all :
    (run : ℕ) (os : List Outcome) (t : Taskstore) (r : RunRecord)
    → find? (of_run run) t.run_records.rows ≡ some r
    → (get_run_record run (record_all run os (quiet t))).0
      ≡ ok (record r {
        attempt_count = largest r.attempt_count os;
        validator_reject_count = r.validator_reject_count + rejected os;
        duration_ms = r.duration_ms + time os;
      })
unfolding get_run_record record_all
get_run_record-record_all run [] t r h = rw h (ground arith)
get_run_record-record_all run (o ∷ os) t r h =
    get_run_record-record_all run os
      (record t {
        run_records = record t.run_records {
          rows = update_where (of_run run) (with_outcome o.number o.passed o.ms) t.run_records.rows;
        };
      })
      (with_outcome o.number o.passed o.ms r)
      (find-update run (with_outcome o.number o.passed o.ms) r t.run_records.rows (λ x. refl) h)
    ∙ ground arith

-- The operations on run records but `RecordAdoption` for an adopted attempt.
pub data Operation : Type 0 where
  starts : ℕ → String → String → String → String → String → Operation
  outcome : ℕ → ℕ → Bool → ℕ → Operation
  candidate : Bool → ℕ → ℕ → Operation
  not_adopted : Bool → ℕ → ℕ → Operation

unfoldable pub apply : Operation → Session Taskstore → Session Taskstore
unfolding record_run record_attempt_outcome record_candidate record_adoption
apply (starts run provider model role category repo) s =
    (record_run run provider model role category repo s).1
apply (outcome run number passed ms) s = (record_attempt_outcome run number passed ms s).1
apply (candidate force run number) s = (record_candidate force run number s).1
apply (not_adopted force run number) s = (record_adoption force run number false s).1

unfoldable pub run_all : List Operation → Session Taskstore → Session Taskstore
unfolding apply
run_all [] s = s
run_all (o ∷ os) s = run_all os (apply o s)

abbrev pub NoneAdopted : List RunRecord → Type 0
NoneAdopted rs = All (λ r. r.final_adopted_attempt ≡ 0) rs

update-NoneAdopted :
    (run : ℕ) (f : RunRecord → RunRecord) (rs : List RunRecord)
    → ((x : RunRecord) → (f x).final_adopted_attempt ≡ x.final_adopted_attempt)
    → NoneAdopted rs
    → NoneAdopted (update_where (of_run run) f rs)
update-NoneAdopted run f rs keeps h =
    All-update_where (λ (r : RunRecord). r.final_adopted_attempt ≡ 0) (of_run run) f rs
      (λ x e _. keeps x ∙ e) h

apply-NoneAdopted :
    (o : Operation) (s : Session Taskstore)
    → NoneAdopted s.tables.run_records.rows
    → NoneAdopted (apply o s).tables.run_records.rows
unfolding apply
apply-NoneAdopted (starts run provider model role category repo) s h =
    elim (Bool-cases (head_fault s.faults)) [
      | inl fault ↦ rw (fault, apply) h
      | inr runs ↦ elim (Bool-cases (any (of_run run) s.tables.run_records.rows)) [
        | inl old ↦ rw (runs, apply, old) h
        | inr new ↦
            rw (runs, apply, new)
              (All-append (λ (r : RunRecord). r.final_adopted_attempt ≡ 0) s.tables.run_records.rows
                _ h (refl, tt))
      ]
    ]
apply-NoneAdopted (outcome run number passed ms) s h = elim (Bool-cases (head_fault s.faults)) [
  | inl fault ↦ rw (fault, apply) h
  | inr runs ↦ rw (runs, apply) (update-NoneAdopted run _ s.tables.run_records.rows (λ x. refl) h)
]
apply-NoneAdopted (candidate true run number) s h = h
apply-NoneAdopted (candidate false run number) s h = elim (Bool-cases (head_fault s.faults)) [
  | inl fault ↦ rw (fault, apply) h
  | inr runs ↦ rw (runs, apply) (update-NoneAdopted run _ s.tables.run_records.rows (λ x. refl) h)
]
apply-NoneAdopted (not_adopted true run number) s h = h
apply-NoneAdopted (not_adopted false run number) s h = h

-- Whatever the driver's faults, no sequence of run starts, attempt outcomes, accepted candidates and
-- rejected adoptions adopts an attempt: where no attempt was adopted before, none is afterwards.
pub run_all-NoneAdopted :
    (os : List Operation) (s : Session Taskstore)
    → NoneAdopted s.tables.run_records.rows
    → NoneAdopted (run_all os s).tables.run_records.rows
unfolding run_all
run_all-NoneAdopted [] s h = h
run_all-NoneAdopted (o ∷ os) s h = run_all-NoneAdopted os (apply o s) (apply-NoneAdopted o s h)
