-- ===== src/Taskstore/Records.antt =====
-- internal/taskstore/store.go: the run records, which count attempts and say what was adopted.
pub mod Outcomes
use omni_orchestration.Prelude.{
  ℕ, ◌+◌, String, str_eq, Bool, true, false, Option, none, some, List, [], ◌∷◌, ◌==◌, ltb, any,
  find?, keep_where, count_where, update_where, length, if◌then◌else◌,
}
use omni_orchestration.Session.{
  Result, ok, err, pure, raise, ◌>>=◌, ◌>>◌, attempt, statement, query,
}
use omni_orchestration.Taskstore.{
  Table, insert, RunRecord, Taskstore, Error, db_error, forced, StoreAction, or_no_rows,
}

abbrev pub of_run : ℕ → RunRecord → Bool
of_run run r = r.run_id == run

unfoldable pub get_run_record : ℕ → StoreAction RunRecord
get_run_record run = do
  found ← query db_error (λ t. find? (of_run run) t.run_records.rows)
  or_no_rows found

abbrev pub new_record : ℕ → String → String → String → String → String → ℕ → RunRecord
new_record run provider model role category repo id = record {
  id = id;
  run_id = run;
  provider = provider;
  model = model;
  role = role;
  task_category = category;
  repo = repo;
  attempt_count = 0;
  validator_reject_count = 0;
  replacement_count = 0;
  duration_ms = 0;
  final_adopted_attempt = 0;
  candidate_accepted_attempt = 0;
}

-- `INSERT OR IGNORE`: the index on `run_id` is UNIQUE.
unfoldable pub record_run : ℕ → String → String → String → String → String → StoreAction (Unit {0})
record_run run provider model role category repo = statement db_error λ t.
    if any (of_run run) t.run_records.rows
    then (tt, t)
    else let (id, records) =
        insert (new_record run provider model role category repo) t.run_records in
      (tt, record t { run_records = records })

abbrev pub update_records : ℕ → (RunRecord → RunRecord) → Taskstore → Unit {0} × Taskstore
update_records run f t = (
  tt,
  record t {
    run_records = record t.run_records { rows = update_where (of_run run) f t.run_records.rows };
  },
)

abbrev pub larger : ℕ → ℕ → ℕ
larger a b = if ltb a b then b else a

-- The two UPDATEs, which differ in the count of rejections.
abbrev pub with_outcome : ℕ → Bool → ℕ → RunRecord → RunRecord
with_outcome number passed ms r = record r {
  attempt_count = larger r.attempt_count number;
  validator_reject_count =
      if passed then r.validator_reject_count else r.validator_reject_count + 1;
  duration_ms = r.duration_ms + ms;
}

unfoldable pub record_attempt_outcome : ℕ → ℕ → Bool → ℕ → StoreAction (Unit {0})
record_attempt_outcome run number passed ms =
    statement db_error (update_records run (with_outcome number passed ms))

-- The fields `ForceAdoptionError` and `ForceCandidateError` are the arguments `force`.
unfoldable pub record_adoption : Bool → ℕ → ℕ → Bool → StoreAction (Unit {0})
record_adoption force run number adopted =
    if force
    then raise forced
    else if adopted
    then statement db_error (update_records run (λ r. record r { final_adopted_attempt = number }))
    else pure tt

unfoldable pub record_candidate : Bool → ℕ → ℕ → StoreAction (Unit {0})
record_candidate force run number =
    if force
    then raise forced
    else statement db_error
        (update_records run (λ r. record r { candidate_accepted_attempt = number }))

abbrev pub candidate_of : Result Error (Option RunRecord) → ℕ
candidate_of (ok (some r)) = r.candidate_accepted_attempt
candidate_of _ = 0

unfoldable pub get_candidate : ℕ → StoreAction ℕ
get_candidate run = do
  found ← attempt (query db_error (λ t. find? (of_run run) t.run_records.rows))
  pure (candidate_of found)

pub record ProviderStatsRow : Type 0 where
  pub total_attempts : ℕ
  pub successes : ℕ
  pub total_rejects : ℕ
  pub total_time_ms : ℕ

abbrev pub total : (RunRecord → ℕ) → List RunRecord → ℕ
total f [] = 0
total f (r ∷ rs) = f r + total f rs

abbrev pub stats_of : List RunRecord → ProviderStatsRow
stats_of rs = record {
  total_attempts = length rs;
  successes = count_where (λ r. ltb 0 r.final_adopted_attempt) rs;
  total_rejects = total (λ r. r.validator_reject_count) rs;
  total_time_ms = total (λ r. r.duration_ms) rs;
}

abbrev pub or_zeroes : Result Error ProviderStatsRow → ProviderStatsRow
or_zeroes (ok row) = row
or_zeroes (err _) = stats_of []

unfoldable pub stats_for : String → StoreAction ProviderStatsRow
stats_for provider = do
  row ← attempt (
      query db_error
        (λ t. stats_of (keep_where (λ r. str_eq r.provider provider) t.run_records.rows)))
  pure (or_zeroes row)
