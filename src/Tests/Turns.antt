-- ===== src/Tests/Turns.antt =====
-- Delivery turns of a claimed job that raise.
use astra_indexator.Prelude.{ℕ, ◌≡◌, ◌⊎◌, refl, inl, none, some}
use astra_indexator.Prelude.Tables.{find_key, update_where}
use astra_indexator.Text.{is_blank}
use astra_indexator.Exec.{err, readiness_pending, rpc_window_too_short}
use astra_indexator.Database.{Db, Job, failed}
use astra_indexator.Coordinator.{fencing_predicate, open_of_token}
use astra_indexator.Claiming.{claim_next, selected}
use astra_indexator.Coordinator.Rows.{HasKeys, job_of}
use astra_indexator.Failure.{
  internal_bug, FailureDecision, abandon, fail_job, classify_exception, handle, settle, terminate,
}
use astra_indexator.Execution.{classify, execute}
use astra_indexator.Execution.Classes.{Classed}
use astra_indexator.Execution.Failures.{Failed, Lost, execute_lem, never_retried}
use astra_indexator.Tests.Ascii.{ascii}
use astra_indexator.Tests.Jobs.{claimed_db, token, no_jitter, jitter_up}

claimed_db-HasKeys : HasKeys claimed_db
unfolding claim_next find_key is_blank selected update_where
claimed_db-HasKeys = (refl, tt)

execute_lem_example :
    Classed ascii readiness_pending (classify ascii readiness_pending)
    × Failed {A = ℕ}
        (token 1)
        readiness_pending
        (classify ascii readiness_pending)
        (handle jitter_up no_jitter
          (token 1)
          (classify ascii readiness_pending)
          "Pending"
          "still syncing"
          claimed_db)
        claimed_db
        (execute ascii jitter_up no_jitter
          (token 1)
          "Pending"
          "still syncing"
          "stale"
          (err readiness_pending)
          claimed_db)
execute_lem_example =
    execute_lem ascii jitter_up no_jitter (token 1) "Pending" "still syncing" "stale" ℕ claimed_db
      claimed_db-HasKeys readiness_pending

abbrev failed_db : Db
failed_db =
    (execute ascii jitter_up no_jitter (token 1) "Window" "too short" "stale" {A = ℕ}
      (err rpc_window_too_short) claimed_db).1

abbrev failed_decision : FailureDecision
failed_decision = record {
  failure_class = internal_bug;
  action = fail_job;
  error_code = "Window";
  error_message = "too short";
  retry_after_seconds = none;
}

never_retried_example :
    ((job' : Job) × (job_of 7 failed_db ≡ some job')
      × (job'.status ≡ failed)
      × (job'.worker_id ≡ none)
      × (fail_job ≡ fail_job))
    ⊎ ((failed_db ≡ claimed_db) × (fail_job ≡ abandon) × Lost (token 1) claimed_db)
unfolding execute claim_next is_blank selected classify classify_exception handle settle
    update_where fencing_predicate terminate open_of_token
never_retried_example =
    never_retried ascii jitter_up no_jitter (token 1) "Window" "too short" "stale" ℕ claimed_db
      claimed_db-HasKeys rpc_window_too_short failed_db failed_decision (inl refl) refl
