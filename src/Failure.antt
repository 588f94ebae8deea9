-- ===== src/Failure.antt =====
-- src/astra_indexator/application/retry_policy.py: the retry delay, and the handler that turns a
-- failure into RETRY_WAIT, FAILED or DEAD_LETTER. The jitter is computed in floats from a SHA-256
-- digest; its rounded result is the parameter `jittered`.
pub mod Outcome
pub use astra_indexator.Database.{
  FailureClass, transient, permanent_input, permanent_policy, resource_limit, downstream_ambiguous,
  ownership_lost, was_cancelled, internal_bug, dependency_unavailable,
}
use astra_indexator.Prelude.{
  ℕ, ◌+◌, ◌-◌, ◌*◌, ◌^◌, ◌≡◌, min, Bool, true, false, ◌&&◌, List, [], ◌∷◌, Option, none, some,
  String, find, ltb, ◌==◌, if◌then◌else◌,
}
use astra_indexator.Prelude.Int.{ℤ, pos, negsuc}
use astra_indexator.Prelude.Tables.{update_where}
use astra_indexator.Text.{CaseTable}
use astra_indexator.Exec.{
  Error, value_error, type_error, runtime_error, lease_lost, rpc_window_too_short,
  delivery_integrity, delivery_sequence, batch_planning, block_validation, readiness_integrity,
  transport, Tx, ok, err, pure, gets, modify, raise_if, or_raise, ◌>>=◌, ◌>>◌,
}
use astra_indexator.Database.{
  Status, processing, failed, dead_letter, Job, AttemptResult, was_dead_lettered, has_failed,
  Attempt, Occurrence, job_dead_lettered, job_failed, Event, Db, add_event,
}
use astra_indexator.Policy.{
  RetryDecision, backoff_and_retry, reconcile_status, classify_grpc_failure,
}
use astra_indexator.Coordinator.{fencing_predicate, open_of_token, schedule_retry}
use astra_indexator.Claiming.{LeaseToken}

-- `FailureAction`, with the constructors that `Status` also has under other names.
pub data FailureAction : Type 0 where
  retry_later reconcile fail_job send_to_dead_letter abandon : FailureAction

-- `RetryBackoffConfig`; of the jitter ratio only whether it is zero is read here.
pub record BackoffConfig : Type 0 where
  pub base_delay_seconds : ℕ
  pub max_delay_seconds : ℕ
  pub no_jitter : Bool

-- `__post_init__`
pub record IsConfig (c : BackoffConfig) : Type 0 where
  pub positive : ltb 0 c.base_delay_seconds ≡ true
  pub ordered : ltb c.max_delay_seconds c.base_delay_seconds ≡ false

pub record FailureDecision : Type 0 where
  pub failure_class : FailureClass
  pub action : FailureAction
  pub error_code : String
  pub error_message : String
  pub retry_after_seconds : Option ℕ

-- `max(0, min(limit, n))`
abbrev clamp : ℕ → ℤ → ℕ
clamp limit (pos n) = min limit n
clamp limit (negsuc n) = 0

-- `max(attempt_count - 1, 0)` is the truncated `-`. `jittered raw token attempt_count` is
-- `int(round(raw * (1.0 + signed * jitter_ratio)))`.
unfoldable pub delay_seconds : (ℕ → LeaseToken → ℕ → ℤ) → BackoffConfig → LeaseToken → ℕ → ℕ
delay_seconds jittered c token attempt_count =
    let raw = min c.max_delay_seconds (c.base_delay_seconds * 2 ^ (attempt_count - 1)) in
    if c.no_jitter then raw else clamp c.max_delay_seconds (jittered raw token attempt_count)

-- `isinstance(exc, (ValueError, TypeError))`, subclasses included.
abbrev is_input_error : Error → Bool
is_input_error value_error = true
is_input_error type_error = true
is_input_error batch_planning = true
is_input_error block_validation = true
is_input_error _ = false

unfoldable pub classify_transport : RetryDecision → FailureClass
classify_transport backoff_and_retry = dependency_unavailable
classify_transport reconcile_status = downstream_ambiguous
classify_transport _ = permanent_policy

-- `classify_exception`: the class; code and message are the exception's name and text.
unfoldable pub classify_exception : CaseTable → Error → FailureClass
unfolding classify_transport
classify_exception t lease_lost = ownership_lost
classify_exception t (transport code message) =
    classify_transport (classify_grpc_failure t code message)
classify_exception t e = if is_input_error e then permanent_input else internal_bug

abbrev pub is_retryable : FailureClass → Bool
is_retryable transient = true
is_retryable dependency_unavailable = true
is_retryable _ = false

unfoldable pub terminal_row : Status → String → String → ℕ → Job → Job
terminal_row terminal error_code error_message now job = record job {
  status = terminal;
  worker_id = none;
  lease_acquired_at = none;
  lease_until = none;
  last_heartbeat_at = none;
  next_retry_at = none;
  last_error_code = some error_code;
  last_error_message = some error_message;
  updated_at = now;
}

abbrev terminal_status : Bool → Status
terminal_status retryable = if retryable then dead_letter else failed

abbrev terminal_result : Bool → AttemptResult
terminal_result retryable = if retryable then was_dead_lettered else has_failed

terminal_event : LeaseToken → FailureClass → String → ℕ → Job → Event
terminal_event token c error_code now job = record {
  job_id = job.id;
  attempt_id = token.attempt_id;
  occurrence =
      if is_retryable c
      then job_dead_lettered token.worker_id c job.attempt_count job.max_attempts error_code
      else job_failed token.worker_id c job.attempt_count job.max_attempts error_code;
  from_status = some processing;
  to_status = some (terminal_status (is_retryable c));
  processing_stage = job.processing_stage;
  lease_generation = token.lease_generation;
  created_at = now;
}

closed_attempt : Bool → String → String → ℕ → Option String → Attempt → Attempt
closed_attempt retryable error_code error_message now stage a = record a {
  finished_at = some now;
  finished_stage = stage;
  result = some (terminal_result retryable);
  error_code = some error_code;
  error_message = some error_message;
}

abbrev decision : FailureClass → FailureAction → String → String → Option ℕ → FailureDecision
decision c a error_code error_message delay = record {
  failure_class = c;
  action = a;
  error_code = error_code;
  error_message = error_message;
  retry_after_seconds = delay;
}

-- The job is failed or dead-lettered; a closed attempt raises, and the transaction is rolled back.
unfoldable pub terminate : LeaseToken → FailureClass → String → String → Job → Tx Db FailureDecision
unfolding terminal_row terminal_event closed_attempt
terminate token c error_code error_message job = do
  now ← gets (λ db. db.now)
  modify (λ db. record db {
    jobs =
        update_where (λ r. r.id == job.id)
          (terminal_row (terminal_status (is_retryable c)) error_code error_message now) db.jobs;
  })
  found ← gets (λ db. find (open_of_token token) db.attempts)
  attempt ← or_raise found lease_lost
  modify (λ db. record db {
    attempts =
        update_where (λ a. a.id == attempt.id)
          (closed_attempt (is_retryable c) error_code error_message now job.processing_stage)
          db.attempts;
  })
  modify (add_event (terminal_event token c error_code now job))
  pure (
      decision c (if is_retryable c then send_to_dead_letter else fail_job) error_code error_message
        none)

unfoldable pub retry_with : LeaseToken → FailureClass → String → String → ℕ → Tx Db FailureDecision
retry_with token c error_code error_message delay = do
  schedule_retry token (pos delay) (some error_code) (some error_message)
  pure (decision c retry_later error_code error_message (some delay))

-- The transaction of `handle`.
unfoldable pub settle :
    (ℕ → LeaseToken → ℕ → ℤ)
    → BackoffConfig
    → LeaseToken
    → FailureClass
    → String
    → String
    → Tx Db FailureDecision
settle jittered config token c error_code error_message = do
  row ← gets (λ db. find (fencing_predicate token db.now) db.jobs)
  job ← or_raise row lease_lost
  if is_retryable c && ltb job.attempt_count job.max_attempts
      then retry_with token c error_code error_message
          (delay_seconds jittered config token job.attempt_count)
      else terminate token c error_code error_message job

-- `handle`: lost ownership and ambiguous outcomes open no transaction.
unfoldable pub handle :
    (ℕ → LeaseToken → ℕ → ℤ)
    → BackoffConfig
    → LeaseToken
    → FailureClass
    → String
    → String
    → Tx Db FailureDecision
handle jittered config token ownership_lost error_code error_message =
    pure (decision ownership_lost abandon error_code error_message none)
handle jittered config token downstream_ambiguous error_code error_message =
    pure (decision downstream_ambiguous reconcile error_code error_message none)
handle jittered config token c error_code error_message =
    settle jittered config token c error_code error_message
