-- ===== src/Tests/Jobs.antt =====
-- A small database on which the statements about jobs and leases are applied.
use astra_indexator.Prelude.{ℕ, ◌+◌, ◌≡◌, refl, ◌≤◌, true, false, List, [], ◌∷◌, Option, none, some}
use astra_indexator.Prelude.Int.{ℤ, pos}
use astra_indexator.Prelude.Tables.{count_where, find_key, update_where}
use astra_indexator.Text.{is_blank}
use astra_indexator.Exec.{Result, ok, err, lease_lost}
use astra_indexator.Coordinator.{
  advance_stage, complete, schedule_retry, owns, fencing_predicate, update_fenced, finish_attempt,
}
use astra_indexator.Claiming.{selected}
use astra_indexator.Coordinator.Rows.{HasKeys}
use astra_indexator.Coordinator.Claim.{Claims, claim_next_lem}
use astra_indexator.Coordinator.Fencing.{stale_token_refused}
use astra_indexator.Inbox.{NewIndexationJob, create_or_get}
use astra_indexator.Inbox.Idempotent.{create_or_get_idempotent}
use astra_indexator.Leases.{World, Step, Reach}
use astra_indexator.Leases.Exclusive.{passes, lease_exclusive}
use astra_indexator.Failure.{
  transient, retry_later, BackoffConfig, FailureDecision, delay_seconds, handle, settle, retry_with,
}
use astra_indexator.Failure.Outcome.{Handled, handle_lem, delay_seconds-le-max, delay_seconds_grows}
use astra_indexator.Database.{pending, Job, Db}
use astra_indexator.Coordinator.{heartbeat}
use astra_indexator.Claiming.{LeaseToken, ClaimedJob, Locks, claim_next}

-- A submission, and the row that it makes.
abbrev pub command : NewIndexationJob
command = record {
  producer_request_id = 70;
  document_id = 700;
  document_version = pos 1;
  source_uri = "s3://bucket/a.pdf";
  access_zone_code = "0100";
  knowledge_type = none;
  external_revision = none;
  requested_ttl_days = none;
  source_file_name = none;
  source_content_hash = none;
  source_size_bytes = none;
  priority = pos 0;
  max_attempts = pos 3;
}

abbrev pub new_job : Job
new_job = record {
  id = 7;
  producer_request_id = 70;
  external_revision = none;
  knowledge_type = none;
  document_id = 700;
  document_version = 1;
  access_zone_code = "0100";
  requested_ttl_days = none;
  source_uri = "s3://bucket/a.pdf";
  source_file_name = none;
  source_content_hash = none;
  source_size_bytes = none;
  status = pending;
  processing_stage = none;
  priority = pos 0;
  worker_id = none;
  lease_generation = 0;
  lease_acquired_at = none;
  lease_until = none;
  last_heartbeat_at = none;
  attempt_count = 0;
  max_attempts = 3;
  next_retry_at = none;
  cancel_requested = false;
  last_error_code = none;
  last_error_message = none;
  processing_fingerprint = none;
  created_at = 10;
  updated_at = 10;
  completed_at = none;
}

abbrev pub empty_db : Db
empty_db = record {
  now = 10;
  jobs = [];
  attempts = [];
  events = [];
  checkpoints = [];
  batches = [];
}

abbrev pub submitted_db : Db
submitted_db = record empty_db { jobs = new_job ∷ [] }

abbrev pub no_locks : Locks
no_locks = record { job_locked = λ _. false; attempt_locked = λ _. false }

-- The token of the claim number `generation`.
abbrev pub token : ℕ → LeaseToken
token generation = record {
  job_id = 7;
  worker_id = "a";
  lease_generation = generation;
  attempt_id = 100 + generation;
}

abbrev pub claimed : ℕ → ClaimedJob
claimed generation = record {
  token = token generation;
  document_id = 700;
  document_version = 1;
  access_zone_code = "0100";
  source_uri = "s3://bucket/a.pdf";
  processing_stage = none;
}

abbrev pub claim_db : Result (Option ClaimedJob × Db) → Db
claim_db (ok (_, db)) = db
claim_db (err _) = empty_db

-- The database behind the first claim.
abbrev pub claimed_db : Db
claimed_db = claim_db (claim_next no_locks 101 "a" (pos 30) submitted_db)

-- The first lease has expired.
abbrev pub later_db : Db
later_db = record claimed_db { now = claimed_db.now + 40000000 }

abbrev pub reclaimed_db : Db
reclaimed_db = claim_db (claim_next no_locks 102 "a" (pos 30) later_db)

submitted_db-HasKeys : HasKeys submitted_db
unfolding find_key
submitted_db-HasKeys = (refl, tt)

later_db-HasKeys : HasKeys later_db
unfolding claim_next find_key is_blank selected update_where
later_db-HasKeys = (refl, tt)

claim_next_lem_example : Claims no_locks 102 "a" later_db reclaimed_db (some (claimed 2))
unfolding claim_next is_blank selected update_where
claim_next_lem_example =
    claim_next_lem no_locks 102 "a" (pos 30) later_db reclaimed_db (some (claimed 2))
      later_db-HasKeys refl

abbrev world : Db → List LeaseToken → World
world db issued = record { db = db; issued = issued }

submission : Step (world empty_db []) (world submitted_db [])
unfolding create_or_get
submission = Step.submits 7 command new_job submitted_db refl refl

first_claim : Step (world submitted_db []) (world claimed_db (token 1 ∷ []))
unfolding claim_next is_blank selected update_where
first_claim = Step.claims no_locks 101 "a" (pos 30) (claimed 1) claimed_db refl refl

second_claim : Step (world later_db (token 1 ∷ [])) (world reclaimed_db (token 2 ∷ token 1 ∷ []))
unfolding claim_next is_blank selected update_where
second_claim = Step.claims no_locks 102 "a" (pos 30) (claimed 2) reclaimed_db refl refl

two_claims : Reach (world empty_db []) (world reclaimed_db (token 2 ∷ token 1 ∷ []))
two_claims =
    Reach.next
      (Reach.next (Reach.next (Reach.next Reach.here submission) first_claim)
        (Step.ticks 40000000 refl))
      second_claim

lease_exclusive_example : count_where (passes 7 reclaimed_db) (token 2 ∷ token 1 ∷ []) ≤ 1
lease_exclusive_example =
    lease_exclusive empty_db (world reclaimed_db (token 2 ∷ token 1 ∷ [])) 7 tt two_claims

-- The first worker comes back after the job was claimed again.
stale_token_refused_example :
    (heartbeat (token 1) (pos 30) reclaimed_db ≡ err lease_lost)
    × (advance_stage (token 1) "PARSING" reclaimed_db ≡ err lease_lost)
    × (complete (token 1) reclaimed_db ≡ err lease_lost)
    × (schedule_retry (token 1) (pos 5) none none reclaimed_db ≡ err lease_lost)
unfolding claim_next find_key owns is_blank selected update_where
stale_token_refused_example =
    stale_token_refused (token 1) (pos 30) (pos 5) "PARSING" none none reclaimed_db (refl, tt) refl
      refl refl refl

abbrev pub no_jitter : BackoffConfig
no_jitter = record { base_delay_seconds = 5; max_delay_seconds = 300; no_jitter = true }

abbrev pub jitter_up : ℕ → LeaseToken → ℕ → ℤ
jitter_up raw _ _ = pos (raw + 1)

abbrev retried_db : Db
retried_db = elim (handle jitter_up no_jitter (token 1) transient "Timeout" "slow" claimed_db) [
  | ok (_, db) ↦ db
  | err _ ↦ empty_db
]

abbrev retried : FailureDecision
retried = record {
  failure_class = transient;
  action = retry_later;
  error_code = "Timeout";
  error_message = "slow";
  retry_after_seconds = some 5;
}

handle_lem_example : Handled (token 1) transient claimed_db retried_db retried
unfolding handle claim_next find_key is_blank selected update_where settle fencing_predicate
    retry_with schedule_retry delay_seconds update_fenced count_where finish_attempt
handle_lem_example =
    handle_lem jitter_up no_jitter (token 1) transient "Timeout" "slow" claimed_db retried_db
      retried (refl, tt) refl

delay_seconds-le-max_example :
    delay_seconds jitter_up (record no_jitter { no_jitter = false }) (token 1) 9 ≤ 300
delay_seconds-le-max_example =
    delay_seconds-le-max jitter_up (record no_jitter { no_jitter = false }) (token 1) 9

delay_seconds_grows_example :
    (5 ≤ delay_seconds jitter_up no_jitter (token 1) 3)
    × (delay_seconds jitter_up no_jitter (token 1) 3
        ≤ delay_seconds jitter_up no_jitter (token 1) 4)
delay_seconds_grows_example =
    delay_seconds_grows jitter_up no_jitter (token 1) 3 refl
      (record { positive = refl; ordered = refl })

-- The producer sends its request again.
create_or_get_idempotent_example : create_or_get 8 command submitted_db ≡ ok (new_job, submitted_db)
unfolding create_or_get
create_or_get_idempotent_example =
    create_or_get_idempotent 7 8 command command empty_db submitted_db new_job refl refl refl
