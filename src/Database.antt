-- ===== src/Database.antt =====
-- src/astra_indexator/persistence/models.py: the tables that the job and delivery code writes, as
-- lists of rows. UUIDs are numbers (they are compared, and `ORDER BY id` sorts by their bytes), and
-- times are microseconds. `now` is the transaction's `now()`: it moves only between transactions.
use astra_indexator.Prelude.{
  ℕ, ◌*◌, Bool, true, false, List, [], ◌∷◌, ◌++◌, Option, none, some, String, str_eq,
}
use astra_indexator.Prelude.Int.{ℤ}
use astra_indexator.Text.{Codes}

-- `IndexationJob.status`
pub data Status : Type 0 where
  pending processing retry_wait completed failed dead_letter cancelled : Status

abbrev pub is_processing : Status → Bool
is_processing processing = true
is_processing _ = false

abbrev pub is_pending : Status → Bool
is_pending pending = true
is_pending _ = false

abbrev pub is_retry_wait : Status → Bool
is_retry_wait retry_wait = true
is_retry_wait _ = false

pub record Job : Type 0 where
  pub id : ℕ
  pub producer_request_id : ℕ
  pub external_revision : Option String
  pub knowledge_type : Option String
  pub document_id : ℕ
  pub document_version : ℕ
  pub access_zone_code : String
  pub requested_ttl_days : Option ℕ
  pub source_uri : String
  pub source_file_name : Option String
  pub source_content_hash : Option String
  pub source_size_bytes : Option ℕ
  pub status : Status
  pub processing_stage : Option String
  pub priority : ℤ
  pub worker_id : Option String
  pub lease_generation : ℕ
  pub lease_acquired_at : Option ℕ
  pub lease_until : Option ℕ
  pub last_heartbeat_at : Option ℕ
  pub attempt_count : ℕ
  pub max_attempts : ℕ
  pub next_retry_at : Option ℕ
  pub cancel_requested : Bool
  pub last_error_code : Option String
  pub last_error_message : Option String
  pub processing_fingerprint : Option String
  pub created_at : ℕ
  pub updated_at : ℕ
  pub completed_at : Option ℕ

-- `ProcessingAttempt.result`
pub data AttemptResult : Type 0 where
  lease_expired was_completed will_retry was_dead_lettered has_failed : AttemptResult

pub record Attempt : Type 0 where
  pub id : ℕ
  pub job_id : ℕ
  pub attempt_number : ℕ
  pub lease_generation : ℕ
  pub worker_id : String
  pub started_at : ℕ
  pub finished_at : Option ℕ
  pub result : Option AttemptResult
  pub started_stage : Option String
  pub finished_stage : Option String
  pub error_code : Option String
  pub error_message : Option String
  pub processing_fingerprint : Option String

-- `FailureClass` of application/retry_policy.py, which an event's details record.
pub data FailureClass : Type 0 where
  transient permanent_input permanent_policy resource_limit downstream_ambiguous : FailureClass
  ownership_lost was_cancelled internal_bug dependency_unavailable : FailureClass

-- `JobEvent.event_type`, each with what its `details` hold.
pub data Occurrence : Type 0 where
  job_reclaimed job_claimed : String → ℕ → Occurrence
  processing_stage_changed job_completed : String → Occurrence
  retry_scheduled : String → ℕ → Occurrence
  job_dead_lettered job_failed : String → FailureClass → ℕ → ℕ → String → Occurrence

pub record Event : Type 0 where
  pub job_id : ℕ
  pub attempt_id : ℕ
  pub occurrence : Occurrence
  pub from_status : Option Status
  pub to_status : Option Status
  pub processing_stage : Option String
  pub lease_generation : ℕ
  pub created_at : ℕ

pub record Checkpoint : Type 0 where
  pub job_id : ℕ
  pub resolved_access_zone_id : Option ℕ
  pub ingestion_session_id : Option ℕ
  pub next_batch_index : ℕ
  pub last_accepted_batch_index : Option ℕ
  pub final_content_hash : Option String
  pub delivery_compatibility_sha256 : Option String
  pub session_status_raw : Option String
  pub vector_state_raw : Option String
  pub searchable : Option Bool
  pub expected_bindings : Option ℤ
  pub synced_bindings : Option ℤ
  pub last_reconciled_at : Option ℕ
  pub last_error_code : Option String
  pub last_error_message : Option String
  pub updated_at : ℕ

-- `DeliveryBatch.status`, which a constraint ties to `accepted_at`.
pub data BatchStatus : Type 0 where
  prepared : BatchStatus
  accepted : ℕ → BatchStatus

pub record Batch : Type 0 where
  pub job_id : ℕ
  pub batch_index : ℕ
  pub batch_content_hash : Codes
  pub block_count : ℕ
  pub serialized_bytes : Option ℕ
  pub status : BatchStatus

pub record Db : Type 0 where
  pub now : ℕ
  pub jobs : List Job
  pub attempts : List Attempt
  pub events : List Event
  pub checkpoints : List Checkpoint
  pub batches : List Batch

-- `timedelta(seconds=n)`
abbrev pub seconds : ℕ → ℕ
seconds n = n * 1000000

-- `column == value` in SQL, where NULL equals nothing.
abbrev pub holds_text : Option String → String → Bool
holds_text none w = false
holds_text (some v) w = str_eq v w

abbrev pub is_null {ℓ} : {A : Type ℓ} → Option A → Bool
is_null none = true
is_null (some _) = false

-- `session.add` of an audit event.
abbrev pub add_event : Event → Db → Db
add_event e db = record db { events = db.events ++ e ∷ [] }
