-- ===== src/Inbox.antt =====
-- src/astra_indexator/persistence/repository.py with the access zone code of domain/contracts.py: the
-- durable inbox of jobs. The identifier that `uuid4()` returns is a parameter.
pub mod Idempotent
pub mod Insertion
use astra_indexator.Prelude.{
  ℕ, Bool, true, false, not, ◌&&◌, ◌||◌, List, [], ◌∷◌, Option, none, some, String, length, any,
  all, find, ltb, ◌==◌, if◌then◌else◌, str_eq,
}
use astra_indexator.Prelude.Int.{ℤ, pos, pos_part, ltb_ℤ, leb_ℤ}
use astra_indexator.Text.{codes, in_range}
use astra_indexator.Exec.{Result, ok, err, value_error, other_exception, Error, Tx}
use astra_indexator.Database.{Status, pending, is_pending, is_processing, is_retry_wait, Job, Db}

-- `AccessZoneCode`: exactly four ASCII digits.
unfoldable pub is_access_zone_code : String → Bool
is_access_zone_code value = (length (codes value) == 4) && all (in_range 48 57) (codes value)

pub record NewIndexationJob : Type 0 where
  pub producer_request_id : ℕ
  pub document_id : ℕ
  pub document_version : ℤ
  pub source_uri : String
  pub access_zone_code : String
  pub knowledge_type : Option String
  pub external_revision : Option String
  pub requested_ttl_days : Option ℤ
  pub source_file_name : Option String
  pub source_content_hash : Option String
  pub source_size_bytes : Option ℤ
  pub priority : ℤ
  pub max_attempts : ℤ

abbrev below_zero : Option ℤ → Bool
below_zero none = false
below_zero (some n) = ltb_ℤ n (pos 0)

-- What a column without negative values holds.
abbrev natural : Option ℤ → Option ℕ
natural none = none
natural (some n) = some (pos_part n)

-- `__post_init__`
unfoldable pub post_init : NewIndexationJob → Result NewIndexationJob
unfolding is_access_zone_code
post_init command =
    if not (is_access_zone_code command.access_zone_code)
    then err value_error
    else if below_zero command.requested_ttl_days
    then err value_error
    else ok command

-- The CHECK constraints of `indexation_job` on what is inserted.
unfoldable pub breaks_constraint : NewIndexationJob → Bool
unfolding is_access_zone_code
breaks_constraint command =
    leb_ℤ command.document_version (pos 0)
    || (not (is_access_zone_code command.access_zone_code)
        || (below_zero command.requested_ttl_days
            || (below_zero command.source_size_bytes || leb_ℤ command.max_attempts (pos 0))))

abbrev pub is_active : Status → Bool
is_active s = is_pending s || (is_processing s || is_retry_wait s)

-- The unique index on the active jobs of a document version.
unfoldable pub same_version : NewIndexationJob → Job → Bool
same_version command job =
    is_active job.status
    && (str_eq job.access_zone_code command.access_zone_code
        && ((job.document_id == command.document_id)
            && (job.document_version == pos_part command.document_version)))

unfoldable pub new_row : ℕ → ℕ → NewIndexationJob → Job
new_row job_id now command = record {
  id = job_id;
  producer_request_id = command.producer_request_id;
  external_revision = command.external_revision;
  knowledge_type = command.knowledge_type;
  document_id = command.document_id;
  document_version = pos_part command.document_version;
  access_zone_code = command.access_zone_code;
  requested_ttl_days = natural command.requested_ttl_days;
  source_uri = command.source_uri;
  source_file_name = command.source_file_name;
  source_content_hash = command.source_content_hash;
  source_size_bytes = natural command.source_size_bytes;
  status = pending;
  processing_stage = none;
  priority = command.priority;
  worker_id = none;
  lease_generation = 0;
  lease_acquired_at = none;
  lease_until = none;
  last_heartbeat_at = none;
  attempt_count = 0;
  max_attempts = pos_part command.max_attempts;
  next_retry_at = none;
  cancel_requested = false;
  last_error_code = none;
  last_error_message = none;
  processing_fingerprint = none;
  created_at = now;
  updated_at = now;
  completed_at = none;
}

abbrev pub is_request : ℕ → Job → Bool
is_request request job = job.producer_request_id == request

-- An insert that meets no row of the request: every other unique key must be free.
unfoldable pub insert_job : ℕ → NewIndexationJob → Tx Db Job
unfolding new_row same_version
insert_job job_id command db =
    if any (λ job. (job.id == job_id) || same_version command job) db.jobs
    then err (other_exception "IntegrityError")
    else ok (
      new_row job_id db.now command,
      record db { jobs = new_row job_id db.now command ∷ db.jobs },
    )

-- The row that is there for the request, or the new one.
unfoldable pub get_or_insert : ℕ → NewIndexationJob → Option Job → Tx Db Job
unfolding insert_job
get_or_insert job_id command none db = insert_job job_id command db
get_or_insert job_id command (some job) db = ok (job, db)

unfoldable pub create_or_get : ℕ → NewIndexationJob → Tx Db Job
unfolding breaks_constraint get_or_insert
create_or_get job_id command db =
    if breaks_constraint command
    then err (other_exception "IntegrityError")
    else get_or_insert job_id command (find (is_request command.producer_request_id) db.jobs) db
