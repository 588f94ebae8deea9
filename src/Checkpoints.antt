-- ===== src/Checkpoints.antt =====
-- src/astra_indexator/persistence/delivery.py: the delivery checkpoint of a job, and the normal form
-- of a SHA-256 text of astravector/canonical_hash.py. `datetime.now` is the parameter `clock`; the
-- row of a returned checkpoint is the one in the table. What a flush would write against a
-- constraint of the table raises IntegrityError.
use astra_indexator.Prelude.{
  ℕ, Bool, false, not, ◌&&◌, ◌||◌, ◌∷◌, Option, none, some, String, length, any, all, ◌==◌,
  if◌then◌else◌, str_eq,
}
use astra_indexator.Prelude.Tables.{find_key, update_where}
use astra_indexator.Text.{Codes, codes, in_range, strip, starts_with, drop_prefix, CaseTable, lower}
use astra_indexator.Exec.{
  Error, other_exception, Result, ok, err, value_error, delivery_integrity, delivery_sequence, Tx,
  gets, modify, raise_if, or_raise, ◌>>=◌, ◌>>◌,
}
use astra_indexator.Database.{Checkpoint, Db}
use astra_indexator.Policy.{VectorStatus, is_negative}

-- `ch in "0123456789abcdef"`
abbrev pub is_hex : ℕ → Bool
is_hex c = in_range 48 57 c || in_range 97 102 c

unfoldable pub without_prefix : Codes → Codes
unfolding starts_with drop_prefix
without_prefix s = if starts_with (codes "sha256:") s then drop_prefix (codes "sha256:") s else s

unfoldable pub is_sha256 : Codes → Bool
is_sha256 s = (length s == 64) && all is_hex s

unfoldable pub normalize_sha256_hex : CaseTable → Codes → Result Codes
unfolding without_prefix strip lower is_sha256
normalize_sha256_hex t raw =
    let candidate = lower t (without_prefix (strip raw)) in
    if is_sha256 candidate then ok candidate else err value_error

abbrev pub integrity_error : Error
integrity_error = other_exception "IntegrityError"

abbrev pub checkpoint_key : Checkpoint → ℕ
checkpoint_key c = c.job_id

abbrev pub checkpoint_of : ℕ → Db → Option Checkpoint
checkpoint_of job_id db = find_key checkpoint_key job_id db.checkpoints

unfoldable pub checkpoint_for_update : ℕ → Tx Db Checkpoint
checkpoint_for_update job_id = do row ← gets (checkpoint_of job_id); or_raise row delivery_sequence

-- A checkpoint as the two inserts make it.
unfoldable pub new_checkpoint : ℕ → Option ℕ → Option String → ℕ → Checkpoint
new_checkpoint job_id ingestion_session_id session_status_raw now = record {
  job_id = job_id;
  resolved_access_zone_id = none;
  ingestion_session_id = ingestion_session_id;
  next_batch_index = 0;
  last_accepted_batch_index = none;
  final_content_hash = none;
  delivery_compatibility_sha256 = none;
  session_status_raw = session_status_raw;
  vector_state_raw = none;
  searchable = none;
  expected_bindings = none;
  synced_bindings = none;
  last_reconciled_at = none;
  last_error_code = none;
  last_error_message = none;
  updated_at = now;
}

-- `INSERT … ON CONFLICT (job_id) DO NOTHING`
-- The row's job must exist.
unfoldable pub insert_checkpoint : ℕ → Option ℕ → Option String → Tx Db (Unit {0})
unfolding new_checkpoint
insert_checkpoint job_id ingestion_session_id session_status_raw db =
    elim (checkpoint_of job_id db) [
      | some _ ↦ ok (tt, db)
      | none ↦
          if any (λ job. job.id == job_id) db.jobs
          then ok (
            tt,
            record db {
              checkpoints =
                  new_checkpoint job_id ingestion_session_id session_status_raw db.now
                  ∷ db.checkpoints;
            },
          )
          else err integrity_error
    ]

-- What a flush of the changed row writes.
unfoldable pub write_checkpoint : ℕ → (Checkpoint → Checkpoint) → Tx Db (Unit {0})
write_checkpoint job_id f =
    modify
      (λ db. record db { checkpoints = update_where (λ c. c.job_id == job_id) f db.checkpoints })

unfoldable pub ensure_checkpoint : ℕ → Tx Db Checkpoint
unfolding insert_checkpoint checkpoint_for_update
ensure_checkpoint job_id = do insert_checkpoint job_id none none; checkpoint_for_update job_id

-- `checkpoint.ingestion_session_id is not None and checkpoint.ingestion_session_id != …`
abbrev pub bound_elsewhere : Option ℕ → ℕ → Bool
bound_elsewhere none ingestion_session_id = false
bound_elsewhere (some s) ingestion_session_id = not (s == ingestion_session_id)

-- `checkpoint.ingestion_session_id == …`
abbrev pub is_bound_to : Option ℕ → ℕ → Bool
is_bound_to none ingestion_session_id = false
is_bound_to (some s) ingestion_session_id = s == ingestion_session_id

abbrev or_kept : Option String → Option String → Option String
or_kept none old = old
or_kept (some new) old = some new

unfoldable pub bind_session : ℕ → ℕ → ℕ → Option String → Tx Db (Unit {0})
unfolding insert_checkpoint checkpoint_for_update write_checkpoint
bind_session clock job_id ingestion_session_id session_status_raw = do
  insert_checkpoint job_id (some ingestion_session_id) session_status_raw
  checkpoint ← checkpoint_for_update job_id
  raise_if (bound_elsewhere checkpoint.ingestion_session_id ingestion_session_id) delivery_integrity
  write_checkpoint job_id (λ c. record c {
    ingestion_session_id = some ingestion_session_id;
    session_status_raw = or_kept session_status_raw c.session_status_raw;
    updated_at = clock;
  })

-- `text or None`
abbrev pub or_none : Option String → Option String
or_none none = none
or_none (some s) = if str_eq s "" then none else some s

unfoldable pub record_session_status :
    ℕ → ℕ → ℕ → String → Option String → Option String → Tx Db (Unit {0})
unfolding checkpoint_for_update write_checkpoint
record_session_status clock job_id ingestion_session_id raw error_code error_message = do
  checkpoint ← checkpoint_for_update job_id
  raise_if (not (is_bound_to checkpoint.ingestion_session_id ingestion_session_id))
      delivery_integrity
  write_checkpoint job_id (λ c. record c {
    session_status_raw = some raw;
    last_error_code = or_none error_code;
    last_error_message = or_none error_message;
    updated_at = clock;
  })

unfoldable pub record_vector_status : ℕ → ℕ → VectorStatus → Tx Db (Unit {0})
unfolding checkpoint_for_update write_checkpoint
record_vector_status clock job_id status = do
  checkpoint ← checkpoint_for_update job_id
  raise_if (is_negative status.expected_bindings || is_negative status.synced_bindings)
      integrity_error
  write_checkpoint job_id (λ c. record c {
    vector_state_raw = some status.raw_state;
    searchable = some status.searchable;
    expected_bindings = some status.expected_bindings;
    synced_bindings = some status.synced_bindings;
    last_reconciled_at = some clock;
    last_error_code = none;
    last_error_message = or_none (some status.message);
    updated_at = clock;
  })
