-- ===== src/Delivery.antt =====
-- src/astra_indexator/persistence/delivery.py: the durable record of which batches AstraVector has
-- accepted. A status other than the two that a constraint of the table admits cannot be stored, and
-- `Batch` has no other.
pub mod Hash
pub mod Sequence
pub mod Staging
pub mod Accepting
pub mod History
pub mod Replay
pub mod Accepted
use astra_indexator.Prelude.{
  ℕ, ◌+◌, Bool, true, false, not, ◌&&◌, ◌||◌, List, [], ◌∷◌, ◌++◌, Option, none, some, String,
  length, any, all, find, leb, ltb, ◌==◌, if◌then◌else◌, str_eq,
}
use astra_indexator.Prelude.Tables.{find_key, update_where}
use astra_indexator.Text.{
  Codes, codes, codes_eq, is_empty, in_range, strip, starts_with, drop_prefix, CaseTable, lower,
}
use astra_indexator.Exec.{
  Error, other_exception, Result, ok, err, value_error, delivery_integrity, delivery_sequence, Tx,
  pure, gets, modify, raise_if, or_raise, ◌>>=◌, ◌>>◌,
}
use astra_indexator.Database.{Checkpoint, BatchStatus, prepared, accepted, Batch, Db}
use astra_indexator.Batching.{PlannedBatch}
use astra_indexator.Policy.{VectorStatus, is_negative}
use astra_indexator.Checkpoints.{
  is_hex, without_prefix, is_sha256, normalize_sha256_hex, integrity_error, checkpoint_key,
  checkpoint_of, checkpoint_for_update, new_checkpoint, insert_checkpoint, write_checkpoint,
  ensure_checkpoint, bound_elsewhere, is_bound_to, bind_session, or_none, record_session_status,
  record_vector_status,
}

-- `BatchReplayDisposition`
pub data Disposition : Type 0 where
  send replay_pending already_accepted : Disposition

pub record PreparedBatchState : Type 0 where
  pub disposition : Disposition
  pub batch_index : ℕ
  pub batch_content_hash : Codes

-- The primary key of a batch row.
abbrev pub is_at : ℕ → ℕ → Batch → Bool
is_at job_id i b = (b.job_id == job_id) && (b.batch_index == i)

abbrev pub batch_at : ℕ → ℕ → Db → Option Batch
batch_at job_id i db = find (is_at job_id i) db.batches

-- `persisted.serialized_bytes is not None and persisted.serialized_bytes != batch.serialized_bytes`
abbrev other_size : Option ℕ → ℕ → Bool
other_size none n = false
other_size (some m) n = not (m == n)

unfoldable pub assert_same_batch : CaseTable → Batch → PlannedBatch → Codes → Tx Db (Unit {0})
unfolding normalize_sha256_hex
assert_same_batch t persisted batch expected_hash db =
    elim (normalize_sha256_hex t persisted.batch_content_hash) [
      | err e ↦ err e
      | ok persisted_hash ↦
          if not (codes_eq persisted_hash expected_hash)
            || (not (persisted.block_count == length batch.blocks)
                || other_size persisted.serialized_bytes batch.serialized_bytes)
          then err delivery_integrity
          else ok (tt, db)
    ]

-- `status == "ACCEPTED"`
abbrev pub is_accepted : BatchStatus → Bool
is_accepted (accepted _) = true
is_accepted prepared = false

unfoldable pub prepared_state : Disposition → PlannedBatch → Codes → PreparedBatchState
prepared_state d batch expected_hash = record {
  disposition = d;
  batch_index = batch.batch_index;
  batch_content_hash = expected_hash;
}

unfoldable pub prepared_row : ℕ → PlannedBatch → Codes → Batch
prepared_row job_id batch expected_hash = record {
  job_id = job_id;
  batch_index = batch.batch_index;
  batch_content_hash = expected_hash;
  block_count = length batch.blocks;
  serialized_bytes = some batch.serialized_bytes;
  status = prepared;
}

-- What `prepare_batch` answers for a stored batch that is the same.
unfoldable pub answer : PlannedBatch → Codes → ℕ → BatchStatus → Tx Db PreparedBatchState
unfolding prepared_state
answer batch expected_hash next (accepted _) = do
  raise_if (ltb next (batch.batch_index + 1)) delivery_integrity
  pure (prepared_state already_accepted batch expected_hash)
answer batch expected_hash next prepared = do
  raise_if (not (next == batch.batch_index)) delivery_integrity
  pure (prepared_state replay_pending batch expected_hash)

-- `prepare_batch` behind its two reads, for a batch that is stored and for one that is not.
unfoldable pub replay : CaseTable → PlannedBatch → Codes → ℕ → Batch → Tx Db PreparedBatchState
unfolding answer
replay t batch expected_hash next existing = do
  assert_same_batch t existing batch expected_hash
  answer batch expected_hash next existing.status

unfoldable pub stage : ℕ → PlannedBatch → Codes → ℕ → Tx Db PreparedBatchState
unfolding prepared_state prepared_row
stage job_id batch expected_hash next = do
  raise_if (not (batch.batch_index == next)) delivery_sequence
  raise_if (is_empty batch.blocks) integrity_error
  modify (λ db. record db { batches = prepared_row job_id batch expected_hash ∷ db.batches })
  pure (prepared_state send batch expected_hash)

unfoldable pub replay_or_stage :
    CaseTable → ℕ → PlannedBatch → Codes → ℕ → Option Batch → Tx Db PreparedBatchState
replay_or_stage t job_id batch expected_hash next none = stage job_id batch expected_hash next
replay_or_stage t job_id batch expected_hash next (some existing) =
    replay t batch expected_hash next existing

abbrev pub is_unbound : Option ℕ → Bool
is_unbound none = true
is_unbound (some _) = false

abbrev pub from_result {ℓ} : {A : Type ℓ} → Result A → Tx Db A
from_result (ok a) db = ok (a, db)
from_result (err e) db = err e

unfoldable pub prepare_batch : CaseTable → ℕ → PlannedBatch → Tx Db PreparedBatchState
unfolding checkpoint_for_update replay_or_stage
prepare_batch t job_id batch = do
  expected_hash ← from_result (normalize_sha256_hex t batch.batch_content_hash)
  checkpoint ← checkpoint_for_update job_id
  raise_if (is_unbound checkpoint.ingestion_session_id) delivery_sequence
  existing ← gets (batch_at job_id batch.batch_index)
  replay_or_stage t job_id batch expected_hash checkpoint.next_batch_index existing

-- The writes of `mark_accepted`.
unfoldable pub accept : ℕ → ℕ → PlannedBatch → String → Tx Db (Unit {0})
unfolding write_checkpoint
accept clock job_id batch session_status_raw = do
  modify (λ db. record db {
    batches =
        update_where (is_at job_id batch.batch_index) (λ b. record b { status = accepted clock })
          db.batches;
  })
  write_checkpoint job_id (λ c. record c {
    last_accepted_batch_index = some batch.batch_index;
    next_batch_index = batch.batch_index + 1;
    session_status_raw = some session_status_raw;
    last_error_code = none;
    last_error_message = none;
    updated_at = clock;
  })

-- What `mark_accepted` does with a stored batch that is the same.
unfoldable pub acknowledge : ℕ → ℕ → PlannedBatch → String → ℕ → BatchStatus → Tx Db (Unit {0})
unfolding accept
acknowledge clock job_id batch session_status_raw next (accepted _) =
    raise_if (ltb next (batch.batch_index + 1)) delivery_integrity
acknowledge clock job_id batch session_status_raw next prepared = do
  raise_if (not (next == batch.batch_index)) delivery_sequence
  accept clock job_id batch session_status_raw

unfoldable pub mark_accepted : CaseTable → ℕ → ℕ → PlannedBatch → String → Tx Db (Unit {0})
unfolding checkpoint_for_update acknowledge
mark_accepted t clock job_id batch session_status_raw = do
  expected_hash ← from_result (normalize_sha256_hex t batch.batch_content_hash)
  checkpoint ← checkpoint_for_update job_id
  row ← gets (batch_at job_id batch.batch_index)
  persisted ← or_raise row delivery_sequence
  assert_same_batch t persisted batch expected_hash
  acknowledge clock job_id batch session_status_raw checkpoint.next_batch_index persisted.status
