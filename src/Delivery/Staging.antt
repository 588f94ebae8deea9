-- ===== src/Delivery/Staging.antt =====
-- What `prepare_batch` of delivery.py writes.
use astra_indexator.Prelude.{
  ℕ, ◌≡◌, refl, subst, ◌∙◌, inl, inr, ◌⊎◌, Bool, true, false, ◌&&◌, ◌∷◌, Option, none, some, arith,
  ◌==◌, if◌then◌else◌,
}
use astra_indexator.Text.{Codes, CaseTable}
use astra_indexator.Exec.{Result, ok, >>=-eq-ok, raise_if-eq-ok, delivery_sequence}
use astra_indexator.Database.{Checkpoint, BatchStatus, prepared, accepted, Batch, Db}
use astra_indexator.Batching.{PlannedBatch}
use astra_indexator.Delivery.{
  batch_at, assert_same_batch, prepared_row, replay, answer, stage, replay_or_stage, prepare_batch,
  PreparedBatchState, from_result, is_unbound,
}
use astra_indexator.Checkpoints.{checkpoint_of, normalize_sha256_hex, checkpoint_for_update}
use astra_indexator.Delivery.Sequence.{Placed, IsInSequence, checkpoint_for_update-ok}

pub from_result-ok :
    (r : Result Codes) (a : Codes) (db db' : Db)
    → from_result r db ≡ ok (a, db')
    → (r ≡ ok a) × (db' ≡ db)
from_result-ok r a db db' h = ground (arith, h)

pub assert_same_batch-ok :
    (t : CaseTable) (b : Batch) (batch : PlannedBatch) (hash : Codes) (db db' : Db)
    → assert_same_batch t b batch hash db ≡ ok (tt, db')
    → db' ≡ db
unfolding assert_same_batch
assert_same_batch-ok t b batch hash db db' h = ground (arith, h)

answer-ok :
    (batch : PlannedBatch) (hash : Codes) (next : ℕ) (status : BatchStatus) (db db' : Db)
    (p : PreparedBatchState)
    → answer batch hash next status db ≡ ok (p, db')
    → db' ≡ db
unfolding answer
answer-ok batch hash next (accepted _) db db' p h = ground (arith, h)
answer-ok batch hash next prepared db db' p h = ground (arith, h)

pub replay-ok :
    (t : CaseTable) (batch : PlannedBatch) (hash : Codes) (next : ℕ) (b : Batch) (db db' : Db)
    (p : PreparedBatchState)
    → replay t batch hash next b db ≡ ok (p, db')
    → db' ≡ db
unfolding replay
replay-ok t batch hash next b db db' p h =
    let (_, mid, same, rest) =
      >>=-eq-ok (assert_same_batch t b batch hash) (λ _. answer batch hash next b.status) db h in
    answer-ok batch hash next b.status mid db' p rest
    ∙ assert_same_batch-ok t b batch hash db mid same

abbrev pub staged : ℕ → PlannedBatch → Codes → Db → Db
staged job_id batch hash db = record db { batches = prepared_row job_id batch hash ∷ db.batches }

pub stage-ok :
    (job_id : ℕ) (batch : PlannedBatch) (hash : Codes) (next : ℕ) (db db' : Db)
    (p : PreparedBatchState)
    → stage job_id batch hash next db ≡ ok (p, db')
    → (batch.batch_index ≡ next) × (db' ≡ staged job_id batch hash db)
unfolding stage
stage-ok job_id batch hash next db db' p h = ground (arith, h)

-- What a successful `prepare_batch` writes: nothing, or the row of the batch at the durable index.
abbrev Prepares : ℕ → PlannedBatch → Checkpoint → Codes → Db → Db → Type 0
Prepares job_id batch c hash db db' =
    (db' ≡ db)
    ⊎ ((batch.batch_index ≡ c.next_batch_index)
        × (batch_at job_id batch.batch_index db ≡ none)
        × (db' ≡ staged job_id batch hash db))

replay_or_stage-ok :
    (t : CaseTable) (job_id : ℕ) (batch : PlannedBatch) (hash : Codes) (c : Checkpoint)
    (o : Option Batch) (db db' : Db) (p : PreparedBatchState)
    → batch_at job_id batch.batch_index db ≡ o
    → replay_or_stage t job_id batch hash c.next_batch_index o db ≡ ok (p, db')
    → Prepares job_id batch c hash db db'
unfolding replay_or_stage
replay_or_stage-ok t job_id batch hash c none db db' p e h =
    let (at, put) = stage-ok job_id batch hash c.next_batch_index db db' p h in inr (at, e, put)
replay_or_stage-ok t job_id batch hash c (some b) db db' p e h =
    inl (replay-ok t batch hash c.next_batch_index b db db' p h)

-- What a successful `prepare_batch` has read.
pub prepare_batch-inv :
    (t : CaseTable) (job_id : ℕ) (batch : PlannedBatch) (db db' : Db) (p : PreparedBatchState)
    → prepare_batch t job_id batch db ≡ ok (p, db')
    → (c : Checkpoint) × (hash : Codes) × (checkpoint_of job_id db ≡ some c)
      × (normalize_sha256_hex t batch.batch_content_hash ≡ ok hash)
      × (is_unbound c.ingestion_session_id ≡ false)
      × (replay_or_stage t job_id batch hash c.next_batch_index
            (batch_at job_id batch.batch_index db)
            db
          ≡ ok (p, db'))
unfolding prepare_batch
prepare_batch-inv t job_id batch db db' p h =
    let (hash, db1, e1, h1) =
      >>=-eq-ok (from_result (normalize_sha256_hex t batch.batch_content_hash)) _ db h in
    let (c, db2, e2, h2) = >>=-eq-ok (checkpoint_for_update job_id) _ db1 h1 in
    let (bound, h3) =
      raise_if-eq-ok (is_unbound c.ingestion_session_id) delivery_sequence _ db2 h2 in
    let (found, at2) = checkpoint_for_update-ok job_id c db1 db2 e2 in
    let (norm, at1) =
      from_result-ok (normalize_sha256_hex t batch.batch_content_hash) hash db db1 e1 in
    (
      c,
      hash,
      subst (λ d. checkpoint_of job_id d ≡ some c) at1 found,
      norm,
      bound,
      subst
          (λ d.
            replay_or_stage t job_id batch hash c.next_batch_index
              (batch_at job_id batch.batch_index d) d
            ≡ ok (p, db'))
          (at2 ∙ at1) h3,
    )

prepare_batch-ok :
    (t : CaseTable) (job_id : ℕ) (batch : PlannedBatch) (db db' : Db) (p : PreparedBatchState)
    → prepare_batch t job_id batch db ≡ ok (p, db')
    → (c : Checkpoint) × (hash : Codes) × (checkpoint_of job_id db ≡ some c)
      × Prepares job_id batch c hash db db'
prepare_batch-ok t job_id batch db db' p h =
    let (c, hash, found, _, _, rest) = prepare_batch-inv t job_id batch db db' p h in
    (
      c,
      hash,
      found,
      replay_or_stage-ok t job_id batch hash c (batch_at job_id batch.batch_index db) db db' p refl
          rest,
    )

module _ (k i : ℕ) where
  -- A row that is added at the durable index.
  Placed-staged :
      (job_id : ℕ) (batch : PlannedBatch) (hash : Codes) (db : Db) (c : Checkpoint)
      → checkpoint_of job_id db ≡ some c
      → batch.batch_index ≡ c.next_batch_index
      → IsInSequence k i db
      → IsInSequence k i (staged job_id batch hash db)
  unfolding prepared_row
  Placed-staged job_id batch hash db c found at v =
      go ((job_id == k) && (batch.batch_index == i)) refl
    where
      go :
          (hit : Bool)
          → ((job_id == k) && (batch.batch_index == i)) ≡ hit
          → Placed
              (checkpoint_of k db)
              i
              (if hit then some (prepared_row job_id batch hash) else batch_at k i db)
      go false e = v
      go true e =
          let same : job_id ≡ k = ground (arith, e) in
          let here : checkpoint_of k db ≡ some c =
            subst (λ n. checkpoint_of n db ≡ some c) same found in
          let old : Placed (some c) i (batch_at k i db) =
            subst (λ o. Placed o i (batch_at k i db)) here v in
          rw here (ground (arith, e, at), old.1)

  pub prepare_batch-keeps :
      (t : CaseTable) (job_id : ℕ) (batch : PlannedBatch) (db db' : Db) (p : PreparedBatchState)
      → prepare_batch t job_id batch db ≡ ok (p, db')
      → IsInSequence k i db
      → IsInSequence k i db'
  prepare_batch-keeps t job_id batch db db' p h v =
      let (c, hash, found, writes) = prepare_batch-ok t job_id batch db db' p h in
      elim writes [
        | inl e ↦ rw e v
        | inr (at, _, e) ↦ rw e (Placed-staged job_id batch hash db c found at v)
      ]
