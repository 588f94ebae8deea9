-- ===== src/Delivery/Accepted.antt =====
-- A batch of delivery.py whose acknowledgement is committed is not sent again.
use astra_indexator.Prelude.{
  ℕ, ◌≡◌, ◌<◌, refl, sym, subst, ◌∙◌, inl, inr, true, false, some, String, arith,
}
use astra_indexator.Text.{Codes, CaseTable}
use astra_indexator.Exec.{Result-cases, >>=-ok, ok}
use astra_indexator.Database.{Checkpoint, Batch, BatchStatus, prepared, accepted, Db}
use astra_indexator.Batching.{PlannedBatch}
use astra_indexator.Prelude.Tables.{find_key-update_where}
use astra_indexator.Delivery.Sequence.{find-update_where-at}
use astra_indexator.Delivery.Accepting.{acknowledged, advanced, mark_accepted-ok}
use astra_indexator.Delivery.{
  already_accepted, batch_at, is_accepted, is_unbound, assert_same_batch, prepare_batch,
  prepared_state, answer, mark_accepted, replay_or_stage, replay,
}
use astra_indexator.Checkpoints.{checkpoint_key, checkpoint_of, normalize_sha256_hex}
use astra_indexator.Delivery.Replay.{prepare_batch-reads}

answer-accepted :
    (batch : PlannedBatch) (hash : Codes) (next : ℕ) (status : BatchStatus) (db : Db)
    → is_accepted status ≡ true
    → batch.batch_index < next
    → answer batch hash next status db ≡ ok (prepared_state already_accepted batch hash, db)
unfolding answer
answer-accepted batch hash next (accepted _) db e past = ground (arith, past)
answer-accepted batch hash next prepared db e past = absurd (ground (arith, e))

-- The comparison does not look at the status.
assert_same_batch-status :
    (t : CaseTable) (b : Batch) (batch : PlannedBatch) (hash : Codes) (status : BatchStatus)
    (db d : Db)
    → assert_same_batch t b batch hash db ≡ ok (tt, db)
    → assert_same_batch t (record b { status = status }) batch hash d ≡ ok (tt, d)
unfolding assert_same_batch
assert_same_batch-status t b batch hash status db d h =
    elim (Result-cases (normalize_sha256_hex t b.batch_content_hash)) [
      | inl (stored, e) ↦ ground (arith, h, e)
      | inr (x, e) ↦ absurd (ground (arith, h, e))
    ]

module _ (t : CaseTable) (job_id : ℕ) (batch : PlannedBatch) (db : Db) (c : Checkpoint) (b : Batch)
    (hash : Codes) (found : checkpoint_of job_id db ≡ some c)
    (row : batch_at job_id batch.batch_index db ≡ some b)
    (norm : normalize_sha256_hex t batch.batch_content_hash ≡ ok hash)
    (bound : is_unbound c.ingestion_session_id ≡ false) where
  -- The answer for an accepted row that the checkpoint has passed.
  prepare_batch-accepted :
      assert_same_batch t b batch hash db ≡ ok (tt, db)
      → is_accepted b.status ≡ true
      → batch.batch_index < c.next_batch_index
      → prepare_batch t job_id batch db ≡ ok (prepared_state already_accepted batch hash, db)
  unfolding replay_or_stage replay
  prepare_batch-accepted same e past =
      prepare_batch-reads t job_id batch db c hash found norm (some b) bound row
      ∙ >>=-ok (assert_same_batch t b batch hash) _ db same
      ∙ answer-accepted batch hash c.next_batch_index b.status db e past

-- What is read behind an acknowledgement.
module _ (clock job_id : ℕ) (batch : PlannedBatch) (raw : String) (db : Db) where
  acknowledged-found :
      (c : Checkpoint)
      → checkpoint_of job_id db ≡ some c
      → checkpoint_of job_id (acknowledged clock job_id batch raw db)
        ≡ some (advanced clock batch raw c)
  acknowledged-found c found =
      find_key-update_where checkpoint_key job_id job_id (advanced clock batch raw) db.checkpoints
        (λ c. refl)
      ∙ ground (arith, found)

  acknowledged-row :
      (b : Batch)
      → batch_at job_id batch.batch_index db ≡ some b
      → batch_at job_id batch.batch_index (acknowledged clock job_id batch raw db)
        ≡ some (record b { status = accepted clock })
  acknowledged-row b row =
      find-update_where-at job_id batch.batch_index job_id batch.batch_index
        (λ b. record b { status = accepted clock }) db.batches (λ b. refl) (λ b. refl)
      ∙ ground (arith, row)

-- A batch whose acknowledgement is committed is not sent again: preparing it answers
-- ALREADY_ACCEPTED and changes nothing. The condition is that the job's checkpoint is bound to a
-- session.
pub accepted_not_sent_again :
    (t : CaseTable) (clock job_id : ℕ) (batch : PlannedBatch) (raw : String) (db db' : Db)
    (c : Checkpoint)
    → checkpoint_of job_id db ≡ some c
    → is_unbound c.ingestion_session_id ≡ false
    → mark_accepted t clock job_id batch raw db ≡ ok (tt, db')
    → (hash : Codes) × (normalize_sha256_hex t batch.batch_content_hash ≡ ok hash)
      × (prepare_batch t job_id batch db' ≡ ok (prepared_state already_accepted batch hash, db'))
accepted_not_sent_again t clock job_id batch raw db db' c found bound h =
    let (c', b, hash, found', row, norm, same, writes) =
      mark_accepted-ok t clock job_id batch raw db db' h in
    let one : c' ≡ c = ground (arith, found, found') in
    let bound' : is_unbound c'.ingestion_session_id ≡ false =
      subst (λ x. is_unbound x.ingestion_session_id ≡ false) (sym one) bound in
    (
      hash,
      norm,
      elim writes [
        | inl (e, past, still) ↦
            rw still (
              prepare_batch-accepted t job_id batch db c' b hash found' row norm bound' same e past)
        | inr (_, at, put) ↦ rw put (
            prepare_batch-accepted t job_id batch (acknowledged clock job_id batch raw db)
              (advanced clock batch raw c') (record b { status = accepted clock }) hash
              (acknowledged-found clock job_id batch raw db c' found')
              (acknowledged-row clock job_id batch raw db b row) norm bound'
              (assert_same_batch-status t b batch hash (accepted clock) db
                (acknowledged clock job_id batch raw db) same)
              refl (omega arith))
      ],
    )
