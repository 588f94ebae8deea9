-- ===== src/Delivery/Replay.antt =====
-- A crash between the transactions of a delivery is answered by replaying the same batch.
use astra_indexator.Prelude.{
  ℕ, ◌≡◌, refl, sym, subst, ◌∙◌, true, false, [], ◌∷◌, Option, none, some, String, arith,
}
use astra_indexator.Text.{Codes, codes_eq, CaseTable}
use astra_indexator.Exec.{>>=-eq-ok, >>=-ok, >>=-err, ◌>>◌, ok, err, delivery_integrity}
use astra_indexator.Database.{Checkpoint, Batch, BatchStatus, prepared, accepted, Db}
use astra_indexator.Batching.{PlannedBatch}
use astra_indexator.Delivery.Hash.{normalize_sha256_hex_idempotent}
use astra_indexator.Delivery.Staging.{staged, stage-ok, replay-ok, prepare_batch-inv}
use astra_indexator.Delivery.{
  stage, Disposition, send, replay_pending, already_accepted, batch_at, is_unbound,
  assert_same_batch, prepare_batch, PreparedBatchState, prepared_state, prepared_row, answer,
  acknowledge, mark_accepted, replay_or_stage, replay,
}
use astra_indexator.Checkpoints.{checkpoint_of, normalize_sha256_hex, checkpoint_for_update}

assert_same_batch-differs :
    (t : CaseTable) (b : Batch) (batch : PlannedBatch) (planned stored : Codes) (db : Db)
    → normalize_sha256_hex t b.batch_content_hash ≡ ok stored
    → codes_eq stored planned ≡ false
    → assert_same_batch t b batch planned db ≡ err delivery_integrity
unfolding assert_same_batch
assert_same_batch-differs t b batch planned stored db s differ = ground (arith, s, differ)

module _ (t : CaseTable) (job_id : ℕ) (batch : PlannedBatch) (db : Db) (c : Checkpoint)
    (planned : Codes) (found : checkpoint_of job_id db ≡ some c)
    (p : normalize_sha256_hex t batch.batch_content_hash ≡ ok planned) where
  read : checkpoint_for_update job_id db ≡ ok (c, db)
  unfolding checkpoint_for_update
  read = rw found refl

  -- What the two operations do behind their reads.
  pub prepare_batch-reads :
      (o : Option Batch)
      → is_unbound c.ingestion_session_id ≡ false
      → batch_at job_id batch.batch_index db ≡ o
      → prepare_batch t job_id batch db
        ≡ replay_or_stage t job_id batch planned c.next_batch_index o db
  unfolding prepare_batch
  prepare_batch-reads o bound row =
      rw p (>>=-ok (checkpoint_for_update job_id) _ db read ∙ rw (bound, row) refl)

  pub mark_accepted-reads :
      (clock : ℕ) (raw : String) (b : Batch)
      → batch_at job_id batch.batch_index db ≡ some b
      → mark_accepted t clock job_id batch raw db
        ≡ (assert_same_batch t b batch planned
              >> acknowledge clock job_id batch raw c.next_batch_index b.status)
            db
  unfolding mark_accepted
  mark_accepted-reads clock raw b row =
      rw p (>>=-ok (checkpoint_for_update job_id) _ db read ∙ rw row refl)

-- A stored batch is never taken for another one: where the row at the index of a batch has another
-- normal hash, both preparing and acknowledging it raise DeliveryIntegrityError. The conditions: the
-- job's checkpoint is bound to a session, and both hashes have a normal form.
pub other_hash_refused :
    (t : CaseTable) (clock job_id : ℕ) (batch : PlannedBatch) (raw : String) (db : Db)
    (c : Checkpoint) (b : Batch) (stored planned : Codes)
    → checkpoint_of job_id db ≡ some c
    → is_unbound c.ingestion_session_id ≡ false
    → batch_at job_id batch.batch_index db ≡ some b
    → normalize_sha256_hex t b.batch_content_hash ≡ ok stored
    → normalize_sha256_hex t batch.batch_content_hash ≡ ok planned
    → codes_eq stored planned ≡ false
    → (prepare_batch t job_id batch db ≡ err delivery_integrity)
      × (mark_accepted t clock job_id batch raw db ≡ err delivery_integrity)
unfolding replay_or_stage replay
other_hash_refused t clock job_id batch raw db c b stored planned found bound row s p differ =
    let other : assert_same_batch t b batch planned db ≡ err delivery_integrity =
      assert_same_batch-differs t b batch planned stored db s differ in
    (
      prepare_batch-reads t job_id batch db c planned found p (some b) bound row
          ∙ >>=-err (assert_same_batch t b batch planned) _ db other,
      mark_accepted-reads t job_id batch db c planned found p clock raw b row
          ∙ >>=-err (assert_same_batch t b batch planned) _ db other,
    )

-- The disposition of a batch that was prepared before.
abbrev pub again : Disposition → Disposition
again send = replay_pending
again replay_pending = replay_pending
again already_accepted = already_accepted

codes_eq_refl : (s : Codes) → codes_eq s s ≡ true
unfolding codes_eq
codes_eq_refl [] = refl
codes_eq_refl (c ∷ cs) = ground (arith, codes_eq_refl cs)

-- The row that `prepare_batch` adds is the same as its batch.
assert_same_batch-prepared_row :
    (t : CaseTable) (job_id : ℕ) (batch : PlannedBatch) (hash : Codes) (db : Db)
    → normalize_sha256_hex t batch.batch_content_hash ≡ ok hash
    → assert_same_batch t (prepared_row job_id batch hash) batch hash db ≡ ok (tt, db)
unfolding assert_same_batch prepared_row
assert_same_batch-prepared_row t job_id batch hash db norm =
    let (_, idem) = normalize_sha256_hex_idempotent t batch.batch_content_hash hash norm in
    let same = codes_eq_refl hash in ground (arith, idem, same)

answer-again :
    (batch : PlannedBatch) (hash : Codes) (next : ℕ) (status : BatchStatus) (db db' : Db)
    (p : PreparedBatchState)
    → answer batch hash next status db ≡ ok (p, db')
    → record p { disposition = again p.disposition } ≡ p
unfolding answer prepared_state
answer-again batch hash next (accepted _) db db' p h =
    let e : p ≡ prepared_state already_accepted batch hash = ground (arith, h) in rw e refl
answer-again batch hash next prepared db db' p h =
    let e : p ≡ prepared_state replay_pending batch hash = ground (arith, h) in rw e refl

replay-again :
    (t : CaseTable) (batch : PlannedBatch) (hash : Codes) (next : ℕ) (b : Batch) (db db' : Db)
    (p : PreparedBatchState)
    → replay t batch hash next b db ≡ ok (p, db')
    → record p { disposition = again p.disposition } ≡ p
unfolding replay
replay-again t batch hash next b db db' p h =
    let (_, mid, _, rest) =
      >>=-eq-ok (assert_same_batch t b batch hash) (λ _. answer batch hash next b.status) db h in
    answer-again batch hash next b.status mid db' p rest

answer-pending :
    (batch : PlannedBatch) (hash : Codes) (next : ℕ) (db : Db)
    → next ≡ batch.batch_index
    → answer batch hash next prepared db ≡ ok (prepared_state replay_pending batch hash, db)
unfolding answer
answer-pending batch hash next db at = ground (arith, at)

batch_at-staged :
    (job_id : ℕ) (batch : PlannedBatch) (hash : Codes) (db : Db)
    → batch_at job_id batch.batch_index (staged job_id batch hash db)
      ≡ some (prepared_row job_id batch hash)
unfolding prepared_row
batch_at-staged job_id batch hash db = ground arith

-- Preparing a batch again, as a worker does that comes back behind a crash, succeeds and changes
-- nothing more: a batch that was to be sent is answered as REPLAY_PENDING, and the other two answers
-- are the same.
pub prepare_batch-again :
    (t : CaseTable) (job_id : ℕ) (batch : PlannedBatch) (db db' : Db) (p : PreparedBatchState)
    → prepare_batch t job_id batch db ≡ ok (p, db')
    → prepare_batch t job_id batch db' ≡ ok (record p { disposition = again p.disposition }, db')
unfolding replay_or_stage replay stage answer prepared_state
prepare_batch-again t job_id batch db db' p h =
    let (c, hash, found, norm, bound, rest) = prepare_batch-inv t job_id batch db db' p h in
    go c hash found norm bound (batch_at job_id batch.batch_index db) refl rest
  where
    go :
        (c : Checkpoint) (hash : Codes)
        → checkpoint_of job_id db ≡ some c
        → normalize_sha256_hex t batch.batch_content_hash ≡ ok hash
        → is_unbound c.ingestion_session_id ≡ false
        → (o : Option Batch) → batch_at job_id batch.batch_index db ≡ o
        → replay_or_stage t job_id batch hash c.next_batch_index o db ≡ ok (p, db')
        → prepare_batch t job_id batch db'
          ≡ ok (record p { disposition = again p.disposition }, db')
    go c hash found norm bound (some b) row rest =
        rw (replay-again t batch hash c.next_batch_index b db db' p rest) (
          subst (λ d. prepare_batch t job_id batch d ≡ ok (p, db'))
            (sym (replay-ok t batch hash c.next_batch_index b db db' p rest)) h)
    go c hash found norm bound none row rest =
        let (at, put) = stage-ok job_id batch hash c.next_batch_index db db' p rest in
        let sent : p ≡ prepared_state send batch hash = ground (arith, rest) in
        let here =
          assert_same_batch-prepared_row t job_id batch hash (staged job_id batch hash db) norm in
        rw (sent, put)
          (prepare_batch-reads t job_id batch (staged job_id batch hash db) c hash found norm
              (some (prepared_row job_id batch hash)) bound (batch_at-staged job_id batch hash db)
            ∙ >>=-ok (assert_same_batch t (prepared_row job_id batch hash) batch hash) _
                (staged job_id batch hash db) here
            ∙ answer-pending batch hash c.next_batch_index (staged job_id batch hash db) (sym at))
