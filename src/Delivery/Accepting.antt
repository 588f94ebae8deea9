-- ===== src/Delivery/Accepting.antt =====
-- What `mark_accepted` of delivery.py writes.
use astra_indexator.Prelude.{
  ℕ, ◌+◌, ◌≡◌, ◌<◌, refl, subst, ◌∙◌, inl, inr, ◌⊎◌, Bool, true, false, ◌&&◌, Option, none, some,
  String, arith, ◌==◌, if◌then◌else◌, Bool-cases,
}
use astra_indexator.Prelude.Tables.{update_where, find_key-update_where}
use astra_indexator.Text.{Codes, CaseTable}
use astra_indexator.Exec.{ok, >>=-eq-ok, or_raise, delivery_sequence}
use astra_indexator.Database.{Checkpoint, BatchStatus, prepared, accepted, Batch, Db}
use astra_indexator.Batching.{PlannedBatch}
use astra_indexator.Delivery.{
  is_at, batch_at, is_accepted, assert_same_batch, accept, acknowledge, mark_accepted, from_result,
}
use astra_indexator.Checkpoints.{
  checkpoint_key, checkpoint_of, normalize_sha256_hex, checkpoint_for_update, write_checkpoint,
}
use astra_indexator.Delivery.Sequence.{
  placed, Placed, IsInSequence, checkpoint_for_update-ok, find-update_where-at,
}
use astra_indexator.Delivery.Staging.{from_result-ok, assert_same_batch-ok}

or_raise-ok :
    (o : Option Batch) (b : Batch) (db db' : Db)
    → or_raise o delivery_sequence db ≡ ok (b, db')
    → (o ≡ some b) × (db' ≡ db)
or_raise-ok o b db db' h = ground (arith, h)

-- The writes of an acknowledgement, and the checkpoint that they leave.
abbrev pub advanced : ℕ → PlannedBatch → String → Checkpoint → Checkpoint
advanced clock batch raw c = record c {
  last_accepted_batch_index = some batch.batch_index;
  next_batch_index = batch.batch_index + 1;
  session_status_raw = some raw;
  last_error_code = none;
  last_error_message = none;
  updated_at = clock;
}

abbrev pub acknowledged : ℕ → ℕ → PlannedBatch → String → Db → Db
acknowledged clock job_id batch raw db = record db {
  batches =
      update_where (is_at job_id batch.batch_index) (λ b. record b { status = accepted clock })
        db.batches;
  checkpoints = update_where (λ c. c.job_id == job_id) (advanced clock batch raw) db.checkpoints;
}

abbrev pub Acknowledges :
    ℕ → ℕ → PlannedBatch → String → Checkpoint → BatchStatus → Db → Db → Type 0
Acknowledges clock job_id batch raw c status db db' =
    ((is_accepted status ≡ true) × (batch.batch_index < c.next_batch_index) × (db' ≡ db))
    ⊎ ((is_accepted status ≡ false)
        × (batch.batch_index ≡ c.next_batch_index)
        × (db' ≡ acknowledged clock job_id batch raw db))

acknowledge-ok :
    (clock job_id : ℕ) (batch : PlannedBatch) (raw : String) (c : Checkpoint) (status : BatchStatus)
    (db db' : Db)
    → acknowledge clock job_id batch raw c.next_batch_index status db ≡ ok (tt, db')
    → Acknowledges clock job_id batch raw c status db db'
unfolding acknowledge accept write_checkpoint
acknowledge-ok clock job_id batch raw c (accepted _) db db' h =
    inl (refl, ground (arith, h), ground (arith, h))
acknowledge-ok clock job_id batch raw c prepared db db' h =
    inr (refl, ground (arith, h), ground (arith, h))

-- What a successful `mark_accepted` has read, and what it writes.
pub mark_accepted-ok :
    (t : CaseTable) (clock job_id : ℕ) (batch : PlannedBatch) (raw : String) (db db' : Db)
    → mark_accepted t clock job_id batch raw db ≡ ok (tt, db')
    → (c : Checkpoint) × (b : Batch) × (hash : Codes) × (checkpoint_of job_id db ≡ some c)
      × (batch_at job_id batch.batch_index db ≡ some b)
      × (normalize_sha256_hex t batch.batch_content_hash ≡ ok hash)
      × (assert_same_batch t b batch hash db ≡ ok (tt, db))
      × Acknowledges clock job_id batch raw c b.status db db'
unfolding mark_accepted
mark_accepted-ok t clock job_id batch raw db db' h =
    let (hash, db1, e1, h1) =
      >>=-eq-ok (from_result (normalize_sha256_hex t batch.batch_content_hash)) _ db h in
    let (c, db2, e2, h2) = >>=-eq-ok (checkpoint_for_update job_id) _ db1 h1 in
    let (b, db3, e3, h3) =
      >>=-eq-ok (or_raise (batch_at job_id batch.batch_index db2) delivery_sequence) _ db2 h2 in
    let (_, db4, e4, h4) = >>=-eq-ok (assert_same_batch t b batch hash) _ db3 h3 in
    let (found, at2) = checkpoint_for_update-ok job_id c db1 db2 e2 in
    let (norm, at1) =
      from_result-ok (normalize_sha256_hex t batch.batch_content_hash) hash db db1 e1 in
    let (row, at3) = or_raise-ok (batch_at job_id batch.batch_index db2) b db2 db3 e3 in
    let at4 = assert_same_batch-ok t b batch hash db3 db4 e4 in
    let here = at3 ∙ at2 ∙ at1 in
    let same : assert_same_batch t b batch hash db3 ≡ ok (tt, db3) =
      subst (λ d. assert_same_batch t b batch hash db3 ≡ ok (tt, d)) at4 e4 in
    (
      c,
      b,
      hash,
      subst (λ d. checkpoint_of job_id d ≡ some c) at1 found,
      subst (λ d. batch_at job_id batch.batch_index d ≡ some b) (at2 ∙ at1) row,
      norm,
      subst (λ d. assert_same_batch t b batch hash d ≡ ok (tt, d)) here same,
      subst (λ d. Acknowledges clock job_id batch raw c b.status d db') (at4 ∙ here)
          (acknowledge-ok clock job_id batch raw c b.status db4 db' h4),
    )

-- An index other than the next one keeps its place when the next one is accepted.
placed-next :
    (i next : ℕ) (o : Option Batch)
    → (i == next) ≡ false
    → placed i next o ≡ true
    → placed i (next + 1) o ≡ true
placed-next i next none miss h = ground (arith, miss, h)
placed-next i next (some b) miss h = ground (arith, miss, h)

module _ (k i : ℕ) where
  -- The row and the checkpoint of an acknowledgement.
  Placed-acknowledged :
      (clock job_id : ℕ) (batch : PlannedBatch) (raw : String) (db : Db) (c : Checkpoint)
      (b : Batch)
      → checkpoint_of job_id db ≡ some c
      → batch_at job_id batch.batch_index db ≡ some b
      → batch.batch_index ≡ c.next_batch_index
      → IsInSequence k i db
      → IsInSequence k i (acknowledged clock job_id batch raw db)
  Placed-acknowledged clock job_id batch raw db c b found row at v =
      rw
        (
          find_key-update_where checkpoint_key job_id k (advanced clock batch raw) db.checkpoints
              (λ c. refl),
          find-update_where-at k i job_id batch.batch_index
              (λ b. record b { status = accepted clock }) db.batches (λ b. refl) (λ b. refl),
        )
        (go (k == job_id) refl)
    where
      go :
          (hit : Bool)
          → (k == job_id) ≡ hit
          → Placed
              (if hit
                then elim (checkpoint_of k db) [
                  | none ↦ none
                  | some c ↦ some (advanced clock batch raw c)
                ]
                else checkpoint_of k db)
              i
              (if hit && (i == batch.batch_index)
                then elim (batch_at k i db) [
                  | none ↦ none
                  | some b ↦ some (record b { status = accepted clock })
                ]
                else batch_at k i db)
      go false e = v
      go true e =
          let same : job_id ≡ k = ground (arith, e) in
          let here : checkpoint_of k db ≡ some c =
            subst (λ n. checkpoint_of n db ≡ some c) same found in
          let old : Placed (some c) i (batch_at k i db) =
            subst (λ o. Placed o i (batch_at k i db)) here v in
          rw here (elim (Bool-cases (i == batch.batch_index)) [
            | inl hit ↦
                let at_row : batch_at k i db ≡ some b =
                  subst (λ n. batch_at n i db ≡ some b) same
                    (subst (λ n. batch_at job_id n db ≡ some b) (ground (arith, hit)) row) in
                rw (hit, at_row) (ground (arith, hit), ground arith)
            | inr miss ↦
                rw miss (
                  placed-next i batch.batch_index (batch_at k i db) miss (rw at old.0),
                  ground arith,
                )
          ])

  pub mark_accepted-keeps :
      (t : CaseTable) (clock job_id : ℕ) (batch : PlannedBatch) (raw : String) (db db' : Db)
      → mark_accepted t clock job_id batch raw db ≡ ok (tt, db')
      → IsInSequence k i db
      → IsInSequence k i db'
  mark_accepted-keeps t clock job_id batch raw db db' h v =
      let (c, b, _, found, row, _, _, writes) =
        mark_accepted-ok t clock job_id batch raw db db' h in
      elim writes [
        | inl (_, _, e) ↦ rw e v
        | inr (_, at, e) ↦ rw e (Placed-acknowledged clock job_id batch raw db c b found row at v)
      ]
