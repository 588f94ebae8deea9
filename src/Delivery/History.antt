-- ===== src/Delivery/History.antt =====
-- The operations of delivery.py, committed in any order for any jobs.
use astra_indexator.Prelude.{ℕ, ◌≡◌, refl, [], Option, String}
use astra_indexator.Prelude.Tables.{find_key}
use astra_indexator.Text.{CaseTable}
use astra_indexator.Exec.{ok}
use astra_indexator.Database.{Checkpoint, Db}
use astra_indexator.Batching.{PlannedBatch}
use astra_indexator.Policy.{VectorStatus}
use astra_indexator.Delivery.{PreparedBatchState, prepare_batch, mark_accepted}
use astra_indexator.Checkpoints.{
  ensure_checkpoint, bind_session, record_session_status, record_vector_status,
}
use astra_indexator.Delivery.Sequence.{
  IsInSequence, ensure_checkpoint-keeps, bind_session-keeps, record_session_status-keeps,
  record_vector_status-keeps,
}
use astra_indexator.Delivery.Staging.{prepare_batch-keeps}
use astra_indexator.Delivery.Accepting.{mark_accepted-keeps}

-- One committed transaction. `elsewhere` is one that writes neither of the two tables.
pub data Step (t : CaseTable) (db db' : Db) : Type 0 where
  ensures :
      (job_id : ℕ) (c : Checkpoint) → ensure_checkpoint job_id db ≡ ok (c, db') → Step t db db'
  binds :
      (clock job_id session : ℕ) (raw : Option String)
      → bind_session clock job_id session raw db ≡ ok (tt, db')
      → Step t db db'
  prepares :
      (job_id : ℕ) (batch : PlannedBatch) (p : PreparedBatchState)
      → prepare_batch t job_id batch db ≡ ok (p, db')
      → Step t db db'
  accepts :
      (clock job_id : ℕ) (batch : PlannedBatch) (raw : String)
      → mark_accepted t clock job_id batch raw db ≡ ok (tt, db')
      → Step t db db'
  records_session :
      (clock job_id session : ℕ) (raw : String) (code message : Option String)
      → record_session_status clock job_id session raw code message db ≡ ok (tt, db')
      → Step t db db'
  records_vector :
      (clock job_id : ℕ) (status : VectorStatus)
      → record_vector_status clock job_id status db ≡ ok (tt, db')
      → Step t db db'
  elsewhere : db'.checkpoints ≡ db.checkpoints → db'.batches ≡ db.batches → Step t db db'

pub data Reach (t : CaseTable) (db : Db) : Db → Type 0 where
  here : Reach t db db
  next : {u v : Db} → Reach t db u → Step t u v → Reach t db v

Step-keeps :
    (t : CaseTable) (k i : ℕ) (db db' : Db)
    → Step t db db'
    → IsInSequence k i db
    → IsInSequence k i db'
Step-keeps t k i db db' (Step.ensures job c h) v = ensure_checkpoint-keeps k i job c db db' h v
Step-keeps t k i db db' (Step.binds clock job s raw h) v =
    bind_session-keeps k i clock job s raw db db' h v
Step-keeps t k i db db' (Step.prepares job batch p h) v =
    prepare_batch-keeps k i t job batch db db' p h v
Step-keeps t k i db db' (Step.accepts clock job batch raw h) v =
    mark_accepted-keeps k i t clock job batch raw db db' h v
Step-keeps t k i db db' (Step.records_session clock job s raw code message h) v =
    record_session_status-keeps k i clock job s raw code message db db' h v
Step-keeps t k i db db' (Step.records_vector clock job status h) v =
    record_vector_status-keeps k i clock job status db db' h v
Step-keeps t k i db db' (Step.elsewhere c b) v = rw (c, b) v

-- Start without checkpoints and batch rows. Whatever operations of the repository follow, for any
-- jobs and with any batches, each job's rows and checkpoint stay in sequence at every index: without
-- a checkpoint no row is there; with one, the rows below `next_batch_index` are accepted, the row at
-- it is missing or prepared, no row is beyond it, and `last_accepted_batch_index` is the one before.
pub delivery-IsInSequence :
    (t : CaseTable) (start db : Db) (job_id i : ℕ)
    → start.checkpoints ≡ []
    → start.batches ≡ []
    → Reach t start db
    → IsInSequence job_id i db
unfolding find_key
delivery-IsInSequence t start db k i no_checkpoints no_batches r = go db r
  where
    go : (db : Db) → Reach t start db → IsInSequence k i db
    go db Reach.here = rw (no_checkpoints, no_batches) refl
    go db (Reach.next {u} r s) = Step-keeps t k i u db s (go u r)
