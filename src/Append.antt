-- ===== src/Append.antt =====
-- src/astra_indexator/application/durable_append_delivery.py and append_delivery.py: batches are
-- prepared, sent and acknowledged in separate transactions, each behind the lease fence.
-- What other transactions and the clock do before a transaction of this worker is the parameter
-- `environment`; AstraVector's answer to an Append is the parameter `server`, and may be an error.
-- Spans of time are microseconds, where the code has float seconds.
pub mod Fenced
pub mod Once
use astra_indexator.Prelude.{
  ℕ, suc, ◌+◌, Bool, true, false, not, ◌&&◌, ◌||◌, List, [], ◌∷◌, ◌++◌, Option, none, some, String,
  length, find, leb, ltb, ◌==◌, if◌then◌else◌,
}
use astra_indexator.Prelude.Int.{ℤ, pos, pos_part, ltb_ℤ, leb_ℤ}
use astra_indexator.Text.{Codes, CaseTable, is_empty}
use astra_indexator.Exec.{Result, ok, err, Tx, value_error, lease_lost, rpc_window_too_short}
use astra_indexator.Exec.Run.{Run, return, fail, fail_if, ◌>>=◌, ◌>>◌}
use astra_indexator.Database.{Job, Db, holds_text, is_processing}
use astra_indexator.Coordinator.{fencing_predicate}
use astra_indexator.Claiming.{LeaseToken}
use astra_indexator.Batching.{PlannedBatch}
use astra_indexator.Delivery.{
  Disposition, send, replay_pending, already_accepted, PreparedBatchState, prepare_batch,
  mark_accepted,
}
use astra_indexator.Checkpoints.{bind_session}

-- `DurableAppendLeaseFence.assert_owned`
unfoldable pub assert_owned : LeaseToken → Tx Db (Unit {0})
assert_owned token db = elim (find (fencing_predicate token db.now) db.jobs) [
  | none ↦ err lease_lost
  | some _ ↦ ok (tt, db)
]

-- A transaction behind the lease fence.
unfoldable pub owned_then {κ} : {A : Type κ} → LeaseToken → Tx Db A → Tx Db A
unfolding assert_owned
owned_then token m db = elim (assert_owned token db) [ ok (_, db') ↦ m db' | err e ↦ err e ]

-- The row that `assert_safe_rpc_window` reads: `lease_until` is not compared yet.
unfoldable pub holds : LeaseToken → Job → Bool
holds token job =
    (job.id == token.job_id)
    && (holds_text job.worker_id token.worker_id
        && ((job.lease_generation == token.lease_generation)
            && (is_processing job.status && elim job.lease_until [ none ↦ false | some _ ↦ true ])))

-- The tests on the time that is left until `lease_until`.
unfoldable pub fits : ℕ → Option ℕ → Tx Db (Unit {0})
fits required none db = err lease_lost
fits required (some lease_until) db =
    if ltb lease_until db.now
    then err lease_lost
    else if ltb lease_until (db.now + required)
    then err rpc_window_too_short
    else ok (tt, db)

lease_of : Option Job → Option ℕ
lease_of none = none
lease_of (some job) = job.lease_until

unfoldable pub assert_safe_rpc_window : LeaseToken → ℤ → ℤ → Tx Db (Unit {0})
unfolding fits lease_of
assert_safe_rpc_window token rpc_deadline safety_margin db =
    if leb_ℤ rpc_deadline (pos 0)
    then err value_error
    else if ltb_ℤ safety_margin (pos 0)
    then err value_error
    else fits (pos_part rpc_deadline + pos_part safety_margin)
        (lease_of (find (holds token) db.jobs)) db

-- An Append that was sent, with the database that the transaction before it left.
pub record Sent : Type 0 where
  pub batch : PlannedBatch
  pub db : Db

-- `turn` counts the transactions of this worker.
pub record World : Type 0 where
  pub db : Db
  pub turn : ℕ
  pub sent : List Sent

pub record Outcome : Type 0 where
  pub batch_index : ℕ
  pub batch_content_hash : Codes
  pub disposition : Disposition
  pub remote_result : Option String

abbrev pub is_already_accepted : Disposition → Bool
is_already_accepted already_accepted = true
is_already_accepted _ = false

outcome : PlannedBatch → Disposition → Option String → Outcome
outcome batch d result = record {
  batch_index = batch.batch_index;
  batch_content_hash = batch.batch_content_hash;
  disposition = d;
  remote_result = result;
}

-- `actual_indices == list(range(len(batches)))`
abbrev pub contiguous_from : ℕ → List PlannedBatch → Bool
contiguous_from i [] = true
contiguous_from i (b ∷ bs) = (b.batch_index == i) && contiguous_from (suc i) bs

-- The end of a transaction: committed, or rolled back.
abbrev pub committed {κ} : {A : Type κ} → (World → Db) → World → Result (A × Db) → Result A × World
committed environment w (ok (a, db)) = (ok a, record w { db = db; turn = suc w.turn })
committed environment w (err e) = (err e, record w { db = environment w; turn = suc w.turn })

module _ (t : CaseTable) (environment : World → Db) (clock : World → ℕ)
    (server : ℕ → PlannedBatch → World → Result String) where
  -- `with session.begin()`
  unfoldable pub transaction {κ} : {A : Type κ} → (World → Tx Db A) → Run World A
  transaction m w = committed environment w (m w (environment w))

  -- `port.append`: the request is out whatever the answer is.
  unfoldable pub append_rpc : ℕ → PlannedBatch → Run World String
  append_rpc session batch w = (
    server session batch w,
    record w { sent = w.sent ++ record { batch = batch; db = w.db } ∷ [] },
  )

  module _ (token : LeaseToken) (session : ℕ) (rpc_deadline safety_margin : ℤ) where
    -- One batch that is to be sent: the call, and its acknowledgement.
    unfoldable pub call_append : PlannedBatch → Disposition → Run World Outcome
    unfolding outcome
    call_append batch disposition = do
      result ← append_rpc session batch
      transaction (λ w. owned_then token (mark_accepted t (clock w) token.job_id batch result))
      return (outcome batch disposition (some result))

    unfoldable pub send_batch : PlannedBatch → Disposition → Run World Outcome
    unfolding call_append
    send_batch batch disposition = do
      transaction (λ w. assert_safe_rpc_window token rpc_deadline safety_margin)
      call_append batch disposition

    unfoldable pub deliver_prepared : PlannedBatch → Disposition → Run World Outcome
    unfolding outcome send_batch
    deliver_prepared batch already_accepted = return (outcome batch already_accepted none)
    deliver_prepared batch send = send_batch batch send
    deliver_prepared batch replay_pending = send_batch batch replay_pending

    -- The body of the loop.
    unfoldable pub deliver_batch : PlannedBatch → Run World Outcome
    unfolding deliver_prepared
    deliver_batch batch = do
      prepared ← transaction (λ w. owned_then token (prepare_batch t token.job_id batch))
      deliver_prepared batch prepared.disposition

    unfoldable pub deliver_all : List PlannedBatch → Run World (List Outcome)
    deliver_all [] = return []
    deliver_all (batch ∷ batches) = do
      o ← deliver_batch batch
      rest ← deliver_all batches
      return (o ∷ rest)

    unfoldable pub deliver : Option String → List PlannedBatch → Run World (List Outcome)
    unfolding deliver_all
    deliver initial [] = return []
    deliver initial (batch ∷ batches) = do
      fail_if (not (contiguous_from 0 (batch ∷ batches))) value_error
      transaction (λ w. owned_then token (bind_session (clock w) token.job_id session initial))
      deliver_all (batch ∷ batches)
