-- ===== src/Tests/Deliveries.antt =====
-- One planned batch of a claimed job, taken through its delivery.
use astra_indexator.Prelude.{ℕ, ◌≡◌, refl, true, [], ◌∷◌, none, some, String, All}
use astra_indexator.Prelude.Int.{pos}
use astra_indexator.Prelude.Tables.{find_key, update_where}
use astra_indexator.Text.{is_blank, Codes, codes, codes_eq, is_space}
use astra_indexator.Exec.{Result, ok, err, delivery_integrity}
use astra_indexator.Database.{Checkpoint, Db}
use astra_indexator.Batching.{PlannedBatch}
use astra_indexator.Delivery.{
  send, already_accepted, PreparedBatchState, prepared_state, prepared_row, prepare_batch,
  mark_accepted, stage, assert_same_batch, acknowledge, accept,
}
use astra_indexator.Checkpoints.{is_sha256, normalize_sha256_hex, new_checkpoint, bind_session}
use astra_indexator.Delivery.Hash.{normalize_sha256_hex_idempotent}
use astra_indexator.Delivery.Sequence.{IsInSequence}
use astra_indexator.Delivery.History.{Step, Reach, delivery-IsInSequence}
use astra_indexator.Delivery.Replay.{other_hash_refused, again, prepare_batch-again}
use astra_indexator.Delivery.Accepted.{accepted_not_sent_again}
use astra_indexator.Coordinator.{fencing_predicate}
use astra_indexator.Claiming.{claim_next, selected}
use astra_indexator.Append.{
  World, Outcome, deliver, transaction, owned_then, deliver_batch, assert_safe_rpc_window, holds,
  append_rpc,
}
use astra_indexator.Append.Once.{Answers, batches_sent, deliver_once}
use astra_indexator.Append.Fenced.{Covered, deliver_fenced}
use astra_indexator.Tests.Ascii.{ascii}
use astra_indexator.Tests.Jobs.{submitted_db, claimed_db, token}
use astra_indexator.Tests.Batches.{block}

abbrev written : Codes
written = codes " sha256:0123456789ABCDEF0123456789ABCDEF0123456789ABCDEF0123456789abcdef"

abbrev normal : Codes
normal = codes "0123456789abcdef0123456789abcdef0123456789abcdef0123456789abcdef"

normalize_sha256_hex_idempotent_example :
    (is_sha256 normal ≡ true) × (normalize_sha256_hex ascii normal ≡ ok normal)
unfolding normalize_sha256_hex is_space
normalize_sha256_hex_idempotent_example = normalize_sha256_hex_idempotent ascii written normal refl

abbrev batch_with : Codes → PlannedBatch
batch_with hash = record {
  batch_index = 0;
  blocks = block "a" 0 ∷ [];
  is_last_batch = true;
  batch_content_hash = hash;
  serialized_bytes = 20;
}

abbrev batch : PlannedBatch
batch = batch_with written

abbrev pub db_of {ℓ} : {A : Type ℓ} → Result (A × Db) → Db
db_of (ok (_, db)) = db
db_of (err _) = submitted_db

abbrev pub bound_db : Db
bound_db = db_of (bind_session 50 7 9000 none submitted_db)

abbrev prepared_db : Db
prepared_db = db_of (prepare_batch ascii 7 batch bound_db)

abbrev accepted_db : Db
accepted_db = db_of (mark_accepted ascii 60 7 batch "ACTIVE" prepared_db)

abbrev to_send : PreparedBatchState
to_send = record { disposition = send; batch_index = 0; batch_content_hash = normal }

prepares : prepare_batch ascii 7 batch bound_db ≡ ok (to_send, prepared_db)
unfolding prepare_batch bind_session find_key normalize_sha256_hex is_space prepared_row
    prepared_state stage update_where
prepares = refl

accepts : mark_accepted ascii 60 7 batch "ACTIVE" prepared_db ≡ ok (tt, accepted_db)
unfolding mark_accepted prepare_batch bind_session find_key normalize_sha256_hex is_space
    prepared_row prepared_state stage assert_same_batch codes_eq acknowledge accept update_where
accepts = refl

binds : bind_session 50 7 9000 none submitted_db ≡ ok (tt, bound_db)
unfolding bind_session find_key
binds = refl

delivered : Reach ascii submitted_db accepted_db
delivered =
    Reach.next
      (Reach.next (Reach.next Reach.here (Step.binds 50 7 9000 none binds))
        (Step.prepares 7 batch to_send prepares))
      (Step.accepts 60 7 batch "ACTIVE" accepts)

delivery-IsInSequence_example : IsInSequence 7 0 accepted_db
delivery-IsInSequence_example =
    delivery-IsInSequence ascii submitted_db accepted_db 7 0 refl refl delivered

prepare_batch-again_example :
    prepare_batch ascii 7 batch prepared_db
    ≡ ok (record to_send { disposition = again send }, prepared_db)
prepare_batch-again_example =
    prepare_batch-again ascii 7 batch bound_db prepared_db to_send prepares

-- The same index planned with another hash.
abbrev other_batch : PlannedBatch
other_batch = batch_with (codes "0000000000000000000000000000000000000000000000000000000000000000")

abbrev bound_checkpoint : Checkpoint
bound_checkpoint = elim bound_db.checkpoints [ [] ↦ new_checkpoint 0 none none 0 | ◌∷◌ c _ ↦ c ]

other_hash_refused_example :
    (prepare_batch ascii 7 other_batch prepared_db ≡ err delivery_integrity)
    × (mark_accepted ascii 70 7 other_batch "ACTIVE" prepared_db ≡ err delivery_integrity)
unfolding prepare_batch bind_session find_key normalize_sha256_hex is_space prepared_row
    prepared_state stage codes_eq update_where
other_hash_refused_example =
    other_hash_refused ascii 70 7 other_batch "ACTIVE" prepared_db bound_checkpoint
      (prepared_row 7 batch normal) normal
      (codes "0000000000000000000000000000000000000000000000000000000000000000") refl refl refl refl
      refl refl

accepted_not_sent_again_example :
    (hash : Codes) × (normalize_sha256_hex ascii written ≡ ok hash)
    × (prepare_batch ascii 7 batch accepted_db
        ≡ ok (prepared_state already_accepted batch hash, accepted_db))
unfolding prepare_batch bind_session find_key normalize_sha256_hex is_space prepared_row
    prepared_state stage update_where
accepted_not_sent_again_example =
    accepted_not_sent_again ascii 60 7 batch "ACTIVE" prepared_db accepted_db bound_checkpoint refl
      refl accepts

-- A worker alone with its database, and an AstraVector that answers every Append.
abbrev alone : World → Db
alone w = w.db

abbrev answers : ℕ → PlannedBatch → World → Result String
answers _ _ _ = ok "ACTIVE"

abbrev start : World
start = record { db = claimed_db; turn = 0; sent = [] }

deliver_fenced_example :
    All
      (Covered ascii alone (λ w. w.turn) answers (token 1) 9000 (pos 10000000) (pos 5000000))
      (deliver ascii alone
        (λ w. w.turn)
        answers
        (token 1)
        9000
        (pos 10000000)
        (pos 5000000)
        none
        (batch ∷ [])
        start).1.sent
deliver_fenced_example =
    deliver_fenced ascii alone (λ w. w.turn) answers (token 1) 9000 (pos 10000000) (pos 5000000)
      none (batch ∷ []) start tt

abbrev delivered_world : World
delivered_world =
    (deliver ascii alone (λ w. w.turn) answers (token 1) 9000 (pos 10000000) (pos 5000000) none
      (batch ∷ []) start).1

abbrev sent_outcome : Outcome
sent_outcome = record {
  batch_index = 0;
  batch_content_hash = written;
  disposition = send;
  remote_result = some "ACTIVE";
}

deliver_once_example :
    Answers (batch ∷ []) (sent_outcome ∷ []) × (batches_sent delivered_world ≡ batch ∷ [])
unfolding deliver claim_next transaction owned_then is_blank selected update_where fencing_predicate
    bind_session find_key deliver_batch prepare_batch normalize_sha256_hex stage
    assert_safe_rpc_window holds append_rpc mark_accepted assert_same_batch accept acknowledge
    is_space codes_eq prepared_row prepared_state
deliver_once_example =
    deliver_once ascii alone (λ w. w.turn) answers (token 1) 9000 (pos 10000000) (pos 5000000) none
      (batch ∷ []) start delivered_world (sent_outcome ∷ []) refl
