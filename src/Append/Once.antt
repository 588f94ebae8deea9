-- ===== src/Append/Once.antt =====
-- A delivery that returns has sent each batch at most once, in the order of the plan.
use mathlib.Core.List.{append_assoc, append-nil, map-append}
use astra_indexator.Prelude.{
  ℕ, suc, ◌≡◌, refl, sym, ap, subst, ◌∙◌, Bool, true, false, not, List, [], ◌∷◌, ◌++◌, Option, none,
  some, String, map,
}
use astra_indexator.Prelude.Int.{ℤ}
use astra_indexator.Text.{CaseTable}
use astra_indexator.Exec.{Result, ok, err, value_error}
use astra_indexator.Exec.Run.{return, fail_if, and_then, ◌>>=◌, ◌>>◌}
use astra_indexator.Database.{Db, is_null}
use astra_indexator.Claiming.{LeaseToken}
use astra_indexator.Batching.{PlannedBatch}
use astra_indexator.Delivery.{
  Disposition, send, replay_pending, already_accepted, PreparedBatchState, prepare_batch,
  mark_accepted,
}
use astra_indexator.Checkpoints.{bind_session}
use astra_indexator.Append.{
  World, Outcome, outcome, is_already_accepted, contiguous_from, owned_then, committed, transaction,
  append_rpc, assert_safe_rpc_window, call_append, send_batch, deliver_prepared, deliver_batch,
  deliver_all, deliver,
}

-- The batches sent so far.
abbrev pub batches_sent : World → List PlannedBatch
batches_sent w = map (λ s. s.batch) w.sent

-- The batches that were sent for outcomes: those with an answer of AstraVector.
abbrev pub sent_for : PlannedBatch → Option String → List PlannedBatch
sent_for batch none = []
sent_for batch (some _) = batch ∷ []

abbrev pub answered : List PlannedBatch → List Outcome → List PlannedBatch
answered (batch ∷ batches) (o ∷ os) = sent_for batch o.remote_result ++ answered batches os
answered _ _ = []

-- An outcome belongs to its batch, and only an accepted batch has no answer.
abbrev pub Answers : List PlannedBatch → List Outcome → Type 0
Answers [] [] = Unit
Answers (batch ∷ batches) (o ∷ os) =
    (o.batch_index ≡ batch.batch_index)
    × (o.batch_content_hash ≡ batch.batch_content_hash)
    × (is_already_accepted o.disposition ≡ is_null o.remote_result)
    × Answers batches os
Answers _ _ = ⊥

-- The end of one batch, of which an error says nothing.
abbrev One : PlannedBatch → World → Result Outcome × World → Type 0
One batch w (err e, w') = Unit
One batch w (ok o, w') =
    (o.batch_index ≡ batch.batch_index)
    × (o.batch_content_hash ≡ batch.batch_content_hash)
    × (is_already_accepted o.disposition ≡ is_null o.remote_result)
    × (batches_sent w' ≡ batches_sent w ++ sent_for batch o.remote_result)

abbrev Many : List PlannedBatch → World → Result (List Outcome) × World → Type 0
Many batches w (err e, w') = Unit
Many batches w (ok os, w') =
    Answers batches os × (batches_sent w' ≡ batches_sent w ++ answered batches os)

module _ (t : CaseTable) (environment : World → Db) (clock : World → ℕ)
    (server : ℕ → PlannedBatch → World → Result String) (token : LeaseToken) (session : ℕ)
    (rpc_deadline safety_margin : ℤ) where
  call_append-One :
      (batch : PlannedBatch) (d : Disposition) (w : World)
      → is_already_accepted d ≡ false
      → One batch w (
          call_append t environment clock server token session rpc_deadline safety_margin batch d w)
  unfolding call_append append_rpc transaction outcome
  call_append-One batch d w to_send = go (server session batch w)
    where
      out : World
      out = record w { sent = w.sent ++ record { batch = batch; db = w.db } ∷ [] }

      acked :
          (result : String) (r : Result (Unit {0} × Db))
          → One batch w
              (and_then (committed environment out r) (λ _. return (outcome batch d (some result))))
      acked result (err e) = tt
      acked result (ok (_, db)) = (refl, refl, to_send, map-append (λ s. s.batch) w.sent _)

      go :
          (r : Result String)
          → One batch w (
              and_then
                (r, out)
                (λ result.
                  transaction t environment clock server
                    (λ w. owned_then token (mark_accepted t (clock w) token.job_id batch result))
                  >> return (outcome batch d (some result))))
      go (err e) = tt
      go (ok result) = acked result (
          owned_then token (mark_accepted t (clock out) token.job_id batch result)
            (environment out))

  -- A transaction sends nothing, so what follows it starts from the same batches.
  send_batch-One :
      (batch : PlannedBatch) (d : Disposition) (w : World)
      → is_already_accepted d ≡ false
      → One batch w
          (send_batch t environment clock server token session rpc_deadline safety_margin batch d w)
  unfolding send_batch transaction
  send_batch-One batch d w to_send =
      go (assert_safe_rpc_window token rpc_deadline safety_margin (environment w))
    where
      go :
          (r : Result (Unit {0} × Db))
          → One batch w (
              and_then (committed environment w r) (λ _.
                call_append t environment clock server token session rpc_deadline safety_margin
                  batch d))
      go (err e) = tt
      go (ok (_, db)) = call_append-One batch d (record w { db = db; turn = suc w.turn }) to_send

  deliver_prepared-One :
      (batch : PlannedBatch) (d : Disposition) (w : World)
      → One batch w (
          deliver_prepared t environment clock server token session rpc_deadline safety_margin batch
            d w)
  unfolding deliver_prepared outcome
  deliver_prepared-One batch already_accepted w =
      (refl, refl, refl, sym (append-nil (batches_sent w)))
  deliver_prepared-One batch send w = send_batch-One batch send w refl
  deliver_prepared-One batch replay_pending w = send_batch-One batch replay_pending w refl

  deliver_batch-One :
      (batch : PlannedBatch) (w : World)
      → One batch w (
          deliver_batch t environment clock server token session rpc_deadline safety_margin batch w)
  unfolding deliver_batch transaction
  deliver_batch-One batch w =
      go (owned_then token (prepare_batch t token.job_id batch) (environment w))
    where
      go :
          (r : Result (PreparedBatchState × Db))
          → One batch w (
              and_then (committed environment w r) (λ p.
                deliver_prepared t environment clock server token session rpc_deadline safety_margin
                  batch p.disposition))
      go (err e) = tt
      go (ok (p, db)) =
          deliver_prepared-One batch p.disposition (record w { db = db; turn = suc w.turn })

  -- One batch, and then the others.
  Many-cons :
      (batch : PlannedBatch) (batches : List PlannedBatch) (w w' : World) (o : Outcome)
      (r : Result (List Outcome) × World)
      → One batch w (ok o, w')
      → Many batches w' r
      → Many (batch ∷ batches) w (and_then r (λ os. return (o ∷ os)))
  Many-cons batch batches w w' o (err e, w2) one many = tt
  Many-cons batch batches w w' o (ok os, w2) (index, hash, answer, sent) (answers, rest) = (
    (index, hash, answer, answers),
    rest
        ∙ ap (λ l. l ++ answered batches os) sent
        ∙ append_assoc (batches_sent w) (sent_for batch o.remote_result) (answered batches os),
  )

  One-Many :
      (batch : PlannedBatch) (batches : List PlannedBatch) (w : World) (r : Result Outcome × World)
      → One batch w r
      → ((w' : World)
          → Many batches w' (
              deliver_all t environment clock server token session rpc_deadline safety_margin
                batches w'))
      → Many (batch ∷ batches) w (
          and_then r (λ o.
            deliver_all t environment clock server token session rpc_deadline safety_margin batches
            >>= λ os. return (o ∷ os)))
  One-Many batch batches w (err e, w') one recur = tt
  One-Many batch batches w (ok o, w') one recur =
      Many-cons batch batches w w' o
        (deliver_all t environment clock server token session rpc_deadline safety_margin batches w')
        one (recur w')

  deliver_all-Many :
      (batches : List PlannedBatch) (w : World)
      → Many batches w (
          deliver_all t environment clock server token session rpc_deadline safety_margin batches w)
  unfolding deliver_all
  deliver_all-Many [] w = (tt, sym (append-nil (batches_sent w)))
  deliver_all-Many (batch ∷ batches) w =
      One-Many batch batches w
        (deliver_batch t environment clock server token session rpc_deadline safety_margin batch w)
        (deliver_batch-One batch w) (deliver_all-Many batches)

  deliver-Many :
      (initial : Option String) (batches : List PlannedBatch) (w : World)
      → Many batches w (
          deliver t environment clock server token session rpc_deadline safety_margin initial
            batches w)
  unfolding deliver transaction
  deliver-Many initial [] w = (tt, sym (append-nil (batches_sent w)))
  deliver-Many initial (batch ∷ batches) w = tested (not (contiguous_from 0 (batch ∷ batches)))
    where
      bound :
          (r : Result (Unit {0} × Db))
          → Many (batch ∷ batches) w (
              and_then (committed environment w r) (λ _.
                deliver_all t environment clock server token session rpc_deadline safety_margin
                  (batch ∷ batches)))
      bound (err e) = tt
      bound (ok (_, db)) =
          deliver_all-Many (batch ∷ batches) (record w { db = db; turn = suc w.turn })

      tested :
          (b : Bool)
          → Many (batch ∷ batches) w (
              (fail_if b value_error
                  >> (transaction t environment clock server (λ w.
                        owned_then token (bind_session (clock w) token.job_id session initial))
                      >> deliver_all t environment clock server token session rpc_deadline
                          safety_margin
                          (batch ∷ batches)))
                w)
      tested true = tt
      tested false =
          bound
            (owned_then token (bind_session (clock w) token.job_id session initial) (environment w))

  -- Where a delivery returns outcomes, there is one for each planned batch, in order and with its
  -- index and hash; a batch has no answer of AstraVector exactly when it was accepted before; and the
  -- batches sent by the delivery are those with an answer, each once and in the order of the plan.
  -- This holds whatever other transactions, the clock and AstraVector do.
  pub deliver_once :
      (initial : Option String) (batches : List PlannedBatch) (w w' : World) (os : List Outcome)
      → deliver t environment clock server token session rpc_deadline safety_margin initial batches
          w
        ≡ (ok os, w')
      → Answers batches os × (batches_sent w' ≡ batches_sent w ++ answered batches os)
  deliver_once initial batches w w' os h = subst (Many batches w) h (deliver-Many initial batches w)
