-- ===== src/Append/Fenced.antt =====
-- No Append leaves a worker that could lose its lease while the call is out.
use astra_indexator.Prelude.{
  ℕ, suc, ◌+◌, ◌≡◌, refl, Bool, true, not, List, [], ◌∷◌, Option, none, some, String, arith, find,
  any, All, All-append, inl, inr, Bool-cases, leb,
}
use astra_indexator.Prelude.Int.{ℤ, pos_part}
use astra_indexator.Text.{CaseTable}
use astra_indexator.Exec.{Result, Tx, ok, err, value_error}
use astra_indexator.Exec.Run.{
  return, fail_if, and_then, and_then-Keeps, fail_if-Keeps, Keeps, >>=-Keeps, ◌>>=◌, ◌>>◌,
}
use astra_indexator.Database.{Job, Db}
use astra_indexator.Coordinator.{fencing_predicate, owns}
use astra_indexator.Claiming.{LeaseToken}
use astra_indexator.Batching.{PlannedBatch}
use astra_indexator.Delivery.{
  Disposition, send, replay_pending, already_accepted, prepare_batch, mark_accepted,
}
use astra_indexator.Checkpoints.{bind_session}
use astra_indexator.Append.{
  holds, fits, lease_of, assert_safe_rpc_window, Sent, World, transaction, append_rpc, call_append,
  contiguous_from, send_batch, deliver_prepared, deliver_batch, deliver_all, deliver, committed,
  owned_then, outcome,
}

-- The token still owns its job `span` later than the time of the database.
abbrev pub owned_through : LeaseToken → ℕ → Db → Bool
owned_through token span db = any (fencing_predicate token (db.now + span)) db.jobs

holds-owns :
    (token : LeaseToken) (now until : ℕ) (job : Job)
    → holds token job ≡ true
    → job.lease_until ≡ some until
    → leb now until ≡ true
    → fencing_predicate token now job ≡ true
unfolding holds fencing_predicate owns
holds-owns token now until job h e fresh = ground (arith, h, e, fresh)

-- The row that is found holds the lease long enough.
found-owned :
    (token : LeaseToken) (now until : ℕ) (rows : List Job)
    → lease_of (find (holds token) rows) ≡ some until
    → leb now until ≡ true
    → any (fencing_predicate token now) rows ≡ true
unfolding lease_of
found-owned token now until [] e fresh = absurd (ground (arith, e))
found-owned token now until (job ∷ rows) e fresh = elim (Bool-cases (holds token job)) [
  | inl hit ↦
      let here = holds-owns token now until job hit (ground (arith, e, hit)) fresh in
      ground (arith, here)
  | inr miss ↦
      let there = found-owned token now until rows (ground (arith, e, miss)) fresh in
      ground (arith, there)
]

fits-ok :
    (required : ℕ) (o : Option ℕ) (db db' : Db)
    → fits required o db ≡ ok (tt, db')
    → (until : ℕ) × (o ≡ some until) × (leb (db.now + required) until ≡ true) × (db' ≡ db)
unfolding fits
fits-ok required none db db' h = cc
fits-ok required (some until) db db' h = (until, refl, ground (arith, h), ground (arith, h))

pub assert_safe_rpc_window-ok :
    (token : LeaseToken) (rpc_deadline safety_margin : ℤ) (db db' : Db)
    → assert_safe_rpc_window token rpc_deadline safety_margin db ≡ ok (tt, db')
    → (db' ≡ db) × (owned_through token (pos_part rpc_deadline + pos_part safety_margin) db ≡ true)
unfolding assert_safe_rpc_window
assert_safe_rpc_window-ok token rpc_deadline safety_margin db db' h =
    let required = pos_part rpc_deadline + pos_part safety_margin in
    let (until, e, fresh, same) =
      fits-ok required (lease_of (find (holds token) db.jobs)) db db' (ground (arith, h)) in
    (same, found-owned token (db.now + required) until db.jobs e fresh)

module _ (t : CaseTable) (environment : World → Db) (clock : World → ℕ)
    (server : ℕ → PlannedBatch → World → Result String) (token : LeaseToken) (session : ℕ)
    (rpc_deadline safety_margin : ℤ) where
  -- An Append that was sent while the lease outlasts the call and the safety margin.
  abbrev pub Covered : Sent → Type 0
  Covered s = owned_through token (pos_part rpc_deadline + pos_part safety_margin) s.db ≡ true

  abbrev AllCovered : World → Type 0
  AllCovered w = All Covered w.sent

  -- A transaction sends nothing.
  transaction-Keeps {κ} :
      {A : Type κ} (m : World → Tx Db A)
      → Keeps AllCovered (transaction t environment clock server m)
  unfolding transaction
  transaction-Keeps {A = A} m w v = go (m w (environment w))
    where
      go : (r : Result (A × Db)) → All Covered (committed environment w r).1.sent
      go (ok (a, db)) = v
      go (err e) = v

  call_append-covered :
      (batch : PlannedBatch) (d : Disposition) (w : World)
      → owned_through token (pos_part rpc_deadline + pos_part safety_margin) w.db ≡ true
      → AllCovered w
      → AllCovered
          (call_append t environment clock server token session rpc_deadline safety_margin batch d
            w).1
  unfolding call_append append_rpc outcome
  call_append-covered batch d w enough v =
      and_then-Keeps AllCovered _ (append_rpc t environment clock server session batch w)
        (λ result.
          >>=-Keeps AllCovered _ _
            (transaction-Keeps
              (λ w. owned_then token (mark_accepted t (clock w) token.job_id batch result)))
            (λ _ w v. v))
        (All-append Covered w.sent _ v (enough, tt))

  send_batch-Keeps :
      (batch : PlannedBatch) (d : Disposition)
      → Keeps AllCovered
          (send_batch t environment clock server token session rpc_deadline safety_margin batch d)
  unfolding send_batch transaction
  send_batch-Keeps batch d w v =
      go (assert_safe_rpc_window token rpc_deadline safety_margin (environment w)) refl
    where
      go :
          (r : Result (Unit {0} × Db))
          → assert_safe_rpc_window token rpc_deadline safety_margin (environment w) ≡ r
          → AllCovered
              (and_then (committed environment w r) (λ _.
                call_append t environment clock server token session rpc_deadline safety_margin
                  batch d)).1
      go (err x) e = v
      go (ok (_, db)) e =
          let (same, enough) =
            assert_safe_rpc_window-ok token rpc_deadline safety_margin (environment w) db e in
          call_append-covered batch d (record w { db = db; turn = suc w.turn }) (rw same enough) v

  deliver_prepared-Keeps :
      (batch : PlannedBatch) (d : Disposition)
      → Keeps AllCovered (
          deliver_prepared t environment clock server token session rpc_deadline safety_margin batch
            d)
  unfolding deliver_prepared
  deliver_prepared-Keeps batch already_accepted w v = v
  deliver_prepared-Keeps batch send w v = send_batch-Keeps batch send w v
  deliver_prepared-Keeps batch replay_pending w v = send_batch-Keeps batch replay_pending w v

  deliver_batch-Keeps :
      (batch : PlannedBatch)
      → Keeps AllCovered
          (deliver_batch t environment clock server token session rpc_deadline safety_margin batch)
  unfolding deliver_batch
  deliver_batch-Keeps batch =
      >>=-Keeps AllCovered
        (transaction t environment clock server
          (λ w. owned_then token (prepare_batch t token.job_id batch)))
        (λ p.
          deliver_prepared t environment clock server token session rpc_deadline safety_margin batch
            p.disposition)
        (transaction-Keeps (λ w. owned_then token (prepare_batch t token.job_id batch)))
        (λ p. deliver_prepared-Keeps batch p.disposition)

  deliver_all-Keeps :
      (batches : List PlannedBatch)
      → Keeps AllCovered
          (deliver_all t environment clock server token session rpc_deadline safety_margin batches)
  unfolding deliver_all
  deliver_all-Keeps [] = λ w v. v
  deliver_all-Keeps (batch ∷ batches) =
      >>=-Keeps AllCovered
        (deliver_batch t environment clock server token session rpc_deadline safety_margin batch)
        (λ o.
          deliver_all t environment clock server token session rpc_deadline safety_margin batches
          >>= λ rest. return (o ∷ rest))
        (deliver_batch-Keeps batch)
        (λ o.
          >>=-Keeps AllCovered
            (deliver_all t environment clock server token session rpc_deadline safety_margin
              batches)
            (λ rest. return (o ∷ rest)) (deliver_all-Keeps batches) (λ rest w v. v))

  -- Whatever other transactions, the clock and AstraVector do, and however the delivery ends, every
  -- Append that it sends follows a transaction in whose database the token owned its job, with a
  -- lease that would still run when the deadline of the call and the safety margin have passed. The
  -- condition is that this holds of what was sent before.
  pub deliver_fenced :
      (initial : Option String) (batches : List PlannedBatch) (w : World)
      → All Covered w.sent
      → All Covered
          (deliver t environment clock server token session rpc_deadline safety_margin initial
            batches w).1.sent
  unfolding deliver
  deliver_fenced initial [] w v = v
  deliver_fenced initial (batch ∷ batches) w v =
      let bind =
        transaction t environment clock server
          (λ w. owned_then token (bind_session (clock w) token.job_id session initial)) in
      let rest =
        deliver_all t environment clock server token session rpc_deadline safety_margin
          (batch ∷ batches) in
      >>=-Keeps AllCovered (fail_if (not (contiguous_from 0 (batch ∷ batches))) value_error)
        (λ _. bind >> rest)
        (fail_if-Keeps AllCovered (not (contiguous_from 0 (batch ∷ batches))) value_error)
        (λ _.
          >>=-Keeps AllCovered bind (λ _. rest)
            (transaction-Keeps
              (λ w. owned_then token (bind_session (clock w) token.job_id session initial)))
            (λ _. deliver_all-Keeps (batch ∷ batches)))
        w v
