-- ===== src/Finalize.antt =====
-- src/astra_indexator/application/finalize_reconciliation.py: Finalize with the reconciliation of
-- ambiguous outcomes. AstraVector's answers are the parameters `finalize_rpc`, `status_rpc` and
-- `vector_rpc`, which may depend on the calls so far; `environment` is what other transactions do
-- before one of this worker. The `while True` loop runs on fuel, and `none` says that it ran out.
pub mod Calls
pub mod Rounds
pub mod Bounds
pub mod Evidence
use astra_indexator.Prelude.{
  ℕ, zero, suc, ◌+◌, if◌then◌else◌, Bool, true, false, not, ◌||◌, List, [], ◌∷◌, Option, none, some,
  String, leb, ◌==◌,
}
use astra_indexator.Text.{codes, strip, upper, ends_with, CaseTable}
use astra_indexator.Exec.{
  Error, Result, ok, err, transport, Tx, runtime_error, delivery_integrity, finalize_terminal,
  finalize_identity_unavailable, finalize_pending,
}
use astra_indexator.Exec.Run.{Run, return, fail, fail_if, ◌>>=◌, ◌>>◌}
use astra_indexator.Database.{Checkpoint, Db}
use astra_indexator.Policy.{
  SessionState, active, finalizing, completed, IngestionStatus, VectorStatus, one_of,
  reconcile_status, RetryDecision, failed, aborted, expired, unknown, normalize,
  classify_normalized,
}
use astra_indexator.Checkpoints.{checkpoint_of, is_bound_to, record_session_status}

pub record FinalizeResult : Type 0 where
  pub access_zone_id : ℕ
  pub document_id : ℕ
  pub document_version : ℕ
  pub raw_operation_state : String
  pub message : String
  pub operation_id : String

-- `FinalizeDeliveryOutcome`, by its resolution.
pub data FinalizeOutcome : Type 0 where
  direct_ack : FinalizeResult → VectorStatus → FinalizeOutcome
  reconciled_completed : IngestionStatus → VectorStatus → FinalizeOutcome

-- A call of AstraVector: a Finalize, or a status query with the state that it showed.
pub data Call : Type 0 where
  called_finalize : Call
  saw_status : SessionState → Call
  status_failed : Call

-- `calls` has the newest first.
pub record World : Type 0 where
  pub db : Db
  pub turn : ℕ
  pub calls : List Call

-- `decision is RetryDecision.RECONCILE_STATUS`
is_reconcile : RetryDecision → Bool
is_reconcile reconcile_status = true
is_reconcile _ = false

-- The code is normalised here and by the classifier.
unfoldable pub should_reconcile_finalize_failure : CaseTable → String → String → Bool
unfolding is_reconcile
should_reconcile_finalize_failure t code message =
    let c = normalize t code in
    one_of ("DEADLINE_EXCEEDED" ∷ "UNAVAILABLE" ∷ "ABORTED" ∷ []) c
    || is_reconcile (classify_normalized (upper t (strip c)) (normalize t message))

-- `except AstraVectorTransportError`, with the test: any other exception is raised on.
unfoldable pub is_ambiguous : CaseTable → Error → Bool
unfolding should_reconcile_finalize_failure
is_ambiguous t (transport code message) = should_reconcile_finalize_failure t code message
is_ambiguous t _ = false

-- Where the loop stands behind one round.
pub data Progress : Type 0 where
  done : FinalizeOutcome → Progress
  again : ℕ → ℕ → IngestionStatus → Progress

pub record Request : Type 0 where
  pub job_id : ℕ
  pub ingestion_session_id : ℕ
  pub final_content_hash : String
  pub access_zone_id : Option ℕ
  pub document_id : ℕ
  pub document_version : ℕ

-- `access_zone_id is not None and result.access_zone_id != access_zone_id`
unfoldable pub other_zone : Option ℕ → ℕ → Bool
other_zone none z = false
other_zone (some a) z = not (z == a)

-- `_validate_finalize_identity`
unfoldable pub other_identity : Request → FinalizeResult → Bool
unfolding other_zone
other_identity request result =
    other_zone request.access_zone_id result.access_zone_id
    || (not (result.document_id == request.document_id)
        || not (result.document_version == request.document_version))

-- The end of a transaction: committed, or rolled back.
abbrev pub committed {κ} : {A : Type κ} → (World → Db) → World → Result (A × Db) → Result A × World
committed environment w (ok (a, db)) = (ok a, record w { db = db; turn = suc w.turn })
committed environment w (err e) = (err e, record w { db = environment w; turn = suc w.turn })

-- The call that a status query is recorded as.
abbrev pub seen : Result IngestionStatus → Call
seen (ok s) = saw_status s.state
seen (err e) = status_failed

-- The environment of a run.
pub record Port : Type 0 where
  pub environment : World → Db
  pub clock : World → ℕ
  pub finalize_rpc : World → Result FinalizeResult
  pub status_rpc : World → Result IngestionStatus
  pub vector_rpc : ℕ → ℕ → ℕ → World → Result VectorStatus

module _ (t : CaseTable) (port : Port) (request : Request) (max_attempts max_polls : ℕ) where
  unfoldable pub call_finalize : Run World (Result FinalizeResult)
  call_finalize w = (ok (port.finalize_rpc w), record w { calls = called_finalize ∷ w.calls })

  unfoldable pub query_status : Run World IngestionStatus
  query_status w = (port.status_rpc w, record w { calls = seen (port.status_rpc w) ∷ w.calls })

  unfoldable pub query_vector : ℕ → Run World VectorStatus
  query_vector zone w = (port.vector_rpc zone request.document_id request.document_version w, w)

  -- The status is committed before the loop looks at it.
  unfoldable pub record_status : IngestionStatus → Run World (Unit {0})
  record_status s w = committed port.environment w (
      record_session_status (port.clock w) request.job_id request.ingestion_session_id s.raw_status
        (some s.error_code) (some s.error_message) (port.environment w))

  unfoldable pub observe_status : Run World IngestionStatus
  observe_status = do
    s ← query_status
    fail_if (not (s.ingestion_session_id == request.ingestion_session_id)) delivery_integrity
    record_status s
    return s

  -- What follows a Finalize, by its answer.
  unfoldable pub after_finalize : ℕ → ℕ → Result FinalizeResult → Run World Progress
  after_finalize attempts polls (ok result) = do
    fail_if (other_identity request result) delivery_integrity
    fail_if (ends_with (codes "FAILED") (codes result.raw_operation_state)) runtime_error
    v ← query_vector result.access_zone_id
    return (done (direct_ack result v))
  after_finalize attempts polls (err e) = do
    fail_if (not (is_ambiguous t e)) e
    s ← observe_status
    return (again attempts (suc polls) s)

  unfoldable pub attempt_finalize : ℕ → ℕ → Run World Progress
  unfolding after_finalize
  attempt_finalize attempts polls = do
    fail_if (leb max_attempts attempts) finalize_pending
    r ← call_finalize
    after_finalize (suc attempts) polls r

  unfoldable pub poll_finalizing : ℕ → ℕ → Run World Progress
  poll_finalizing attempts polls = do
    fail_if (leb max_polls polls) finalize_pending
    s ← observe_status
    return (again attempts (suc polls) s)

  unfoldable pub reconcile_completed : IngestionStatus → Option ℕ → Run World Progress
  reconcile_completed s none = fail finalize_identity_unavailable
  reconcile_completed s (some zone) = do
    v ← query_vector zone
    return (done (reconciled_completed s v))

  -- One round of the loop, by the last state seen.
  unfoldable pub round_in : ℕ → ℕ → IngestionStatus → SessionState → Run World Progress
  unfolding attempt_finalize poll_finalizing reconcile_completed
  round_in attempts polls s active = attempt_finalize attempts polls
  round_in attempts polls s finalizing = poll_finalizing attempts polls
  round_in attempts polls s completed = reconcile_completed s request.access_zone_id
  round_in attempts polls s failed = fail finalize_terminal
  round_in attempts polls s aborted = fail finalize_terminal
  round_in attempts polls s expired = fail finalize_terminal
  round_in attempts polls s unknown = fail finalize_pending

  unfoldable pub round : ℕ → ℕ → Option IngestionStatus → Run World Progress
  unfolding round_in
  round attempts polls none = attempt_finalize attempts polls
  round attempts polls (some s) = round_in attempts polls s s.state

  unfoldable pub loop : ℕ → ℕ → ℕ → Option IngestionStatus → Run World (Option FinalizeOutcome)
  loop zero attempts polls last = return none
  loop (suc fuel) attempts polls last = round attempts polls last >>= λ p. elim p [
    | done o ↦ return (some o)
    | again a b s ↦ loop fuel a b (some s)
  ]

  bound_to_request : Option Checkpoint → Bool
  bound_to_request none = false
  bound_to_request (some c) = is_bound_to c.ingestion_session_id request.ingestion_session_id

  -- `_assert_checkpoint_session`, which only reads.
  unfoldable pub assert_checkpoint_session : Run World (Unit {0})
  unfolding bound_to_request
  assert_checkpoint_session w = (
    (if bound_to_request (checkpoint_of request.job_id (port.environment w))
        then ok tt
        else err delivery_integrity),
    record w { db = port.environment w; turn = suc w.turn },
  )

  unfoldable pub finalize : Run World (Option FinalizeOutcome)
  unfolding assert_checkpoint_session loop
  finalize = assert_checkpoint_session >> loop (max_attempts + max_polls + 1) 0 0 none
