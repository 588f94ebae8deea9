-- ===== src/Abort.antt =====
-- src/astra_indexator/application/abort_reconciliation.py: Abort with the reconciliation of ambiguous
-- outcomes. AstraVector's answers are the parameters `abort_rpc` and `status_rpc`, which may depend on
-- the calls so far; `environment` is what other transactions do before one of this worker. The
-- `while True` loop runs on fuel, and `none` says that it ran out. The pause between polls is left out.
pub mod Calls
pub mod Counts
pub mod Rounds
pub mod Bounds
use astra_indexator.Prelude.{
  ℕ, zero, suc, ◌+◌, if◌then◌else◌, Bool, true, false, not, List, [], ◌∷◌, Option, none, some,
  String, leb, ◌==◌,
}
use astra_indexator.Text.{Codes, codes, strip, is_empty}
use astra_indexator.Exec.{
  Error, Result, ok, err, transport, value_error, delivery_integrity, abort_conflict, abort_pending,
}
use astra_indexator.Exec.Run.{Run, return, fail, fail_if, ◌>>=◌, ◌>>◌}
use astra_indexator.Database.{Checkpoint, Db}
use astra_indexator.Policy.{
  SessionState, active, finalizing, completed, failed, aborted, expired, unknown, IngestionStatus,
  one_of,
}
use astra_indexator.Checkpoints.{checkpoint_of, is_bound_to, record_session_status}

pub data AbortResolution : Type 0 where
  direct_ack reconciled_aborted already_terminal : AbortResolution

pub record AbortOutcome : Type 0 where
  pub resolution : AbortResolution
  pub status : IngestionStatus

pub record AbortCommand : Type 0 where
  pub ingestion_session_id : ℕ
  pub reason : Codes

-- A call of AstraVector, with its answer.
pub data Call : Type 0 where
  called_abort : Result IngestionStatus → Call
  queried : Result IngestionStatus → Call

-- `calls` has the newest first.
pub record World : Type 0 where
  pub db : Db
  pub turn : ℕ
  pub calls : List Call

-- `except AstraVectorTransportError`, with the test on the code as it is.
unfoldable pub is_ambiguous : Error → Bool
is_ambiguous (transport code message) =
    one_of ("DEADLINE_EXCEEDED" ∷ "UNAVAILABLE" ∷ "CANCELLED" ∷ "UNKNOWN" ∷ []) (codes code)
is_ambiguous _ = false

-- Where the loop stands behind one round.
pub data Progress : Type 0 where
  done : AbortOutcome → Progress
  again : ℕ → ℕ → IngestionStatus → Progress

-- The end of a transaction: committed, or rolled back.
abbrev pub committed {κ} : {A : Type κ} → (World → Db) → World → Result (A × Db) → Result A × World
committed environment w (ok (a, db)) = (ok a, record w { db = db; turn = suc w.turn })
committed environment w (err e) = (err e, record w { db = environment w; turn = suc w.turn })

-- The environment of a run.
pub record Port : Type 0 where
  pub environment : World → Db
  pub clock : World → ℕ
  pub abort_rpc : AbortCommand → World → Result IngestionStatus
  pub status_rpc : World → Result IngestionStatus

resolution_of : Bool → AbortResolution
resolution_of true = direct_ack
resolution_of false = reconciled_aborted

resolve_in : Bool → IngestionStatus → SessionState → Run World Progress
unfolding resolution_of
resolve_in direct s aborted =
    return (done (record { resolution = resolution_of direct; status = s }))
resolve_in direct s failed = return (done (record { resolution = already_terminal; status = s }))
resolve_in direct s expired = return (done (record { resolution = already_terminal; status = s }))
resolve_in direct s completed = fail abort_conflict
resolve_in direct s active = fail abort_pending
resolve_in direct s finalizing = fail abort_pending
resolve_in direct s unknown = fail abort_pending

-- `_resolve_observed`
unfoldable pub resolve_observed : Bool → IngestionStatus → Run World Progress
unfolding resolve_in
resolve_observed direct s = resolve_in direct s s.state

module _ (port : Port) (job_id session_id max_attempts max_polls : ℕ) where
  unfoldable pub call_abort : AbortCommand → Run World (Result IngestionStatus)
  call_abort command w = (
    ok (port.abort_rpc command w),
    record w { calls = called_abort (port.abort_rpc command w) ∷ w.calls },
  )

  unfoldable pub query_status : Run World IngestionStatus
  query_status w = (port.status_rpc w, record w { calls = queried (port.status_rpc w) ∷ w.calls })

  -- The status is committed before the loop looks at it.
  unfoldable pub record_status : IngestionStatus → Run World (Unit {0})
  record_status s w = committed port.environment w (
      record_session_status (port.clock w) job_id s.ingestion_session_id s.raw_status
        (some s.error_code) (some s.error_message) (port.environment w))

  abbrev pub validate_status_identity : IngestionStatus → Run World (Unit {0})
  validate_status_identity s =
      fail_if (not (s.ingestion_session_id == session_id)) delivery_integrity

  unfoldable pub observe_status : Run World IngestionStatus
  observe_status = do s ← query_status; validate_status_identity s; record_status s; return s

  -- What follows an Abort, by its answer.
  unfoldable pub after_abort : ℕ → ℕ → Result IngestionStatus → Run World Progress
  after_abort attempts polls (ok s) = do
    validate_status_identity s
    record_status s
    resolve_observed true s
  after_abort attempts polls (err e) = do
    fail_if (not (is_ambiguous e)) e
    s ← observe_status
    return (again attempts (suc polls) s)

  unfoldable pub attempt_abort : AbortCommand → ℕ → ℕ → Run World Progress
  attempt_abort command attempts polls = do
    fail_if (leb max_attempts attempts) abort_pending
    r ← call_abort command
    after_abort (suc attempts) polls r

  unfoldable pub poll_finalizing : ℕ → ℕ → Run World Progress
  poll_finalizing attempts polls = do
    fail_if (leb max_polls polls) abort_pending
    s ← observe_status
    return (again attempts (suc polls) s)

  -- One round of the loop, by the last state seen.
  unfoldable pub round_in :
      AbortCommand → ℕ → ℕ → IngestionStatus → SessionState → Run World Progress
  round_in command attempts polls s active = attempt_abort command attempts polls
  round_in command attempts polls s finalizing = poll_finalizing attempts polls
  round_in command attempts polls s completed = resolve_observed false s
  round_in command attempts polls s failed = resolve_observed false s
  round_in command attempts polls s aborted = resolve_observed false s
  round_in command attempts polls s expired = resolve_observed false s
  round_in command attempts polls s unknown = resolve_observed false s

  unfoldable pub round : AbortCommand → ℕ → ℕ → Option IngestionStatus → Run World Progress
  unfolding round_in
  round command attempts polls none = attempt_abort command attempts polls
  round command attempts polls (some s) = round_in command attempts polls s s.state

  unfoldable pub loop :
      AbortCommand → ℕ → ℕ → ℕ → Option IngestionStatus → Run World (Option AbortOutcome)
  loop command zero attempts polls last = return none
  loop command (suc fuel) attempts polls last = round command attempts polls last >>= λ p. elim p [
    | done o ↦ return (some o)
    | again a b s ↦ loop command fuel a b (some s)
  ]

  bound_to_session : Option Checkpoint → Bool
  bound_to_session none = false
  bound_to_session (some c) = is_bound_to c.ingestion_session_id session_id

  -- `_assert_checkpoint_session`, which only reads.
  unfoldable pub assert_checkpoint_session : Run World (Unit {0})
  unfolding bound_to_session
  assert_checkpoint_session w = (
    (if bound_to_session (checkpoint_of job_id (port.environment w))
        then ok tt
        else err delivery_integrity),
    record w { db = port.environment w; turn = suc w.turn },
  )

  unfoldable pub abort : String → Run World (Option AbortOutcome)
  unfolding assert_checkpoint_session loop
  abort reason = do
    fail_if (is_empty (strip (codes reason))) value_error
    assert_checkpoint_session
    loop (record { ingestion_session_id = session_id; reason = strip (codes reason) })
        (max_attempts + max_polls + 1) 0 0 none
