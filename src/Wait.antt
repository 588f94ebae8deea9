-- ===== src/Wait.antt =====
-- src/astra_indexator/application/vector_readiness.py: polling the vector status until the document
-- is ready. AstraVector's answers are the parameter `vector_rpc`, which may depend on the number of
-- queries so far; `environment` is what other transactions do before one of this worker. The
-- `while True` loop runs on fuel, and `none` says that it ran out.
pub mod Bounds
use astra_indexator.Prelude.{
  ℕ, zero, suc, ◌+◌, if◌then◌else◌, Bool, true, false, List, Option, none, some, leb,
}
use astra_indexator.Text.{CaseTable}
use astra_indexator.Exec.{
  Error, Result, ok, err, delivery_integrity, readiness_pending, readiness_terminal,
}
use astra_indexator.Exec.Run.{Run, return, fail, fail_if, ◌>>=◌, ◌>>◌}
use astra_indexator.Database.{Checkpoint, Db}
use astra_indexator.Policy.{
  VectorStatus, ActivationReadinessPolicy, Disposition, wait, ready_to_activate, searchable,
  terminal, ReadinessDecision, evaluate_vector_readiness,
}
use astra_indexator.Checkpoints.{checkpoint_of, is_bound_to, record_vector_status}

-- `VectorReadinessOutcome`
pub record Ready : Type 0 where
  pub decision : ReadinessDecision
  pub status : VectorStatus
  pub polls : ℕ

-- Where the loop stands behind one round.
pub data Progress : Type 0 where
  done : Ready → Progress
  again : VectorStatus → Progress

-- `queried` counts the status queries.
pub record World : Type 0 where
  pub db : Db
  pub turn : ℕ
  pub queried : ℕ

pub record Port : Type 0 where
  pub environment : World → Db
  pub clock : World → ℕ
  pub vector_rpc : World → Result VectorStatus

-- The end of a transaction: committed, or rolled back.
abbrev pub committed {κ} : {A : Type κ} → (World → Db) → World → Result (A × Db) → Result A × World
committed environment w (ok (a, db)) = (ok a, record w { db = db; turn = suc w.turn })
committed environment w (err e) = (err e, record w { db = environment w; turn = suc w.turn })

abbrev pub bound_to : Option Checkpoint → ℕ → Bool
bound_to none session = false
bound_to (some c) session = is_bound_to c.ingestion_session_id session

module _ (t : CaseTable) (port : Port) (policy : ActivationReadinessPolicy)
    (job_id session max_polls : ℕ) where
  unfoldable pub query_vector : Run World VectorStatus
  query_vector w = (port.vector_rpc w, record w { queried = suc w.queried })

  -- `_record_status`
  unfoldable pub record_status : VectorStatus → Run World (Unit {0})
  record_status s w =
      committed port.environment w
        (record_vector_status (port.clock w) job_id s (port.environment w))

  -- `_assert_checkpoint_session`, which only reads.
  unfoldable pub assert_session : Run World (Unit {0})
  assert_session w = (
    (if bound_to (checkpoint_of job_id (port.environment w)) session
        then ok tt
        else err delivery_integrity),
    record w { db = port.environment w; turn = suc w.turn },
  )

  -- `evaluate_vector_readiness`, whose exception the loop does not catch.
  unfoldable pub decide : VectorStatus → Run World ReadinessDecision
  decide s w = (evaluate_vector_readiness t s policy, w)

  -- The rest of a round, by the disposition decided.
  unfoldable pub conclude : VectorStatus → ℕ → ReadinessDecision → Disposition → Run World Progress
  conclude s polls d searchable = return (done (record { decision = d; status = s; polls = polls }))
  conclude s polls d ready_to_activate =
      return (done (record { decision = d; status = s; polls = polls }))
  conclude s polls d terminal = fail readiness_terminal
  conclude s polls d wait = do
    fail_if (leb max_polls polls) readiness_pending
    s' ← query_vector
    return (again s')

  -- One round of the loop on a status, with the count of polls that includes it.
  unfoldable pub round : VectorStatus → ℕ → Run World Progress
  unfolding conclude
  round s polls = do record_status s; d ← decide s; conclude s polls d d.disposition

  unfoldable pub loop : ℕ → ℕ → VectorStatus → Run World (Option Ready)
  loop zero polls s = return none
  loop (suc fuel) polls s = round s (suc polls) >>= λ p. elim p [
    | done o ↦ return (some o)
    | again s' ↦ loop fuel (suc polls) s'
  ]

  -- The first status: the caller's, or a query.
  unfoldable pub first_status : Option VectorStatus → Run World VectorStatus
  first_status none = query_vector
  first_status (some s) = return s

  unfoldable pub wait_until_ready : Option VectorStatus → Run World (Option Ready)
  unfolding first_status loop
  wait_until_ready initial = do assert_session; s ← first_status initial; loop (suc max_polls) 0 s
