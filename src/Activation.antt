-- ===== src/Activation.antt =====
-- src/astra_indexator/application/vector_activation.py: the activation of a document version, behind
-- the lease fence, between two waits for its vectors. The answer of the activation is the parameter
-- `activate_rpc`; the rest is the port of Wait. The pause between polls is left out.
pub mod Polling
pub mod Safe
use astra_indexator.Prelude.{
  ℕ, zero, suc, Bool, true, false, not, List, ◌∷◌, Option, none, some, String,
}
use astra_indexator.Text.{CaseTable}
use astra_indexator.Exec.{Error, Result, ok, err, transport, runtime_error, activation_pending}
use astra_indexator.Exec.Run.{Run, return, fail, fail_if, ◌>>=◌, ◌>>◌}
use astra_indexator.Database.{Db}
use astra_indexator.Claiming.{LeaseToken}
use astra_indexator.Append.{assert_owned}
use astra_indexator.Policy.{
  VectorStatus, require_searchable, allow_ready_to_activate, Disposition, wait, ready_to_activate,
  searchable, terminal, ReadinessDecision,
}
use astra_indexator.Wait
use astra_indexator.Wait.{
  Ready, query_vector, record_status, decide, first_status, wait_until_ready, committed,
}

pub record ActivationResult : Type 0 where
  pub document_id : ℕ
  pub document_version : ℕ
  pub raw_status : String

-- `VectorActivationOutcome`
pub record ActivationOutcome : Type 0 where
  pub activation : Option ActivationResult
  pub readiness : Ready

-- `activations` has the database at each activation, as the transaction before it left it.
pub record World : Type 0 where
  pub waiting : Wait.World
  pub activations : List Db

-- A run on the part of the world that Wait knows.
abbrev pub waits {κ} : {A : Type κ} → Run Wait.World A → Run World A
waits m w = ((m w.waiting).0, record w { waiting = (m w.waiting).1 })

abbrev pub is_searchable : Disposition → Bool
is_searchable searchable = true
is_searchable wait = false
is_searchable ready_to_activate = false
is_searchable terminal = false

-- `except AstraVectorTransportError`
unfoldable pub is_transport : Error → Bool
is_transport (transport code message) = true
is_transport _ = false

module _ (t : CaseTable) (port : Wait.Port) (activate_rpc : World → Result ActivationResult)
    (token : LeaseToken) (session max_polls : ℕ) where
  -- `_assert_owned`
  unfoldable pub own_lease : Run Wait.World (Unit {0})
  own_lease w = committed port.environment w (assert_owned token (port.environment w))

  -- The end of a round of `_wait_for_active`; `rest` is the next one.
  abbrev pub settle_active :
      VectorStatus → ℕ → ReadinessDecision → Run Wait.World Ready → Bool → Run Wait.World Ready
  settle_active s polls d rest true = return (record { decision = d; status = s; polls = polls })
  settle_active s polls d rest false = rest

  -- The loop of `_wait_for_active`, by the polls that are left; `last` is the last status seen.
  unfoldable pub active_loop :
      ℕ → ℕ → Option VectorStatus → Option VectorStatus → Run Wait.World Ready
  active_loop zero polls status none = fail runtime_error
  active_loop zero polls status (some last) = fail activation_pending
  active_loop (suc left) polls status last = do
    own_lease
    s ← first_status t port require_searchable token.job_id session max_polls status
    record_status t port require_searchable token.job_id session max_polls s
    d ← decide t port require_searchable token.job_id session max_polls s
    settle_active s (suc polls) d (active_loop left (suc polls) none (some s))
        (is_searchable d.disposition)

  unfoldable pub wait_for_active : Option VectorStatus → Run Wait.World Ready
  wait_for_active initial = active_loop max_polls 0 initial none

  unfoldable pub call_activate : Run World (Result ActivationResult)
  call_activate w = (ok (activate_rpc w), record w { activations = w.waiting.db ∷ w.activations })

  -- What follows an activation, by its answer: any transport error is reconciled by polling.
  unfoldable pub after_activate : Result ActivationResult → Run World (Option ActivationOutcome)
  after_activate (ok a) = do
    waits own_lease
    r ← waits (wait_for_active none)
    return (some (record { activation = some a; readiness = r }))
  after_activate (err e) = do
    fail_if (not (is_transport e)) e
    s ← waits (query_vector t port require_searchable token.job_id session max_polls)
    r ← waits (wait_for_active (some s))
    return (some (record { activation = none; readiness = r }))

  unfoldable pub activate_on : Ready → Disposition → Run World (Option ActivationOutcome)
  unfolding after_activate
  activate_on ready searchable = return (some (record { activation = none; readiness = ready }))
  activate_on ready ready_to_activate = do waits own_lease; r ← call_activate; after_activate r
  activate_on ready wait = fail activation_pending
  activate_on ready terminal = fail activation_pending

  abbrev pub resume : Option Ready → Run World (Option ActivationOutcome)
  resume none = return none
  resume (some ready) = activate_on ready ready.decision.disposition

  -- `none` says that the fuel of `wait_until_ready` ran out.
  unfoldable pub activate_until_searchable : VectorStatus → Run World (Option ActivationOutcome)
  unfolding activate_on
  activate_until_searchable initial =
      waits (
        wait_until_ready t port allow_ready_to_activate token.job_id session max_polls
          (some initial))
      >>= resume
