-- ===== src/Execution/Classes.antt =====
-- The classes that `_classify` of delivery_execution.py and `classify_exception` of retry_policy.py
-- give to exceptions, by what may follow: a repetition, a reconciliation, or neither.
use astra_indexator.Prelude.{◌≡◌, refl, Bool, true, false, String, ◌&&◌, arith}
use astra_indexator.Text.{Codes, CaseTable, codes_eq}
use astra_indexator.Exec.{
  Error, lease_lost, transport, other_exception, value_error, type_error, runtime_error,
  rpc_window_too_short, delivery_integrity, delivery_sequence, batch_planning, block_validation,
  readiness_integrity, finalize_terminal, finalize_identity_unavailable, finalize_pending,
  abort_conflict, abort_pending, readiness_pending, readiness_terminal, activation_pending,
  delivery_recovery_gap,
}
use astra_indexator.Policy.{
  RetryDecision, backoff_and_retry, reconcile_status, permanent_failure, retry_same_operation,
  classify_grpc_failure, normalize,
}
use astra_indexator.Policy.FailClosed.{
  is_retriable, is_ambiguous, Licensed, apart, classify_grpc_failure-Licensed,
}
use astra_indexator.Failure.{
  FailureClass, ownership_lost, downstream_ambiguous, classify_transport, classify_exception,
  is_retryable,
}
use astra_indexator.Execution.{is_lease_lost, classify}

-- The exceptions after which the work may be tried again.
abbrev pub calls_for_retry : CaseTable → Error → Bool
calls_for_retry t readiness_pending = true
calls_for_retry t (transport code message) = is_retriable (normalize t code) (normalize t message)
calls_for_retry t _ = false

-- The exceptions behind which AstraVector may have done what was asked.
abbrev pub leaves_doubt : CaseTable → Error → Bool
leaves_doubt t delivery_recovery_gap = true
leaves_doubt t finalize_pending = true
leaves_doubt t (transport code message) = is_ambiguous (normalize t code) (normalize t message)
leaves_doubt t _ = false

abbrev pub is_in_doubt : FailureClass → Bool
is_in_doubt downstream_ambiguous = true
is_in_doubt _ = false

abbrev pub is_ownership_lost : FailureClass → Bool
is_ownership_lost ownership_lost = true
is_ownership_lost _ = false

-- A class says of an exception whether the work is tried again, whether it is in doubt, and whether the
-- lease was lost.
pub record Classed (t : CaseTable) (e : Error) (c : FailureClass) : Type 0 where
  pub retried : is_retryable c ≡ calls_for_retry t e
  pub in_doubt : is_in_doubt c ≡ leaves_doubt t e
  pub lost : is_ownership_lost c ≡ is_lease_lost e

never_both : (code message : Codes) → is_retriable code message && is_ambiguous code message ≡ false
unfolding codes_eq
never_both code message = ground (
  arith,
  apart code "UNAVAILABLE" "FAILED_PRECONDITION" refl,
  apart code "UNAVAILABLE" "DEADLINE_EXCEEDED" refl,
  apart code "UNAVAILABLE" "ABORTED" refl,
  apart code "RESOURCE_EXHAUSTED" "FAILED_PRECONDITION" refl,
  apart code "RESOURCE_EXHAUSTED" "DEADLINE_EXCEEDED" refl,
  apart code "RESOURCE_EXHAUSTED" "ABORTED" refl,
)

transport-Classed :
    (t : CaseTable) (code message : String) (d : RetryDecision)
    → Licensed d (normalize t code) (normalize t message)
    → Classed t (transport code message) (classify_transport d)
unfolding classify_transport
transport-Classed t code message backoff_and_retry h = record {
  retried = ground (arith, h);
  in_doubt = ground (arith, h, never_both (normalize t code) (normalize t message));
  lost = refl;
}
transport-Classed t code message reconcile_status h = record {
  retried = ground (arith, h, never_both (normalize t code) (normalize t message));
  in_doubt = ground (arith, h);
  lost = refl;
}
transport-Classed t code message permanent_failure h = record {
  retried = ground (arith, h.0);
  in_doubt = ground (arith, h.1);
  lost = refl;
}
transport-Classed t code message retry_same_operation h = absurd h

pub classify-Classed : (t : CaseTable) (e : Error) → Classed t e (classify t e)
unfolding classify classify_exception
classify-Classed t (transport code message) =
    transport-Classed t code message (classify_grpc_failure t code message)
      (classify_grpc_failure-Licensed t code message)
classify-Classed t lease_lost = record { retried = refl; in_doubt = refl; lost = refl }
classify-Classed t value_error = record { retried = refl; in_doubt = refl; lost = refl }
classify-Classed t type_error = record { retried = refl; in_doubt = refl; lost = refl }
classify-Classed t runtime_error = record { retried = refl; in_doubt = refl; lost = refl }
classify-Classed t rpc_window_too_short = record { retried = refl; in_doubt = refl; lost = refl }
classify-Classed t delivery_integrity = record { retried = refl; in_doubt = refl; lost = refl }
classify-Classed t delivery_sequence = record { retried = refl; in_doubt = refl; lost = refl }
classify-Classed t batch_planning = record { retried = refl; in_doubt = refl; lost = refl }
classify-Classed t block_validation = record { retried = refl; in_doubt = refl; lost = refl }
classify-Classed t readiness_integrity = record { retried = refl; in_doubt = refl; lost = refl }
classify-Classed t finalize_terminal = record { retried = refl; in_doubt = refl; lost = refl }
classify-Classed t finalize_identity_unavailable = record {
  retried = refl;
  in_doubt = refl;
  lost = refl;
}
classify-Classed t finalize_pending = record { retried = refl; in_doubt = refl; lost = refl }
classify-Classed t abort_conflict = record { retried = refl; in_doubt = refl; lost = refl }
classify-Classed t abort_pending = record { retried = refl; in_doubt = refl; lost = refl }
classify-Classed t readiness_pending = record { retried = refl; in_doubt = refl; lost = refl }
classify-Classed t readiness_terminal = record { retried = refl; in_doubt = refl; lost = refl }
classify-Classed t activation_pending = record { retried = refl; in_doubt = refl; lost = refl }
classify-Classed t delivery_recovery_gap = record { retried = refl; in_doubt = refl; lost = refl }
classify-Classed t (other_exception name) = record { retried = refl; in_doubt = refl; lost = refl }
