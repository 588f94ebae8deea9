-- ===== src/Policy/FailClosed.antt =====
-- `classify_grpc_failure` of policy.py is fail-closed.
use astra_indexator.Prelude.{
  ◌≡◌, Bool, true, false, String, arith, refl, sym, subst, not, ◌&&◌, ◌||◌,
}
use astra_indexator.Text.{codes, Codes, codes_eq, contains, CaseTable}
use astra_indexator.Validation.Keys.{codes_eq-eq}
use astra_indexator.Policy.{
  RetryDecision, permanent_failure, retry_same_operation, backoff_and_retry, reconcile_status,
  normalize, classify_normalized, classify_grpc_failure,
}

-- The failures that may be retried after a delay.
abbrev pub is_retriable : Codes → Codes → Bool
is_retriable code message =
    codes_eq code (codes "UNAVAILABLE")
    || (codes_eq code (codes "RESOURCE_EXHAUSTED")
        && (contains (codes "MAX_CONCURRENT_INGESTION_SESSIONS EXCEEDED") message
            || (contains (codes "MAX_SESSIONS_PER_ACCESS_ZONE EXCEEDED") message
                || contains (codes "MAX_SESSIONS_PER_DOCUMENT EXCEEDED") message)))

-- The failures behind which the operation may have been done.
abbrev pub is_ambiguous : Codes → Codes → Bool
is_ambiguous code message =
    codes_eq code (codes "DEADLINE_EXCEEDED")
    || (codes_eq code (codes "ABORTED")
        || (codes_eq code (codes "FAILED_PRECONDITION")
            && (not (contains (codes "HASH_MISMATCH") message)
                && (contains (codes "INGESTION_SESSION_FINALIZING") message
                    || (contains (codes "INGESTION_SESSION_COMPLETED") message
                        || contains (codes "INGESTION_SESSION_ABORTED") message)))))

-- What a decision rests on.
abbrev pub Licensed : RetryDecision → Codes → Codes → Type 0
Licensed backoff_and_retry code message = is_retriable code message ≡ true
Licensed reconcile_status code message = is_ambiguous code message ≡ true
Licensed permanent_failure code message =
    (is_retriable code message ≡ false) × (is_ambiguous code message ≡ false)
Licensed retry_same_operation code message = ⊥

-- A code has one name.
pub apart :
    (code : Codes) (a b : String)
    → codes_eq (codes a) (codes b) ≡ false
    → codes_eq code (codes a) && codes_eq code (codes b) ≡ false
apart code a b h = go (codes_eq code (codes a)) refl
  where
    go : (x : Bool) → codes_eq code (codes a) ≡ x → x && codes_eq code (codes b) ≡ false
    go false e = refl
    go true e =
        subst (λ (s : Codes). codes_eq s (codes b) ≡ false) (sym (codes_eq-eq code (codes a) e)) h

classify_normalized-Licensed :
    (code message : Codes) → Licensed (classify_normalized code message) code message
unfolding classify_normalized codes_eq
classify_normalized-Licensed code message = ground (
  arith,
  apart code "RESOURCE_EXHAUSTED" "FAILED_PRECONDITION" refl,
  apart code "RESOURCE_EXHAUSTED" "DEADLINE_EXCEEDED" refl,
  apart code "RESOURCE_EXHAUSTED" "ABORTED" refl,
)

-- A failure is retried after a delay only for UNAVAILABLE, or for RESOURCE_EXHAUSTED with a message
-- that names one of the three limits on sessions. The status is reconciled only for DEADLINE_EXCEEDED,
-- for ABORTED, or for FAILED_PRECONDITION with a message that names a session that is finalizing,
-- completed or aborted, and no hash mismatch. It is
-- permanent only where neither is so, and repeating the same operation at once is never the answer.
-- Code and message are taken stripped and in upper case.
pub classify_grpc_failure-Licensed :
    (t : CaseTable) (code message : String)
    → Licensed (classify_grpc_failure t code message) (normalize t code) (normalize t message)
unfolding classify_grpc_failure
classify_grpc_failure-Licensed t code message =
    classify_normalized-Licensed (normalize t code) (normalize t message)
