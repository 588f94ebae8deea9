-- ===== src/Policy.antt =====
-- src/astra_indexator/astravector/policy.py, with the port's messages of astravector/contracts.py:
-- how a failed call is classified and how a vector status is read. The text of a decision's
-- `reason` is not modelled.
pub mod Readiness
pub mod FailClosed
use astra_indexator.Prelude.{
  ℕ, ◌≡◌, Bool, true, false, not, ◌&&◌, ◌||◌, List, [], ◌∷◌, Option, none, some, String, any,
  if◌then◌else◌, ltb, str_eq,
}
use astra_indexator.Prelude.Int.{ℤ, pos, negsuc, ltb_ℤ}
use astra_indexator.Text.{
  Codes, codes, strip, codes_eq, contains, starts_with, drop_prefix, CaseTable, upper,
}
use astra_indexator.Exec.{Result, ok, err, readiness_integrity}

pub data RetryDecision : Type 0 where
  retry_same_operation reconcile_status backoff_and_retry permanent_failure : RetryDecision

-- `IngestionSessionState`
pub data SessionState : Type 0 where
  active finalizing completed failed aborted expired unknown : SessionState

pub record IngestionStatus : Type 0 where
  pub ingestion_session_id : ℕ
  pub raw_status : String
  pub state : SessionState
  pub received_batches : ℤ
  pub received_blocks : ℤ
  pub received_bytes : ℤ
  pub expires_at : String
  pub error_code : String
  pub error_message : String

-- `progress_percent`, a float that nothing reads, is left out.
pub record VectorStatus : Type 0 where
  pub raw_state : String
  pub searchable : Bool
  pub ready_to_activate : Bool
  pub message : String
  pub document_status : String
  pub expected_bindings : ℤ
  pub synced_bindings : ℤ
  pub pending_bindings : ℤ
  pub failed_bindings : ℤ
  pub outbox_pending : ℤ
  pub outbox_retry_pending : ℤ
  pub outbox_failed : ℤ
  pub qdrant_collection_exists : Bool
  pub qdrant_points_expected : ℤ
  pub qdrant_points_found : ℤ
  pub qdrant_points_missing : ℤ
  pub qdrant_points_extra : ℤ

pub data ActivationReadinessPolicy : Type 0 where
  require_searchable allow_ready_to_activate : ActivationReadinessPolicy

pub data Disposition : Type 0 where
  wait ready_to_activate searchable terminal : Disposition

pub data CompletionLevel : Type 0 where
  level_session_accepted level_blocks_staged level_finalized : CompletionLevel
  level_vector_ready level_searchable level_failed : CompletionLevel

-- `VectorReadinessDecision`; its `reason` is a text for people.
pub record ReadinessDecision : Type 0 where
  pub disposition : Disposition
  pub completion_level : CompletionLevel

abbrev decide_as : Disposition → CompletionLevel → Result ReadinessDecision
decide_as d l = ok (record { disposition = d; completion_level = l })

-- `text in {…}`
abbrev pub one_of : List String → Codes → Bool
one_of names text = any (λ name. codes_eq text (codes name)) names

abbrev pub has_marker : List String → Codes → Bool
has_marker markers text = any (λ marker. contains (codes marker) text) markers

abbrev transient_resource_exhausted_markers : List String
transient_resource_exhausted_markers =
    "MAX_CONCURRENT_INGESTION_SESSIONS EXCEEDED" ∷ "MAX_SESSIONS_PER_ACCESS_ZONE EXCEEDED"
    ∷ "MAX_SESSIONS_PER_DOCUMENT EXCEEDED" ∷ []

abbrev reconcilable_precondition_markers : List String
reconcilable_precondition_markers =
    "INGESTION_SESSION_FINALIZING" ∷ "INGESTION_SESSION_COMPLETED" ∷ "INGESTION_SESSION_ABORTED"
    ∷ []

unfoldable pub normalize : CaseTable → String → Codes
normalize t text = upper t (strip (codes text))

-- `classify_grpc_failure` behind the normalisation of code and message.
unfoldable pub classify_normalized : Codes → Codes → RetryDecision
classify_normalized code message =
    if codes_eq code (codes "UNAVAILABLE")
    then backoff_and_retry
    else if one_of ("DEADLINE_EXCEEDED" ∷ "ABORTED" ∷ []) code
    then reconcile_status
    else if codes_eq code (codes "RESOURCE_EXHAUSTED")
    then (if has_marker transient_resource_exhausted_markers message
        then backoff_and_retry
        else permanent_failure)
    else if codes_eq code (codes "FAILED_PRECONDITION")
    then (if contains (codes "HASH_MISMATCH") message
        then permanent_failure
        else if has_marker reconcilable_precondition_markers message
        then reconcile_status
        else permanent_failure)
    else if one_of
        ("INVALID_ARGUMENT" ∷ "OUT_OF_RANGE" ∷ "NOT_FOUND" ∷ "PERMISSION_DENIED" ∷ "UNAUTHENTICATED"
          ∷ "DATA_LOSS" ∷ [])
        code
    then permanent_failure
    else permanent_failure

unfoldable pub classify_grpc_failure : CaseTable → String → String → RetryDecision
classify_grpc_failure t code message = classify_normalized (normalize t code) (normalize t message)

-- `if counter:` on an integer
abbrev pub is_nonzero : ℤ → Bool
is_nonzero (pos n) = ltb 0 n
is_nonzero (negsuc n) = true

abbrev pub is_negative : ℤ → Bool
is_negative n = ltb_ℤ n (pos 0)

-- `a == b` on integers
abbrev pub eq_ℤ : ℤ → ℤ → Bool
eq_ℤ a b = not (ltb_ℤ a b) && not (ltb_ℤ b a)

-- `min(counters) < 0`
unfoldable pub has_negative_counter : VectorStatus → Bool
has_negative_counter s = any is_negative (
    s.expected_bindings ∷ s.synced_bindings ∷ s.pending_bindings ∷ s.failed_bindings
    ∷ s.outbox_pending ∷ s.outbox_retry_pending ∷ s.outbox_failed ∷ s.qdrant_points_expected
    ∷ s.qdrant_points_found ∷ s.qdrant_points_missing ∷ s.qdrant_points_extra ∷ [])

-- `_assert_ready_sync_consistency`: whether it raises.
unfoldable pub is_out_of_sync : VectorStatus → Bool
is_out_of_sync s =
    (is_nonzero s.failed_bindings
      || (is_nonzero s.outbox_failed || is_nonzero s.qdrant_points_missing))
    || ((is_nonzero s.expected_bindings && not (eq_ℤ s.synced_bindings s.expected_bindings))
        || ((is_nonzero s.pending_bindings
              || (is_nonzero s.outbox_pending || is_nonzero s.outbox_retry_pending))
            || (is_nonzero s.qdrant_points_expected
                && ltb_ℤ s.qdrant_points_found s.qdrant_points_expected)))

unfoldable pub normalize_operation_state : CaseTable → String → Codes
unfolding normalize
normalize_operation_state t raw_state =
    let normalized = normalize t raw_state in
    let prefix = codes "OPERATION_STATE_" in
    if starts_with prefix normalized then drop_prefix prefix normalized else normalized

abbrev transitional : List String
transitional = "ACCEPTED" ∷ "INDEXING" ∷ "VECTORING" ∷ "PUBLISHING" ∷ "SYNCING" ∷ []

abbrev terminal_states : List String
terminal_states = "FAILED" ∷ "EXPIRED" ∷ "DELETED" ∷ "DELETE_SCHEDULED" ∷ "DELETING" ∷ []

read_ready : CaseTable → VectorStatus → ActivationReadinessPolicy → Result ReadinessDecision
unfolding normalize
read_ready t s policy =
    if not s.ready_to_activate
    then err readiness_integrity
    else if is_out_of_sync s
    then err readiness_integrity
    else if s.searchable && codes_eq (normalize t s.document_status) (codes "ACTIVE")
    then decide_as searchable level_searchable
    else elim policy [
      | allow_ready_to_activate ↦ decide_as ready_to_activate level_vector_ready
      | require_searchable ↦ decide_as wait level_vector_ready
    ]

-- The branches of `evaluate_vector_readiness` on the normalised state.
unfoldable pub evaluate_state :
    CaseTable → Codes → VectorStatus → ActivationReadinessPolicy → Result ReadinessDecision
unfolding read_ready
evaluate_state t state s policy =
    if one_of transitional state
    then (if s.searchable || s.ready_to_activate
        then err readiness_integrity
        else decide_as wait level_finalized)
    else if codes_eq state (codes "READY_TO_ACTIVATE")
    then read_ready t s policy
    else if codes_eq state (codes "ACTIVE")
    then (if not s.searchable
        then err readiness_integrity
        else if is_out_of_sync s
        then err readiness_integrity
        else decide_as searchable level_searchable)
    else if one_of terminal_states state
    then (if s.searchable || s.ready_to_activate
        then err readiness_integrity
        else decide_as terminal level_failed)
    else err readiness_integrity

unfoldable pub evaluate_vector_readiness :
    CaseTable → VectorStatus → ActivationReadinessPolicy → Result ReadinessDecision
evaluate_vector_readiness t s policy =
    if has_negative_counter s
    then err readiness_integrity
    else evaluate_state t (normalize_operation_state t s.raw_state) s policy
