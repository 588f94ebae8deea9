-- ===== src/Tests/Statuses.antt =====
-- Statuses and failures of AstraVector on which the statements about policy.py are applied.
use astra_indexator.Prelude.{◌≡◌, ◌≢◌, ◌⊎◌, refl, true, false}
use astra_indexator.Prelude.Int.{pos}
use astra_indexator.Text.{codes_eq, starts_with, upper, strip, is_space}
use astra_indexator.Policy.{
  VectorStatus, require_searchable, allow_ready_to_activate, Disposition, CompletionLevel,
  ReadinessDecision, normalize, evaluate_vector_readiness, has_negative_counter, evaluate_state,
  normalize_operation_state, is_out_of_sync, classify_grpc_failure,
}
use astra_indexator.Policy.FailClosed.{Licensed, classify_grpc_failure-Licensed}
use astra_indexator.Policy.Readiness.{
  IsSynchronised, evaluate_vector_readiness-IsSynchronised, evaluate_vector_readiness_evidence,
}
use astra_indexator.Tests.Ascii.{ascii}

abbrev pub active_status : VectorStatus
active_status = record {
  raw_state = "ACTIVE";
  searchable = true;
  ready_to_activate = false;
  message = "";
  document_status = "ACTIVE";
  expected_bindings = pos 4;
  synced_bindings = pos 4;
  pending_bindings = pos 0;
  failed_bindings = pos 0;
  outbox_pending = pos 0;
  outbox_retry_pending = pos 0;
  outbox_failed = pos 0;
  qdrant_collection_exists = true;
  qdrant_points_expected = pos 4;
  qdrant_points_found = pos 4;
  qdrant_points_missing = pos 0;
  qdrant_points_extra = pos 0;
}

abbrev is_searchable : ReadinessDecision
is_searchable = record {
  disposition = Disposition.searchable;
  completion_level = CompletionLevel.level_searchable;
}

evaluate_vector_readiness-IsSynchronised_example : IsSynchronised active_status
unfolding evaluate_vector_readiness has_negative_counter evaluate_state codes_eq
    normalize_operation_state starts_with upper strip is_space is_out_of_sync
evaluate_vector_readiness-IsSynchronised_example =
    evaluate_vector_readiness-IsSynchronised ascii active_status require_searchable is_searchable
      refl refl

evaluate_vector_readiness_evidence_example :
    ((Disposition.searchable ≢ Disposition.searchable) ⊎ (true ≡ true))
    × ((Disposition.searchable ≢ Disposition.ready_to_activate)
        ⊎ (require_searchable ≡ allow_ready_to_activate))
unfolding evaluate_vector_readiness has_negative_counter evaluate_state codes_eq
    normalize_operation_state starts_with upper strip is_space is_out_of_sync
evaluate_vector_readiness_evidence_example =
    evaluate_vector_readiness_evidence ascii active_status require_searchable is_searchable refl

classify_grpc_failure-Licensed_example :
    Licensed
      (classify_grpc_failure ascii " deadline_exceeded" "late")
      (normalize ascii " deadline_exceeded")
      (normalize ascii "late")
classify_grpc_failure-Licensed_example =
    classify_grpc_failure-Licensed ascii " deadline_exceeded" "late"
