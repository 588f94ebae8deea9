-- ===== src/Policy/Readiness.antt =====
-- What `evaluate_vector_readiness` of policy.py accepts as evidence that a document is searchable.
use astra_indexator.Prelude.{◌≡◌, ◌≢◌, ◌⊎◌, Bool, true, false, arith, ◌≤◌}
use astra_indexator.Prelude.Int.{pos, pos_part}
use astra_indexator.Text.{Codes, CaseTable}
use astra_indexator.Exec.{ok}
use astra_indexator.Policy.{
  VectorStatus, ActivationReadinessPolicy, allow_ready_to_activate, Disposition, wait,
  ready_to_activate, searchable, terminal, ReadinessDecision, has_negative_counter, is_out_of_sync,
  normalize_operation_state, evaluate_state, evaluate_vector_readiness,
}

-- The counters of a status that is completely synchronised.
pub record IsSynchronised (s : VectorStatus) : Type 0 where
  pub no_failed_bindings : s.failed_bindings ≡ pos 0
  pub no_failed_outbox : s.outbox_failed ≡ pos 0
  pub no_missing_points : s.qdrant_points_missing ≡ pos 0
  pub no_pending_bindings : s.pending_bindings ≡ pos 0
  pub no_pending_outbox : s.outbox_pending ≡ pos 0
  pub no_pending_retries : s.outbox_retry_pending ≡ pos 0
  pub all_bindings : (s.expected_bindings ≡ pos 0) ⊎ (s.synced_bindings ≡ s.expected_bindings)
  pub all_points :
      (s.qdrant_points_expected ≡ pos 0)
      ⊎ (pos_part s.qdrant_points_expected ≤ pos_part s.qdrant_points_found)

in_sync-IsSynchronised :
    (s : VectorStatus)
    → has_negative_counter s ≡ false
    → is_out_of_sync s ≡ false
    → IsSynchronised s
unfolding has_negative_counter is_out_of_sync
in_sync-IsSynchronised s n h = ground arith

-- The decision on a status, in either of the two ready dispositions.
abbrev pub is_ready : Disposition → Bool
is_ready ready_to_activate = true
is_ready searchable = true
is_ready wait = false
is_ready terminal = false

evaluate_state-in_sync :
    (t : CaseTable) (state : Codes) (s : VectorStatus) (policy : ActivationReadinessPolicy)
    (d : ReadinessDecision)
    → evaluate_state t state s policy ≡ ok d
    → is_ready d.disposition ≡ true
    → is_out_of_sync s ≡ false
unfolding evaluate_state
evaluate_state-in_sync t state s policy d h r = ground arith

evaluate_state-searchable :
    (t : CaseTable) (state : Codes) (s : VectorStatus) (policy : ActivationReadinessPolicy)
    (d : ReadinessDecision)
    → evaluate_state t state s policy ≡ ok d
    → (d.disposition ≢ searchable) ⊎ (s.searchable ≡ true)
unfolding evaluate_state
evaluate_state-searchable t state s policy d h = ground arith

evaluate_state-activation :
    (t : CaseTable) (state : Codes) (s : VectorStatus) (policy : ActivationReadinessPolicy)
    (d : ReadinessDecision)
    → evaluate_state t state s policy ≡ ok d
    → (d.disposition ≢ ready_to_activate) ⊎ (policy ≡ allow_ready_to_activate)
unfolding evaluate_state
evaluate_state-activation t state s policy d h = ground arith

evaluated :
    (t : CaseTable) (s : VectorStatus) (policy : ActivationReadinessPolicy) (d : ReadinessDecision)
    → evaluate_vector_readiness t s policy ≡ ok d
    → (has_negative_counter s ≡ false)
      × (evaluate_state t (normalize_operation_state t s.raw_state) s policy ≡ ok d)
unfolding evaluate_vector_readiness
evaluated t s policy d h = ground arith

-- A decision that lets delivery go on (SEARCHABLE or READY_TO_ACTIVATE), under either policy and
-- for every status, rests on complete synchronisation: no failed, pending or missing work, every
-- expected binding synced, and every expected point found.
pub evaluate_vector_readiness-IsSynchronised :
    (t : CaseTable) (s : VectorStatus) (policy : ActivationReadinessPolicy) (d : ReadinessDecision)
    → evaluate_vector_readiness t s policy ≡ ok d
    → is_ready d.disposition ≡ true
    → IsSynchronised s
evaluate_vector_readiness-IsSynchronised t s policy d h r =
    let (n, e) = evaluated t s policy d h in
    in_sync-IsSynchronised s n (evaluate_state-in_sync t _ s policy d e r)

-- SEARCHABLE is decided only for a status that AstraVector reports searchable, and
-- READY_TO_ACTIVATE is never decided under REQUIRE_SEARCHABLE, the default policy.
pub evaluate_vector_readiness_evidence :
    (t : CaseTable) (s : VectorStatus) (policy : ActivationReadinessPolicy) (d : ReadinessDecision)
    → evaluate_vector_readiness t s policy ≡ ok d
    → ((d.disposition ≢ searchable) ⊎ (s.searchable ≡ true))
      × ((d.disposition ≢ ready_to_activate) ⊎ (policy ≡ allow_ready_to_activate))
evaluate_vector_readiness_evidence t s policy d h =
    let e = (evaluated t s policy d h).1 in
    (evaluate_state-searchable t _ s policy d e, evaluate_state-activation t _ s policy d e)
