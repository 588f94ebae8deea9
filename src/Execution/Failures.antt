-- ===== src/Execution/Failures.antt =====
-- How a delivery turn of delivery_execution.py ends when it raises.
use astra_indexator.Prelude.{
  ℕ, ◌≡◌, ◌⊎◌, ◌≢◌, refl, ap, arith, none, some, find, inl, inr, subst, Bool, true, false, String,
}
use astra_indexator.Prelude.Int.{ℤ}
use astra_indexator.Text.{CaseTable}
use astra_indexator.Exec.{
  Error, Result, ok, err, lease_lost, transport, other_exception, value_error, type_error,
  runtime_error, rpc_window_too_short, delivery_integrity, delivery_sequence, batch_planning,
  block_validation, readiness_integrity, finalize_terminal, finalize_identity_unavailable,
  finalize_pending, abort_conflict, abort_pending, readiness_pending, readiness_terminal,
  activation_pending, delivery_recovery_gap,
}
use astra_indexator.Database.{Db, Job, failed}
use astra_indexator.Policy.{
  RetryDecision, backoff_and_retry, reconcile_status, permanent_failure, retry_same_operation,
  classify_grpc_failure,
}
use astra_indexator.Coordinator.{fencing_predicate, open_of_token}
use astra_indexator.Claiming.{LeaseToken}
use astra_indexator.Coordinator.Rows.{HasKeys, job_of}
use astra_indexator.Failure.{
  FailureClass, transient, permanent_input, permanent_policy, resource_limit, downstream_ambiguous,
  ownership_lost, was_cancelled, internal_bug, dependency_unavailable, BackoffConfig,
  FailureDecision, abandon, fail_job, classify_exception, classify_transport, handle, settle,
  terminate,
}
use astra_indexator.Failure.Outcome.{Handled, handle_lem}
use astra_indexator.Execution.Classes.{Classed, classify-Classed}
use astra_indexator.Execution.{
  ExecutionResult, delivered, failure, classify, is_lease_lost, unsettled, settled, fail_with,
  execute,
}

-- The class of a failure is lost ownership only where the lease was lost.
classify_transport-owned : (r : RetryDecision) → classify_transport r ≡ ownership_lost → ⊥
unfolding classify_transport
classify_transport-owned backoff_and_retry h = cc
classify_transport-owned reconcile_status h = cc
classify_transport-owned permanent_failure h = cc
classify_transport-owned retry_same_operation h = cc

classify-lease_lost : (t : CaseTable) (e : Error) → classify t e ≡ ownership_lost → e ≡ lease_lost
unfolding classify classify_exception
classify-lease_lost t lease_lost h = refl
classify-lease_lost t (transport code message) h =
    absurd (classify_transport-owned (classify_grpc_failure t code message) h)
classify-lease_lost t value_error h = cc
classify-lease_lost t type_error h = cc
classify-lease_lost t runtime_error h = cc
classify-lease_lost t rpc_window_too_short h = cc
classify-lease_lost t delivery_integrity h = cc
classify-lease_lost t delivery_sequence h = cc
classify-lease_lost t batch_planning h = cc
classify-lease_lost t block_validation h = cc
classify-lease_lost t readiness_integrity h = cc
classify-lease_lost t finalize_terminal h = cc
classify-lease_lost t finalize_identity_unavailable h = cc
classify-lease_lost t finalize_pending h = cc
classify-lease_lost t abort_conflict h = cc
classify-lease_lost t abort_pending h = cc
classify-lease_lost t readiness_pending h = cc
classify-lease_lost t readiness_terminal h = cc
classify-lease_lost t activation_pending h = cc
classify-lease_lost t delivery_recovery_gap h = cc
classify-lease_lost t (other_exception name) h = cc

-- The end of a turn that raised `e`, of class `c`, where the handler answers `r`. It is abandoned with
-- the database as it was only where the lease was lost, by `e` or by the handler; it is the decision
-- that the handler commits; or it is left by another exception of the handler, which rolls it back.
abbrev pub Failed {ℓ} :
    {A : Type ℓ}
    → LeaseToken
    → Error
    → FailureClass
    → Result (FailureDecision × Db)
    → Db
    → Result (ExecutionResult A) × Db
    → Type 0
Failed token e c r db (err x, db') = (db' ≡ db) × (r ≡ err x) × (x ≢ lease_lost)
Failed token e c r db (ok (delivered a), db') = ⊥
Failed token e c r db (ok (failure d), db') =
    ((db' ≡ db) × (d.action ≡ abandon) × ((e ≡ lease_lost) ⊎ (r ≡ err lease_lost)))
    ⊎ ((e ≢ lease_lost) × (r ≡ ok (d, db')) × Handled token c db db' d)

is_lease_lost-eq : (x : Error) → is_lease_lost x ≡ true → x ≡ lease_lost
is_lease_lost-eq lease_lost h = refl
is_lease_lost-eq value_error h = cc
is_lease_lost-eq type_error h = cc
is_lease_lost-eq runtime_error h = cc
is_lease_lost-eq rpc_window_too_short h = cc
is_lease_lost-eq delivery_integrity h = cc
is_lease_lost-eq delivery_sequence h = cc
is_lease_lost-eq batch_planning h = cc
is_lease_lost-eq block_validation h = cc
is_lease_lost-eq readiness_integrity h = cc
is_lease_lost-eq finalize_terminal h = cc
is_lease_lost-eq finalize_identity_unavailable h = cc
is_lease_lost-eq finalize_pending h = cc
is_lease_lost-eq abort_conflict h = cc
is_lease_lost-eq abort_pending h = cc
is_lease_lost-eq readiness_pending h = cc
is_lease_lost-eq readiness_terminal h = cc
is_lease_lost-eq activation_pending h = cc
is_lease_lost-eq delivery_recovery_gap h = cc
is_lease_lost-eq (transport code message) h = cc
is_lease_lost-eq (other_exception name) h = cc

not_lost : (x : Error) → is_lease_lost x ≡ false → x ≢ lease_lost
not_lost x h e = cc

-- The token does not own the job, or its attempt is closed.
abbrev pub Lost : LeaseToken → Db → Type 0
Lost token db =
    (find (fencing_predicate token db.now) db.jobs ≡ none)
    ⊎ (find (open_of_token token) db.attempts ≡ none)

module _ (t : CaseTable) (jittered : ℕ → LeaseToken → ℕ → ℤ) (config : BackoffConfig)
    (token : LeaseToken) (error_code error_message lost : String) where
  -- A bug is settled at once: the handler raises only where the lease is lost.
  bug-Lost :
      (db : Db)
      → handle jittered config token internal_bug error_code error_message db ≡ err lease_lost
      → Lost token db
  unfolding handle settle terminate
  bug-Lost db h = ground (arith, h)

  abbrev handler : FailureClass → Db → Result (FailureDecision × Db)
  handler c db = handle jittered config token c error_code error_message db

  module _ {ℓ} (A : Type ℓ) (db : Db) (v : HasKeys db) (e : Error) where
    settled-Failed :
        (c : FailureClass) (r : Result (FailureDecision × Db))
        → e ≢ lease_lost
        → handler c db ≡ r
        → Failed {A = A} token e c r db (settled db lost r)
    unfolding settled
    settled-Failed c (ok (d, db')) kept h =
        inr (kept, refl, handle_lem jittered config token c error_code error_message db db' d v h)
    settled-Failed c (err x) kept h = go (is_lease_lost x) refl
      where
        go :
            (b : Bool)
            → is_lease_lost x ≡ b
            → Failed {A = A} token e c (err x) db (unsettled db lost x b)
        go true k =
            let here : ◌≡◌ {A = Result (FailureDecision × Db)} (err x) (err lease_lost) =
              ap (λ y. err y) (is_lease_lost-eq x k) in
            inl (refl, refl, inr here)
        go false k = (refl, refl, not_lost x k)

    handled-Failed :
        (c : FailureClass)
        → e ≢ lease_lost
        → Failed {A = A} token e c (handler c db) db (settled db lost (handler c db))
    handled-Failed c kept = settled-Failed c (handler c db) kept refl

    fail_with-Failed :
        (c : FailureClass)
        → (c ≡ ownership_lost → e ≡ lease_lost)
        → (c ≢ ownership_lost → e ≢ lease_lost)
        → Failed {A = A} token e c
            (handler c db)
            db
            (fail_with t jittered config token error_code error_message lost c db)
    unfolding fail_with
    fail_with-Failed ownership_lost k n = inl (refl, refl, inl (k refl))
    fail_with-Failed downstream_ambiguous k n = handled-Failed downstream_ambiguous (n (λ h. cc))
    fail_with-Failed transient k n = handled-Failed transient (n (λ h. cc))
    fail_with-Failed permanent_input k n = handled-Failed permanent_input (n (λ h. cc))
    fail_with-Failed permanent_policy k n = handled-Failed permanent_policy (n (λ h. cc))
    fail_with-Failed resource_limit k n = handled-Failed resource_limit (n (λ h. cc))
    fail_with-Failed was_cancelled k n = handled-Failed was_cancelled (n (λ h. cc))
    fail_with-Failed internal_bug k n = handled-Failed internal_bug (n (λ h. cc))
    fail_with-Failed dependency_unavailable k n =
        handled-Failed dependency_unavailable (n (λ h. cc))

    execute-Failed :
        Failed {A = A} token e
          (classify t e)
          (handle jittered config token (classify t e) error_code error_message db)
          db
          (execute t jittered config token error_code error_message lost (err e) db)
    unfolding execute
    execute-Failed =
        fail_with-Failed (classify t e) (classify-lease_lost t e) (λ n k. n (lost_class k))
      where
        lost_class : e ≡ lease_lost → classify t e ≡ ownership_lost
        lost_class k = rw k (unfold classify classify_exception in refl)

    -- A turn that raises is never reported as delivered. It is abandoned, with the database as it was,
    -- only where it raised LeaseLostError or the handler does. In every other case its report and the
    -- database are what the handler commits for the class of the failure, in the way that the handler
    -- treats this class; or the handler raises something else, which is raised on with the database as
    -- it was. The class is a retryable one for VectorReadinessPending, for UNAVAILABLE, and for
    -- RESOURCE_EXHAUSTED with a message that names a limit on sessions, and for nothing else. It is the
    -- ambiguous one for DeliveryRecoveryContractGap, FinalizeReconciliationPending, DEADLINE_EXCEEDED,
    -- ABORTED, and FAILED_PRECONDITION with a message that names a session that is finalizing, completed
    -- or aborted and no hash mismatch, and for nothing else. The condition is that the jobs have distinct
    -- identifiers.
    pub execute_lem :
        Classed t e (classify t e)
        × Failed {A = A} token e
            (classify t e)
            (handle jittered config token (classify t e) error_code error_message db)
            db
            (execute t jittered config token error_code error_message lost (err e) db)
    execute_lem = (classify-Classed t e, execute-Failed)

    -- A failed job, as the decision says.
    abbrev pub FailedForGood : Db → FailureDecision → Type 0
    FailedForGood db' d =
        (job' : Job) × (job_of token.job_id db' ≡ some job')
        × (job'.status ≡ failed)
        × (job'.worker_id ≡ none)
        × (d.action ≡ fail_job)

    bug_ends :
        (d : FailureDecision) (db' : Db)
        → e ≢ lease_lost
        → Failed {A = A} token e internal_bug (handler internal_bug db) db (ok (failure d), db')
        → FailedForGood db' d ⊎ ((db' ≡ db) × (d.action ≡ abandon) × Lost token db)
    bug_ends d db' kept (inl (same, gone, inl k)) = absurd (kept k)
    bug_ends d db' kept (inl (same, gone, inr r)) = inr (same, gone, bug-Lost db r)
    bug_ends d db' kept (inr (_, _, (job, _, s))) =
        inl (s.job', s.row, s.status, s.released.0, s.action)

    -- A lease that is too short for the call, and an activation that is still pending, end the job: it
    -- is FAILED, however many attempts are left. Only where the token no longer owns the job, or its
    -- attempt is closed, is the turn abandoned instead, with the database as it was. The conditions are
    -- that the jobs have distinct identifiers, and that the turn reports a failure.
    pub never_retried :
        (db' : Db) (d : FailureDecision)
        → (e ≡ rpc_window_too_short) ⊎ (e ≡ activation_pending)
        → execute t jittered config token error_code error_message lost {A = A} (err e) db
          ≡ (ok (failure d), db')
        → FailedForGood db' d ⊎ ((db' ≡ db) × (d.action ≡ abandon) × Lost token db)
    unfolding classify classify_exception
    never_retried db' d which h =
        let bug : classify t e ≡ internal_bug = elim which [
          | inl k ↦ rw k refl
          | inr k ↦ rw k refl
        ] in
        let kept : e ≢ lease_lost = elim which [ inl k ↦ (λ l. cc) | inr k ↦ (λ l. cc) ] in
        let end : Failed {A = A} token e (classify t e) (handler (classify t e) db) db
            (ok (failure d), db') =
          subst (Failed {A = A} token e (classify t e) (handler (classify t e) db) db) h
            execute-Failed in
        bug_ends d db' kept
          (subst (λ c. Failed {A = A} token e c (handler c db) db (ok (failure d), db')) bug end)
