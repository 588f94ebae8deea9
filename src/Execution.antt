-- ===== src/Execution.antt =====
-- src/astra_indexator/application/delivery_execution.py: one delivery turn of a claimed job, with the
-- classification of what it raises. The turn itself is the parameter `delivery`, the result of
-- AstraVectorDeliveryCoordinator.deliver, and the texts of the exception are `error_code` and
-- `error_message`. The handler runs in a transaction of its own.
pub mod Classes
pub mod Failures
use astra_indexator.Prelude.{ℕ, Option, none, some, String, true, false, Bool}
use astra_indexator.Prelude.Int.{ℤ}
use astra_indexator.Text.{CaseTable}
use astra_indexator.Exec.{
  Error, Result, ok, err, lease_lost, delivery_recovery_gap, finalize_pending, readiness_pending,
  finalize_terminal, readiness_terminal, delivery_integrity,
}
use astra_indexator.Database.{Db}
use astra_indexator.Claiming.{LeaseToken}
use astra_indexator.Failure.{
  FailureClass, ownership_lost, downstream_ambiguous, transient, permanent_policy, BackoffConfig,
  FailureDecision, FailureAction, abandon, classify_exception, handle,
}

-- `_classify`
unfoldable pub classify : CaseTable → Error → FailureClass
classify t lease_lost = ownership_lost
classify t delivery_recovery_gap = downstream_ambiguous
classify t finalize_pending = downstream_ambiguous
classify t readiness_pending = transient
classify t finalize_terminal = permanent_policy
classify t readiness_terminal = permanent_policy
classify t delivery_integrity = permanent_policy
classify t e = classify_exception t e

-- `DeliveryExecutionResult`: exactly one of the two.
pub data ExecutionResult {ℓ} (A : Type ℓ) : Type ℓ where
  delivered : A → ExecutionResult A
  failure : FailureDecision → ExecutionResult A

-- `_abandon`
abbrev pub abandoned : String → String → FailureDecision
abandoned error_code error_message = record {
  failure_class = ownership_lost;
  action = abandon;
  error_code = error_code;
  error_message = error_message;
  retry_after_seconds = none;
}

abbrev pub is_lease_lost : Error → Bool
is_lease_lost lease_lost = true
is_lease_lost _ = false

-- `except LeaseLostError` round the handler: any other exception is raised on.
abbrev pub unsettled {ℓ} :
    {A : Type ℓ} → Db → String → Error → Bool → Result (ExecutionResult A) × Db
unsettled db lost e true = (ok (failure (abandoned "OWNERSHIP_LOST" lost)), db)
unsettled db lost e false = (err e, db)

-- What the handler's transaction leaves. `lost` is the text of its LeaseLostError.
unfoldable pub settled {ℓ} :
    {A : Type ℓ} → Db → String → Result (FailureDecision × Db) → Result (ExecutionResult A) × Db
settled db lost (ok (d, db')) = (ok (failure d), db')
settled db lost (err e) = unsettled db lost e (is_lease_lost e)

module _ (t : CaseTable) (jittered : ℕ → LeaseToken → ℕ → ℤ) (config : BackoffConfig)
    (token : LeaseToken) (error_code error_message lost : String) where
  unfoldable pub fail_with {ℓ} : {A : Type ℓ} → FailureClass → Db → Result (ExecutionResult A) × Db
  unfolding settled
  fail_with ownership_lost db = (ok (failure (abandoned error_code error_message)), db)
  fail_with c db = settled db lost (handle jittered config token c error_code error_message db)

  unfoldable pub execute {ℓ} : {A : Type ℓ} → Result A → Db → Result (ExecutionResult A) × Db
  unfolding fail_with
  execute (ok outcome) db = (ok (delivered outcome), db)
  execute (err e) db = fail_with (classify t e) db
