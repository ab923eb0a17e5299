-- ===== src/Contracts/Errors.antt =====
-- packages/contracts/src/errors.d.ts and result.d.ts.
use authmodules.Prelude.{ℕ, Option, none, some, Text}
use authmodules.Contracts.Json.{Json}

-- `CoreInternalAuthReason`; every other reason text is an `extension`.
pub data Reason : Type 0 where
  config_invalid validation_failed method_not_configured method_operation_unsupported : Reason
  method_disabled tenant_disabled identity_not_found identity_conflict credential_not_found : Reason
  credential_conflict credential_disabled password_mismatch password_policy_failed : Reason
  identity_binding_mismatch account_not_found account_disabled account_deleted : Reason
  account_resolution_failed account_linking_denied session_creation_denied : Reason
  session_ttl_invalid policy_denied token_invalid token_expired token_tenant_mismatch : Reason
  token_hash_not_found session_not_found session_expired session_revoked : Reason
  challenge_store_required challenge_not_found challenge_expired challenge_already_consumed : Reason
  challenge_version_conflict challenge_attempts_exceeded otp_mismatch rate_limited locked : Reason
  store_unavailable transaction_failed delivery_failed side_effect_failed : Reason
  event_sink_failed crypto_failed internal outbox_enqueue_failed outbox_lease_conflict : Reason
  extension : Text → Reason

-- The `details` of a failure: `{ expectedVersion }`, as the stores of testkit give them, or others.
pub data FailureDetails : Type 0 where
  expected_version : ℕ → FailureDetails
  other_details : Json → FailureDetails

-- `StoreFailure`
pub record StoreFailure : Type 0 where
  pub reason : Reason
  pub details : Option FailureDetails

-- `Result<T, E>`
pub data Result {ℓ} (E A : Type ℓ) : Type ℓ where
  ok : A → Result E A
  err : E → Result E A

abbrev pub store_failure : Reason → StoreFailure
store_failure reason = record { reason = reason; details = none }

abbrev pub version_failure : Reason → ℕ → StoreFailure
version_failure reason version = record {
  reason = reason;
  details = some (FailureDetails.expected_version version);
}
