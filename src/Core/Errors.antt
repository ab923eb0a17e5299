-- ===== src/Core/Errors.antt =====
-- packages/core/src/shared/errors.ts: what a caller sees of a failure.
use authmodules.Prelude.{
  ℕ, Bool, true, ◌≡◌, Option, none, some, Text, codes, text_discrete, test, if◌then◌else◌, arith,
}
use authmodules.Contracts.Errors.{Reason, StoreFailure, FailureDetails}
use authmodules.Core.Validation.{is_public_data}
use authmodules.Contracts.Values.{is_identifier}

-- `PublicAuthErrorCode`
pub data PublicAuthErrorCode : Type 0 where
  invalid_input authentication_failed authorization_failed account_unavailable : PublicAuthErrorCode
  challenge_failed session_invalid conflict rate_limited temporarily_unavailable :
      PublicAuthErrorCode
  internal : PublicAuthErrorCode

-- `PublicAuthError`, without `publicDetails`, which `authErr` does not give.
pub record PublicAuthError : Type 0 where
  pub code : PublicAuthErrorCode
  pub message : Text
  pub request_id : Option Text
  pub retry_after_seconds : Option ℕ

pub record AuthFailure : Type 0 where
  pub internal_reason : Reason
  pub public_error : PublicAuthError

-- Two of the names of the switch are no `CoreInternalAuthReason`.
map_extension : Text → PublicAuthErrorCode
unfolding text_discrete
map_extension t =
    if test (text_discrete t (codes "ACCOUNT_UNAVAILABLE"))
    then PublicAuthErrorCode.account_unavailable
    else if test (text_discrete t (codes "AUTHENTICATION_FAILED"))
    then PublicAuthErrorCode.authentication_failed
    else PublicAuthErrorCode.internal

unfoldable pub map_reason : Reason → PublicAuthErrorCode
unfolding map_extension
map_reason Reason.validation_failed = PublicAuthErrorCode.invalid_input
map_reason Reason.session_ttl_invalid = PublicAuthErrorCode.invalid_input
map_reason Reason.identity_conflict = PublicAuthErrorCode.conflict
map_reason Reason.credential_conflict = PublicAuthErrorCode.conflict
map_reason Reason.account_disabled = PublicAuthErrorCode.account_unavailable
map_reason Reason.account_deleted = PublicAuthErrorCode.account_unavailable
map_reason Reason.challenge_not_found = PublicAuthErrorCode.challenge_failed
map_reason Reason.challenge_expired = PublicAuthErrorCode.challenge_failed
map_reason Reason.challenge_already_consumed = PublicAuthErrorCode.challenge_failed
map_reason Reason.challenge_attempts_exceeded = PublicAuthErrorCode.challenge_failed
map_reason Reason.otp_mismatch = PublicAuthErrorCode.challenge_failed
map_reason Reason.session_not_found = PublicAuthErrorCode.session_invalid
map_reason Reason.session_expired = PublicAuthErrorCode.session_invalid
map_reason Reason.session_revoked = PublicAuthErrorCode.session_invalid
map_reason Reason.token_invalid = PublicAuthErrorCode.session_invalid
map_reason Reason.token_expired = PublicAuthErrorCode.session_invalid
map_reason Reason.token_tenant_mismatch = PublicAuthErrorCode.session_invalid
map_reason Reason.token_hash_not_found = PublicAuthErrorCode.session_invalid
map_reason Reason.rate_limited = PublicAuthErrorCode.rate_limited
map_reason Reason.locked = PublicAuthErrorCode.rate_limited
map_reason Reason.policy_denied = PublicAuthErrorCode.authorization_failed
map_reason Reason.account_linking_denied = PublicAuthErrorCode.authorization_failed
map_reason Reason.store_unavailable = PublicAuthErrorCode.temporarily_unavailable
map_reason Reason.delivery_failed = PublicAuthErrorCode.temporarily_unavailable
map_reason Reason.side_effect_failed = PublicAuthErrorCode.temporarily_unavailable
map_reason Reason.event_sink_failed = PublicAuthErrorCode.temporarily_unavailable
map_reason Reason.password_mismatch = PublicAuthErrorCode.authentication_failed
map_reason Reason.credential_not_found = PublicAuthErrorCode.authentication_failed
map_reason Reason.identity_not_found = PublicAuthErrorCode.authentication_failed
map_reason (Reason.extension t) = map_extension t
map_reason _ = PublicAuthErrorCode.internal

-- The named reasons are safe texts.
unfoldable pub normalize_internal_reason : Reason → Reason → Reason
normalize_internal_reason (Reason.extension t) fallback =
    if is_identifier t then Reason.extension t else fallback
normalize_internal_reason reason fallback = reason

-- `publicCode ?? mapReason(reason)`
code_or : Option PublicAuthErrorCode → Reason → PublicAuthErrorCode
unfolding map_reason
code_or none reason = map_reason reason
code_or (some code) reason = code

-- The failure that `authErr` answers, by the request id of its context.
unfoldable pub auth_err : Option Text → Reason → Option PublicAuthErrorCode → Option ℕ → AuthFailure
unfolding normalize_internal_reason code_or
auth_err request_id internal_reason public_code retry_after_seconds =
    let reason = normalize_internal_reason internal_reason Reason.internal in
    record {
      internal_reason = reason;
      public_error = record {
        code = code_or public_code reason;
        message = codes "Authentication request failed.";
        request_id = request_id;
        retry_after_seconds = retry_after_seconds;
      };
    }

-- `isPublicData` of the details, where there are any; `{ expectedVersion }` is public data.
are_details : Option FailureDetails → Bool
unfolding is_public_data
are_details none = true
are_details (some (FailureDetails.expected_version version)) = true
are_details (some (FailureDetails.other_details value)) = is_public_data (some value)

-- `isStoreFailure` of a failure of its type asks for a safe reason and public details.
store_reason : StoreFailure → Reason
unfolding normalize_internal_reason are_details
store_reason failure =
    if are_details failure.details
    then normalize_internal_reason failure.reason Reason.store_unavailable
    else Reason.store_unavailable

unfoldable pub store_failure : Option Text → StoreFailure → AuthFailure
unfolding store_reason auth_err map_reason
store_failure request_id failure =
    auth_err request_id (store_reason failure) (some (map_reason (store_reason failure))) none

-- `normalizeInternalReason` answers the value itself on such a reason.
unfoldable pub is_safe_reason : Reason → Bool
is_safe_reason (Reason.extension t) = is_identifier t
is_safe_reason _ = true

-- Whatever reason a failure has, the internal reason that `authErr` passes on is a named one or a
-- text of 1 to 512 code units without control characters.
pub auth_err-is_safe_reason :
    (request_id : Option Text) (reason : Reason) (code : Option PublicAuthErrorCode)
    (seconds : Option ℕ)
    → is_safe_reason (auth_err request_id reason code seconds).internal_reason ≡ true
unfolding is_safe_reason normalize_internal_reason auth_err
auth_err-is_safe_reason request_id reason code seconds = ground arith
