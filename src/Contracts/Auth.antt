-- ===== src/Contracts/Auth.antt =====
-- What the core exchanges with its caller and its ports: packages/contracts/src/primitives.d.ts,
-- core.d.ts, token.d.ts, guard.d.ts, observability.d.ts and transaction.d.ts.
use authmodules.Prelude.{ℕ, Bool, Option, List, Text}
use authmodules.Contracts.Values.{Time, ProtectedValue}
use authmodules.Contracts.Json.{Json}
use authmodules.Contracts.Errors.{Reason}
use authmodules.Contracts.Records.{Actor, IdentityLookup}

pub data AuthOperationName : Type 0 where
  enroll authenticate begin complete get_session revoke_session : AuthOperationName

pub data CoreIdKind : Type 0 where
  account identity credential session challenge : CoreIdKind

pub record MethodRef : Type 0 where
  pub method_id : Text
  pub method_kind : Text

pub record IdentityClaim : Type 0 where
  pub method_id : Text
  pub method_kind : Text
  pub subject : Text
  pub subject_kind : Text
  pub display : Option Text
  pub verified_at : Option Time

pub record AuthEvidence : Type 0 where
  pub kind : Text
  pub method : MethodRef
  pub details : Option Json

pub data AssuranceLevel : Type 0 where
  low medium high : AssuranceLevel

pub record AuthAssurance : Type 0 where
  pub level : AssuranceLevel
  pub factors : Option (List Text)

pub record AuthProof : Type 0 where
  pub proof_method : MethodRef
  pub primary_identity : IdentityClaim
  pub additional_identities : Option (List IdentityClaim)
  pub evidence : List AuthEvidence
  pub assurance : Option AuthAssurance
  pub auth_time : Time
  pub expires_at : Option Time
  pub claims : Option Json

pub record AuthContext : Type 0 where
  pub tenant_id : Text
  pub request_id : Option Text
  pub actor : Option Actor
  pub ip : Option Text
  pub user_agent : Option Text
  pub locale : Option Text
  pub policy_input : Option Json
  pub metadata : Option Json

pub record DecisionAuthContext : Type 0 where
  pub tenant_id : Text
  pub request_id : Option Text
  pub actor : Option Actor
  pub ip : Option Text
  pub user_agent : Option Text
  pub locale : Option Text
  pub policy_input : Option Json

pub record TransactionContext : Type 0 where
  pub transaction_id : Text
  pub covers : List Text

pub record SessionConfig : Type 0 where
  pub default_ttl_seconds : ℕ
  pub max_ttl_seconds : Option ℕ

-- A raw secret, by the text that `reveal` answers; `none` where it throws or answers no text.
pub record RawSecret : Type 0 where
  pub revealed : Option Text

pub data TokenIdentity : Type 0 where
  by_token_hash : ProtectedValue → Option Json → TokenIdentity
  by_session : Text → Text → ProtectedValue → Option Json → TokenIdentity

pub record TokenIssueInput : Type 0 where
  pub tenant_id : Text
  pub account_id : Text
  pub session_id : Text
  pub issued_at : Time
  pub expires_at : Time

pub record TokenIssueResult : Type 0 where
  pub raw : RawSecret
  pub token_hash : ProtectedValue

pub record IssuedTokenView : Type 0 where
  pub raw : RawSecret
  pub issued_at : Time
  pub expires_at : Time

-- `GuardBeforeAttemptInput`, by the type of its context.
pub record Attempt (C : Type 0) : Type 0 where
  pub context : C
  pub method : MethodRef
  pub operation : AuthOperationName
  pub lookup : Option IdentityLookup
  pub challenge_id : Option Text

-- The outcome of `GuardAfterAttemptInput`.
pub data AttemptOutcome : Type 0 where
  success : AttemptOutcome
  failure : Reason → Bool → AttemptOutcome

pub data EventOutcome : Type 0 where
  success failure : EventOutcome

-- `AuthEvent`; of the attributes, the reason that the core gives.
pub record AuthEvent : Type 0 where
  pub name : Text
  pub tenant_id : Text
  pub request_id : Option Text
  pub session_id : Option Text
  pub method_id : Option Text
  pub challenge_id : Option Text
  pub occurred_at : Time
  pub outcome : EventOutcome
  pub reason : Option Reason
