-- ===== src/Core/Ports.antt =====
-- The ports of the core, `CreateAuthConfig` of packages/contracts/src/core.d.ts, as functions on a
-- world W: each call reads and changes the world, and answers or throws.
use authmodules.Prelude.{ℕ, Bool, Option, Text}
use authmodules.Contracts.Values.{Time, Date, ProtectedValue}
use authmodules.Contracts.Json.{Json}
use authmodules.Contracts.Errors.{Reason, StoreFailure}
use authmodules.Contracts.Records.{
  AccountRecord, IdentityRecord, SessionRecord, AccountMode, IdentityLookup,
}
use authmodules.Contracts.Auth.{
  AuthOperationName, CoreIdKind, MethodRef, IdentityClaim, AuthProof, DecisionAuthContext,
  TransactionContext, SessionConfig, RawSecret, TokenIdentity, TokenIssueInput, TokenIssueResult,
  Attempt, AttemptOutcome, AuthEvent,
}
use authmodules.Core.Errors.{PublicAuthErrorCode}
use authmodules.Core.Views.{SessionView}

-- What a store call did: `misshapen` is a success with a value of another type.
pub data Stored (A : Type 0) : Type 0 where
  threw misshapen : Stored A
  refused : StoreFailure → Stored A
  answered : A → Stored A

-- What a call of the token format did.
pub data Answer (A : Type 0) : Type 0 where
  threw misshapen : Answer A
  refused : Reason → Answer A
  answered : A → Answer A

-- What a clock or an id generator did.
pub data Reading (A : Type 0) : Type 0 where
  threw misshapen : Reading A
  read : A → Reading A

pub data PolicyCheck (C : Type 0) : Type 0 where
  start_attempt :
      C → MethodRef → AuthOperationName → Option IdentityLookup → Option Json → PolicyCheck C
  accept_enrollment : C → MethodRef → IdentityClaim → Bool → Option Json → PolicyCheck C
  accept_proof : C → AuthProof → PolicyCheck C
  resolve_account :
      C
      → Option AuthProof
      → Option IdentityClaim
      → Option IdentityLookup
      → AccountMode
      → PolicyCheck C
  create_session : C → Text → AuthProof → Option ℕ → ℕ → Time → PolicyCheck C
  revoke_session : C → Text → Option SessionView → PolicyCheck C

pub data PolicyDecision : Type 0 where
  allow : PolicyDecision
  deny : Reason → Option PublicAuthErrorCode → PolicyDecision

pub data GuardDecision : Type 0 where
  allow : GuardDecision
  deny : Reason → Option PublicAuthErrorCode → Option ℕ → GuardDecision

pub record AuthGuard (W : Type 0) : Type 0 where
  pub before_attempt : Attempt DecisionAuthContext → W → Answer GuardDecision × W
  -- Whatever the call does, the core reads nothing of its answer.
  pub after_attempt : Attempt DecisionAuthContext → AttemptOutcome → W → W

pub record Ports (W : Type 0) : Type 0 where
  pub clock : W → Reading Date × W
  pub generate : CoreIdKind → Text → Time → W → Reading Text × W
  pub session : SessionConfig
  pub identify : RawSecret → Text → Time → W → Answer (Option TokenIdentity) × W
  pub issue : TokenIssueInput → W → Answer TokenIssueResult × W
  pub policy : Option (PolicyCheck DecisionAuthContext → W → Reading PolicyDecision × W)
  pub guard : Option (AuthGuard W)
  -- What `emit` did to the world; an exception of it is caught.
  pub event_sink : Option (AuthEvent → W → W)
  pub find_account : Text → Text → Option TransactionContext → W → Stored (Option AccountRecord) × W
  pub create_account : AccountRecord → Option TransactionContext → W → Stored AccountRecord × W
  pub find_by_subject :
      Text → Text → Text → Option TransactionContext → W → Stored (Option IdentityRecord) × W
  pub create_identity : IdentityRecord → Option TransactionContext → W → Stored IdentityRecord × W
  pub find_session : Text → Text → W → Stored (Option SessionRecord) × W
  pub find_by_token_hash : Text → ProtectedValue → W → Stored (Option SessionRecord) × W
  pub create_session : SessionRecord → Option TransactionContext → W → Stored SessionRecord × W
  pub revoke : Text → Text → Time → W → Stored (Option SessionRecord) × W
