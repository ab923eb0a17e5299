-- ===== src/Contracts/Records.antt =====
-- The stored records: packages/contracts/src/store.d.ts, material.d.ts and primitives.d.ts. Dates in a
-- record are valid: a record with an invalid date, an unknown key or a field of another type is
-- no value of these types, and the validators refuse it.
use authmodules.Prelude.{ℕ, Option, List, Text}
use authmodules.Contracts.Values.{Time, ProtectedValue, SealedSecret}
use authmodules.Contracts.Json.{Json}

pub data AccountStatus : Type 0 where
  active disabled deleted : AccountStatus

pub data CredentialStatus : Type 0 where
  active disabled : CredentialStatus

pub data SessionStatus : Type 0 where
  active revoked expired : SessionStatus

pub data ChallengeStatus : Type 0 where
  pending consumed expired failed : ChallengeStatus

pub data AccountMode : Type 0 where
  create_new_account require_existing_identity create_account_if_identity_missing : AccountMode
  link_to_actor_account : AccountMode

pub data Actor : Type 0 where
  anonymous : Actor
  account : Text → Actor
  system : Text → Actor

pub record CreateSessionRequest : Type 0 where
  pub ttl_seconds : Option ℕ

pub record ChallengeBinding : Type 0 where
  pub account : AccountMode
  pub session : Option CreateSessionRequest
  pub started_by_actor : Option Actor

pub record IdentityLookup : Type 0 where
  pub method_id : Text
  pub method_kind : Text
  pub subject : Text
  pub subject_kind : Text
  pub display : Option Text

-- A value of `privateData`.
pub data PrivateItem : Type 0 where
  protected : ProtectedValue → PrivateItem
  sealed : SealedSecret → PrivateItem
  plain : Json → PrivateItem

-- `CredentialMaterial` and `ChallengeMaterial`
pub record Material : Type 0 where
  pub schema_version : Text
  pub public_data : Option Json
  pub private_data : Option (List (Text × PrivateItem))

pub record AccountRecord : Type 0 where
  pub tenant_id : Text
  pub account_id : Text
  pub status : AccountStatus
  pub created_at : Time
  pub updated_at : Time
  pub public_data : Option Json

pub record IdentityRecord : Type 0 where
  pub tenant_id : Text
  pub identity_id : Text
  pub account_id : Text
  pub method_id : Text
  pub method_kind : Text
  pub subject : Text
  pub subject_kind : Text
  pub display : Option Text
  pub verified_at : Option Time
  pub created_at : Time
  pub updated_at : Time

pub record CredentialRecord : Type 0 where
  pub tenant_id : Text
  pub credential_id : Text
  pub account_id : Text
  pub identity_id : Text
  pub method_id : Text
  pub method_kind : Text
  pub status : CredentialStatus
  pub material : Material
  pub version : ℕ
  pub created_at : Time
  pub updated_at : Time

pub record SessionRecord : Type 0 where
  pub tenant_id : Text
  pub session_id : Text
  pub account_id : Text
  pub token_hash : ProtectedValue
  pub status : SessionStatus
  pub issued_at : Time
  pub expires_at : Time
  pub revoked_at : Option Time
  pub created_at : Time
  pub updated_at : Time

pub record ChallengeRecord : Type 0 where
  pub tenant_id : Text
  pub challenge_id : Text
  pub method_id : Text
  pub method_kind : Text
  pub lookup : Option IdentityLookup
  pub status : ChallengeStatus
  pub material : Material
  pub binding : ChallengeBinding
  pub attempts : ℕ
  pub max_attempts : ℕ
  pub version : ℕ
  pub expires_at : Time
  pub consumed_at : Option Time
  pub created_at : Time
  pub updated_at : Time
