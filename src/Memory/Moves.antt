-- ===== src/Memory/Moves.antt =====
-- How a stored record may be replaced, store by store. These relations are read off no code: they
-- are what each store promises, and the calls are proved to make no other change.
use authmodules.Prelude.{◌≤◌, ◌<◌, ◌≡◌, ◌⊎◌, true, some}
use authmodules.Contracts.Values.{Time}
use authmodules.Contracts.Records.{
  AccountRecord, AccountStatus, IdentityRecord, CredentialRecord, CredentialStatus, SessionRecord,
  SessionStatus, ChallengeRecord, ChallengeStatus, Material,
}
use authmodules.Memory.RecordValidation.{is_method_material}
use authmodules.Memory.State.{
  can_transition_account_status, can_transition_credential_status, next_version,
}
use authmodules.Memory.Challenges.{fail_once}
use authmodules.Memory.Challenges
use authmodules.Memory.Sessions

pub data AccountMove (r : AccountRecord) : AccountRecord → Type 0 where
  restatus :
      (status : AccountStatus) (now : Time)
      → can_transition_account_status r.status status ≡ true
      → AccountMove r (record r { status = status; updated_at = now })

pub data IdentityMove (r : IdentityRecord) : IdentityRecord → Type 0 where
  verify :
      (verified now : Time)
      → IdentityMove r (record r { verified_at = some verified; updated_at = now })

-- Every change of a credential counts one version.
pub data CredentialMove (r : CredentialRecord) : CredentialRecord → Type 0 where
  rewrite :
      (m : Material) (now : Time)
      → is_method_material m ≡ true
      → CredentialMove r
          (record r { material = m; version = next_version r.version; updated_at = now })
  restatus :
      (status : CredentialStatus) (now : Time)
      → can_transition_credential_status r.status status ≡ true
      → CredentialMove r
          (record r { status = status; version = next_version r.version; updated_at = now })

-- A session leaves `active` and never comes back.
pub data SessionMove (r : SessionRecord) : SessionRecord → Type 0 where
  revoke :
      (now : Time)
      → r.status ≡ SessionStatus.active
      → SessionMove r
          (record r { status = SessionStatus.revoked; revoked_at = some now; updated_at = now })
  expire :
      (now : Time)
      → r.status ≡ SessionStatus.active
      → r.expires_at ≤ now
      → SessionMove r (Sessions.expire now r)

-- A pending challenge is tried and consumed before it expires and while attempts are left. One
-- that is pending or failed may be marked as expired, after it has.
pub data ChallengeMove (r : ChallengeRecord) : ChallengeRecord → Type 0 where
  miss :
      (now : Time)
      → r.status ≡ ChallengeStatus.pending
      → r.attempts < r.max_attempts
      → now < r.expires_at
      → ChallengeMove r (fail_once now r)
  consume :
      (now : Time)
      → r.status ≡ ChallengeStatus.pending
      → r.attempts < r.max_attempts
      → now < r.expires_at
      → ChallengeMove r (Challenges.consume now r)
  expire :
      (now : Time)
      → (r.status ≡ ChallengeStatus.pending) ⊎ (r.status ≡ ChallengeStatus.failed)
      → r.expires_at ≤ now
      → ChallengeMove r (Challenges.expire now r)
