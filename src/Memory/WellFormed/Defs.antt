-- ===== src/Memory/WellFormed/Defs.antt =====
-- The invariant of the memory state.
use authmodules.Prelude.{ℕ, ◌&&◌, ltb, leb, ◌≡◌, Bool, true, some, Text, text_discrete}
use authmodules.JsMap.{Map, get, has}
use authmodules.Contracts.Records.{
  AccountRecord, IdentityRecord, CredentialRecord, SessionRecord, ChallengeRecord,
}
use authmodules.Memory.RecordValidation.{
  is_account_record, is_identity_record, is_credential_record, is_session_record,
  is_challenge_record,
}
use authmodules.Memory.State.{MemoryState, Cell, token_key_discrete, account_key, identity_key}
use authmodules.Memory.Credentials.{fits_identity}
use authmodules.Memory.Directory.{IsKeyed, IsIndexed}
use authmodules.Memory.Steps.{
  key_of_account, key_of_identity, subject_of, key_of_credential, place_of, key_of_session, hash_of,
  key_of_challenge,
}

-- A stored record passes the validator, but for its version, which the validator takes up to
-- 2^53 - 1 and updates count up to 2^53.
abbrev within_versions : ℕ → Bool
within_versions v = ltb 0 v && leb v 9007199254740992

abbrev pub valid_credential : CredentialRecord → Bool
valid_credential r = is_credential_record (record r { version = 1 }) && within_versions r.version

abbrev pub valid_challenge : ChallengeRecord → Bool
valid_challenge r = is_challenge_record (record r { version = 1 }) && within_versions r.version

-- The account of each record is stored, and the identity of each credential, which it fits.
pub record Owners (accounts : Map Text (Cell AccountRecord))
    (identities : Map Text (Cell IdentityRecord)) (credentials : Map Text (Cell CredentialRecord))
    (sessions : Map Text (Cell SessionRecord)) : Type 0 where
  pub of_identity :
      (k : Text) (c : Cell IdentityRecord)
      → get text_discrete k identities ≡ some c
      → has text_discrete (account_key c.value.tenant_id c.value.account_id) accounts ≡ true
  pub of_credential :
      (k : Text) (c : Cell CredentialRecord)
      → get text_discrete k credentials ≡ some c
      → (has text_discrete (account_key c.value.tenant_id c.value.account_id) accounts ≡ true)
        × (fits_identity c.value
              (get text_discrete (identity_key c.value.tenant_id c.value.identity_id) identities)
            ≡ true)
  pub of_session :
      (k : Text) (c : Cell SessionRecord)
      → get text_discrete k sessions ≡ some c
      → has text_discrete (account_key c.value.tenant_id c.value.account_id) accounts ≡ true

abbrev pub SubjectIndex : Map Text (Cell IdentityRecord) → Map Text Text → Type 0
SubjectIndex = IsIndexed text_discrete (λ r. r.identity_id) (λ r. some (subject_of r))

abbrev pub PlaceIndex : Map Text (Cell CredentialRecord) → Map Text Text → Type 0
PlaceIndex = IsIndexed text_discrete (λ r. r.credential_id) (λ r. some (place_of r))

pub record IsWellFormed (s : MemoryState) : Type 0 where
  pub accounts : IsKeyed key_of_account is_account_record s.accounts
  pub identities : IsKeyed key_of_identity is_identity_record s.identities
  pub subjects : SubjectIndex s.identities s.identity_subjects
  pub credentials : IsKeyed key_of_credential valid_credential s.credentials
  pub places : PlaceIndex s.credentials s.credentials_by_identity
  pub sessions : IsKeyed key_of_session is_session_record s.sessions
  pub hashes :
      IsIndexed token_key_discrete
        (λ (r : SessionRecord). r.session_id)
        hash_of
        s.sessions
        s.sessions_by_token_hash
  pub challenges : IsKeyed key_of_challenge valid_challenge s.challenges
  pub owners : Owners s.accounts s.identities s.credentials s.sessions
