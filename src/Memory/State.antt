-- ===== src/Memory/State.antt =====
-- packages/testkit/src/stores/state.ts: the maps, their keys, and the status transitions.
pub mod Keys
use authmodules.Prelude.{
  ℕ, Bool, true, false, Option, none, some, List, [], ◌∷◌, ◌++◌, Text, text_discrete, if◌then◌else◌,
  ltb, length, ◌&&◌, ◌+◌,
}
use authmodules.JsMap.{Map}
use authmodules.Contracts.Values.{ProtectedValue}
use authmodules.Contracts.Records.{
  AccountRecord, IdentityRecord, CredentialRecord, SessionRecord, ChallengeRecord, AccountStatus,
  CredentialStatus,
}

-- A stored object: its content, and the number of the call that stored it. A call stores at most
-- one object under a key, so that under one key equal numbers are one object (`===`).
pub record Cell {ℓ} (A : Type ℓ) : Type ℓ where
  pub ref : ℕ
  pub value : A

-- `JSON.stringify([tenantId, scheme, keyId, verifier])` is one-to-one on lists of texts, and a key
-- is read by nothing else: the list stands for it.
abbrev pub TokenHashKey : Type 0
TokenHashKey = List Text

unfoldable pub token_key_discrete : Discrete TokenHashKey
unfolding text_discrete
token_key_discrete = hlevel text_discrete

pub record MemoryState : Type 0 where
  pub accounts : Map Text (Cell AccountRecord)
  pub identities : Map Text (Cell IdentityRecord)
  pub identity_subjects : Map Text Text
  pub credentials : Map Text (Cell CredentialRecord)
  pub credentials_by_identity : Map Text Text
  pub sessions : Map Text (Cell SessionRecord)
  pub sessions_by_token_hash : Map TokenHashKey Text
  pub challenges : Map Text (Cell ChallengeRecord)

abbrev pub create_empty_state : MemoryState
create_empty_state = record {
  accounts = [];
  identities = [];
  identity_subjects = [];
  credentials = [];
  credentials_by_identity = [];
  sessions = [];
  sessions_by_token_hash = [];
  challenges = [];
}

-- `version + 1` on the numbers of JavaScript, from one that is at most 2^53: 2^53 + 1 is rounded
-- to 2^53.
unfoldable pub next_version : ℕ → ℕ
next_version version = if ltb version 9007199254740992 then version + 1 else version

unfoldable pub can_transition_account_status : AccountStatus → AccountStatus → Bool
can_transition_account_status AccountStatus.active AccountStatus.disabled = true
can_transition_account_status AccountStatus.active AccountStatus.deleted = true
can_transition_account_status AccountStatus.disabled AccountStatus.active = true
can_transition_account_status AccountStatus.disabled AccountStatus.deleted = true
can_transition_account_status _ _ = false

unfoldable pub can_transition_credential_status : CredentialStatus → CredentialStatus → Bool
can_transition_credential_status CredentialStatus.active CredentialStatus.disabled = true
can_transition_credential_status CredentialStatus.disabled CredentialStatus.active = true
can_transition_credential_status _ _ = false

-- `${a}\u0000${b}`
unfoldable pub join_key : Text → Text → Text
join_key a b = a ++ (0 ∷ b)

abbrev pub account_key : Text → Text → Text
account_key tenant_id account_id = join_key tenant_id account_id

abbrev pub identity_key : Text → Text → Text
identity_key tenant_id identity_id = join_key tenant_id identity_id

abbrev pub identity_subject_key : Text → Text → Text → Text
identity_subject_key tenant_id method_id subject = join_key tenant_id (join_key method_id subject)

abbrev pub credential_key : Text → Text → Text
credential_key tenant_id credential_id = join_key tenant_id credential_id

abbrev pub credential_identity_key : Text → Text → Text → Text
credential_identity_key tenant_id identity_id method_id =
    join_key tenant_id (join_key identity_id method_id)

abbrev pub session_key : Text → Text → Text
session_key tenant_id session_id = join_key tenant_id session_id

abbrev pub challenge_key : Text → Text → Text
challenge_key tenant_id challenge_id = join_key tenant_id challenge_id

-- `keyId ?? ''`
abbrev pub or_empty : Option Text → Text
or_empty none = []
or_empty (some t) = t

unfoldable pub token_hash_key : Text → ProtectedValue → Option TokenHashKey
token_hash_key tenant_id p =
    if ltb 0 (length tenant_id) && (ltb 0 (length p.scheme) && ltb 0 (length p.verifier))
    then some (tenant_id ∷ p.scheme ∷ or_empty p.key_id ∷ p.verifier ∷ [])
    else none
