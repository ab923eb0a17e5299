-- ===== src/Memory/Steps.antt =====
-- The changes that a call may make in a `MemoryState`: one record put in, or one replaced along its
-- store's moves; and sequences of them.
pub mod Calls
use authmodules.Prelude.{ℕ, ◌≡◌, true, false, Option, some, Text, text_discrete}
use authmodules.JsMap.{get, has, set}
use authmodules.Contracts.Records.{
  AccountRecord, IdentityRecord, CredentialRecord, SessionRecord, ChallengeRecord,
}
use authmodules.Memory.RecordValidation.{
  is_account_record, is_identity_record, is_credential_record, is_session_record,
  is_challenge_record,
}
use authmodules.Memory.State.{
  MemoryState, Cell, TokenHashKey, token_key_discrete, account_key, identity_key,
  identity_subject_key, credential_key, credential_identity_key, session_key, challenge_key,
  token_hash_key,
}
use authmodules.Memory.Action.{cell}
use authmodules.Memory.Credentials.{fits_identity}
use authmodules.Memory.Moves.{AccountMove, IdentityMove, CredentialMove, SessionMove, ChallengeMove}

-- The keys of a record, by its own fields.
abbrev pub key_of_account : AccountRecord → Text
key_of_account r = account_key r.tenant_id r.account_id

abbrev pub key_of_identity : IdentityRecord → Text
key_of_identity r = identity_key r.tenant_id r.identity_id

abbrev pub subject_of : IdentityRecord → Text
subject_of r = identity_subject_key r.tenant_id r.method_id r.subject

abbrev pub key_of_credential : CredentialRecord → Text
key_of_credential r = credential_key r.tenant_id r.credential_id

abbrev pub place_of : CredentialRecord → Text
place_of r = credential_identity_key r.tenant_id r.identity_id r.method_id

abbrev pub key_of_session : SessionRecord → Text
key_of_session r = session_key r.tenant_id r.session_id

abbrev pub hash_of : SessionRecord → Option TokenHashKey
hash_of r = token_hash_key r.tenant_id r.token_hash

abbrev pub key_of_challenge : ChallengeRecord → Text
key_of_challenge r = challenge_key r.tenant_id r.challenge_id

pub data Step (s : MemoryState) : MemoryState → Type 0 where
  new_account :
      (ref : ℕ) (r : AccountRecord)
      → is_account_record r ≡ true
      → has text_discrete (key_of_account r) s.accounts ≡ false
      → Step s
          (record s { accounts = set text_discrete (key_of_account r) (cell ref r) s.accounts })
  set_account :
      (k : Text) (ref : ℕ) (c : Cell AccountRecord) (r : AccountRecord)
      → get text_discrete k s.accounts ≡ some c
      → AccountMove c.value r
      → Step s (record s { accounts = set text_discrete k (cell ref r) s.accounts })
  new_identity :
      (ref : ℕ) (r : IdentityRecord)
      → is_identity_record r ≡ true
      → has text_discrete (account_key r.tenant_id r.account_id) s.accounts ≡ true
      → has text_discrete (key_of_identity r) s.identities ≡ false
      → has text_discrete (subject_of r) s.identity_subjects ≡ false
      → Step s (record s {
        identities = set text_discrete (key_of_identity r) (cell ref r) s.identities;
        identity_subjects = set text_discrete (subject_of r) r.identity_id s.identity_subjects;
      })
  set_identity :
      (k : Text) (ref : ℕ) (c : Cell IdentityRecord) (r : IdentityRecord)
      → get text_discrete k s.identities ≡ some c
      → IdentityMove c.value r
      → Step s (record s { identities = set text_discrete k (cell ref r) s.identities })
  new_credential :
      (ref : ℕ) (r : CredentialRecord)
      → is_credential_record r ≡ true
      → has text_discrete (account_key r.tenant_id r.account_id) s.accounts ≡ true
      → fits_identity r (get text_discrete (identity_key r.tenant_id r.identity_id) s.identities)
        ≡ true
      → has text_discrete (key_of_credential r) s.credentials ≡ false
      → has text_discrete (place_of r) s.credentials_by_identity ≡ false
      → Step s (record s {
        credentials = set text_discrete (key_of_credential r) (cell ref r) s.credentials;
        credentials_by_identity =
            set text_discrete (place_of r) r.credential_id s.credentials_by_identity;
      })
  set_credential :
      (k : Text) (ref : ℕ) (c : Cell CredentialRecord) (r : CredentialRecord)
      → get text_discrete k s.credentials ≡ some c
      → CredentialMove c.value r
      → Step s (record s { credentials = set text_discrete k (cell ref r) s.credentials })
  new_session :
      (ref : ℕ) (r : SessionRecord) (hash : TokenHashKey)
      → is_session_record r ≡ true
      → has text_discrete (account_key r.tenant_id r.account_id) s.accounts ≡ true
      → hash_of r ≡ some hash
      → has text_discrete (key_of_session r) s.sessions ≡ false
      → has token_key_discrete hash s.sessions_by_token_hash ≡ false
      → Step s (record s {
        sessions = set text_discrete (key_of_session r) (cell ref r) s.sessions;
        sessions_by_token_hash = set token_key_discrete hash r.session_id s.sessions_by_token_hash;
      })
  set_session :
      (k : Text) (ref : ℕ) (c : Cell SessionRecord) (r : SessionRecord)
      → get text_discrete k s.sessions ≡ some c
      → SessionMove c.value r
      → Step s (record s { sessions = set text_discrete k (cell ref r) s.sessions })
  new_challenge :
      (ref : ℕ) (r : ChallengeRecord)
      → is_challenge_record r ≡ true
      → has text_discrete (key_of_challenge r) s.challenges ≡ false
      → Step s (record s {
        challenges = set text_discrete (key_of_challenge r) (cell ref r) s.challenges;
      })
  set_challenge :
      (k : Text) (ref : ℕ) (c : Cell ChallengeRecord) (r : ChallengeRecord)
      → get text_discrete k s.challenges ≡ some c
      → ChallengeMove c.value r
      → Step s (record s { challenges = set text_discrete k (cell ref r) s.challenges })

-- Any number of changes, first to last.
pub data Steps : MemoryState → MemoryState → Type 0 where
  done : {s : MemoryState} → Steps s s
  more : {s t u : MemoryState} → Step s t → Steps t u → Steps s u

pub Steps-one : {s t : MemoryState} → Step s t → Steps s t
Steps-one x = more x done

pub Steps-trans : {s t u : MemoryState} → Steps s t → Steps t u → Steps s u
Steps-trans done ys = ys
Steps-trans (more x xs) ys = more x (Steps-trans xs ys)
