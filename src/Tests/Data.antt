-- ===== src/Tests/Data.antt =====
-- One tenant with an account, an identity, a session, a credential and a challenge.
use authmodules.Memory.State.{
  challenge_key, session_key, credential_identity_key, credential_key, identity_subject_key,
  identity_key, account_key, MemoryState,
}
use authmodules.Memory.Action.{cell}
use authmodules.Prelude.{none, some, List, [], ◌∷◌, Text, codes}
use authmodules.Contracts.Values.{ProtectedValue}
use authmodules.Contracts.Records.{
  AccountRecord, AccountStatus, IdentityRecord, CredentialRecord, CredentialStatus, SessionRecord,
  SessionStatus, ChallengeRecord, ChallengeStatus, Material, AccountMode,
}
use authmodules.Memory.History.{Operation}

abbrev pub tenant : Text
tenant = codes "t"

abbrev pub account_id : Text
account_id = codes "a"

abbrev pub identity_id : Text
identity_id = codes "i"

abbrev pub session_id : Text
session_id = codes "s"

abbrev pub credential_id : Text
credential_id = codes "c"

abbrev pub challenge_id : Text
challenge_id = codes "h"

abbrev pub password : Text
password = codes "p"

abbrev pub token : ProtectedValue
token = record { scheme = codes "x"; key_id = none; created_at = none; verifier = codes "v" }

abbrev pub material : Material
material = record { schema_version = codes "1"; public_data = none; private_data = none }

abbrev pub an_account : AccountRecord
an_account = record {
  tenant_id = tenant;
  account_id = account_id;
  status = AccountStatus.active;
  created_at = 1;
  updated_at = 1;
  public_data = none;
}

abbrev pub an_identity : IdentityRecord
an_identity = record {
  tenant_id = tenant;
  identity_id = identity_id;
  account_id = account_id;
  method_id = password;
  method_kind = password;
  subject = codes "u";
  subject_kind = codes "k";
  display = none;
  verified_at = none;
  created_at = 1;
  updated_at = 1;
}

abbrev pub a_session : SessionRecord
a_session = record {
  tenant_id = tenant;
  session_id = session_id;
  account_id = account_id;
  token_hash = token;
  status = SessionStatus.active;
  issued_at = 1;
  expires_at = 100;
  revoked_at = none;
  created_at = 1;
  updated_at = 1;
}

abbrev pub a_credential : CredentialRecord
a_credential = record {
  tenant_id = tenant;
  credential_id = credential_id;
  account_id = account_id;
  identity_id = identity_id;
  method_id = password;
  method_kind = password;
  status = CredentialStatus.active;
  material = material;
  version = 1;
  created_at = 1;
  updated_at = 1;
}

abbrev pub a_challenge : ChallengeRecord
a_challenge = record {
  tenant_id = tenant;
  challenge_id = challenge_id;
  method_id = password;
  method_kind = password;
  lookup = none;
  status = ChallengeStatus.pending;
  material = material;
  binding = record {
    account = AccountMode.create_new_account;
    session = none;
    started_by_actor = none;
  };
  attempts = 0;
  max_attempts = 3;
  version = 1;
  expires_at = 100;
  consumed_at = none;
  created_at = 1;
  updated_at = 1;
}

abbrev pub creations : List Operation
creations =
    Operation.create_account an_account
    ∷ Operation.create_identity an_identity
    ∷ Operation.create_session a_session
    ∷ Operation.create_credential a_credential
    ∷ Operation.create_challenge a_challenge
    ∷ []

-- The state with all five records.
abbrev pub store : MemoryState
store = record {
  accounts = (account_key tenant account_id, cell 0 an_account) ∷ [];
  identities = (identity_key tenant identity_id, cell 1 an_identity) ∷ [];
  identity_subjects = (identity_subject_key tenant password (codes "u"), identity_id) ∷ [];
  credentials = (credential_key tenant credential_id, cell 3 a_credential) ∷ [];
  credentials_by_identity =
      (credential_identity_key tenant identity_id password, credential_id) ∷ [];
  sessions = (session_key tenant session_id, cell 2 a_session) ∷ [];
  sessions_by_token_hash = ((tenant ∷ codes "x" ∷ [] ∷ codes "v" ∷ []), session_id) ∷ [];
  challenges = (challenge_key tenant challenge_id, cell 4 a_challenge) ∷ [];
}

abbrev pub revoked_session : SessionRecord
revoked_session = record a_session {
  status = SessionStatus.revoked;
  revoked_at = some 50;
  updated_at = 50;
}

abbrev pub replaced_credential : CredentialRecord
replaced_credential = record a_credential { version = 2; updated_at = 50 }
