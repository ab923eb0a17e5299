-- ===== src/Memory/History.antt =====
-- Any sequence of calls of the five stores.
pub mod Lookups
pub mod Consumption
pub mod Revocation
pub mod Versions
use authmodules.Prelude.{ℕ, ◌+◌, Option, List, [], ◌∷◌, Text}
use authmodules.Contracts.Values.{Date}
use authmodules.Contracts.Records.{
  AccountRecord, AccountStatus, IdentityRecord, CredentialRecord, CredentialStatus, Material,
  SessionRecord, ChallengeRecord,
}
use authmodules.Memory.State.{MemoryState}
use authmodules.Memory.Accounts
use authmodules.Memory.Identities
use authmodules.Memory.Credentials
use authmodules.Memory.Sessions
use authmodules.Memory.Challenges
use authmodules.Memory.Steps.{Steps, done, Steps-trans}
use authmodules.Memory.Steps.Calls
use authmodules.Memory.WellFormed.{IsWellFormed, Steps-IsWellFormed, AllDistinct, Steps-AllDistinct}

-- A call of a store that can change it, with its arguments. The lookups change nothing.
pub data Operation : Type 0 where
  create_account : AccountRecord → Operation
  update_account : Text → Text → AccountStatus → Date → Operation
  create_identity : IdentityRecord → Operation
  mark_verified : Text → Text → Date → Date → Operation
  create_credential : CredentialRecord → Operation
  replace_material : Text → Text → ℕ → Material → Date → Operation
  update_credential : Text → Text → ℕ → CredentialStatus → Date → Operation
  create_session : SessionRecord → Operation
  revoke_session : Text → Text → Date → Operation
  cleanup_sessions : Text → Date → Option ℕ → Operation
  create_challenge : ChallengeRecord → Operation
  record_failed_attempt : Text → Text → ℕ → Date → Operation
  consume_pending : Text → Text → ℕ → Date → Operation
  cleanup_challenges : Text → Date → Option ℕ → Operation

unfoldable pub perform : ℕ → Operation → MemoryState → MemoryState
perform ref (create_account r) s = (Accounts.create r ref s).1
perform ref (update_account t id status now) s = (Accounts.update_status t id status now ref s).1
perform ref (create_identity r) s = (Identities.create r ref s).1
perform ref (mark_verified t id verified_at now) s =
    (Identities.mark_verified t id verified_at now ref s).1
perform ref (create_credential r) s = (Credentials.create r ref s).1
perform ref (replace_material t id v m now) s = (Credentials.replace_material t id v m now ref s).1
perform ref (update_credential t id v status now) s =
    (Credentials.update_status t id v status now ref s).1
perform ref (create_session r) s = (Sessions.create r ref s).1
perform ref (revoke_session t id now) s = (Sessions.revoke t id now ref s).1
perform ref (cleanup_sessions t now limit) s = (Sessions.cleanup_expired t now limit ref s).1
perform ref (create_challenge r) s = (Challenges.create r ref s).1
perform ref (record_failed_attempt t id v now) s =
    (Challenges.record_failed_attempt t id v now ref s).1
perform ref (consume_pending t id v now) s = (Challenges.consume_pending t id v now ref s).1
perform ref (cleanup_challenges t now limit) s = (Challenges.cleanup_expired t now limit ref s).1

-- The calls of a history are numbered from `ref` on.
unfoldable pub run : ℕ → List Operation → MemoryState → MemoryState
run ref [] s = s
run ref (o ∷ rest) s = run (ref + 1) rest (perform ref o s)

pub perform-Steps :
    (ref : ℕ) (o : Operation) (s : MemoryState) → AllDistinct s → Steps s (perform ref o s)
unfolding perform
perform-Steps ref (create_account r) s d = Calls.create_account-Steps r ref s
perform-Steps ref (update_account t id status now) s d =
    Calls.update_account-Steps t id status now ref s
perform-Steps ref (create_identity r) s d = Calls.create_identity-Steps r ref s
perform-Steps ref (mark_verified t id verified_at now) s d =
    Calls.mark_verified-Steps t id verified_at now ref s
perform-Steps ref (create_credential r) s d = Calls.create_credential-Steps r ref s
perform-Steps ref (replace_material t id v m now) s d =
    Calls.replace_material-Steps t id v m now ref s
perform-Steps ref (update_credential t id v status now) s d =
    Calls.update_credential-Steps t id v status now ref s
perform-Steps ref (create_session r) s d = Calls.create_session-Steps r ref s
perform-Steps ref (revoke_session t id now) s d = Calls.revoke-Steps t id now ref s
perform-Steps ref (cleanup_sessions t now limit) s d =
    Calls.cleanup_sessions-Steps t ref s now limit d.sessions
perform-Steps ref (create_challenge r) s d = Calls.create_challenge-Steps r ref s
perform-Steps ref (record_failed_attempt t id v now) s d =
    Calls.record_failed_attempt-Steps t id ref s v now
perform-Steps ref (consume_pending t id v now) s d = Calls.consume_pending-Steps t id ref s v now
perform-Steps ref (cleanup_challenges t now limit) s d =
    Calls.cleanup_challenges-Steps t ref s now limit d.challenges

pub run-Steps :
    (ref : ℕ) (os : List Operation) (s : MemoryState) → AllDistinct s → Steps s (run ref os s)
unfolding run
run-Steps ref [] s d = done
run-Steps ref (o ∷ os) s d =
    let first = perform-Steps ref o s d in
    Steps-trans first (run-Steps (ref + 1) os (perform ref o s) (Steps-AllDistinct first d))

-- From a well-formed state with distinct keys, every history of calls leaves such a state: each
-- record is valid, but that the version of a credential or a challenge may count up to 2^53, and
-- stands under its own key, the indexes lead to exactly the records, and each record has its
-- account.
pub run-IsWellFormed :
    (ref : ℕ) (os : List Operation) (s : MemoryState)
    → IsWellFormed s
    → AllDistinct s
    → IsWellFormed (run ref os s) × AllDistinct (run ref os s)
run-IsWellFormed ref os s w d =
    let steps = run-Steps ref os s d in (Steps-IsWellFormed steps w, Steps-AllDistinct steps d)
