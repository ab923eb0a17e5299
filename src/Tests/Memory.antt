-- ===== src/Tests/Memory.antt =====
-- The theorems on the stores of one state.
use authmodules.Prelude.{ℕ, arith, codes, ◌∷◌, [], ◌+◌, ◌≢◌, ◌≡◌, refl, some, none, text_discrete}
use authmodules.Memory.Steps.{hash_of}
use authmodules.Memory.Action.{cell}
use authmodules.Memory.State.{
  identity_key, session_key, token_hash_key, token_key_discrete, create_empty_state, join_key,
}
use authmodules.Contracts.Records.{SessionStatus}
use authmodules.Tests.Data.{
  replaced_credential, revoked_session, an_identity, a_session, password, token, material,
  identity_id, credential_id, session_id, challenge_id, tenant, creations, store,
}
use authmodules.Memory.State.Keys.{join_key-injective}
use authmodules.Memory.Expiry.{IsOverChallenge, IsOverSession, cleanup_expired-Count}
use authmodules.Memory.Cleanup.Laws.{Count}
use authmodules.Memory.History.Lookups.{
  MatchesSubject, MatchesHash, find_by_subject_complete, find_by_subject_sound,
  find_by_token_hash_complete, find_by_token_hash_sound,
}
use authmodules.Memory.History.Versions.{replace_material-once}
use authmodules.Memory.History.Revocation.{revoke-lasts}
use authmodules.Memory.History.Consumption.{consume_pending-once}
use mathlib.Core.Path.{subst}
use Prim.Native.Nat.{min}
use authmodules.Memory.Credentials.{fits_identity}
use authmodules.JsMap.{has, get, set}
use authmodules.Contracts.Values.{is_control, is_safe_text, at}
use authmodules.Memory.RecordValidation.{
  is_challenge_record, is_credential_record, is_session_record, is_identity_record,
  is_account_record, snapshot_challenge, snapshot_credential, snapshot_session, snapshot_identity,
  snapshot_account,
}
use authmodules.Contracts.Errors.{ok}
use authmodules.Memory.History.{run, perform, run-IsWellFormed}
use authmodules.Memory.WellFormed.{IsWellFormed, IsWellFormed-empty, AllDistinct, AllDistinct-empty}
use authmodules.Memory.Accounts
use authmodules.Memory.Identities
use authmodules.Memory.Sessions
use authmodules.Memory.Credentials
use authmodules.Memory.Challenges

store_lem : run 0 creations create_empty_state ≡ store
unfolding run perform get set has text_discrete join_key token_key_discrete token_hash_key
    Accounts.create Identities.create Sessions.create Credentials.create Challenges.create
    snapshot_account snapshot_identity snapshot_session snapshot_credential snapshot_challenge
    is_account_record is_identity_record is_session_record is_credential_record is_challenge_record
    is_safe_text is_control fits_identity authmodules.Memory.RecordValidation.clones_material
    authmodules.Memory.RecordValidation.is_method_material authmodules.Contracts.Json.is_public_data
    authmodules.Contracts.Values.clones authmodules.Contracts.Values.is_runtime_protected_value
store_lem = refl

run-IsWellFormed_example :
    IsWellFormed (run 0 creations create_empty_state)
    × AllDistinct (run 0 creations create_empty_state)
run-IsWellFormed_example =
    run-IsWellFormed 0 creations create_empty_state IsWellFormed-empty AllDistinct-empty

pub store-IsWellFormed : IsWellFormed store × AllDistinct store
store-IsWellFormed =
    subst (λ s. IsWellFormed s × AllDistinct s) store_lem
      (run-IsWellFormed 0 creations create_empty_state IsWellFormed-empty AllDistinct-empty)

consumed_first :
    (Challenges.consume_pending tenant challenge_id 1 (at 50) 7 store).0
    ≡ ok Challenges.ConsumeResult.consumed
unfolding Challenges.consume_pending authmodules.Contracts.Values.snapshot_date get text_discrete
    join_key
consumed_first = refl

consume_pending-once_example :
    (Challenges.consume_pending tenant challenge_id 2 (at 60) 9 (
      run (7 + 1) creations (Challenges.consume_pending tenant challenge_id 1 (at 50) 7 store).1)).0
    ≢ ok Challenges.ConsumeResult.consumed
consume_pending-once_example =
    consume_pending-once tenant challenge_id 1 2 (at 50) (at 60) 7 9 creations store
      store-IsWellFormed.1 consumed_first

revoked_first : (Sessions.revoke tenant session_id (at 50) 7 store).0 ≡ ok (some revoked_session)
unfolding Sessions.revoke authmodules.Contracts.Values.snapshot_date get text_discrete join_key
revoked_first = refl

revoke-lasts_example :
    (revoked_session.status ≢ SessionStatus.active)
    × ((Sessions.find_by_id tenant session_id 9
          (run (7 + 1) creations (Sessions.revoke tenant session_id (at 50) 7 store).1)).0
        ≡ ok (some revoked_session))
revoke-lasts_example =
    revoke-lasts tenant session_id (at 50) 7 9 creations store revoked_session store-IsWellFormed.1
      revoked_first

replaced_first :
    (Credentials.replace_material tenant credential_id 1 material (at 50) 7 store).0
    ≡ ok replaced_credential
unfolding Credentials.replace_material authmodules.Contracts.Values.snapshot_date
    authmodules.Memory.RecordValidation.snapshot_material
    authmodules.Memory.RecordValidation.clones_material
    authmodules.Memory.RecordValidation.is_method_material is_safe_text
    authmodules.Contracts.Json.is_public_data get text_discrete join_key
    authmodules.Memory.State.next_version
replaced_first = refl

replace_material-once_example :
    (Credentials.replace_material tenant credential_id 1 material (at 60) 9 (
      run
        (7 + 1)
        creations
        (Credentials.replace_material tenant credential_id 1 material (at 50) 7 store).1)).0
    ≢ ok replaced_credential
replace_material-once_example =
    replace_material-once tenant credential_id 1 material material (at 50) (at 60) 7 9 creations
      store replaced_credential replaced_credential store-IsWellFormed.1 (omega arith)
      replaced_first

session_found : (Sessions.find_by_token_hash tenant token 7 store).0 ≡ ok (some a_session)
unfolding Sessions.find_by_token_hash token_hash_key get token_key_discrete join_key
session_found = refl

find_by_token_hash-sound_example :
    MatchesHash tenant token a_session
    × ((Sessions.find_by_id tenant session_id 7 store).0 ≡ ok (some a_session))
find_by_token_hash-sound_example =
    find_by_token_hash_sound store tenant token 7 a_session store-IsWellFormed.0 session_found

session_stored :
    get text_discrete (session_key tenant session_id) store.sessions ≡ some (cell 2 a_session)
unfolding get text_discrete join_key
session_stored = refl

hashed : hash_of a_session ≡ some (tenant ∷ codes "x" ∷ [] ∷ codes "v" ∷ [])
unfolding token_hash_key
hashed = refl

find_by_token_hash-complete_example :
    (Sessions.find_by_token_hash tenant token 7 store).0 ≡ ok (some a_session)
find_by_token_hash-complete_example =
    find_by_token_hash_complete store tenant token 7 (session_key tenant session_id)
      (cell 2 a_session) (tenant ∷ codes "x" ∷ [] ∷ codes "v" ∷ []) store-IsWellFormed.0
      session_stored hashed hashed

identity_found :
    (Identities.find_by_subject tenant password (codes "u") 7 store).0 ≡ ok (some an_identity)
unfolding Identities.find_by_subject get text_discrete join_key
identity_found = refl

find_by_subject-sound_example :
    MatchesSubject tenant password (codes "u") an_identity
    × ((Identities.find_by_id tenant identity_id 7 store).0 ≡ ok (some an_identity))
find_by_subject-sound_example =
    find_by_subject_sound store tenant password (codes "u") 7 an_identity store-IsWellFormed.0
      identity_found

identity_stored :
    get text_discrete (identity_key tenant identity_id) store.identities ≡ some (cell 1 an_identity)
unfolding get text_discrete join_key
identity_stored = refl

find_by_subject-complete_example :
    (Identities.find_by_subject tenant password (codes "u") 7 store).0 ≡ ok (some an_identity)
find_by_subject-complete_example =
    find_by_subject_complete store tenant password (codes "u") 7 (identity_key tenant identity_id)
      (cell 1 an_identity) store-IsWellFormed.0 identity_stored (refl, refl, refl)

cleanup_expired-Count_example :
    ((n : ℕ) × Count (IsOverSession tenant 200) store.sessions n
      × ((Sessions.cleanup_expired tenant (at 200) none 7 store).0 ≡ ok (min 1000 n)))
    × ((n : ℕ) × Count (IsOverChallenge tenant 200) store.challenges n
        × ((Challenges.cleanup_expired tenant (at 200) none 7 store).0 ≡ ok (min 1000 n)))
unfolding authmodules.Contracts.Values.snapshot_date authmodules.Memory.Action.cleanup_limit
cleanup_expired-Count_example =
    cleanup_expired-Count tenant (at 200) none 1000 200 7 store refl refl

join_key-injective_example : (tenant ≡ tenant) × (session_id ≡ session_id)
join_key-injective_example = join_key-injective tenant session_id tenant session_id refl refl refl
