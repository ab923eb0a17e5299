-- ===== src/Memory/RecordValidation.antt =====
-- packages/testkit/src/stores/record-validation.ts, on records whose fields have their types, with
-- `snapshotRecord` of state.ts.
use authmodules.Prelude.{
  ℕ, ◌≡◌, arith, Bool, true, false, not, ◌&&◌, Option, none, some, List, [], ◌∷◌, Text, leb, ltb,
  if◌then◌else◌, length,
}
use authmodules.Contracts.Values.{
  is_identifier, is_safe_text, safe_option, max_safe_integer, clones, is_runtime_protected_value,
  is_runtime_sealed_value,
}
use authmodules.Contracts.Json.{
  JsonState, fresh_state, json_value, is_public_data, is_secret_descriptor,
}
use authmodules.Contracts.Records.{
  AccountRecord, IdentityRecord, CredentialRecord, SessionRecord, ChallengeRecord, Material,
  PrivateItem, protected, sealed, plain, IdentityLookup, ChallengeBinding, CreateSessionRequest,
  Actor, anonymous, account, system, SessionStatus, ChallengeStatus,
}

abbrev is_positive_integer : ℕ → Bool
is_positive_integer n = leb n max_safe_integer && ltb 0 n

abbrev is_non_negative_integer : ℕ → Bool
is_non_negative_integer n = leb n max_safe_integer

abbrev is_some {ℓ} : {A : Type ℓ} → Option A → Bool
is_some none = false
is_some (some a) = true

-- One entry of `privateData`: the walk of its plain values shares one `JsonState`.
private_item : PrivateItem → JsonState → Option JsonState
private_item (protected p) s = if is_runtime_protected_value p then some s else none
private_item (sealed v) s = if is_runtime_sealed_value v then some s else none
private_item (plain value) s = json_value is_secret_descriptor value 0 s

private_items : List (Text × PrivateItem) → JsonState → Bool
private_items [] s = true
private_items ((key, item) ∷ rest) s =
    elim (if is_safe_text key 512 true then private_item item s else none) [
      | none ↦ false
      | some after ↦ private_items rest after
    ]

is_private_data : Option (List (Text × PrivateItem)) → Bool
unfolding private_items private_item
is_private_data none = true
is_private_data (some entries) = leb (length entries) 1000 && private_items entries fresh_state

unfoldable pub is_method_material : Material → Bool
unfolding is_private_data
is_method_material m =
    is_identifier m.schema_version
    && (is_public_data m.public_data && is_private_data m.private_data)

-- Where `cloneRecord` throws inside a material: on a secret whose revealed text is out of bounds.
clones_item : PrivateItem → Bool
clones_item (protected p) = clones p.verifier
clones_item (sealed v) = clones v.ciphertext
clones_item (plain value) = true

clones_items : List (Text × PrivateItem) → Bool
clones_items [] = true
clones_items ((key, item) ∷ rest) = clones_item item && clones_items rest

unfoldable pub clones_material : Material → Bool
unfolding clones_items clones_item
clones_material m = elim m.private_data [ none ↦ true | some entries ↦ clones_items entries ]

is_identity_lookup : Option IdentityLookup → Bool
is_identity_lookup none = true
is_identity_lookup (some l) =
    is_identifier l.method_id
    && (is_identifier l.method_kind
        && (is_safe_text l.subject 2048 true
            && (is_identifier l.subject_kind && safe_option l.display 512 false)))

is_session_request : Option CreateSessionRequest → Bool
is_session_request none = true
is_session_request (some r) = elim r.ttl_seconds [ none ↦ true | some n ↦ is_positive_integer n ]

is_actor : Option Actor → Bool
is_actor none = true
is_actor (some anonymous) = true
is_actor (some (account id)) = is_identifier id
is_actor (some (system name)) = is_identifier name

is_challenge_binding : ChallengeBinding → Bool
unfolding is_session_request is_actor
is_challenge_binding b = is_session_request b.session && is_actor b.started_by_actor

unfoldable pub is_account_record : AccountRecord → Bool
is_account_record r =
    is_identifier r.tenant_id && (is_identifier r.account_id && is_public_data r.public_data)

unfoldable pub is_identity_record : IdentityRecord → Bool
is_identity_record r =
    is_identifier r.tenant_id
    && (is_identifier r.identity_id
        && (is_identifier r.account_id
            && (is_identifier r.method_id
                && (is_identifier r.method_kind
                    && (is_safe_text r.subject 2048 true
                        && (is_identifier r.subject_kind && safe_option r.display 2048 false))))))

unfoldable pub is_credential_record : CredentialRecord → Bool
is_credential_record r =
    is_identifier r.tenant_id
    && (is_identifier r.credential_id
        && (is_identifier r.account_id
            && (is_identifier r.identity_id
                && (is_identifier r.method_id
                    && (is_identifier r.method_kind
                        && (is_method_material r.material && is_positive_integer r.version))))))

-- `(status === 'revoked') === (revokedAt !== undefined)`
revocation_agrees : SessionStatus → Bool → Bool
revocation_agrees SessionStatus.revoked dated = dated
revocation_agrees _ dated = not dated

unfoldable pub is_session_record : SessionRecord → Bool
unfolding revocation_agrees
is_session_record r =
    is_identifier r.tenant_id
    && (is_identifier r.session_id
        && (is_identifier r.account_id
            && (is_runtime_protected_value r.token_hash
                && (ltb r.issued_at r.expires_at
                    && revocation_agrees r.status (is_some r.revoked_at)))))

-- `(status === 'consumed') === (consumedAt !== undefined)`
consumption_agrees : ChallengeStatus → Bool → Bool
consumption_agrees ChallengeStatus.consumed dated = dated
consumption_agrees _ dated = not dated

-- The numbers of a challenge, tested together.
is_attempt_count : ChallengeRecord → Bool
is_attempt_count r =
    is_non_negative_integer r.attempts
    && (is_positive_integer r.max_attempts
        && (leb r.attempts r.max_attempts && is_positive_integer r.version))

unfoldable pub is_challenge_record : ChallengeRecord → Bool
unfolding consumption_agrees is_attempt_count is_identity_lookup is_challenge_binding
is_challenge_record r =
    is_identifier r.tenant_id
    && (is_identifier r.challenge_id
        && (is_identifier r.method_id
            && (is_identifier r.method_kind
                && (is_identity_lookup r.lookup
                    && (is_method_material r.material
                        && (is_challenge_binding r.binding
                            && (is_attempt_count r
                                && consumption_agrees r.status (is_some r.consumed_at))))))))

-- `snapshotRecord(value, validator)`: `cloned` says that `cloneRecord` did not throw.
abbrev pub snapshot_record {ℓ} : {A : Type ℓ} → Bool → Bool → A → Option A
snapshot_record cloned valid value = if cloned && valid then some value else none

unfoldable pub snapshot_account : AccountRecord → Option AccountRecord
snapshot_account r = snapshot_record true (is_account_record r) r

unfoldable pub snapshot_identity : IdentityRecord → Option IdentityRecord
snapshot_identity r = snapshot_record true (is_identity_record r) r

unfoldable pub snapshot_credential : CredentialRecord → Option CredentialRecord
snapshot_credential r = snapshot_record (clones_material r.material) (is_credential_record r) r

unfoldable pub snapshot_material : Material → Option Material
snapshot_material m = snapshot_record (clones_material m) (is_method_material m) m

unfoldable pub snapshot_session : SessionRecord → Option SessionRecord
snapshot_session r = snapshot_record (clones r.token_hash.verifier) (is_session_record r) r

unfoldable pub snapshot_challenge : ChallengeRecord → Option ChallengeRecord
snapshot_challenge r = snapshot_record (clones_material r.material) (is_challenge_record r) r

-- A snapshot is the value itself, and valid.
module _ {A : Type 0} (cloned valid : Bool) (value : A) {r : A} where
  snapshot_record-eq : snapshot_record cloned valid value ≡ some r → (value ≡ r) × (valid ≡ true)
  snapshot_record-eq h = ground arith

pub snapshot_account_lem :
    (r : AccountRecord) {v : AccountRecord}
    → snapshot_account r ≡ some v
    → (r ≡ v) × (is_account_record r ≡ true)
unfolding snapshot_account
snapshot_account_lem r h = snapshot_record-eq true (is_account_record r) r h

pub snapshot_identity_lem :
    (r : IdentityRecord) {v : IdentityRecord}
    → snapshot_identity r ≡ some v
    → (r ≡ v) × (is_identity_record r ≡ true)
unfolding snapshot_identity
snapshot_identity_lem r h = snapshot_record-eq true (is_identity_record r) r h

pub snapshot_credential_lem :
    (r : CredentialRecord) {v : CredentialRecord}
    → snapshot_credential r ≡ some v
    → (r ≡ v) × (is_credential_record r ≡ true)
unfolding snapshot_credential
snapshot_credential_lem r h =
    snapshot_record-eq (clones_material r.material) (is_credential_record r) r h

pub snapshot_material_lem :
    (r : Material) {v : Material}
    → snapshot_material r ≡ some v
    → (r ≡ v) × (is_method_material r ≡ true)
unfolding snapshot_material
snapshot_material_lem r h = snapshot_record-eq (clones_material r) (is_method_material r) r h

pub snapshot_session_lem :
    (r : SessionRecord) {v : SessionRecord}
    → snapshot_session r ≡ some v
    → (r ≡ v) × (is_session_record r ≡ true)
unfolding snapshot_session
snapshot_session_lem r h =
    snapshot_record-eq (clones r.token_hash.verifier) (is_session_record r) r h

pub snapshot_challenge_lem :
    (r : ChallengeRecord) {v : ChallengeRecord}
    → snapshot_challenge r ≡ some v
    → (r ≡ v) × (is_challenge_record r ≡ true)
unfolding snapshot_challenge
snapshot_challenge_lem r h =
    snapshot_record-eq (clones_material r.material) (is_challenge_record r) r h
