-- ===== src/Memory/Credentials.antt =====
-- packages/testkit/src/stores/credentials.ts
use authmodules.Prelude.{
  ℕ, Bool, false, Option, none, some, Text, text_discrete, test, if◌then◌else◌, ◌||◌, ◌&&◌, not,
  ◌==◌,
}
use authmodules.JsMap.{get, has, set}
use authmodules.Contracts.Errors.{Reason, ok, version_failure}
use authmodules.Contracts.Values.{Date, snapshot_date}
use authmodules.Contracts.Records.{CredentialRecord, CredentialStatus, IdentityRecord, Material}
use authmodules.Memory.RecordValidation.{snapshot_credential, snapshot_material}
use authmodules.Memory.State
use authmodules.Memory.State.{
  Cell, account_key, credential_key, credential_identity_key, can_transition_credential_status,
  next_version,
}
use authmodules.Memory.Action.{Action, fail, fail_with, require, cell, content, truthy}

-- The identity that a credential names is there, and belongs to its account and method.
unfoldable pub fits_identity : CredentialRecord → Option (Cell IdentityRecord) → Bool
unfolding text_discrete
fits_identity r none = false
fits_identity r (some identity) =
    test (text_discrete identity.value.account_id r.account_id)
    && (test (text_discrete identity.value.method_id r.method_id)
        && test (text_discrete identity.value.method_kind r.method_kind))

unfoldable pub create : CredentialRecord → Action CredentialRecord
unfolding fits_identity
create input = require (snapshot_credential input) Reason.store_unavailable λ r ref s.
    let key = credential_key r.tenant_id r.credential_id in
    let identity_key = credential_identity_key r.tenant_id r.identity_id r.method_id in
    let identity = get text_discrete (State.identity_key r.tenant_id r.identity_id) s.identities in
    if not (has text_discrete (account_key r.tenant_id r.account_id) s.accounts)
      || not (fits_identity r identity)
    then fail Reason.credential_conflict ref s
    else if has text_discrete key s.credentials
        || has text_discrete identity_key s.credentials_by_identity
    then fail Reason.credential_conflict ref s
    else (
      ok r,
      record s {
        credentials = set text_discrete key (cell ref r) s.credentials;
        credentials_by_identity =
            set text_discrete identity_key r.credential_id s.credentials_by_identity;
      },
    )

unfoldable pub find_by_id : Text → Text → Action (Option CredentialRecord)
find_by_id tenant_id credential_id ref s =
    (ok (content (get text_discrete (credential_key tenant_id credential_id) s.credentials)), s)

unfoldable pub find_for_identity : Text → Text → Text → Action (Option CredentialRecord)
find_for_identity tenant_id identity_id method_id ref s =
    elim (truthy (
      get text_discrete (credential_identity_key tenant_id identity_id method_id)
        s.credentials_by_identity)) [
          | none ↦ (ok none, s)
          | some credential_id ↦ find_by_id tenant_id credential_id ref s
        ]

-- The version check of both updates, and the write.
unfoldable pub update_at :
    Text → Text → ℕ → (CredentialRecord → Option CredentialRecord) → Action CredentialRecord
update_at tenant_id credential_id expected_version change ref s =
    let key = credential_key tenant_id credential_id in
    require (get text_discrete key s.credentials) Reason.credential_not_found
      (λ found ref s.
        if found.value.version == expected_version
        then require (change found.value) Reason.store_unavailable
            (λ updated ref s. (
              ok updated,
              record s { credentials = set text_discrete key (cell ref updated) s.credentials },
            ))
            ref s
        else fail_with (version_failure Reason.transaction_failed expected_version) ref s)
      ref s

unfoldable pub replace_material : Text → Text → ℕ → Material → Date → Action CredentialRecord
unfolding update_at
replace_material tenant_id credential_id expected_version material now =
    require (snapshot_date now) Reason.store_unavailable λ time.
      require (snapshot_material material) Reason.store_unavailable λ snapshot.
        update_at tenant_id credential_id expected_version λ r.
          some
            (record r { material = snapshot; version = next_version r.version; updated_at = time })

unfoldable pub update_status : Text → Text → ℕ → CredentialStatus → Date → Action CredentialRecord
unfolding update_at
update_status tenant_id credential_id expected_version status now =
    require (snapshot_date now) Reason.store_unavailable λ time.
      update_at tenant_id credential_id expected_version λ r.
        if can_transition_credential_status r.status status
        then some
            (record r { status = status; version = next_version r.version; updated_at = time })
        else none
