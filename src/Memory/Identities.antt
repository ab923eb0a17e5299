-- ===== src/Memory/Identities.antt =====
-- packages/testkit/src/stores/identities.ts
use authmodules.Prelude.{Option, none, some, Text, text_discrete, if◌then◌else◌, ◌||◌, not}
use authmodules.JsMap.{get, has, set}
use authmodules.Contracts.Errors.{Reason, ok}
use authmodules.Contracts.Values.{Date, snapshot_date}
use authmodules.Contracts.Records.{IdentityRecord}
use authmodules.Memory.RecordValidation.{snapshot_identity}
use authmodules.Memory.State.{account_key, identity_key, identity_subject_key}
use authmodules.Memory.Action.{Action, fail, require, cell, content, truthy}

unfoldable pub create : IdentityRecord → Action IdentityRecord
create input = require (snapshot_identity input) Reason.store_unavailable λ r ref s.
    let key = identity_key r.tenant_id r.identity_id in
    let subject_key = identity_subject_key r.tenant_id r.method_id r.subject in
    if not (has text_discrete (account_key r.tenant_id r.account_id) s.accounts)
    then fail Reason.account_not_found ref s
    else if has text_discrete key s.identities || has text_discrete subject_key s.identity_subjects
    then fail Reason.identity_conflict ref s
    else (
      ok r,
      record s {
        identities = set text_discrete key (cell ref r) s.identities;
        identity_subjects = set text_discrete subject_key r.identity_id s.identity_subjects;
      },
    )

unfoldable pub find_by_id : Text → Text → Action (Option IdentityRecord)
find_by_id tenant_id identity_id ref s =
    (ok (content (get text_discrete (identity_key tenant_id identity_id) s.identities)), s)

-- The rest of `findBySubject`, on the id that the index gave.
unfoldable pub find_named : Text → Option Text → Action (Option IdentityRecord)
unfolding find_by_id
find_named tenant_id none ref s = (ok none, s)
find_named tenant_id (some identity_id) ref s = find_by_id tenant_id identity_id ref s

unfoldable pub find_by_subject : Text → Text → Text → Action (Option IdentityRecord)
unfolding find_named
find_by_subject tenant_id method_id subject ref s =
    let key = identity_subject_key tenant_id method_id subject in
    find_named tenant_id (truthy (get text_discrete key s.identity_subjects)) ref s

unfoldable pub mark_verified : Text → Text → Date → Date → Action IdentityRecord
mark_verified tenant_id identity_id verified_at now =
    require (snapshot_date verified_at) Reason.store_unavailable λ verified.
      require (snapshot_date now) Reason.store_unavailable λ time ref s.
        let key = identity_key tenant_id identity_id in
        require (get text_discrete key s.identities) Reason.identity_not_found
          (λ found ref s.
            let updated = record (found.value) { verified_at = some verified; updated_at = time } in
            (
              ok updated,
              record s { identities = set text_discrete key (cell ref updated) s.identities },
            ))
          ref s
