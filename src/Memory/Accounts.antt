-- ===== src/Memory/Accounts.antt =====
-- packages/testkit/src/stores/accounts.ts
use authmodules.Prelude.{Option, Text, text_discrete, if◌then◌else◌}
use authmodules.JsMap.{get, has, set}
use authmodules.Contracts.Errors.{Reason, ok}
use authmodules.Contracts.Values.{Date, snapshot_date}
use authmodules.Contracts.Records.{AccountRecord, AccountStatus}
use authmodules.Memory.RecordValidation.{snapshot_account}
use authmodules.Memory.State.{account_key, can_transition_account_status}
use authmodules.Memory.Action.{Action, fail, require, cell, content}

unfoldable pub create : AccountRecord → Action AccountRecord
create input = require (snapshot_account input) Reason.store_unavailable λ r ref s.
    let key = account_key r.tenant_id r.account_id in
    if has text_discrete key s.accounts
    then fail Reason.store_unavailable ref s
    else (ok r, record s { accounts = set text_discrete key (cell ref r) s.accounts })

unfoldable pub find_by_id : Text → Text → Action (Option AccountRecord)
find_by_id tenant_id account_id ref s =
    (ok (content (get text_discrete (account_key tenant_id account_id) s.accounts)), s)

unfoldable pub update_status : Text → Text → AccountStatus → Date → Action AccountRecord
update_status tenant_id account_id status now =
    require (snapshot_date now) Reason.store_unavailable λ time ref s.
      let key = account_key tenant_id account_id in
      require (get text_discrete key s.accounts) Reason.account_not_found
        (λ found ref s.
          if can_transition_account_status found.value.status status
          then (let updated = record (found.value) { status = status; updated_at = time } in
              (
                ok updated,
                record s { accounts = set text_discrete key (cell ref updated) s.accounts },
              ))
          else fail Reason.store_unavailable ref s)
        ref s
