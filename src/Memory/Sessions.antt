-- ===== src/Memory/Sessions.antt =====
-- packages/testkit/src/stores/sessions.ts
use authmodules.Prelude.{
  ℕ, Bool, true, false, Option, none, some, Text, text_discrete, test, if◌then◌else◌, ◌||◌, ◌&&◌,
  not, leb,
}
use authmodules.JsMap.{get, has, set}
use authmodules.Contracts.Errors.{Reason, ok}
use authmodules.Contracts.Values.{Time, Date, snapshot_date, ProtectedValue}
use authmodules.Contracts.Records.{SessionRecord, SessionStatus}
use authmodules.Memory.RecordValidation.{snapshot_session}
use authmodules.Memory.State.{Cell, account_key, session_key, token_hash_key, token_key_discrete}
use authmodules.Memory.Cleanup.{cleanup_loop}
use authmodules.Memory.Action.{Action, fail, require, cell, content, truthy, cleanup_limit}

unfoldable pub create : SessionRecord → Action SessionRecord
create input = require (snapshot_session input) Reason.store_unavailable λ r ref s.
    let key = session_key r.tenant_id r.session_id in
    if not (has text_discrete (account_key r.tenant_id r.account_id) s.accounts)
    then fail Reason.account_not_found ref s
    else require (token_hash_key r.tenant_id r.token_hash) Reason.store_unavailable
        (λ hash_key ref s.
          if has text_discrete key s.sessions
            || has token_key_discrete hash_key s.sessions_by_token_hash
          then fail Reason.store_unavailable ref s
          else (
            ok r,
            record s {
              sessions = set text_discrete key (cell ref r) s.sessions;
              sessions_by_token_hash =
                  set token_key_discrete hash_key r.session_id s.sessions_by_token_hash;
            },
          ))
        ref s

unfoldable pub find_by_id : Text → Text → Action (Option SessionRecord)
find_by_id tenant_id session_id ref s =
    (ok (content (get text_discrete (session_key tenant_id session_id) s.sessions)), s)

-- The rest of `findByTokenHash`, on the id that the index gave.
unfoldable pub find_named : Text → Option Text → Action (Option SessionRecord)
unfolding find_by_id
find_named tenant_id none ref s = (ok none, s)
find_named tenant_id (some session_id) ref s = find_by_id tenant_id session_id ref s

unfoldable pub find_by_token_hash : Text → ProtectedValue → Action (Option SessionRecord)
unfolding find_named
find_by_token_hash tenant_id token_hash =
    require (token_hash_key tenant_id token_hash) Reason.store_unavailable λ hash_key ref s.
      find_named tenant_id (truthy (get token_key_discrete hash_key s.sessions_by_token_hash)) ref s

unfoldable pub is_active : SessionStatus → Bool
is_active SessionStatus.active = true
is_active _ = false

-- The rest of `revoke`, on the session found under the key.
unfoldable pub revoke_found :
    Text → Time → Option (Cell SessionRecord) → Action (Option SessionRecord)
unfolding is_active
revoke_found key time none ref s = (ok none, s)
revoke_found key time (some found) ref s =
    let updated = record (found.value) {
      status = SessionStatus.revoked;
      revoked_at = some time;
      updated_at = time;
    } in
    if not (is_active found.value.status) then (ok (some found.value), s) else (
      ok (some updated),
      record s { sessions = set text_discrete key (cell ref updated) s.sessions },
    )

unfoldable pub revoke : Text → Text → Date → Action (Option SessionRecord)
unfolding revoke_found
revoke tenant_id session_id now = require (snapshot_date now) Reason.store_unavailable λ time ref s.
    let key = session_key tenant_id session_id in
    revoke_found key time (get text_discrete key s.sessions) ref s

-- The sessions that the cleanup of a tenant does not skip.
unfoldable pub is_due : Text → Time → SessionRecord → Bool
unfolding is_active text_discrete
is_due tenant_id now r =
    test (text_discrete r.tenant_id tenant_id) && (is_active r.status && leb r.expires_at now)

unfoldable pub expire : Time → SessionRecord → SessionRecord
expire now r = record r { status = SessionStatus.expired; updated_at = now }

unfoldable pub cleanup_expired : Text → Date → Option ℕ → Action ℕ
unfolding is_due expire
cleanup_expired tenant_id now limit =
    require (cleanup_limit limit) Reason.store_unavailable λ bound.
      require (snapshot_date now) Reason.store_unavailable λ time ref s.
        let due = is_due tenant_id time in
        let (count, sessions) = cleanup_loop due (expire time) bound ref s.sessions 0 s.sessions in
        (ok count, record s { sessions = sessions })
