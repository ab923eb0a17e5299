-- ===== src/Core/Sessions/Create.antt =====
-- packages/core/src/operations/session.ts: createSession.
use authmodules.Prelude.{
  ℕ, ◌+◌, ◌*◌, Bool, true, false, ◌&&◌, Option, none, some, [], Text, leb, ltb, ◌==◌, if◌then◌else◌,
}
use authmodules.Contracts.Values.{
  Time, Date, at, invalid, make_date, max_safe_integer, ProtectedValue,
}
use authmodules.Contracts.Errors.{Reason}
use authmodules.Contracts.Records.{SessionRecord, SessionStatus, CreateSessionRequest}
use authmodules.Contracts.Auth.{
  AuthContext, AuthProof, CoreIdKind, RawSecret, SessionConfig, TokenIssueInput, TokenIssueResult,
  IssuedTokenView, TransactionContext,
}
use authmodules.Core.Errors.{PublicAuthErrorCode, auth_err, store_failure, is_safe_reason}
use authmodules.Core.Views.{SessionView, to_session_view}
use authmodules.Core.Run.{◌>>=◌, ◌>>◌, Exit, done, failed, thrown, Run, pure, refuse}
use authmodules.Core.Ports.{Ports, Answer, Stored, PolicyCheck}
use authmodules.Core.Policy.{policy, now_or_fail, generate_core_id}
use authmodules.Core.Validation.{
  same, is_session_record, is_token_issue_result, snapshot_raw_secret, snapshot_protected_value,
}
use authmodules.Core.Sessions.Defs.{unavailable, on_exit, session_is_active}

pub record CreatedSession : Type 0 where
  pub session : SessionView
  pub token : IssuedTokenView

-- `request.ttlSeconds ?? sessionConfig.defaultTtlSeconds`
requested_ttl : SessionConfig → Option ℕ → ℕ
requested_ttl config none = config.default_ttl_seconds
requested_ttl config (some ttl) = ttl

within_maximum : Option ℕ → ℕ → Bool
within_maximum none ttl = true
within_maximum (some maximum) ttl = leb ttl maximum

-- `none` is the error 'SESSION_TTL_INVALID'.
unfoldable pub resolve_session_ttl : SessionConfig → CreateSessionRequest → Option ℕ
unfolding requested_ttl within_maximum
resolve_session_ttl config request =
    let ttl = requested_ttl config request.ttl_seconds in
    if leb ttl max_safe_integer && (ltb 0 ttl && within_maximum config.max_ttl_seconds ttl)
    then some ttl
    else none

-- `keyId ?? ''`
key_or_empty : Option Text → Text
key_or_empty none = []
key_or_empty (some key_id) = key_id

is_absent : Option Time → Bool
is_absent none = true
is_absent (some t) = false

-- The token hash that was stored is the one given, a missing key id being the empty one.
unfoldable pub hashes_agree : ProtectedValue → ProtectedValue → Bool
unfolding key_or_empty
hashes_agree expected p =
    same p.scheme expected.scheme
    && (same (key_or_empty p.key_id) (key_or_empty expected.key_id)
        && same p.verifier expected.verifier)

-- The session is not revoked, and was created and updated as the one given.
unfoldable pub histories_agree : SessionRecord → SessionRecord → Bool
unfolding is_absent
histories_agree expected r =
    is_absent r.revoked_at
    && (r.created_at == expected.created_at && r.updated_at == expected.updated_at)

-- The answer is a session, and agrees with the one given in every field that is compared; that
-- one is active and not revoked.
unfoldable pub session_records_match : SessionRecord → SessionRecord → Bool
unfolding hashes_agree histories_agree session_is_active
session_records_match expected r =
    is_session_record r
    && (same r.tenant_id expected.tenant_id
        && (same r.session_id expected.session_id
            && (same r.account_id expected.account_id
                && (session_is_active r.status
                    && (hashes_agree expected.token_hash r.token_hash
                        && (r.issued_at == expected.issued_at
                            && (r.expires_at == expected.expires_at
                                && histories_agree expected r)))))))

-- The raw token and the token hash, where both have a snapshot.
both : Option RawSecret → Option ProtectedValue → Option (RawSecret × ProtectedValue)
both (some raw) (some token_hash) = some (raw, token_hash)
both _ _ = none

-- What the core makes of the token format's answer.
unfoldable pub issued : Option Text → Answer TokenIssueResult → Exit (RawSecret × ProtectedValue)
unfolding both
issued request_id (Answer.answered r) =
    if is_token_issue_result r
    then elim (both (snapshot_raw_secret r.raw) (snapshot_protected_value r.token_hash)) [
      | none ↦ failed (unavailable request_id)
      | some pair ↦ done pair
    ]
    else failed (unavailable request_id)
issued request_id (Answer.refused reason) =
    if is_safe_reason reason
    then failed (auth_err request_id reason (some PublicAuthErrorCode.temporarily_unavailable) none)
    else failed (unavailable request_id)
issued request_id _ = failed (unavailable request_id)

-- What the core makes of the store's answer to `create`.
unfoldable pub stored_as : Option Text → SessionRecord → Stored SessionRecord → Exit SessionRecord
unfolding session_records_match
stored_as request_id expected (Stored.answered r) =
    if session_records_match expected r then done r else failed (unavailable request_id)
stored_as request_id expected (Stored.refused failure) = failed (store_failure request_id failure)
stored_as request_id expected Stored.misshapen = failed (unavailable request_id)
stored_as request_id expected Stored.threw = thrown

abbrev pub session_record : AuthContext → Text → Text → ProtectedValue → Time → Time → SessionRecord
session_record c session_id account_id token_hash now expires_at = record {
  tenant_id = c.tenant_id;
  session_id = session_id;
  account_id = account_id;
  token_hash = token_hash;
  status = SessionStatus.active;
  issued_at = now;
  expires_at = expires_at;
  revoked_at = none;
  created_at = now;
  updated_at = now;
}

module _ {W : Type 0} where
  unfoldable pub issue_token :
      Ports W → AuthContext → TokenIssueInput → Run W (RawSecret × ProtectedValue)
  unfolding issued
  issue_token ports c input w = on_exit (issued c.request_id) (ports.issue input w)

  unfoldable pub store_session :
      Ports W → AuthContext → SessionRecord → Option TransactionContext → Run W SessionRecord
  unfolding stored_as
  store_session ports c r tx w = on_exit (stored_as c.request_id r) (ports.create_session r tx w)

  -- `createSession` from its transaction-time session to its answer.
  unfoldable pub complete_session :
      Ports W → AuthContext → RawSecret → Time → Time → SessionRecord → Run W CreatedSession
  complete_session ports c raw now expires_at created = do
    completed_at ← now_or_fail ports c
    (if leb created.expires_at completed_at
        then refuse c.request_id Reason.session_expired PublicAuthErrorCode.session_invalid
        else pure (record {
          session = to_session_view created;
          token = record { raw = raw; issued_at = now; expires_at = expires_at };
        }))

  -- The rest of `createSession`, once the time and the end of the session are known.
  unfoldable pub create_until :
      Ports W
      → AuthContext
      → Text
      → AuthProof
      → CreateSessionRequest
      → Option TransactionContext
      → Time
      → ℕ
      → Date
      → Run W CreatedSession
  create_until ports c account_id proof request tx now ttl invalid =
      refuse c.request_id Reason.session_ttl_invalid PublicAuthErrorCode.invalid_input
  create_until ports c account_id proof request tx now ttl (at expires_at) = do
    policy ports c
        (λ d. PolicyCheck.create_session d account_id proof request.ttl_seconds ttl expires_at)
    session_id ← generate_core_id ports c CoreIdKind.session now
    pair ← issue_token ports c (record {
      tenant_id = c.tenant_id;
      account_id = account_id;
      session_id = session_id;
      issued_at = now;
      expires_at = expires_at;
    })
    created ←
        store_session ports c (session_record c session_id account_id pair.1 now expires_at) tx
    complete_session ports c pair.0 now expires_at created

  unfoldable pub create_for :
      Ports W
      → AuthContext
      → Text
      → AuthProof
      → CreateSessionRequest
      → Option TransactionContext
      → Time
      → Option ℕ
      → Run W CreatedSession
  unfolding create_until
  create_for ports c account_id proof request tx now none =
      refuse c.request_id Reason.session_ttl_invalid PublicAuthErrorCode.invalid_input
  create_for ports c account_id proof request tx now (some ttl) =
      create_until ports c account_id proof request tx now ttl (make_date (now + ttl * 1000))

  unfoldable pub create_session :
      Ports W
      → AuthContext
      → Text
      → AuthProof
      → CreateSessionRequest
      → Date
      → Option TransactionContext
      → Run W CreatedSession
  unfolding create_for resolve_session_ttl
  create_session ports c account_id proof request invalid tx =
      refuse c.request_id Reason.internal PublicAuthErrorCode.internal
  create_session ports c account_id proof request (at now) tx =
      create_for ports c account_id proof request tx now (resolve_session_ttl ports.session request)
