-- ===== src/Core/Sessions/Defs.antt =====
-- packages/core/src/operations/session.ts: getSession and revokeSession.
use authmodules.Prelude.{Bool, true, false, ◌&&◌, not, Option, none, some, Text, leb, if◌then◌else◌}
use authmodules.Contracts.Values.{Time, ProtectedValue}
use authmodules.Contracts.Errors.{Reason}
use authmodules.Contracts.Records.{
  AccountRecord, AccountStatus, SessionRecord, SessionStatus, Actor,
}
use authmodules.Contracts.Auth.{AuthContext, RawSecret, TokenIdentity, TransactionContext}
use authmodules.Core.Errors.{
  AuthFailure, PublicAuthErrorCode, auth_err, store_failure, is_safe_reason,
}
use authmodules.Core.Views.{SessionView, to_session_view}
use authmodules.Core.Run.{◌>>=◌, Exit, done, failed, thrown, Run, pure, fail}
use authmodules.Core.Ports.{Ports, Answer, Stored}
use authmodules.Core.Policy.{now_or_fail}
use authmodules.Core.Validation.{
  same, is_auth_context, is_token_identify_result, snapshot_protected_value, is_session_record,
  is_account_record,
}

pub record GetSessionInput : Type 0 where
  pub context : AuthContext
  pub token : Option RawSecret

pub record RevokeSessionInput : Type 0 where
  pub context : AuthContext
  pub session_id : Text

-- `authErr(context, 'INTERNAL', 'TEMPORARILY_UNAVAILABLE')`
abbrev pub unavailable : Option Text → AuthFailure
unavailable request_id =
    auth_err request_id Reason.internal (some PublicAuthErrorCode.temporarily_unavailable) none

-- `authErr(authContextFrom(input), 'VALIDATION_FAILED', 'INVALID_INPUT')`
abbrev pub request_of : AuthContext → Option Text
request_of c = if is_auth_context c then c.request_id else none

abbrev pub invalid_input : AuthContext → AuthFailure
invalid_input c =
    auth_err (request_of c) Reason.validation_failed (some PublicAuthErrorCode.invalid_input) none

unfoldable pub same_option : Option Text → Option Text → Bool
same_option none none = true
same_option (some a) (some b) = same a b
same_option _ _ = false

unfoldable pub protected_values_match : ProtectedValue → ProtectedValue → Bool
unfolding same_option
protected_values_match left right =
    same left.scheme right.scheme
    && (same_option left.key_id right.key_id && same left.verifier right.verifier)

unfoldable pub session_is_active : SessionStatus → Bool
session_is_active SessionStatus.active = true
session_is_active _ = false

unfoldable pub account_is_active : AccountStatus → Bool
account_is_active AccountStatus.active = true
account_is_active _ = false

-- The token hash of an identity, whether it names a session, and its tenant and session.
abbrev pub token_hash_of : TokenIdentity → ProtectedValue
token_hash_of (TokenIdentity.by_token_hash token_hash claims) = token_hash
token_hash_of (TokenIdentity.by_session tenant_id session_id token_hash claims) = token_hash

abbrev pub names_session : TokenIdentity → Bool
names_session (TokenIdentity.by_token_hash token_hash claims) = false
names_session (TokenIdentity.by_session tenant_id session_id token_hash claims) = true

-- `kind === 'by-session' && tenantId !== context.tenantId`
unfoldable pub names_other_tenant : Text → TokenIdentity → Bool
names_other_tenant tenant_id (TokenIdentity.by_token_hash token_hash claims) = false
names_other_tenant tenant_id (TokenIdentity.by_session named session_id token_hash claims) =
    not (same named tenant_id)

unfoldable pub names_other_session : SessionRecord → TokenIdentity → Bool
names_other_session r (TokenIdentity.by_token_hash token_hash claims) = false
names_other_session r (TokenIdentity.by_session tenant_id session_id token_hash claims) =
    not (same r.session_id session_id)

-- What the core makes of the token format's answer: `null`, or an identity with the snapshot of its
-- token hash.
unfoldable pub identified :
    Option Text → Answer (Option TokenIdentity) → Exit (Option (TokenIdentity × ProtectedValue))
identified request_id (Answer.answered none) = done none
identified request_id (Answer.answered (some identity)) =
    if is_token_identify_result (some identity)
    then elim (snapshot_protected_value (token_hash_of identity)) [
      | none ↦ failed (unavailable request_id)
      | some token_hash ↦ done (some (identity, token_hash))
    ]
    else failed (unavailable request_id)
identified request_id (Answer.refused reason) =
    if is_safe_reason reason
    then failed (auth_err request_id reason (some PublicAuthErrorCode.temporarily_unavailable) none)
    else failed (unavailable request_id)
identified request_id _ = failed (unavailable request_id)

-- What the core makes of a store's answer: a record that is there passes the test, or the call fails.
unfoldable pub looked_up :
    {A : Type 0} → Option Text → (A → Bool) → Stored (Option A) → Exit (Option A)
looked_up request_id accepts (Stored.answered none) = done none
looked_up request_id accepts (Stored.answered (some r)) =
    if accepts r then done (some r) else failed (unavailable request_id)
looked_up request_id accepts (Stored.refused failure) = failed (store_failure request_id failure)
looked_up request_id accepts Stored.misshapen = failed (unavailable request_id)
looked_up request_id accepts Stored.threw = thrown

abbrev pub on_exit : {W A B : Type 0} → (A → Exit B) → A × W → Exit B × W
on_exit f (a, w) = (f a, w)

unfoldable pub accepts_session : Text → TokenIdentity → SessionRecord → Bool
unfolding names_other_session
accepts_session tenant_id identity r =
    is_session_record r && (same r.tenant_id tenant_id && not (names_other_session r identity))

unfoldable pub accepts_account : Text → Text → AccountRecord → Bool
accepts_account tenant_id account_id r =
    is_account_record r && (same r.tenant_id tenant_id && same r.account_id account_id)

unfoldable pub accepts_named : Text → Text → SessionRecord → Bool
accepts_named tenant_id session_id r =
    is_session_record r && (same r.tenant_id tenant_id && same r.session_id session_id)

-- `actorMayRevokeSession`
unfoldable pub actor_may_revoke_session : Option Actor → SessionRecord → Bool
actor_may_revoke_session (some (Actor.system name)) r = true
actor_may_revoke_session (some (Actor.account account_id)) r = same account_id r.account_id
actor_may_revoke_session _ r = false

module _ {W : Type 0} where
  -- The lookup that the identity asks for.
  unfoldable pub find_identified :
      Ports W → Text → TokenIdentity → ProtectedValue → W → Stored (Option SessionRecord) × W
  find_identified ports tenant_id (TokenIdentity.by_token_hash _ claims) token_hash =
      ports.find_by_token_hash tenant_id token_hash
  find_identified ports tenant_id (TokenIdentity.by_session named session_id _ claims) token_hash =
      ports.find_session tenant_id session_id

  unfoldable pub identify_token :
      Ports W → AuthContext → RawSecret → Time → Run W (Option (TokenIdentity × ProtectedValue))
  unfolding identified
  identify_token ports c raw now w =
      on_exit (identified c.request_id) (ports.identify raw c.tenant_id now w)

  unfoldable pub find_session_of :
      Ports W → AuthContext → TokenIdentity → ProtectedValue → Run W (Option SessionRecord)
  unfolding looked_up accepts_session find_identified
  find_session_of ports c identity token_hash w =
      on_exit (looked_up c.request_id (accepts_session c.tenant_id identity))
        (find_identified ports c.tenant_id identity token_hash w)

  -- The account of that id in the tenant of the context.
  unfoldable pub find_account_of :
      Ports W → AuthContext → Text → Option TransactionContext → Run W (Option AccountRecord)
  unfolding looked_up accepts_account
  find_account_of ports c account_id tx w =
      on_exit (looked_up c.request_id (accepts_account c.tenant_id account_id))
        (ports.find_account c.tenant_id account_id tx w)

  -- The rest of `getSession`, on the account found for an active session.
  unfoldable pub with_account :
      Ports W → AuthContext → SessionRecord → Option AccountRecord → Run W (Option SessionView)
  unfolding account_is_active
  with_account ports c r none = pure none
  with_account ports c r (some account) =
      if not (account_is_active account.status) then pure none else (do
        resolved_at ← now_or_fail ports c
        if leb r.expires_at resolved_at then pure none else pure (some (to_session_view r)))

  -- The rest of `getSession`, on the session found for the identity.
  unfoldable pub with_session :
      Ports W
      → AuthContext
      → TokenIdentity
      → ProtectedValue
      → Option SessionRecord
      → Run W (Option SessionView)
  unfolding with_account protected_values_match session_is_active
  with_session ports c identity token_hash none = pure none
  with_session ports c identity token_hash (some r) =
      if not (protected_values_match r.token_hash token_hash)
      then if names_session identity then pure none else fail (unavailable c.request_id)
      else if not (session_is_active r.status)
      then pure none
      else (do account ← find_account_of ports c r.account_id none; with_account ports c r account)

  -- The rest of `getSession`, on what the token format made of the token.
  unfoldable pub with_identity :
      Ports W → AuthContext → Option (TokenIdentity × ProtectedValue) → Run W (Option SessionView)
  unfolding with_session find_session_of names_other_tenant
  with_identity ports c none = pure none
  with_identity ports c (some (identity, token_hash)) =
      if names_other_tenant c.tenant_id identity then pure none else (do
        found ← find_session_of ports c identity token_hash
        with_session ports c identity token_hash found)

  unfoldable pub with_token : Ports W → AuthContext → Option RawSecret → Run W (Option SessionView)
  unfolding with_identity identify_token
  with_token ports c none = pure none
  with_token ports c (some raw) = do
    now ← now_or_fail ports c
    identity ← identify_token ports c raw now
    with_identity ports c identity

  unfoldable pub get_session : Ports W → GetSessionInput → Run W (Option SessionView)
  unfolding with_token
  get_session ports input =
      if is_auth_context input.context
      then with_token ports input.context input.token
      else fail (invalid_input input.context)
