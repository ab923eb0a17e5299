-- ===== src/Core/Sessions/Revoke.antt =====
-- packages/core/src/operations/session.ts: revokeSession.
use authmodules.Prelude.{
  Bool, true, false, ◌&&◌, not, Option, none, some, Text, codes, if◌then◌else◌,
}
use authmodules.Contracts.Values.{Time}
use authmodules.Contracts.Records.{SessionRecord, SessionStatus}
use authmodules.Contracts.Auth.{AuthContext, AuthEvent, EventOutcome}
use authmodules.Core.Views.{to_session_view}
use authmodules.Core.Run.{◌>>=◌, ◌>>◌, done, Run, pure, fail}
use authmodules.Core.Ports.{Ports, PolicyCheck}
use authmodules.Core.Policy.{policy, now_or_fail, emit_event_at}
use authmodules.Core.Validation.{is_auth_context, is_non_empty_string}
use authmodules.Core.Sessions.Defs.{
  RevokeSessionInput, invalid_input, looked_up, on_exit, accepts_named, actor_may_revoke_session,
}

is_revoked : SessionStatus → Bool
is_revoked SessionStatus.revoked = true
is_revoked _ = false

accepts_revoked : Text → Text → SessionRecord → Bool
unfolding is_revoked accepts_named
accepts_revoked tenant_id session_id r = accepts_named tenant_id session_id r && is_revoked r.status

revoked_event : AuthContext → Text → Time → AuthEvent
revoked_event c session_id occurred_at = record {
  name = codes "auth.session.revoked";
  tenant_id = c.tenant_id;
  request_id = c.request_id;
  session_id = some session_id;
  method_id = none;
  challenge_id = none;
  occurred_at = occurred_at;
  outcome = EventOutcome.success;
  reason = none;
}

unfoldable pub is_revoke_session_input : RevokeSessionInput → Bool
is_revoke_session_input input =
    is_auth_context input.context && is_non_empty_string input.session_id

module _ {W : Type 0} where
  unfoldable pub find_named_session : Ports W → AuthContext → Text → Run W (Option SessionRecord)
  unfolding looked_up accepts_named
  find_named_session ports c session_id w =
      on_exit (looked_up c.request_id (accepts_named c.tenant_id session_id))
        (ports.find_session c.tenant_id session_id w)

  unfoldable pub revoke_at : Ports W → AuthContext → Text → Time → Run W (Option SessionRecord)
  unfolding looked_up accepts_revoked
  revoke_at ports c session_id revoked_at w =
      on_exit (looked_up c.request_id (accepts_revoked c.tenant_id session_id))
        (ports.revoke c.tenant_id session_id revoked_at w)

  -- `await emitEvent(…); return ok(undefined)`
  tell_revoked : Ports W → AuthContext → Text → Time → Run W (Unit {0})
  unfolding revoked_event emit_event_at
  tell_revoked ports c session_id revoked_at w =
      (done tt, emit_event_at ports (revoked_event c session_id) revoked_at w)

  -- The rest of `revokeSession`, on the session found under the id.
  unfoldable pub revoke_found :
      Ports W → AuthContext → Text → Option SessionRecord → Run W (Unit {0})
  unfolding revoke_at actor_may_revoke_session policy tell_revoked
  revoke_found ports c session_id none = pure tt
  revoke_found ports c session_id (some r) =
      if not (actor_may_revoke_session c.actor r) then pure tt else (do
        policy ports c (λ d. PolicyCheck.revoke_session d session_id (some (to_session_view r)))
        revoked_at ← now_or_fail ports c
        revoked ← revoke_at ports c session_id revoked_at
        tell_revoked ports c session_id revoked_at)

  unfoldable pub revoke_session : Ports W → RevokeSessionInput → Run W (Unit {0})
  unfolding find_named_session revoke_found is_revoke_session_input
  revoke_session ports input =
      if is_revoke_session_input input
      then (do
        now ← now_or_fail ports input.context
        existing ← find_named_session ports input.context input.session_id
        revoke_found ports input.context input.session_id existing)
      else fail (invalid_input input.context)
