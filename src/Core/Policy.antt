-- ===== src/Core/Policy.antt =====
-- packages/core/src/policy/check.ts and events/emit.ts, shared/time.ts, id.ts and context.ts: the
-- calls of the policy, of the event sink, of the clock and of the id generator.
use authmodules.Prelude.{Bool, true, false, Option, none, some, Text, codes, if◌then◌else◌}
use authmodules.Contracts.Values.{Time, Date, at}
use authmodules.Contracts.Errors.{Reason}
use authmodules.Contracts.Auth.{AuthContext, DecisionAuthContext, CoreIdKind, AuthEvent}
use authmodules.Core.Errors.{PublicAuthErrorCode, auth_err}
use authmodules.Core.Run.{Exit, done, failed, Run}
use authmodules.Core.Ports.{Ports, Reading, PolicyCheck, PolicyDecision}
use authmodules.Core.Validation.{is_non_empty_string, same}

-- `decisionAuthContext`: all but the metadata.
unfoldable pub decision_auth_context : AuthContext → DecisionAuthContext
decision_auth_context c = record {
  tenant_id = c.tenant_id;
  request_id = c.request_id;
  actor = c.actor;
  ip = c.ip;
  user_agent = c.user_agent;
  locale = c.locale;
  policy_input = c.policy_input;
}

-- `policyReasons.has(reason)`; one of them is no `CoreInternalAuthReason`.
unfoldable pub is_policy_reason : Reason → Bool
is_policy_reason Reason.account_linking_denied = true
is_policy_reason Reason.method_disabled = true
is_policy_reason Reason.policy_denied = true
is_policy_reason Reason.session_creation_denied = true
is_policy_reason Reason.tenant_disabled = true
is_policy_reason (Reason.extension t) = same t (codes "ACCOUNT_RESOLUTION_DENIED")
is_policy_reason _ = false

-- `hint ?? fallback`
abbrev pub hint_or : Option PublicAuthErrorCode → PublicAuthErrorCode → PublicAuthErrorCode
hint_or none fallback = fallback
hint_or (some code) fallback = code

-- What the core makes of the policy's answer.
unfoldable pub decided : Option Text → Reading PolicyDecision → Exit (Unit {0})
unfolding is_policy_reason
decided request_id (Reading.read PolicyDecision.allow) = done tt
decided request_id (Reading.read (PolicyDecision.deny reason hint)) = failed (
    if is_policy_reason reason
    then auth_err request_id reason (some (hint_or hint PublicAuthErrorCode.authorization_failed))
        none
    else auth_err request_id Reason.internal (some PublicAuthErrorCode.temporarily_unavailable)
        none)
decided request_id _ =
    failed
      (auth_err request_id Reason.internal (some PublicAuthErrorCode.temporarily_unavailable) none)

-- The finite timestamp of a date that the clock gave.
unfoldable pub timestamp : Reading Date → Option Time
timestamp (Reading.read (at t)) = some t
timestamp _ = none

unfoldable pub generated : Reading Text → Option Text
generated (Reading.read value) = if is_non_empty_string value then some value else none
generated _ = none

module _ {W : Type 0} where
  -- The call of the policy, where there is one.
  unfoldable pub ask :
      Option Text
      → PolicyCheck DecisionAuthContext
      → Option (PolicyCheck DecisionAuthContext → W → Reading PolicyDecision × W)
      → Run W (Unit {0})
  unfolding decided
  ask request_id check none w = (done tt, w)
  ask request_id check (some call) w =
      let (answer, w') = call check w in (decided request_id answer, w')

  -- `check` is given the context as the decision functions see it.
  unfoldable pub policy :
      Ports W
      → AuthContext
      → (DecisionAuthContext → PolicyCheck DecisionAuthContext)
      → Run W (Unit {0})
  unfolding ask decision_auth_context
  policy ports context check =
      ask context.request_id (check (decision_auth_context context)) ports.policy

  -- `readNow`: no exception, and no value where the clock gives no valid date.
  unfoldable pub read_now : Ports W → W → Option Time × W
  unfolding timestamp
  read_now ports w = let (answer, w') = ports.clock w in (timestamp answer, w')

  abbrev pub time_or_fail : Option Text → Option Time × W → Exit Time × W
  time_or_fail request_id (some t, w) = (done t, w)
  time_or_fail request_id (none, w) =
      (failed (auth_err request_id Reason.internal (some PublicAuthErrorCode.internal) none), w)

  -- `const now = readNow(config); if (!now) return authErr(context, 'INTERNAL', 'INTERNAL')`
  unfoldable pub now_or_fail : Ports W → AuthContext → Run W Time
  unfolding read_now
  now_or_fail ports context w = time_or_fail context.request_id (read_now ports w)

  abbrev pub id_or_fail : Option Text → Option Text × W → Exit Text × W
  id_or_fail request_id (some id, w) = (done id, w)
  id_or_fail request_id (none, w) =
      (failed (auth_err request_id Reason.internal (some PublicAuthErrorCode.internal) none), w)

  -- `generateCoreId`, and the failure of its callers where it answers nothing.
  unfoldable pub generate_core_id : Ports W → AuthContext → CoreIdKind → Time → Run W Text
  unfolding generated
  generate_core_id ports context kind now w =
      let (answer, w') = ports.generate kind context.tenant_id now w in
      id_or_fail context.request_id (generated answer, w')

  -- The event at the time given, which `emitEvent` reads from the clock where it is not given.
  deliver : Option (AuthEvent → W → W) → (Time → AuthEvent) → Option Time → W → W
  deliver (some emit) event (some t) w = emit (event t) w
  deliver _ event occurred_at w = w

  now_then_deliver : Ports W → Option (AuthEvent → W → W) → (Time → AuthEvent) → W → W
  unfolding read_now deliver
  now_then_deliver ports none event w = w
  now_then_deliver ports (some emit) event w =
      let (now, w') = read_now ports w in deliver (some emit) event now w'

  -- `emitEvent` with its `occurredAt` left out, and with it given.
  unfoldable pub emit_event : Ports W → (Time → AuthEvent) → W → W
  unfolding now_then_deliver
  emit_event ports event w = now_then_deliver ports ports.event_sink event w

  unfoldable pub emit_event_at : Ports W → (Time → AuthEvent) → Time → W → W
  unfolding deliver
  emit_event_at ports event occurred_at w = deliver ports.event_sink event (some occurred_at) w
