-- ===== src/Core/Attempts.antt =====
-- packages/core/src/attempts/guard.ts: the guard and the policy before an attempt, and what the
-- guard and the event sink are told after it.
pub mod Laws
use authmodules.Prelude.{
  ℕ, Bool, true, false, Option, none, some, Text, codes, if◌then◌else◌, ◌&&◌, ltb, leb,
}
use authmodules.Contracts.Values.{Time, max_safe_integer}
use authmodules.Contracts.Json.{Json}
use authmodules.Contracts.Errors.{Reason}
use authmodules.Contracts.Auth.{
  AuthContext, DecisionAuthContext, AuthOperationName, Attempt, AttemptOutcome, AuthEvent,
  EventOutcome,
}
use authmodules.Core.Errors.{
  PublicAuthErrorCode, auth_err, normalize_internal_reason, is_safe_reason,
}
use authmodules.Core.Run.{Exit, done, failed, thrown, Run}
use authmodules.Core.Ports.{Ports, AuthGuard, Answer, GuardDecision, PolicyCheck}
use authmodules.Core.Policy.{policy, decision_auth_context, emit_event, hint_or}

-- `countsAsAuthenticationFailure`; one of the names is no `CoreInternalAuthReason`.
unfoldable pub counts_as_authentication_failure : Reason → Bool
counts_as_authentication_failure Reason.credential_not_found = true
counts_as_authentication_failure Reason.identity_binding_mismatch = true
counts_as_authentication_failure Reason.identity_not_found = true
counts_as_authentication_failure Reason.otp_mismatch = true
counts_as_authentication_failure Reason.password_mismatch = true
counts_as_authentication_failure (Reason.extension t) =
    authmodules.Core.Validation.same t (codes "AUTHENTICATION_FAILED")
counts_as_authentication_failure _ = false

attempt_event_name : AuthOperationName → Bool → Text
attempt_event_name AuthOperationName.enroll true = codes "auth.enroll.succeeded"
attempt_event_name AuthOperationName.enroll false = codes "auth.enroll.failed"
attempt_event_name AuthOperationName.authenticate true = codes "auth.authenticate.succeeded"
attempt_event_name AuthOperationName.authenticate false = codes "auth.authenticate.failed"
attempt_event_name AuthOperationName.begin true = codes "auth.challenge.started"
attempt_event_name AuthOperationName.begin false = codes "auth.challenge.failed"
attempt_event_name _ true = codes "auth.challenge.completed"
attempt_event_name _ false = codes "auth.challenge.failed"

-- The attempt as the guard sees it.
unfoldable pub guarded_attempt : Attempt AuthContext → Attempt DecisionAuthContext
unfolding decision_auth_context
guarded_attempt a = record {
  context = decision_auth_context a.context;
  method = a.method;
  operation = a.operation;
  lookup = a.lookup;
  challenge_id = a.challenge_id;
}

-- Whether the attempt succeeded, and the reason that the event carries where not.
succeeded : AttemptOutcome → Bool
succeeded AttemptOutcome.success = true
succeeded (AttemptOutcome.failure reason counts) = false

event_outcome : AttemptOutcome → EventOutcome
event_outcome AttemptOutcome.success = EventOutcome.success
event_outcome (AttemptOutcome.failure reason counts) = EventOutcome.failure

outcome_reason : AttemptOutcome → Option Reason
outcome_reason AttemptOutcome.success = none
outcome_reason (AttemptOutcome.failure reason counts) = some reason

attempt_event : Attempt AuthContext → AttemptOutcome → Time → AuthEvent
unfolding attempt_event_name succeeded event_outcome outcome_reason
attempt_event a outcome occurred_at = record {
  name = attempt_event_name a.operation (succeeded outcome);
  tenant_id = a.context.tenant_id;
  request_id = a.context.request_id;
  session_id = none;
  method_id = some a.method.method_id;
  challenge_id = a.challenge_id;
  occurred_at = occurred_at;
  outcome = event_outcome outcome;
  reason = outcome_reason outcome;
}

started_name : AuthOperationName → Option Text
started_name AuthOperationName.enroll = some (codes "auth.enroll.started")
started_name AuthOperationName.authenticate = some (codes "auth.authenticate.started")
started_name _ = none

started_event : Attempt AuthContext → Text → Time → AuthEvent
started_event a name occurred_at = record {
  name = name;
  tenant_id = a.context.tenant_id;
  request_id = a.context.request_id;
  session_id = none;
  method_id = some a.method.method_id;
  challenge_id = none;
  occurred_at = occurred_at;
  outcome = EventOutcome.success;
  reason = none;
}

-- `publicCodeHint` of a guard is one of two codes.
is_guard_code : Option PublicAuthErrorCode → Bool
is_guard_code none = true
is_guard_code (some PublicAuthErrorCode.rate_limited) = true
is_guard_code (some PublicAuthErrorCode.temporarily_unavailable) = true
is_guard_code (some _) = false

is_retry : Option ℕ → Bool
is_retry none = true
is_retry (some seconds) = ltb 0 seconds && leb seconds max_safe_integer

unfoldable pub is_guard_decision : GuardDecision → Bool
unfolding is_guard_code is_retry is_safe_reason
is_guard_decision GuardDecision.allow = true
is_guard_decision (GuardDecision.deny reason hint retry) =
    is_safe_reason reason && (is_guard_code hint && is_retry retry)

-- What the core makes of the guard's answer: it allows, it denies, or `failAttempt` is told why.
pub data Guarded : Type 0 where
  allows : Guarded
  denies : Reason → Option PublicAuthErrorCode → Option ℕ → Guarded
  fails : Reason → Guarded

read_guard : Answer GuardDecision → Guarded
unfolding is_guard_decision is_safe_reason
read_guard (Answer.answered GuardDecision.allow) = Guarded.allows
read_guard (Answer.answered (GuardDecision.deny reason hint retry)) =
    if is_guard_decision (GuardDecision.deny reason hint retry)
    then Guarded.denies reason hint retry
    else Guarded.fails Reason.internal
read_guard (Answer.refused reason) =
    if is_safe_reason reason then Guarded.fails reason else Guarded.fails Reason.internal
read_guard _ = Guarded.fails Reason.internal

module _ {W : Type 0} where
  tell_guard : Option (AuthGuard W) → Attempt AuthContext → AttemptOutcome → W → W
  unfolding guarded_attempt
  tell_guard none a outcome w = w
  tell_guard (some guard) a outcome w = guard.after_attempt (guarded_attempt a) outcome w

  -- `afterAttempt`, with its `countsAsAttempt` in the outcome.
  unfoldable pub after_attempt : Ports W → Attempt AuthContext → AttemptOutcome → W → W
  unfolding tell_guard attempt_event
  after_attempt ports a outcome w =
      emit_event ports (attempt_event a outcome) (tell_guard ports.guard a outcome w)

  -- `failAttempt`, with its `countsAsAttempt` given.
  unfoldable pub fail_attempt_counting :
      {A : Type 0}
      → Ports W
      → Attempt AuthContext
      → Reason
      → Option PublicAuthErrorCode
      → Bool
      → Run W A
  unfolding after_attempt auth_err normalize_internal_reason
  fail_attempt_counting ports a reason code counts w =
      let safe_reason = normalize_internal_reason reason Reason.internal in
      (
        failed (auth_err a.context.request_id safe_reason code none),
        after_attempt ports a (AttemptOutcome.failure safe_reason counts) w,
      )

  unfoldable pub fail_attempt :
      {A : Type 0} → Ports W → Attempt AuthContext → Reason → Option PublicAuthErrorCode → Run W A
  unfolding fail_attempt_counting counts_as_authentication_failure
  fail_attempt ports a reason code =
      fail_attempt_counting ports a reason code (counts_as_authentication_failure reason)

  emit_started : Ports W → Attempt AuthContext → Option Text → W → W
  unfolding started_event emit_event
  emit_started ports a none w = w
  emit_started ports a (some name) w = emit_event ports (started_event a name) w

  -- The rest of `acceptStart`, on the answer of the policy: without a guard, and with one.
  after_policy : Ports W → Attempt AuthContext → Exit (Unit {0}) × W → Exit (Unit {0}) × W
  unfolding emit_started started_name
  after_policy ports a (done u, w) = (done u, emit_started ports a (started_name a.operation) w)
  after_policy ports a (failed e, w) = (failed e, w)
  after_policy ports a (thrown, w) = (thrown, w)

  after_guarded_policy : Ports W → Attempt AuthContext → Exit (Unit {0}) × W → Exit (Unit {0}) × W
  unfolding emit_started started_name after_attempt counts_as_authentication_failure
  after_guarded_policy ports a (done u, w) =
      (done u, emit_started ports a (started_name a.operation) w)
  after_guarded_policy ports a (failed e, w) =
      let reason = e.internal_reason in
      let counts = counts_as_authentication_failure reason in
      (failed e, after_attempt ports a (AttemptOutcome.failure reason counts) w)
  after_guarded_policy ports a (thrown, w) = (thrown, w)

  start_policy : Ports W → Attempt AuthContext → Option Json → Run W (Unit {0})
  unfolding policy
  start_policy ports a public_data =
      policy ports a.context
        (λ c. PolicyCheck.start_attempt c a.method a.operation a.lookup public_data)

  after_guard : Ports W → Attempt AuthContext → Option Json → Guarded → Run W (Unit {0})
  unfolding after_guarded_policy start_policy fail_attempt
  after_guard ports a public_data Guarded.allows w =
      after_guarded_policy ports a (start_policy ports a public_data w)
  after_guard ports a public_data (Guarded.denies reason hint retry) w =
      let counts = counts_as_authentication_failure reason in
      let code = hint_or hint PublicAuthErrorCode.rate_limited in
      (
        failed (auth_err a.context.request_id reason (some code) retry),
        after_attempt ports a (AttemptOutcome.failure reason counts) w,
      )
  after_guard ports a public_data (Guarded.fails reason) w =
      fail_attempt ports a reason (some PublicAuthErrorCode.temporarily_unavailable) w

  accept_with :
      Ports W → Attempt AuthContext → Option Json → Option (AuthGuard W) → Run W (Unit {0})
  unfolding after_guard after_policy start_policy read_guard guarded_attempt
  accept_with ports a public_data none w = after_policy ports a (start_policy ports a public_data w)
  accept_with ports a public_data (some guard) w =
      let (answer, w') = guard.before_attempt (guarded_attempt a) w in
      after_guard ports a public_data (read_guard answer) w'

  unfoldable pub accept_start : Ports W → Attempt AuthContext → Option Json → Run W (Unit {0})
  unfolding accept_with
  accept_start ports a public_data = accept_with ports a public_data ports.guard
