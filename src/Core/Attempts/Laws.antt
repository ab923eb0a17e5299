-- ===== src/Core/Attempts/Laws.antt =====
-- acceptStart with a guard: what it answers, and what the guard is told.
use authmodules.Prelude.{
  Bool, Option, none, some, Text, ◌≡◌, refl, ap, sym, ◌⊎◌, inl, inr, Bool-cases, arith,
}
use mathlib.Core.Path.{subst}
use authmodules.Contracts.Json.{Json}
use authmodules.Contracts.Errors.{Reason}
use authmodules.Contracts.Auth.{AuthContext, DecisionAuthContext, Attempt, AttemptOutcome}
use authmodules.Core.Errors.{AuthFailure, normalize_internal_reason, is_safe_reason}
use authmodules.Core.Run.{Exit, done, failed, thrown}
use authmodules.Core.Ports.{
  Ports, AuthGuard, Answer, GuardDecision, PolicyCheck, PolicyDecision, Reading,
}
use authmodules.Core.Policy.{policy, decided, ask}
use authmodules.Core.Attempts.{
  accept_start, accept_with, after_guard, after_guarded_policy, after_attempt, start_policy,
  read_guard, Guarded, guarded_attempt, fail_attempt, is_guard_decision,
  counts_as_authentication_failure, emit_started, started_name,
}

abbrev Settles : {A W : Type 0} → Exit A × W → Type 0
Settles (done a, w) = Unit
Settles (failed e, w) = Unit
Settles (thrown, w) = ⊥

decided-Settles :
    {W : Type 0} (request_id : Option Text) (r : Reading PolicyDecision) (w : W)
    → Settles (decided request_id r, w)
unfolding decided
decided-Settles request_id (Reading.read PolicyDecision.allow) w = tt
decided-Settles request_id (Reading.read (PolicyDecision.deny reason hint)) w = tt
decided-Settles request_id Reading.threw w = tt
decided-Settles request_id Reading.misshapen w = tt

read_guard-allows :
    (answer : Answer GuardDecision)
    → read_guard answer ≡ Guarded.allows
    → answer ≡ Answer.answered GuardDecision.allow
unfolding read_guard
read_guard-allows (Answer.answered GuardDecision.allow) h = refl
read_guard-allows (Answer.answered (GuardDecision.deny reason hint retry)) h =
    elim (Bool-cases (is_guard_decision (GuardDecision.deny reason hint retry))) [
      | inl e ↦ absurd (ground arith)
      | inr e ↦ absurd (ground arith)
    ]
read_guard-allows (Answer.refused reason) h = elim (Bool-cases (is_safe_reason reason)) [
  | inl e ↦ absurd (ground arith)
  | inr e ↦ absurd (ground arith)
]
read_guard-allows Answer.threw h = absurd (cc)
read_guard-allows Answer.misshapen h = absurd (cc)

module _ {W : Type 0} where
  -- A success, where the guard allowed the attempt; or a failure, of which the guard and the event
  -- sink were told at last.
  abbrev pub Reported :
      Ports W → Attempt AuthContext → Answer GuardDecision → Exit (Unit {0}) × W → Type 0
  Reported ports a answer r =
      (((w' : W) × (r ≡ (done tt, w'))) × (answer ≡ Answer.answered GuardDecision.allow))
      ⊎ ((e : AuthFailure) × (reason : Reason) × (counts : Bool) × (v : W) × (r
            ≡ (failed e, after_attempt ports a (AttemptOutcome.failure reason counts) v)))

  ask-Settles :
      (request_id : Option Text) (check : PolicyCheck DecisionAuthContext)
      (call : Option (PolicyCheck DecisionAuthContext → W → Reading PolicyDecision × W)) (w : W)
      → Settles (ask request_id check call w)
  unfolding ask
  ask-Settles request_id check none w = tt
  ask-Settles request_id check (some call) w =
      decided-Settles request_id (call check w).0 (call check w).1

  start_policy-Settles :
      (ports : Ports W) (a : Attempt AuthContext) (public_data : Option Json) (w : W)
      → Settles (start_policy ports a public_data w)
  unfolding start_policy policy
  start_policy-Settles ports a public_data w = ask-Settles _ _ ports.policy w

  after_guarded_policy-Reported :
      (ports : Ports W) (a : Attempt AuthContext) (answer : Answer GuardDecision)
      (p : Exit (Unit {0}) × W)
      → Settles p
      → answer ≡ Answer.answered GuardDecision.allow
      → Reported ports a answer (after_guarded_policy ports a p)
  unfolding after_guarded_policy
  after_guarded_policy-Reported ports a answer (done tt, w) s allowed =
      inl ((emit_started ports a (started_name a.operation) w, refl), allowed)
  after_guarded_policy-Reported ports a answer (failed e, w) s allowed =
      inr (e, e.internal_reason, counts_as_authentication_failure e.internal_reason, w, refl)
  after_guarded_policy-Reported ports a answer (thrown, w) s allowed = absurd s

  after_guard-Reported :
      (ports : Ports W) (a : Attempt AuthContext) (public_data : Option Json)
      (answer : Answer GuardDecision) (g : Guarded) (w : W)
      → read_guard answer ≡ g
      → Reported ports a answer (after_guard ports a public_data g w)
  unfolding after_guard fail_attempt
  after_guard-Reported ports a public_data answer Guarded.allows w e =
      after_guarded_policy-Reported ports a answer (start_policy ports a public_data w)
        (start_policy-Settles ports a public_data w) (read_guard-allows answer e)
  after_guard-Reported ports a public_data answer (Guarded.denies reason hint retry) w e =
      inr (_, reason, counts_as_authentication_failure reason, w, refl)
  after_guard-Reported ports a public_data answer (Guarded.fails reason) w e = inr (
    _,
    normalize_internal_reason reason Reason.internal,
    counts_as_authentication_failure reason,
    w,
    refl,
  )

  accept_with-Reported :
      (ports : Ports W) (a : Attempt AuthContext) (public_data : Option Json) (guard : AuthGuard W)
      (w : W)
      → Reported ports a
          (guard.before_attempt (guarded_attempt a) w).0
          (accept_with ports a public_data (some guard) w)
  unfolding accept_with
  accept_with-Reported ports a public_data guard w =
      let reply = guard.before_attempt (guarded_attempt a) w in
      after_guard-Reported ports a public_data reply.0 (read_guard reply.0) reply.1 refl

  -- With a guard, and whatever the ports do, acceptStart either succeeds, and the guard answered that
  -- it allows the attempt; or it fails, and the last that it does is to tell the guard and the event
  -- sink of a failed attempt. No exception leaves it.
  pub accept_start-Reported :
      (ports : Ports W) (a : Attempt AuthContext) (public_data : Option Json) (guard : AuthGuard W)
      (w : W)
      → ports.guard ≡ some guard
      → Reported ports a
          (guard.before_attempt (guarded_attempt a) w).0
          (accept_start ports a public_data w)
  unfolding accept_start
  accept_start-Reported ports a public_data guard w e =
      subst (Reported ports a (guard.before_attempt (guarded_attempt a) w).0)
        (ap (λ g. accept_with ports a public_data g w) (sym e))
        (accept_with-Reported ports a public_data guard w)
