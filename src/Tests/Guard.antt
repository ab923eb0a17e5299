-- ===== src/Tests/Guard.antt =====
-- The guard that keeps its failures in memory, at two failures in a minute.
use authmodules.Prelude.{List, true, none, some, [], ◌∷◌, codes, ◌≡◌, refl, arith}
use authmodules.Contracts.Auth.{AttemptOutcome, Attempt, AuthOperationName, DecisionAuthContext}
use authmodules.Contracts.Errors.{Reason}
use authmodules.Guard.Bounds.{run-KeepsBounds, run, KeepsBounds, GuardCall}
use authmodules.Guard.Attempts.{
  GuardOptions, GuardState, are_options, is_attempt_input, attempt_key, before_attempt, recent_of,
  prune_expired, live,
}
use authmodules.Guard.Pruning.{Settled, prune_expired-Settled, live-prune_expired}
use authmodules.Guard.Lockout.{IsLocked, record_failures, record_failures-IsLocked}

abbrev options : GuardOptions
options = record { max_failures = 2; window_ms = 60_000; retry_after_seconds = none; max_keys = 10 }

abbrev attempt : Attempt DecisionAuthContext
attempt = record {
  context = record {
    tenant_id = codes "t";
    request_id = none;
    actor = none;
    ip = none;
    user_agent = none;
    locale = none;
    policy_input = none;
  };
  method = record { method_id = codes "m"; method_kind = codes "k" };
  operation = AuthOperationName.authenticate;
  lookup = none;
  challenge_id = none;
}

abbrev fresh : GuardState
fresh = record { attempts = []; expirations = [] }

options_valid : are_options options ≡ true
unfolding are_options
options_valid = refl

attempt_valid : is_attempt_input attempt ≡ true
unfolding is_attempt_input authmodules.Contracts.Values.is_safe_text
attempt_valid = refl

nothing_yet : recent_of (attempt_key attempt) fresh ≡ []
unfolding recent_of authmodules.JsMap.get
nothing_yet = refl

record_failures-IsLocked_example :
    IsLocked
      (before_attempt options attempt
        (some 70_000)
        (record_failures options (attempt_key attempt) (20_000 ∷ 65_000 ∷ []) fresh)).0
record_failures-IsLocked_example =
    record_failures-IsLocked options attempt 70_000 (20_000 ∷ 65_000 ∷ []) fresh options_valid
      attempt_valid nothing_yet (omega arith) refl

-- Two keys, of which the first has expired.
abbrev two_keys : GuardState
two_keys = record {
  attempts = (codes "x", 5_000 ∷ 8_000 ∷ []) ∷ (codes "y", 30_000 ∷ []) ∷ [];
  expirations =
      record { key = codes "x"; expires_at = 65_000 }
      ∷ record { key = codes "y"; expires_at = 90_000 }
      ∷ [];
}

prune_expired-Settled_example :
    Settled 60_000 66_000 (prune_expired 60_000 66_000 two_keys).expirations
prune_expired-Settled_example = prune_expired-Settled 60_000 66_000 two_keys

live-prune_expired_example :
    live 60_000 67_000 (recent_of (codes "x") (prune_expired 60_000 66_000 two_keys))
    ≡ live 60_000 67_000 (recent_of (codes "x") two_keys)
live-prune_expired_example =
    live-prune_expired 60_000 66_000 67_000 (codes "x") two_keys (omega arith)

-- The state of the failures, computed.
pruned_by_hand : recent_of (codes "x") (prune_expired 60_000 66_000 two_keys) ≡ 8_000 ∷ []
unfolding recent_of prune_expired authmodules.JsMap.get authmodules.Prelude.text_discrete
    authmodules.Guard.Heap.heap_push authmodules.Guard.Heap.set authmodules.Guard.Heap.get_or
    authmodules.JsMap.set
pruned_by_hand = refl

abbrev calls : List GuardCall
calls =
    GuardCall.after attempt (AttemptOutcome.failure Reason.password_mismatch true) (some 20_000)
    ∷ GuardCall.before attempt (some 30_000)
    ∷ GuardCall.after attempt (AttemptOutcome.failure Reason.password_mismatch true) (some 90_000)
    ∷ []

run-KeepsBounds_example : KeepsBounds options (run options calls two_keys)
run-KeepsBounds_example = run-KeepsBounds options calls two_keys (omega arith) (omega arith)
