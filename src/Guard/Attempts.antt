-- ===== src/Guard/Attempts.antt =====
-- packages/guard-memory/src/guard: the options, the input tests, and the two methods of the guard
-- on its map of attempts and its heap of expirations.
use authmodules.Prelude.{
  ℕ, zero, suc, ◌+◌, ◌-◌, ◌*◌, ◌/◌, Bool, true, false, ◌&&◌, ◌||◌, Option, none, some, List, [],
  ◌∷◌, ◌++◌, Text, codes, text_discrete, leb, ltb, if◌then◌else◌, length, drop,
}
use authmodules.JsMap.{Map, get, has, set, delete}
use authmodules.Contracts.Values.{Time, is_safe_text, max_safe_integer}
use authmodules.Contracts.Json.{Json, Items}
use authmodules.Contracts.Json.Print.{stringify}
use authmodules.Contracts.Errors.{Reason, Result, ok, err}
use authmodules.Contracts.Records.{IdentityLookup}
use authmodules.Contracts.Auth.{Attempt, AttemptOutcome, AuthOperationName, DecisionAuthContext}
use authmodules.Core.Errors.{PublicAuthErrorCode, is_safe_reason}
use authmodules.Core.Ports.{GuardDecision}
use authmodules.Guard.Heap.{Expiration, Heap, heap_push, heap_pop}

-- The resolved options.
pub record GuardOptions : Type 0 where
  pub max_failures : ℕ
  pub window_ms : ℕ
  pub retry_after_seconds : Option ℕ
  pub max_keys : ℕ

unfoldable pub is_retry_option : Option ℕ → Bool
is_retry_option none = true
is_retry_option (some seconds) = leb seconds max_safe_integer && ltb 0 seconds

value_or : Option ℕ → ℕ → ℕ
value_or none default = default
value_or (some value) default = value

-- The options of `createMemoryAttemptGuard`, with its defaults; the time provider is a parameter of
-- each call.
unfoldable pub resolve_options : Option ℕ → Option ℕ → Option ℕ → Option ℕ → GuardOptions
unfolding value_or
resolve_options max_failures window_seconds retry_after_seconds max_keys = record {
  max_failures = value_or max_failures 5;
  window_ms = value_or window_seconds 60 * 1000;
  retry_after_seconds = retry_after_seconds;
  max_keys = value_or max_keys 10000;
}

-- `assertOptions`, which throws where this is false.
unfoldable pub are_options : GuardOptions → Bool
unfolding is_retry_option
are_options o =
    (ltb 0 o.max_failures && leb o.max_failures 1000)
    && ((leb o.window_ms max_safe_integer && ltb 0 o.window_ms)
        && (is_retry_option o.retry_after_seconds && (ltb 0 o.max_keys && leb o.max_keys 100_000)))

pub record GuardState : Type 0 where
  pub attempts : Map Text (List Time)
  pub expirations : Heap

is_attempt_operation : AuthOperationName → Bool
is_attempt_operation AuthOperationName.get_session = false
is_attempt_operation AuthOperationName.revoke_session = false
is_attempt_operation _ = true

is_challenge : Option Text → Bool
is_challenge none = true
is_challenge (some id) = is_safe_text id 512 true

is_lookup : Option IdentityLookup → Bool
is_lookup none = true
is_lookup (some i) =
    is_safe_text i.method_id 512 true
    && (is_safe_text i.method_kind 512 true
        && (is_safe_text i.subject_kind 512 true && is_safe_text i.subject 2048 true))

unfoldable pub is_attempt_input : Attempt DecisionAuthContext → Bool
unfolding is_attempt_operation is_challenge is_lookup
is_attempt_input a =
    is_safe_text a.context.tenant_id 512 true
    && (is_attempt_operation a.operation
        && (is_challenge a.challenge_id
            && (is_safe_text a.method.method_id 512 true
                && (is_safe_text a.method.method_kind 512 true && is_lookup a.lookup))))

unfoldable pub is_outcome : AttemptOutcome → Bool
is_outcome AttemptOutcome.success = true
is_outcome (AttemptOutcome.failure reason counts) = is_safe_reason reason

operation_name : AuthOperationName → Text
operation_name AuthOperationName.enroll = codes "enroll"
operation_name AuthOperationName.authenticate = codes "authenticate"
operation_name AuthOperationName.begin = codes "begin"
operation_name AuthOperationName.complete = codes "complete"
operation_name AuthOperationName.get_session = codes "getSession"
operation_name AuthOperationName.revoke_session = codes "revokeSession"

-- A missing entry of the array is printed as `null`.
text_or_null : Option Text → Json
text_or_null none = Json.null
text_or_null (some t) = Json.text t

lookup_items : Option IdentityLookup → Items
lookup_items none =
    Items.cons Json.null
      (Items.cons Json.null (Items.cons Json.null (Items.cons Json.null Items.nil)))
lookup_items (some i) = Items.cons (Json.text i.method_id) (
    Items.cons (Json.text i.method_kind)
      (Items.cons (Json.text i.subject_kind) (Items.cons (Json.text i.subject) Items.nil)))

unfoldable pub attempt_key : Attempt DecisionAuthContext → Text
unfolding operation_name text_or_null lookup_items
attempt_key a = stringify (
    Json.arr (
      Items.cons (Json.text a.context.tenant_id) (
        Items.cons (Json.text (operation_name a.operation)) (
          Items.cons (text_or_null a.challenge_id) (
            Items.cons (Json.text a.method.method_id)
              (Items.cons (Json.text a.method.method_kind) (lookup_items a.lookup)))))))

-- `now - timestamp < windowMs`
abbrev pub is_live : ℕ → Time → Time → Bool
is_live window now timestamp = ltb now (timestamp + window)

unfoldable pub live : ℕ → Time → List Time → List Time
live window now [] = []
live window now (t ∷ ts) =
    let rest = live window now ts in if is_live window now t then t ∷ rest else rest

-- `timestamps[0] + windowMs > now`
abbrev pub starts_live : ℕ → Time → List Time → Bool
starts_live window now [] = false
starts_live window now (t ∷ ts) = is_live window now t

-- What a round of `pruneExpired` makes of the timestamps that are left under the key.
unfoldable pub keep_recent : ℕ → Text → List Time → GuardState → GuardState
keep_recent window key [] s = record s { attempts = delete text_discrete key s.attempts }
keep_recent window key (t ∷ ts) s = record {
  attempts = set text_discrete key (t ∷ ts) s.attempts;
  expirations = heap_push s.expirations (record { key = key; expires_at = t + window });
}

-- A round on the timestamps found under the key of the entry that was popped.
unfoldable pub prune_key : ℕ → Time → Text → Option (List Time) → GuardState → GuardState
unfolding live keep_recent
prune_key window now key none s = s
prune_key window now key (some timestamps) s =
    if starts_live window now timestamps
    then s
    else keep_recent window key (live window now timestamps) s

unfoldable pub prune_popped : ℕ → Time → Expiration → GuardState → GuardState
unfolding prune_key
prune_popped window now expired s =
    prune_key window now expired.key (get text_discrete expired.key s.attempts) s

-- The round of `pruneExpired`, on the heap that is not empty.
unfoldable pub prune_round : ℕ → Time → GuardState → Expiration → Heap → GuardState
unfolding prune_popped heap_pop
prune_round window now s first rest =
    prune_popped window now first (record s { expirations = (heap_pop (first ∷ rest)).1 })

-- `pruneExpired` on fuel: the heap as it stands is matched for its first entry.
unfoldable pub prune_loop : ℕ → ℕ → Time → GuardState → Heap → GuardState
unfolding prune_round
prune_loop zero window now s heap = s
prune_loop (suc fuel) window now s [] = s
prune_loop (suc fuel) window now s (first ∷ rest) = elim (leb first.expires_at now) [
  | false ↦ s
  | true ↦
      let next = prune_round window now s first rest in
      prune_loop fuel window now next next.expirations
]

unfoldable pub prune_expired : ℕ → Time → GuardState → GuardState
unfolding prune_loop
prune_expired window now s = prune_loop (suc (length s.expirations)) window now s s.expirations

-- `attempts.get(key) ?? []`
unfoldable pub recent_or_empty : Option (List Time) → List Time
recent_or_empty none = []
recent_or_empty (some ts) = ts

unfoldable pub recent_of : Text → GuardState → List Time
unfolding recent_or_empty
recent_of key s = recent_or_empty (get text_discrete key s.attempts)

-- Math.max(1, Math.ceil((recent[0] + windowMs - now) / 1000))
unfoldable pub remaining_seconds : ℕ → Time → List Time → ℕ
remaining_seconds window now [] = 1
remaining_seconds window now (t ∷ ts) =
    let seconds = (t + window - now + 999) / 1000 in if leb 1 seconds then seconds else 1

unfoldable pub retry_or : Option ℕ → ℕ → ℕ
retry_or none seconds = seconds
retry_or (some configured) seconds = configured

-- `beforeAttempt` from the timestamps of the key.
unfoldable pub decide : GuardOptions → Time → List Time → GuardDecision
unfolding remaining_seconds retry_or
decide o now recent =
    if leb o.max_failures (length recent)
    then GuardDecision.deny Reason.rate_limited (some PublicAuthErrorCode.rate_limited)
        (some (retry_or o.retry_after_seconds (remaining_seconds o.window_ms now recent)))
    else GuardDecision.allow

-- The time is `none` where the provider throws or gives no finite number.
unfoldable pub before_attempt :
    GuardOptions
    → Attempt DecisionAuthContext
    → Option Time
    → GuardState
    → Result Reason GuardDecision × GuardState
unfolding is_attempt_input attempt_key decide recent_of prune_expired
before_attempt o a none s =
    (err (if is_attempt_input a then Reason.internal else Reason.validation_failed), s)
before_attempt o a (some now) s =
    let pruned = prune_expired o.window_ms now s in
    if is_attempt_input a
    then (ok (decide o now (recent_of (attempt_key a) pruned)), pruned)
    else (err Reason.validation_failed, s)

-- The key at the front of the map, which was set the longest ago.
unfoldable pub drop_oldest : Map Text (List Time) → Map Text (List Time)
drop_oldest [] = []
drop_oldest ((key, ts) ∷ rest) = delete text_discrete key ((key, ts) ∷ rest)

unfoldable pub ensure_capacity : Map Text (List Time) → Text → ℕ → Map Text (List Time)
unfolding drop_oldest
ensure_capacity attempts key max_keys =
    if has text_discrete key attempts || ltb (length attempts) max_keys
    then attempts
    else drop_oldest attempts

-- `values.slice(-n)` for a positive n
unfoldable pub slice_last : ℕ → List Time → List Time
slice_last n ts = drop (length ts - n) ts

unfoldable pub rebuild_from : ℕ → Map Text (List Time) → Heap → Heap
rebuild_from window [] heap = heap
rebuild_from window ((key, []) ∷ rest) heap = rebuild_from window rest heap
rebuild_from window ((key, t ∷ ts) ∷ rest) heap =
    rebuild_from window rest (heap_push heap (record { key = key; expires_at = t + window }))

unfoldable pub rebuild_expirations : ℕ → Map Text (List Time) → Heap
unfolding rebuild_from
rebuild_expirations window attempts = rebuild_from window attempts []

-- The expiry of the timestamps kept under a key; `updated` is not empty.
unfoldable pub pushed : ℕ → Text → List Time → Heap → Heap
pushed window key [] heap = heap
pushed window key (t ∷ ts) heap = heap_push heap (record { key = key; expires_at = t + window })

-- `if (expirations.length > maxKeys * 4) expirations = rebuildExpirations(…)`
unfoldable pub compact : GuardOptions → GuardState → GuardState
unfolding rebuild_expirations
compact o s =
    if ltb (o.max_keys * 4) (length s.expirations)
    then record s { expirations = rebuild_expirations o.window_ms s.attempts }
    else s

-- The failure, recorded on the state that `pruneExpired` left.
unfoldable pub recorded : GuardOptions → Text → Time → GuardState → GuardState
unfolding ensure_capacity recent_or_empty slice_last pushed
recorded o key now pruned =
    let kept = ensure_capacity pruned.attempts key o.max_keys in
    let recent = recent_or_empty (get text_discrete key kept) in
    let updated = slice_last o.max_failures (recent ++ now ∷ []) in
    record {
      attempts = set text_discrete key updated (delete text_discrete key kept);
      expirations = pushed o.window_ms key updated pruned.expirations;
    }

-- A failure that counts, at the time given.
unfoldable pub record_failure : GuardOptions → Text → Time → GuardState → GuardState
unfolding prune_expired recorded compact
record_failure o key now s = compact o (recorded o key now (prune_expired o.window_ms now s))

-- `afterAttempt` on an input that is valid, by its outcome.
unfoldable pub after_valid :
    GuardOptions
    → Text
    → AttemptOutcome
    → Option Time
    → GuardState
    → Result Reason (Unit {0}) × GuardState
unfolding record_failure
after_valid o key AttemptOutcome.success now s =
    (ok tt, record s { attempts = delete text_discrete key s.attempts })
after_valid o key (AttemptOutcome.failure reason false) now s = (ok tt, s)
after_valid o key (AttemptOutcome.failure reason true) none s = (err Reason.internal, s)
after_valid o key (AttemptOutcome.failure reason true) (some now) s =
    (ok tt, record_failure o key now s)

unfoldable pub after_attempt :
    GuardOptions
    → Attempt DecisionAuthContext
    → AttemptOutcome
    → Option Time
    → GuardState
    → Result Reason (Unit {0}) × GuardState
unfolding is_attempt_input is_outcome attempt_key after_valid
after_attempt o a outcome now s =
    if is_attempt_input a && is_outcome outcome
    then after_valid o (attempt_key a) outcome now s
    else (err Reason.validation_failed, s)
