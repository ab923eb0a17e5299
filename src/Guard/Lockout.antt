-- ===== src/Guard/Lockout.antt =====
-- The guard of packages/guard-memory locks out: failures in the window are counted.
use authmodules.Guard.Attempts.{
  is_retry_option, retry_or, remaining_seconds, GuardOptions, GuardState, are_options, attempt_key,
  before_attempt, decide, drop_oldest, recorded, compact, ensure_capacity, is_attempt_input, live,
  prune_expired, recent_of, recent_or_empty, record_failure, slice_last,
}
use authmodules.Prelude.{
  ℕ, suc, ◌+◌, ◌-◌, ◌*◌, ◌≤◌, ◌<◌, true, false, Option, none, some, List, [], ◌∷◌, ◌++◌, Text,
  text_discrete, leb, ltb, length, length-append, drop, ◌≡◌, refl, ap, ◌∙◌, arith, Bool-cases, inl,
  inr, All, ◌||◌,
}
use authmodules.JsMap.{Map, get, has, delete}
use authmodules.JsMap.Laws.{get-set_self, get-delete, none_of_not-has}
use authmodules.Contracts.Values.{Time}
use authmodules.Contracts.Errors.{Reason, Result, ok}
use authmodules.Contracts.Auth.{Attempt, DecisionAuthContext}
use authmodules.Core.Errors.{PublicAuthErrorCode}
use authmodules.Core.Ports.{GuardDecision}
use authmodules.Guard.Pruning.{live-prune_expired, length-prune_expired, length-live-le}

get-drop_oldest :
    (m : Map Text (List Time)) (key : Text)
    → has text_discrete key m ≡ false
    → get text_discrete key (drop_oldest m) ≡ get text_discrete key m
unfolding drop_oldest
get-drop_oldest [] key h = refl
get-drop_oldest ((k, ts) ∷ m) key h =
    let missing = none_of_not-has text_discrete key ((k, ts) ∷ m) h in
    ground (arith, get-delete text_discrete k key ((k, ts) ∷ m), missing)

-- Making room takes nothing of the key that the room is for.
get-ensure_capacity :
    (m : Map Text (List Time)) (key : Text) (max_keys : ℕ)
    → get text_discrete key (ensure_capacity m key max_keys) ≡ get text_discrete key m
unfolding ensure_capacity
get-ensure_capacity m key max_keys =
    elim (Bool-cases (has text_discrete key m || ltb (length m) max_keys)) [
      | inl fits ↦ rw fits refl
      | inr full ↦ rw full (get-drop_oldest m key (ground arith))
    ]

recent_of-compact :
    (o : GuardOptions) (key : Text) (s : GuardState) → recent_of key (compact o s) ≡ recent_of key s
unfolding recent_of compact
recent_of-compact o key s = elim (Bool-cases (ltb (o.max_keys * 4) (length s.expirations))) [
  | inl full ↦ rw full refl
  | inr fits ↦ rw fits refl
]

recent_of-recorded :
    (o : GuardOptions) (key : Text) (now : Time) (s : GuardState)
    → recent_of key (recorded o key now s) ≡ slice_last o.max_failures (recent_of key s ++ now ∷ [])
unfolding recent_of recorded
recent_of-recorded o key now s =
    let kept = ensure_capacity s.attempts key o.max_keys in
    let updated = λ (found : Option (List Time)).
      slice_last o.max_failures (recent_or_empty found ++ now ∷ []) in
    ap recent_or_empty (
      get-set_self text_discrete key (updated (get text_discrete key kept))
        (delete text_discrete key kept))
    ∙ ap updated (get-ensure_capacity s.attempts key o.max_keys)

-- A failure is recorded after the ones that pruning left, of which the last ones stay.
recent_of-record_failure :
    (o : GuardOptions) (key : Text) (now : Time) (s : GuardState)
    → recent_of key (record_failure o key now s)
      ≡ slice_last o.max_failures (recent_of key (prune_expired o.window_ms now s) ++ now ∷ [])
unfolding record_failure
recent_of-record_failure o key now s =
    let pruned = prune_expired o.window_ms now s in
    recent_of-compact o key (recorded o key now pruned) ∙ recent_of-recorded o key now pruned

slice_last-fits : (n : ℕ) (ts : List Time) → length ts ≤ n → slice_last n ts ≡ ts
unfolding slice_last
slice_last-fits n ts h = let e : length ts - n ≡ 0 = omega arith in ap (λ (k : ℕ). drop k ts) e

live-single : (window : ℕ) (now t : Time) → now < t + window → length (live window now (t ∷ [])) ≡ 1
unfolding live
live-single window now t h = ground arith

live-append :
    (window : ℕ) (now : Time) (a b : List Time)
    → live window now (a ++ b) ≡ live window now a ++ live window now b
unfolding live
live-append window now [] b = refl
live-append window now (t ∷ a) b = ground (arith, live-append window now a b)

-- The failures of the list are recorded one after the other.
pub record_failures : GuardOptions → Text → List Time → GuardState → GuardState
record_failures o key [] s = s
record_failures o key (t ∷ ts) s = record_failures o key ts (record_failure o key t s)

-- A time of a failure that is in the window at the later time.
abbrev pub InWindow : GuardOptions → Time → Time → Type 0
InWindow o later t = (t ≤ later) × (later < t + o.window_ms)

record_failure-counts :
    (o : GuardOptions) (key : Text) (t later : Time) (s : GuardState) (n : ℕ)
    → InWindow o later t
    → length (recent_of key s) ≤ n
    → n ≤ length (live o.window_ms later (recent_of key s))
    → n < o.max_failures
    → (length (recent_of key (record_failure o key t s)) ≤ suc n)
      × (suc n ≤ length (live o.window_ms later (recent_of key (record_failure o key t s))))
record_failure-counts o key t later s n within most least room =
    let kept = recent_of key (prune_expired o.window_ms t s) in
    let shorter = length-prune_expired o.window_ms t key s in
    let grown = length-append kept (t ∷ []) in
    let e : recent_of key (record_failure o key t s) ≡ kept ++ t ∷ [] =
      recent_of-record_failure o key t s
      ∙ slice_last-fits o.max_failures (kept ++ t ∷ []) (omega (arith, shorter, grown)) in
    let counted = ap (live o.window_ms later) e ∙ live-append o.window_ms later kept (t ∷ []) in
    (
      omega (arith, ap length e, shorter, grown),
      omega (
        arith,
        ap length counted,
        length-append (live o.window_ms later kept) (live o.window_ms later (t ∷ [])),
        live-single o.window_ms later t within.1,
        ap length (live-prune_expired o.window_ms t later key s within.0),
      ),
    )

record_failures-counts :
    (o : GuardOptions) (key : Text) (later : Time) (ts : List Time) (s : GuardState) (n : ℕ)
    → All (InWindow o later) ts
    → length (recent_of key s) ≤ n
    → n ≤ length (live o.window_ms later (recent_of key s))
    → n + length ts ≤ o.max_failures
    → n + length ts ≤ length (live o.window_ms later (recent_of key (record_failures o key ts s)))
unfolding record_failures
record_failures-counts o key later [] s n within most least room = omega arith
record_failures-counts o key later (t ∷ ts) s n (first, within) most least room =
    let (most', least') = record_failure-counts o key t later s n first most least (omega arith) in
    let rest =
      record_failures-counts o key later ts (record_failure o key t s) (suc n) within most' least'
        (omega arith) in
    omega (arith, rest)

remaining_seconds_pos :
    (window : ℕ) (now : Time) (recent : List Time) → 0 < remaining_seconds window now recent
unfolding remaining_seconds
remaining_seconds_pos window now [] = omega arith
remaining_seconds_pos window now (t ∷ ts) = ground arith

retry_or_pos :
    (configured : Option ℕ) (seconds : ℕ)
    → is_retry_option configured ≡ true
    → 0 < seconds
    → 0 < retry_or configured seconds
unfolding retry_or is_retry_option
retry_or_pos none seconds h pos = pos
retry_or_pos (some configured) seconds h pos = ground arith

retry-IsOption :
    (o : GuardOptions) → are_options o ≡ true → is_retry_option o.retry_after_seconds ≡ true
unfolding are_options
retry-IsOption o h = ground arith

-- A refusal of the guard: RATE_LIMITED, with a positive number of seconds to wait.
pub record IsLocked (d : Result Reason GuardDecision) : Type 0 where
  pub seconds : ℕ
  pub denied :
      d
      ≡ ok (
          GuardDecision.deny Reason.rate_limited
            (some PublicAuthErrorCode.rate_limited)
            (some seconds))
  pub positive : 0 < seconds

decide-IsLocked :
    (o : GuardOptions) (now : Time) (recent : List Time)
    → o.max_failures ≤ length recent
    → are_options o ≡ true
    → IsLocked (ok (decide o now recent))
unfolding decide
decide-IsLocked o now recent full valid =
    let e : leb o.max_failures (length recent) ≡ true = ground arith in
    record {
      seconds = retry_or o.retry_after_seconds (remaining_seconds o.window_ms now recent);
      denied = rw e refl;
      positive =
          retry_or_pos o.retry_after_seconds (remaining_seconds o.window_ms now recent)
            (retry-IsOption o valid) (remaining_seconds_pos o.window_ms now recent);
    }

-- With valid options, a key that holds as many failures in the window as the options allow is locked:
-- beforeAttempt answers RATE_LIMITED with a positive number of seconds to wait, whatever the heap
-- and the other keys hold.
pub before_attempt-IsLocked :
    (o : GuardOptions) (a : Attempt DecisionAuthContext) (now : Time) (s : GuardState)
    → are_options o ≡ true
    → is_attempt_input a ≡ true
    → o.max_failures ≤ length (live o.window_ms now (recent_of (attempt_key a) s))
    → IsLocked (before_attempt o a (some now) s).0
unfolding before_attempt
before_attempt-IsLocked o a now s valid input full =
    let pruned = prune_expired o.window_ms now s in
    let recent = recent_of (attempt_key a) pruned in
    rw input (
      decide-IsLocked o now recent
        (omega (
          arith,
          ap length (live-prune_expired o.window_ms now now (attempt_key a) s (omega arith)),
          length-live-le o.window_ms now recent,
        ))
        valid)

-- With valid options, and a key that holds no failure yet: after as many counted failures as the
-- options allow have been recorded for it, at times in the window of now and not later than now, in
-- any order, beforeAttempt on that key answers RATE_LIMITED with a positive number of seconds to
-- wait.
pub record_failures-IsLocked :
    (o : GuardOptions) (a : Attempt DecisionAuthContext) (now : Time) (ts : List Time)
    (s : GuardState)
    → are_options o ≡ true
    → is_attempt_input a ≡ true
    → recent_of (attempt_key a) s ≡ []
    → All (InWindow o now) ts
    → length ts ≡ o.max_failures
    → IsLocked (before_attempt o a (some now) (record_failures o (attempt_key a) ts s)).0
record_failures-IsLocked o a now ts s valid input empty within full =
    before_attempt-IsLocked o a now (record_failures o (attempt_key a) ts s) valid input (
      omega (
        arith,
        record_failures-counts o (attempt_key a) now ts s 0 within (omega (arith, ap length empty))
            (omega arith) (omega arith),
      ))
