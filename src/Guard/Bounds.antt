-- ===== src/Guard/Bounds.antt =====
-- How much the guard of packages/guard-memory keeps.
use authmodules.Prelude.{
  ◌&&◌, ℕ, zero, suc, ◌+◌, ◌-◌, ◌*◌, ◌≤◌, ◌<◌, true, false, Option, none, some, List, [], ◌∷◌, ◌++◌,
  Text, text_discrete, ltb, length, drop, ◌≡◌, refl, ap, sym, arith, Bool-cases, inl, inr, ◌||◌,
}
use authmodules.Guard.Attempts.{
  attempt_key, is_outcome, is_attempt_input, starts_live, GuardOptions, GuardState, after_attempt,
  after_valid, before_attempt, compact, drop_oldest, ensure_capacity, keep_recent, live,
  prune_expired, prune_key, prune_loop, prune_popped, prune_round, pushed, rebuild_expirations,
  rebuild_from, record_failure, recorded, recent_or_empty, slice_last,
}
use mathlib.Core.Path.{subst}
use authmodules.JsMap.{Map, get, has, set, delete}
use authmodules.JsMap.Laws.{has_of_some}
use authmodules.Contracts.Values.{Time}
use authmodules.Contracts.Auth.{Attempt, AttemptOutcome, DecisionAuthContext}
use authmodules.Guard.Heap.{Expiration, Heap, heap_push, heap_pop}
use authmodules.Guard.Heap.Laws.{count, count-heap_push, count-heap_pop}
use authmodules.Guard.Pruning.{length-live-le, is_due, prune_loop-due, prune_loop-later}

abbrev Attempts : Type 0
Attempts = Map Text (List Time)

count-true : (heap : Heap) → count (λ e. true) heap ≡ length heap
unfolding count
count-true [] = refl
count-true (e ∷ heap) = omega (arith, count-true heap)

length-heap_push : (heap : Heap) (e : Expiration) → length (heap_push heap e) ≡ length heap + 1
length-heap_push heap e =
    omega
      (arith, count-true (heap_push heap e), count-true heap, count-heap_push (λ x. true) heap e)

length-heap_pop :
    (first : Expiration) (rest : Heap) → length (heap_pop (first ∷ rest)).1 ≡ length rest
length-heap_pop first rest = omega (
  arith,
  count-true (heap_pop (first ∷ rest)).1,
  count-true (first ∷ rest),
  count-heap_pop (λ x. true) first rest,
)

length-delete-le : (k : Text) (m : Attempts) → length (delete text_discrete k m) ≤ length m
unfolding delete
length-delete-le k [] = omega arith
length-delete-le k ((j, ts) ∷ m) = ground (arith, length-delete-le k m)

length-delete-lt :
    (k : Text) (m : Attempts)
    → has text_discrete k m ≡ true
    → length (delete text_discrete k m) < length m
unfolding delete has
length-delete-lt k [] h = absurd (cc)
length-delete-lt k ((j, ts) ∷ m) h = ground (arith, length-delete-le k m, length-delete-lt k m)

has-first : (k : Text) (ts : List Time) (m : Attempts) → has text_discrete k ((k, ts) ∷ m) ≡ true
unfolding has
has-first k ts m = ground arith

length-set-le :
    (k : Text) (v : List Time) (m : Attempts) → length (set text_discrete k v m) ≤ length m + 1
unfolding set
length-set-le k v [] = omega arith
length-set-le k v ((j, ts) ∷ m) = ground (arith, length-set-le k v m)

length-set-has :
    (k : Text) (v : List Time) (m : Attempts)
    → has text_discrete k m ≡ true
    → length (set text_discrete k v m) ≡ length m
unfolding set has
length-set-has k v [] h = absurd (cc)
length-set-has k v ((j, ts) ∷ m) h = ground (arith, length-set-has k v m)

-- Each key has at most n timestamps.
abbrev pub Within : ℕ → Attempts → Type 0
Within n [] = Unit
Within n ((k, ts) ∷ m) = (length ts ≤ n) × Within n m

delete-Within : (n : ℕ) (k : Text) (m : Attempts) → Within n m → Within n (delete text_discrete k m)
unfolding delete
delete-Within n k [] w = tt
delete-Within n k ((j, ts) ∷ m) w = ground (arith, delete-Within n k m w.1)

set-Within :
    (n : ℕ) (k : Text) (v : List Time) (m : Attempts)
    → length v ≤ n
    → Within n m
    → Within n (set text_discrete k v m)
unfolding set
set-Within n k v [] h w = (h, tt)
set-Within n k v ((j, ts) ∷ m) h w = ground (arith, set-Within n k v m h w.1)

get-Within :
    (n : ℕ) (k : Text) (m : Attempts) (v : List Time)
    → Within n m
    → get text_discrete k m ≡ some v
    → length v ≤ n
unfolding get
get-Within n k [] v w h = absurd (cc)
get-Within n k ((j, ts) ∷ m) v w h = ground (arith, get-Within n k m v w.1)

length-drop : (k : ℕ) (ts : List Time) → length (drop k ts) ≡ length ts - k
length-drop zero ts = omega arith
length-drop (suc k) [] = omega arith
length-drop (suc k) (t ∷ ts) = omega (arith, length-drop k ts)

-- The bounds on what the guard keeps.
pub record IsBounded (n keys entries : ℕ) (s : GuardState) : Type 0 where
  pub failures : Within n s.attempts
  pub sized : length s.attempts ≤ keys
  pub heaped : length s.expirations ≤ entries

module _ (n keys entries window : ℕ) (now : Time) where
  keep_recent-IsBounded :
      (key : Text) (ts : List Time) (s : GuardState)
      → length ts ≤ n
      → has text_discrete key s.attempts ≡ true
      → length s.expirations < entries
      → IsBounded n keys entries s
      → IsBounded n keys entries (keep_recent window key ts s)
  unfolding keep_recent
  keep_recent-IsBounded key [] s h present room b = record {
    failures = delete-Within n key s.attempts b.failures;
    sized = omega (arith, length-delete-le key s.attempts, b.sized);
    heaped = b.heaped;
  }
  keep_recent-IsBounded key (t ∷ ts) s h present room b = record {
    failures = set-Within n key (t ∷ ts) s.attempts h b.failures;
    sized = omega (arith, length-set-has key (t ∷ ts) s.attempts present, b.sized);
    heaped =
        omega
          (arith, length-heap_push s.expirations (record { key = key; expires_at = t + window }));
  }

  prune_key-IsBounded :
      (key : Text) (found : Option (List Time)) (s : GuardState)
      → get text_discrete key s.attempts ≡ found
      → length s.expirations < entries
      → IsBounded n keys entries s
      → IsBounded n keys entries (prune_key window now key found s)
  unfolding prune_key
  prune_key-IsBounded key none s e room b = b
  prune_key-IsBounded key (some ts) s e room b = elim (Bool-cases (starts_live window now ts)) [
    | inl alive ↦ rw alive b
    | inr dead ↦ rw dead (
        keep_recent-IsBounded key (live window now ts) s
          (omega (arith, length-live-le window now ts, get-Within n key s.attempts ts b.failures e))
          (has_of_some text_discrete key s.attempts ts e) room b)
  ]

  prune_round-IsBounded :
      (s : GuardState) (first : Expiration) (rest : Heap)
      → first ∷ rest ≡ s.expirations
      → IsBounded n keys entries s
      → IsBounded n keys entries (prune_round window now s first rest)
  unfolding prune_round prune_popped
  prune_round-IsBounded s first rest e b =
      let room : length (heap_pop (first ∷ rest)).1 < entries =
        omega (arith, length-heap_pop first rest, ap length e, b.heaped) in
      prune_key-IsBounded first.key (get text_discrete first.key s.attempts)
        (record s { expirations = (heap_pop (first ∷ rest)).1 }) refl room
        (record { failures = b.failures; sized = b.sized; heaped = omega (arith, room) })

  prune_loop-IsBounded :
      (fuel : ℕ) (s : GuardState) (heap : Heap)
      → heap ≡ s.expirations
      → IsBounded n keys entries s
      → IsBounded n keys entries (prune_loop fuel window now s heap)
  unfolding prune_loop
  prune_loop-IsBounded zero s heap e b = b
  prune_loop-IsBounded (suc fuel) s [] e b = b
  prune_loop-IsBounded (suc fuel) s (first ∷ rest) e b = elim (Bool-cases (is_due now first)) [
    | inl due ↦
        let next = prune_round window now s first rest in
        subst (IsBounded n keys entries) (sym (prune_loop-due window now fuel s first rest due)) (
          prune_loop-IsBounded fuel next next.expirations refl
            (prune_round-IsBounded s first rest e b))
    | inr later ↦
        subst (IsBounded n keys entries) (sym (prune_loop-later window now fuel s first rest later))
          b
  ]

  prune_expired-IsBounded :
      (s : GuardState)
      → IsBounded n keys entries s
      → IsBounded n keys entries (prune_expired window now s)
  unfolding prune_expired
  prune_expired-IsBounded s b =
      prune_loop-IsBounded (suc (length s.expirations)) s s.expirations refl b

length-slice_last-le : (n : ℕ) (ts : List Time) → length (slice_last n ts) ≤ n
unfolding slice_last
length-slice_last-le n ts = omega (arith, length-drop (length ts - n) ts)

length-rebuild_from :
    (window : ℕ) (m : Attempts) (heap : Heap)
    → length (rebuild_from window m heap) ≤ length heap + length m
unfolding rebuild_from
length-rebuild_from window [] heap = omega arith
length-rebuild_from window ((k, []) ∷ m) heap = omega (arith, length-rebuild_from window m heap)
length-rebuild_from window ((k, t ∷ ts) ∷ m) heap =
    let e : Expiration = record { key = k; expires_at = t + window } in
    omega (arith, length-rebuild_from window m (heap_push heap e), length-heap_push heap e)

length-drop_oldest :
    (m : Attempts) (max_keys : ℕ)
    → 0 < max_keys
    → length m ≤ max_keys
    → length (drop_oldest m) < max_keys
unfolding drop_oldest
length-drop_oldest [] max_keys pos h = omega arith
length-drop_oldest ((k, ts) ∷ m) max_keys pos h =
    omega (arith, length-delete-lt k ((k, ts) ∷ m) (has-first k ts m))

drop_oldest-Within : (n : ℕ) (m : Attempts) → Within n m → Within n (drop_oldest m)
unfolding drop_oldest
drop_oldest-Within n [] w = w
drop_oldest-Within n ((k, ts) ∷ m) w = delete-Within n k ((k, ts) ∷ m) w

-- Room is made for one more key.
ensure_capacity-room :
    (m : Attempts) (key : Text) (max_keys : ℕ)
    → 0 < max_keys
    → length m ≤ max_keys
    → length (delete text_discrete key (ensure_capacity m key max_keys)) + 1 ≤ max_keys
unfolding ensure_capacity
ensure_capacity-room m key max_keys pos h = elim (Bool-cases (has text_discrete key m)) [
  | inl present ↦ rw present (omega (arith, length-delete-lt key m present))
  | inr absent ↦ elim (Bool-cases (ltb (length m) max_keys)) [
    | inl fits ↦ rw (absent, fits) (ground (arith, length-delete-le key m))
    | inr full ↦
        rw (absent, full)
          (omega (arith, length-delete-le key (drop_oldest m), length-drop_oldest m max_keys pos h))
  ]
]

ensure_capacity-Within :
    (n : ℕ) (m : Attempts) (key : Text) (max_keys : ℕ)
    → Within n m
    → Within n (ensure_capacity m key max_keys)
unfolding ensure_capacity
ensure_capacity-Within n m key max_keys w =
    elim (Bool-cases (has text_discrete key m || ltb (length m) max_keys)) [
      | inl fits ↦ rw fits w
      | inr full ↦ rw full (drop_oldest-Within n m w)
    ]

length-pushed :
    (window : ℕ) (key : Text) (ts : List Time) (heap : Heap)
    → length (pushed window key ts heap) ≤ length heap + 1
unfolding pushed
length-pushed window key [] heap = omega arith
length-pushed window key (t ∷ ts) heap =
    omega (arith, length-heap_push heap (record { key = key; expires_at = t + window }))

-- The guard keeps at most the failures for each key, the keys, and four entries for each key, that
-- its options allow.
abbrev pub KeepsBounds : GuardOptions → GuardState → Type 0
KeepsBounds o s = IsBounded o.max_failures o.max_keys (o.max_keys * 4) s

compact-KeepsBounds :
    (o : GuardOptions) (entries : ℕ) (s : GuardState)
    → IsBounded o.max_failures o.max_keys entries s
    → KeepsBounds o (compact o s)
unfolding compact rebuild_expirations
compact-KeepsBounds o entries s b =
    elim (Bool-cases (ltb (o.max_keys * 4) (length s.expirations))) [
      | inl full ↦ rw full (record {
        failures = b.failures;
        sized = b.sized;
        heaped = omega (arith, length-rebuild_from o.window_ms s.attempts [], b.sized);
      })
      | inr fits ↦
          rw fits (record { failures = b.failures; sized = b.sized; heaped = ground arith })
    ]

recorded-IsBounded :
    (o : GuardOptions) (key : Text) (now : Time) (s : GuardState)
    → 0 < o.max_keys
    → KeepsBounds o s
    → IsBounded o.max_failures o.max_keys (o.max_keys * 4 + 1) (recorded o key now s)
unfolding recorded
recorded-IsBounded o key now s pos b =
    let kept = ensure_capacity s.attempts key o.max_keys in
    let recent = recent_or_empty (get text_discrete key kept) in
    let updated = slice_last o.max_failures (recent ++ now ∷ []) in
    record {
      failures =
          set-Within o.max_failures key updated (delete text_discrete key kept)
            (length-slice_last-le o.max_failures (recent ++ now ∷ []))
            (delete-Within o.max_failures key kept
              (ensure_capacity-Within o.max_failures s.attempts key o.max_keys b.failures));
      sized = omega (
        arith,
        length-set-le key updated (delete text_discrete key kept),
        ensure_capacity-room s.attempts key o.max_keys pos b.sized,
      );
      heaped = omega (arith, length-pushed o.window_ms key updated s.expirations, b.heaped);
    }

after_valid-KeepsBounds :
    (o : GuardOptions) (key : Text) (outcome : AttemptOutcome) (now : Option Time) (s : GuardState)
    → 0 < o.max_keys
    → KeepsBounds o s
    → KeepsBounds o (after_valid o key outcome now s).1
unfolding after_valid record_failure
after_valid-KeepsBounds o key AttemptOutcome.success now s pos b = record {
  failures = delete-Within o.max_failures key s.attempts b.failures;
  sized = omega (arith, length-delete-le key s.attempts, b.sized);
  heaped = b.heaped;
}
after_valid-KeepsBounds o key (AttemptOutcome.failure reason false) now s pos b = b
after_valid-KeepsBounds o key (AttemptOutcome.failure reason true) none s pos b = b
after_valid-KeepsBounds o key (AttemptOutcome.failure reason true) (some now) s pos b =
    let pruned = prune_expired o.window_ms now s in
    compact-KeepsBounds o (o.max_keys * 4 + 1) (recorded o key now pruned) (
      recorded-IsBounded o key now pruned pos
        (prune_expired-IsBounded o.max_failures o.max_keys (o.max_keys * 4) o.window_ms now s b))

before_attempt-KeepsBounds :
    (o : GuardOptions) (a : Attempt DecisionAuthContext) (now : Option Time) (s : GuardState)
    → KeepsBounds o s
    → KeepsBounds o (before_attempt o a now s).1
unfolding before_attempt
before_attempt-KeepsBounds o a none s b = b
before_attempt-KeepsBounds o a (some now) s b = elim (Bool-cases (is_attempt_input a)) [
  | inl valid ↦
      rw valid
        (prune_expired-IsBounded o.max_failures o.max_keys (o.max_keys * 4) o.window_ms now s b)
  | inr invalid ↦ rw invalid b
]

after_attempt-KeepsBounds :
    (o : GuardOptions) (a : Attempt DecisionAuthContext) (outcome : AttemptOutcome)
    (now : Option Time) (s : GuardState)
    → 0 < o.max_keys
    → KeepsBounds o s
    → KeepsBounds o (after_attempt o a outcome now s).1
unfolding after_attempt
after_attempt-KeepsBounds o a outcome now s pos b =
    elim (Bool-cases (is_attempt_input a && is_outcome outcome)) [
      | inl valid ↦ rw valid (after_valid-KeepsBounds o (attempt_key a) outcome now s pos b)
      | inr invalid ↦ rw invalid b
    ]

-- A call of the guard.
pub data GuardCall : Type 0 where
  before : Attempt DecisionAuthContext → Option Time → GuardCall
  after : Attempt DecisionAuthContext → AttemptOutcome → Option Time → GuardCall

pub perform : GuardOptions → GuardCall → GuardState → GuardState
perform o (before a now) s = (before_attempt o a now s).1
perform o (after a outcome now) s = (after_attempt o a outcome now s).1

pub run : GuardOptions → List GuardCall → GuardState → GuardState
run o [] s = s
run o (c ∷ cs) s = run o cs (perform o c s)

perform-KeepsBounds :
    (o : GuardOptions) (c : GuardCall) (s : GuardState)
    → 0 < o.max_keys
    → KeepsBounds o s
    → KeepsBounds o (perform o c s)
unfolding perform
perform-KeepsBounds o (before a now) s pos b = before_attempt-KeepsBounds o a now s b
perform-KeepsBounds o (after a outcome now) s pos b =
    after_attempt-KeepsBounds o a outcome now s pos b

-- With at least one key allowed: from a state within the bounds, every sequence of calls of the guard,
-- on every input, outcome and time, leaves a state within the bounds: each key has at most
-- maxFailures timestamps, there are at most maxKeys keys, and the heap has at most four times as
-- many entries.
pub run-KeepsBounds :
    (o : GuardOptions) (cs : List GuardCall) (s : GuardState)
    → 0 < o.max_keys
    → KeepsBounds o s
    → KeepsBounds o (run o cs s)
unfolding run
run-KeepsBounds o [] s pos b = b
run-KeepsBounds o (c ∷ cs) s pos b =
    run-KeepsBounds o cs (perform o c s) pos (perform-KeepsBounds o c s pos b)
