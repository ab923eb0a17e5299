-- ===== src/Guard/Pruning.antt =====
-- pruneExpired ends, and forgets no failure that is still in the window.
use authmodules.Prelude.{
  ℕ, zero, suc, ◌+◌, ◌≤◌, ◌<◌, Bool, true, false, Option, none, some, List, [], ◌∷◌, Text,
  text_discrete, leb, length, ◌≡◌, refl, ap, ◌∙◌, sym, arith, Bool-cases, inl, inr, ite, if_pos,
  if_neg,
}
use mathlib.Core.Path.{subst}
use authmodules.JsMap.{get}
use authmodules.JsMap.Laws.{get-set, get-delete}
use authmodules.Contracts.Values.{Time}
use authmodules.Guard.Heap.{Expiration, Heap, heap_pop}
use authmodules.Guard.Heap.Laws.{count, count-heap_push, count-heap_pop}
use authmodules.Guard.Attempts.{
  GuardState, is_live, live, starts_live, keep_recent, prune_key, prune_popped, prune_round,
  prune_loop, prune_expired, recent_of, recent_or_empty,
}

abbrev pub is_due : Time → Expiration → Bool
is_due now e = leb e.expires_at now

abbrev StartsLive : ℕ → Time → List Time → Type 0
StartsLive window now [] = Unit
StartsLive window now (t ∷ ts) = is_live window now t ≡ true

live-StartsLive :
    (window : ℕ) (now : Time) (ts : List Time) → StartsLive window now (live window now ts)
unfolding live
live-StartsLive window now [] = tt
live-StartsLive window now (t ∷ ts) = elim (Bool-cases (is_live window now t)) [
  | inl alive ↦ rw alive alive
  | inr dead ↦ rw dead (live-StartsLive window now ts)
]

recent_of-found :
    (key k : Text) (ts : List Time) (s : GuardState)
    → key ≡ k
    → get text_discrete key s.attempts ≡ some ts
    → recent_of k s ≡ ts
unfolding recent_of
recent_of-found key k ts s p e =
    ap (λ j. recent_or_empty (get text_discrete j s.attempts)) (sym p) ∙ ap recent_or_empty e

module _ (window : ℕ) (now : Time) where
  count-keep_recent :
      (key : Text) (ts : List Time) (s : GuardState)
      → StartsLive window now ts
      → count (is_due now) (keep_recent window key ts s).expirations
        ≡ count (is_due now) s.expirations
  unfolding keep_recent
  count-keep_recent key [] s h = refl
  count-keep_recent key (t ∷ ts) s h = ground (
    arith,
    count-heap_push (is_due now) s.expirations (record { key = key; expires_at = t + window }),
  )

  count-prune_key :
      (key : Text) (found : Option (List Time)) (s : GuardState)
      → count (is_due now) (prune_key window now key found s).expirations
        ≡ count (is_due now) s.expirations
  unfolding prune_key
  count-prune_key key none s = refl
  count-prune_key key (some ts) s = elim (Bool-cases (starts_live window now ts)) [
    | inl alive ↦ rw alive refl
    | inr dead ↦
        rw dead (count-keep_recent key (live window now ts) s (live-StartsLive window now ts))
  ]

  -- Each round leaves one due entry less.
  count-prune_round :
      (s : GuardState) (first : Expiration) (rest : Heap)
      → is_due now first ≡ true
      → count (is_due now) (prune_round window now s first rest).expirations + 1
        ≡ count (is_due now) (first ∷ rest)
  unfolding prune_round prune_popped
  count-prune_round s first rest due =
      let popped = record s { expirations = (heap_pop (first ∷ rest)).1 } in
      ground (
        arith,
        count-prune_key first.key (get text_discrete first.key s.attempts) popped,
        count-heap_pop (is_due now) first rest,
      )

  -- No entry, or one that is not due, stands first.
  abbrev pub Settled : Heap → Type 0
  Settled [] = Unit
  Settled (e ∷ rest) = now < e.expires_at

  pub prune_loop-due :
      (fuel : ℕ) (s : GuardState) (first : Expiration) (rest : Heap)
      → is_due now first ≡ true
      → prune_loop (suc fuel) window now s (first ∷ rest)
        ≡ prune_loop fuel window now
            (prune_round window now s first rest)
            (prune_round window now s first rest).expirations
  unfolding prune_loop
  prune_loop-due fuel s first rest due = rw (due, prune_loop) refl

  pub prune_loop-later :
      (fuel : ℕ) (s : GuardState) (first : Expiration) (rest : Heap)
      → is_due now first ≡ false
      → prune_loop (suc fuel) window now s (first ∷ rest) ≡ s
  unfolding prune_loop
  prune_loop-later fuel s first rest later = rw (later, prune_loop) refl

  prune_loop-Settled :
      (fuel : ℕ) (s : GuardState) (heap : Heap)
      → heap ≡ s.expirations
      → count (is_due now) heap < fuel
      → Settled (prune_loop fuel window now s heap).expirations
  unfolding prune_loop
  prune_loop-Settled zero s heap e h = absurd (omega arith)
  prune_loop-Settled (suc fuel) s [] e h = subst Settled e tt
  prune_loop-Settled (suc fuel) s (first ∷ rest) e h = elim (Bool-cases (is_due now first)) [
    | inl due ↦
        let next = prune_round window now s first rest in
        subst (λ q. Settled q.expirations) (sym (prune_loop-due fuel s first rest due))
          (prune_loop-Settled fuel next next.expirations refl
            (omega (arith, count-prune_round s first rest due)))
    | inr later ↦
        subst (λ q. Settled q.expirations) (sym (prune_loop-later fuel s first rest later))
          (subst Settled e (ground arith))
  ]

  count-le-length : (p : Expiration → Bool) (heap : Heap) → count p heap ≤ length heap
  unfolding count
  count-le-length p [] = omega arith
  count-le-length p (x ∷ heap) = ground (arith, count-le-length p heap)

  -- The loop of pruneExpired ends by its test, within one round for each entry of the heap: afterwards
  -- the heap is empty or its first entry expires later than now.
  pub prune_expired-Settled : (s : GuardState) → Settled (prune_expired window now s).expirations
  unfolding prune_expired
  prune_expired-Settled s =
      prune_loop-Settled (suc (length s.expirations)) s s.expirations refl
        (omega (arith, count-le-length (is_due now) s.expirations))

  recent_of-keep_recent :
      (key k : Text) (ts : List Time) (s : GuardState)
      → recent_of k (keep_recent window key ts s) ≡ ite (text_discrete key k) ts (recent_of k s)
  unfolding recent_of keep_recent
  recent_of-keep_recent key k [] s = ground (arith, get-delete text_discrete key k s.attempts)
  recent_of-keep_recent key k (t ∷ ts) s =
      ground (arith, get-set text_discrete key k (t ∷ ts) s.attempts)

  -- A preorder that holds between timestamps without the dead ones and all of them holds between what
  -- the loop leaves under a key and what was there.
  module _ (R : List Time → List Time → Type 0) (R_refl : (a : List Time) → R a a)
      (R_trans : (a b c : List Time) → R a b → R b c → R a c)
      (R-live : (a : List Time) → R (live window now a) a) where
    left_eq : (a b c : List Time) → a ≡ b → R b c → R a c
    left_eq a b c e r = subst (λ x. R x c) (sym e) r

    kept-prune_key :
        (key k : Text) (found : Option (List Time)) (s : GuardState)
        → get text_discrete key s.attempts ≡ found
        → R (recent_of k (prune_key window now key found s)) (recent_of k s)
    unfolding prune_key
    kept-prune_key key k none s e = R_refl (recent_of k s)
    kept-prune_key key k (some ts) s e = elim (Bool-cases (starts_live window now ts)) [
      | inl alive ↦ rw alive (R_refl (recent_of k s))
      | inr dead ↦ rw dead (
          left_eq _ _ _ (recent_of-keep_recent key k (live window now ts) s)
            (elim (text_discrete key k) [
              | yes p ↦ left_eq _ _ _ (if_pos (text_discrete key k) p _ _) (
                  subst (R (live window now ts)) (sym (recent_of-found key k ts s p e)) (R-live ts))
              | no p ↦ left_eq _ _ _ (if_neg (text_discrete key k) p _ _) (R_refl (recent_of k s))
            ]))
    ]

    kept-prune_round :
        (k : Text) (s : GuardState) (first : Expiration) (rest : Heap)
        → R (recent_of k (prune_round window now s first rest)) (recent_of k s)
    unfolding prune_round prune_popped recent_of
    kept-prune_round k s first rest =
        kept-prune_key first.key k (get text_discrete first.key s.attempts)
          (record s { expirations = (heap_pop (first ∷ rest)).1 }) refl

    kept-prune_loop :
        (fuel : ℕ) (k : Text) (s : GuardState) (heap : Heap)
        → R (recent_of k (prune_loop fuel window now s heap)) (recent_of k s)
    unfolding prune_loop
    kept-prune_loop zero k s heap = R_refl (recent_of k s)
    kept-prune_loop (suc fuel) k s [] = R_refl (recent_of k s)
    kept-prune_loop (suc fuel) k s (first ∷ rest) = elim (Bool-cases (is_due now first)) [
      | inl due ↦
          let next = prune_round window now s first rest in
          left_eq _ _ _ (ap (recent_of k) (prune_loop-due fuel s first rest due)) (
            R_trans _ (recent_of k next) _ (kept-prune_loop fuel k next next.expirations)
              (kept-prune_round k s first rest))
      | inr later ↦
          left_eq _ _ _ (ap (recent_of k) (prune_loop-later fuel s first rest later))
            (R_refl (recent_of k s))
    ]

    pub kept-prune_expired :
        (k : Text) (s : GuardState) → R (recent_of k (prune_expired window now s)) (recent_of k s)
    unfolding prune_expired
    kept-prune_expired k s = kept-prune_loop (suc (length s.expirations)) k s s.expirations

-- What is in the window at a later time was in it before.
live-live :
    (window : ℕ) (now later : Time) (ts : List Time)
    → now ≤ later
    → live window later (live window now ts) ≡ live window later ts
unfolding live
live-live window now later [] h = refl
live-live window now later (t ∷ ts) h = elim (Bool-cases (is_live window now t)) [
  | inl alive ↦ rw alive (ground (arith, live-live window now later ts h))
  | inr dead ↦
      let gone : is_live window later t ≡ false = ground arith in
      rw (dead, gone) (live-live window now later ts h)
]

-- pruneExpired forgets no failure that is in the window at that time or later, whatever the heap
-- holds.
pub live-prune_expired :
    (window : ℕ) (now later : Time) (k : Text) (s : GuardState)
    → now ≤ later
    → live window later (recent_of k (prune_expired window now s))
      ≡ live window later (recent_of k s)
live-prune_expired window now later k s h =
    kept-prune_expired window now (λ a b. live window later a ≡ live window later b) (λ a. refl)
      (λ a b c p q. p ∙ q) (λ a. live-live window now later a h) k s

pub length-live-le :
    (window : ℕ) (now : Time) (ts : List Time) → length (live window now ts) ≤ length ts
unfolding live
length-live-le window now [] = omega arith
length-live-le window now (t ∷ ts) = ground (arith, length-live-le window now ts)

-- pruneExpired adds no failure.
pub length-prune_expired :
    (window : ℕ) (now : Time) (k : Text) (s : GuardState)
    → length (recent_of k (prune_expired window now s)) ≤ length (recent_of k s)
length-prune_expired window now k s =
    kept-prune_expired window now (λ a b. length a ≤ length b) (λ a. omega arith)
      (λ a b c p q. omega arith) (length-live-le window now) k s
