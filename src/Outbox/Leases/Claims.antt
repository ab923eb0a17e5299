-- ===== src/Outbox/Leases/Claims.antt =====
-- What `claimBatch` hands out: packages/testkit/src/stores/memory-outbox-store.ts.
use authmodules.Prelude.{
  inr, inl, Bool-cases, leb, ◌<◌, ◌≤◌, length-append, ap, List, ◌++◌, length, [], some, ◌+◌, ◌∷◌, ℕ,
  ◌≡◌, refl, true, false, arith, Option, Text,
}
use authmodules.Contracts.Errors.{ok}
use authmodules.Outbox.State.{MemoryOutboxState}
use authmodules.Memory.State.{Cell}
use authmodules.JsMap.{Map}
use authmodules.Outbox.Leases.{
  is_outbox_claim_input, leased, claim_batch, claim_loop, claim_turn, ClaimInput, is_failed,
  is_claimed, is_future, is_past, lease_has_ended, lease_matches, reclaimable, has_expired, time_of,
  Claim, claim, LeaseInput, valid_outbox_lease,
}
use mathlib.Core.Path.{subst}
use authmodules.Outbox.Message.{OutboxStatus, lease_, OutboxLease, is_pending, OutboxMessage}

-- While a worker holds a live lease on a message that has not expired, no claim takes it.
pub claim-exclusive :
    (tenant_id : Option Text) (m : OutboxMessage) (i : LeaseInput)
    → valid_outbox_lease m i ≡ true
    → has_expired m.expires_at (time_of i.now) ≡ false
    → claim tenant_id (time_of i.now) m ≡ Claim.skip
unfolding claim valid_outbox_lease reclaimable lease_matches lease_has_ended is_past is_future
    is_claimed is_pending is_failed
claim-exclusive tenant_id m i held fresh = ground arith

-- The message is held by that worker under a lease with that number.
pub IsLeased : Text → ℕ → OutboxMessage → Type 0
IsLeased worker n m =
    (l : OutboxLease) × (m.lease ≡ some l)
    × (l.lease_id ≡ lease_ n)
    × (l.worker_id ≡ worker)
    × (m.status ≡ OutboxStatus.claimed)

-- The messages hold leases with the numbers after the first one, in order.
pub AreLeased : Text → ℕ → List OutboxMessage → Type 0
AreLeased worker n [] = Unit
AreLeased worker n (m ∷ ms) = IsLeased worker (n + 1) m × AreLeased worker (n + 1) ms

AreLeased-snoc :
    (worker : Text) (n : ℕ) (ms : List OutboxMessage) (m : OutboxMessage)
    → AreLeased worker n ms
    → IsLeased worker (n + length ms + 1) m
    → AreLeased worker n (ms ++ m ∷ [])
unfolding AreLeased
AreLeased-snoc worker n [] m a h = (subst (λ k. IsLeased worker k m) (omega arith) h, tt)
AreLeased-snoc worker n (x ∷ ms) m (a, b) h =
    (a, AreLeased-snoc worker (n + 1) ms m b (subst (λ k. IsLeased worker k m) (omega arith) h))

-- What holds of the claimed messages and the state after each turn of the loop.
record HasClaimed (i : ClaimInput) (n : ℕ) (claimed : List OutboxMessage) (s : MemoryOutboxState)
    : Type 0 where
  messages : AreLeased i.worker_id n claimed
  sequence : s.lease_sequence ≡ n + length claimed
  bounded : length claimed ≤ i.limit

claim_turn-HasClaimed :
    (i : ClaimInput) (n ref : ℕ) (key : Text) (turn : Claim) (claimed : List OutboxMessage)
    (s : MemoryOutboxState)
    → length claimed < i.limit
    → HasClaimed i n claimed s
    → HasClaimed i n (claim_turn i ref key turn claimed s).0 (claim_turn i ref key turn claimed s).1
unfolding claim_turn leased IsLeased
claim_turn-HasClaimed i n ref key Claim.skip claimed s l h = h
claim_turn-HasClaimed i n ref key (Claim.bury m) claimed s l h = record {
  messages = h.messages;
  sequence = h.sequence;
  bounded = h.bounded;
}
claim_turn-HasClaimed i n ref key (Claim.lease m) claimed s l h =
    let number : s.lease_sequence + 1 ≡ n + length claimed + 1 = omega (arith, h.sequence) in
    record {
      messages =
          AreLeased-snoc i.worker_id n claimed _ h.messages (_, refl, ap lease_ number, refl, refl);
      sequence =
          omega (arith, h.sequence, length-append claimed (leased i (s.lease_sequence + 1) m ∷ []));
      bounded = omega (arith, length-append claimed (leased i (s.lease_sequence + 1) m ∷ []));
    }

claim_loop-HasClaimed :
    (i : ClaimInput) (n ref : ℕ) (entries : Map Text (Cell OutboxMessage))
    (claimed : List OutboxMessage) (s : MemoryOutboxState)
    → HasClaimed i n claimed s
    → HasClaimed i n (claim_loop i ref entries claimed s).0 (claim_loop i ref entries claimed s).1
unfolding claim_loop
claim_loop-HasClaimed i n ref [] claimed s h = h
claim_loop-HasClaimed i n ref ((key, c) ∷ rest) claimed s h =
    elim (Bool-cases (leb i.limit (length claimed))) [
      | inl full ↦ rw full h
      | inr room ↦ rw room (
          claim_loop-HasClaimed i n ref rest _ _ (
            claim_turn-HasClaimed i n ref key (claim i.tenant_id (time_of i.now) c.value) claimed s
              (ground arith) h))
    ]

-- The messages that `claimBatch` returns are at most the limit, each is claimed by the worker that
-- asked, under the lease numbers that follow the last one issued; and the state has counted them.
pub claim_batch-leases :
    (i : ClaimInput) (ref : ℕ) (s : MemoryOutboxState) (claimed : List OutboxMessage)
    → (claim_batch i ref s).0 ≡ ok claimed
    → (length claimed ≤ i.limit)
      × AreLeased i.worker_id s.lease_sequence claimed
      × ((claim_batch i ref s).1.lease_sequence ≡ s.lease_sequence + length claimed)
unfolding claim_batch AreLeased
claim_batch-leases i ref s claimed h = elim (Bool-cases (is_outbox_claim_input i)) [
  | inr e ↦ absurd (ground arith)
  | inl e ↦
      let start : HasClaimed i s.lease_sequence [] s = record {
        messages = tt;
        sequence = omega arith;
        bounded = omega arith;
      } in
      let all = claim_loop-HasClaimed i s.lease_sequence ref s.messages [] s start in
      let same : (claim_loop i ref s.messages [] s).0 ≡ claimed = ground arith in
      rw e (
        subst
          (λ m.
            (length m ≤ i.limit)
            × AreLeased i.worker_id s.lease_sequence m
            × ((claim_loop i ref s.messages [] s).1.lease_sequence ≡ s.lease_sequence + length m))
          same (all.bounded, all.messages, all.sequence))
]
