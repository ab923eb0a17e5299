-- ===== src/Outbox/Leases/Settled.antt =====
-- A lease settles a message once: packages/testkit/src/stores/memory-outbox-store.ts.
use authmodules.Outbox.Leases.{
  renewed_message, renewed, is_lease_mutation_input, failed_message, dispatched_message,
  lease_matches, LeaseInput, Failure, valid_outbox_lease, renew_lease, mark_dispatched, mark_failed,
  settle, leased_message,
}
use authmodules.JsMap.Laws.{get-set_self}
use authmodules.Prelude.{
  inr, inl, Bool-cases, ℕ, ◌≡◌, refl, true, false, none, some, Option, arith, Bool, Text,
  text_discrete, ◌&&◌,
}
use authmodules.Contracts.Errors.{Reason, ok}
use authmodules.Memory.State.{Cell}
use authmodules.Outbox.Message.{OutboxMessage, LeaseId}
use authmodules.Contracts.Values.{Date}
use authmodules.Outbox.State.{MemoryOutboxState, fail}

-- The message is there, and holds no lease.
IsFree : LeaseInput → MemoryOutboxState → Type 0
IsFree i s = (c : Cell OutboxMessage) × (leased_message i s ≡ some c) × (c.value.lease ≡ none)

free-invalid :
    (m : OutboxMessage) (i : LeaseInput) → m.lease ≡ none → valid_outbox_lease m i ≡ false
unfolding valid_outbox_lease lease_matches
free-invalid m i h = ground arith

settle-free :
    {A : Type 0} (valid : Bool) (i : LeaseInput) (answer : A)
    (change : OutboxMessage → OutboxMessage) (ref : ℕ) (s : MemoryOutboxState)
    (c : Cell OutboxMessage)
    → c.value.lease ≡ none
    → settle valid i answer change ref s (some c) ≡ fail Reason.outbox_lease_conflict ref s
unfolding settle
settle-free valid i answer change ref s c h = ground (arith, free-invalid c.value i h)

-- All three calls on the message, by any worker, with any lease and at any time, answer
-- `OUTBOX_LEASE_CONFLICT`, and change nothing.
pub Refuses : Text → Text → MemoryOutboxState → Type 0
Refuses tenant_id message_id s =
    (worker_id : Text) (lease_id : LeaseId) (now : Date) (ref seconds : ℕ) (f : Failure)
    → let i : LeaseInput = record {
      tenant_id = tenant_id;
      message_id = message_id;
      worker_id = worker_id;
      lease_id = lease_id;
      now = now;
    } in
      (renew_lease i seconds ref s ≡ fail Reason.outbox_lease_conflict ref s)
      × (mark_dispatched i ref s ≡ fail Reason.outbox_lease_conflict ref s)
      × (mark_failed i f ref s ≡ fail Reason.outbox_lease_conflict ref s)

free-Refuses :
    (i : LeaseInput) (s : MemoryOutboxState) → IsFree i s → Refuses i.tenant_id i.message_id s
unfolding IsFree Refuses renew_lease mark_dispatched mark_failed leased_message
free-Refuses i s (c, found, h) worker_id lease_id now ref seconds f =
    let j : LeaseInput = record i { worker_id = worker_id; lease_id = lease_id; now = now } in
    rw found (
      settle-free _ j (renewed j seconds) (renewed_message j seconds) ref s c h,
      settle-free true j tt (dispatched_message j) ref s c h,
      settle-free _ j tt (failed_message j f) ref s c h,
    )

settle-IsFree :
    {A : Type 0} (valid : Bool) (i : LeaseInput) (answer a : A)
    (change : OutboxMessage → OutboxMessage) (ref : ℕ) (s : MemoryOutboxState)
    (found : Option (Cell OutboxMessage))
    → ((m : OutboxMessage) → (change m).lease ≡ none)
    → (settle valid i answer change ref s found).0 ≡ ok a
    → IsFree i (settle valid i answer change ref s found).1
unfolding settle IsFree leased_message
settle-IsFree valid i answer a change ref s none free h = absurd (ground arith)
settle-IsFree valid i answer a change ref s (some c) free h =
    elim (Bool-cases (valid && (is_lease_mutation_input i && valid_outbox_lease c.value i))) [
      | inl e ↦ rw e (_, get-set_self text_discrete _ _ s.messages, free c.value)
      | inr e ↦ absurd (ground arith)
    ]

-- After `markDispatched` has succeeded, `renewLease`, `markDispatched` and `markFailed` on that
-- message are refused on the state that is left, whatever the worker, the lease and the time.
pub mark_dispatched-Refuses :
    (i : LeaseInput) (ref : ℕ) (s : MemoryOutboxState)
    → (mark_dispatched i ref s).0 ≡ ok tt
    → Refuses i.tenant_id i.message_id (mark_dispatched i ref s).1
unfolding mark_dispatched dispatched_message
mark_dispatched-Refuses i ref s h =
    free-Refuses i _
      (settle-IsFree true i tt tt (dispatched_message i) ref s (leased_message i s) (λ m. refl) h)

-- After `markFailed` has succeeded, `renewLease`, `markDispatched` and `markFailed` on that message
-- are refused on the state that is left, whatever the worker, the lease and the time.
pub mark_failed-Refuses :
    (i : LeaseInput) (f : Failure) (ref : ℕ) (s : MemoryOutboxState)
    → (mark_failed i f ref s).0 ≡ ok tt
    → Refuses i.tenant_id i.message_id (mark_failed i f ref s).1
unfolding mark_failed failed_message
mark_failed-Refuses i f ref s h =
    free-Refuses i _
      (settle-IsFree _ i tt tt (failed_message i f) ref s (leased_message i s) (λ m. refl) h)
