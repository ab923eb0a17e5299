-- ===== src/Tests/Outbox.antt =====
-- The theorems on the outbox, at one message.
use authmodules.Outbox.State.{MemoryOutboxState, outbox_key}
use authmodules.Prelude.{
  inl, text_discrete, ◌≡◌, ◌≤◌, ◌+◌, refl, true, false, none, some, [], ◌∷◌, Text, codes, length,
}
use authmodules.JsMap.{get}
use authmodules.Outbox.Retention.{
  cleanup_terminal-limit, cleanup_terminal, TerminalStatus, CleanupInput,
}
use authmodules.Outbox.Retention.Kept.{cleanup_terminal-kept}
use Prim.Native.Nat.{compare, Ordering}
use authmodules.Contracts.Errors.{Reason, ok}
use authmodules.Contracts.Values.{at}
use authmodules.Memory.Action.{cell}
use authmodules.Outbox.Message.{OutboxMessage, OutboxStatus, DispatchPolicy, lease_}
use authmodules.Outbox.Leases.{
  LeaseInput, Failure, ClaimInput, Claim, claim, claim_batch, mark_dispatched, mark_failed,
  valid_outbox_lease, has_expired,
}
use authmodules.Outbox.Leases.Settled.{Refuses, mark_dispatched-Refuses, mark_failed-Refuses}
use authmodules.Outbox.Leases.Claims.{AreLeased, claim_batch-leases, claim-exclusive}
use authmodules.Tests.Data.{tenant}

abbrev a_message : OutboxMessage
a_message = record {
  tenant_id = tenant;
  message_id = codes "m";
  context = record { tenant_id = tenant; request_id = none; locale = none; metadata = none };
  secret_purpose = [];
  message = record {
    channel = codes "e";
    target = codes "x";
    display = none;
    template_id = codes "t";
    locale = none;
    metadata = none;
    items = none;
  };
  dispatch_policy = DispatchPolicy.required;
  idempotency_key = none;
  status = OutboxStatus.pending;
  attempts = 0;
  max_attempts = 3;
  last_failure_reason = none;
  expires_at = none;
  available_at = 1;
  created_at = 1;
  updated_at = 1;
  lease = none;
}

abbrev worker : Text
worker = codes "w"

abbrev claim_input : ClaimInput
claim_input = record {
  now = at 10;
  limit = 5;
  worker_id = worker;
  lease_seconds = 60;
  tenant_id = none;
}

abbrev outbox : MemoryOutboxState
outbox = record {
  messages = (outbox_key tenant (codes "m"), cell 0 a_message) ∷ [];
  idempotency_keys = [];
  lease_sequence = 4;
}

abbrev lease_input : LeaseInput
lease_input = record {
  tenant_id = tenant;
  message_id = codes "m";
  worker_id = worker;
  lease_id = lease_ 5;
  now = at 20;
}

abbrev leased_a_message : OutboxMessage
leased_a_message = record a_message {
  status = OutboxStatus.claimed;
  lease = some (record { lease_id = lease_ 5; worker_id = worker; lease_until = at 60010 });
  updated_at = 10;
}

claimed_one : (claim_batch claim_input 1 outbox).0 ≡ ok (leased_a_message ∷ [])
unfolding claim_batch authmodules.Contracts.Values.is_safe_text claim
claimed_one = refl

claim_batch-leases_example :
    (length (leased_a_message ∷ []) ≤ 5)
    × AreLeased worker 4 (leased_a_message ∷ [])
    × ((claim_batch claim_input 1 outbox).1.lease_sequence ≡ 4 + length (leased_a_message ∷ []))
claim_batch-leases_example =
    claim_batch-leases claim_input 1 outbox (leased_a_message ∷ []) claimed_one

held : valid_outbox_lease leased_a_message lease_input ≡ true
unfolding valid_outbox_lease
held = refl

claim-exclusive_example : claim none 20 leased_a_message ≡ Claim.skip
unfolding has_expired
claim-exclusive_example = claim-exclusive none leased_a_message lease_input held refl

abbrev leased_outbox : MemoryOutboxState
leased_outbox = record outbox {
  messages = (outbox_key tenant (codes "m"), cell 1 leased_a_message) ∷ [];
  lease_sequence = 5;
}

abbrev a_failure : Failure
a_failure = record { reason = Reason.outbox_lease_conflict; retry_at = none; terminal = false }

dispatched : (mark_dispatched lease_input 2 leased_outbox).0 ≡ ok tt
unfolding mark_dispatched authmodules.JsMap.get authmodules.Prelude.text_discrete
    authmodules.Memory.State.join_key authmodules.Outbox.Leases.is_lease_mutation_input
    authmodules.Contracts.Values.is_safe_text valid_outbox_lease
dispatched = refl

mark_dispatched-Refuses_example :
    Refuses tenant (codes "m") (mark_dispatched lease_input 2 leased_outbox).1
mark_dispatched-Refuses_example = mark_dispatched-Refuses lease_input 2 leased_outbox dispatched

failed : (mark_failed lease_input a_failure 2 leased_outbox).0 ≡ ok tt
unfolding mark_failed authmodules.JsMap.get authmodules.Prelude.text_discrete
    authmodules.Memory.State.join_key authmodules.Outbox.Leases.is_lease_mutation_input
    authmodules.Contracts.Values.is_safe_text valid_outbox_lease
failed = refl

mark_failed-Refuses_example :
    Refuses tenant (codes "m") (mark_failed lease_input a_failure 2 leased_outbox).1
mark_failed-Refuses_example = mark_failed-Refuses lease_input a_failure 2 leased_outbox failed

abbrev compare_lengths : Text → Text → Ordering
compare_lengths a b = compare (length a) (length b)

abbrev cleanup_input : CleanupInput
cleanup_input = record {
  before = at 50;
  limit = 10;
  statuses = TerminalStatus.dispatched ∷ [];
  tenant_id = none;
}

there : get text_discrete (outbox_key tenant (codes "m")) outbox.messages ≡ some (cell 0 a_message)
unfolding get text_discrete authmodules.Memory.State.join_key
there = refl

cleanup_terminal-kept_example :
    get text_discrete
      (outbox_key tenant (codes "m"))
      (cleanup_terminal compare_lengths cleanup_input 3 outbox).1.messages
    ≡ some (cell 0 a_message)
unfolding authmodules.Contracts.Values.snapshot_date authmodules.Outbox.Retention.Kept.IsKept
    authmodules.Outbox.Retention.Kept.status_of
cleanup_terminal-kept_example =
    cleanup_terminal-kept compare_lengths cleanup_input 50 3 outbox (outbox_key tenant (codes "m"))
      (cell 0 a_message) refl (refl, tt) there (inl (λ e. cc e, tt))

cleaned : (cleanup_terminal compare_lengths cleanup_input 3 outbox).0 ≡ ok 0
unfolding cleanup_terminal authmodules.Contracts.Values.snapshot_date
cleaned = refl

cleanup_terminal-limit_example : (0 ≤ cleanup_input.limit) × (cleanup_input.limit ≤ 1000)
cleanup_terminal-limit_example =
    cleanup_terminal-limit compare_lengths cleanup_input 3 outbox 0 cleaned

-- A message that can be stored: its purpose is the one of its tenant and its id.
abbrev a_new_message : OutboxMessage
a_new_message = record a_message {
  message_id = codes "n";
  idempotency_key = some (codes "k");
  secret_purpose = codes "[\"authmodules.outbox.delivery\",\"t\",\"n\"]";
}
