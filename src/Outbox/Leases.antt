-- ===== src/Outbox/Leases.antt =====
-- The calls that lease and settle messages in packages/testkit/src/stores/memory-outbox-store.ts.
pub mod Settled
pub mod Claims
use authmodules.Contracts.Errors.{StoreFailure, Result, Reason, ok}
use authmodules.Prelude.{
  ℕ, ◌+◌, ◌*◌, Bool, true, false, not, ◌&&◌, ◌||◌, Option, none, some, List, [], ◌∷◌, ◌++◌, Text,
  text_discrete, test, leb, ltb, if◌then◌else◌, length,
}
use authmodules.JsMap.{Map, get, set}
use authmodules.Contracts.Values.{Time, Date, invalid, at, make_date, is_safe_text}
use authmodules.Memory.State.{Cell}
use authmodules.Memory.Action.{cell}
use authmodules.Outbox.Message.{
  OutboxMessage, OutboxStatus, OutboxLease, LeaseId, lease_, foreign, lease_id_discrete, is_pending,
}
use authmodules.Outbox.State.{MemoryOutboxState, OutboxAction, fail, outbox_key}

-- `date <= now` and `date > now`; both are false of an invalid date.
unfoldable pub is_past : Date → Time → Bool
is_past invalid now = false
is_past (at t) now = leb t now

unfoldable pub is_future : Date → Time → Bool
is_future invalid now = false
is_future (at t) now = ltb now t

abbrev is_bounded_integer : ℕ → ℕ → Bool
is_bounded_integer n bound = ltb 0 n && leb n bound

pub record ClaimInput : Type 0 where
  pub now : Date
  pub limit : ℕ
  pub worker_id : Text
  pub lease_seconds : ℕ
  pub tenant_id : Option Text

abbrev is_valid_date : Date → Bool
is_valid_date invalid = false
is_valid_date (at t) = true

abbrev pub time_of : Date → Time
time_of invalid = 0
time_of (at t) = t

is_outbox_claim_input : ClaimInput → Bool
is_outbox_claim_input i =
    is_valid_date i.now
    && (is_bounded_integer i.limit 1000
        && (is_safe_text i.worker_id 512 true
            && (is_bounded_integer i.lease_seconds 86400
                && elim i.tenant_id [ none ↦ true | some t ↦ is_safe_text t 512 true ])))

is_claimed : OutboxStatus → Bool
is_claimed OutboxStatus.claimed = true
is_claimed _ = false

is_failed : OutboxStatus → Bool
is_failed OutboxStatus.failed = true
is_failed _ = false

other_tenant : Option Text → Text → Bool
unfolding text_discrete
other_tenant none tenant_id = false
other_tenant (some t) tenant_id = not (test (text_discrete tenant_id t))

unfoldable pub has_expired : Option Time → Time → Bool
has_expired none now = false
has_expired (some t) now = leb t now

lease_has_ended : Option OutboxLease → Time → Bool
lease_has_ended none now = false
lease_has_ended (some l) now = is_past l.lease_until now

unfoldable pub reclaimable : Time → OutboxMessage → Bool
unfolding is_claimed lease_has_ended is_past
reclaimable now m = is_claimed m.status && lease_has_ended m.lease now

-- What the loop of `claimBatch` does with a message.
pub data Claim : Type 0 where
  skip : Claim
  bury : OutboxMessage → Claim
  lease : OutboxMessage → Claim

-- The last test, on the message as a reclaim leaves it.
claim_available : Time → OutboxMessage → Claim
claim_available now m =
    if ltb now m.available_at || leb m.max_attempts m.attempts then skip else lease m

-- An abandoned lease counts as a failed attempt.
claim_reclaimable : Time → OutboxMessage → Claim
unfolding claim_available
claim_reclaimable now m =
    let abandoned = record m {
      attempts = m.attempts + 1;
      status = OutboxStatus.failed;
      last_failure_reason = some Reason.outbox_lease_conflict;
      lease = none;
      available_at = now;
      updated_at = now;
    } in
    if leb m.max_attempts (m.attempts + 1)
    then bury (record m {
      attempts = m.attempts + 1;
      status = OutboxStatus.dead;
      last_failure_reason = some Reason.outbox_lease_conflict;
      lease = none;
      updated_at = now;
    })
    else claim_available now abandoned

unfoldable pub claim : Option Text → Time → OutboxMessage → Claim
unfolding other_tenant has_expired reclaimable claim_reclaimable claim_available is_pending
    is_failed
claim tenant_id now m =
    if other_tenant tenant_id m.tenant_id
    then skip
    else if has_expired m.expires_at now
    then bury (record m { status = OutboxStatus.dead; lease = none; updated_at = now })
    else if reclaimable now m
    then claim_reclaimable now m
    else if is_pending m.status || is_failed m.status
    then claim_available now m
    else skip

-- The message under its new lease.
unfoldable pub leased : ClaimInput → ℕ → OutboxMessage → OutboxMessage
unfolding make_date
leased i sequence m = record m {
  status = OutboxStatus.claimed;
  lease = some (record {
    lease_id = lease_ sequence;
    worker_id = i.worker_id;
    lease_until = make_date (time_of i.now + i.lease_seconds * 1000);
  });
  updated_at = time_of i.now;
}

-- One turn of the loop: the messages claimed so far, and the state.
claim_turn :
    ClaimInput
    → ℕ
    → Text
    → Claim
    → List OutboxMessage
    → MemoryOutboxState
    → List OutboxMessage × MemoryOutboxState
unfolding leased
claim_turn i ref key skip claimed s = (claimed, s)
claim_turn i ref key (bury m) claimed s =
    (claimed, record s { messages = set text_discrete key (cell ref m) s.messages })
claim_turn i ref key (lease m) claimed s =
    let sequence = s.lease_sequence + 1 in
    let message = leased i sequence m in
    (
      claimed ++ message ∷ [],
      record s {
        messages = set text_discrete key (cell ref message) s.messages;
        lease_sequence = sequence;
      },
    )

claim_loop :
    ClaimInput
    → ℕ
    → Map Text (Cell OutboxMessage)
    → List OutboxMessage
    → MemoryOutboxState
    → List OutboxMessage × MemoryOutboxState
unfolding claim_turn
claim_loop i ref [] claimed s = (claimed, s)
claim_loop i ref ((key, c) ∷ rest) claimed s =
    let (claimed', s') =
      claim_turn i ref key (claim i.tenant_id (time_of i.now) c.value) claimed s in
    let next = claim_loop i ref rest claimed' s' in
    if leb i.limit (length claimed) then (claimed, s) else next

unfoldable pub claim_batch : ClaimInput → OutboxAction (List OutboxMessage)
unfolding is_outbox_claim_input claim_loop
claim_batch i ref s =
    if not (is_outbox_claim_input i)
    then fail Reason.outbox_lease_conflict ref s
    else let (claimed, after) = claim_loop i ref s.messages [] s in (ok claimed, after)

-- The common part of the inputs that name a lease.
pub record LeaseInput : Type 0 where
  pub tenant_id : Text
  pub message_id : Text
  pub worker_id : Text
  pub lease_id : LeaseId
  pub now : Date

-- A text that a store issues is short and has no control character.
is_safe_lease_id : LeaseId → Bool
is_safe_lease_id (lease_ n) = true
is_safe_lease_id (foreign t) = is_safe_text t 512 true

unfoldable pub is_lease_mutation_input : LeaseInput → Bool
unfolding is_safe_lease_id
is_lease_mutation_input i =
    is_safe_text i.tenant_id 512 true
    && (is_safe_text i.message_id 512 true
        && (is_safe_text i.worker_id 512 true
            && (is_safe_lease_id i.lease_id && is_valid_date i.now)))

lease_matches : Option OutboxLease → LeaseInput → Bool
unfolding text_discrete lease_id_discrete is_future
lease_matches none i = false
lease_matches (some l) i =
    test (text_discrete l.worker_id i.worker_id)
    && (test (lease_id_discrete l.lease_id i.lease_id) && is_future l.lease_until (time_of i.now))

unfoldable pub valid_outbox_lease : OutboxMessage → LeaseInput → Bool
unfolding lease_matches is_claimed
valid_outbox_lease m i =
    is_claimed m.status
    && (test (text_discrete m.tenant_id i.tenant_id)
        && (test (text_discrete m.message_id i.message_id) && lease_matches m.lease i))

-- The shape of the three calls on a lease: `change` is the message stored.
settle :
    {A : Type 0}
    → Bool
    → LeaseInput
    → A
    → (OutboxMessage → OutboxMessage)
    → ℕ
    → MemoryOutboxState
    → Option (Cell OutboxMessage)
    → Result StoreFailure A × MemoryOutboxState
settle valid i answer change ref s none = fail Reason.outbox_lease_conflict ref s
settle valid i answer change ref s (some current) =
    if valid && (is_lease_mutation_input i && valid_outbox_lease current.value i)
    then (
      ok answer,
      record s {
        messages =
            set text_discrete (outbox_key i.tenant_id i.message_id)
              (cell ref (change current.value)) s.messages;
      },
    )
    else fail Reason.outbox_lease_conflict ref s

-- `state.messages.get(key)`
leased_message : LeaseInput → MemoryOutboxState → Option (Cell OutboxMessage)
leased_message i s = get text_discrete (outbox_key i.tenant_id i.message_id) s.messages

-- The lease that `renewLease` answers and stores.
unfoldable pub renewed : LeaseInput → ℕ → OutboxLease
unfolding make_date
renewed i lease_seconds = record {
  lease_id = i.lease_id;
  worker_id = i.worker_id;
  lease_until = make_date (time_of i.now + lease_seconds * 1000);
}

unfoldable pub renewed_message : LeaseInput → ℕ → OutboxMessage → OutboxMessage
renewed_message i lease_seconds m = record m {
  lease = some (renewed i lease_seconds);
  updated_at = time_of i.now;
}

unfoldable pub renew_lease : LeaseInput → ℕ → OutboxAction OutboxLease
unfolding settle leased_message renewed_message
renew_lease i lease_seconds ref s =
    settle (is_bounded_integer lease_seconds 86400) i (renewed i lease_seconds)
      (renewed_message i lease_seconds) ref s (leased_message i s)

-- The message that is dispatched.
unfoldable pub dispatched_message : LeaseInput → OutboxMessage → OutboxMessage
dispatched_message i m = record m {
  status = OutboxStatus.dispatched;
  last_failure_reason = none;
  lease = none;
  updated_at = time_of i.now;
}

unfoldable pub mark_dispatched : LeaseInput → OutboxAction (Unit {0})
unfolding settle leased_message dispatched_message
mark_dispatched i ref s = settle true i tt (dispatched_message i) ref s (leased_message i s)

pub record Failure : Type 0 where
  pub reason : Reason
  pub retry_at : Option Date
  pub terminal : Bool

is_retry_date : Option Date → Bool
is_retry_date none = true
is_retry_date (some d) = is_valid_date d

-- `input.retryAt ?? input.now`
retry_time : Option Date → Date → Time
retry_time none now = time_of now
retry_time (some d) now = time_of d

-- `isSafeText(value.reason, 512, true)`; the named reasons are safe.
is_safe_reason : Reason → Bool
is_safe_reason (Reason.extension t) = is_safe_text t 512 true
is_safe_reason _ = true

unfoldable pub failed_message : LeaseInput → Failure → OutboxMessage → OutboxMessage
unfolding retry_time
failed_message i f m = record m {
  attempts = m.attempts + 1;
  status =
      if f.terminal || leb m.max_attempts (m.attempts + 1)
      then OutboxStatus.dead
      else OutboxStatus.failed;
  last_failure_reason = some f.reason;
  lease = none;
  available_at = retry_time f.retry_at i.now;
  updated_at = time_of i.now;
}

unfoldable pub mark_failed : LeaseInput → Failure → OutboxAction (Unit {0})
unfolding settle leased_message is_safe_reason is_retry_date failed_message
mark_failed i f ref s =
    settle (is_safe_reason f.reason && is_retry_date f.retry_at) i tt (failed_message i f) ref s
      (leased_message i s)
