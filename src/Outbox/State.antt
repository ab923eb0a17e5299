-- ===== src/Outbox/State.antt =====
-- `MemoryOutboxState` of packages/testkit/src/stores/memory-outbox-store.ts, and the calls that
-- enqueue.
pub mod Batches
use authmodules.Prelude.{
  ℕ, ◌+◌, Bool, true, not, ◌&&◌, ◌||◌, Option, none, some, List, [], ◌∷◌, ◌++◌, Text, text_discrete,
  leb, if◌then◌else◌, length, includes,
}
use authmodules.JsMap.{Map, get, has, set}
use authmodules.Contracts.Errors.{Reason, Result, ok, err, StoreFailure, store_failure}
use authmodules.Memory.State.{Cell, join_key}
use authmodules.Memory.Action.{cell}
use authmodules.Outbox.Message.{
  OutboxMessage, is_new_persistable_outbox_message, clones_message, outbox_message_character_count,
}

pub record MemoryOutboxState : Type 0 where
  pub messages : Map Text (Cell OutboxMessage)
  pub idempotency_keys : Map Text Text
  pub lease_sequence : ℕ

abbrev pub create_empty_outbox_state : MemoryOutboxState
create_empty_outbox_state = record { messages = []; idempotency_keys = []; lease_sequence = 0 }

abbrev pub OutboxAction : Type 0 → Type 0
OutboxAction A = ℕ → MemoryOutboxState → Result StoreFailure A × MemoryOutboxState

abbrev pub fail : {A : Type 0} → Reason → OutboxAction A
fail reason ref s = (err (store_failure reason), s)

abbrev pub outbox_key : Text → Text → Text
outbox_key tenant_id value = join_key tenant_id value

-- The first loop: every message is a new one that can be stored.
all_new : List OutboxMessage → Bool
all_new [] = true
all_new (m ∷ ms) = (clones_message m && is_new_persistable_outbox_message m) && all_new ms

-- The second loop: the characters stay within ten million.
within_characters : List OutboxMessage → ℕ → Bool
within_characters [] characters = true
within_characters (m ∷ ms) characters =
    let total = characters + outbox_message_character_count m in
    leb total 10_000_000 && within_characters ms total

-- What the third loop stages before anything is written.
pub record Staged : Type 0 where
  pub seen_message_ids : List Text
  pub seen_idempotency_keys : List Text
  pub messages : List (Text × OutboxMessage)
  pub idempotency_keys : List (Text × Text)
  pub result : List OutboxMessage

abbrev pub nothing_staged : Staged
nothing_staged = record {
  seen_message_ids = [];
  seen_idempotency_keys = [];
  messages = [];
  idempotency_keys = [];
  result = [];
}

-- The end of the body, for a message that no earlier one stands for.
stage_new : MemoryOutboxState → Text → OutboxMessage → Staged → Option Staged
stage_new current key m staged =
    if has text_discrete key current.messages
    then none
    else some (record staged {
      messages = staged.messages ++ (key, m) ∷ [];
      result = staged.result ++ m ∷ [];
    })

-- A message whose idempotency key is stored: the stored one is the result.
stage_existing : MemoryOutboxState → OutboxMessage → Text → Staged → Option Staged
stage_existing current m existing_id staged =
    elim (get text_discrete (outbox_key m.tenant_id existing_id) current.messages) [
      | none ↦ none
      | some existing ↦ some (record staged {
        result = staged.result ++ record (existing.value) { lease = none } ∷ [];
      })
    ]

stage_keyed : MemoryOutboxState → Text → OutboxMessage → Text → Staged → Option Staged
unfolding stage_new stage_existing
stage_keyed current key m idempotency_key staged =
    if includes text_discrete staged.seen_idempotency_keys idempotency_key
    then none
    else let seen = record staged {
      seen_idempotency_keys = staged.seen_idempotency_keys ++ idempotency_key ∷ [];
    } in
      elim (get text_discrete idempotency_key current.idempotency_keys) [
        | some existing_id ↦ stage_existing current m existing_id seen
        | none ↦ stage_new current key m (record seen {
          idempotency_keys = seen.idempotency_keys ++ (idempotency_key, m.message_id) ∷ [];
        })
      ]

-- The body of the third loop. `none` is `OUTBOX_ENQUEUE_FAILED`.
stage : MemoryOutboxState → OutboxMessage → Staged → Option Staged
unfolding stage_new stage_keyed
stage current m staged =
    let key = outbox_key m.tenant_id m.message_id in
    if includes text_discrete staged.seen_message_ids key
    then none
    else let seen = record staged { seen_message_ids = staged.seen_message_ids ++ key ∷ [] } in
      elim m.idempotency_key [
        | none ↦ stage_new current key m seen
        | some idempotency_key ↦
            stage_keyed current key m (outbox_key m.tenant_id idempotency_key) seen
      ]

pub stage_all : MemoryOutboxState → List OutboxMessage → Staged → Option Staged
stage_all current [] staged = some staged
stage_all current (m ∷ ms) staged = elim (stage current m staged) [
  | none ↦ none
  | some next ↦ stage_all current ms next
]

set_keys : List (Text × Text) → Map Text Text → Map Text Text
set_keys [] m = m
set_keys ((key, id) ∷ rest) m = set_keys rest (set text_discrete key id m)

set_messages :
    ℕ → List (Text × OutboxMessage) → Map Text (Cell OutboxMessage) → Map Text (Cell OutboxMessage)
set_messages ref [] m = m
set_messages ref ((key, message) ∷ rest) m =
    set_messages ref rest (set text_discrete key (cell ref message) m)

commit_staged : Staged → ℕ → MemoryOutboxState → MemoryOutboxState
unfolding set_keys set_messages
commit_staged staged ref s = record s {
  messages = set_messages ref staged.messages s.messages;
  idempotency_keys = set_keys staged.idempotency_keys s.idempotency_keys;
}

unfoldable pub enqueue_batch : List OutboxMessage → OutboxAction (List OutboxMessage)
unfolding all_new within_characters stage_all stage commit_staged
enqueue_batch messages ref s =
    if not (leb (length messages) 1000) || not (all_new messages && within_characters messages 0)
    then fail Reason.outbox_enqueue_failed ref s
    else elim (stage_all s messages nothing_staged) [
      | none ↦ fail Reason.outbox_enqueue_failed ref s
      | some staged ↦ (ok staged.result, commit_staged staged ref s)
    ]

first : Result StoreFailure (List OutboxMessage) → Result StoreFailure (Option OutboxMessage)
first (err e) = err e
first (ok []) = ok none
first (ok (m ∷ ms)) = ok (some m)

pub enqueue : OutboxMessage → OutboxAction (Option OutboxMessage)
unfolding enqueue_batch first
enqueue message ref s =
    let (result, after) = enqueue_batch (message ∷ []) ref s in (first result, after)
