-- ===== src/Outbox/State/Batches/Answered.antt =====
-- What `enqueueBatch` answers and leaves: packages/testkit/src/stores/memory-outbox-store.ts.
use authmodules.Prelude.{text_discrete, ℕ, ◌≡◌, ◌≢◌, ◌≢◌, none, some, List, [], ◌∷◌, Text}
use mathlib.Core.Path.{subst}
use mathlib.Core.Path.{subst}
use authmodules.JsMap.{get}
use authmodules.Memory.State.{Cell}
use authmodules.Memory.Action.{cell}
use authmodules.Outbox.Message.{OutboxMessage}
use authmodules.Outbox.State.{outbox_key, MemoryOutboxState}
use authmodules.Outbox.State.Batches.{key_of, IsKnown}

-- No key of the new messages is that one.
Avoids : Text → List (Text × OutboxMessage) → Type 0
Avoids k [] = Unit
Avoids k (e ∷ new) = (e.0 ≢ k) × Avoids k new

-- What the call answers for each message of the batch, in order: the message, which is now stored
-- under its own key; or the message that was stored and still is, to which the idempotency key
-- led, without its lease.
pub data Answers (ref : ℕ) (s t : MemoryOutboxState)
    : List OutboxMessage → List OutboxMessage → Type 0 where
  nothing : Answers ref s t [] []
  stored :
      {m : OutboxMessage} {ms rs : List OutboxMessage}
      → get text_discrete (key_of m) t.messages ≡ some (cell ref m)
      → Answers ref s t ms rs
      → Answers ref s t (m ∷ ms) (m ∷ rs)
  repeated :
      {m : OutboxMessage} {ms rs : List OutboxMessage} (c : Cell OutboxMessage)
      → (known : IsKnown s m c)
      → get text_discrete (outbox_key m.tenant_id known.id) t.messages ≡ some c
      → Answers ref s t ms rs
      → Answers ref s t (m ∷ ms) (record (c.value) { lease = none } ∷ rs)
