-- ===== src/Memory/World.antt =====
-- The memory stores of one program: the auth state, the outbox state, and the transaction that
-- runs. `transactionStates`, `memoryStateFor` and `memoryOutboxStateFor` of state.ts and
-- memory-outbox-store.ts in packages/testkit/src/stores.
pub mod Isolation
use authmodules.Prelude.{
  ℕ, ◌+◌, Bool, ◌&&◌, Option, none, some, List, [], ◌∷◌, Text, text_discrete, includes,
  if◌then◌else◌, ◌==◌,
}
use authmodules.Contracts.Errors.{Reason, Result, err, StoreFailure, store_failure}
use authmodules.Memory.State.{MemoryState}
use authmodules.Memory.Action.{Action}
use authmodules.Outbox.State.{MemoryOutboxState, OutboxAction}

-- `TransactionScope`
pub data Scope : Type 0 where
  accounts identities credentials sessions challenges outbox : Scope
  other : Text → Scope

unfoldable pub scope_discrete : Discrete Scope
unfolding text_discrete
scope_discrete = hlevel text_discrete

-- A transaction that runs: the snapshot that it started from, and the copy that its calls see.
pub record Transaction : Type 0 where
  pub id : ℕ
  pub covers : List Scope
  pub before : MemoryState
  pub working : MemoryState
  pub outbox_before : MemoryOutboxState
  pub outbox_working : MemoryOutboxState

-- `has_outbox` says that the stores were made by `createMemoryAuthOutboxStores`; without it the
-- outbox stands for itself, and no transaction sees it. The queue of `createMemoryTransaction`
-- lets one transaction run at a time.
pub record World : Type 0 where
  pub has_outbox : Bool
  pub state : MemoryState
  pub outbox : MemoryOutboxState
  pub active : Option Transaction
  pub calls : ℕ
  pub transaction_sequence : ℕ

-- The `tx` argument of a call: none, or the object of the transaction with that number.
abbrev pub Tx : Type 0
Tx = Option ℕ

-- The transaction that a `tx` object gives access to, for a scope.
unfoldable pub transaction_for : World → Scope → ℕ → Option Transaction
unfolding scope_discrete
transaction_for w scope id = elim w.active [
  | none ↦ none
  | some t ↦ if t.id == id && includes scope_discrete t.covers scope then some t else none
]

-- What `memoryStateFor` and `memoryOutboxStateFor` answer is one of two objects: the state of the
-- stores, or the working copy of the transaction that runs. A call reads and writes that object.
pub data Place : Type 0 where
  owner working_copy : Place

unfoldable pub memory_state_for : World → Scope → Tx → Option Place
memory_state_for w scope none = some Place.owner
memory_state_for w scope (some id) = elim (transaction_for w scope id) [
  | none ↦ none
  | some t ↦ some Place.working_copy
]

unfoldable pub memory_outbox_state_for : World → Tx → Option Place
memory_outbox_state_for w none = some Place.owner
memory_outbox_state_for w (some id) = elim (transaction_for w Scope.outbox id) [
  | none ↦ none
  | some t ↦ if w.has_outbox then some Place.working_copy else none
]

-- The first line of each method: every scope that it names is there. The last answer is used.
state_for_all : World → Scope → List Scope → Tx → Option Place
state_for_all w scope [] tx = memory_state_for w scope tx
state_for_all w scope (second ∷ rest) tx = elim (memory_state_for w scope tx) [
  | none ↦ none
  | some _ ↦ state_for_all w second rest tx
]

-- The content of the object. There is a working copy only while a transaction runs.
state_at : World → Place → MemoryState
state_at w Place.owner = w.state
state_at w Place.working_copy = elim w.active [ none ↦ w.state | some t ↦ t.working ]

outbox_at : World → Place → MemoryOutboxState
outbox_at w Place.owner = w.outbox
outbox_at w Place.working_copy = elim w.active [ none ↦ w.outbox | some t ↦ t.outbox_working ]

-- The object has changed.
put_state : World → Place → MemoryState → World
put_state w Place.owner s = record w { state = s }
put_state w Place.working_copy s = elim w.active [
  | none ↦ w
  | some t ↦ record w { active = some (record t { working = s }) }
]

put_outbox : World → Place → MemoryOutboxState → World
put_outbox w Place.owner s = record w { outbox = s }
put_outbox w Place.working_copy s = elim w.active [
  | none ↦ w
  | some t ↦ record w { active = some (record t { outbox_working = s }) }
]

-- A call of a store, on the object that `memoryStateFor` gave.
call_on : {A : Type 0} → World → Action A → Option Place → Result StoreFailure A × World
unfolding put_state state_at
call_on w action none = (err (store_failure Reason.store_unavailable), w)
call_on w action (some place) =
    let (answer, changed) = action w.calls (state_at w place) in (answer, put_state w place changed)

-- A call of a store: the scopes that it reads or writes, and what it does with the state.
pub call : {A : Type 0} → World → Tx → Scope → List Scope → Action A → Result StoreFailure A × World
unfolding call_on state_for_all
call w tx scope scopes action =
    call_on (record w { calls = w.calls + 1 }) action (state_for_all w scope scopes tx)

call_outbox_on :
    {A : Type 0} → World → OutboxAction A → Option Place → Result StoreFailure A × World
unfolding put_outbox outbox_at
call_outbox_on w action none = (err (store_failure Reason.outbox_enqueue_failed), w)
call_outbox_on w action (some place) =
    let (answer, changed) = action w.calls (outbox_at w place) in
    (answer, put_outbox w place changed)

pub call_outbox : {A : Type 0} → World → Tx → OutboxAction A → Result StoreFailure A × World
unfolding call_outbox_on
call_outbox w tx action =
    call_outbox_on (record w { calls = w.calls + 1 }) action (memory_outbox_state_for w tx)
