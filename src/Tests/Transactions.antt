-- ===== src/Tests/Transactions.antt =====
-- The theorems on the transaction, at one that revokes a session.
use authmodules.Memory.World.{scope_discrete, World, Transaction, Scope, call, call_outbox}
use authmodules.Prelude.{
  text_discrete, ◌∙◌, sym, includes, ◌≡◌, ◌≢◌, refl, true, none, some, [], ◌∷◌, ◌+◌, ◌⊎◌,
}
use authmodules.Contracts.Values.{at}
use authmodules.Tests.Memory.{store-IsWellFormed}
use authmodules.Contracts.Errors.{Reason, err, store_failure}
use authmodules.Memory.State.{MemoryState, session_key}
use authmodules.Memory.Action.{cell}
use authmodules.Memory.Sessions
use authmodules.Memory.World.Isolation.{call-isolated, call-Covered, SamePublic, Covered}
use authmodules.Memory.Transaction.{finish_transaction, Outcome, Ending}
use authmodules.Memory.Transaction.Laws.{
  finish_transaction-Merged, finish_transaction-SameScope, finish_transaction-outbox, Merged,
  SameScope, SameObjects, SameIndex,
}
use authmodules.Outbox.State.{create_empty_outbox_state, enqueue_batch}
use authmodules.Tests.Data.{store, tenant, session_id, revoked_session}

-- What the transaction has made of the store.
abbrev revoked_store : MemoryState
revoked_store = record store {
  sessions = (session_key tenant session_id, cell 7 revoked_session) ∷ [];
}

abbrev transaction : Transaction
transaction = record {
  id = 1;
  covers = Scope.accounts ∷ Scope.sessions ∷ [];
  before = store;
  working = revoked_store;
  outbox_before = create_empty_outbox_state;
  outbox_working = create_empty_outbox_state;
}

abbrev world : World
world = record {
  has_outbox = true;
  state = store;
  outbox = create_empty_outbox_state;
  active = some transaction;
  calls = 8;
  transaction_sequence = 1;
}

-- Another call has changed the session meanwhile.
abbrev later_world : World
later_world = record world {
  state = record store { sessions = (session_key tenant session_id, cell 8 revoked_session) ∷ [] };
}

commits : (finish_transaction world transaction Ending.succeeds).0 ≡ Outcome.committed
unfolding finish_transaction authmodules.Memory.Transaction.scope_matches
    authmodules.Memory.Merge.maps_match authmodules.Memory.Merge.entry_matches authmodules.JsMap.get
    text_discrete authmodules.Memory.State.join_key authmodules.Memory.State.token_key_discrete
    authmodules.Memory.Merge.has_conflict
commits = refl

conflicts : (finish_transaction later_world transaction Ending.succeeds).0 ≡ Outcome.conflict
unfolding finish_transaction authmodules.Memory.Transaction.scope_matches
    authmodules.Memory.Merge.maps_match authmodules.Memory.Merge.entry_matches authmodules.JsMap.get
    text_discrete authmodules.Memory.State.join_key
conflicts = refl

conflict-ne-committed : Outcome.conflict ≢ Outcome.committed
conflict-ne-committed h = cc

not_committed : (finish_transaction later_world transaction Ending.succeeds).0 ≢ Outcome.committed
not_committed h = conflict-ne-committed (sym conflicts ∙ h)

finish_transaction-Merged_example :
    Merged world.state transaction.before transaction.working
      (finish_transaction world transaction Ending.succeeds).1.state
finish_transaction-Merged_example =
    finish_transaction-Merged world transaction Ending.succeeds commits

covered : includes scope_discrete transaction.covers Scope.sessions ≡ true
unfolding scope_discrete
covered = refl

finish_transaction-SameScope_example :
    SameScope
      (finish_transaction world transaction Ending.succeeds).1.state
      transaction.working
      Scope.sessions
finish_transaction-SameScope_example =
    finish_transaction-SameScope world transaction Ending.succeeds Scope.sessions
      store-IsWellFormed.1 covered commits

finish_transaction-outbox_example :
    SameObjects
      (finish_transaction world transaction Ending.succeeds).1.outbox.messages
      transaction.outbox_working.messages
    × SameIndex text_discrete
        (finish_transaction world transaction Ending.succeeds).1.outbox.idempotency_keys
        transaction.outbox_working.idempotency_keys
    × ((finish_transaction world transaction Ending.succeeds).1.outbox.lease_sequence
        ≡ transaction.outbox_working.lease_sequence)
finish_transaction-outbox_example =
    finish_transaction-outbox world transaction Ending.succeeds refl tt tt commits

call-isolated_example :
    SamePublic
      (call world (some 1) Scope.sessions [] (Sessions.revoke tenant session_id (at 50))).1
      world
    × ((call world none Scope.sessions [] (Sessions.revoke tenant session_id (at 50))).1.active
        ≡ world.active)
    × SamePublic (call_outbox world (some 1) (enqueue_batch [])).1 world
    × ((call_outbox world none (enqueue_batch [])).1.active ≡ world.active)
call-isolated_example =
    call-isolated world 1 Scope.sessions [] (Sessions.revoke tenant session_id (at 50))
      (enqueue_batch [])

call-Covered_example :
    Covered world 2 Scope.sessions []
    ⊎ (call world (some 2) Scope.sessions [] (Sessions.revoke tenant session_id (at 50))
        ≡ (err (store_failure Reason.store_unavailable), record world { calls = world.calls + 1 }))
call-Covered_example =
    call-Covered world 2 Scope.sessions [] (Sessions.revoke tenant session_id (at 50))
