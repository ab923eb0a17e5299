-- ===== src/Memory/Transaction.antt =====
-- packages/testkit/src/stores/transaction.ts, with `canCommitTransactionState`,
-- `applyTransactionState` of state.ts and their counterparts in memory-outbox-store.ts.
pub mod Laws
use authmodules.Prelude.{
  ℕ, ℕ_discrete, ◌+◌, Bool, true, false, not, ◌&&◌, ◌||◌, Option, none, some, List, [], ◌∷◌, Text,
  text_discrete, includes, every, if◌then◌else◌, ◌==◌, leb, ltb, length,
}
use authmodules.JsMap.{Map}
use authmodules.Memory.State.{MemoryState, Cell, token_key_discrete}
use authmodules.Memory.Merge.{maps_match, has_conflict, apply_changes}
use authmodules.Memory.World.{World, Transaction, Scope, scope_discrete}
use authmodules.Outbox.State.{MemoryOutboxState}

abbrev pub object {ℓ} : {A : Type ℓ} → Cell A → ℕ
object c = c.ref

abbrev pub itself : Text → Text
itself t = t

abbrev pub objects_match : {A : Type 0} → Map Text (Cell A) → Map Text (Cell A) → Bool
objects_match = maps_match text_discrete ℕ_discrete object

abbrev pub index_matches : {K : Type 0} → Discrete K → Map K Text → Map K Text → Bool
index_matches dec = maps_match dec text_discrete itself

-- `scopeStateKeys[scope] ?? []`, with the test on each of those maps.
unfoldable pub scope_matches : MemoryState → MemoryState → Scope → Bool
scope_matches state before Scope.accounts = objects_match state.accounts before.accounts
scope_matches state before Scope.identities =
    objects_match state.identities before.identities
    && index_matches text_discrete state.identity_subjects before.identity_subjects
scope_matches state before Scope.credentials =
    objects_match state.credentials before.credentials
    && index_matches text_discrete state.credentials_by_identity before.credentials_by_identity
scope_matches state before Scope.sessions =
    objects_match state.sessions before.sessions
    && index_matches token_key_discrete state.sessions_by_token_hash before.sessions_by_token_hash
scope_matches state before Scope.challenges = objects_match state.challenges before.challenges
scope_matches state before _ = true

abbrev pub object_conflict :
    {A : Type 0} → Map Text (Cell A) → Map Text (Cell A) → Map Text (Cell A) → Bool
object_conflict = has_conflict text_discrete ℕ_discrete object

abbrev pub index_conflict : {K : Type 0} → Discrete K → Map K Text → Map K Text → Map K Text → Bool
index_conflict dec = has_conflict dec text_discrete itself

unfoldable pub any_conflict : MemoryState → MemoryState → MemoryState → Bool
any_conflict s b w =
    object_conflict s.accounts b.accounts w.accounts
    || (object_conflict s.identities b.identities w.identities
        || (index_conflict text_discrete s.identity_subjects b.identity_subjects w.identity_subjects
            || (object_conflict s.credentials b.credentials w.credentials
                || (index_conflict text_discrete s.credentials_by_identity b.credentials_by_identity
                      w.credentials_by_identity
                    || (object_conflict s.sessions b.sessions w.sessions
                        || (index_conflict token_key_discrete s.sessions_by_token_hash
                              b.sessions_by_token_hash w.sessions_by_token_hash
                            || object_conflict s.challenges b.challenges w.challenges))))))

unfoldable pub can_commit_transaction_state :
    MemoryState → MemoryState → MemoryState → List Scope → Bool
unfolding any_conflict
can_commit_transaction_state state before working scopes =
    every (scope_matches state before) scopes && not (any_conflict state before working)

abbrev pub apply_objects :
    {A : Type 0} → Map Text (Cell A) → Map Text (Cell A) → Map Text (Cell A) → Map Text (Cell A)
apply_objects = apply_changes text_discrete ℕ_discrete object

abbrev pub apply_index :
    {K : Type 0} → Discrete K → Map K Text → Map K Text → Map K Text → Map K Text
apply_index dec = apply_changes dec text_discrete itself

unfoldable pub apply_transaction_state : MemoryState → MemoryState → MemoryState → MemoryState
apply_transaction_state s b w = record {
  accounts = apply_objects s.accounts b.accounts w.accounts;
  identities = apply_objects s.identities b.identities w.identities;
  identity_subjects =
      apply_index text_discrete s.identity_subjects b.identity_subjects w.identity_subjects;
  credentials = apply_objects s.credentials b.credentials w.credentials;
  credentials_by_identity =
      apply_index text_discrete s.credentials_by_identity b.credentials_by_identity
        w.credentials_by_identity;
  sessions = apply_objects s.sessions b.sessions w.sessions;
  sessions_by_token_hash =
      apply_index token_key_discrete s.sessions_by_token_hash b.sessions_by_token_hash
        w.sessions_by_token_hash;
  challenges = apply_objects s.challenges b.challenges w.challenges;
}

unfoldable pub can_commit_memory_outbox_state :
    MemoryOutboxState → MemoryOutboxState → MemoryOutboxState → Bool
can_commit_memory_outbox_state s b w =
    objects_match s.messages b.messages
    && (index_matches text_discrete s.idempotency_keys b.idempotency_keys
        && (s.lease_sequence == b.lease_sequence
            && (not (object_conflict s.messages b.messages w.messages)
                && (not (
                      index_conflict text_discrete s.idempotency_keys b.idempotency_keys
                        w.idempotency_keys)
                    && (w.lease_sequence == b.lease_sequence
                        || s.lease_sequence == b.lease_sequence)))))

unfoldable pub apply_memory_outbox_state :
    MemoryOutboxState → MemoryOutboxState → MemoryOutboxState → MemoryOutboxState
apply_memory_outbox_state s b w = record {
  messages = apply_objects s.messages b.messages w.messages;
  idempotency_keys =
      apply_index text_discrete s.idempotency_keys b.idempotency_keys w.idempotency_keys;
  lease_sequence =
      if not (w.lease_sequence == b.lease_sequence) then w.lease_sequence else s.lease_sequence;
}

supported_scope : Bool → Scope → Bool
supported_scope has_outbox Scope.outbox = has_outbox
supported_scope has_outbox (Scope.other name) = false
supported_scope has_outbox _ = true

-- `new Set(scopes).size === scopes.length`
no_scope_twice : List Scope → Bool
unfolding scope_discrete
no_scope_twice [] = true
no_scope_twice (s ∷ rest) = not (includes scope_discrete rest s) && no_scope_twice rest

pub is_transaction_request : Bool → List Scope → Bool
unfolding supported_scope no_scope_twice
is_transaction_request has_outbox scopes =
    (ltb 0 (length scopes) && leb (length scopes) 1000)
    && (no_scope_twice scopes && every (supported_scope has_outbox) scopes)

-- `run` up to the callback. A request that is refused changes nothing, and one that comes while
-- another transaction runs waits for it.
pub data Start : Type 0 where
  refused waits : Start
  started : World → Start

pub start : World → List Scope → Start
unfolding is_transaction_request
start w scopes =
    if not (is_transaction_request w.has_outbox scopes) then refused else elim w.active [
      | some _ ↦ waits
      | none ↦ started (record w {
        transaction_sequence = w.transaction_sequence + 1;
        active = some (record {
          id = w.transaction_sequence + 1;
          covers = scopes;
          before = w.state;
          working = w.state;
          outbox_before = w.outbox;
          outbox_working = w.outbox;
        });
      })
    ]

-- How the callback ends: `Result.ok`, or a failure or a thrown error.
pub data Ending : Type 0 where
  succeeds fails : Ending

pub data Outcome : Type 0 where
  committed rolled_back conflict : Outcome

unfoldable pub can_commit : World → Transaction → Bool
unfolding can_commit_transaction_state can_commit_memory_outbox_state
can_commit w t =
    can_commit_transaction_state w.state t.before t.working t.covers
    && (not w.has_outbox
        || can_commit_memory_outbox_state w.outbox t.outbox_before t.outbox_working)

unfoldable pub commit : World → Transaction → World
unfolding apply_transaction_state apply_memory_outbox_state
commit w t = record w {
  state = apply_transaction_state w.state t.before t.working;
  outbox =
      if w.has_outbox
      then apply_memory_outbox_state w.outbox t.outbox_before t.outbox_working
      else w.outbox;
  active = none;
}

-- `run` from the end of the callback.
unfoldable pub finish_transaction : World → Transaction → Ending → Outcome × World
unfolding can_commit commit
finish_transaction w t fails = (rolled_back, record w { active = none })
finish_transaction w t succeeds =
    if can_commit w t then (committed, commit w t) else (conflict, record w { active = none })

-- With no transaction there is nothing to finish.
pub finish : World → Ending → Option (Outcome × World)
unfolding finish_transaction
finish w ending = elim w.active [ none ↦ none | some t ↦ some (finish_transaction w t ending) ]
