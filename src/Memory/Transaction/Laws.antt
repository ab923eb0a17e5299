-- ===== src/Memory/Transaction/Laws.antt =====
-- What the end of a transaction leaves: `run` of packages/testkit/src/stores/transaction.ts.
use authmodules.Prelude.{
  if◌then◌else◌, ◌||◌, includes, ℕ_discrete, ◌≡◌, true, false, Text, text_discrete, arith,
}
use authmodules.Memory.World.{scope_discrete, World, Transaction, Scope}
use authmodules.Memory.Merge.Laws.{every_at, has_conflict_free, get-apply_changes}
use authmodules.Memory.Transaction.{
  can_commit_transaction_state, apply_memory_outbox_state, can_commit_memory_outbox_state,
  apply_transaction_state, scope_matches, any_conflict, itself, object, finish_transaction,
  can_commit, commit, Ending, committed, succeeds, fails,
}
use authmodules.Memory.WellFormed.{AllDistinct}
use authmodules.JsMap.{keys, Map, get}
use authmodules.Memory.State.{token_key_discrete, Cell, MemoryState}
use authmodules.JsMap.Order.{IsDistinct}
use authmodules.Memory.Merge.Matching.{matches_of_maps_match, apply_changes_of_match}
use authmodules.Memory.Merge.{maps_match, apply_changes, has_conflict, entry_matches}

module _ {K V I : Type 0} (dec : Discrete K) (same : Discrete I) (ident : V → I) where
  -- The two maps have the same keys, with the same objects under them.
  pub SameEntries : Map K V → Map K V → Type 0
  SameEntries left right = (k : K) → entry_matches dec same ident left right k ≡ true

  -- Where the transaction left an entry alone, the store keeps its own, and where it changed one,
  -- the store takes that of the transaction; and then the store still had that of the snapshot.
  pub IsMerge : Map K V → Map K V → Map K V → Map K V → Type 0
  IsMerge base before working after =
      (k : K)
      → (get dec k after ≡ (
          if entry_matches dec same ident before working k
          then get dec k base
          else get dec k working))
        × ((entry_matches dec same ident before working k
              || entry_matches dec same ident before base k)
            ≡ true)

  pub apply_changes-IsMerge :
      (base before working : Map K V)
      → has_conflict dec same ident base before working ≡ false
      → IsMerge base before working (apply_changes dec same ident base before working)
  unfolding IsMerge
  apply_changes-IsMerge base before working calm k = (
    get-apply_changes dec same ident base before working k,
    ground (arith, has_conflict_free dec same ident base before working k calm),
  )

  pub apply_changes-SameEntries :
      (base before working : Map K V)
      → IsDistinct dec (keys base)
      → maps_match dec same ident base before ≡ true
      → SameEntries (apply_changes dec same ident base before working) working
  unfolding SameEntries
  apply_changes-SameEntries base before working d h k =
      apply_changes_of_match dec same ident base before working k
        (matches_of_maps_match dec same ident base before k d h)

abbrev pub SameObjects : {A : Type 0} → Map Text (Cell A) → Map Text (Cell A) → Type 0
SameObjects = SameEntries text_discrete ℕ_discrete object

abbrev pub SameIndex : {K : Type 0} → Discrete K → Map K Text → Map K Text → Type 0
SameIndex dec = SameEntries dec text_discrete itself

abbrev pub MergedObjects :
    {A : Type 0}
    → Map Text (Cell A)
    → Map Text (Cell A)
    → Map Text (Cell A)
    → Map Text (Cell A)
    → Type 0
MergedObjects = IsMerge text_discrete ℕ_discrete object

abbrev pub MergedIndex :
    {K : Type 0} → Discrete K → Map K Text → Map K Text → Map K Text → Map K Text → Type 0
MergedIndex dec = IsMerge dec text_discrete itself

-- The maps of a scope hold the same entries in both states.
pub SameScope : MemoryState → MemoryState → Scope → Type 0
SameScope s t Scope.accounts = SameObjects s.accounts t.accounts
SameScope s t Scope.identities =
    SameObjects s.identities t.identities
    × SameIndex text_discrete s.identity_subjects t.identity_subjects
SameScope s t Scope.credentials =
    SameObjects s.credentials t.credentials
    × SameIndex text_discrete s.credentials_by_identity t.credentials_by_identity
SameScope s t Scope.sessions =
    SameObjects s.sessions t.sessions
    × SameIndex token_key_discrete s.sessions_by_token_hash t.sessions_by_token_hash
SameScope s t Scope.challenges = SameObjects s.challenges t.challenges
SameScope s t _ = Unit

-- Each map of the last state is the merge of those of the other three.
pub record Merged (s b w after : MemoryState) : Type 0 where
  pub accounts : MergedObjects s.accounts b.accounts w.accounts after.accounts
  pub identities : MergedObjects s.identities b.identities w.identities after.identities
  pub identity_subjects :
      MergedIndex text_discrete s.identity_subjects b.identity_subjects w.identity_subjects
        after.identity_subjects
  pub credentials : MergedObjects s.credentials b.credentials w.credentials after.credentials
  pub credentials_by_identity :
      MergedIndex text_discrete s.credentials_by_identity b.credentials_by_identity
        w.credentials_by_identity after.credentials_by_identity
  pub sessions : MergedObjects s.sessions b.sessions w.sessions after.sessions
  pub sessions_by_token_hash :
      MergedIndex token_key_discrete s.sessions_by_token_hash b.sessions_by_token_hash
        w.sessions_by_token_hash after.sessions_by_token_hash
  pub challenges : MergedObjects s.challenges b.challenges w.challenges after.challenges

apply_transaction_state-Merged :
    (s b w : MemoryState)
    → any_conflict s b w ≡ false
    → Merged s b w (apply_transaction_state s b w)
unfolding any_conflict apply_transaction_state
apply_transaction_state-Merged s b w calm = record {
  accounts = apply_changes-IsMerge _ _ _ _ _ _ (ground arith);
  identities = apply_changes-IsMerge _ _ _ _ _ _ (ground arith);
  identity_subjects = apply_changes-IsMerge _ _ _ _ _ _ (ground arith);
  credentials = apply_changes-IsMerge _ _ _ _ _ _ (ground arith);
  credentials_by_identity = apply_changes-IsMerge _ _ _ _ _ _ (ground arith);
  sessions = apply_changes-IsMerge _ _ _ _ _ _ (ground arith);
  sessions_by_token_hash = apply_changes-IsMerge _ _ _ _ _ _ (ground arith);
  challenges = apply_changes-IsMerge _ _ _ _ _ _ (ground arith);
}

apply_transaction_state-SameScope :
    (s b w : MemoryState) (scope : Scope)
    → AllDistinct s
    → scope_matches s b scope ≡ true
    → SameScope (apply_transaction_state s b w) w scope
unfolding apply_transaction_state scope_matches SameScope
apply_transaction_state-SameScope s b w Scope.accounts d h =
    apply_changes-SameEntries _ _ _ _ _ _ d.accounts h
apply_transaction_state-SameScope s b w Scope.identities d h = (
  apply_changes-SameEntries _ _ _ _ _ _ d.identities (ground arith),
  apply_changes-SameEntries _ _ _ _ _ _ d.identity_subjects (ground arith),
)
apply_transaction_state-SameScope s b w Scope.credentials d h = (
  apply_changes-SameEntries _ _ _ _ _ _ d.credentials (ground arith),
  apply_changes-SameEntries _ _ _ _ _ _ d.credentials_by_identity (ground arith),
)
apply_transaction_state-SameScope s b w Scope.sessions d h = (
  apply_changes-SameEntries _ _ _ _ _ _ d.sessions (ground arith),
  apply_changes-SameEntries _ _ _ _ _ _ d.sessions_by_token_hash (ground arith),
)
apply_transaction_state-SameScope s b w Scope.challenges d h =
    apply_changes-SameEntries _ _ _ _ _ _ d.challenges h
apply_transaction_state-SameScope s b w Scope.outbox d h = tt
apply_transaction_state-SameScope s b w (Scope.other name) d h = tt

finish_transaction-committed :
    (w : World) (t : Transaction) (ending : Ending)
    → (finish_transaction w t ending).0 ≡ committed
    → (can_commit w t ≡ true) × ((finish_transaction w t ending).1 ≡ commit w t)
unfolding finish_transaction
finish_transaction-committed w t fails h = ground arith
finish_transaction-committed w t succeeds h = ground arith

-- A commit loses no update: in each map, an entry that the transaction left alone keeps what the
-- store had, and an entry that it changed was still as in the snapshot and is now as in the transaction.
pub finish_transaction-Merged :
    (w : World) (t : Transaction) (ending : Ending)
    → (finish_transaction w t ending).0 ≡ committed
    → Merged w.state t.before t.working (finish_transaction w t ending).1.state
unfolding can_commit can_commit_transaction_state commit
finish_transaction-Merged w t ending h =
    let (able, e) = finish_transaction-committed w t ending h in
    rw e (apply_transaction_state-Merged w.state t.before t.working (ground arith))

-- A committed transaction is as if it ran alone at its end: in each scope that it covers, the store
-- holds exactly the entries that the transaction holds.
pub finish_transaction-SameScope :
    (w : World) (t : Transaction) (ending : Ending) (scope : Scope)
    → AllDistinct w.state
    → includes scope_discrete t.covers scope ≡ true
    → (finish_transaction w t ending).0 ≡ committed
    → SameScope (finish_transaction w t ending).1.state t.working scope
unfolding can_commit can_commit_transaction_state commit
finish_transaction-SameScope w t ending scope d covered h =
    let (able, e) = finish_transaction-committed w t ending h in
    rw e (
      apply_transaction_state-SameScope w.state t.before t.working scope d (
        every_at scope_discrete (scope_matches w.state t.before) t.covers scope (ground arith)
          covered))

-- The outbox after a commit, where there is one.
pub finish_transaction-outbox :
    (w : World) (t : Transaction) (ending : Ending)
    → w.has_outbox ≡ true
    → IsDistinct text_discrete (keys w.outbox.messages)
    → IsDistinct text_discrete (keys w.outbox.idempotency_keys)
    → (finish_transaction w t ending).0 ≡ committed
    → SameObjects (finish_transaction w t ending).1.outbox.messages t.outbox_working.messages
      × SameIndex text_discrete
          (finish_transaction w t ending).1.outbox.idempotency_keys
          t.outbox_working.idempotency_keys
      × ((finish_transaction w t ending).1.outbox.lease_sequence ≡ t.outbox_working.lease_sequence)
unfolding can_commit can_commit_memory_outbox_state commit apply_memory_outbox_state
finish_transaction-outbox w t ending there d c h =
    let (able, e) = finish_transaction-committed w t ending h in
    rw (e, there)
      (
        apply_changes-SameEntries _ _ _ _ _ _ d (ground arith),
        apply_changes-SameEntries _ _ _ _ _ _ c (ground arith),
        ground arith,
      )
