-- ===== src/Outbox/Retention.antt =====
-- `cleanupTerminal` of packages/testkit/src/stores/memory-outbox-store.ts. `localeCompare` is no
-- code of the repository: what it says of two texts is a parameter.
pub mod Kept
use authmodules.Prelude.{
  suc, inr, inl, Bool-cases, ℕ, ◌≤◌, Bool, true, false, ◌&&◌, ◌||◌, Option, none, some, List, [],
  ◌∷◌, Text, text_discrete, test, leb, ltb, if◌then◌else◌, length, take, ◌≡◌, arith,
}
use Prim.Native.Nat.{zero, compare, Ordering}
use authmodules.JsMap.{Map, get, delete}
use authmodules.Contracts.Errors.{Reason, ok}
use authmodules.Contracts.Values.{Time, Date, snapshot_date, is_safe_text}
use authmodules.Memory.State.{Cell}
use authmodules.Outbox.Message.{OutboxMessage, OutboxStatus}
use authmodules.Outbox.State.{MemoryOutboxState, OutboxAction, fail, outbox_key}

-- `OutboxTerminalStatus`
pub data TerminalStatus : Type 0 where
  dispatched dead : TerminalStatus

pub record CleanupInput : Type 0 where
  pub before : Date
  pub limit : ℕ
  pub statuses : List TerminalStatus
  pub tenant_id : Option Text

unfoldable pub is_status : OutboxStatus → TerminalStatus → Bool
is_status OutboxStatus.dispatched TerminalStatus.dispatched = true
is_status OutboxStatus.dead TerminalStatus.dead = true
is_status _ _ = false

-- `input.statuses.includes(message.status)`
unfoldable pub has_status : List TerminalStatus → OutboxStatus → Bool
unfolding is_status
has_status [] status = false
has_status (s ∷ rest) status = is_status status s || has_status rest status

-- One status, or both.
are_statuses : List TerminalStatus → Bool
are_statuses (s ∷ []) = true
are_statuses (TerminalStatus.dispatched ∷ TerminalStatus.dead ∷ []) = true
are_statuses (TerminalStatus.dead ∷ TerminalStatus.dispatched ∷ []) = true
are_statuses _ = false

safe_tenant : Option Text → Bool
safe_tenant none = true
safe_tenant (some t) = is_safe_text t 512 true

unfoldable pub is_outbox_cleanup_terminal_input : CleanupInput → Bool
unfolding are_statuses safe_tenant
is_outbox_cleanup_terminal_input i =
    (ltb 0 i.limit && leb i.limit 1000) && (are_statuses i.statuses && safe_tenant i.tenant_id)

for_tenant : Option Text → Text → Bool
unfolding text_discrete
for_tenant none tenant_id = true
for_tenant (some t) tenant_id = test (text_discrete tenant_id t)

-- The test of `filter`.
unfoldable pub eligible : CleanupInput → Time → OutboxMessage → Bool
unfolding has_status for_tenant
eligible i before m =
    has_status i.statuses m.status
    && (leb m.updated_at before && for_tenant i.tenant_id m.tenant_id)

abbrev pub Entry : Type 0
Entry = Text × Cell OutboxMessage

unfoldable pub eligible_entries : CleanupInput → Time → Map Text (Cell OutboxMessage) → List Entry
unfolding eligible
eligible_entries i before [] = []
eligible_entries i before (e ∷ rest) =
    let others = eligible_entries i before rest in
    if eligible i before e.1.value then e ∷ others else others

-- The loop over the messages to delete, on one of them.
delete_key : OutboxMessage → Map Text Text → Map Text Text
delete_key m index = elim m.idempotency_key [
  | none ↦ index
  | some idempotency_key ↦
      let key = outbox_key m.tenant_id idempotency_key in
      elim (get text_discrete key index) [
        | none ↦ index
        | some id ↦
            if test (text_discrete id m.message_id) then delete text_discrete key index else index
      ]
]

unfoldable pub delete_entries : List Entry → MemoryOutboxState → MemoryOutboxState
unfolding delete_key
delete_entries [] s = s
delete_entries ((key, c) ∷ rest) s = delete_entries rest (record s {
  messages = delete text_discrete key s.messages;
  idempotency_keys = delete_key c.value s.idempotency_keys;
})

length-take : (n : ℕ) (xs : List Entry) → length (take n xs) ≤ n
length-take zero xs = omega arith
length-take (suc n) [] = omega arith
length-take (suc n) (x ∷ xs) = omega (arith, length-take n xs)

module _ (locale_compare : Text → Text → Ordering) where
  -- The comparison of `sort` is not positive.
  pub precedes : OutboxMessage → OutboxMessage → Bool
  precedes a b = elim (compare a.updated_at b.updated_at) [
    | Ordering.lt ↦ true
    | Ordering.gt ↦ false
    | Ordering.eq ↦ elim (locale_compare a.tenant_id b.tenant_id) [
      | Ordering.lt ↦ true
      | Ordering.gt ↦ false
      | Ordering.eq ↦ elim (locale_compare a.message_id b.message_id) [
        | Ordering.gt ↦ false
        | _ ↦ true
      ]
    ]
  ]

  pub insert : Entry → List Entry → List Entry
  insert e [] = e ∷ []
  insert e (x ∷ xs) =
      let after = x ∷ insert e xs in if precedes e.1.value x.1.value then e ∷ x ∷ xs else after

  -- The stable sort.
  pub sort : List Entry → List Entry
  unfolding insert precedes
  sort [] = []
  sort (e ∷ rest) = insert e (sort rest)

  pub selected : CleanupInput → Time → Map Text (Cell OutboxMessage) → List Entry
  unfolding sort eligible_entries
  selected i before m = take i.limit (sort (eligible_entries i before m))

  pub cleanup_before : CleanupInput → Option Time → OutboxAction ℕ
  unfolding selected delete_entries
  cleanup_before i none ref s = fail Reason.outbox_lease_conflict ref s
  cleanup_before i (some before) ref s =
      let chosen = selected i before s.messages in (ok (length chosen), delete_entries chosen s)

  unfoldable pub cleanup_terminal : CleanupInput → OutboxAction ℕ
  unfolding cleanup_before is_outbox_cleanup_terminal_input
  cleanup_terminal i ref s =
      if is_outbox_cleanup_terminal_input i
      then cleanup_before i (snapshot_date i.before) ref s
      else fail Reason.outbox_lease_conflict ref s

  cleanup_before-limit :
      (i : CleanupInput) (time : Option Time) (ref : ℕ) (s : MemoryOutboxState) (n : ℕ)
      → (cleanup_before i time ref s).0 ≡ ok n
      → n ≤ i.limit
  unfolding cleanup_before selected
  cleanup_before-limit i none ref s n h = absurd (ground arith)
  cleanup_before-limit i (some time) ref s n h =
      ground (arith, length-take i.limit (sort (eligible_entries i time s.messages)))

  -- The count that `cleanupTerminal` answers is at most the limit, and the limit at most 1000.
  pub cleanup_terminal-limit :
      (i : CleanupInput) (ref : ℕ) (s : MemoryOutboxState) (n : ℕ)
      → (cleanup_terminal i ref s).0 ≡ ok n
      → (n ≤ i.limit) × (i.limit ≤ 1000)
  unfolding cleanup_terminal is_outbox_cleanup_terminal_input
  cleanup_terminal-limit i ref s n h = elim (Bool-cases (is_outbox_cleanup_terminal_input i)) [
    | inl v ↦ (cleanup_before-limit i (snapshot_date i.before) ref s n (ground arith), ground arith)
    | inr v ↦ absurd (ground arith)
  ]
