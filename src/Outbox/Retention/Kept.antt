-- ===== src/Outbox/Retention/Kept.antt =====
-- Which messages cleanupTerminal leaves: packages/testkit/src/stores/memory-outbox-store.ts.
use authmodules.Prelude.{
  test-no, suc, none-ne-some, some-eq-some, ◌∙◌, ap, sym, inr, inl, Bool-cases, ℕ, ◌<◌, ◌⊎◌, refl,
  Bool, true, false, Option, none, some, List, [], ◌∷◌, Text, text_discrete, take, ◌≡◌, All, arith,
}
use authmodules.JsMap.Order.{Agrees-self, Agrees, IsDistinct}
use authmodules.JsMap.Laws.{get-delete}
use Prim.Native.Nat.{zero, Ordering}
use authmodules.JsMap.{Map, keys, get}
use authmodules.Contracts.Values.{Time, snapshot_date}
use authmodules.Memory.State.{Cell}
use authmodules.Outbox.Message.{OutboxMessage, OutboxStatus}
use authmodules.Outbox.Retention.{
  TerminalStatus, CleanupInput, is_status, has_status, is_outbox_cleanup_terminal_input, eligible,
  Entry, eligible_entries, delete_entries, precedes, insert, sort, cleanup_before, cleanup_terminal,
  selected,
}
use authmodules.Outbox.State.{MemoryOutboxState}

true-ne-false : Path Bool true false → ⊥
true-ne-false h = ground arith

-- The entry is what the map holds under its key, and may be deleted.
module _ (i : CleanupInput) (before : Time) (m : Map Text (Cell OutboxMessage)) where
  Due : Entry → Type 0
  Due e = (get text_discrete e.0 m ≡ some e.1) × (eligible i before e.1.value ≡ true)

  All-eligible_entries :
      (entries : Map Text (Cell OutboxMessage))
      → Agrees text_discrete entries m
      → All Due (eligible_entries i before entries)
  unfolding eligible_entries Due
  All-eligible_entries [] a = tt
  All-eligible_entries (e ∷ rest) a = elim (Bool-cases (eligible i before e.1.value)) [
    | inl h ↦ rw h ((a.0, h), All-eligible_entries rest a.1)
    | inr h ↦ rw h (All-eligible_entries rest a.1)
  ]

  delete_entries-kept :
      (entries : List Entry) (s : MemoryOutboxState) (k : Text) (c : Cell OutboxMessage)
      → All Due entries
      → get text_discrete k m ≡ some c
      → eligible i before c.value ≡ false
      → get text_discrete k s.messages ≡ some c
      → get text_discrete k (delete_entries entries s).messages ≡ some c
  unfolding delete_entries Due
  delete_entries-kept [] s k c a there stays h = h
  delete_entries-kept ((key, d) ∷ rest) s k c a there stays h =
      delete_entries-kept rest _ k c a.1 there stays (elim (text_discrete key k) [
        | yes p ↦ absurd (
            true-ne-false (
              sym a.0.1
              ∙ ap (λ x. eligible i before x.value)
                  (some-eq-some (sym a.0.0 ∙ ap (λ j. get text_discrete j m) p ∙ there))
              ∙ stays))
        | no p ↦ ground (arith, get-delete text_discrete key k s.messages)
      ])

All-take : (P : Entry → Type 0) (n : ℕ) (xs : List Entry) → All P xs → All P (take n xs)
All-take P zero xs a = tt
All-take P (suc n) [] a = tt
All-take P (suc n) (x ∷ xs) a = (a.0, All-take P n xs a.1)

unfoldable pub status_of : TerminalStatus → OutboxStatus
status_of TerminalStatus.dispatched = OutboxStatus.dispatched
status_of TerminalStatus.dead = OutboxStatus.dead

-- The message has none of the statuses that the input names, is of another tenant than it names,
-- or was updated after `before`.
unfoldable pub IsKept : CleanupInput → Time → OutboxMessage → Type 0
unfolding status_of
IsKept i before m =
    All (λ t. ¬ (m.status ≡ status_of t)) i.statuses
    ⊎ (((tenant_id : Text) × (i.tenant_id ≡ some tenant_id) × ¬ (m.tenant_id ≡ tenant_id))
        ⊎ (before < m.updated_at))

is_status-other :
    (status : OutboxStatus) (t : TerminalStatus)
    → ¬ (status ≡ status_of t)
    → is_status status t ≡ false
unfolding is_status status_of
is_status-other OutboxStatus.dispatched TerminalStatus.dispatched other = absurd (other refl)
is_status-other OutboxStatus.dead TerminalStatus.dead other = absurd (other refl)
is_status-other OutboxStatus.dispatched TerminalStatus.dead other = refl
is_status-other OutboxStatus.dead TerminalStatus.dispatched other = refl
is_status-other OutboxStatus.pending t other = refl
is_status-other OutboxStatus.claimed t other = refl
is_status-other OutboxStatus.failed t other = refl

has_status-other :
    (ts : List TerminalStatus) (status : OutboxStatus)
    → All (λ t. ¬ (status ≡ status_of t)) ts
    → has_status ts status ≡ false
unfolding has_status
has_status-other [] status others = refl
has_status-other (t ∷ ts) status others =
    rw (is_status-other status t others.0) (has_status-other ts status others.1)

module _ (locale_compare : Text → Text → Ordering) where
  All-insert :
      (P : Entry → Type 0) (e : Entry) (xs : List Entry)
      → P e
      → All P xs
      → All P (insert locale_compare e xs)
  unfolding insert
  All-insert P e [] p a = (p, tt)
  All-insert P e (x ∷ xs) p a = elim (Bool-cases (precedes locale_compare e.1.value x.1.value)) [
    | inl h ↦ rw h (p, a)
    | inr h ↦ rw h (a.0, All-insert P e xs p a.1)
  ]

  All-sort : (P : Entry → Type 0) (xs : List Entry) → All P xs → All P (sort locale_compare xs)
  unfolding sort
  All-sort P [] a = tt
  All-sort P (x ∷ xs) a = All-insert P x (sort locale_compare xs) a.0 (All-sort P xs a.1)

  cleanup_before-kept :
      (i : CleanupInput) (time : Option Time) (before : Time) (ref : ℕ) (s : MemoryOutboxState)
      (k : Text) (c : Cell OutboxMessage)
      → time ≡ some before
      → IsDistinct text_discrete (keys s.messages)
      → get text_discrete k s.messages ≡ some c
      → eligible i before c.value ≡ false
      → get text_discrete k (cleanup_before locale_compare i time ref s).1.messages ≡ some c
  unfolding cleanup_before selected
  cleanup_before-kept i none before ref s k c e d h stays = absurd (none-ne-some e)
  cleanup_before-kept i (some time) before ref s k c e d h stays =
      let due = All-sort (Due i time s.messages) (eligible_entries i time s.messages) (
        All-eligible_entries i time s.messages s.messages
          (Agrees-self text_discrete s.messages d)) in
      let same : eligible i time c.value ≡ false =
        ap (λ b. eligible i b c.value) (some-eq-some e) ∙ stays in
      delete_entries-kept i time s.messages
        (take i.limit (sort locale_compare (eligible_entries i time s.messages))) s k c
        (All-take (Due i time s.messages) i.limit _ due) h same h

  kept-not_eligible :
      (i : CleanupInput) (before : Time) (m : OutboxMessage)
      → IsKept i before m
      → eligible i before m ≡ false
  unfolding eligible IsKept
  kept-not_eligible i before m (inl other) = rw (has_status-other i.statuses m.status other) refl
  kept-not_eligible i before m (inr (inl (tenant_id, asked, foreign))) =
      rw (asked, test-no (text_discrete m.tenant_id tenant_id) foreign) (ground arith)
  kept-not_eligible i before m (inr (inr later)) = ground arith

  -- On a store with distinct keys and a valid `before`, whatever the comparison of texts is,
  -- `cleanupTerminal` leaves every message that is of another status than the input names, of
  -- another tenant, or updated after `before`.
  pub cleanup_terminal-kept :
      (i : CleanupInput) (before : Time) (ref : ℕ) (s : MemoryOutboxState) (k : Text)
      (c : Cell OutboxMessage)
      → snapshot_date i.before ≡ some before
      → IsDistinct text_discrete (keys s.messages)
      → get text_discrete k s.messages ≡ some c
      → IsKept i before c.value
      → get text_discrete k (cleanup_terminal locale_compare i ref s).1.messages ≡ some c
  unfolding cleanup_terminal
  cleanup_terminal-kept i before ref s k c e d h stays =
      elim (Bool-cases (is_outbox_cleanup_terminal_input i)) [
        | inl v ↦ rw v (
            cleanup_before-kept i (snapshot_date i.before) before ref s k c e d h
              (kept-not_eligible i before c.value stays))
        | inr v ↦ rw v h
      ]
