-- ===== src/Outbox/State/Batches.antt =====
-- What `enqueueBatch` of packages/testkit/src/stores/memory-outbox-store.ts stages of a batch.
pub mod Answered
use authmodules.Prelude.{
  some-eq-some, none-ne-some, ap, sym, text_discrete, ◌≡◌, ◌∙◌, inl, inr, refl, Bool-cases,
  Option-cases, none, some, false, List, [], ◌∷◌, ◌++◌, Text, arith, includes,
}
use mathlib.Core.Path.{subst}
use mathlib.Core.Path.{subst}
use authmodules.JsMap.{get, has}
use authmodules.Memory.State.{Cell}
use authmodules.Memory.Action.{cell}
use authmodules.Outbox.Message.{OutboxMessage}
use authmodules.Outbox.State.{
  outbox_key, MemoryOutboxState, Staged, stage_new, stage_existing, stage_keyed, stage, stage_all,
}

abbrev pub key_of : OutboxMessage → Text
key_of m = outbox_key m.tenant_id m.message_id

-- The idempotency key of the message leads to a message that is stored.
pub record IsKnown (s : MemoryOutboxState) (m : OutboxMessage) (c : Cell OutboxMessage)
    : Type 0 where
  pub idempotency_key : Text
  pub id : Text
  pub keyed : m.idempotency_key ≡ some idempotency_key
  pub leads :
      get text_discrete (outbox_key m.tenant_id idempotency_key) s.idempotency_keys ≡ some id
  pub there : get text_discrete (outbox_key m.tenant_id id) s.messages ≡ some c

-- What one message of the batch adds to what is staged.
data Adds (s : MemoryOutboxState) (m : OutboxMessage) (st next : Staged) : Type 0 where
  fresh :
      has text_discrete (key_of m) s.messages ≡ false
      → next.messages ≡ st.messages ++ (key_of m, m) ∷ []
      → next.result ≡ st.result ++ m ∷ []
      → Adds s m st next
  known :
      (c : Cell OutboxMessage)
      → IsKnown s m c
      → next.messages ≡ st.messages
      → next.result ≡ st.result ++ record (c.value) { lease = none } ∷ []
      → Adds s m st next

-- A step of the third loop from `st`, whose keys it sees.
Staging : MemoryOutboxState → OutboxMessage → Staged → Staged → Type 0
Staging s m st next =
    (includes text_discrete st.seen_message_ids (key_of m) ≡ false)
    × (next.seen_message_ids ≡ st.seen_message_ids ++ key_of m ∷ [])
    × Adds s m st next

stage_new-Adds :
    (s : MemoryOutboxState) (m : OutboxMessage) (st next : Staged)
    → stage_new s (key_of m) m st ≡ some next
    → (next.seen_message_ids ≡ st.seen_message_ids) × Adds s m st next
unfolding stage_new
stage_new-Adds s m st next h = elim (Bool-cases (has text_discrete (key_of m) s.messages)) [
  | inl old ↦ absurd (none-ne-some (rw old at h))
  | inr new ↦
      let e = some-eq-some (rw new at h) in
      (
        sym (ap (λ x. x.seen_message_ids) e),
        Adds.fresh new (sym (ap (λ x. x.messages) e)) (sym (ap (λ x. x.result) e)),
      )
]

stage_existing-Adds :
    (s : MemoryOutboxState) (m : OutboxMessage) (k id : Text) (st next : Staged)
    → m.idempotency_key ≡ some k
    → get text_discrete (outbox_key m.tenant_id k) s.idempotency_keys ≡ some id
    → stage_existing s m id st ≡ some next
    → (next.seen_message_ids ≡ st.seen_message_ids) × Adds s m st next
unfolding stage_existing
stage_existing-Adds s m k id st next keyed leads h =
    elim (Option-cases (get text_discrete (outbox_key m.tenant_id id) s.messages)) [
      | inl e ↦ absurd (ground arith)
      | inr (c, e) ↦
          let f : record st { result = st.result ++ record (c.value) { lease = none } ∷ [] }
              ≡ next =
            ground arith in
          (
            sym (ap (λ x. x.seen_message_ids) f),
            Adds.known c
                (record { idempotency_key = k; id = id; keyed = keyed; leads = leads; there = e })
                (sym (ap (λ x. x.messages) f)) (sym (ap (λ x. x.result) f)),
          )
    ]

-- Only what is staged to be stored and answered matters to `Adds`.
Adds-from :
    (s : MemoryOutboxState) (m : OutboxMessage) (st seen next : Staged)
    → seen.messages ≡ st.messages
    → seen.result ≡ st.result
    → Adds s m seen next
    → Adds s m st next
Adds-from s m st seen next e f (Adds.fresh new a b) =
    Adds.fresh new (a ∙ ap (λ x. x ++ (key_of m, m) ∷ []) e) (b ∙ ap (λ x. x ++ m ∷ []) f)
Adds-from s m st seen next e f (Adds.known c k a b) =
    Adds.known c k (a ∙ e) (b ∙ ap (λ x. x ++ record (c.value) { lease = none } ∷ []) f)

stage_keyed-Adds :
    (s : MemoryOutboxState) (m : OutboxMessage) (k : Text) (st next : Staged)
    → m.idempotency_key ≡ some k
    → stage_keyed s (key_of m) m (outbox_key m.tenant_id k) st ≡ some next
    → (next.seen_message_ids ≡ st.seen_message_ids) × Adds s m st next
unfolding stage_keyed
stage_keyed-Adds s m k st next keyed h =
    let key = outbox_key m.tenant_id k in
    let seen : Staged = record st {
      seen_idempotency_keys = st.seen_idempotency_keys ++ key ∷ [];
    } in
    let named : Staged = record seen {
      idempotency_keys = st.idempotency_keys ++ (key, m.message_id) ∷ [];
    } in
    elim (Bool-cases (includes text_discrete st.seen_idempotency_keys key)) [
      | inl twice ↦ absurd (none-ne-some (rw twice at h))
      | inr once ↦ elim (Option-cases (get text_discrete key s.idempotency_keys)) [
        | inl e ↦
            let (ids, adds) = stage_new-Adds s m named next (rw (once, e) at h) in
            (ids, Adds-from s m st named next refl refl adds)
        | inr (id, e) ↦
            let (ids, adds) = stage_existing-Adds s m k id seen next keyed e (rw (once, e) at h) in
            (ids, Adds-from s m st seen next refl refl adds)
      ]
    ]

stage-Staging :
    (s : MemoryOutboxState) (m : OutboxMessage) (st next : Staged)
    → stage s m st ≡ some next
    → Staging s m st next
unfolding stage Staging
stage-Staging s m st next h =
    let seen : Staged = record st { seen_message_ids = st.seen_message_ids ++ key_of m ∷ [] } in
    elim (Bool-cases (includes text_discrete st.seen_message_ids (key_of m))) [
      | inl twice ↦ absurd (none-ne-some (rw twice at h))
      | inr once ↦ elim (Option-cases m.idempotency_key) [
        | inl e ↦
            let (ids, adds) = stage_new-Adds s m seen next (rw (once, e) at h) in
            (once, ids, Adds-from s m st seen next refl refl adds)
        | inr (k, e) ↦
            let (ids, adds) = stage_keyed-Adds s m k seen next e (rw (once, e) at h) in
            (once, ids, Adds-from s m st seen next refl refl adds)
      ]
    ]

-- The messages that are stored and answered for the rest of the batch, after keys that are seen.
pub data Batch (s : MemoryOutboxState)
    : List Text
      → List OutboxMessage
      → List (Text × OutboxMessage)
      → List OutboxMessage
      → Type 0 where
  empty : {seen : List Text} → Batch s seen [] [] []
  fresh :
      {seen : List Text} {m : OutboxMessage} {ms : List OutboxMessage}
      {new : List (Text × OutboxMessage)} {rs : List OutboxMessage}
      → includes text_discrete seen (key_of m) ≡ false
      → has text_discrete (key_of m) s.messages ≡ false
      → Batch s (seen ++ key_of m ∷ []) ms new rs
      → Batch s seen (m ∷ ms) ((key_of m, m) ∷ new) (m ∷ rs)
  known :
      {seen : List Text} {m : OutboxMessage} {ms : List OutboxMessage}
      {new : List (Text × OutboxMessage)} {rs : List OutboxMessage}
      → (c : Cell OutboxMessage) → IsKnown s m c
      → Batch s (seen ++ key_of m ∷ []) ms new rs
      → Batch s seen (m ∷ ms) new (record (c.value) { lease = none } ∷ rs)

append_assoc : {A : Type 0} (xs ys zs : List A) → (xs ++ ys) ++ zs ≡ xs ++ (ys ++ zs)
append_assoc [] ys zs = refl
append_assoc (x ∷ xs) ys zs = ap (λ l. x ∷ l) (append_assoc xs ys zs)

append_nil : {A : Type 0} (xs : List A) → xs ++ [] ≡ xs
append_nil [] = refl
append_nil (x ∷ xs) = ap (λ l. x ∷ l) (append_nil xs)

-- What the third loop stages from `st` on.
pub StagedFrom : MemoryOutboxState → List OutboxMessage → Staged → Staged → Type 0
StagedFrom s ms st last =
    (new : List (Text × OutboxMessage)) × (rs : List OutboxMessage) × Batch s st.seen_message_ids ms
      new rs
    × (last.messages ≡ st.messages ++ new)
    × (last.result ≡ st.result ++ rs)

extend :
    (s : MemoryOutboxState) (m : OutboxMessage) (ms : List OutboxMessage) (st next last : Staged)
    → Staging s m st next
    → StagedFrom s ms next last
    → StagedFrom s (m ∷ ms) st last
unfolding Staging StagedFrom
extend s m ms st next last (once, ids, Adds.fresh free a b) (new, rs, batch, c, d) = (
  (key_of m, m) ∷ new,
  m ∷ rs,
  Batch.fresh once free (subst (λ i. Batch s i ms new rs) ids batch),
  c ∙ ap (λ x. x ++ new) a ∙ append_assoc st.messages _ new,
  d ∙ ap (λ x. x ++ rs) b ∙ append_assoc st.result _ rs,
)
extend s m ms st next last (once, ids, Adds.known cell k a b) (new, rs, batch, c, d) = (
  new,
  record (cell.value) { lease = none } ∷ rs,
  Batch.known cell k (subst (λ i. Batch s i ms new rs) ids batch),
  c ∙ ap (λ x. x ++ new) a,
  d ∙ ap (λ x. x ++ rs) b ∙ append_assoc st.result _ rs,
)

pub stage_all-StagedFrom :
    (s : MemoryOutboxState) (ms : List OutboxMessage) (st last : Staged)
    → stage_all s ms st ≡ some last
    → StagedFrom s ms st last
unfolding stage_all StagedFrom
stage_all-StagedFrom s [] st last h =
    let e = some-eq-some h in
    (
      [],
      [],
      Batch.empty,
      sym (ap (λ x. x.messages) e) ∙ sym (append_nil st.messages),
      sym (ap (λ x. x.result) e) ∙ sym (append_nil st.result),
    )
stage_all-StagedFrom s (m ∷ ms) st last h = elim (Option-cases (stage s m st)) [
  | inl e ↦ absurd (ground arith)
  | inr (next, e) ↦
      let rest : stage_all s ms next ≡ some last = ground arith in
      extend s m ms st next last (stage-Staging s m st next e)
        (stage_all-StagedFrom s ms next last rest)
]
