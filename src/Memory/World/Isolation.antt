-- ===== src/Memory/World/Isolation.antt =====
-- What a call with a transaction can see and touch: `memoryStateFor` of
-- packages/testkit/src/stores/state.ts.
use authmodules.Memory.World.{
  Option, call_on, call_outbox, call_outbox_on, put_outbox, memory_outbox_state_for, Place,
  includes, memory_state_for, state_for_all, put_state, World, Transaction, Scope, call,
  transaction_for, scope_discrete,
}
use authmodules.Prelude.{
  ◌∷◌, [], includes, ◌⊎◌, inr, inl, Option-cases, ℕ, ◌≡◌, refl, true, none, some, List, arith, ◌+◌,
}
use authmodules.Memory.State.{MemoryState}
use authmodules.Outbox.State.{MemoryOutboxState, OutboxAction}
use authmodules.Contracts.Errors.{Reason, err, store_failure}
use authmodules.Memory.Action.{Action}

-- What the stores hold for the calls without a transaction.
pub SamePublic : World → World → Type 0
SamePublic v w = (v.state ≡ w.state) × (v.outbox ≡ w.outbox)

put_working_copy-Public :
    (w : World) (s : MemoryState) → SamePublic (put_state w Place.working_copy s) w
unfolding put_state SamePublic
put_working_copy-Public w s = elim (Option-cases w.active) [
  | inl e ↦ rw e (refl, refl)
  | inr (t, e) ↦ rw e (refl, refl)
]

put_outbox_working_copy-Public :
    (w : World) (s : MemoryOutboxState) → SamePublic (put_outbox w Place.working_copy s) w
unfolding put_outbox SamePublic
put_outbox_working_copy-Public w s = elim (Option-cases w.active) [
  | inl e ↦ rw e (refl, refl)
  | inr (t, e) ↦ rw e (refl, refl)
]

-- With a transaction, `memoryStateFor` answers no object but the working copy.
memory_state_for-working_copy :
    (w : World) (scope : Scope) (id : ℕ) (place : Place)
    → memory_state_for w scope (some id) ≡ some place
    → place ≡ Place.working_copy
unfolding memory_state_for
memory_state_for-working_copy w scope id place h = ground arith

state_for_all-working_copy :
    (w : World) (scope : Scope) (scopes : List Scope) (id : ℕ) (place : Place)
    → state_for_all w scope scopes (some id) ≡ some place
    → place ≡ Place.working_copy
unfolding state_for_all
state_for_all-working_copy w scope [] id place h = memory_state_for-working_copy w scope id place h
state_for_all-working_copy w scope (second ∷ rest) id place h =
    elim (Option-cases (memory_state_for w scope (some id))) [
      | inl e ↦ absurd (ground arith)
      | inr (_, e) ↦ state_for_all-working_copy w second rest id place (ground arith)
    ]

state_for_all-owner :
    (w : World) (scope : Scope) (scopes : List Scope)
    → state_for_all w scope scopes none ≡ some Place.owner
unfolding state_for_all memory_state_for
state_for_all-owner w scope [] = refl
state_for_all-owner w scope (second ∷ rest) = state_for_all-owner w second rest

memory_outbox_state_for-working_copy :
    (w : World) (id : ℕ) (place : Place)
    → memory_outbox_state_for w (some id) ≡ some place
    → place ≡ Place.working_copy
unfolding memory_outbox_state_for
memory_outbox_state_for-working_copy w id place h = ground arith

call_on-Public :
    {A : Type 0} (w : World) (action : Action A) (o : Option Place)
    → ((place : Place) → o ≡ some place → place ≡ Place.working_copy)
    → SamePublic (call_on w action o).1 w
unfolding call_on SamePublic
call_on-Public w action none copy = (refl, refl)
call_on-Public w action (some Place.owner) copy = absurd (cc (copy Place.owner refl))
call_on-Public w action (some Place.working_copy) copy = put_working_copy-Public w _

call_outbox_on-Public :
    {A : Type 0} (w : World) (action : OutboxAction A) (o : Option Place)
    → ((place : Place) → o ≡ some place → place ≡ Place.working_copy)
    → SamePublic (call_outbox_on w action o).1 w
unfolding call_outbox_on SamePublic
call_outbox_on-Public w action none copy = (refl, refl)
call_outbox_on-Public w action (some Place.owner) copy = absurd (cc (copy Place.owner refl))
call_outbox_on-Public w action (some Place.working_copy) copy = put_outbox_working_copy-Public w _

-- A call inside a transaction changes nothing that the calls outside see, and a call outside
-- changes nothing that the transaction sees: both hold of the calls of the stores and of the calls
-- of the outbox.
pub call-isolated :
    {A B : Type 0} (w : World) (id : ℕ) (scope : Scope) (scopes : List Scope) (action : Action A)
    (outbox_action : OutboxAction B)
    → SamePublic (call w (some id) scope scopes action).1 w
      × ((call w none scope scopes action).1.active ≡ w.active)
      × SamePublic (call_outbox w (some id) outbox_action).1 w
      × ((call_outbox w none outbox_action).1.active ≡ w.active)
unfolding call call_on call_outbox call_outbox_on put_state put_outbox memory_outbox_state_for
    SamePublic
call-isolated w id scope scopes action outbox_action =
    let after = record w { calls = w.calls + 1 } in
    (
      call_on-Public after action (state_for_all w scope scopes (some id))
          (state_for_all-working_copy w scope scopes id),
      rw (state_for_all-owner w scope scopes) refl,
      call_outbox_on-Public after outbox_action (memory_outbox_state_for w (some id))
          (memory_outbox_state_for-working_copy w id),
      refl,
    )

transaction_for-covered :
    (w : World) (id : ℕ) (scope : Scope) (t : Transaction)
    → transaction_for w scope id ≡ some t
    → (w.active ≡ some t) × (t.id ≡ id) × (includes scope_discrete t.covers scope ≡ true)
unfolding transaction_for
transaction_for-covered w id scope t h = elim (Option-cases w.active) [
  | inl e ↦ absurd (ground arith)
  | inr (u, e) ↦ ground arith
]

-- Every scope that the call names belongs to the transaction that runs.
pub Covered : World → ℕ → Scope → List Scope → Type 0
Covered w id scope [] =
    (t : Transaction) × (w.active ≡ some t)
    × (t.id ≡ id)
    × (includes scope_discrete t.covers scope ≡ true)
Covered w id scope (second ∷ rest) =
    ((t : Transaction) × (w.active ≡ some t)
      × (t.id ≡ id)
      × (includes scope_discrete t.covers scope ≡ true))
    × Covered w id second rest

memory_state_for-Covered :
    (w : World) (id : ℕ) (scope : Scope) (s : Place)
    → memory_state_for w scope (some id) ≡ some s
    → (t : Transaction) × (w.active ≡ some t)
      × (t.id ≡ id)
      × (includes scope_discrete t.covers scope ≡ true)
unfolding memory_state_for
memory_state_for-Covered w id scope s h = elim (Option-cases (transaction_for w scope id)) [
  | inl e ↦ absurd (ground arith)
  | inr (t, e) ↦ let (a, b, c) = transaction_for-covered w id scope t e in (t, a, b, c)
]

state_for_all-Covered :
    (w : World) (id : ℕ) (scope : Scope) (scopes : List Scope) (s : Place)
    → state_for_all w scope scopes (some id) ≡ some s
    → Covered w id scope scopes
unfolding state_for_all Covered
state_for_all-Covered w id scope [] s h = memory_state_for-Covered w id scope s h
state_for_all-Covered w id scope (second ∷ rest) s h =
    elim (Option-cases (memory_state_for w scope (some id))) [
      | inl e ↦ absurd (ground arith)
      | inr (u, e) ↦ (
        memory_state_for-Covered w id scope u e,
        state_for_all-Covered w id second rest s (ground arith),
      )
    ]

-- A call with a transaction that does not run, or does not cover a scope of the call, answers
-- `store_unavailable` and changes nothing; otherwise every scope of the call is covered.
pub call-Covered :
    {A : Type 0} (w : World) (id : ℕ) (scope : Scope) (scopes : List Scope) (action : Action A)
    → Covered w id scope scopes
      ⊎ (call w (some id) scope scopes action
          ≡ (err (store_failure Reason.store_unavailable), record w { calls = w.calls + 1 }))
unfolding call call_on
call-Covered w id scope scopes action =
    elim (Option-cases (state_for_all w scope scopes (some id))) [
      | inl e ↦ inr (rw e refl)
      | inr (s, e) ↦ inl (state_for_all-Covered w id scope scopes s e)
    ]
