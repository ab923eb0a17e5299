-- ===== src/Memory/History/Revocation.antt =====
-- A revoked session stays revoked: `revoke` of packages/testkit/src/stores/sessions.ts.
use authmodules.Prelude.{
  inr, inl, ◌∙◌, ap, sym, Bool-cases, ℕ, ◌+◌, ◌≡◌, ◌≢◌, refl, Option, none, some, Text,
  text_discrete, arith, Option-cases, List,
}
use authmodules.Memory.Action.{content}
use authmodules.JsMap.Laws.{get-set_self}
use authmodules.JsMap.{get}
use authmodules.Contracts.Errors.{Result, ok, err, Reason, StoreFailure, store_failure}
use authmodules.Contracts.Values.{Time, Date, snapshot_date}
use authmodules.Contracts.Records.{SessionRecord, SessionStatus}
use authmodules.Memory.State.{MemoryState, Cell, session_key}
use authmodules.Memory.Sessions.{revoke, revoke_found, find_by_id, is_active}
use authmodules.Memory.WellFormed.{AllDistinct, Steps-AllDistinct}
use authmodules.Memory.History.{Operation, run, perform, perform-Steps}
use authmodules.Memory.History.Consumption.{run-settled_session}

revoke_found-leaves :
    (key : Text) (now : Time) (found : Option (Cell SessionRecord)) (ref : ℕ) (s : MemoryState)
    (r : SessionRecord)
    → get text_discrete key s.sessions ≡ found
    → (revoke_found key now found ref s).0 ≡ ok (some r)
    → (c : Cell SessionRecord) × (get text_discrete key
          (revoke_found key now found ref s).1.sessions
        ≡ some c)
      × (c.value ≡ r)
      × (r.status ≢ SessionStatus.active)
unfolding revoke_found is_active
revoke_found-leaves key now none ref s r e h = absurd (ground arith)
revoke_found-leaves key now (some c) ref s r e h = elim (Bool-cases (is_active c.value.status)) [
  | inl live ↦ rw live (_, get-set_self text_discrete key _ s.sessions, ground arith, ground arith)
  | inr over ↦ rw over (c, e, ground arith, ground arith)
]

revoke_on :
    Option Time → Text → ℕ → MemoryState → Result StoreFailure (Option SessionRecord) × MemoryState
unfolding revoke_found
revoke_on none k ref s = (err (store_failure Reason.store_unavailable), s)
revoke_on (some now) k ref s = revoke_found k now (get text_discrete k s.sessions) ref s

revoke_lem :
    (t id : Text) (now : Date) (ref : ℕ) (s : MemoryState)
    → revoke t id now ref s ≡ revoke_on (snapshot_date now) (session_key t id) ref s
unfolding revoke revoke_on
revoke_lem t id now ref s = elim (Option-cases (snapshot_date now)) [
  | inl e ↦ rw e refl
  | inr (time, e) ↦ rw e refl
]

revoke_on-leaves :
    (now : Option Time) (key : Text) (ref : ℕ) (s : MemoryState) (r : SessionRecord)
    → (revoke_on now key ref s).0 ≡ ok (some r)
    → (c : Cell SessionRecord) × (get text_discrete key (revoke_on now key ref s).1.sessions
        ≡ some c)
      × (c.value ≡ r)
      × (r.status ≢ SessionStatus.active)
unfolding revoke_on
revoke_on-leaves none key ref s r h = absurd (ground arith)
revoke_on-leaves (some now) key ref s r h = revoke_found-leaves key now _ ref s r refl h

revoke-leaves :
    (t id : Text) (now : Date) (ref : ℕ) (s : MemoryState) (r : SessionRecord)
    → (revoke t id now ref s).0 ≡ ok (some r)
    → (c : Cell SessionRecord) × (get text_discrete
          (session_key t id)
          (revoke t id now ref s).1.sessions
        ≡ some c)
      × (c.value ≡ r)
      × (r.status ≢ SessionStatus.active)
revoke-leaves t id now ref s r =
    rw (revoke_lem t id now ref s) (revoke_on-leaves (snapshot_date now) (session_key t id) ref s r)

-- Once `revoke` has returned a session, that session is not active, and every later history of
-- calls leaves it so: `findById` returns that very record.
pub revoke-lasts :
    (t id : Text) (now : Date) (ref next : ℕ) (os : List Operation) (s : MemoryState)
    (r : SessionRecord)
    → AllDistinct s
    → (revoke t id now ref s).0 ≡ ok (some r)
    → (r.status ≢ SessionStatus.active)
      × ((find_by_id t id next (run (ref + 1) os (revoke t id now ref s).1)).0 ≡ ok (some r))
unfolding find_by_id perform
revoke-lasts t id now ref next os s r d h =
    let after = Steps-AllDistinct (perform-Steps ref (Operation.revoke_session t id now) s d) d in
    let (c, found, same, over) = revoke-leaves t id now ref s r h in
    let kept =
      run-settled_session (session_key t id) c (ref + 1) os (revoke t id now ref s).1 after
        (λ live. over (ap (λ x. x.status) (sym same) ∙ live)) found in
    (over, ap (λ o. ok (content o)) kept ∙ ap (λ x. ok (some x)) same)
