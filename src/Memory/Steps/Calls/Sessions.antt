-- ===== src/Memory/Steps/Calls/Sessions.antt =====
-- The calls of the sessions store make only the changes of `Step`.
use authmodules.Memory.Action.{cleanup_limit}
use authmodules.JsMap.Order.{IsDistinct, Agrees-self}
use authmodules.Prelude.{
  ℕ, ◌≡◌, refl, true, Text, text_discrete, inl, inr, Bool-cases, Option-cases, arith, ◌≤◌, Option,
}
use authmodules.JsMap.{get, has, keys}
use authmodules.Contracts.Values.{Date, snapshot_date, ProtectedValue, Time}
use authmodules.Contracts.Records.{SessionRecord, SessionStatus}
use authmodules.Memory.RecordValidation.{snapshot_session, snapshot_session_lem}
use authmodules.Memory.State.{MemoryState, account_key, session_key, token_key_discrete}
use authmodules.Memory.Cleanup.{cleanup_loop}
use authmodules.Memory.Cleanup.Laws.{cleanup_loop_inv}
use authmodules.Memory.Sessions
use authmodules.Memory.Moves.{SessionMove}
use authmodules.Memory.Steps.{Step, Steps, done, Steps-one, key_of_session, hash_of, Steps-trans}

pub create_session-Steps :
    (r : SessionRecord) (ref : ℕ) (s : MemoryState) → Steps s (Sessions.create r ref s).1
unfolding Sessions.create
create_session-Steps r ref s = elim (Option-cases (snapshot_session r)) [
  | inl e ↦ rw e done
  | inr (v, e) ↦
      let (same, valid) = snapshot_session_lem r e in
      elim (Bool-cases (has text_discrete (account_key v.tenant_id v.account_id) s.accounts)) [
        | inr missing ↦ rw (e, missing) done
        | inl owner ↦ elim (Option-cases (hash_of v)) [
          | inl unhashed ↦ rw (e, owner, unhashed) done
          | inr (hash, hashed) ↦
              elim (Bool-cases (has text_discrete (key_of_session v) s.sessions)) [
                | inl old ↦ rw (e, owner, hashed, old) done
                | inr new ↦
                    elim (Bool-cases (has token_key_discrete hash s.sessions_by_token_hash)) [
                      | inl taken ↦ rw (e, owner, hashed, new, taken) done
                      | inr free ↦
                          rw (e, owner, hashed, new, free)
                            (Steps-one
                              (Step.new_session ref v hash (ground arith) owner hashed new free))
                    ]
              ]
        ]
      ]
]

pub find_by_token_hash-state :
    (tenant_id : Text) (token_hash : ProtectedValue) (ref : ℕ) (s : MemoryState)
    → (Sessions.find_by_token_hash tenant_id token_hash ref s).1 ≡ s
unfolding Sessions.find_by_token_hash Sessions.find_by_id
find_by_token_hash-state tenant_id token_hash ref s = ground arith

active_of_test :
    (status : SessionStatus) → Sessions.is_active status ≡ true → status ≡ SessionStatus.active
unfolding Sessions.is_active
active_of_test SessionStatus.active h = refl
active_of_test _ h = cc

pub revoke-Steps :
    (tenant_id session_id : Text) (now : Date) (ref : ℕ) (s : MemoryState)
    → Steps s (Sessions.revoke tenant_id session_id now ref s).1
unfolding Sessions.revoke
revoke-Steps tenant_id session_id now ref s = elim (Option-cases (snapshot_date now)) [
  | inl e ↦ rw e done
  | inr (time, e) ↦
      elim (Option-cases (get text_discrete (session_key tenant_id session_id) s.sessions)) [
        | inl missing ↦ rw (e, missing) done
        | inr (c, found) ↦ elim (Bool-cases (Sessions.is_active c.value.status)) [
          | inr over ↦ rw (e, found, over) done
          | inl live ↦
              rw (e, found, live, Sessions.revoke)
                (Steps-one (
                  Step.set_session _ ref c _ found
                    (SessionMove.revoke time (active_of_test c.value.status live))))
        ]
      ]
]

due_parts :
    (tenant_id : Text) (now : Time) (r : SessionRecord)
    → Sessions.is_due tenant_id now r ≡ true
    → (Sessions.is_active r.status ≡ true) × (r.expires_at ≤ now)
unfolding Sessions.is_due
due_parts tenant_id now r h = ground arith

module _ (tenant_id : Text) (ref : ℕ) (s : MemoryState) where
  expire_all-Steps :
      (limit : ℕ) (now : Time)
      → IsDistinct text_discrete (keys s.sessions)
      → Steps s (record s {
        sessions =
            (cleanup_loop
              (Sessions.is_due tenant_id now)
              (Sessions.expire now)
              limit
              ref
              s.sessions
              0
              s.sessions).1;
      })
  expire_all-Steps limit now d =
      cleanup_loop_inv (Sessions.is_due tenant_id now) (Sessions.expire now) limit ref
        (λ m. Steps s (record s { sessions = m }))
        (λ key c m found due before.
          let (live, over) = due_parts tenant_id now c.value due in
          Steps-trans before (
            Steps-one (
              Step.set_session key ref c _ found
                (SessionMove.expire now (active_of_test c.value.status live) over))))
        s.sessions 0 s.sessions d (Agrees-self text_discrete s.sessions d) done

  pub cleanup_sessions-Steps :
      (now : Date) (limit : Option ℕ)
      → IsDistinct text_discrete (keys s.sessions)
      → Steps s (Sessions.cleanup_expired tenant_id now limit ref s).1
  unfolding Sessions.cleanup_expired
  cleanup_sessions-Steps now limit d = elim (Option-cases (cleanup_limit limit)) [
    | inl e ↦ rw e done
    | inr (bound, e) ↦ elim (Option-cases (snapshot_date now)) [
      | inl f ↦ rw (e, f) done
      | inr (time, f) ↦ rw (e, f) (expire_all-Steps bound time d)
    ]
  ]
