-- ===== src/Memory/Steps/Calls/Accounts.antt =====
-- The calls of the accounts and identities stores make only the changes of `Step`.
use authmodules.Prelude.{ℕ, ◌≡◌, Text, text_discrete, inl, inr, Bool-cases, Option-cases, arith}
use authmodules.JsMap.{get, has}
use authmodules.Contracts.Values.{Date, snapshot_date}
use authmodules.Contracts.Records.{AccountRecord, AccountStatus, IdentityRecord}
use authmodules.Memory.RecordValidation.{
  snapshot_account, snapshot_account_lem, snapshot_identity, snapshot_identity_lem,
}
use authmodules.Memory.State.{MemoryState, account_key, identity_key, can_transition_account_status}
use authmodules.Memory.Accounts
use authmodules.Memory.Identities
use authmodules.Memory.Moves.{AccountMove, IdentityMove}
use authmodules.Memory.Steps.{
  Step, Steps, done, Steps-one, key_of_account, key_of_identity, subject_of,
}

pub create_account-Steps :
    (r : AccountRecord) (ref : ℕ) (s : MemoryState) → Steps s (Accounts.create r ref s).1
unfolding Accounts.create
create_account-Steps r ref s = elim (Option-cases (snapshot_account r)) [
  | inl e ↦ rw e done
  | inr (v, e) ↦
      let (same, valid) = snapshot_account_lem r e in
      elim (Bool-cases (has text_discrete (key_of_account v) s.accounts)) [
        | inl old ↦ rw (e, old) done
        | inr new ↦ rw (e, new) (Steps-one (Step.new_account ref v (ground arith) new))
      ]
]

pub update_account-Steps :
    (tenant_id account_id : Text) (status : AccountStatus) (now : Date) (ref : ℕ) (s : MemoryState)
    → Steps s (Accounts.update_status tenant_id account_id status now ref s).1
unfolding Accounts.update_status
update_account-Steps tenant_id account_id status now ref s =
    elim (Option-cases (snapshot_date now)) [
      | inl e ↦ rw e done
      | inr (time, e) ↦
          elim (Option-cases (get text_discrete (account_key tenant_id account_id) s.accounts)) [
            | inl missing ↦ rw (e, missing) done
            | inr (c, found) ↦
                elim (Bool-cases (can_transition_account_status c.value.status status)) [
                  | inl may ↦
                      rw (e, found, may)
                        (Steps-one
                          (Step.set_account _ ref c _ found (AccountMove.restatus status time may)))
                  | inr may_not ↦ rw (e, found, may_not) done
                ]
          ]
    ]

pub create_identity-Steps :
    (r : IdentityRecord) (ref : ℕ) (s : MemoryState) → Steps s (Identities.create r ref s).1
unfolding Identities.create
create_identity-Steps r ref s = elim (Option-cases (snapshot_identity r)) [
  | inl e ↦ rw e done
  | inr (v, e) ↦
      let (same, valid) = snapshot_identity_lem r e in
      elim (Bool-cases (has text_discrete (account_key v.tenant_id v.account_id) s.accounts)) [
        | inr missing ↦ rw (e, missing) done
        | inl owner ↦ elim (Bool-cases (has text_discrete (key_of_identity v) s.identities)) [
          | inl old ↦ rw (e, owner, old) done
          | inr new ↦ elim (Bool-cases (has text_discrete (subject_of v) s.identity_subjects)) [
            | inl taken ↦ rw (e, owner, new, taken) done
            | inr free ↦
                rw (e, owner, new, free)
                  (Steps-one (Step.new_identity ref v (ground arith) owner new free))
          ]
        ]
      ]
]

pub mark_verified-Steps :
    (tenant_id identity_id : Text) (verified_at now : Date) (ref : ℕ) (s : MemoryState)
    → Steps s (Identities.mark_verified tenant_id identity_id verified_at now ref s).1
unfolding Identities.mark_verified
mark_verified-Steps tenant_id identity_id verified_at now ref s =
    elim (Option-cases (snapshot_date verified_at)) [
      | inl e ↦ rw e done
      | inr (verified, e) ↦ elim (Option-cases (snapshot_date now)) [
        | inl f ↦ rw (e, f) done
        | inr (time, f) ↦
            elim (Option-cases
              (get text_discrete (identity_key tenant_id identity_id) s.identities)) [
                | inl missing ↦ rw (e, f, missing) done
                | inr (c, found) ↦
                    rw (e, f, found)
                      (Steps-one
                        (Step.set_identity _ ref c _ found (IdentityMove.verify verified time)))
              ]
      ]
    ]

-- A lookup through the index changes nothing.
pub find_by_subject-state :
    (tenant_id method_id subject : Text) (ref : ℕ) (s : MemoryState)
    → (Identities.find_by_subject tenant_id method_id subject ref s).1 ≡ s
unfolding Identities.find_by_subject Identities.find_by_id
find_by_subject-state tenant_id method_id subject ref s = ground arith
