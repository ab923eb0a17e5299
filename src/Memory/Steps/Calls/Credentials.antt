-- ===== src/Memory/Steps/Calls/Credentials.antt =====
-- The calls of the credentials store make only the changes of `Step`.
use authmodules.Prelude.{
  ℕ, ◌≡◌, Option, none, some, Text, text_discrete, if◌then◌else◌, inl, inr, Bool-cases,
  Option-cases, arith, none-ne-some, some-eq-some, ◌==◌,
}
use mathlib.Core.Path.{subst}
use authmodules.JsMap.{get, has}
use authmodules.Contracts.Values.{Time, Date, snapshot_date}
use authmodules.Contracts.Records.{CredentialRecord, CredentialStatus, Material}
use authmodules.Memory.RecordValidation.{
  snapshot_credential, snapshot_credential_lem, snapshot_material, snapshot_material_lem,
}
use authmodules.Memory.State.{
  MemoryState, account_key, identity_key, credential_key, can_transition_credential_status,
  next_version,
}
use authmodules.Memory.Credentials
use authmodules.Memory.Credentials.{fits_identity}
use authmodules.Memory.Moves.{CredentialMove}
use authmodules.Memory.Steps.{Step, Steps, done, Steps-one, key_of_credential, place_of}

pub create_credential-Steps :
    (r : CredentialRecord) (ref : ℕ) (s : MemoryState) → Steps s (Credentials.create r ref s).1
unfolding Credentials.create
create_credential-Steps r ref s = elim (Option-cases (snapshot_credential r)) [
  | inl e ↦ rw e done
  | inr (v, e) ↦
      let (same, valid) = snapshot_credential_lem r e in
      elim (Bool-cases (has text_discrete (account_key v.tenant_id v.account_id) s.accounts)) [
        | inr missing ↦ rw (e, missing) done
        | inl owner ↦
            elim (Bool-cases (
              fits_identity v
                (get text_discrete (identity_key v.tenant_id v.identity_id) s.identities))) [
                  | inr misfit ↦ rw (e, owner, misfit) done
                  | inl fits ↦
                      elim (Bool-cases (has text_discrete (key_of_credential v) s.credentials)) [
                        | inl old ↦ rw (e, owner, fits, old) done
                        | inr new ↦
                            elim (Bool-cases
                              (has text_discrete (place_of v) s.credentials_by_identity)) [
                                | inl taken ↦ rw (e, owner, fits, new, taken) done
                                | inr free ↦
                                    rw (e, owner, fits, new, free)
                                      (Steps-one (
                                        Step.new_credential ref v (ground arith) owner fits new
                                          free))
                              ]
                      ]
                ]
      ]
]

module _ (tenant_id credential_id : Text) (expected_version : ℕ) where
  -- Both updates, for a change that is a move wherever it stores something.
  update_at-Steps :
      (change : CredentialRecord → Option CredentialRecord) (ref : ℕ) (s : MemoryState)
      → ((r v : CredentialRecord) → change r ≡ some v → CredentialMove r v)
      → Steps s (Credentials.update_at tenant_id credential_id expected_version change ref s).1
  unfolding Credentials.update_at
  update_at-Steps change ref s moves =
      elim (Option-cases
        (get text_discrete (credential_key tenant_id credential_id) s.credentials)) [
          | inl missing ↦ rw missing done
          | inr (c, found) ↦ elim (Bool-cases (c.value.version == expected_version)) [
            | inr stale ↦ rw (found, stale) done
            | inl current ↦ elim (Option-cases (change c.value)) [
              | inl refused ↦ rw (found, current, refused) done
              | inr (v, e) ↦
                  rw (found, current, e)
                    (Steps-one (Step.set_credential _ ref c v found (moves c.value v e)))
            ]
          ]
        ]

  pub replace_material-Steps :
      (material : Material) (now : Date) (ref : ℕ) (s : MemoryState)
      → Steps s
          (Credentials.replace_material tenant_id credential_id expected_version material now ref
            s).1
  unfolding Credentials.replace_material
  replace_material-Steps material now ref s = elim (Option-cases (snapshot_date now)) [
    | inl e ↦ rw e done
    | inr (time, e) ↦ elim (Option-cases (snapshot_material material)) [
      | inl f ↦ rw (e, f) done
      | inr (m, f) ↦
          let (same, valid) = snapshot_material_lem material f in
          rw (e, f)
            (update_at-Steps _ ref s λ r v g.
              subst (CredentialMove r) (some-eq-some g)
                (CredentialMove.rewrite m time (ground arith)))
    ]
  ]

  pub update_credential-Steps :
      (status : CredentialStatus) (now : Date) (ref : ℕ) (s : MemoryState)
      → Steps s
          (Credentials.update_status tenant_id credential_id expected_version status now ref s).1
  unfolding Credentials.update_status
  update_credential-Steps status now ref s = elim (Option-cases (snapshot_date now)) [
    | inl e ↦ rw e done
    | inr (time, e) ↦ rw e (update_at-Steps _ ref s (restatus-move time))
  ]
    where
      restatus-move :
          (time : Time) (r v : CredentialRecord)
          → (if can_transition_credential_status r.status status
              then some (record r {
                status = status;
                version = next_version r.version;
                updated_at = time;
              })
              else none)
            ≡ some v
          → CredentialMove r v
      restatus-move time r v g =
          elim (Bool-cases (can_transition_credential_status r.status status)) [
            | inl may ↦
                subst (CredentialMove r) (some-eq-some (rw may at g))
                  (CredentialMove.restatus status time may)
            | inr may_not ↦ absurd (none-ne-some (rw may_not at g))
          ]
