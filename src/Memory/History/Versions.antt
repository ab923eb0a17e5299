-- ===== src/Memory/History/Versions.antt =====
-- The versions of the credentials: packages/testkit/src/stores/credentials.ts.
use authmodules.Memory.RecordValidation.{snapshot_material}
use authmodules.Contracts.Values.{snapshot_date, Time, Date}
use authmodules.Prelude.{
  ◌==◌, if◌then◌else◌, inr, inl, Bool-cases, Option-cases, none, Option, ℕ, ◌+◌, ◌≤◌, ◌<◌, ◌≡◌, ◌≢◌,
  refl, some, List, Text, text_discrete, arith,
}
use authmodules.Memory.Action.{require, fail_with, fail, cell}
use authmodules.Contracts.Errors.{version_failure, StoreFailure, ok, Result, Reason}
use authmodules.Memory.Credentials.{replace_material, update_at}
use authmodules.JsMap.{set, get}
use mathlib.Core.Path.{subst}
use authmodules.JsMap.Laws.{get-set, none_of_not-has, get-set_self}
use authmodules.Contracts.Records.{CredentialRecord, Material}
use authmodules.Memory.State.{MemoryState, Cell, credential_key, next_version}
use authmodules.Memory.Moves.{CredentialMove}
use authmodules.Memory.Steps.{Step, Steps, done, more, key_of_credential}
use authmodules.Memory.WellFormed.{AllDistinct, Steps-AllDistinct}
use authmodules.Memory.History.{Operation, run, run-Steps, perform, perform-Steps}

CredentialMove-version :
    {r v : CredentialRecord} → CredentialMove r v → v.version ≡ next_version r.version
CredentialMove-version (CredentialMove.rewrite m now valid) = refl
CredentialMove-version (CredentialMove.restatus status now may) = refl

module _ (k : Text) where
  -- The key holds a record whose version is at least that number.
  AtLeast : ℕ → MemoryState → Type 0
  AtLeast n s =
      (c : Cell CredentialRecord) × (get text_discrete k s.credentials ≡ some c)
      × (n ≤ c.value.version)

  Step-AtLeast : {s t : MemoryState} (n : ℕ) → Step s t → AtLeast n s → AtLeast n t
  unfolding AtLeast next_version
  Step-AtLeast {s} n (Step.new_credential ref r valid owner fits new free) (c, h, l) = (
    c,
    ground (
      arith,
      get-set text_discrete (key_of_credential r) k (cell ref r) s.credentials,
      none_of_not-has text_discrete (key_of_credential r) s.credentials new,
    ),
    l,
  )
  Step-AtLeast {s} n (Step.set_credential j ref b r there move) (c, h, l) =
      elim (text_discrete j k) [
        | yes p ↦ (
          cell ref r,
          subst
              (λ i.
                get text_discrete i (set text_discrete j (cell ref r) s.credentials)
                ≡ some (cell ref r))
              p (get-set_self text_discrete j _ s.credentials),
          ground (arith, CredentialMove-version move),
        )
        | no p ↦ (c, ground (arith, get-set text_discrete j k (cell ref r) s.credentials), l)
      ]
  Step-AtLeast n _ h = h

  Steps-AtLeast : {s t : MemoryState} (n : ℕ) → Steps s t → AtLeast n s → AtLeast n t
  Steps-AtLeast n done h = h
  Steps-AtLeast n (more x xs) h = Steps-AtLeast n xs (Step-AtLeast n x h)

-- `updateAt` on the credential found.
write_at :
    Text
    → ℕ
    → (CredentialRecord → Option CredentialRecord)
    → ℕ
    → MemoryState
    → Option (Cell CredentialRecord)
    → Result StoreFailure CredentialRecord × MemoryState
write_at k v change ref s none = fail Reason.credential_not_found ref s
write_at k v change ref s (some c) =
    if c.value.version == v
    then require (change c.value) Reason.store_unavailable
        (λ updated ref s. (
          ok updated,
          record s { credentials = set text_discrete k (cell ref updated) s.credentials },
        ))
        ref s
    else fail_with (version_failure Reason.transaction_failed v) ref s

update_at_lem :
    (t id : Text) (v : ℕ) (change : CredentialRecord → Option CredentialRecord) (ref : ℕ)
    (s : MemoryState)
    → update_at t id v change ref s
      ≡ write_at
          (credential_key t id)
          v
          change
          ref
          s
          (get text_discrete (credential_key t id) s.credentials)
unfolding update_at write_at
update_at_lem t id v change ref s =
    elim (Option-cases (get text_discrete (credential_key t id) s.credentials)) [
      | inl e ↦ rw e refl
      | inr (c, e) ↦ rw e refl
    ]

Counts : (CredentialRecord → Option CredentialRecord) → Type 0
Counts change = (r u : CredentialRecord) → change r ≡ some u → u.version ≡ next_version r.version

write_at-AtLeast :
    (k : Text) (v : ℕ) (change : CredentialRecord → Option CredentialRecord) (ref : ℕ)
    (s : MemoryState) (found : Option (Cell CredentialRecord)) (r : CredentialRecord)
    → Counts change
    → v < 9007199254740992
    → (write_at k v change ref s found).0 ≡ ok r
    → AtLeast k (v + 1) (write_at k v change ref s found).1
unfolding write_at AtLeast Counts next_version
write_at-AtLeast k v change ref s none r counts small h = absurd (ground arith)
write_at-AtLeast k v change ref s (some c) r counts small h =
    elim (Bool-cases (c.value.version == v)) [
      | inr e ↦ absurd (ground arith)
      | inl e ↦ elim (Option-cases (change c.value)) [
        | inl f ↦ absurd (ground arith)
        | inr (u, f) ↦
            rw (e, f)
              (
                cell ref u,
                get-set_self text_discrete k _ s.credentials,
                ground (arith, counts c.value u f),
              )
      ]
    ]

write_at-stale :
    (k : Text) (v : ℕ) (change : CredentialRecord → Option CredentialRecord) (ref : ℕ)
    (s : MemoryState)
    → AtLeast k (v + 1) s
    → write_at k v change ref s (get text_discrete k s.credentials)
      ≡ fail_with (version_failure Reason.transaction_failed v) ref s
unfolding write_at AtLeast
write_at-stale k v change ref s (c, found, l) = rw found (ground arith)

rewritten : Time → Material → CredentialRecord → Option CredentialRecord
rewritten time m r =
    some (record r { material = m; version = next_version r.version; updated_at = time })

replace_on :
    Option Time
    → Option Material
    → Text
    → ℕ
    → ℕ
    → MemoryState
    → Result StoreFailure CredentialRecord × MemoryState
replace_on none m k v ref s = fail Reason.store_unavailable ref s
replace_on (some time) none k v ref s = fail Reason.store_unavailable ref s
replace_on (some time) (some m) k v ref s =
    write_at k v (rewritten time m) ref s (get text_discrete k s.credentials)

replace_material_lem :
    (t id : Text) (v : ℕ) (m : Material) (now : Date) (ref : ℕ) (s : MemoryState)
    → replace_material t id v m now ref s
      ≡ replace_on (snapshot_date now) (snapshot_material m) (credential_key t id) v ref s
unfolding replace_material replace_on rewritten
replace_material_lem t id v m now ref s = elim (Option-cases (snapshot_date now)) [
  | inl e ↦ rw e refl
  | inr (time, e) ↦ rw e (elim (Option-cases (snapshot_material m)) [
    | inl f ↦ rw f refl
    | inr (u, f) ↦ rw f (update_at_lem t id v _ ref s)
  ])
]

replace_on-AtLeast :
    (time : Option Time) (m : Option Material) (k : Text) (v ref : ℕ) (s : MemoryState)
    (r : CredentialRecord)
    → v < 9007199254740992
    → (replace_on time m k v ref s).0 ≡ ok r
    → AtLeast k (v + 1) (replace_on time m k v ref s).1
unfolding replace_on rewritten Counts
replace_on-AtLeast none m k v ref s r small h = absurd (ground arith)
replace_on-AtLeast (some time) none k v ref s r small h = absurd (ground arith)
replace_on-AtLeast (some time) (some m) k v ref s r small h =
    write_at-AtLeast k v (rewritten time m) ref s _ r (λ x u e. ground arith) small h

replace_on-stale :
    (time : Option Time) (m : Option Material) (k : Text) (v ref : ℕ) (s : MemoryState)
    (r : CredentialRecord)
    → AtLeast k (v + 1) s
    → (replace_on time m k v ref s).0 ≢ ok r
unfolding replace_on
replace_on-stale none m k v ref s r l h = absurd (ground arith)
replace_on-stale (some time) none k v ref s r l h = absurd (ground arith)
replace_on-stale (some time) (some m) k v ref s r l h =
    ground (arith, write_at-stale k v (rewritten time m) ref s l)

replace_material-AtLeast :
    (t id : Text) (v : ℕ) (m : Material) (now : Date) (ref : ℕ) (s : MemoryState)
    (r : CredentialRecord)
    → v < 9007199254740992
    → (replace_material t id v m now ref s).0 ≡ ok r
    → AtLeast (credential_key t id) (v + 1) (replace_material t id v m now ref s).1
replace_material-AtLeast t id v m now ref s r small =
    rw (replace_material_lem t id v m now ref s) (replace_on-AtLeast _ _ _ v ref s r small)

-- The version of a credential is a lock: when `replaceMaterial` has succeeded with a version below
-- 2^53, which every version is that the validator takes, then
-- after any further calls no `replaceMaterial` on that credential with this version succeeds.
pub replace_material-once :
    (t id : Text) (v : ℕ) (m n : Material) (now later : Date) (ref next : ℕ) (os : List Operation)
    (s : MemoryState) (r u : CredentialRecord)
    → AllDistinct s
    → v < 9007199254740992
    → (replace_material t id v m now ref s).0 ≡ ok r
    → (replace_material t id v n later next
        (run (ref + 1) os (replace_material t id v m now ref s).1)).0
      ≢ ok u
unfolding perform
replace_material-once t id v m n now later ref next os s r u d small h =
    let after =
      Steps-AllDistinct (perform-Steps ref (Operation.replace_material t id v m now) s d) d in
    let kept =
      Steps-AtLeast (credential_key t id) (v + 1)
        (run-Steps (ref + 1) os (replace_material t id v m now ref s).1 after)
        (replace_material-AtLeast t id v m now ref s r small h) in
    rw
      (replace_material_lem t id v n later next
        (run (ref + 1) os (replace_material t id v m now ref s).1))
      (replace_on-stale _ _ (credential_key t id) v next _ u kept)
