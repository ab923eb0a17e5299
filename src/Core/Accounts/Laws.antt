-- ===== src/Core/Accounts/Laws.antt =====
-- resolveAccount: which account and identity it answers.
use authmodules.Contracts.Json.{is_public_data}
use authmodules.Prelude.{
  Bool-cases, some-eq-some, none-ne-some, Bool, true, false, Option, none, some, Text,
  text_discrete, test→, &&-eq-true, ◌≡◌, refl, ap, ◌∙◌, sym, inl, inr, arith,
}
use authmodules.Core.Ports.{Reading, Ports, Stored}
use authmodules.Core.Policy.{id_or_fail, generated, policy, generate_core_id}
use authmodules.Core.Validation.{is_account_record, is_auth_context, is_non_empty_string}
use authmodules.Core.Sessions.Defs.{
  account_is_active, looked_up, accepts_account, find_account_of, unavailable,
}
use authmodules.Core.Sessions.Steps.{
  account_is_active-eq, on_exit-done, looked_up-done, checked-done,
}
use mathlib.Core.Path.{subst}
use authmodules.Contracts.Values.{Time}
use authmodules.Contracts.Records.{AccountRecord, AccountStatus, IdentityRecord, AccountMode, Actor}
use authmodules.Contracts.Auth.{
  AuthContext, AuthProof, IdentityClaim, CoreIdKind, TransactionContext,
}
use authmodules.Core.Run.{done, follow-done, if-done}
use authmodules.Core.Accounts.{
  ResolvedAccount, lookup_of, accepts_identity, is_account_made, made, account_record,
  find_identity_of, store_account, available, belongs_to_other, link, make_account, use_identity,
  resolve_for, resolve_account,
}

-- The identity is of the tenant, has the method and the subject of the claim, and its account is the
-- one given.
abbrev pub OwnsIdentity :
    AuthContext → IdentityClaim → AccountRecord → Option IdentityRecord → Type 0
OwnsIdentity c claim account none = Unit
OwnsIdentity c claim account (some i) =
    (i.account_id ≡ account.account_id)
    × (i.tenant_id ≡ c.tenant_id)
    × (i.method_id ≡ claim.method_id)
    × (i.subject ≡ claim.subject)

-- What each mode asks: no identity, an identity, nothing, and the account of the actor.
abbrev pub Meets : AccountMode → AuthContext → ResolvedAccount → Type 0
Meets AccountMode.create_new_account c r = r.identity ≡ none
Meets AccountMode.require_existing_identity c r = (i : IdentityRecord) × (r.identity ≡ some i)
Meets AccountMode.create_account_if_identity_missing c r = Unit
Meets AccountMode.link_to_actor_account c r = c.actor ≡ some (Actor.account r.account.account_id)

pub record IsResolved (c : AuthContext) (claim : IdentityClaim) (mode : AccountMode)
    (r : ResolvedAccount) : Type 0 where
  pub tenant : r.account.tenant_id ≡ c.tenant_id
  pub status : r.account.status ≡ AccountStatus.active
  pub owner : OwnsIdentity c claim r.account r.identity
  pub meets : Meets mode c r

-- The identity that was found, by the claim.
abbrev IsClaimed : AuthContext → IdentityClaim → Option IdentityRecord → Type 0
IsClaimed c claim none = Unit
IsClaimed c claim (some i) =
    (i.tenant_id ≡ c.tenant_id) × (i.method_id ≡ claim.method_id) × (i.subject ≡ claim.subject)

linked-OwnsIdentity :
    (c : AuthContext) (claim : IdentityClaim) (account_id : Text) (account : AccountRecord)
    (found : Option IdentityRecord)
    → IsClaimed c claim found
    → belongs_to_other account_id found ≡ false
    → account.account_id ≡ account_id
    → OwnsIdentity c claim account found
unfolding belongs_to_other
linked-OwnsIdentity c claim account_id account none k own named = tt
linked-OwnsIdentity c claim account_id account (some i) (tenant, method, subject) own named = (
  test→ (text_discrete i.account_id account_id) (ground arith) ∙ sym named,
  tenant,
  method,
  subject,
)

made-done :
    {A : Type 0} (request_id : Option Text) (agrees : A → Bool) (a : Stored A) {r : A}
    → made request_id agrees a ≡ done r
    → agrees r ≡ true
unfolding made
made-done request_id agrees (Stored.answered r) h =
    let (agreed, e) = checked-done (agrees r) (unavailable request_id) r h in
    ap agrees (sym e) ∙ agreed
made-done request_id agrees (Stored.refused failure) h = absurd (cc)
made-done request_id agrees Stored.misshapen h = absurd (cc)
made-done request_id agrees Stored.threw h = absurd (cc)

generated-text :
    (a : Reading Text) {id : Text} → generated a ≡ some id → is_non_empty_string id ≡ true
unfolding generated
generated-text (Reading.read value) h = elim (Bool-cases (is_non_empty_string value)) [
  | inl text ↦ ap is_non_empty_string (sym (some-eq-some (rw text at h))) ∙ text
  | inr empty ↦ absurd (none-ne-some (rw empty at h))
]
generated-text Reading.threw h = absurd (cc)
generated-text Reading.misshapen h = absurd (cc)

id_or_fail-some :
    {W : Type 0} (request_id : Option Text) (o : Option Text) (w : W) {id : Text} {w' : W}
    → id_or_fail request_id (o, w) ≡ (done id, w')
    → o ≡ some id
id_or_fail-some request_id (some found) w h = cc
id_or_fail-some request_id none w h = absurd (cc)

account_record-valid :
    (c : AuthContext) (id : Text) (now : Time)
    → is_non_empty_string c.tenant_id ≡ true
    → is_non_empty_string id ≡ true
    → is_account_record (account_record c id now) ≡ true
unfolding is_account_record is_public_data
account_record-valid c id now tenant named = rw (tenant, named) (ground arith)

OwnsIdentity-subst :
    (c : AuthContext) (claim : IdentityClaim) (account : AccountRecord)
    {i j : Option IdentityRecord}
    → i ≡ j
    → OwnsIdentity c claim account j
    → OwnsIdentity c claim account i
OwnsIdentity-subst c claim account e o = subst (OwnsIdentity c claim account) (sym e) o

module _ {W : Type 0} where
  find_identity_of-IsClaimed :
      (ports : Ports W) (c : AuthContext) (claim : IdentityClaim) (tx : Option TransactionContext)
      (w : W) (found : Option IdentityRecord) {w' : W}
      → find_identity_of ports c (lookup_of claim) tx w ≡ (done found, w')
      → IsClaimed c claim found
  unfolding find_identity_of accepts_identity
  find_identity_of-IsClaimed ports c claim tx w none h = tt
  find_identity_of-IsClaimed ports c claim tx w (some i) h =
      let accepts = accepts_identity c.tenant_id (lookup_of claim) in
      let reply = ports.find_by_subject c.tenant_id claim.method_id claim.subject tx w in
      let (_, accepted) =
        looked_up-done c.request_id accepts reply.0
          (on_exit-done (looked_up c.request_id accepts) reply h) in
      let (_, h1) = &&-eq-true _ _ accepted in
      let (tenant, h2) = &&-eq-true _ _ h1 in
      let (method, h3) = &&-eq-true _ _ h2 in
      let (_, h4) = &&-eq-true _ _ h3 in
      let (subject, _) = &&-eq-true _ _ h4 in
      (
        test→ (text_discrete i.tenant_id c.tenant_id) tenant,
        test→ (text_discrete i.method_id claim.method_id) method,
        test→ (text_discrete i.subject claim.subject) subject,
      )

  find_account_of-Named :
      (ports : Ports W) (c : AuthContext) (account_id : Text) (tx : Option TransactionContext)
      (w : W) {account : AccountRecord} {w' : W}
      → find_account_of ports c account_id tx w ≡ (done (some account), w')
      → (account.tenant_id ≡ c.tenant_id) × (account.account_id ≡ account_id)
  unfolding find_account_of accepts_account
  find_account_of-Named ports c account_id tx w {account = account} h =
      let accepts = accepts_account c.tenant_id account_id in
      let reply = ports.find_account c.tenant_id account_id tx w in
      let (_, accepted) =
        looked_up-done c.request_id accepts reply.0
          (on_exit-done (looked_up c.request_id accepts) reply h) in
      let (_, named) = &&-eq-true _ _ accepted in
      let (tenant, id) = &&-eq-true _ _ named in
      (
        test→ (text_discrete account.tenant_id c.tenant_id) tenant,
        test→ (text_discrete account.account_id account_id) id,
      )

  available-done :
      (c : AuthContext) (identity : Option IdentityRecord) (found : Option AccountRecord) (w : W)
      {r : ResolvedAccount} {w' : W}
      → available c identity found w ≡ (done r, w')
      → (found ≡ some r.account)
        × (r.identity ≡ identity)
        × (r.account.status ≡ AccountStatus.active)
  unfolding available
  available-done c identity none w h = absurd (cc)
  available-done c identity (some account) w {r} h =
      elim (if-done (account_is_active account.status) _ _ w h) [
        | inl (active, g) ↦
            let e : record { account = account; identity = identity } ≡ r = cc in
            (
              ap (λ s. some s.account) e,
              sym (ap (λ s. s.identity) e),
              sym (ap (λ s. s.account.status) e) ∙ account_is_active-eq account.status active,
            )
        | inr (inactive, g) ↦ absurd (cc)
      ]

  use_identity-done :
      (ports : Ports W) (c : AuthContext) (claim : IdentityClaim) (i : IdentityRecord)
      (tx : Option TransactionContext) (w : W) {r : ResolvedAccount} {w' : W}
      → IsClaimed c claim (some i)
      → use_identity ports c i tx w ≡ (done r, w')
      → (r.account.tenant_id ≡ c.tenant_id)
        × (r.account.status ≡ AccountStatus.active)
        × (r.identity ≡ some i)
        × OwnsIdentity c claim r.account (some i)
  unfolding use_identity
  use_identity-done ports c claim i tx w {r} (tenant, method, subject) h =
      let (found, w1, lookup, rest) = follow-done (find_account_of ports c i.account_id tx w) _ h in
      let (is_found, is_identity, status) = available-done c (some i) found w1 rest in
      let (own, named) =
        find_account_of-Named ports c i.account_id tx w
          (lookup ∙ ap (λ f. (done f, w1)) is_found) in
      (own, status, is_identity, (sym named, tenant, method, subject))

  generate_core_id-text :
      (ports : Ports W) (c : AuthContext) (kind : CoreIdKind) (now : Time) (w : W) {id : Text}
      {w' : W}
      → generate_core_id ports c kind now w ≡ (done id, w')
      → is_non_empty_string id ≡ true
  unfolding generate_core_id
  generate_core_id-text ports c kind now w h =
      let reply = ports.generate kind c.tenant_id now w in
      generated-text reply.0 (id_or_fail-some c.request_id (generated reply.0) reply.1 h)

  make_account-done :
      (ports : Ports W) (c : AuthContext) (now : Time) (tx : Option TransactionContext) (w : W)
      {r : ResolvedAccount} {w' : W}
      → is_non_empty_string c.tenant_id ≡ true
      → make_account ports c now tx w ≡ (done r, w')
      → (r.account.tenant_id ≡ c.tenant_id)
        × (r.account.status ≡ AccountStatus.active)
        × (r.identity ≡ none)
  unfolding make_account store_account is_account_made
  make_account-done ports c now tx w {r} valid h =
      let (id, w1, generate, h1) =
        follow-done (generate_core_id ports c CoreIdKind.account now w) _ h in
      let expected = account_record c id now in
      let (created, w2, store, h2) = follow-done (store_account ports c expected tx w1) _ h1 in
      let reply = ports.create_account expected tx w1 in
      let agreed =
        made-done c.request_id (is_account_made expected) reply.0
          (on_exit-done (made c.request_id (is_account_made expected)) reply store) in
      let expected_valid =
        account_record-valid c id now valid
          (generate_core_id-text ports c CoreIdKind.account now w generate) in
      let (_, a1) = &&-eq-true _ _ (rw expected_valid at agreed) in
      let (tenant, a2) = &&-eq-true _ _ a1 in
      let (_, a3) = &&-eq-true _ _ a2 in
      let (status, _) = &&-eq-true _ _ a3 in
      let e : record { account = created; identity = none } ≡ r = cc in
      (
        sym (ap (λ s. s.account.tenant_id) e)
            ∙ test→ (text_discrete created.tenant_id c.tenant_id) tenant,
        sym (ap (λ s. s.account.status) e) ∙ account_is_active-eq created.status status,
        sym (ap (λ s. s.identity) e),
      )

  link-done :
      (ports : Ports W) (c : AuthContext) (claim : IdentityClaim) (found : Option IdentityRecord)
      (tx : Option TransactionContext) (account_id : Text) (w : W) {r : ResolvedAccount} {w' : W}
      → IsClaimed c claim found
      → link ports c found tx (some (Actor.account account_id)) w ≡ (done r, w')
      → (r.account.tenant_id ≡ c.tenant_id)
        × (r.account.status ≡ AccountStatus.active)
        × OwnsIdentity c claim r.account r.identity
        × (r.account.account_id ≡ account_id)
  unfolding link
  link-done ports c claim found tx account_id w {r} claimed h =
      elim (if-done (belongs_to_other account_id found) _ _ w h) [
        | inl (other, g) ↦ absurd (cc)
        | inr (own, g) ↦
            let (account, w1, lookup, rest) =
              follow-done (find_account_of ports c account_id tx w) _ g in
            let (is_found, is_identity, status) = available-done c found account w1 rest in
            let (tenant, named) =
              find_account_of-Named ports c account_id tx w
                (lookup ∙ ap (λ f. (done f, w1)) is_found) in
            (
              tenant,
              status,
              OwnsIdentity-subst c claim r.account is_identity
                  (linked-OwnsIdentity c claim account_id r.account found claimed own named),
              named,
            )
      ]

  link-IsResolved :
      (ports : Ports W) (c : AuthContext) (claim : IdentityClaim) (found : Option IdentityRecord)
      (tx : Option TransactionContext) (actor : Option Actor) (w : W) {r : ResolvedAccount} {w' : W}
      → c.actor ≡ actor
      → IsClaimed c claim found
      → link ports c found tx actor w ≡ (done r, w')
      → IsResolved c claim AccountMode.link_to_actor_account r
  unfolding link
  link-IsResolved ports c claim found tx (some (Actor.account account_id)) w {r} e k h =
      let (tenant, status, owner, named) = link-done ports c claim found tx account_id w k h in
      record {
        tenant = tenant;
        status = status;
        owner = owner;
        meets = e ∙ ap (λ id. some (Actor.account id)) (sym named);
      }
  link-IsResolved ports c claim found tx (some Actor.anonymous) w e k h = absurd (cc)
  link-IsResolved ports c claim found tx (some (Actor.system name)) w e k h = absurd (cc)
  link-IsResolved ports c claim found tx none w e k h = absurd (cc)

  resolve_for-IsResolved :
      (ports : Ports W) (c : AuthContext) (claim : IdentityClaim) (now : Time)
      (tx : Option TransactionContext) (mode : AccountMode) (found : Option IdentityRecord) (w : W)
      {r : ResolvedAccount} {w' : W}
      → is_non_empty_string c.tenant_id ≡ true
      → IsClaimed c claim found
      → resolve_for ports c now tx mode found w ≡ (done r, w')
      → IsResolved c claim mode r
  unfolding resolve_for
  resolve_for-IsResolved ports c claim now tx AccountMode.create_new_account (some i) w valid k h =
      absurd (cc)
  resolve_for-IsResolved ports c claim now tx AccountMode.create_new_account none w {r} valid k h =
      let (tenant, status, missing) = make_account-done ports c now tx w valid h in
      record {
        tenant = tenant;
        status = status;
        owner = OwnsIdentity-subst c claim r.account missing tt;
        meets = missing;
      }
  resolve_for-IsResolved ports c claim now tx AccountMode.require_existing_identity none w valid k
        h =
      absurd (cc)
  resolve_for-IsResolved ports c claim now tx AccountMode.require_existing_identity (some i) w {r}
        valid k h =
      let (tenant, status, found, owner) = use_identity-done ports c claim i tx w k h in
      record {
        tenant = tenant;
        status = status;
        owner = OwnsIdentity-subst c claim r.account found owner;
        meets = (i, found);
      }
  resolve_for-IsResolved ports c claim now tx AccountMode.create_account_if_identity_missing none w
        {r} valid k h =
      let (tenant, status, missing) = make_account-done ports c now tx w valid h in
      record {
        tenant = tenant;
        status = status;
        owner = OwnsIdentity-subst c claim r.account missing tt;
        meets = tt;
      }
  resolve_for-IsResolved ports c claim now tx AccountMode.create_account_if_identity_missing
        (some i) w {r} valid k h =
      let (tenant, status, found, owner) = use_identity-done ports c claim i tx w k h in
      record {
        tenant = tenant;
        status = status;
        owner = OwnsIdentity-subst c claim r.account found owner;
        meets = tt;
      }
  resolve_for-IsResolved ports c claim now tx AccountMode.link_to_actor_account found w valid k h =
      link-IsResolved ports c claim found tx c.actor w refl k h

  -- With a valid context, and whatever the ports do: the account that resolveAccount answers is active and of the tenant of the
  -- context; an identity that it answers is of the tenant, has the method and the subject of the
  -- claim, and belongs to that account. In the mode create-new-account there is no identity, in the
  -- mode require-existing-identity there is one, and in the mode link-to-actor-account the account
  -- is the actor's.
  pub resolve_account-IsResolved :
      (ports : Ports W) (c : AuthContext) (mode : AccountMode) (claim : IdentityClaim)
      (proof : Option AuthProof) (now : Time) (tx : Option TransactionContext) (w : W)
      {r : ResolvedAccount} {w' : W}
      → is_auth_context c ≡ true
      → resolve_account ports c mode claim proof now tx w ≡ (done r, w')
      → IsResolved c claim mode r
  unfolding resolve_account is_auth_context
  resolve_account-IsResolved ports c mode claim proof now tx w valid h =
      let (named, _) = &&-eq-true (is_non_empty_string c.tenant_id) _ valid in
      let (_, w1, allowed, h1) = follow-done (policy ports c _ w) _ h in
      let (found, w2, find, h2) =
        follow-done (find_identity_of ports c (lookup_of claim) tx w1) _ h1 in
      resolve_for-IsResolved ports c claim now tx mode found w2 named
        (find_identity_of-IsClaimed ports c claim tx w1 found find) h2
