-- ===== src/Core/Accounts.antt =====
-- packages/core/src/accounts/resolve.ts: the account and the identity that a proof leads to.
pub mod Laws
use authmodules.Prelude.{
  Bool, true, false, ◌&&◌, not, Option, none, some, Text, codes, ◌==◌, if◌then◌else◌,
}
use authmodules.Contracts.Values.{Time}
use authmodules.Contracts.Json.{Json}
use authmodules.Contracts.Errors.{Reason}
use authmodules.Contracts.Records.{
  AccountRecord, AccountStatus, IdentityRecord, IdentityLookup, AccountMode, Actor,
}
use authmodules.Contracts.Auth.{
  AuthContext, AuthProof, IdentityClaim, CoreIdKind, TransactionContext,
}
use authmodules.Core.Errors.{PublicAuthErrorCode, store_failure}
use authmodules.Core.Run.{◌>>=◌, ◌>>◌, Exit, done, failed, thrown, Run, pure, refuse}
use authmodules.Core.Ports.{Ports, Stored, PolicyCheck}
use authmodules.Core.Policy.{policy, generate_core_id}
use authmodules.Core.Validation.{same, is_account_record, is_identity_record}
use authmodules.Core.Sessions.Defs.{
  unavailable, looked_up, on_exit, account_is_active, find_account_of, same_option,
}

pub record ResolvedAccount : Type 0 where
  pub account : AccountRecord
  pub identity : Option IdentityRecord

abbrev pub lookup_of : IdentityClaim → IdentityLookup
lookup_of i = record {
  method_id = i.method_id;
  method_kind = i.method_kind;
  subject = i.subject;
  subject_kind = i.subject_kind;
  display = i.display;
}

unfoldable pub accepts_identity : Text → IdentityLookup → IdentityRecord → Bool
accepts_identity tenant_id i r =
    is_identity_record r
    && (same r.tenant_id tenant_id
        && (same r.method_id i.method_id
            && (same r.method_kind i.method_kind
                && (same r.subject i.subject && same r.subject_kind i.subject_kind))))

same_time : Option Time → Option Time → Bool
same_time none none = true
same_time (some s) (some t) = s == t
same_time _ _ = false

is_empty : Option Json → Bool
is_empty none = true
is_empty (some value) = false

-- The fingerprint of the answer is the one of the record that the core made, which is an active
-- account without public data. A record that is not valid has no fingerprint, so that an answer that
-- is not valid either is taken.
unfoldable pub is_account_made : AccountRecord → AccountRecord → Bool
unfolding is_empty
is_account_made expected r =
    if is_account_record expected
    then is_account_record r
      && (same r.tenant_id expected.tenant_id
          && (same r.account_id expected.account_id
              && (account_is_active r.status
                  && (r.created_at == expected.created_at
                      && (r.updated_at == expected.updated_at && is_empty r.public_data)))))
    else not (is_account_record r)

unfoldable pub is_identity_made : IdentityRecord → IdentityRecord → Bool
unfolding same_time same_option
is_identity_made expected r =
    if is_identity_record expected
    then is_identity_record r
      && (same r.tenant_id expected.tenant_id
          && (same r.account_id expected.account_id
              && (same r.method_id expected.method_id
                  && (same r.subject expected.subject
                      && (same r.identity_id expected.identity_id
                          && (same r.method_kind expected.method_kind
                              && (same r.subject_kind expected.subject_kind
                                  && (same_option r.display expected.display
                                      && (same_time r.verified_at expected.verified_at
                                          && (r.created_at == expected.created_at
                                              && r.updated_at == expected.updated_at))))))))))
    else not (is_identity_record r)

-- What the core makes of the store's answer to a `create`. An answer of another type has no
-- fingerprint; where the record made has none either, the code would pass it on.
unfoldable pub made : {A : Type 0} → Option Text → (A → Bool) → Stored A → Exit A
made request_id agrees (Stored.answered r) =
    if agrees r then done r else failed (unavailable request_id)
made request_id agrees (Stored.refused failure) = failed (store_failure request_id failure)
made request_id agrees Stored.misshapen = failed (unavailable request_id)
made request_id agrees Stored.threw = thrown

abbrev pub account_record : AuthContext → Text → Time → AccountRecord
account_record c account_id now = record {
  tenant_id = c.tenant_id;
  account_id = account_id;
  status = AccountStatus.active;
  created_at = now;
  updated_at = now;
  public_data = none;
}

abbrev pub identity_record : AuthContext → Text → Text → IdentityClaim → Time → IdentityRecord
identity_record c identity_id account_id i now = record {
  tenant_id = c.tenant_id;
  identity_id = identity_id;
  account_id = account_id;
  method_id = i.method_id;
  method_kind = i.method_kind;
  subject = i.subject;
  subject_kind = i.subject_kind;
  display = i.display;
  verified_at = i.verified_at;
  created_at = now;
  updated_at = now;
}

-- `authErr(context, 'ACCOUNT_UNAVAILABLE', 'ACCOUNT_UNAVAILABLE')`, whose reason is no
-- `CoreInternalAuthReason`; so is 'AUTHENTICATION_FAILED' below.
abbrev account_unavailable : {W A : Type 0} → AuthContext → Run W A
account_unavailable c =
    refuse c.request_id (Reason.extension (codes "ACCOUNT_UNAVAILABLE"))
      PublicAuthErrorCode.account_unavailable

abbrev linking_denied : {W A : Type 0} → AuthContext → Run W A
linking_denied c =
    refuse c.request_id Reason.account_linking_denied PublicAuthErrorCode.authorization_failed

-- `existingIdentity.value && existingIdentity.value.accountId !== context.actor.accountId`
unfoldable pub belongs_to_other : Text → Option IdentityRecord → Bool
belongs_to_other account_id none = false
belongs_to_other account_id (some identity) = not (same identity.account_id account_id)

module _ {W : Type 0} where
  -- `findIdentity` with a lookup given.
  unfoldable pub find_identity_of :
      Ports W
      → AuthContext
      → IdentityLookup
      → Option TransactionContext
      → Run W (Option IdentityRecord)
  unfolding looked_up accepts_identity
  find_identity_of ports c i tx w =
      on_exit (looked_up c.request_id (accepts_identity c.tenant_id i))
        (ports.find_by_subject c.tenant_id i.method_id i.subject tx w)

  unfoldable pub find_identity :
      Ports W
      → AuthContext
      → Option IdentityLookup
      → Option TransactionContext
      → Run W (Option IdentityRecord)
  find_identity ports c none tx w = (done none, w)
  find_identity ports c (some i) tx w = find_identity_of ports c i tx w

  unfoldable pub store_account :
      Ports W → AuthContext → AccountRecord → Option TransactionContext → Run W AccountRecord
  unfolding made is_account_made
  store_account ports c r tx w =
      on_exit (made c.request_id (is_account_made r)) (ports.create_account r tx w)

  unfoldable pub store_identity :
      Ports W → AuthContext → IdentityRecord → Option TransactionContext → Run W IdentityRecord
  unfolding made is_identity_made
  store_identity ports c r tx w =
      on_exit (made c.request_id (is_identity_made r)) (ports.create_identity r tx w)

  -- The account that was looked up, where it is there and active.
  unfoldable pub available :
      AuthContext → Option IdentityRecord → Option AccountRecord → Run W ResolvedAccount
  available c identity none = account_unavailable c
  available c identity (some account) =
      if account_is_active account.status
      then pure (record { account = account; identity = identity })
      else account_unavailable c

  -- 'link-to-actor-account'
  unfoldable pub link :
      Ports W
      → AuthContext
      → Option IdentityRecord
      → Option TransactionContext
      → Option Actor
      → Run W ResolvedAccount
  link ports c existing tx (some (Actor.account account_id)) =
      if belongs_to_other account_id existing
      then linking_denied c
      else (do account ← find_account_of ports c account_id tx; available c existing account)
  link ports c existing tx _ = linking_denied c

  -- A new account, which the store has to answer as it was made.
  unfoldable pub make_account :
      Ports W → AuthContext → Time → Option TransactionContext → Run W ResolvedAccount
  make_account ports c now tx = do
    account_id ← generate_core_id ports c CoreIdKind.account now
    created ← store_account ports c (account_record c account_id now) tx
    pure (record { account = created; identity = none })

  -- The account of an identity that exists.
  unfoldable pub use_identity :
      Ports W → AuthContext → IdentityRecord → Option TransactionContext → Run W ResolvedAccount
  use_identity ports c identity tx = do
    account ← find_account_of ports c identity.account_id tx
    available c (some identity) account

  -- The rest of `resolveAccount`, on the mode and the identity found.
  unfoldable pub resolve_for :
      Ports W
      → AuthContext
      → Time
      → Option TransactionContext
      → AccountMode
      → Option IdentityRecord
      → Run W ResolvedAccount
  resolve_for ports c now tx AccountMode.create_new_account (some identity) =
      refuse c.request_id Reason.identity_conflict PublicAuthErrorCode.conflict
  resolve_for ports c now tx AccountMode.create_new_account none = make_account ports c now tx
  resolve_for ports c now tx AccountMode.require_existing_identity none =
      refuse c.request_id (Reason.extension (codes "AUTHENTICATION_FAILED"))
        PublicAuthErrorCode.authentication_failed
  resolve_for ports c now tx AccountMode.require_existing_identity (some identity) =
      use_identity ports c identity tx
  resolve_for ports c now tx AccountMode.create_account_if_identity_missing none =
      make_account ports c now tx
  resolve_for ports c now tx AccountMode.create_account_if_identity_missing (some identity) =
      use_identity ports c identity tx
  resolve_for ports c now tx AccountMode.link_to_actor_account existing =
      link ports c existing tx c.actor

  unfoldable pub resolve_account :
      Ports W
      → AuthContext
      → AccountMode
      → IdentityClaim
      → Option AuthProof
      → Time
      → Option TransactionContext
      → Run W ResolvedAccount
  resolve_account ports c mode claim proof now tx = do
    policy ports c
        (λ d. PolicyCheck.resolve_account d proof (some claim) (some (lookup_of claim)) mode)
    existing ← find_identity_of ports c (lookup_of claim) tx
    resolve_for ports c now tx mode existing

  unfoldable pub create_identity_for_claim :
      Ports W
      → AuthContext
      → Text
      → IdentityClaim
      → Time
      → Option TransactionContext
      → Run W IdentityRecord
  create_identity_for_claim ports c account_id claim now tx = do
    identity_id ← generate_core_id ports c CoreIdKind.identity now
    store_identity ports c (identity_record c identity_id account_id claim now) tx
