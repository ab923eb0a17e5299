-- ===== src/Core/Sessions/Found.antt =====
-- getSession, from the view that it answers back to what its ports said.
use authmodules.Core.Sessions.Defs.{
  names_other_tenant, names_session, looked_up, identified, token_hash_of, with_account,
  with_session, with_identity, with_token, get_session, GetSessionInput, find_account_of,
  find_session_of, identify_token, find_identified, accepts_account, accepts_session,
  account_is_active, session_is_active, protected_values_match,
}
use authmodules.Core.Run.{if-done, Exit, done, follow-done, pure}
use authmodules.Prelude.{
  true, not, Option, none, some, Text, text_discrete, test→, &&-eq-true, inl, inr, ◌≡◌, refl, ap,
  ◌∙◌, if◌then◌else◌, arith, leb, ◌<◌,
}
use authmodules.Contracts.Values.{Time, ProtectedValue}
use authmodules.Contracts.Records.{AccountRecord, AccountStatus, SessionRecord, SessionStatus}
use authmodules.Contracts.Auth.{AuthContext, TokenIdentity, RawSecret}
use authmodules.Core.Views.{SessionView, to_session_view}
use authmodules.Core.Ports.{Ports, Answer, Stored}
use authmodules.Core.Policy.{now_or_fail, read_now}
use authmodules.Core.Validation.{snapshot_protected_value, is_auth_context}
use authmodules.Core.Sessions.Steps.{
  session_is_active-eq, account_is_active-eq, now_or_fail-done, on_exit-done, looked_up-done,
  identified-done,
}

-- The clock's last answer was before the session's end.
pub record IsUnexpired {W : Type 0} (ports : Ports W) (r : SessionRecord) (w' : W) : Type 0 where
  pub before : W
  pub now : Time
  pub now_read : read_now ports before ≡ (some now, w')
  pub earlier : now < r.expires_at

-- The account store answered the account of the session, which is active.
pub record HasAccount {W : Type 0} (ports : Ports W) (c : AuthContext) (r : SessionRecord)
    : Type 0 where
  pub account : AccountRecord
  pub at_lookup : W
  pub account_found :
      (ports.find_account c.tenant_id r.account_id none at_lookup).0
      ≡ Stored.answered (some account)
  pub account_tenant : account.tenant_id ≡ c.tenant_id
  pub account_named : account.account_id ≡ r.account_id
  pub account_active : account.status ≡ AccountStatus.active

-- What the view of getSession rests on: the token format identified the raw token, the session store
-- answered the session for that identity, and the session has the token hash, is active, belongs to
-- the tenant and to an active account of it, and has not ended.
pub record IsLive {W : Type 0} (ports : Ports W) (c : AuthContext) (raw : RawSecret)
    (view : SessionView) (w' : W) : Type 0 where
  pub identity : TokenIdentity
  pub token_hash : ProtectedValue
  pub issued_time : Time
  pub at_identify : W
  pub identified_by :
      (ports.identify raw c.tenant_id issued_time at_identify).0 ≡ Answer.answered (some identity)
  pub token_hash_of_identity : snapshot_protected_value (token_hash_of identity) ≡ some token_hash
  pub session : SessionRecord
  pub at_search : W
  pub session_found :
      (find_identified ports c.tenant_id identity token_hash at_search).0
      ≡ Stored.answered (some session)
  pub session_tenant : session.tenant_id ≡ c.tenant_id
  pub token_matches : protected_values_match session.token_hash token_hash ≡ true
  pub session_active : session.status ≡ SessionStatus.active
  pub has_account : HasAccount ports c session
  pub unexpired : IsUnexpired ports session w'
  pub shown : view ≡ to_session_view session

module _ {W : Type 0} where
  stop-done :
      {A : Type 0} (a : A) {w w' : W}
      → ◌≡◌ {A = Exit (Option A) × W} (done none, w) (done (some a), w')
      → ⊥
  stop-done a h = cc

  show-IsUnexpired :
      (ports : Ports W) (c : AuthContext) (r : SessionRecord) (w : W) (t : Time) {w1 : W}
      {view : SessionView} {w' : W}
      → read_now ports w ≡ (some t, w1)
      → (if leb r.expires_at t then pure none else pure (some (to_session_view r))) w1
        ≡ (done (some view), w')
      → (view ≡ to_session_view r) × IsUnexpired ports r w'
  show-IsUnexpired ports c r w t {w1} {view} {w'} e h =
      elim (if-done (leb r.expires_at t) _ _ w1 h) [
        | inl (late, g) ↦ absurd (cc)
        | inr (early, g) ↦
            (cc, record { before = w; now = t; now_read = cc; earlier = ground arith })
      ]

  with_account-done :
      (ports : Ports W) (c : AuthContext) (r : SessionRecord) (found : Option AccountRecord) (w : W)
      {view : SessionView} {w' : W}
      → with_account ports c r found w ≡ (done (some view), w')
      → (account : AccountRecord) × (found ≡ some account)
        × (account.status ≡ AccountStatus.active)
        × (view ≡ to_session_view r)
        × IsUnexpired ports r w'
  unfolding with_account
  with_account-done ports c r none w h = absurd (cc)
  with_account-done ports c r (some account) w h =
      elim (if-done (not (account_is_active account.status)) _ _ w h) [
        | inl (inactive, g) ↦ absurd (cc)
        | inr (active, g) ↦
            let (t, w1, read, rest) = follow-done (now_or_fail ports c w) _ g in
            let (shown, unexpired) =
              show-IsUnexpired ports c r w t (now_or_fail-done ports c w read) rest in
            (account, refl, account_is_active-eq _ (ground arith), shown, unexpired)
      ]

  find_account_of-done :
      (ports : Ports W) (c : AuthContext) (account_id : Text) (w : W) {account : AccountRecord}
      {w' : W}
      → find_account_of ports c account_id none w ≡ (done (some account), w')
      → ((ports.find_account c.tenant_id account_id none w).0 ≡ Stored.answered (some account))
        × (account.tenant_id ≡ c.tenant_id)
        × (account.account_id ≡ account_id)
  unfolding find_account_of accepts_account
  find_account_of-done ports c account_id w {account = account} h =
      let accepts = accepts_account c.tenant_id account_id in
      let reply = ports.find_account c.tenant_id account_id none w in
      let (answer, accepted) =
        looked_up-done c.request_id accepts reply.0
          (on_exit-done (looked_up c.request_id accepts) reply h) in
      let (valid, named) = &&-eq-true _ _ accepted in
      let (tenant, id) = &&-eq-true _ _ named in
      (
        answer,
        test→ (text_discrete account.tenant_id c.tenant_id) tenant,
        test→ (text_discrete account.account_id account_id) id,
      )

  find_session_of-done :
      (ports : Ports W) (c : AuthContext) (identity : TokenIdentity) (token_hash : ProtectedValue)
      (w : W) {r : SessionRecord} {w' : W}
      → find_session_of ports c identity token_hash w ≡ (done (some r), w')
      → ((find_identified ports c.tenant_id identity token_hash w).0 ≡ Stored.answered (some r))
        × (r.tenant_id ≡ c.tenant_id)
  unfolding find_session_of accepts_session
  find_session_of-done ports c identity token_hash w {r = r} h =
      let accepts = accepts_session c.tenant_id identity in
      let reply = find_identified ports c.tenant_id identity token_hash w in
      let (answer, accepted) =
        looked_up-done c.request_id accepts reply.0
          (on_exit-done (looked_up c.request_id accepts) reply h) in
      let (valid, named) = &&-eq-true _ _ accepted in
      let (tenant, id) = &&-eq-true _ _ named in
      (answer, test→ (text_discrete r.tenant_id c.tenant_id) tenant)

  -- The facts of a session that `with_session` shows.
  with_session-done :
      (ports : Ports W) (c : AuthContext) (identity : TokenIdentity) (token_hash : ProtectedValue)
      (found : Option SessionRecord) (w : W) {view : SessionView} {w' : W}
      → with_session ports c identity token_hash found w ≡ (done (some view), w')
      → (r : SessionRecord) × (found ≡ some r)
        × (protected_values_match r.token_hash token_hash ≡ true)
        × (r.status ≡ SessionStatus.active)
        × HasAccount ports c r
        × (view ≡ to_session_view r)
        × IsUnexpired ports r w'
  unfolding with_session
  with_session-done ports c identity token_hash none w h = absurd (cc)
  with_session-done ports c identity token_hash (some r) w h =
      elim (if-done (not (protected_values_match r.token_hash token_hash)) _ _ w h) [
        | inl (other, g) ↦ elim (if-done (names_session identity) _ _ w g) [
          | inl (named, k) ↦ absurd (cc)
          | inr (hashed, k) ↦ absurd (cc)
        ]
        | inr (matched, g) ↦ elim (if-done (not (session_is_active r.status)) _ _ w g) [
          | inl (inactive, k) ↦ absurd (cc)
          | inr (active, k) ↦
              let (found, w1, lookup, rest) =
                follow-done (find_account_of ports c r.account_id none w) _ k in
              let (account, is_found, account_active, shown, unexpired) =
                with_account-done ports c r found w1 rest in
              let (answer, tenant, id) =
                find_account_of-done ports c r.account_id w
                  (lookup ∙ ap (λ f. (done f, w1)) is_found) in
              (
                r,
                refl,
                ground arith,
                session_is_active-eq _ (ground arith),
                record {
                  account = account;
                  at_lookup = w;
                  account_found = answer;
                  account_tenant = tenant;
                  account_named = id;
                  account_active = account_active;
                },
                shown,
                unexpired,
              )
        ]
      ]

  with_identity-done :
      (ports : Ports W) (c : AuthContext) (raw : RawSecret) (now : Time) (w0 : W)
      (found : Option (TokenIdentity × ProtectedValue)) (w : W) {view : SessionView} {w' : W}
      → identify_token ports c raw now w0 ≡ (done found, w)
      → with_identity ports c found w ≡ (done (some view), w')
      → IsLive ports c raw view w'
  unfolding with_identity identify_token
  with_identity-done ports c raw now w0 none w e h = absurd (cc)
  with_identity-done ports c raw now w0 (some (identity, token_hash)) w e h =
      elim (if-done (names_other_tenant c.tenant_id identity) _ _ w h) [
        | inl (other, g) ↦ absurd (cc)
        | inr (own, g) ↦
            let reply = ports.identify raw c.tenant_id now w0 in
            let (identified_by, hash) =
              identified-done c.request_id reply.0
                (on_exit-done (identified c.request_id) reply e) in
            let (found, w1, search, rest) =
              follow-done (find_session_of ports c identity token_hash w) _ g in
            let (r, is_found, matched, active, has_account, shown, unexpired) =
              with_session-done ports c identity token_hash found w1 rest in
            let (answer, tenant) =
              find_session_of-done ports c identity token_hash w
                (search ∙ ap (λ f. (done f, w1)) is_found) in
            record {
              identity = identity;
              token_hash = token_hash;
              issued_time = now;
              at_identify = w0;
              identified_by = identified_by;
              token_hash_of_identity = hash;
              session = r;
              at_search = w;
              session_found = answer;
              session_tenant = tenant;
              token_matches = matched;
              session_active = active;
              has_account = has_account;
              unexpired = unexpired;
              shown = shown;
            }
      ]

  with_token-done :
      (ports : Ports W) (c : AuthContext) (token : Option RawSecret) (w : W) {view : SessionView}
      {w' : W}
      → with_token ports c token w ≡ (done (some view), w')
      → (raw : RawSecret) × (token ≡ some raw) × IsLive ports c raw view w'
  unfolding with_token
  with_token-done ports c none w h = absurd (cc)
  with_token-done ports c (some raw) w h =
      let (now, w1, read, rest) = follow-done (now_or_fail ports c w) _ h in
      let (found, w2, identify, tail) = follow-done (identify_token ports c raw now w1) _ rest in
      (raw, refl, with_identity-done ports c raw now w1 found w2 identify tail)

  -- Whatever the ports do: a view that getSession answers is the view of a session that the store
  -- answered for the identity of the raw token, with the token hash of that identity, active, of the
  -- tenant of the context, of an account of the tenant that the store answered and that is active,
  -- and that ends later than the last time that the clock gave. The context was valid.
  pub get_session-IsLive :
      (ports : Ports W) (input : GetSessionInput) (w : W) {view : SessionView} {w' : W}
      → get_session ports input w ≡ (done (some view), w')
      → (is_auth_context input.context ≡ true)
        × ((raw : RawSecret) × (input.token ≡ some raw) × IsLive ports input.context raw view w')
  unfolding get_session
  get_session-IsLive ports input w h = elim (if-done (is_auth_context input.context) _ _ w h) [
    | inl (valid, g) ↦ (valid, with_token-done ports input.context input.token w g)
    | inr (invalid, g) ↦ absurd (cc)
  ]
