-- ===== src/Core/Sessions/Issued.antt =====
-- createSession, from the session that it answers back to what its ports said.
use authmodules.Core.Views.{to_session_view-fields, to_session_view}
use authmodules.Core.Sessions.Create.{
  histories_agree, hashes_agree, CreatedSession, create_session, create_for, create_until,
  complete_session, store_session, issue_token, session_record, session_records_match,
  resolve_session_ttl, stored_as,
}
use authmodules.Prelude.{
  ◌==◌, ℕ, ◌+◌, ◌*◌, ◌≤◌, ◌<◌, true, Option, none, some, Text, text_discrete, test→, &&-eq-true,
  inl, inr, ◌≡◌, refl, ap, ◌∙◌, sym, arith, leb,
}
use authmodules.Core.Sessions.Defs.{unavailable}
use authmodules.Core.Sessions.Steps.{
  session_is_active-eq, checked-done, now_or_fail-done, on_exit-done,
}
use authmodules.Contracts.Values.{Time, Date, at, invalid, make_date}
use authmodules.Contracts.Records.{SessionRecord, SessionStatus, CreateSessionRequest}
use authmodules.Contracts.Auth.{
  AuthContext, AuthProof, TransactionContext, SessionConfig, RawSecret, CoreIdKind,
}
use authmodules.Core.Run.{done, follow-done, if-done}
use authmodules.Core.Ports.{Ports, Stored}
use authmodules.Core.Policy.{policy, now_or_fail, read_now, generate_core_id}

-- The last time that the clock gave was before the session's end.
pub record EndsLater {W : Type 0} (ports : Ports W) (expires_at : Time) (w' : W) : Type 0 where
  pub before : W
  pub now : Time
  pub now_read : read_now ports before ≡ (some now, w')
  pub earlier : now < expires_at

pub record IsIssued {W : Type 0} (ports : Ports W) (c : AuthContext) (account_id : Text)
    (now : Time) (ttl : ℕ) (s : CreatedSession) (w' : W) : Type 0 where
  pub tenant : s.session.tenant_id ≡ c.tenant_id
  pub owner : s.session.account_id ≡ account_id
  pub status : s.session.status ≡ SessionStatus.active
  pub begins : (s.session.issued_at ≡ now) × (s.token.issued_at ≡ now)
  pub ends : (s.session.expires_at ≡ now + ttl * 1000) × (s.token.expires_at ≡ now + ttl * 1000)
  pub unexpired : EndsLater ports s.session.expires_at w'

stored_as-done :
    (request_id : Option Text) (expected : SessionRecord) (a : Stored SessionRecord)
    {r : SessionRecord}
    → stored_as request_id expected a ≡ done r
    → (a ≡ Stored.answered r) × (session_records_match expected r ≡ true)
unfolding stored_as
stored_as-done request_id expected (Stored.answered r) h =
    let (matched, e) =
      checked-done (session_records_match expected r) (unavailable request_id) r h in
    (ap Stored.answered e, ap (session_records_match expected) (sym e) ∙ matched)
stored_as-done request_id expected (Stored.refused failure) h = absurd (cc)
stored_as-done request_id expected Stored.misshapen h = absurd (cc)
stored_as-done request_id expected Stored.threw h = absurd (cc)

==→eq : (a b : ℕ) → (a == b) ≡ true → a ≡ b
==→eq a b h = ground arith

-- The fields of a stored session that agree with the one given.
session_records_match-fields :
    (e r : SessionRecord)
    → session_records_match e r ≡ true
    → (r.tenant_id ≡ e.tenant_id)
      × (r.account_id ≡ e.account_id)
      × (r.status ≡ SessionStatus.active)
      × (r.issued_at ≡ e.issued_at)
      × (r.expires_at ≡ e.expires_at)
unfolding session_records_match
session_records_match-fields e r h =
    let (_, h1) = &&-eq-true _ _ h in
    let (tenant, h2) = &&-eq-true _ _ h1 in
    let (_, h3) = &&-eq-true _ _ h2 in
    let (account, h4) = &&-eq-true _ _ h3 in
    let (status, h5) = &&-eq-true _ _ h4 in
    let (_, h6) = &&-eq-true (hashes_agree e.token_hash r.token_hash) _ h5 in
    let (issued, h7) = &&-eq-true _ _ h6 in
    let (expires, _) = &&-eq-true _ (histories_agree e r) h7 in
    (
      test→ (text_discrete r.tenant_id e.tenant_id) tenant,
      test→ (text_discrete r.account_id e.account_id) account,
      session_is_active-eq r.status status,
      ==→eq _ _ issued,
      ==→eq _ _ expires,
    )

make_date-at : (ms t : ℕ) → make_date ms ≡ at t → t ≡ ms
unfolding make_date
make_date-at ms t h = ground arith

-- With a maximum configured, a lifetime that createSession resolves is positive and no longer than
-- the maximum.
pub resolve_session_ttl-bounds :
    (config : SessionConfig) (request : CreateSessionRequest) (ttl maximum : ℕ)
    → resolve_session_ttl config request ≡ some ttl
    → config.max_ttl_seconds ≡ some maximum
    → (0 < ttl) × (ttl ≤ maximum)
unfolding resolve_session_ttl
resolve_session_ttl-bounds config request ttl maximum h k = ground arith

module _ {W : Type 0} where
  EndsLater-subst :
      (ports : Ports W) {s t : Time} {w' : W} → EndsLater ports s w' → s ≡ t → EndsLater ports t w'
  EndsLater-subst ports l e = record {
    before = l.before;
    now = l.now;
    now_read = l.now_read;
    earlier = omega (arith, e, l.earlier);
  }

  complete_session-done :
      (ports : Ports W) (c : AuthContext) (raw : RawSecret) (now expires_at : Time)
      (created : SessionRecord) (w : W) {s : CreatedSession} {w' : W}
      → complete_session ports c raw now expires_at created w ≡ (done s, w')
      → (s.session ≡ to_session_view created)
        × (s.token.issued_at ≡ now)
        × (s.token.expires_at ≡ expires_at)
        × EndsLater ports created.expires_at w'
  unfolding complete_session
  complete_session-done ports c raw now expires_at created w h =
      let (t, w1, read, rest) = follow-done (now_or_fail ports c w) _ h in
      elim (if-done (leb created.expires_at t) _ _ w1 rest) [
        | inl (late, g) ↦ absurd (cc)
        | inr (early, g) ↦ (
          cc,
          cc,
          cc,
          record {
            before = w;
            now = t;
            now_read = now_or_fail-done ports c w read ∙ ap (λ q. (some t, q.1)) g;
            earlier = ground arith;
          },
        )
      ]

  create_until-done :
      (ports : Ports W) (c : AuthContext) (account_id : Text) (proof : AuthProof)
      (request : CreateSessionRequest) (tx : Option TransactionContext) (now ttl : ℕ) (end : Date)
      (w : W) {s : CreatedSession} {w' : W}
      → end ≡ make_date (now + ttl * 1000)
      → create_until ports c account_id proof request tx now ttl end w ≡ (done s, w')
      → IsIssued ports c account_id now ttl s w'
  unfolding create_until store_session
  create_until-done ports c account_id proof request tx now ttl invalid w e h = absurd (cc)
  create_until-done ports c account_id proof request tx now ttl (at expires_at) w {s} {w'} e h =
      let (_, w1, allowed, h1) = follow-done (policy ports c _ w) _ h in
      let (session_id, w2, generate, h2) =
        follow-done (generate_core_id ports c CoreIdKind.session now w1) _ h1 in
      let (pair, w3, issue, h3) = follow-done (issue_token ports c _ w2) _ h2 in
      let expected = session_record c session_id account_id pair.1 now expires_at in
      let (created, w4, store, h4) = follow-done (store_session ports c expected tx w3) _ h3 in
      let (answer, matched) =
        stored_as-done c.request_id expected (ports.create_session expected tx w3).0 (
          on_exit-done (stored_as c.request_id expected) (ports.create_session expected tx w3)
            store) in
      let (tenant, account, status, issued, expires) =
        session_records_match-fields expected created matched in
      let (view, from, until, later) =
        complete_session-done ports c pair.0 now expires_at created w4 h4 in
      let date = make_date-at (now + ttl * 1000) expires_at (sym e) in
      let (tenant', account', status', issued', expires') = to_session_view-fields created in
      record {
        tenant = ap (λ v. v.tenant_id) view ∙ tenant' ∙ tenant;
        owner = ap (λ v. v.account_id) view ∙ account' ∙ account;
        status = ap (λ v. v.status) view ∙ status' ∙ status;
        begins = (ap (λ v. v.issued_at) view ∙ issued' ∙ issued, from);
        ends = (ap (λ v. v.expires_at) view ∙ expires' ∙ expires ∙ date, until ∙ date);
        unexpired = EndsLater-subst ports later (sym (ap (λ v. v.expires_at) view ∙ expires'));
      }

  create_for-done :
      (ports : Ports W) (c : AuthContext) (account_id : Text) (proof : AuthProof)
      (request : CreateSessionRequest) (tx : Option TransactionContext) (now : Time)
      (found : Option ℕ) (w : W) {s : CreatedSession} {w' : W}
      → create_for ports c account_id proof request tx now found w ≡ (done s, w')
      → (ttl : ℕ) × (found ≡ some ttl) × IsIssued ports c account_id now ttl s w'
  unfolding create_for
  create_for-done ports c account_id proof request tx now none w h = absurd (cc)
  create_for-done ports c account_id proof request tx now (some ttl) w h = (
    ttl,
    refl,
    create_until-done ports c account_id proof request tx now ttl (make_date (now + ttl * 1000)) w
        refl h,
  )

  -- Whatever the ports do: a session that createSession answers begins at the time given, which is
  -- valid, and ends the resolved lifetime later, in the view as on the token; it is active, of the
  -- tenant of the context and of the account given, and it ends later than the last time that the
  -- clock gave.
  pub create_session-IsIssued :
      (ports : Ports W) (c : AuthContext) (account_id : Text) (proof : AuthProof)
      (request : CreateSessionRequest) (date : Date) (tx : Option TransactionContext) (w : W)
      {s : CreatedSession} {w' : W}
      → create_session ports c account_id proof request date tx w ≡ (done s, w')
      → (now : Time) × (ttl : ℕ) × (date ≡ at now)
        × (resolve_session_ttl ports.session request ≡ some ttl)
        × IsIssued ports c account_id now ttl s w'
  unfolding create_session
  create_session-IsIssued ports c account_id proof request invalid tx w h = absurd (cc)
  create_session-IsIssued ports c account_id proof request (at now) tx w h =
      let (ttl, resolved, issued) =
        create_for-done ports c account_id proof request tx now
          (resolve_session_ttl ports.session request) w h in
      (now, ttl, refl, resolved, issued)
