-- ===== src/Core/Sessions/Steps.antt =====
-- What the steps of a session operation give where they end with a value.
use authmodules.Prelude.{
  Bool, true, false, Option, none, some, Text, ◌≡◌, refl, ap, if◌then◌else◌, arith,
}
use authmodules.Contracts.Values.{Time, ProtectedValue}
use authmodules.Contracts.Records.{AccountStatus, SessionStatus}
use authmodules.Contracts.Auth.{AuthContext, TokenIdentity}
use authmodules.Core.Errors.{AuthFailure}
use authmodules.Core.Run.{Exit, done, failed}
use authmodules.Core.Ports.{Ports, Answer, Stored}
use authmodules.Core.Policy.{now_or_fail, read_now, time_or_fail}
use authmodules.Core.Validation.{snapshot_protected_value}
use authmodules.Core.Sessions.Defs.{
  account_is_active, session_is_active, on_exit, looked_up, identified, unavailable, token_hash_of,
}

module _ {W : Type 0} where
  time_or_fail-done :
      (request_id : Option Text) (p : Option Time × W) {t : Time} {w' : W}
      → time_or_fail request_id p ≡ (done t, w')
      → p ≡ (some t, w')
  time_or_fail-done request_id (some t, w) h = cc
  time_or_fail-done request_id (none, w) h = absurd (cc)

  pub now_or_fail-done :
      (ports : Ports W) (c : AuthContext) (w : W) {t : Time} {w' : W}
      → now_or_fail ports c w ≡ (done t, w')
      → read_now ports w ≡ (some t, w')
  unfolding now_or_fail
  now_or_fail-done ports c w h = time_or_fail-done c.request_id (read_now ports w) h

  pub on_exit-done :
      {A B : Type 0} (f : A → Exit B) (p : A × W) {b : B} {w' : W}
      → on_exit f p ≡ (done b, w')
      → f p.0 ≡ done b
  on_exit-done f (a, w) h = ap (λ q. q.0) h

accepted-done :
    {A : Type 0} (b : Bool) (e : AuthFailure) (r : A) {r' : A}
    → (if b then done (some r) else failed e) ≡ done (some r')
    → (b ≡ true) × (r ≡ r')
accepted-done true e r h = (refl, cc)
accepted-done false e r h = absurd (cc)

pub checked-done :
    {A : Type 0} (b : Bool) (e : AuthFailure) (r : A) {r' : A}
    → (if b then done r else failed e) ≡ done r'
    → (b ≡ true) × (r ≡ r')
checked-done true e r h = (refl, cc)
checked-done false e r h = absurd (cc)

pub looked_up-done :
    {A : Type 0} (request_id : Option Text) (accepts : A → Bool) (s : Stored (Option A)) {r : A}
    → looked_up request_id accepts s ≡ done (some r)
    → (s ≡ Stored.answered (some r)) × (accepts r ≡ true)
unfolding looked_up
looked_up-done request_id accepts (Stored.answered none) h = absurd (cc)
looked_up-done request_id accepts (Stored.answered (some r)) {r = r'} h =
    let (a, e) = accepted-done (accepts r) (unavailable request_id) r h in (cc, cc)
looked_up-done request_id accepts (Stored.refused failure) h = absurd (cc)
looked_up-done request_id accepts Stored.misshapen h = absurd (cc)
looked_up-done request_id accepts Stored.threw h = absurd (cc)

pub identified-done :
    (request_id : Option Text) (a : Answer (Option TokenIdentity)) {identity : TokenIdentity}
    {token_hash : ProtectedValue}
    → identified request_id a ≡ done (some (identity, token_hash))
    → (a ≡ Answer.answered (some identity))
      × (snapshot_protected_value (token_hash_of identity) ≡ some token_hash)
unfolding identified
identified-done request_id a h = ground arith

pub account_is_active-eq :
    (s : AccountStatus) → account_is_active s ≡ true → s ≡ AccountStatus.active
unfolding account_is_active
account_is_active-eq AccountStatus.active h = refl
account_is_active-eq AccountStatus.disabled h = absurd (cc)
account_is_active-eq AccountStatus.deleted h = absurd (cc)

pub session_is_active-eq :
    (s : SessionStatus) → session_is_active s ≡ true → s ≡ SessionStatus.active
unfolding session_is_active
session_is_active-eq SessionStatus.active h = refl
session_is_active-eq SessionStatus.revoked h = absurd (cc)
session_is_active-eq SessionStatus.expired h = absurd (cc)
