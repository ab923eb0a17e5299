-- ===== src/Core/Sessions/Concealed.antt =====
-- revokeSession of packages/core/src/operations/session.ts, for an actor that may not revoke the
-- session.
use authmodules.Prelude.{
  test-no, Bool, false, Option, none, some, Text, text_discrete, if◌then◌else◌, ◌⊎◌, inl, inr, ◌≡◌,
  refl, ap, Bool-cases,
}
use authmodules.Contracts.Records.{SessionRecord, Actor}
use authmodules.Contracts.Auth.{AuthContext}
use authmodules.Core.Run.{Exit, done, failed, thrown, Run, follow}
use authmodules.Core.Ports.{Ports, Stored}
use authmodules.Core.Policy.{now_or_fail, read_now}
use authmodules.Core.Sessions.Defs.{
  RevokeSessionInput, looked_up, accepts_named, actor_may_revoke_session,
}
use authmodules.Core.Sessions.Revoke.{
  find_named_session, is_revoke_session_input, revoke_found, revoke_session,
}

-- A system actor, or the account of the session.
unfoldable pub MayRevoke : Option Actor → SessionRecord → Type 0
MayRevoke actor r =
    ((name : Text) × (actor ≡ some (Actor.system name)))
    ⊎ (actor ≡ some (Actor.account r.account_id))

-- The answer with the session that is looked for left out.
hide : (SessionRecord → Bool) → Stored (Option SessionRecord) → Stored (Option SessionRecord)
hide named (Stored.answered (some r)) =
    if named r then Stored.answered none else Stored.answered (some r)
hide named answer = answer

actor-denied :
    (actor : Option Actor) (r : SessionRecord)
    → ¬ MayRevoke actor r
    → actor_may_revoke_session actor r ≡ false
unfolding MayRevoke actor_may_revoke_session
actor-denied none r denied = refl
actor-denied (some Actor.anonymous) r denied = refl
actor-denied (some (Actor.system name)) r denied = absurd (denied (inl (name, refl)))
actor-denied (some (Actor.account account_id)) r denied =
    elim (text_discrete account_id r.account_id) [
      | yes own ↦ absurd (denied (inr (ap (λ id. some (Actor.account id)) own)))
      | no other ↦ test-no (text_discrete account_id r.account_id) other
    ]

module _ {W : Type 0} where
  -- The ports over a store that answers, in place of the session looked for, that there is none.
  pub without_session : Ports W → Ports W
  unfolding hide
  without_session ports = record ports {
    find_session = λ tenant_id session_id w.
        let (answer, w') = ports.find_session tenant_id session_id w in
        (hide (accepts_named tenant_id session_id) answer, w');
  }

  follow-same :
      {A B : Type 0} (r : Exit A × W) (f g : A → Run W B)
      → ((a : A) (w : W) → f a w ≡ g a w)
      → follow r f ≡ follow r g
  follow-same (done a, w) f g same = same a w
  follow-same (failed e, w) f g same = refl
  follow-same (thrown, w) f g same = refl

  revoke_found-denied :
      (ports : Ports W) (c : AuthContext) (session_id : Text) (r : SessionRecord) (w : W)
      → ¬ MayRevoke c.actor r
      → revoke_found ports c session_id (some r) w ≡ (done tt, w)
  unfolding revoke_found
  revoke_found-denied ports c session_id r w denied = rw (actor-denied c.actor r denied) refl

  find-hidden :
      (ports : Ports W) (c : AuthContext) (session_id : Text)
      (answer : Stored (Option SessionRecord)) (w : W)
      → ((r : SessionRecord) → answer ≡ Stored.answered (some r) → ¬ MayRevoke c.actor r)
      → let named = accepts_named c.tenant_id session_id in
        follow (looked_up c.request_id named answer, w) (revoke_found ports c session_id)
        ≡ follow
            (looked_up c.request_id named (hide named answer), w)
            (revoke_found (without_session ports) c session_id)
  unfolding looked_up hide revoke_found
  find-hidden ports c session_id Stored.threw w denied = refl
  find-hidden ports c session_id Stored.misshapen w denied = refl
  find-hidden ports c session_id (Stored.refused failure) w denied = refl
  find-hidden ports c session_id (Stored.answered none) w denied = refl
  find-hidden ports c session_id (Stored.answered (some r)) w denied =
      elim (Bool-cases (accepts_named c.tenant_id session_id r)) [
        | inl named ↦ rw (named, actor-denied c.actor r (denied r refl)) refl
        | inr other ↦ rw other (rw other refl)
      ]

  -- An actor that is neither a system actor nor the account of the session that the store answers
  -- cannot tell whether it is there: on every input, and whatever else the ports do, revokeSession
  -- ends as it does over a store that answers that there is no such session, with the same answer
  -- and with the same calls of the ports.
  pub revoke_session-conceals :
      (ports : Ports W) (input : RevokeSessionInput) (w : W)
      → ((v : W) (r : SessionRecord)
          → (ports.find_session input.context.tenant_id input.session_id v).0
            ≡ Stored.answered (some r)
          → ¬ MayRevoke input.context.actor r)
      → revoke_session ports input w ≡ revoke_session (without_session ports) input w
  unfolding revoke_session find_named_session without_session now_or_fail read_now
  revoke_session-conceals ports input w denied = elim (Bool-cases (is_revoke_session_input input)) [
    | inl valid ↦ rw valid (
        follow-same (now_or_fail ports input.context w) _ _ λ now v.
          find-hidden ports input.context input.session_id
            (ports.find_session input.context.tenant_id input.session_id v).0
            (ports.find_session input.context.tenant_id input.session_id v).1 (denied v))
    | inr invalid ↦ rw invalid refl
  ]
