-- ===== src/Core/Run.antt =====
-- How an operation of the core ends, on a world W that its ports keep: with a value, with an
-- `AuthFailure` (`Result` with `ok: false`), or by an exception that no handler has caught yet.
use authmodules.Prelude.{
  Bool, true, false, if◌then◌else◌, ◌⊎◌, inl, inr, Option, none, some, Text, ◌≡◌, refl,
}
use authmodules.Contracts.Errors.{Reason}
use authmodules.Core.Errors.{AuthFailure, PublicAuthErrorCode, auth_err}

pub data Exit (A : Type 0) : Type 0 where
  done : A → Exit A
  failed : AuthFailure → Exit A
  thrown : Exit A

abbrev pub Run : Type 0 → Type 0 → Type 0
Run W A = W → Exit A × W

module _ {W : Type 0} where
  -- What follows a step, on how the step ended.
  abbrev pub follow : {A B : Type 0} → Exit A × W → (A → Run W B) → Exit B × W
  follow (done a, w) rest = rest a w
  follow (failed e, w) rest = (failed e, w)
  follow (thrown, w) rest = (thrown, w)

  infixl 5 ◌>>=◌ ◌>>◌
  abbrev pub ◌>>=◌ : {A B : Type 0} → Run W A → (A → Run W B) → Run W B
  ◌>>=◌ m rest w = follow (m w) rest

  abbrev pub ◌>>◌ : {A B : Type 0} → Run W A → Run W B → Run W B
  ◌>>◌ m rest w = follow (m w) (λ _. rest)

  abbrev pub pure : {A : Type 0} → A → Run W A
  pure a w = (done a, w)

  abbrev pub fail : {A : Type 0} → AuthFailure → Run W A
  fail e w = (failed e, w)

  abbrev pub throw : {A : Type 0} → Run W A
  throw w = (thrown, w)

  -- `authErr(context, reason, code)`, by the request id of the context.
  abbrev pub refuse : {A : Type 0} → Option Text → Reason → PublicAuthErrorCode → Run W A
  refuse request_id reason code = fail (auth_err request_id reason (some code) none)

  abbrev pub require : Bool → AuthFailure → Run W (Unit {0})
  require true e w = (done tt, w)
  require false e w = (failed e, w)

  -- `catchBoundary`
  abbrev pub after_boundary : {A : Type 0} → Option Text → Exit A × W → Exit A × W
  after_boundary request_id (done a, w) = (done a, w)
  after_boundary request_id (failed e, w) = (failed e, w)
  after_boundary request_id (thrown, w) =
      (failed (auth_err request_id Reason.internal (some PublicAuthErrorCode.internal) none), w)

  unfoldable pub catch_boundary : {A : Type 0} → Option Text → Run W A → Run W A
  catch_boundary request_id m w = after_boundary request_id (m w)

  -- The steps of a run that ends with a value.
  pub follow-done :
      {A B : Type 0} (r : Exit A × W) (rest : A → Run W B) {b : B} {w' : W}
      → follow r rest ≡ (done b, w')
      → (a : A) × (w : W) × (r ≡ (done a, w)) × (rest a w ≡ (done b, w'))
  follow-done (done a, w) rest h = (a, w, refl, h)
  follow-done (failed e, w) rest h = absurd (cc)
  follow-done (thrown, w) rest h = absurd (cc)

  pub require-done :
      (b : Bool) (e : AuthFailure) (w : W) {u : Unit {0}} {w' : W}
      → require b e w ≡ (done u, w')
      → (b ≡ true) × (w' ≡ w)
  require-done true e w h = (refl, cc)
  require-done false e w h = absurd (cc)

  pub if-done :
      {A : Type 0} (b : Bool) (m n : Run W A) (w : W) {a : A} {w' : W}
      → (if b then m else n) w ≡ (done a, w')
      → ((b ≡ true) × (m w ≡ (done a, w'))) ⊎ ((b ≡ false) × (n w ≡ (done a, w')))
  if-done true m n w h = inl (refl, h)
  if-done false m n w h = inr (refl, h)

  pub pure-done : {A : Type 0} {a b : A} {w w' : W} → pure a w ≡ (done b, w') → (a ≡ b) × (w ≡ w')
  pure-done h = (cc, cc)

  pub fail-done :
      {A : Type 0} {e : AuthFailure} {b : A} {w w' : W} → fail {A = A} e w ≡ (done b, w') → ⊥
  fail-done h = cc

  after_boundary-ne-thrown :
      {A : Type 0} (request_id : Option Text) (r : Exit A × W)
      → (after_boundary request_id r).0 ≡ thrown
      → ⊥
  after_boundary-ne-thrown request_id (done a, w) h = cc
  after_boundary-ne-thrown request_id (failed e, w) h = cc
  after_boundary-ne-thrown request_id (thrown, w) h = cc

  -- A boundary lets no exception out.
  pub catch_boundary-ne-thrown :
      {A : Type 0} (request_id : Option Text) (m : Run W A) (w : W)
      → (catch_boundary request_id m w).0 ≡ thrown
      → ⊥
  unfolding catch_boundary
  catch_boundary-ne-thrown request_id m w h = after_boundary-ne-thrown request_id (m w) h
