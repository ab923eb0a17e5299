-- ===== src/Token/Cookie/Laws.antt =====
-- What the cookie carrier sets, it reads.
use authmodules.Prelude.{
  &&-eq-true, none-ne-some, some-eq-some, Bool, true, ◌&&◌, Option, none, some, List, [], ◌∷◌, Text,
  text_discrete, leb, ltb, length, every, ◌≡◌, refl, ap, ◌∙◌, sym, arith, Bool-cases, inl, inr,
}
use authmodules.Token.Cookie.{
  expiry, CarrierRead, CookieOptions, HttpMutation, SetCookie, create_set_instructions,
  is_cookie_octet, is_cookie_value, read_cookies, read_raw_token, read_value, set_instructions,
}
use authmodules.JsMap.{Map, get, set}
use authmodules.JsMap.Laws.{get-set_self}
use authmodules.Contracts.Values.{Time, Date}
use authmodules.Contracts.Errors.{ok}
use authmodules.Contracts.Auth.{RawSecret}

abbrev pub settable : Text → Bool
settable token = ltb 0 (length token) && (leb (length token) 4096 && every is_cookie_octet token)

settable-is_cookie_value : (token : Text) → settable token ≡ true → is_cookie_value token ≡ true
unfolding is_cookie_value
settable-is_cookie_value token h =
    let (_, rest) = &&-eq-true (ltb 0 (length token)) _ h in
    let (short, octets) = &&-eq-true (leb (length token) 4096) _ rest in
    let readable : leb (length token) 8192 ≡ true = ground arith in rw (readable, octets) refl

read_raw_token-settable :
    (revealed : Option Text) (token : Text)
    → read_raw_token revealed ≡ some token
    → (revealed ≡ some token) × (settable token ≡ true)
unfolding read_raw_token
read_raw_token-settable none token h = absurd (cc)
read_raw_token-settable (some t) token h = elim (Bool-cases (settable t)) [
  | inl valid ↦
      let e : t ≡ token = some-eq-some (rw valid at h) in (ap some e, ap settable (sym e) ∙ valid)
  | inr invalid ↦ absurd (none-ne-some (rw invalid at h))
]

read_value-settable :
    (token : Text)
    → settable token ≡ true
    → read_value (some (some token)) ≡ ok (CarrierRead.found (record { revealed = some token }))
unfolding read_value
read_value-settable [] h = absurd (cc)
read_value-settable (c ∷ t) h = rw (settable-is_cookie_value (c ∷ t) h) refl

set_instructions-token :
    (o : CookieOptions) (found : Option Text) (expires : Option (Option Time)) {c : SetCookie}
    {rest : List HttpMutation}
    → set_instructions o found expires ≡ ok (HttpMutation.set_cookie c ∷ rest)
    → (token : Text) × (found ≡ some token)
      × (c.name ≡ o.name)
      × (c.value ≡ record { revealed = some token })
unfolding set_instructions
set_instructions-token o (some token) (some expires) {c} h = (token, refl, cc, cc)
set_instructions-token o (some token) none h = absurd (cc)
set_instructions-token o none expires h = absurd (cc)

-- A cookie that createSetInstructions sets carries the token that it was given; and a request with
-- that cookie, whatever other cookies it has, is read as that token.
pub create_set_instructions-read_cookies :
    (o : CookieOptions) (token : RawSecret) (expires_at : Option Date)
    (jar : Map Text (Option Text)) {c : SetCookie} {rest : List HttpMutation}
    → create_set_instructions o token expires_at ≡ ok (HttpMutation.set_cookie c ∷ rest)
    → (c.value ≡ token)
      × (read_cookies o (some (set text_discrete c.name c.value.revealed jar))
          ≡ ok (CarrierRead.found token))
unfolding create_set_instructions read_cookies
create_set_instructions-read_cookies o token expires_at jar {c} h =
    let (t, read, name, value) =
      set_instructions-token o (read_raw_token token.revealed) (expiry expires_at) h in
    let (revealed, valid) = read_raw_token-settable token.revealed t read in
    let same : record { revealed = some t } ≡ token =
      ap (λ (r : Option Text). record { revealed = r }) (sym revealed) in
    (
      value ∙ same,
      ap (λ n. read_value (get text_discrete n (set text_discrete c.name c.value.revealed jar)))
            (sym name)
          ∙ ap read_value (get-set_self text_discrete c.name c.value.revealed jar)
          ∙ ap (λ (q : RawSecret). read_value (some q.revealed)) value
          ∙ read_value-settable t valid
          ∙ ap (λ q. ok (CarrierRead.found q)) same,
    )
