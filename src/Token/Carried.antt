-- ===== src/Token/Carried.antt =====
-- From the token format to the cookie and back: an issued token on its way through a client.
use authmodules.Prelude.{
  &&-eq-true, ℕ, true, ◌&&◌, Option, none, some, [], ◌∷◌, Text, text_discrete, leb, ltb, ◌==◌, ◌+◌,
  ◌*◌, ◌/◌, length, every, ◌≡◌, refl, arith, Bool-cases, inl, inr,
}
use authmodules.JsMap.{Map, set}
use authmodules.Contracts.Values.{Time, at}
use authmodules.Contracts.Errors.{ok}
use authmodules.Contracts.Auth.{RawSecret, TokenIdentity, TokenIssueResult}
use authmodules.Token.Opaque.{
  Crypto, IssueInput, OpaqueOptions, are_opaque_options, identify, is_base64url, is_raw_token,
  issue, snapshot_raw_token, snapshot_revealed,
}
use authmodules.Token.Opaque.Laws.{IsDeterministic, issue-identify, issue-snapshot}
use authmodules.Token.Cookie.{
  CarrierRead, CookieOptions, HttpMutation, SetCookie, create_set_instructions, expiry,
  is_cookie_octet, read_cookies, read_raw_token, set_instructions,
}
use authmodules.Token.Cookie.Laws.{create_set_instructions-read_cookies, settable}

is_base64url-octet : (c : ℕ) → is_base64url c ≡ true → is_cookie_octet c ≡ true
unfolding is_base64url is_cookie_octet
is_base64url-octet c h = ground arith

every-octet : (t : Text) → every is_base64url t ≡ true → every is_cookie_octet t ≡ true
every-octet [] h = refl
every-octet (c ∷ t) h =
    let (first, rest) = &&-eq-true (is_base64url c) _ h in
    rw (is_base64url-octet c first, every-octet t rest) refl

at_most_128 : (o : OpaqueOptions) → are_opaque_options o ≡ true → leb o.bytes 128 ≡ true
unfolding are_opaque_options
at_most_128 o h =
    let (sized, schemed) = &&-eq-true (leb 16 o.bytes && leb o.bytes 128) _ h in
    let (least, most) = &&-eq-true (leb 16 o.bytes) _ sized in most

-- A token of at most 128 bytes is short enough for the cookie.
short_enough :
    (bytes l : ℕ) → leb bytes 128 ≡ true → (l == (bytes * 4 + 2) / 3) ≡ true → leb l 4096 ≡ true
short_enough bytes l h e = ground arith

is_raw_token-settable :
    (bytes : ℕ) (t : Text) → leb bytes 128 ≡ true → is_raw_token bytes t ≡ true → settable t ≡ true
unfolding is_raw_token
is_raw_token-settable bytes t h valid =
    let (sized, rest) = &&-eq-true (length t == (bytes * 4 + 2) / 3) _ valid in
    let (present, units) = &&-eq-true (ltb 0 (length t)) _ rest in
    rw (present, short_enough bytes (length t) h sized, every-octet t units) refl

snapshot_revealed-settable :
    (bytes : ℕ) (revealed : Option Text) {raw : RawSecret}
    → leb bytes 128 ≡ true
    → snapshot_revealed bytes revealed ≡ some raw
    → (t : Text) × (revealed ≡ some t) × (settable t ≡ true)
unfolding snapshot_revealed
snapshot_revealed-settable bytes none h e = absurd (cc)
snapshot_revealed-settable bytes (some t) h e = elim (Bool-cases (is_raw_token bytes t)) [
  | inl valid ↦ (t, refl, is_raw_token-settable bytes t h valid)
  | inr invalid ↦ absurd (ground arith)
]

set_instructions-settable :
    (c : CookieOptions) (revealed : Option Text) (t : Text) (expires : Time)
    → revealed ≡ some t
    → settable t ≡ true
    → (k : SetCookie) × (set_instructions c (read_raw_token revealed) (expiry (some (at expires)))
        ≡ ok (HttpMutation.set_cookie k ∷ []))
unfolding read_raw_token expiry set_instructions
set_instructions-settable c revealed t expires e valid = (
  record {
    name = c.name;
    value = record { revealed = some t };
    http_only = c.http_only;
    secure = c.secure;
    same_site = c.same_site;
    path = c.path;
    domain = c.domain;
    expires = some expires;
  },
  rw (e, valid) refl,
)

module _ {W : Type 0} (o : OpaqueOptions) (crypto : Crypto W) (c : CookieOptions) where
  issue-sets :
      (input : IssueInput) (expires : Time) (w : W) {r : TokenIssueResult}
      → are_opaque_options o ≡ true
      → (issue o crypto input w).0 ≡ ok r
      → (k : SetCookie) × (create_set_instructions c r.raw (some (at expires))
          ≡ ok (HttpMutation.set_cookie k ∷ []))
  unfolding create_set_instructions snapshot_raw_token
  issue-sets input expires w {r} options h =
      let (t, revealed, valid) =
        snapshot_revealed-settable o.bytes r.raw.revealed (at_most_128 o options)
          (issue-snapshot o crypto input w h) in
      set_instructions-settable c r.raw.revealed t expires revealed valid

  -- Where the options of the format are valid and the provider hashes a text always alike: the cookie
  -- carrier sets a cookie, and only that, for every token that issue has answered, at every valid
  -- expiry. A request with that cookie, whatever other cookies it has, is read as a token that
  -- identify, with a tenant and a valid time, maps to the hash that issue has answered.
  pub issue-carried-identify :
      (input : IssueInput) (jar : Map Text (Option Text)) (tenant : Text) (expires now : Time)
      (w v : W) {r : TokenIssueResult}
      → are_opaque_options o ≡ true
      → IsDeterministic crypto o.scheme
      → ltb 0 (length tenant) ≡ true
      → (issue o crypto input w).0 ≡ ok r
      → (k : SetCookie) × (raw : RawSecret) × (create_set_instructions c r.raw (some (at expires))
          ≡ ok (HttpMutation.set_cookie k ∷ []))
        × (read_cookies c (some (set text_discrete k.name k.value.revealed jar))
            ≡ ok (CarrierRead.found raw))
        × ((identify o crypto (record { raw = raw; expected_tenant_id = tenant; now = at now }) v).0
            ≡ ok (some (TokenIdentity.by_token_hash r.token_hash none)))
  issue-carried-identify input jar tenant expires now w v {r} options deterministic named h =
      let (k, sets) = issue-sets input expires w options h in
      let (same, read) =
        create_set_instructions-read_cookies c r.raw (some (at expires)) jar sets in
      (k, r.raw, sets, read, issue-identify o crypto input tenant now w v deterministic named h)
