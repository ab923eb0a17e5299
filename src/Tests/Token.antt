-- ===== src/Tests/Token.antt =====
-- Tokens of 16 bytes, whose hash is the text itself, and the cookie that carries one.
use authmodules.Prelude.{ℕ, ◌+◌, true, none, some, [], ◌∷◌, Text, codes, ◌≡◌, refl, text_discrete}
use authmodules.JsMap.{set}
use authmodules.Contracts.Values.{at}
use authmodules.Contracts.Errors.{ok}
use authmodules.Contracts.Auth.{TokenIdentity, TokenIssueResult}
use authmodules.Core.Ports.{Answer, Reading}
use authmodules.Token.Opaque.{
  Crypto, IssueInput, OpaqueOptions, are_opaque_options, identify, issue,
}
use authmodules.Token.Opaque.Laws.{issue-identify}
use authmodules.Token.Cookie.{
  CarrierRead, CookieOptions, HttpMutation, SameSite, SetCookie, are_cookie_options,
  create_set_instructions, read_cookies,
}
use authmodules.Token.Cookie.Laws.{create_set_instructions-read_cookies}
use authmodules.Token.Carried.{issue-carried-identify}
use authmodules.Contracts.Auth.{RawSecret}

abbrev opaque_options : OpaqueOptions
opaque_options = record { bytes = 16; scheme = codes "opaque-token-sha256.v1" }

opaque_options_valid : are_opaque_options opaque_options ≡ true
unfolding are_opaque_options
opaque_options_valid = refl

abbrev text : Text
text = codes "abcdefghijklmnopqrst-_"

abbrev crypto : Crypto ℕ
crypto = record {
  random_secret_string = λ bytes w. (Reading.read (record { revealed = some text }), w + 1);
  hash = λ raw scheme w. (
    Answer.answered (record { scheme = scheme; key_id = none; created_at = none; verifier = text }),
    w + 1,
  );
}

abbrev issue_input : IssueInput
issue_input = record {
  tenant_id = codes "t";
  account_id = codes "a";
  session_id = codes "s";
  issued_at = at 1;
  expires_at = at 2;
}

abbrev issued : TokenIssueResult
issued = record {
  raw = record { revealed = some text };
  token_hash = record {
    scheme = codes "opaque-token-sha256.v1";
    key_id = none;
    created_at = none;
    verifier = text;
  };
}

issued_once : (issue opaque_options crypto issue_input 0).0 ≡ ok issued
unfolding issue authmodules.Token.Opaque.valid_issue_input
    authmodules.Token.Opaque.snapshot_token_hash text_discrete
issued_once = refl

issue-identify_example :
    (identify opaque_options crypto
      (record { raw = issued.raw; expected_tenant_id = codes "t"; now = at 5 })
      7).0
    ≡ ok (some (TokenIdentity.by_token_hash issued.token_hash none))
issue-identify_example =
    issue-identify opaque_options crypto issue_input (codes "t") 5 0 7
      (record { same_hash = λ raw v w. refl }) refl issued_once

abbrev cookie_options : CookieOptions
cookie_options = record {
  name = codes "am_session";
  path = codes "/";
  same_site = SameSite.lax;
  secure = true;
  http_only = true;
  domain = none;
}

cookie_options_valid : are_cookie_options cookie_options ≡ true
unfolding are_cookie_options
cookie_options_valid = refl

-- A domain, and a cookie that asks for the root path.
with_domain :
    are_cookie_options
      (record cookie_options { name = codes "__Secure-s"; domain = some (codes ".example.com") })
    ≡ true
unfolding are_cookie_options
with_domain = refl

abbrev cookie : SetCookie
cookie = record {
  name = codes "am_session";
  value = record { revealed = some text };
  http_only = true;
  secure = true;
  same_site = SameSite.lax;
  path = codes "/";
  domain = none;
  expires = some 5;
}

cookie_set :
    create_set_instructions cookie_options issued.raw (some (at 5))
    ≡ ok (HttpMutation.set_cookie cookie ∷ [])
unfolding create_set_instructions
cookie_set = refl

create_set_instructions-read_cookies_example :
    (cookie.value ≡ issued.raw)
    × (read_cookies cookie_options
          (some (set text_discrete cookie.name cookie.value.revealed ((codes "other", none) ∷ [])))
        ≡ ok (CarrierRead.found issued.raw))
create_set_instructions-read_cookies_example =
    create_set_instructions-read_cookies cookie_options issued.raw (some (at 5))
      ((codes "other", none) ∷ []) cookie_set

issue-carried-identify_example :
    (k : SetCookie) × (raw : RawSecret) × (create_set_instructions cookie_options issued.raw
        (some (at 5))
      ≡ ok (HttpMutation.set_cookie k ∷ []))
    × (read_cookies cookie_options
          (some (set text_discrete k.name k.value.revealed ((codes "other", none) ∷ [])))
        ≡ ok (CarrierRead.found raw))
    × ((identify opaque_options crypto
          (record { raw = raw; expected_tenant_id = codes "t"; now = at 5 })
          7).0
        ≡ ok (some (TokenIdentity.by_token_hash issued.token_hash none)))
issue-carried-identify_example =
    issue-carried-identify opaque_options crypto cookie_options issue_input
      ((codes "other", none) ∷ []) (codes "t") 5 5 0 7 opaque_options_valid
      (record { same_hash = λ raw v w. refl }) refl issued_once
