-- ===== src/Token/Cookie.antt =====
-- packages/carrier-cookie/src: the carrier that keeps the session token in a cookie.
pub mod Laws
use authmodules.Prelude.{
  ℕ, Bool, true, false, ◌&&◌, ◌||◌, not, Option, none, some, List, [], ◌∷◌, ◌++◌, Text, codes,
  text_discrete, test, leb, ltb, ◌==◌, if◌then◌else◌, length, every, includes, ℕ_discrete,
}
use authmodules.JsMap.{Map, get}
use authmodules.Contracts.Values.{Time, Date, at, invalid}
use authmodules.Contracts.Errors.{Reason, Result, ok, err}
use authmodules.Contracts.Auth.{RawSecret}

pub data SameSite : Type 0 where
  lax strict none_site : SameSite

-- The options with their defaults filled in.
pub record CookieOptions : Type 0 where
  pub name : Text
  pub path : Text
  pub same_site : SameSite
  pub secure : Bool
  pub http_only : Bool
  pub domain : Option Text

is_alphanumeric : ℕ → Bool
is_alphanumeric c =
    (leb b'0' c && leb c b'9') || ((leb b'A' c && leb c b'Z') || (leb b'a' c && leb c b'z'))

-- [!#$%&'*+\-.^_`|~0-9A-Za-z]
is_name_unit : ℕ → Bool
unfolding is_alphanumeric ℕ_discrete
is_name_unit c = is_alphanumeric c || includes ℕ_discrete (codes "!#$%&'*+-.^_`|~") c

is_cookie_name : Text → Bool
unfolding is_name_unit
is_cookie_name name = leb (length name) 256 && (ltb 0 (length name) && every is_name_unit name)

-- [\x20-\x3A\x3C-\x7E]
is_path_unit : ℕ → Bool
is_path_unit c = (leb 0x20 c && leb c 0x3A) || (leb 0x3C c && leb c 0x7E)

starts_path : Text → Bool
unfolding is_path_unit
starts_path [] = false
starts_path (c ∷ t) = c == b'/' && every is_path_unit t

unfoldable pub is_cookie_path : Text → Bool
unfolding starts_path
is_cookie_path value = leb (length value) 2048 && starts_path value

-- `value.split('.')`, from a label that has begun.
split_labels : Text → Text → List Text
split_labels label [] = label ∷ []
split_labels label (c ∷ t) = elim (c == b'.') [
  | true ↦ label ∷ split_labels [] t
  | false ↦ split_labels (label ++ c ∷ []) t
]

-- [A-Za-z0-9-]*[A-Za-z0-9]
is_label_rest : Text → Bool
unfolding is_alphanumeric
is_label_rest [] = false
is_label_rest (c ∷ []) = is_alphanumeric c
is_label_rest (c ∷ d ∷ t) = (is_alphanumeric c || c == b'-') && is_label_rest (d ∷ t)

is_label_text : Text → Bool
unfolding is_label_rest is_alphanumeric
is_label_text [] = false
is_label_text (c ∷ []) = is_alphanumeric c
is_label_text (c ∷ d ∷ t) = is_alphanumeric c && is_label_rest (d ∷ t)

is_label : Text → Bool
unfolding is_label_text
is_label label = leb (length label) 63 && is_label_text label

-- The domain without one leading dot.
normalized : Text → Text
normalized [] = []
normalized (c ∷ t) = if c == b'.' then t else c ∷ t

-- White space, `;` and line ends need no test of their own: no label has them.
unfoldable pub is_cookie_domain : Text → Bool
unfolding split_labels is_label normalized
is_cookie_domain value =
    (ltb 0 (length value) && leb (length value) 253)
    && every is_label (split_labels [] (normalized value))

is_domain : Option Text → Bool
unfolding is_cookie_domain
is_domain none = true
is_domain (some domain) = is_cookie_domain domain

is_none_site : SameSite → Bool
is_none_site SameSite.none_site = true
is_none_site _ = false

is_absent : Option Text → Bool
is_absent none = true
is_absent (some domain) = false

starts_with : Text → Text → Bool
starts_with [] t = true
starts_with (p ∷ ps) [] = false
starts_with (p ∷ ps) (c ∷ t) = p == c && starts_with ps t

-- What `createCookieTokenCarrier` asks of its options, where it does not throw.
unfoldable pub are_cookie_options : CookieOptions → Bool
unfolding is_cookie_name is_domain is_none_site is_absent starts_with text_discrete is_cookie_path
are_cookie_options o =
    is_cookie_name o.name
    && (is_cookie_path o.path
        && (is_domain o.domain
            && (not (is_none_site o.same_site && not o.secure)
                && (not (starts_with (codes "__Secure-") o.name && not o.secure)
                    && not (
                        starts_with (codes "__Host-") o.name
                        && (not o.secure
                            || (not (test (text_discrete o.path (codes "/")))
                                || not (is_absent o.domain))))))))

-- [\x21\x23-\x2B\x2D-\x3A\x3C-\x5B\x5D-\x7E]
unfoldable pub is_cookie_octet : ℕ → Bool
is_cookie_octet c =
    c == 0x21
    || ((leb 0x23 c && leb c 0x2B)
        || ((leb 0x2D c && leb c 0x3A)
            || ((leb 0x3C c && leb c 0x5B) || (leb 0x5D c && leb c 0x7E))))

pub data CarrierRead : Type 0 where
  not_found : CarrierRead
  found : RawSecret → CarrierRead

abbrev raw_secret : Text → RawSecret
raw_secret value = record { revealed = some value }

unfoldable pub is_cookie_value : Text → Bool
unfolding is_cookie_octet
is_cookie_value value = leb (length value) 8192 && every is_cookie_octet value

-- `read` on the cookie of the carrier's name; a cookie that is there may be undefined.
unfoldable pub read_value : Option (Option Text) → Result Reason CarrierRead
unfolding is_cookie_value
read_value none = ok CarrierRead.not_found
read_value (some none) = ok CarrierRead.not_found
read_value (some (some [])) = ok CarrierRead.not_found
read_value (some (some (c ∷ t))) =
    if is_cookie_value (c ∷ t)
    then ok (CarrierRead.found (raw_secret (c ∷ t)))
    else err Reason.validation_failed

unfoldable pub read_cookies :
    CookieOptions → Option (Map Text (Option Text)) → Result Reason CarrierRead
unfolding read_value
read_cookies o none = ok CarrierRead.not_found
read_cookies o (some cookies) = read_value (get text_discrete o.name cookies)

pub record SetCookie : Type 0 where
  pub name : Text
  pub value : RawSecret
  pub http_only : Bool
  pub secure : Bool
  pub same_site : SameSite
  pub path : Text
  pub domain : Option Text
  pub expires : Option Time

pub record ClearCookie : Type 0 where
  pub name : Text
  pub path : Text
  pub domain : Option Text
  pub secure : Bool

pub data HttpMutation : Type 0 where
  set_cookie : SetCookie → HttpMutation
  clear_cookie : ClearCookie → HttpMutation

-- `readRawToken`, on what the secret reveals.
unfoldable pub read_raw_token : Option Text → Option Text
unfolding is_cookie_octet
read_raw_token none = none
read_raw_token (some token) =
    if ltb 0 (length token) && (leb (length token) 4096 && every is_cookie_octet token)
    then some token
    else none

-- The expiry; `none` is an invalid date.
unfoldable pub expiry : Option Date → Option (Option Time)
expiry none = some none
expiry (some (at t)) = some (some t)
expiry (some invalid) = none

unfoldable pub set_instructions :
    CookieOptions → Option Text → Option (Option Time) → Result Reason (List HttpMutation)
set_instructions o (some token) (some expires) = ok (
    HttpMutation.set_cookie (record {
      name = o.name;
      value = raw_secret token;
      http_only = o.http_only;
      secure = o.secure;
      same_site = o.same_site;
      path = o.path;
      domain = o.domain;
      expires = expires;
    })
    ∷ [])
set_instructions o _ _ = err Reason.validation_failed

unfoldable pub create_set_instructions :
    CookieOptions → RawSecret → Option Date → Result Reason (List HttpMutation)
unfolding read_raw_token expiry set_instructions
create_set_instructions o token expires_at =
    set_instructions o (read_raw_token token.revealed) (expiry expires_at)

unfoldable pub create_clear_instructions : CookieOptions → Result Reason (List HttpMutation)
create_clear_instructions o = ok (
    HttpMutation.clear_cookie
      (record { name = o.name; path = o.path; domain = o.domain; secure = o.secure })
    ∷ [])
