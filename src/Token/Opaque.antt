-- ===== src/Token/Opaque.antt =====
-- packages/token-opaque/src: the format of opaque tokens, over a cryptography provider, which is a
-- parameter: it draws a text and hashes one, on a world of its own.
pub mod Laws
use authmodules.Prelude.{
  ℕ, ◌+◌, ◌*◌, ◌/◌, Bool, true, false, ◌&&◌, ◌||◌, not, Option, none, some, [], ◌∷◌, Text,
  text_discrete, test, leb, ltb, ◌==◌, if◌then◌else◌, length, every,
}
use authmodules.Contracts.Values.{Date, at, invalid, ProtectedValue, is_control}
use authmodules.Contracts.Errors.{Reason, Result, ok, err}
use authmodules.Contracts.Auth.{RawSecret, TokenIdentity, TokenIssueResult}
use authmodules.Core.Ports.{Answer, Reading}

-- `bytes` and `scheme`
pub record OpaqueOptions : Type 0 where
  pub bytes : ℕ
  pub scheme : Text

is_scheme_start : ℕ → Bool
is_scheme_start c = (leb b'a' c && leb c b'z') || (leb b'0' c && leb c b'9')

is_digit : ℕ → Bool
is_digit c = leb b'0' c && leb c b'9'

-- \.v[1-9][0-9]*
is_version : Text → Bool
unfolding is_digit
is_version (a ∷ b ∷ c ∷ t) =
    a == b'.' && (b == b'v' && ((leb b'1' c && leb c b'9') && every is_digit t))
is_version _ = false

-- [a-z0-9.-]*\.v[1-9][0-9]*
is_scheme_rest : Text → Bool
unfolding is_version is_scheme_start
is_scheme_rest [] = false
is_scheme_rest (c ∷ t) =
    is_version (c ∷ t) || ((is_scheme_start c || (c == b'.' || c == b'-')) && is_scheme_rest t)

is_scheme : Text → Bool
unfolding is_scheme_start is_scheme_rest
is_scheme [] = false
is_scheme (c ∷ t) = is_scheme_start c && is_scheme_rest t

-- What `createOpaqueTokenFormat` asks of its options, where it does not throw.
unfoldable pub are_opaque_options : OpaqueOptions → Bool
unfolding is_scheme
are_opaque_options o =
    (leb 16 o.bytes && leb o.bytes 128) && (leb (length o.scheme) 256 && is_scheme o.scheme)

-- The provider: `randomSecretString` of that many bytes, and `hash` of a text under a scheme.
pub record Crypto (W : Type 0) : Type 0 where
  pub random_secret_string : ℕ → W → Reading RawSecret × W
  pub hash : RawSecret → Text → W → Answer ProtectedValue × W

pub record IssueInput : Type 0 where
  pub tenant_id : Text
  pub account_id : Text
  pub session_id : Text
  pub issued_at : Date
  pub expires_at : Date

pub record IdentifyInput : Type 0 where
  pub raw : RawSecret
  pub expected_tenant_id : Text
  pub now : Date

abbrev non_empty_string : Text → Bool
non_empty_string t = ltb 0 (length t)

-- Both dates are valid, and the second is later.
ends_later : Date → Date → Bool
ends_later (at issued) (at expires) = ltb issued expires
ends_later _ _ = false

unfoldable pub valid_issue_input : IssueInput → Bool
unfolding ends_later
valid_issue_input i =
    non_empty_string i.tenant_id
    && (non_empty_string i.account_id
        && (non_empty_string i.session_id && ends_later i.issued_at i.expires_at))

unfoldable pub is_base64url : ℕ → Bool
is_base64url c =
    (leb b'A' c && leb c b'Z')
    || ((leb b'a' c && leb c b'z') || ((leb b'0' c && leb c b'9') || (c == b'_' || c == b'-')))

-- The length is Math.ceil(bytes * 4 / 3), and so at least one.
unfoldable pub is_raw_token : ℕ → Text → Bool
unfolding is_base64url
is_raw_token bytes value =
    length value == (bytes * 4 + 2) / 3 && (ltb 0 (length value) && every is_base64url value)

unfoldable pub snapshot_revealed : ℕ → Option Text → Option RawSecret
unfolding is_raw_token
snapshot_revealed bytes none = none
snapshot_revealed bytes (some value) =
    if is_raw_token bytes value then some (record { revealed = some value }) else none

unfoldable pub snapshot_raw_token : ℕ → RawSecret → Option RawSecret
unfolding snapshot_revealed
snapshot_raw_token bytes raw = snapshot_revealed bytes raw.revealed

is_key : Option Text → Bool
is_key none = true
is_key (some key_id) = non_empty_string key_id

is_token_hash : Text → ProtectedValue → Bool
unfolding is_key is_control
is_token_hash scheme p =
    test (text_discrete p.scheme scheme)
    && (is_key p.key_id
        && (ltb 0 (length p.verifier)
            && (leb (length p.verifier) 4096 && every (λ c. not (is_control c)) p.verifier)))

unfoldable pub snapshot_token_hash : Text → ProtectedValue → Option ProtectedValue
unfolding is_token_hash
snapshot_token_hash scheme p = if is_token_hash scheme p then some p else none

-- The hash, where the provider gives one that has a snapshot.
unfoldable pub hashed : Text → Answer ProtectedValue → Result Reason ProtectedValue
hashed scheme (Answer.answered p) = elim (snapshot_token_hash scheme p) [
  | none ↦ err Reason.token_invalid
  | some token_hash ↦ ok token_hash
]
hashed scheme Answer.misshapen = err Reason.token_invalid
hashed scheme _ = err Reason.crypto_failed

abbrev with_hash :
    {A : Type 0} → (ProtectedValue → A) → Result Reason ProtectedValue → Result Reason A
with_hash f (ok p) = ok (f p)
with_hash f (err reason) = err reason

unfoldable pub is_date : Date → Bool
is_date (at t) = true
is_date invalid = false

module _ {W : Type 0} where
  -- `issue` from the token that was drawn.
  unfoldable pub issue_raw :
      OpaqueOptions → Crypto W → Option RawSecret → W → Result Reason TokenIssueResult × W
  unfolding hashed
  issue_raw o crypto none w = (err Reason.token_invalid, w)
  issue_raw o crypto (some raw) w =
      let (answer, w') = crypto.hash raw o.scheme w in
      (with_hash (λ p. record { raw = raw; token_hash = p }) (hashed o.scheme answer), w')

  unfoldable pub issue_drawn :
      OpaqueOptions → Crypto W → Reading RawSecret → W → Result Reason TokenIssueResult × W
  unfolding issue_raw snapshot_raw_token
  issue_drawn o crypto Reading.threw w = (err Reason.crypto_failed, w)
  issue_drawn o crypto Reading.misshapen w = (err Reason.token_invalid, w)
  issue_drawn o crypto (Reading.read raw) w = issue_raw o crypto (snapshot_raw_token o.bytes raw) w

  unfoldable pub issue :
      OpaqueOptions → Crypto W → IssueInput → W → Result Reason TokenIssueResult × W
  unfolding issue_drawn
  issue o crypto input w =
      if valid_issue_input input
      then (let (drawn, w') = crypto.random_secret_string o.bytes w in
          issue_drawn o crypto drawn w')
      else (err Reason.token_invalid, w)

  -- `identify` from the snapshot of the raw token.
  unfoldable pub identify_raw :
      OpaqueOptions → Crypto W → Option RawSecret → W → Result Reason (Option TokenIdentity) × W
  unfolding hashed
  identify_raw o crypto none w = (ok none, w)
  identify_raw o crypto (some raw) w =
      let (answer, w') = crypto.hash raw o.scheme w in
      (with_hash (λ p. some (TokenIdentity.by_token_hash p none)) (hashed o.scheme answer), w')

  unfoldable pub identify :
      OpaqueOptions → Crypto W → IdentifyInput → W → Result Reason (Option TokenIdentity) × W
  unfolding identify_raw snapshot_raw_token
  identify o crypto input w =
      if non_empty_string input.expected_tenant_id && is_date input.now
      then identify_raw o crypto (snapshot_raw_token o.bytes input.raw) w
      else (ok none, w)
