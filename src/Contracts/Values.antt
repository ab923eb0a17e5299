-- ===== src/Contracts/Values.antt =====
-- Dates, safe text and stored secrets: primitives.d.ts and security.d.ts of packages/contracts/src,
-- with the tests of packages/testkit/src/stores/record-validation.ts on them.
use authmodules.Prelude.{
  ℕ, Bool, true, not, ◌&&◌, ◌||◌, Option, none, some, Text, ltb, leb, ◌==◌, if◌then◌else◌, every,
  length,
}

-- Milliseconds since the earliest instant that a JavaScript `Date` can hold, so that every valid
-- date is a natural number of at most `max_time`.
abbrev pub Time : Type 0
Time = ℕ

abbrev pub max_time : Time
max_time = 17_280_000_000_000_000

-- A `Date` object: NaN inside is `invalid`.
pub data Date : Type 0 where
  invalid : Date
  at : Time → Date

-- `new Date(ms)`
unfoldable pub make_date : ℕ → Date
make_date ms = if leb ms max_time then at ms else invalid

unfoldable pub snapshot_date : Date → Option Time
snapshot_date invalid = none
snapshot_date (at t) = some t

abbrev pub max_safe_integer : ℕ
max_safe_integer = 9_007_199_254_740_991

-- /[\u0000-\u001f\u007f]/ on one code unit
unfoldable pub is_control : ℕ → Bool
is_control c = leb c 31 || c == 127

unfoldable pub is_safe_text : Text → ℕ → Bool → Bool
unfolding is_control
is_safe_text value max_length require_non_empty =
    (not require_non_empty || ltb 0 (length value))
    && (leb (length value) max_length && every (λ c. not (is_control c)) value)

abbrev pub is_identifier : Text → Bool
is_identifier value = is_safe_text value 512 true

abbrev pub safe_option : Option Text → ℕ → Bool → Bool
safe_option none max_length non_empty = true
safe_option (some value) max_length non_empty = is_safe_text value max_length non_empty

-- A runtime protected value: `verifier` is what `revealForPersistence` returns.
pub record ProtectedValue : Type 0 where
  pub scheme : Text
  pub key_id : Option Text
  pub created_at : Option Time
  pub verifier : Text

-- A runtime sealed secret: `ciphertext` is what `revealCiphertextForPersistence` returns.
pub record SealedSecret : Type 0 where
  pub algorithm : Text
  pub key_id : Text
  pub ciphertext : Text
  pub expires_at : Option Time

-- The test on the revealed text at which `cloneRecord` throws.
unfoldable pub clones : Text → Bool
clones revealed = ltb 0 (length revealed) && leb (length revealed) 5_000_000

unfoldable pub is_runtime_protected_value : ProtectedValue → Bool
is_runtime_protected_value p = is_safe_text p.scheme 256 true && safe_option p.key_id 512 (not true)

unfoldable pub is_runtime_sealed_value : SealedSecret → Bool
is_runtime_sealed_value s = is_safe_text s.algorithm 256 true && is_safe_text s.key_id 512 true
