-- ===== src/Core/Validation.antt =====
-- What the core asks of its input and of the answers of its ports:
-- packages/core/src/validation/input.ts, token.ts, method.ts and store.ts. The tests on the shape
-- of an object hold by the types.
use authmodules.Prelude.{
  ℕ, Bool, true, false, ◌&&◌, ◌||◌, Option, none, some, [], ◌∷◌, Text, text_discrete, test, leb,
  ltb, ◌==◌, length, if◌then◌else◌,
}
use authmodules.Contracts.Values.{Time, is_safe_text, ProtectedValue, safe_option}
use authmodules.Contracts.Json.{Json, obj, json_fields, fresh_state, is_secret_descriptor}
use authmodules.Contracts.Records.{AccountRecord, IdentityRecord, SessionRecord, Actor}
use authmodules.Contracts.Auth.{AuthContext, RawSecret, TokenIdentity, TokenIssueResult}

-- `left === right` on texts
abbrev pub same : Text → Text → Bool
same a b = test (text_discrete a b)

abbrev pub is_non_empty_string : Text → Bool
is_non_empty_string value = is_safe_text value 512 true

-- `value === undefined || isNonEmptyString(value)`
abbrev pub is_optional_string : Option Text → Bool
is_optional_string value = safe_option value 512 true

is_some {ℓ} : {A : Type ℓ} → Option A → Bool
is_some none = false
is_some (some a) = true

-- The object itself counts as no node, and its entries stand at depth 0.
unfoldable pub is_public_data : Option Json → Bool
unfolding is_some
is_public_data none = true
is_public_data (some (obj fields)) = is_some (json_fields is_secret_descriptor fields 0 fresh_state)
is_public_data _ = false

is_actor : Option Actor → Bool
is_actor none = true
is_actor (some Actor.anonymous) = true
is_actor (some (Actor.account account_id)) = is_non_empty_string account_id
is_actor (some (Actor.system name)) = is_non_empty_string name

unfoldable pub is_auth_context : AuthContext → Bool
unfolding is_actor is_public_data
is_auth_context c =
    is_non_empty_string c.tenant_id
    && (is_optional_string c.request_id
        && (safe_option c.locale 128 true
            && (safe_option c.ip 512 false
                && (safe_option c.user_agent 2048 false
                    && (is_actor c.actor
                        && (is_public_data c.policy_input && is_public_data c.metadata))))))

-- [a-z][a-z0-9-]*, and whether a dot has been seen, along the text: the states of the expression
-- /^[a-z][a-z0-9-]*(?:\.[a-z][a-z0-9-]*)+$/.
is_lower : ℕ → Bool
is_lower c = leb b'a' c && leb c b'z'

is_name_part : ℕ → Bool
unfolding is_lower
is_name_part c = is_lower c || ((leb b'0' c && leb c b'9') || c == b'-')

-- Inside a part that has begun; `dotted` says whether it is not the first.
mutual
  in_part : Bool → Text → Bool
  in_part dotted [] = dotted
  in_part dotted (c ∷ t) = elim (c == b'.') [
    | true ↦ part_start t
    | false ↦ elim (is_name_part c) [ true ↦ in_part dotted t | false ↦ false ]
  ]

  part_start : Text → Bool
  part_start [] = false
  part_start (c ∷ t) = elim (is_lower c) [ true ↦ in_part true t | false ↦ false ]

first_part : Text → Bool
unfolding is_lower in_part
first_part [] = false
first_part (c ∷ t) = is_lower c && in_part false t

unfoldable pub is_stable_method_id : Text → Bool
unfolding first_part is_name_part
is_stable_method_id method_id = leb (length method_id) 128 && first_part method_id

unfoldable pub is_protected_value : ProtectedValue → Bool
is_protected_value p = is_non_empty_string p.scheme && is_optional_string p.key_id

unfoldable pub snapshot_protected_value : ProtectedValue → Option ProtectedValue
unfolding is_protected_value
snapshot_protected_value p =
    if is_protected_value p && (ltb 0 (length p.verifier) && leb (length p.verifier) 1_000_000)
    then some p
    else none

snapshot_text : Option Text → Option RawSecret
snapshot_text none = none
snapshot_text (some revealed) =
    if ltb 0 (length revealed) && leb (length revealed) 65_536
    then some (record { revealed = some revealed })
    else none

unfoldable pub snapshot_raw_secret : RawSecret → Option RawSecret
unfolding snapshot_text
snapshot_raw_secret raw = snapshot_text raw.revealed

unfoldable pub is_token_identity : TokenIdentity → Bool
unfolding is_protected_value is_public_data
is_token_identity (TokenIdentity.by_token_hash token_hash claims) =
    is_protected_value token_hash && is_public_data claims
is_token_identity (TokenIdentity.by_session tenant_id session_id token_hash claims) =
    is_non_empty_string tenant_id
    && (is_non_empty_string session_id && (is_protected_value token_hash && is_public_data claims))

-- `isTokenIdentifyResult`: `null` or an identity.
unfoldable pub is_token_identify_result : Option TokenIdentity → Bool
unfolding is_token_identity
is_token_identify_result none = true
is_token_identify_result (some identity) = is_token_identity identity

unfoldable pub is_token_issue_result : TokenIssueResult → Bool
unfolding is_protected_value
is_token_issue_result r = is_protected_value r.token_hash

abbrev is_date_order : Time → Time → Bool
is_date_order created_at updated_at = leb created_at updated_at

unfoldable pub is_account_record : AccountRecord → Bool
unfolding is_public_data
is_account_record r =
    is_non_empty_string r.tenant_id
    && (is_non_empty_string r.account_id
        && (is_date_order r.created_at r.updated_at && is_public_data r.public_data))

unfoldable pub is_identity_record : IdentityRecord → Bool
unfolding is_stable_method_id
is_identity_record r =
    is_non_empty_string r.tenant_id
    && (is_non_empty_string r.identity_id
        && (is_non_empty_string r.account_id
            && (is_stable_method_id r.method_id
                && (is_non_empty_string r.method_kind
                    && (is_non_empty_string r.subject
                        && (is_non_empty_string r.subject_kind
                            && (safe_option r.display 512 false
                                && is_date_order r.created_at r.updated_at)))))))

unfoldable pub is_session_record : SessionRecord → Bool
unfolding is_protected_value
is_session_record r =
    is_non_empty_string r.tenant_id
    && (is_non_empty_string r.session_id
        && (is_non_empty_string r.account_id
            && (is_protected_value r.token_hash
                && (leb r.issued_at r.expires_at && is_date_order r.created_at r.updated_at))))
