-- ===== src/Tests/Core.antt =====
-- The theorems on failures and JSON.
use authmodules.Prelude.{◌≤◌, ◌≡◌, refl, true, none, codes}
use authmodules.Contracts.Json.Budget.{is_json_object-bounds, characters_of, nodes_of}
use authmodules.Contracts.Json.{is_json_object, Fields, Json}
use authmodules.Contracts.Errors.{Reason}
use authmodules.Core.Errors.{auth_err, auth_err-is_safe_reason, is_safe_reason}

auth_err-is_safe_reason_example :
    is_safe_reason (auth_err none (Reason.extension (codes "MINE")) none none).internal_reason
    ≡ true
auth_err-is_safe_reason_example =
    auth_err-is_safe_reason none (Reason.extension (codes "MINE")) none none

abbrev an_object : Json
an_object = Json.obj (Fields.field (codes "k") (Json.text (codes "value")) Fields.end)

object_accepted : is_json_object an_object ≡ true
unfolding is_json_object authmodules.Contracts.Json.json_value
    authmodules.Contracts.Json.is_json_object_by authmodules.Contracts.Json.count_node
    authmodules.Contracts.Json.is_secret_descriptor authmodules.Contracts.Json.consume_text
    authmodules.Contracts.Values.is_safe_text
object_accepted = refl

is_json_object-bounds_example : (nodes_of an_object ≤ 1000) × (characters_of an_object ≤ 1_000_000)
is_json_object-bounds_example = is_json_object-bounds an_object object_accepted
