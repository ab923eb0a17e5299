-- ===== src/Contracts/Json.antt =====
-- JSON data as the validators walk it: `isJsonValue` and `consumeText` of
-- packages/testkit/src/stores/record-validation.ts and outbox-validation.ts.
pub mod Budget
pub mod Print
use authmodules.Prelude.{
  ℕ, ◌+◌, Bool, true, false, ◌&&◌, ◌||◌, Option, none, some, List, [], ◌∷◌, Text, codes,
  text_discrete, test, leb, ltb, if◌then◌else◌, length, includes,
}
use authmodules.Contracts.Values.{is_safe_text}

-- `number` says whether the number is finite and how it prints; `opaque` is any value that is not
-- JSON (a function, a symbol, a `Date`, `undefined`). Values are trees: a cycle is not modelled.
mutual
  pub data Json : Type 0 where
    null : Json
    boolean : Bool → Json
    number : Bool → Text → Json
    text : Text → Json
    arr : Items → Json
    obj : Fields → Json
    opaque : Json

  pub data Items : Type 0 where
    nil : Items
    cons : Json → Items → Items

  pub data Fields : Type 0 where
    end : Fields
    field : Text → Json → Fields → Fields

-- `JsonState`: what the walk has spent.
pub record JsonState : Type 0 where
  pub nodes : ℕ
  pub characters : ℕ

abbrev pub fresh_state : JsonState
fresh_state = record { nodes = 0; characters = 0 }

abbrev pub and_then : Option JsonState → (JsonState → Option JsonState) → Option JsonState
and_then none f = none
and_then (some s) f = f s

unfoldable pub consume_text : Text → ℕ → Bool → JsonState → Option JsonState
consume_text value max_length require_non_empty s =
    let characters = s.characters + length value in
    if is_safe_text value max_length require_non_empty && leb characters 1_000_000
    then some (record s { characters = characters })
    else none

abbrev secret_descriptor_types : List Text
secret_descriptor_types = codes "raw-secret" ∷ codes "protected-value" ∷ codes "sealed-secret" ∷ []

abbrev reveal_keys : List Text
reveal_keys =
    codes "reveal" ∷ codes "revealForPersistence" ∷ codes "revealCiphertextForPersistence" ∷ []

-- `'type' in value && secretDescriptorTypes.has(value.type)`
is_descriptor_type : Json → Bool
is_descriptor_type (text t) = includes text_discrete secret_descriptor_types t
is_descriptor_type _ = false

unfoldable pub is_secret_descriptor : Fields → Bool
unfolding is_descriptor_type text_discrete
is_secret_descriptor end = false
is_secret_descriptor (field key value rest) =
    (test (text_discrete key (codes "type")) && is_descriptor_type value)
    || is_secret_descriptor rest

-- `state.nodes += 1`, and the answer `false` past a thousand nodes.
unfoldable pub count_node : JsonState → Option JsonState
count_node s =
    let nodes = s.nodes + 1 in if ltb 1000 nodes then none else some (record s { nodes = nodes })

-- The two copies of `isJsonValue` differ in the objects that they refuse by their keys.
module _ (refuses : Fields → Bool) where
  -- `none` is the answer `false`; the state after it is never read.
  unfoldable mutual
    pub json_value : Json → ℕ → JsonState → Option JsonState
    json_value null depth s = count_node s
    json_value (boolean b) depth s = count_node s
    json_value (text t) depth s = and_then (count_node s) (consume_text t 65536 false)
    json_value (number finite printed) depth s =
        and_then (count_node s) (λ c. if finite then some c else none)
    json_value (arr items) depth s =
        and_then (count_node s) (λ c.
          let inside = json_items items (depth + 1) c in if leb 16 depth then none else inside)
    json_value (obj fields) depth s = and_then (count_node s) (λ c.
        let inside = json_fields fields (depth + 1) c in
        if leb 16 depth || refuses fields then none else inside)
    json_value opaque depth s = none

    pub json_items : Items → ℕ → JsonState → Option JsonState
    json_items nil depth s = some s
    json_items (cons value rest) depth s =
        and_then (json_value value depth s) (λ after. json_items rest depth after)

    pub json_fields : Fields → ℕ → JsonState → Option JsonState
    json_fields end depth s = some s
    json_fields (field key value rest) depth s =
        and_then (consume_text key 512 true s)
          (λ k. and_then (json_value value depth k) (λ after. json_fields rest depth after))

  unfoldable pub is_json_object_by : Json → Bool
  is_json_object_by (obj fields) =
      let answer : Option JsonState = json_value (obj fields) 0 fresh_state in
      elim answer [ none ↦ false | some _ ↦ true ]
  is_json_object_by _ = false

-- `isJsonObject` of record-validation.ts. What it asks of functions is no question of JSON data.
unfoldable pub is_json_object : Json → Bool
is_json_object = is_json_object_by is_secret_descriptor

unfoldable pub is_public_data : Option Json → Bool
is_public_data none = true
is_public_data (some value) = is_json_object value

-- `'reveal' in value || 'revealForPersistence' in value ||
-- 'revealCiphertextForPersistence' in value`
has_reveal : Fields → Bool
has_reveal end = false
has_reveal (field key value rest) = includes text_discrete reveal_keys key || has_reveal rest

-- The objects that `isJsonValue` of packages/testkit/src/stores/outbox-validation.ts refuses.
unfoldable pub is_refused_in_outbox : Fields → Bool
unfolding has_reveal text_discrete
is_refused_in_outbox fields = is_secret_descriptor fields || has_reveal fields

unfoldable pub is_outbox_data : Option Json → Bool
is_outbox_data none = true
is_outbox_data (some value) = is_json_object_by is_refused_in_outbox value
