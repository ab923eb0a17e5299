-- ===== src/Contracts/Json/Budget.antt =====
-- The JSON values that the walk accepts, measured on their own: `isJsonValue` of
-- packages/testkit/src/stores/record-validation.ts.
use authmodules.Contracts.Json.{
  is_json_object_by, fresh_state, is_secret_descriptor, and_then, Json, Items, Fields, JsonState,
  json_value, json_items, json_fields, is_json_object, count_node, consume_text,
}
use authmodules.Prelude.{
  ◌||◌, some-eq-some, leb, false, if◌then◌else◌, refl, none-ne-some, Bool, Text, ℕ, suc, ◌+◌, ◌≤◌,
  ◌≡◌, true, none, some, Option, arith, length,
}
use mathlib.Core.Path.{subst}

-- The values inside a value, itself included, and the characters of its texts and keys.
unfoldable mutual
  pub nodes_of : Json → ℕ
  nodes_of (Json.arr items) = suc (nodes_of_items items)
  nodes_of (Json.obj fields) = suc (nodes_of_fields fields)
  nodes_of _ = 1

  pub nodes_of_items : Items → ℕ
  nodes_of_items Items.nil = 0
  nodes_of_items (Items.cons value rest) = nodes_of value + nodes_of_items rest

  pub nodes_of_fields : Fields → ℕ
  nodes_of_fields Fields.end = 0
  nodes_of_fields (Fields.field key value rest) = nodes_of value + nodes_of_fields rest

unfoldable mutual
  pub characters_of : Json → ℕ
  characters_of (Json.text t) = length t
  characters_of (Json.arr items) = characters_of_items items
  characters_of (Json.obj fields) = characters_of_fields fields
  characters_of _ = 0

  pub characters_of_items : Items → ℕ
  characters_of_items Items.nil = 0
  characters_of_items (Items.cons value rest) = characters_of value + characters_of_items rest

  pub characters_of_fields : Fields → ℕ
  characters_of_fields Fields.end = 0
  characters_of_fields (Fields.field key value rest) =
      length key + (characters_of value + characters_of_fields rest)

IsWithin : JsonState → Type 0
IsWithin s = (s.nodes ≤ 1000) × (s.characters ≤ 1_000_000)

-- The state after a walk has counted that many nodes and characters, and is within the limits.
Spent : JsonState → JsonState → ℕ → ℕ → Type 0
unfolding IsWithin
Spent s t n c = (t.nodes ≡ s.nodes + n) × (t.characters ≡ s.characters + c) × IsWithin t

Spent-trans :
    (s m t : JsonState) (a b c d : ℕ) → Spent s m a b → Spent m t c d → Spent s t (a + c) (b + d)
unfolding Spent
Spent-trans s m t a b c d (x, y, _) (z, u, w) = (omega arith, omega arith, w)

count_node-Spent : (s t : JsonState) → IsWithin s → count_node s ≡ some t → Spent s t 1 0
unfolding Spent IsWithin count_node
count_node-Spent s t w h = ground arith

consume_text-Spent :
    (v : Text) (n : ℕ) (b : Bool) (s t : JsonState)
    → IsWithin s
    → consume_text v n b s ≡ some t
    → Spent s t 0 (length v)
unfolding Spent IsWithin consume_text
consume_text-Spent v n b s t w h = ground arith

Spent-IsWithin : (s t : JsonState) (n c : ℕ) → Spent s t n c → IsWithin t
unfolding Spent
Spent-IsWithin s t n c (_, _, w) = w

Spent-zero : (s : JsonState) → IsWithin s → Spent s s 0 0
unfolding Spent
Spent-zero s w = (omega arith, omega arith, w)

and_then-some :
    (o : Option JsonState) (f : JsonState → Option JsonState) (t : JsonState)
    → and_then o f ≡ some t
    → (m : JsonState) × (o ≡ some m) × (f m ≡ some t)
and_then-some none f t h = absurd (none-ne-some h)
and_then-some (some m) f t h = (m, refl, h)

guarded :
    (b : Bool) (o : Option JsonState) (t : JsonState)
    → (if b then none else o) ≡ some t
    → o ≡ some t
guarded b o t h = ground arith

Spent-node : (s m t : JsonState) (n c : ℕ) → Spent s m 1 0 → Spent m t n c → Spent s t (suc n) c
unfolding Spent
Spent-node s m t n c (x, y, _) (z, u, w) = (omega arith, omega arith, w)

Spent-key : (s k t : JsonState) (l n c : ℕ) → Spent s k 0 l → Spent k t n c → Spent s t n (l + c)
unfolding Spent
Spent-key s k t l n c (x, y, _) (z, u, w) = (omega arith, omega arith, w)

number_state :
    (finite : Bool) (m : JsonState) (o : Option JsonState) (t : JsonState)
    → o ≡ some m
    → (if finite then some m else none) ≡ some t
    → o ≡ some t
number_state finite m o t e h = ground arith

module _ (refuses : Fields → Bool) where
  mutual
    unfolding json_value json_items json_fields nodes_of nodes_of_items nodes_of_fields
        characters_of characters_of_items characters_of_fields

    value-Spent :
        (v : Json) (d : ℕ) (s t : JsonState)
        → IsWithin s
        → json_value refuses v d s ≡ some t
        → Spent s t (nodes_of v) (characters_of v)
    value-Spent Json.null d s t w h = count_node-Spent s t w h
    value-Spent (Json.boolean b) d s t w h = count_node-Spent s t w h
    value-Spent (Json.text v) d s t w h =
        let (m, first, rest) = and_then-some (count_node s) (consume_text v 65536 false) t h in
        let counted = count_node-Spent s m w first in
        Spent-node s m t 0 (length v) counted
          (consume_text-Spent v 65536 false m t (Spent-IsWithin s m 1 0 counted) rest)
    value-Spent (Json.number finite printed) d s t w h =
        let (m, first, rest) =
          and_then-some (count_node s) (λ c. if finite then some c else none) t h in
        count_node-Spent s t w (number_state finite m (count_node s) t first rest)
    value-Spent (Json.arr items) d s t w h =
        let (m, first, rest) =
          and_then-some (count_node s)
            (λ c. if leb 16 d then none else json_items refuses items (d + 1) c) t h in
        let counted = count_node-Spent s m w first in
        Spent-node s m t (nodes_of_items items) (characters_of_items items) counted (
          items-Spent items (d + 1) m t (Spent-IsWithin s m 1 0 counted)
            (guarded (leb 16 d) _ t rest))
    value-Spent (Json.obj fields) d s t w h =
        let (m, first, rest) =
          and_then-some (count_node s)
            (λ c. if leb 16 d || refuses fields then none else json_fields refuses fields (d + 1) c)
            t h in
        let counted = count_node-Spent s m w first in
        Spent-node s m t (nodes_of_fields fields) (characters_of_fields fields) counted (
          fields-Spent fields (d + 1) m t (Spent-IsWithin s m 1 0 counted)
            (guarded (leb 16 d || refuses fields) _ t rest))
    value-Spent Json.opaque d s t w h = absurd (none-ne-some h)

    items-Spent :
        (v : Items) (d : ℕ) (s t : JsonState)
        → IsWithin s
        → json_items refuses v d s ≡ some t
        → Spent s t (nodes_of_items v) (characters_of_items v)
    items-Spent Items.nil d s t w h = subst (λ x. Spent s x 0 0) (some-eq-some h) (Spent-zero s w)
    items-Spent (Items.cons value more) d s t w h =
        let (m, first, rest) =
          and_then-some (json_value refuses value d s) (λ after. json_items refuses more d after) t
            h in
        let spent = value-Spent value d s m w first in
        Spent-trans s m t _ _ _ _ spent (items-Spent more d m t (Spent-IsWithin s m _ _ spent) rest)

    fields-Spent :
        (v : Fields) (d : ℕ) (s t : JsonState)
        → IsWithin s
        → json_fields refuses v d s ≡ some t
        → Spent s t (nodes_of_fields v) (characters_of_fields v)
    fields-Spent Fields.end d s t w h = subst (λ x. Spent s x 0 0) (some-eq-some h) (Spent-zero s w)
    fields-Spent (Fields.field key value more) d s t w h =
        let (k, first, rest) =
          and_then-some (consume_text key 512 true s)
            (λ k.
              and_then (json_value refuses value d k) (λ after. json_fields refuses more d after))
            t h in
        let (m, second, last) =
          and_then-some (json_value refuses value d k) (λ after. json_fields refuses more d after) t
            rest in
        let keyed = consume_text-Spent key 512 true s k w first in
        let spent = value-Spent value d k m (Spent-IsWithin s k 0 (length key) keyed) second in
        Spent-key s k t (length key) _ _ keyed (
          Spent-trans k m t _ _ _ _ spent
            (fields-Spent more d m t (Spent-IsWithin k m _ _ spent) last))

accepted :
    (o : Option JsonState)
    → (elim o [ none ↦ false | some _ ↦ true ]) ≡ true
    → (t : JsonState) × (o ≡ some t)
accepted none h = absurd (ground arith)
accepted (some t) h = (t, refl)

is_json_object-some :
    (v : Json)
    → is_json_object v ≡ true
    → (t : JsonState) × (json_value is_secret_descriptor v 0 fresh_state ≡ some t)
unfolding is_json_object is_json_object_by
is_json_object-some (Json.obj fields) h =
    accepted (json_value is_secret_descriptor (Json.obj fields) 0 fresh_state) h
is_json_object-some _ h = absurd (ground arith)

-- A JSON object that `isJsonObject` accepts has at most a thousand values, itself included, and a
-- million characters in its texts and keys.
pub is_json_object-bounds :
    (v : Json) → is_json_object v ≡ true → (nodes_of v ≤ 1000) × (characters_of v ≤ 1_000_000)
unfolding Spent IsWithin
is_json_object-bounds v h =
    let (t, e) = is_json_object-some v h in
    let (n, c, (few, short)) =
      value-Spent is_secret_descriptor v 0 fresh_state t (omega arith, omega arith) e in
    (omega arith, omega arith)
