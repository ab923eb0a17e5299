-- ===== src/Contracts/Json/Print.antt =====
-- `JSON.stringify` on texts, lists of texts and JSON data, as the program uses it.
use authmodules.Prelude.{
  ℕ, ◌+◌, ◌/◌, ◌%◌, Bool, true, false, ◌&&◌, ◌||◌, List, [], ◌∷◌, ◌++◌, Text, codes, leb, ltb, ◌==◌,
  if◌then◌else◌,
}
use authmodules.Contracts.Json.{
  Json, null, boolean, number, text, arr, obj, opaque, Items, nil, cons, Fields, end, field,
}

hex : ℕ → ℕ
hex d = if ltb d 10 then 48 + d else 87 + d

-- \uXXXX
unicode_escape : ℕ → Text
unfolding hex
unicode_escape c =
    92 ∷ 117 ∷ hex (c / 4096) ∷ hex (c / 256 % 16) ∷ hex (c / 16 % 16) ∷ hex (c % 16) ∷ []

is_high : ℕ → Bool
is_high c = leb 0xd800 c && leb c 0xdbff

is_low : ℕ → Bool
is_low c = leb 0xdc00 c && leb c 0xdfff

starts_low : Text → Bool
unfolding is_low
starts_low [] = false
starts_low (c ∷ t) = is_low c

-- One code unit that is no part of a surrogate pair.
escape_unit : ℕ → Text
unfolding unicode_escape is_high is_low
escape_unit c =
    if c == 34
    then 92 ∷ 34 ∷ []
    else if c == 92
    then 92 ∷ 92 ∷ []
    else if c == 8
    then 92 ∷ 98 ∷ []
    else if c == 12
    then 92 ∷ 102 ∷ []
    else if c == 10
    then 92 ∷ 110 ∷ []
    else if c == 13
    then 92 ∷ 114 ∷ []
    else if c == 9
    then 92 ∷ 116 ∷ []
    else if ltb c 32 || (is_high c || is_low c)
    then unicode_escape c
    else c ∷ []

-- `paired` says that the first unit ends a surrogate pair.
escape : Bool → Text → Text
unfolding escape_unit starts_low is_high
escape paired [] = []
escape true (c ∷ t) = c ∷ escape false t
escape false (c ∷ t) =
    let opens = is_high c && starts_low t in
    let rest = escape opens t in if opens then c ∷ rest else escape_unit c ++ rest

unfoldable pub quote : Text → Text
unfolding escape
quote t = 34 ∷ (escape false t ++ (34 ∷ []))

rest_texts : List Text → Text
unfolding quote
rest_texts [] = 93 ∷ []
rest_texts (t ∷ ts) = 44 ∷ (quote t ++ rest_texts ts)

-- `JSON.stringify` of a list of texts.
unfoldable pub stringify_texts : List Text → Text
unfolding rest_texts
stringify_texts [] = 91 ∷ 93 ∷ []
stringify_texts (t ∷ ts) = 91 ∷ (quote t ++ rest_texts ts)

-- `opaque` stands in no value that the validators accept.
unfoldable mutual
  pub stringify : Json → Text
  stringify null = codes "null"
  stringify (boolean b) = if b then codes "true" else codes "false"
  stringify (number finite printed) = if finite then printed else codes "null"
  stringify (text t) = quote t
  stringify (arr items) = 91 ∷ (stringify_items false items ++ (93 ∷ []))
  stringify (obj fields) = 123 ∷ (stringify_fields false fields ++ (125 ∷ []))
  stringify opaque = codes "null"

  -- `comma` says that an item stands before.
  pub stringify_items : Bool → Items → Text
  stringify_items comma nil = []
  stringify_items comma (cons value rest) =
      (if comma then 44 ∷ [] else []) ++ (stringify value ++ stringify_items true rest)

  pub stringify_fields : Bool → Fields → Text
  stringify_fields comma end = []
  stringify_fields comma (field key value rest) =
      (if comma then 44 ∷ [] else [])
      ++ (quote key ++ (58 ∷ (stringify value ++ stringify_fields true rest)))
