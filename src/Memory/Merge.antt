-- ===== src/Memory/Merge.antt =====
-- The three-way merge of a transaction, on one map: `entryMatches`, `mapsMatch`, `hasConflict` and
-- `applyChanges` of packages/testkit/src/stores/state.ts, which memory-outbox-store.ts repeats as
-- `mapEntryMatches`, `mapsMatch`, `mapHasConflict` and `applyMapChanges`.
pub mod Laws
pub mod Matching
use authmodules.Prelude.{
  Bool, true, false, not, ◌&&◌, ◌||◌, Option, none, some, List, [], ◌∷◌, ◌++◌, test, if◌then◌else◌,
  length, every, includes, ◌==◌,
}
use authmodules.JsMap.{Map, keys, get, set, delete}

module _ {K : Type 0} (dec : Discrete K) where
  -- `new Set(list)`, in order of insertion.
  unfoldable pub distinct : List K → List K → List K
  distinct seen [] = []
  distinct seen (k ∷ ks) =
      let old = distinct seen ks in
      let new = k ∷ distinct (k ∷ seen) ks in if includes dec seen k then old else new

  abbrev all_keys : {V : Type 0} → Map K V → Map K V → List K
  all_keys before working = distinct [] (keys before ++ keys working)

-- `===` on the values is equality of what identifies them: the object, or the text itself.
module _ {K V I : Type 0} (dec : Discrete K) (same : Discrete I) (ident : V → I) where
  unfoldable pub same_value : Option V → Option V → Bool
  same_value none none = true
  same_value (some a) (some b) = test (same (ident a) (ident b))
  same_value _ _ = false

  -- `left.has(key) === right.has(key) && left.get(key) === right.get(key)`
  unfoldable pub entry_matches : Map K V → Map K V → K → Bool
  unfolding same_value
  entry_matches left right key = same_value (get dec key left) (get dec key right)

  unfoldable pub maps_match : Map K V → Map K V → Bool
  maps_match left right =
      length left == length right && every (entry_matches left right) (keys left)

  unfoldable pub has_conflict : Map K V → Map K V → Map K V → Bool
  unfolding distinct
  has_conflict base before working = not (
      every (λ key. entry_matches before working key || entry_matches before base key)
        (all_keys dec before working))

  -- The body of the loop of `applyChanges`.
  change_entry : Map K V → Map K V → K → Map K V → Map K V
  change_entry before working key base =
      if entry_matches before working key then base else elim (get dec key working) [
        | some value ↦ set dec key value base
        | none ↦ delete dec key base
      ]

  change_entries : Map K V → Map K V → List K → Map K V → Map K V
  change_entries before working [] base = base
  change_entries before working (key ∷ rest) base =
      change_entries before working rest (change_entry before working key base)

  unfoldable pub apply_changes : Map K V → Map K V → Map K V → Map K V
  unfolding change_entries change_entry distinct
  apply_changes base before working =
      change_entries before working (all_keys dec before working) base
