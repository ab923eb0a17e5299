-- ===== src/Memory/Merge/Laws.antt =====
-- What the merge leaves under each key, and what the conflict test guarantees.
use authmodules.Prelude.{
  ◌≡◌, refl, ite, Bool, true, false, not, ◌&&◌, ◌||◌, Option, none, List, [], ◌∷◌, ◌++◌,
  if◌then◌else◌, includes, every, arith,
}
use authmodules.JsMap.{Map, keys, get}
use authmodules.JsMap.Laws.{get-set, get-delete}
use authmodules.Memory.Merge.{
  same_value, entry_matches, distinct, all_keys, has_conflict, change_entry, change_entries,
  apply_changes,
}

module _ {K : Type 0} (dec : Discrete K) where
  pub includes-append :
      (xs ys : List K) (k : K)
      → includes dec (xs ++ ys) k ≡ (includes dec xs k || includes dec ys k)
  includes-append [] ys k = refl
  includes-append (x ∷ xs) ys k = ground (arith, includes-append xs ys k)

  pub includes-distinct :
      (seen ks : List K) (k : K)
      → includes dec ks k ≡ true
      → includes dec seen k ≡ false
      → includes dec (distinct dec seen ks) k ≡ true
  unfolding distinct
  includes-distinct seen [] k h fresh = h
  includes-distinct seen (x ∷ ks) k h fresh =
      ground (arith, includes-distinct seen ks k, includes-distinct (x ∷ seen) ks k)

  pub get_of_not-includes :
      {V : Type 0} (m : Map K V) (k : K) → includes dec (keys m) k ≡ false → get dec k m ≡ none
  unfolding get
  get_of_not-includes [] k h = refl
  get_of_not-includes ((j, v) ∷ m) k h = ground (arith, get_of_not-includes m k)

  pub every_at :
      (p : K → Bool) (ks : List K) (k : K)
      → every p ks ≡ true
      → includes dec ks k ≡ true
      → p k ≡ true
  every_at p [] k all h = cc
  every_at p (x ∷ ks) k all h = ground (arith, every_at p ks k)

module _ {K V I : Type 0} (dec : Discrete K) (same : Discrete I) (ident : V → I) where
  get-change_entry :
      (before working : Map K V) (key j : K) (base : Map K V)
      → get dec j (change_entry dec same ident before working key base) ≡ (
          if entry_matches dec same ident before working key
          then get dec j base
          else ite (dec key j) (get dec j working) (get dec j base))
  unfolding change_entry
  get-change_entry before working key j base =
      grind (arith, get-set dec key j, get-delete dec key j)

  get-change_entries :
      (before working : Map K V) (ks : List K) (j : K) (base : Map K V)
      → get dec j (change_entries dec same ident before working ks base) ≡ (
          if includes dec ks j && not (entry_matches dec same ident before working j)
          then get dec j working
          else get dec j base)
  unfolding change_entries
  get-change_entries before working [] j base = refl
  get-change_entries before working (k ∷ ks) j base = ground (
    arith,
    get-change_entry before working k j base,
    get-change_entries before working ks j (change_entry dec same ident before working k base),
  )

  pub matches_refl : (m : Map K V) (k : K) → entry_matches dec same ident m m k ≡ true
  unfolding entry_matches
  matches_refl m k = ground arith

  pub matches_of_absent :
      (left right : Map K V) (k : K)
      → get dec k left ≡ none
      → get dec k right ≡ none
      → entry_matches dec same ident left right k ≡ true
  unfolding entry_matches
  matches_of_absent left right k p q = ground arith

  -- The merge changes exactly the entries that the transaction changed.
  pub get-apply_changes :
      (base before working : Map K V) (j : K)
      → get dec j (apply_changes dec same ident base before working) ≡ (
          if entry_matches dec same ident before working j
          then get dec j base
          else get dec j working)
  unfolding apply_changes
  get-apply_changes base before working j = ground (
    arith,
    get-change_entries before working (all_keys dec before working) j base,
    includes-distinct dec [] (keys before ++ keys working) j,
    includes-append dec (keys before) (keys working) j,
    get_of_not-includes dec before j,
    get_of_not-includes dec working j,
    matches_of_absent before working j,
  )

  pub has_conflict_free :
      (base before working : Map K V) (j : K)
      → has_conflict dec same ident base before working ≡ false
      → entry_matches dec same ident before working j ≡ false
      → entry_matches dec same ident before base j ≡ true
  unfolding has_conflict
  has_conflict_free base before working j calm changed = ground (
    arith,
    every_at dec
        (λ key.
          entry_matches dec same ident before working key
          || entry_matches dec same ident before base key)
        (all_keys dec before working) j,
    includes-distinct dec [] (keys before ++ keys working) j,
    includes-append dec (keys before) (keys working) j,
    get_of_not-includes dec before j,
    get_of_not-includes dec working j,
    matches_of_absent before working j,
  )

  pub same_value_sym :
      (a b : Option V) → same_value dec same ident a b ≡ true → same_value dec same ident b a ≡ true
  unfolding same_value
  same_value_sym a b h = ground arith

  pub same_value_trans :
      (a b c : Option V)
      → same_value dec same ident a b ≡ true
      → same_value dec same ident b c ≡ true
      → same_value dec same ident a c ≡ true
  unfolding same_value
  same_value_trans a b c h k = ground arith
