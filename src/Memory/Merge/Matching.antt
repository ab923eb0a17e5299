-- ===== src/Memory/Merge/Matching.antt =====
-- Maps that match hold the same values under every key.
use authmodules.Prelude.{
  suc, ◌≤◌, ◌≡◌, refl, true, false, none, List, [], ◌∷◌, test, includes, arith, length, ap, ◌≢◌,
}
use authmodules.JsMap.{Map, keys, get}
use authmodules.JsMap.Order.{IsDistinct}
use authmodules.Memory.Merge.{entry_matches, maps_match, apply_changes}
use authmodules.Memory.Merge.Laws.{
  get_of_not-includes, every_at, matches_of_absent, matches_refl, get-apply_changes,
  same_value_trans,
}

module _ {K : Type 0} (dec : Discrete K) where
  drop_first : K → List K → List K
  drop_first k [] = []
  drop_first k (x ∷ xs) = elim (dec x k) [ yes _ ↦ xs | no _ ↦ x ∷ drop_first k xs ]

  length-drop_first :
      (k : K) (xs : List K) → includes dec xs k ≡ true → suc (length (drop_first k xs)) ≡ length xs
  unfolding drop_first
  length-drop_first k [] h = cc
  length-drop_first k (x ∷ xs) h = ground (arith, length-drop_first k xs)

  includes-drop_first :
      (k j : K) (xs : List K)
      → includes dec xs j ≡ true
      → test (dec k j) ≡ false
      → includes dec (drop_first k xs) j ≡ true
  unfolding drop_first
  includes-drop_first k j [] h n = h
  includes-drop_first k j (x ∷ xs) h n = ground (arith, includes-drop_first k j xs)

  Covers : List K → List K → Type 0
  Covers ys xs = (k : K) → includes dec xs k ≡ true → includes dec ys k ≡ true

  -- A list as long as its distinct members holds nothing else.
  pigeonhole :
      (xs ys : List K)
      → IsDistinct dec xs
      → Covers ys xs
      → length ys ≤ length xs
      → (k : K) → includes dec ys k ≡ true
      → includes dec xs k ≡ true
  unfolding Covers
  pigeonhole [] [] d c l k h = h
  pigeonhole [] (y ∷ ys) d c l k h = absurd (omega arith)
  pigeonhole (x ∷ xs) ys d c l k h = ground (
    arith,
    pigeonhole xs (drop_first x ys) d.1
        (λ j m. includes-drop_first x j ys (c j (ground arith)) (ground arith))
        (omega (arith, length-drop_first x ys (c x (ground arith)))) k,
    includes-drop_first x k ys h,
  )

  get-ne-none :
      {V : Type 0} (m : Map K V) (k : K) → includes dec (keys m) k ≡ true → get dec k m ≢ none
  unfolding get
  get-ne-none [] k h e = cc
  get-ne-none ((j, v) ∷ m) k h e = ground (arith, get-ne-none m k)

module _ {K V I : Type 0} (dec : Discrete K) (same : Discrete I) (ident : V → I) where
  includes_of_matches :
      (left right : Map K V) (k : K)
      → entry_matches dec same ident left right k ≡ true
      → includes dec (keys left) k ≡ true
      → includes dec (keys right) k ≡ true
  unfolding entry_matches
  includes_of_matches left right k e h =
      ground (arith, get-ne-none dec left k, get_of_not-includes dec right k)

  matches_on_left :
      (left right : Map K V) (k : K)
      → maps_match dec same ident left right ≡ true
      → includes dec (keys left) k ≡ true
      → entry_matches dec same ident left right k ≡ true
  unfolding maps_match
  matches_on_left left right k h present =
      every_at dec (entry_matches dec same ident left right) (keys left) k (ground arith) present

  length-keys : (m : Map K V) → length (keys m) ≡ length m
  length-keys [] = refl
  length-keys (e ∷ m) = ap suc (length-keys m)

  same_size :
      (left right : Map K V)
      → maps_match dec same ident left right ≡ true
      → length left ≡ length right
  unfolding maps_match
  same_size left right h = ground arith

  keys_agree :
      (left right : Map K V) (k : K)
      → IsDistinct dec (keys left)
      → maps_match dec same ident left right ≡ true
      → includes dec (keys right) k ≡ true
      → includes dec (keys left) k ≡ true
  unfolding Covers
  keys_agree left right k d h =
      pigeonhole dec (keys left) (keys right) d
        (λ j m. includes_of_matches left right j (matches_on_left left right j h m) m)
        (omega (arith, length-keys left, length-keys right, same_size left right h)) k

  -- The test looks at the keys of one side, and decides every key.
  pub matches_of_maps_match :
      (left right : Map K V) (k : K)
      → IsDistinct dec (keys left)
      → maps_match dec same ident left right ≡ true
      → entry_matches dec same ident left right k ≡ true
  matches_of_maps_match left right k d h = ground (
    arith,
    matches_on_left left right k h,
    keys_agree left right k d h,
    matches_of_absent dec same ident left right k,
    get_of_not-includes dec left k,
    get_of_not-includes dec right k,
  )

  -- Where the store still matches the snapshot, the merge leaves what the transaction holds.
  pub apply_changes_of_match :
      (base before working : Map K V) (k : K)
      → entry_matches dec same ident base before k ≡ true
      → entry_matches dec same ident (apply_changes dec same ident base before working) working k
        ≡ true
  unfolding entry_matches
  apply_changes_of_match base before working k h = ground (
    arith,
    get-apply_changes dec same ident base before working k,
    matches_refl dec same ident working k,
    same_value_trans dec same ident (get dec k base) (get dec k before) (get dec k working),
  )
