-- ===== src/JsMap/Laws.antt =====
-- What a reader of a `Map` sees after a write.
use authmodules.Prelude.{test, ◌||◌, ◌≡◌, refl, true, false, none, some, [], ◌∷◌, ite, arith}
use authmodules.JsMap.{Map, get, has, set, delete}

module _ {ℓ} {K V : Type ℓ} (dec : Discrete K) where
  pub get-set :
      (k j : K) (v : V) (m : Map K V)
      → get dec j (set dec k v m) ≡ ite (dec k j) (some v) (get dec j m)
  unfolding get set
  get-set k j v [] = ground arith
  get-set k j v ((i, w) ∷ m) = ground (arith, get-set k j v m)

  pub get-set_self : (k : K) (v : V) (m : Map K V) → get dec k (set dec k v m) ≡ some v
  get-set_self k v m = ground (arith, get-set k k v m)

  pub get-delete :
      (k j : K) (m : Map K V) → get dec j (delete dec k m) ≡ ite (dec k j) none (get dec j m)
  unfolding get delete
  get-delete k j [] = ground arith
  get-delete k j ((i, w) ∷ m) = ground (arith, get-delete k j m)

  pub has_of_some : (k : K) (m : Map K V) (v : V) → get dec k m ≡ some v → has dec k m ≡ true
  unfolding get has
  has_of_some k [] v h = cc
  has_of_some k ((j, w) ∷ m) v h = ground (arith, has_of_some k m v)

  pub none_of_not-has : (k : K) (m : Map K V) → has dec k m ≡ false → get dec k m ≡ none
  unfolding get has
  none_of_not-has k [] h = refl
  none_of_not-has k ((j, w) ∷ m) h = ground (arith, none_of_not-has k m)

  pub not-has_of_none : (k : K) (m : Map K V) → get dec k m ≡ none → has dec k m ≡ false
  unfolding get has
  not-has_of_none k [] h = refl
  not-has_of_none k ((j, w) ∷ m) h = ground (arith, not-has_of_none k m)

  pub has-set :
      (k j : K) (v : V) (m : Map K V) → has dec j (set dec k v m) ≡ (test (dec k j) || has dec j m)
  unfolding has set
  has-set k j v [] = ground arith
  has-set k j v ((i, w) ∷ m) = ground (arith, has-set k j v m)
