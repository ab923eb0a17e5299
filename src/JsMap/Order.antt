-- ===== src/JsMap/Order.antt =====
-- A `Map` holds each key once, and its writes keep that.
use authmodules.Prelude.{some, ◌≡◌, refl, false, ◌||◌, List, [], ◌∷◌, test, includes, arith}
use authmodules.JsMap.Laws.{get-set}
use authmodules.JsMap.{Map, keys, get, set, delete}

module _ {K : Type 0} (dec : Discrete K) where
  abbrev pub IsDistinct : List K → Type 0
  IsDistinct [] = Unit {0}
  IsDistinct (k ∷ ks) = (includes dec ks k ≡ false) × IsDistinct ks

  includes-keys-set :
      {V : Type 0} (k j : K) (v : V) (m : Map K V)
      → includes dec (keys (set dec k v m)) j ≡ (test (dec k j) || includes dec (keys m) j)
  unfolding set
  includes-keys-set k j v [] = ground arith
  includes-keys-set k j v ((i, w) ∷ m) = ground (arith, includes-keys-set k j v m)

  pub set-IsDistinct :
      {V : Type 0} (k : K) (v : V) (m : Map K V)
      → IsDistinct (keys m)
      → IsDistinct (keys (set dec k v m))
  unfolding set
  set-IsDistinct k v [] d = (refl, tt)
  set-IsDistinct k v ((i, w) ∷ m) d =
      ground (arith, includes-keys-set k i v m, set-IsDistinct k v m d.1)

  includes-keys-delete :
      {V : Type 0} (k j : K) (m : Map K V)
      → includes dec (keys m) j ≡ false
      → includes dec (keys (delete dec k m)) j ≡ false
  unfolding delete
  includes-keys-delete k j [] h = refl
  includes-keys-delete k j ((i, w) ∷ m) h = ground (arith, includes-keys-delete k j m)

  pub delete-IsDistinct :
      {V : Type 0} (k : K) (m : Map K V) → IsDistinct (keys m) → IsDistinct (keys (delete dec k m))
  unfolding delete
  delete-IsDistinct k [] d = tt
  delete-IsDistinct k ((i, w) ∷ m) d =
      ground (arith, includes-keys-delete k i m d.0, delete-IsDistinct k m d.1)

module _ {K V : Type 0} (dec : Discrete K) where
  -- Each entry is what a lookup of its key finds.
  abbrev pub Agrees : Map K V → Map K V → Type 0
  Agrees [] m = Unit {0}
  Agrees ((k, v) ∷ rest) m = (get dec k m ≡ some v) × Agrees rest m

  Agrees-cons :
      (k : K) (v : V) (rest m : Map K V)
      → includes dec (keys rest) k ≡ false
      → Agrees rest m
      → Agrees rest ((k, v) ∷ m)
  unfolding get
  Agrees-cons k v [] m h a = tt
  Agrees-cons k v ((j, w) ∷ rest) m h a = (ground arith, Agrees-cons k v rest m (ground arith) a.1)

  pub Agrees-set :
      (k : K) (v : V) (rest m : Map K V)
      → includes dec (keys rest) k ≡ false
      → Agrees rest m
      → Agrees rest (set dec k v m)
  Agrees-set k v [] m h a = tt
  Agrees-set k v ((j, w) ∷ rest) m h a =
      (ground (arith, get-set dec k j v m), Agrees-set k v rest m (ground arith) a.1)

  pub Agrees-self : (m : Map K V) → IsDistinct dec (keys m) → Agrees m m
  unfolding get
  Agrees-self [] d = tt
  Agrees-self ((k, v) ∷ m) d = (ground arith, Agrees-cons k v m m d.0 (Agrees-self m d.1))
