-- ===== src/Memory/Action.antt =====
-- One call of a store on the state that it was given: its result, and the state that it leaves.
-- The number is the call's own, and marks the objects that it stores.
use authmodules.Prelude.{ℕ, Option, none, some, [], ◌∷◌, Text, if◌then◌else◌, ltb, leb, ◌&&◌}
use authmodules.Contracts.Errors.{Reason, Result, err, StoreFailure, store_failure}
use authmodules.Memory.State.{MemoryState, Cell}

abbrev pub Action : Type 0 → Type 0
Action A = ℕ → MemoryState → Result StoreFailure A × MemoryState

abbrev pub fail : {A : Type 0} → Reason → Action A
fail reason ref s = (err (store_failure reason), s)

abbrev pub fail_with : {A : Type 0} → StoreFailure → Action A
fail_with failure ref s = (err failure, s)

-- `if (!value) return err(storeFailure(reason))`, and the rest of the method on the value.
abbrev pub require : {A B : Type 0} → Option A → Reason → (A → Action B) → Action B
require none reason rest ref s = (err (store_failure reason), s)
require (some value) reason rest ref s = rest value ref s

abbrev pub cell : {A : Type 0} → ℕ → A → Cell A
cell ref value = record { ref = ref; value = value }

-- `cloneRecord(map.get(key)) ?? null`
abbrev pub content : {A : Type 0} → Option (Cell A) → Option A
content none = none
content (some c) = some c.value

-- `if (!id) return ok(null)`: a missing id, or the empty text.
abbrev pub truthy : Option Text → Option Text
truthy none = none
truthy (some []) = none
truthy (some (c ∷ t)) = some (c ∷ t)

-- `limit` of the two cleanups.
unfoldable pub cleanup_limit : Option ℕ → Option ℕ
cleanup_limit none = some 1000
cleanup_limit (some n) = if ltb 0 n && leb n 1000 then some n else none
