-- ===== src/Memory/Cleanup.antt =====
-- The loop of `cleanupExpired` in packages/testkit/src/stores/sessions.ts and challenges.ts, which
-- differ in the test that skips a record and in the record that is stored.
pub mod Laws
use authmodules.Prelude.{ℕ, ◌+◌, Bool, not, [], ◌∷◌, Text, text_discrete, if◌then◌else◌, leb}
use authmodules.JsMap.{Map, set}
use authmodules.Memory.State.{Cell}
use authmodules.Memory.Action.{cell}

module _ {A : Type 0} (is_due : A → Bool) (expire : A → A) (limit ref : ℕ) where
  -- The entries still to visit, the count, and the map that the loop writes.
  unfoldable pub cleanup_loop : Map Text (Cell A) → ℕ → Map Text (Cell A) → ℕ × Map Text (Cell A)
  cleanup_loop [] count m = (count, m)
  cleanup_loop ((key, c) ∷ rest) count m =
      let skipped = cleanup_loop rest count m in
      let next =
        cleanup_loop rest (count + 1) (set text_discrete key (cell ref (expire c.value)) m) in
      if not (is_due c.value) then skipped else if leb limit count then (count, m) else next
