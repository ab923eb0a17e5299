-- ===== src/Memory/Cleanup/Laws.antt =====
-- What the cleanup loop counts and writes.
use Prim.Native.Nat.{min}
use authmodules.Prelude.{
  ℕ, suc, ◌+◌, ◌≤◌, ◌≡◌, Bool, true, some, [], ◌∷◌, Text, text_discrete, if◌then◌else◌, leb, inl,
  inr, Bool-cases, arith,
}
use authmodules.JsMap.{Map, keys, get, set}
use authmodules.JsMap.Order.{IsDistinct, Agrees, Agrees-set}
use authmodules.Memory.State.{Cell}
use authmodules.Memory.Action.{cell}
use authmodules.Memory.Cleanup.{cleanup_loop}

module _ {A : Type 0} (is_due : A → Bool) where
  -- The records that are due.
  abbrev pub due_count : Map Text (Cell A) → ℕ
  due_count [] = 0
  due_count ((key, c) ∷ rest) = if is_due c.value then suc (due_count rest) else due_count rest

-- How many of the stored records have a property.
pub data Count {A : Type 0} (P : A → Type 0) : Map Text (Cell A) → ℕ → Type 0 where
  nothing : Count P [] 0
  hit :
      {key : Text} {c : Cell A} {rest : Map Text (Cell A)} {n : ℕ}
      → P c.value
      → Count P rest n
      → Count P ((key, c) ∷ rest) (suc n)
  miss :
      {key : Text} {c : Cell A} {rest : Map Text (Cell A)} {n : ℕ}
      → ¬ P c.value
      → Count P rest n
      → Count P ((key, c) ∷ rest) n

pub due_count-Count :
    {A : Type 0} (is_due : A → Bool) (P : A → Type 0)
    → ((r : A) → is_due r ≡ true → P r)
    → ((r : A) → P r → is_due r ≡ true)
    → (m : Map Text (Cell A)) → Count P m (due_count is_due m)
due_count-Count is_due P sound complete [] = Count.nothing
due_count-Count is_due P sound complete ((key, c) ∷ rest) = elim (Bool-cases (is_due c.value)) [
  | inl due ↦ rw due (Count.hit (sound c.value due) (due_count-Count is_due P sound complete rest))
  | inr fresh ↦
      rw fresh
        (Count.miss (λ p. cc (complete c.value p)) (due_count-Count is_due P sound complete rest))
]

module _ {A : Type 0} (is_due : A → Bool) (expire : A → A) (limit ref : ℕ) where
  -- The loop stops at its limit, and counts all that is due below it.
  pub cleanup_loop-count :
      (entries : Map Text (Cell A)) (count : ℕ) (m : Map Text (Cell A))
      → count ≤ limit
      → (cleanup_loop is_due expire limit ref entries count m).0
        ≡ min limit (count + due_count is_due entries)
  unfolding cleanup_loop
  cleanup_loop-count [] count m h = omega arith
  cleanup_loop-count ((key, c) ∷ rest) count m h = elim (Bool-cases (is_due c.value)) [
    | inr fresh ↦ rw fresh (cleanup_loop-count rest count m h)
    | inl due ↦ elim (Bool-cases (leb limit count)) [
      | inl full ↦ rw (due, full) (ground arith)
      | inr room ↦
          rw (due, room)
            (omega (
              arith,
              cleanup_loop-count rest (count + 1) (set text_discrete key _ m) (ground arith),
            ))
    ]
  ]

  -- An invariant that each write keeps holds after the loop.
  pub cleanup_loop_inv :
      (Q : Map Text (Cell A) → Type 0)
      → ((key : Text) (c : Cell A) (m : Map Text (Cell A))
          → get text_discrete key m ≡ some c
          → is_due c.value ≡ true
          → Q m
          → Q (set text_discrete key (cell ref (expire c.value)) m))
      → (entries : Map Text (Cell A)) (count : ℕ) (m : Map Text (Cell A))
      → IsDistinct text_discrete (keys entries)
      → Agrees text_discrete entries m
      → Q m
      → Q (cleanup_loop is_due expire limit ref entries count m).1
  unfolding cleanup_loop
  cleanup_loop_inv Q keep [] count m d a q = q
  cleanup_loop_inv Q keep ((key, c) ∷ rest) count m d a q = elim (Bool-cases (is_due c.value)) [
    | inr fresh ↦ rw fresh (cleanup_loop_inv Q keep rest count m d.1 a.1 q)
    | inl due ↦ elim (Bool-cases (leb limit count)) [
      | inl full ↦ rw (due, full) q
      | inr room ↦
          rw (due, room)
            (cleanup_loop_inv Q keep rest (count + 1) _ d.1
              (Agrees-set text_discrete key _ rest m d.0 a.1) (keep key c m a.0 due q))
    ]
  ]
