-- ===== src/Guard/Heap.antt =====
-- packages/guard-memory/src/guard/create-memory-attempt-guard.ts: the heap of expirations, an array
-- whose entry i has its children at 2 i + 1 and 2 i + 2. A loop moves a hole through the array, and
-- takes as fuel more than the rounds that are left, which the laws show to be enough.
pub mod Laws
use authmodules.Prelude.{
  ℕ, zero, suc, ◌+◌, ◌-◌, ◌*◌, ◌/◌, ◌&&◌, Option, none, some, List, [], ◌∷◌, ◌++◌, Text, leb, ltb,
  ◌==◌, if◌then◌else◌, length,
}
use authmodules.Contracts.Values.{Time}

pub record Expiration : Type 0 where
  pub key : Text
  pub expires_at : Time

abbrev pub Heap : Type 0
Heap = List Expiration

module _ {A : Type 0} where
  -- A read, which gives the default out of bounds, and a write, which changes nothing there.
  unfoldable pub get_or : List A → ℕ → A → A
  get_or [] i d = d
  get_or (x ∷ xs) zero d = x
  get_or (x ∷ xs) (suc i) d = get_or xs i d

  unfoldable pub set : List A → ℕ → A → List A
  set [] i v = []
  set (x ∷ xs) zero v = v ∷ xs
  set (x ∷ xs) (suc i) v = x ∷ set xs i v

  -- The entries but the last, and the last.
  unfoldable pub pop_last : A → List A → List A × A
  pop_last x [] = ([], x)
  pop_last x (y ∷ r) = let (front, last) = pop_last y r in (x ∷ front, last)

-- `heapPush` from its `while`, with the hole at `index`.
unfoldable pub sift_up : ℕ → Heap → ℕ → Expiration → Heap
sift_up zero heap index value = set heap index value
sift_up (suc fuel) heap index value =
    let parent = (index - 1) / 2 in
    let above = get_or heap parent value in
    let rest = sift_up fuel (set heap index above) parent value in
    if index == 0
    then set heap index value
    else if leb above.expires_at value.expires_at
    then set heap index value
    else rest

unfoldable pub heap_push : Heap → Expiration → Heap
unfolding sift_up
heap_push heap value =
    let grown = heap ++ value ∷ [] in sift_up (length grown) grown (length heap) value

-- The child of `index` that expires first, where there is one.
unfoldable pub first_child : Heap → ℕ → Expiration → ℕ
first_child heap index d =
    let left = index * 2 + 1 in
    let right = left + 1 in
    if ltb right (length heap)
      && ltb (get_or heap right d).expires_at (get_or heap left d).expires_at
    then right
    else left

-- `heapPop` from its `while`, with the hole at `index`.
unfoldable pub sift_down : ℕ → Heap → ℕ → Expiration → Heap
unfolding first_child
sift_down zero heap index value = set heap index value
sift_down (suc fuel) heap index value =
    let child = first_child heap index value in
    let below = get_or heap child value in
    let rest = sift_down fuel (set heap index below) child value in
    if leb (length heap) (index * 2 + 1)
    then set heap index value
    else if leb value.expires_at below.expires_at
    then set heap index value
    else rest

-- The rest of `heapPop` on what `heap.pop()` left and gave.
unfoldable pub refill : Heap → Expiration → Heap
unfolding sift_down
refill [] last = []
refill (x ∷ front) last = sift_down (suc (length front)) (x ∷ front) 0 last

unfoldable pub heap_pop : Heap → Option Expiration × Heap
unfolding refill pop_last
heap_pop [] = (none, [])
heap_pop (first ∷ rest) = let (front, last) = pop_last first rest in (some first, refill front last)
