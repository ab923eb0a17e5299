-- ===== src/Guard/Heap/Laws.antt =====
-- The heap loses and gains exactly the entries that it should, and its loops have enough fuel.
use authmodules.Prelude.{
  ℕ, zero, suc, ◌+◌, ◌-◌, ◌*◌, ◌/◌, ◌<◌, ◌≤◌, Bool, false, List, [], ◌∷◌, ◌++◌, leb, ◌==◌,
  if◌then◌else◌, length, length-append, ◌≡◌, ◌≢◌, refl, ap, ◌∙◌, arith, Bool-cases, inl, inr,
}
use authmodules.Guard.Heap.{
  Expiration, Heap, get_or, set, pop_last, sift_up, sift_down, heap_push, heap_pop, refill,
  first_child,
}

module _ {A : Type 0} where
  unfoldable pub count : (A → Bool) → List A → ℕ
  count p [] = 0
  count p (x ∷ xs) = (if p x then 1 else 0) + count p xs

  abbrev bit : (A → Bool) → A → ℕ
  bit p x = if p x then 1 else 0

  pub length-set : (xs : List A) (i : ℕ) (v : A) → length (set xs i v) ≡ length xs
  unfolding set
  length-set [] i v = refl
  length-set (x ∷ xs) zero v = refl
  length-set (x ∷ xs) (suc i) v = omega (arith, length-set xs i v)

  count-set :
      (p : A → Bool) (xs : List A) (i : ℕ) (v d : A)
      → i < length xs
      → count p (set xs i v) + bit p (get_or xs i d) ≡ count p xs + bit p v
  unfolding count set get_or
  count-set p [] i v d h = absurd (omega arith)
  count-set p (x ∷ xs) zero v d h = omega arith
  count-set p (x ∷ xs) (suc i) v d h = omega (arith, count-set p xs i v d (omega arith))

  get_or-set : (xs : List A) (i j : ℕ) (v d : A) → i ≢ j → get_or (set xs i v) j d ≡ get_or xs j d
  unfolding set get_or
  get_or-set [] i j v d h = refl
  get_or-set (x ∷ xs) zero zero v d h = absurd (h refl)
  get_or-set (x ∷ xs) zero (suc j) v d h = refl
  get_or-set (x ∷ xs) (suc i) zero v d h = refl
  get_or-set (x ∷ xs) (suc i) (suc j) v d h = get_or-set xs i j v d (λ e. h (ap suc e))

  get_or-last : (xs : List A) (v : A) → get_or (xs ++ v ∷ []) (length xs) v ≡ v
  unfolding get_or
  get_or-last [] v = refl
  get_or-last (x ∷ xs) v = get_or-last xs v

  count-append : (p : A → Bool) (xs ys : List A) → count p (xs ++ ys) ≡ count p xs + count p ys
  unfolding count
  count-append p [] ys = omega arith
  count-append p (x ∷ xs) ys = omega (arith, count-append p xs ys)

  -- A hole moved from i to j: what stood at j stands at i.
  count-moved :
      (p : A → Bool) (xs : List A) (i j : ℕ) (v : A)
      → i < length xs
      → j < length xs
      → i ≢ j
      → count p (set (set xs i (get_or xs j v)) j v) ≡ count p (set xs i v)
  count-moved p xs i j v hi hj ne =
      let moved = set xs i (get_or xs j v) in
      omega (
        arith,
        count-set p moved j v v (omega (arith, length-set xs i (get_or xs j v))),
        ap (bit p) (get_or-set xs i j (get_or xs j v) v ne),
        count-set p xs i (get_or xs j v) v hi,
        count-set p xs i v v hi,
      )

  count-pop_last :
      (p : A → Bool) (x : A) (xs : List A)
      → count p (pop_last x xs).0 + bit p (pop_last x xs).1 ≡ count p (x ∷ xs)
  unfolding count pop_last
  count-pop_last p x [] = omega arith
  count-pop_last p x (y ∷ r) = omega (arith, count-pop_last p y r)

==-false : (n : ℕ) → (n == 0) ≡ false → 0 < n
==-false n h = ground arith

count-sift_up :
    (p : Expiration → Bool) (fuel : ℕ) (heap : Heap) (index : ℕ) (value : Expiration)
    → index < length heap
    → count p (sift_up fuel heap index value) ≡ count p (set heap index value)
unfolding sift_up
count-sift_up p zero heap index value h = refl
count-sift_up p (suc fuel) heap index value h =
    let parent = (index - 1) / 2 in
    let above = get_or heap parent value in
    elim (Bool-cases (index == 0)) [
      | inl root ↦ rw root refl
      | inr inner ↦ elim (Bool-cases (leb above.expires_at value.expires_at)) [
        | inl settled ↦ rw (inner, settled) refl
        | inr smaller ↦
            rw (inner, smaller)
              (count-sift_up p fuel (set heap index above) parent value
                  (omega (arith, length-set heap index above, ==-false index inner))
                ∙ count-moved p heap index parent value h (omega (arith, ==-false index inner))
                    (λ e. absurd (omega (arith, ==-false index inner))))
      ]
    ]

first_child-bounds :
    (heap : Heap) (index : ℕ) (d : Expiration)
    → leb (length heap) (index * 2 + 1) ≡ false
    → (index < first_child heap index d) × (first_child heap index d < length heap)
unfolding first_child
first_child-bounds heap index d h = ground arith

count-sift_down :
    (p : Expiration → Bool) (fuel : ℕ) (heap : Heap) (index : ℕ) (value : Expiration)
    → index < length heap
    → count p (sift_down fuel heap index value) ≡ count p (set heap index value)
unfolding sift_down
count-sift_down p zero heap index value h = refl
count-sift_down p (suc fuel) heap index value h =
    let child = first_child heap index value in
    let below = get_or heap child value in
    elim (Bool-cases (leb (length heap) (index * 2 + 1))) [
      | inl leaf ↦ rw leaf refl
      | inr inner ↦ elim (Bool-cases (leb value.expires_at below.expires_at)) [
        | inl settled ↦ rw (inner, settled) refl
        | inr larger ↦
            let bounds = first_child-bounds heap index value inner in
            rw (inner, larger)
              (count-sift_down p fuel (set heap index below) child value
                  (omega (arith, length-set heap index below, bounds))
                ∙ count-moved p heap index child value h bounds.1
                    (λ e. absurd (omega (arith, bounds, e))))
      ]
    ]

-- A pushed entry is added, and nothing else changes but the order.
pub count-heap_push :
    (p : Expiration → Bool) (heap : Heap) (value : Expiration)
    → count p (heap_push heap value) ≡ count p heap + (if p value then 1 else 0)
unfolding heap_push count
count-heap_push p heap value =
    let grown = heap ++ value ∷ [] in
    let last : length heap < length grown = omega (arith, length-append heap (value ∷ [])) in
    omega (
      arith,
      count-sift_up p (length grown) grown (length heap) value last,
      count-set p grown (length heap) value value last,
      ap (bit p) (get_or-last heap value),
      count-append p heap (value ∷ []),
    )

count-refill :
    (p : Expiration → Bool) (x : Expiration) (front : Heap) (last : Expiration)
    → count p (refill (x ∷ front) last) + bit p x ≡ count p (x ∷ front) + bit p last
unfolding refill get_or
count-refill p x front last = omega (
  arith,
  count-sift_down p (suc (length front)) (x ∷ front) 0 last (omega arith),
  count-set p (x ∷ front) 0 last last (omega arith),
)

heap_pop-cons :
    (first y : Expiration) (rest : Heap)
    → (heap_pop (first ∷ y ∷ rest)).1 ≡ refill (first ∷ (pop_last y rest).0) (pop_last y rest).1
unfolding heap_pop
heap_pop-cons first y rest = refl

heap_pop-single : (first : Expiration) → (heap_pop (first ∷ [])).1 ≡ []
unfolding heap_pop
heap_pop-single first = refl

-- Popping takes the first entry, and nothing else changes but the order.
pub count-heap_pop :
    (p : Expiration → Bool) (first : Expiration) (rest : Heap)
    → count p (heap_pop (first ∷ rest)).1 + (if p first then 1 else 0) ≡ count p (first ∷ rest)
unfolding count
count-heap_pop p first [] = omega (arith, ap (count p) (heap_pop-single first))
count-heap_pop p first (y ∷ rest) = omega (
  arith,
  ap (count p) (heap_pop-cons first y rest),
  count-refill p first (pop_last y rest).0 (pop_last y rest).1,
  count-pop_last p y rest,
)

-- The first loop needs no more fuel than its index.
pub sift_up-fuel :
    (f g : ℕ) (heap : Heap) (index : ℕ) (value : Expiration)
    → index < f
    → index < g
    → sift_up f heap index value ≡ sift_up g heap index value
unfolding sift_up
sift_up-fuel zero g heap index value h k = absurd (omega arith)
sift_up-fuel (suc f) zero heap index value h k = absurd (omega arith)
sift_up-fuel (suc f) (suc g) heap index value h k =
    let parent = (index - 1) / 2 in
    let above = get_or heap parent value in
    elim (Bool-cases (index == 0)) [
      | inl root ↦ rw root refl
      | inr inner ↦
          let positive = ==-false index inner in
          rw
            (sift_up-fuel f g (set heap index above) parent value (omega (arith, positive))
              (omega (arith, positive)))
            refl
    ]

-- The second loop needs no more fuel than there are entries from its index on.
pub sift_down-fuel :
    (f g : ℕ) (heap : Heap) (index : ℕ) (value : Expiration)
    → length heap ≤ index + f
    → length heap ≤ index + g
    → index < length heap
    → sift_down f heap index value ≡ sift_down g heap index value
unfolding sift_down
sift_down-fuel zero g heap index value h k l = absurd (omega arith)
sift_down-fuel (suc f) zero heap index value h k l = absurd (omega arith)
sift_down-fuel (suc f) (suc g) heap index value h k l =
    let child = first_child heap index value in
    let below = get_or heap child value in
    elim (Bool-cases (leb (length heap) (index * 2 + 1))) [
      | inl leaf ↦ rw leaf refl
      | inr inner ↦
          let bounds = first_child-bounds heap index value inner in
          let kept = length-set heap index below in
          rw
            (sift_down-fuel f g (set heap index below) child value (omega (arith, kept, bounds))
              (omega (arith, kept, bounds)) (omega (arith, kept, bounds)))
            refl
    ]
