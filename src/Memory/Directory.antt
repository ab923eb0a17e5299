-- ===== src/Memory/Directory.antt =====
-- A map of records with its index: each record stands under its own key, and the index leads from
-- each lookup value to the one record that has it.
use authmodules.Prelude.{◌≡◌, Bool, true, Option, none, some, [], Text, text_discrete, arith, ℕ}
use authmodules.JsMap.{Map, get, set}
use authmodules.JsMap.Laws.{get-set, get-set_self}
use authmodules.Memory.State.{Cell}
use authmodules.Memory.Action.{cell}

module _ {A : Type 0} (key_of : A → Text) (valid : A → Bool) where
  -- Every record stands under its key, and is valid.
  pub record IsKeyed (main : Map Text (Cell A)) : Type 0 where
    pub at :
        (k : Text) (c : Cell A)
        → get text_discrete k main ≡ some c
        → (key_of c.value ≡ k) × (valid c.value ≡ true)

  pub IsKeyed-empty : IsKeyed []
  unfolding get
  IsKeyed-empty = record { at = λ k c h. cc }

  pub IsKeyed-set :
      {main : Map Text (Cell A)} (k : Text) (ref : ℕ) (v : A)
      → key_of v ≡ k
      → valid v ≡ true
      → IsKeyed main
      → IsKeyed (set text_discrete k (cell ref v) main)
  IsKeyed-set {main} k ref v e p d = record {
    at = λ j c h. ground (arith, get-set text_discrete k j (cell ref v) main, d.at j c);
  }

module _ {A J : Type 0} (dec : Discrete J) (id_of : A → Text) (sub_of : A → Option J) where
  pub record IsIndexed (main : Map Text (Cell A)) (index : Map J Text) : Type 0 where
    pub forward :
        (k : Text) (c : Cell A) (j : J)
        → get text_discrete k main ≡ some c
        → sub_of c.value ≡ some j
        → get dec j index ≡ some (id_of c.value)
    pub backward :
        (j : J) (id : Text)
        → get dec j index ≡ some id
        → (k : Text) × (c : Cell A) × (get text_discrete k main ≡ some c)
          × (sub_of c.value ≡ some j)
          × (id_of c.value ≡ id)

  pub IsIndexed-empty : IsIndexed [] []
  unfolding get
  IsIndexed-empty = record { forward = λ k c j h. cc; backward = λ j id h. cc }

  -- A new record under a new key and a new lookup value.
  pub IsIndexed-create :
      {main : Map Text (Cell A)} {index : Map J Text} (k : Text) (ref : ℕ) (v : A) (j : J)
      → get text_discrete k main ≡ none
      → get dec j index ≡ none
      → sub_of v ≡ some j
      → IsIndexed main index
      → IsIndexed (set text_discrete k (cell ref v) main) (set dec j (id_of v) index)
  IsIndexed-create {main} {index} k ref v j absent unused e d = record {
    forward = λ l c i h s. ground (
      arith,
      get-set text_discrete k l (cell ref v) main,
      get-set dec j i (id_of v) index,
      d.forward l c i,
    );
    backward = λ i id h. elim (dec j i) [
      | yes p ↦ (
        k,
        cell ref v,
        get-set_self text_discrete k _ main,
        ground arith,
        ground (arith, get-set dec j i (id_of v) index),
      )
      | no p ↦
          let (l, c, found, s, same) =
            d.backward i id (ground (arith, get-set dec j i (id_of v) index)) in
          (l, c, ground (arith, get-set text_discrete k l (cell ref v) main), s, same)
    ];
  }

  -- A record replaced by one with the same lookup value and id.
  pub IsIndexed-update :
      {main : Map Text (Cell A)} {index : Map J Text} (k : Text) (ref : ℕ) (v : A) (c : Cell A)
      → get text_discrete k main ≡ some c
      → sub_of v ≡ sub_of c.value
      → id_of v ≡ id_of c.value
      → IsIndexed main index
      → IsIndexed (set text_discrete k (cell ref v) main) index
  IsIndexed-update {main} {index} k ref v c there e f d = record {
    forward = λ l b i h s. ground (
      arith,
      get-set text_discrete k l (cell ref v) main,
      d.forward l b i,
      d.forward k c i there,
    );
    backward = λ i id h.
        let (l, b, found, s, same) = d.backward i id h in
        elim (text_discrete k l) [
          | yes p ↦ (k, cell ref v, get-set_self text_discrete k _ main, ground arith, ground arith)
          | no p ↦ (l, b, ground (arith, get-set text_discrete k l (cell ref v) main), s, same)
        ];
  }

  -- Two records with one lookup value have one id.
  pub IsIndexed-unique :
      {main : Map Text (Cell A)} {index : Map J Text} (k l : Text) (b c : Cell A) (j : J)
      → IsIndexed main index
      → get text_discrete k main ≡ some b
      → get text_discrete l main ≡ some c
      → sub_of b.value ≡ some j
      → sub_of c.value ≡ some j
      → id_of b.value ≡ id_of c.value
  IsIndexed-unique k l b c j d x y s t = ground (arith, d.forward k b j x s, d.forward l c j y t)
