-- ===== src/Memory/State/Keys.antt =====
-- The joined keys of state.ts tell their parts apart: no part of a stored key holds a NUL.
use authmodules.Prelude.{
  ℕ, suc, ◌+◌, ◌≡◌, refl, Bool, true, not, [], ◌∷◌, Text, arith, every, ◌==◌, if◌then◌else◌, ap,
}
use authmodules.Contracts.Values.{is_control, is_safe_text}
use authmodules.Memory.State.{join_key, identity_subject_key}

abbrev nuls : Text → ℕ
nuls [] = 0
nuls (c ∷ t) = if c == 0 then suc (nuls t) else nuls t

abbrev pub HasNoNul : Text → Type 0
HasNoNul t = nuls t ≡ 0

no_control-HasNoNul : (t : Text) → every (λ c. not (is_control c)) t ≡ true → HasNoNul t
unfolding is_control
no_control-HasNoNul [] h = refl
no_control-HasNoNul (c ∷ t) h = ground (arith, no_control-HasNoNul t)

pub is_safe_text-HasNoNul : (t : Text) (n : ℕ) (b : Bool) → is_safe_text t n b ≡ true → HasNoNul t
unfolding is_safe_text
is_safe_text-HasNoNul t n b h = no_control-HasNoNul t (ground arith)

nuls-join_key : (a b : Text) → nuls (join_key a b) ≡ suc (nuls a + nuls b)
unfolding join_key
nuls-join_key [] b = omega arith
nuls-join_key (c ∷ a) b = ground (arith, nuls-join_key a b)

join_key-split :
    (a b c d : Text) → HasNoNul a → HasNoNul c → join_key a b ≡ join_key c d → (a ≡ c) × (b ≡ d)
unfolding join_key
join_key-split [] b [] d ha hc e = ground arith
join_key-split [] b (y ∷ c) d ha hc e = ground arith
join_key-split (x ∷ a) b [] d ha hc e = ground arith
join_key-split (x ∷ a) b (y ∷ c) d ha hc e =
    ground (arith, join_key-split a b c d (ground arith) (ground arith) (ground arith))

-- A joined key of parts without NUL equals a joined key only of the same parts.
pub join_key-injective :
    (a b c d : Text) → HasNoNul a → HasNoNul b → join_key a b ≡ join_key c d → (a ≡ c) × (b ≡ d)
join_key-injective a b c d ha hb e =
    join_key-split a b c d ha (omega (arith, nuls-join_key a b, nuls-join_key c d, ap nuls e)) e

-- So does a key of three parts.
pub identity_subject_key-injective :
    (a b c d e f : Text)
    → HasNoNul a
    → HasNoNul b
    → HasNoNul c
    → identity_subject_key a b c ≡ identity_subject_key d e f
    → (a ≡ d) × (b ≡ e) × (c ≡ f)
identity_subject_key-injective a b c d e f ha hb hc h =
    let count : nuls d + nuls e + nuls f ≡ 0 = omega (
      arith,
      nuls-join_key a (join_key b c),
      nuls-join_key b c,
      nuls-join_key d (join_key e f),
      nuls-join_key e f,
      ap nuls h,
    ) in
    let (first, rest) = join_key-split a (join_key b c) d (join_key e f) ha (omega arith) h in
    let (second, third) = join_key-split b c e f hb (omega arith) rest in (first, second, third)
