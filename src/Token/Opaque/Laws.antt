-- ===== src/Token/Opaque/Laws.antt =====
-- A token that the opaque format issues is one that it identifies.
use authmodules.Prelude.{
  ℕ, true, Option, none, some, Text, ◌≡◌, refl, ap, ◌∙◌, sym, arith, Bool-cases, inl, inr, ltb,
  length,
}
use authmodules.Contracts.Values.{Time, at, ProtectedValue}
use authmodules.Contracts.Errors.{Reason, Result, ok, err}
use authmodules.Contracts.Auth.{RawSecret, TokenIdentity, TokenIssueResult}
use authmodules.Core.Ports.{Reading}
use authmodules.Token.Opaque.{
  Crypto, IssueInput, OpaqueOptions, hashed, identify, identify_raw, is_date, is_raw_token, issue,
  issue_drawn, issue_raw, snapshot_raw_token, snapshot_revealed, valid_issue_input, with_hash,
}

-- The same text has the same hash under the scheme, whenever it is hashed.
pub record IsDeterministic {W : Type 0} (crypto : Crypto W) (scheme : Text) : Type 0 where
  pub same_hash :
      (raw : RawSecret) (v w : W) → (crypto.hash raw scheme v).0 ≡ (crypto.hash raw scheme w).0

snapshot_revealed_idem :
    (bytes : ℕ) (revealed : Option Text) (raw : RawSecret)
    → snapshot_revealed bytes revealed ≡ some raw
    → snapshot_revealed bytes raw.revealed ≡ some raw
unfolding snapshot_revealed
snapshot_revealed_idem bytes none raw h = absurd (cc)
snapshot_revealed_idem bytes (some value) raw h = elim (Bool-cases (is_raw_token bytes value)) [
  | inl valid ↦
      let e : record { revealed = some value } ≡ raw = ground arith in
      ap (λ (q : RawSecret). snapshot_revealed bytes q.revealed) (sym e) ∙ rw valid refl ∙ ap some e
  | inr invalid ↦ absurd (ground arith)
]

with_hash-ok :
    {A : Type 0} (f : ProtectedValue → A) (r : Result Reason ProtectedValue) {a : A}
    → with_hash f r ≡ ok a
    → (p : ProtectedValue) × (r ≡ ok p) × (f p ≡ a)
with_hash-ok f (ok p) h = (p, refl, cc)
with_hash-ok f (err reason) h = absurd (cc)

refused-ok :
    {A : Type 0} {a : A} {reason : Reason} → ◌≡◌ {A = Result Reason A} (err reason) (ok a) → ⊥
refused-ok h = cc

module _ {W : Type 0} (o : OpaqueOptions) (crypto : Crypto W) where
  -- What was issued: a raw token that is its own snapshot, and its hash.
  Issued : TokenIssueResult → Type 0
  Issued r =
      (snapshot_raw_token o.bytes r.raw ≡ some r.raw)
      × ((v : W) × (hashed o.scheme (crypto.hash r.raw o.scheme v).0 ≡ ok r.token_hash))

  issue_raw-Issued :
      (raw : RawSecret) (found : Option RawSecret) (w : W) {r : TokenIssueResult}
      → snapshot_raw_token o.bytes raw ≡ found
      → (issue_raw o crypto found w).0 ≡ ok r
      → Issued r
  unfolding issue_raw Issued snapshot_raw_token
  issue_raw-Issued raw none w e h = absurd (cc)
  issue_raw-Issued raw (some safe) w {r} e h =
      let (p, hash, built) =
        with_hash-ok (λ p. record { raw = safe; token_hash = p })
          (hashed o.scheme (crypto.hash safe o.scheme w).0) h in
      let same : safe ≡ r.raw = ap (λ q. q.raw) built in
      (
        ap (λ (q : RawSecret). snapshot_revealed o.bytes q.revealed) (sym same)
            ∙ snapshot_revealed_idem o.bytes raw.revealed safe e
            ∙ ap some same,
        (
          w,
          ap (λ q. hashed o.scheme (crypto.hash q o.scheme w).0) (sym same)
              ∙ hash
              ∙ ap (λ (q : TokenIssueResult). ok q.token_hash) built,
        ),
      )

  issue_drawn-Issued :
      (drawn : Reading RawSecret) (w : W) {r : TokenIssueResult}
      → (issue_drawn o crypto drawn w).0 ≡ ok r
      → Issued r
  unfolding issue_drawn
  issue_drawn-Issued Reading.threw w h = absurd (cc)
  issue_drawn-Issued Reading.misshapen w h = absurd (cc)
  issue_drawn-Issued (Reading.read raw) w h =
      issue_raw-Issued raw (snapshot_raw_token o.bytes raw) w refl h

  issue-Issued :
      (input : IssueInput) (w : W) {r : TokenIssueResult}
      → (issue o crypto input w).0 ≡ ok r
      → Issued r
  unfolding issue
  issue-Issued input w h = elim (Bool-cases (valid_issue_input input)) [
    | inl valid ↦
        let (drawn, w') = crypto.random_secret_string o.bytes w in
        issue_drawn-Issued drawn w' (rw valid at h)
    | inr invalid ↦ absurd (refused-ok (rw invalid at h))
  ]

  identify-valid :
      (raw : RawSecret) (tenant : Text) (now : Time) (v : W)
      → ltb 0 (length tenant) ≡ true
      → identify o crypto (record { raw = raw; expected_tenant_id = tenant; now = at now }) v
        ≡ identify_raw o crypto (snapshot_raw_token o.bytes raw) v
  unfolding identify is_date
  identify-valid raw tenant now v named = rw named refl

  pub issue-snapshot :
      (input : IssueInput) (w : W) {r : TokenIssueResult}
      → (issue o crypto input w).0 ≡ ok r
      → snapshot_raw_token o.bytes r.raw ≡ some r.raw
  unfolding Issued
  issue-snapshot input w h = let (safe, rest) = issue-Issued input w h in safe

  -- Where the provider hashes a text always alike: whenever issue has answered a raw token and a hash,
  -- identify, with that raw token, a tenant and a valid time, answers that hash, and nothing else of
  -- the token.
  pub issue-identify :
      (input : IssueInput) (tenant : Text) (now : Time) (w v : W) {r : TokenIssueResult}
      → IsDeterministic crypto o.scheme
      → ltb 0 (length tenant) ≡ true
      → (issue o crypto input w).0 ≡ ok r
      → (identify o crypto (record { raw = r.raw; expected_tenant_id = tenant; now = at now }) v).0
        ≡ ok (some (TokenIdentity.by_token_hash r.token_hash none))
  unfolding Issued identify_raw
  issue-identify input tenant now w v {r} deterministic named h =
      let (safe, (u, hash)) = issue-Issued input w h in
      ap (λ q. q.0) (identify-valid r.raw tenant now v named)
      ∙ ap (λ found. (identify_raw o crypto found v).0) safe
      ∙ ap (λ a. with_hash (λ p. some (TokenIdentity.by_token_hash p none)) (hashed o.scheme a))
          (deterministic.same_hash r.raw v u)
      ∙ ap (with_hash (λ p. some (TokenIdentity.by_token_hash p none))) hash
