-- ===== src/Memory/History/Lookups.antt =====
-- What the lookups of the stores find in a well-formed state: packages/testkit/src/stores.
use authmodules.Memory.Identities.{find_by_subject}
use authmodules.Memory.State.Keys.{
  identity_subject_key-injective, join_key-injective, is_safe_text-HasNoNul, HasNoNul,
}
use authmodules.Memory.State.{
  identity_subject_key, token_key_discrete, identity_key, session_key, Cell, token_hash_key,
  TokenHashKey, MemoryState,
}
use authmodules.Memory.Steps.{subject_of, hash_of}
use authmodules.Memory.Identities
use mathlib.Core.Path.{subst}
use authmodules.Prelude.{
  List, inr, ap, ◌∙◌, sym, inl, true, ◌∷◌, some-eq-some, none-ne-some, Option-cases, ℕ, ◌≡◌, refl,
  Option, none, some, Text, text_discrete, arith,
}
use authmodules.Memory.Sessions
use authmodules.Memory.Sessions.{find_by_token_hash}
use authmodules.Contracts.Errors.{ok, store_failure, StoreFailure, err, Result, Reason}
use authmodules.JsMap.{get}
use authmodules.Memory.RecordValidation.{is_identity_record, is_session_record}
use authmodules.Contracts.Records.{IdentityRecord, SessionRecord}
use authmodules.Memory.Action.{content, truthy}
use authmodules.Contracts.Values.{is_safe_text, is_identifier, ProtectedValue}
use authmodules.Memory.WellFormed.{IsWellFormed}

-- A list key holds the tenant, the scheme and the verifier.
token_hash_key-parts :
    (t u : Text) (p q : ProtectedValue) (h : TokenHashKey)
    → token_hash_key t p ≡ some h
    → token_hash_key u q ≡ some h
    → (t ≡ u) × (p.scheme ≡ q.scheme) × (p.verifier ≡ q.verifier)
unfolding token_hash_key
token_hash_key-parts t u p q h a b = ground arith

is_identifier-HasNoNul : (t : Text) → is_identifier t ≡ true → HasNoNul t
is_identifier-HasNoNul t h = is_safe_text-HasNoNul t 512 true h

truthy_identifier : (t : Text) → is_identifier t ≡ true → truthy (some t) ≡ some t
unfolding is_safe_text
truthy_identifier List.[] h = ground arith
truthy_identifier (c ∷ t) h = refl

truthy-some : (o : Option Text) (t : Text) → truthy o ≡ some t → o ≡ some t
truthy-some none t h = cc
truthy-some (some List.[]) t h = cc
truthy-some (some (c ∷ u)) t h = h

content-some :
    {A : Type 0} (o : Option (Cell A)) (r : A)
    → content o ≡ some r
    → (c : Cell A) × (o ≡ some c) × (c.value ≡ r)
content-some none r h = absurd (none-ne-some h)
content-some (some c) r h = (c, refl, some-eq-some h)

session-parts :
    (r : SessionRecord)
    → is_session_record r ≡ true
    → HasNoNul r.tenant_id
      × HasNoNul r.session_id
      × (truthy (some r.session_id) ≡ some r.session_id)
unfolding is_session_record
session-parts r h = (
  is_identifier-HasNoNul r.tenant_id (ground arith),
  is_identifier-HasNoNul r.session_id (ground arith),
  truthy_identifier r.session_id (ground arith),
)

identity-parts :
    (r : IdentityRecord)
    → is_identity_record r ≡ true
    → HasNoNul r.tenant_id
      × HasNoNul r.identity_id
      × HasNoNul r.method_id
      × HasNoNul r.subject
      × (truthy (some r.identity_id) ≡ some r.identity_id)
unfolding is_identity_record
identity-parts r h = (
  is_identifier-HasNoNul r.tenant_id (ground arith),
  is_identifier-HasNoNul r.identity_id (ground arith),
  is_identifier-HasNoNul r.method_id (ground arith),
  is_safe_text-HasNoNul r.subject 2048 true (ground arith),
  truthy_identifier r.identity_id (ground arith),
)

-- The tenant of a query, and the scheme and the verifier of its hash.
abbrev pub MatchesHash : Text → ProtectedValue → SessionRecord → Type 0
MatchesHash t p r =
    (r.tenant_id ≡ t) × (r.token_hash.scheme ≡ p.scheme) × (r.token_hash.verifier ≡ p.verifier)

abbrev pub MatchesSubject : Text → Text → Text → IdentityRecord → Type 0
MatchesSubject t m u r = (r.tenant_id ≡ t) × (r.method_id ≡ m) × (r.subject ≡ u)

ok-eq-ok : {A : Type 0} {x y : A} → Path (Result StoreFailure A) (ok x) (ok y) → x ≡ y
ok-eq-ok h = ground arith

-- The record under a joined key is the record of that tenant with that id.
module _ (s : MemoryState) (w : IsWellFormed s) where
  session_at :
      (t id : Text) (c : Cell SessionRecord)
      → get text_discrete (session_key t id) s.sessions ≡ some c
      → (c.value.tenant_id ≡ t) × (c.value.session_id ≡ id)
  session_at t id c h =
      let (key, valid) = w.sessions.at _ c h in
      let (a, b, _) = session-parts c.value valid in join_key-injective _ _ t id a b key

  identity_at :
      (t id : Text) (c : Cell IdentityRecord)
      → get text_discrete (identity_key t id) s.identities ≡ some c
      → (c.value.tenant_id ≡ t) × (c.value.identity_id ≡ id)
  identity_at t id c h =
      let (key, valid) = w.identities.at _ c h in
      let (a, b, _, _, _) = identity-parts c.value valid in join_key-injective _ _ t id a b key

  session_under : Text → Option Text → Option SessionRecord
  session_under t none = none
  session_under t (some id) = content (get text_discrete (session_key t id) s.sessions)

  find_named_lem :
      (t : Text) (o : Option Text) (ref : ℕ)
      → (Sessions.find_named t o ref s).0 ≡ ok (session_under t o)
  unfolding session_under Sessions.find_named
  find_named_lem t none ref = refl
  find_named_lem t (some id) ref = refl

  session_of_hash : Text → Option TokenHashKey → Result StoreFailure (Option SessionRecord)
  unfolding session_under
  session_of_hash t none = err (store_failure Reason.store_unavailable)
  session_of_hash t (some k) =
      ok (session_under t (truthy (get token_key_discrete k s.sessions_by_token_hash)))

  find_by_token_hash_lem :
      (t : Text) (p : ProtectedValue) (ref : ℕ)
      → (find_by_token_hash t p ref s).0 ≡ session_of_hash t (token_hash_key t p)
  unfolding session_of_hash find_by_token_hash
  find_by_token_hash_lem t p ref = elim (Option-cases (token_hash_key t p)) [
    | inl e ↦ rw e refl
    | inr (k, e) ↦
        rw e (find_named_lem t (truthy (get token_key_discrete k s.sessions_by_token_hash)) ref)
  ]

  session_under-some :
      (t : Text) (o : Option Text) (r : SessionRecord)
      → session_under t o ≡ some r
      → (id : Text) × (c : Cell SessionRecord) × (o ≡ some id)
        × (get text_discrete (session_key t id) s.sessions ≡ some c)
        × (c.value ≡ r)
  unfolding session_under
  session_under-some t none r h = absurd (none-ne-some h)
  session_under-some t (some id) r h =
      let (c, found, e) = content-some _ r h in (id, c, refl, found, e)

  session_of_hash_sound :
      (t : Text) (p : ProtectedValue) (k : TokenHashKey) (r : SessionRecord)
      → token_hash_key t p ≡ some k
      → session_of_hash t (some k) ≡ ok (some r)
      → MatchesHash t p r
        × (content (get text_discrete (session_key t r.session_id) s.sessions) ≡ some r)
  unfolding session_of_hash
  session_of_hash_sound t p k r e h =
      let (id, c, o, found, same) = session_under-some t _ r (ground arith) in
      let (l, b, there, hashed, named) = w.hashes.backward k id (truthy-some _ id o) in
      let (tenant, scheme, verifier) =
        token_hash_key-parts b.value.tenant_id t b.value.token_hash p k hashed e in
      let (key, _) = w.sessions.at l b there in
      let at_key : session_key t id ≡ l =
        ap (λ u. session_key u id) (sym tenant)
        ∙ ap (session_key b.value.tenant_id) (sym named)
        ∙ key in
      let one : some c ≡ some b =
        sym found ∙ ap (λ j. get text_discrete j s.sessions) at_key ∙ there in
      let whole : b.value ≡ r = ap (λ x. x.value) (sym (some-eq-some one)) ∙ same in
      let parts : MatchesHash t p r = subst (MatchesHash t p) whole (tenant, scheme, verifier) in
      let id_of : r.session_id ≡ id = ap (λ x. x.session_id) (sym whole) ∙ named in
      (
        parts,
        ap (λ j. content (get text_discrete (session_key t j) s.sessions)) id_of
            ∙ ap content found
            ∙ ap some same,
      )

  session_of_hash_complete :
      (t : Text) (p : ProtectedValue) (l : Text) (k : TokenHashKey) (c : Cell SessionRecord)
      → token_hash_key t p ≡ some k
      → get text_discrete l s.sessions ≡ some c
      → hash_of c.value ≡ some k
      → session_of_hash t (some k) ≡ ok (some c.value)
  unfolding session_of_hash session_under
  session_of_hash_complete t p l k c e found hashed =
      let index = w.hashes.forward l c k found hashed in
      let (key, valid) = w.sessions.at l c found in
      let (_, _, named) = session-parts c.value valid in
      let (tenant, _, _) =
        token_hash_key-parts c.value.tenant_id t c.value.token_hash p k hashed e in
      let at_key : session_key t c.value.session_id ≡ l =
        ap (λ u. session_key u c.value.session_id) (sym tenant) ∙ key in
      ap (λ o. ok (session_under t o)) (ap truthy index ∙ named)
      ∙ ap (λ j. ok (content (get text_discrete j s.sessions))) at_key
      ∙ ap (λ o. ok (content o)) found

  -- subjects
  identity_under : Text → Option Text → Option IdentityRecord
  identity_under t none = none
  identity_under t (some id) = content (get text_discrete (identity_key t id) s.identities)

  find_identity_lem :
      (t : Text) (o : Option Text) (ref : ℕ)
      → (Identities.find_named t o ref s).0 ≡ ok (identity_under t o)
  unfolding identity_under Identities.find_named
  find_identity_lem t none ref = refl
  find_identity_lem t (some id) ref = refl

  identity_under-some :
      (t : Text) (o : Option Text) (r : IdentityRecord)
      → identity_under t o ≡ some r
      → (id : Text) × (c : Cell IdentityRecord) × (o ≡ some id)
        × (get text_discrete (identity_key t id) s.identities ≡ some c)
        × (c.value ≡ r)
  unfolding identity_under
  identity_under-some t none r h = absurd (none-ne-some h)
  identity_under-some t (some id) r h =
      let (c, found, e) = content-some _ r h in (id, c, refl, found, e)

  identity_of_subject_sound :
      (t m u : Text) (r : IdentityRecord)
      → identity_under t
          (truthy (get text_discrete (identity_subject_key t m u) s.identity_subjects))
        ≡ some r
      → MatchesSubject t m u r
        × (content (get text_discrete (identity_key t r.identity_id) s.identities) ≡ some r)
  identity_of_subject_sound t m u r h =
      let (id, c, o, found, same) = identity_under-some t _ r h in
      let (l, b, there, subject, named) =
        w.subjects.backward (identity_subject_key t m u) id (truthy-some _ id o) in
      let (key, valid) = w.identities.at l b there in
      let (a, _, x, y, _) = identity-parts b.value valid in
      let (tenant, method, text) =
        identity_subject_key-injective _ _ _ t m u a x y (some-eq-some subject) in
      let at_key : identity_key t id ≡ l =
        ap (λ u. identity_key u id) (sym tenant)
        ∙ ap (identity_key b.value.tenant_id) (sym named)
        ∙ key in
      let one : some c ≡ some b =
        sym found ∙ ap (λ j. get text_discrete j s.identities) at_key ∙ there in
      let whole : b.value ≡ r = ap (λ x. x.value) (sym (some-eq-some one)) ∙ same in
      let parts : MatchesSubject t m u r =
        subst (MatchesSubject t m u) whole (tenant, method, text) in
      let id_of : r.identity_id ≡ id = ap (λ x. x.identity_id) (sym whole) ∙ named in
      (
        parts,
        ap (λ j. content (get text_discrete (identity_key t j) s.identities)) id_of
            ∙ ap content found
            ∙ ap some same,
      )

  identity_of_subject_complete :
      (t m u l : Text) (c : Cell IdentityRecord)
      → get text_discrete l s.identities ≡ some c
      → MatchesSubject t m u c.value
      → identity_under t
          (truthy (get text_discrete (identity_subject_key t m u) s.identity_subjects))
        ≡ some c.value
  unfolding identity_under
  identity_of_subject_complete t m u l c found (tenant, method, text) =
      let same : subject_of c.value ≡ identity_subject_key t m u = rw (tenant, method, text) refl in
      let index = w.subjects.forward l c (identity_subject_key t m u) found (ap some same) in
      let (key, valid) = w.identities.at l c found in
      let (_, _, _, _, named) = identity-parts c.value valid in
      let at_key : identity_key t c.value.identity_id ≡ l =
        ap (λ u. identity_key u c.value.identity_id) (sym tenant) ∙ key in
      ap (identity_under t) (ap truthy index ∙ named)
      ∙ ap (λ j. content (get text_discrete j s.identities)) at_key
      ∙ ap content found

-- In a well-formed state, a session that `findByTokenHash` returns is stored under its id in the
-- tenant of the query, and has the scheme and the verifier of the query.
pub find_by_token_hash_sound :
    (s : MemoryState) (t : Text) (p : ProtectedValue) (ref : ℕ) (r : SessionRecord)
    → IsWellFormed s
    → (find_by_token_hash t p ref s).0 ≡ ok (some r)
    → MatchesHash t p r × ((Sessions.find_by_id t r.session_id ref s).0 ≡ ok (some r))
unfolding Sessions.find_by_id session_of_hash
find_by_token_hash_sound s t p ref r w h = elim (Option-cases (token_hash_key t p)) [
  | inl e ↦ absurd (ground (arith, find_by_token_hash_lem s w t p ref))
  | inr (k, e) ↦
      let (parts, found) =
        session_of_hash_sound s w t p k r e
          (ap (session_of_hash s w t) (sym e) ∙ sym (find_by_token_hash_lem s w t p ref) ∙ h) in
      (parts, ap ok found)
]

-- In a well-formed state, `findByTokenHash` returns every stored session whose token hash has the
-- key of the query: no session is out of reach.
pub find_by_token_hash_complete :
    (s : MemoryState) (t : Text) (p : ProtectedValue) (ref : ℕ) (l : Text) (c : Cell SessionRecord)
    (k : TokenHashKey)
    → IsWellFormed s
    → get text_discrete l s.sessions ≡ some c
    → hash_of c.value ≡ some k
    → token_hash_key t p ≡ some k
    → (find_by_token_hash t p ref s).0 ≡ ok (some c.value)
find_by_token_hash_complete s t p ref l c k w found hashed e =
    find_by_token_hash_lem s w t p ref
    ∙ ap (session_of_hash s w t) e
    ∙ session_of_hash_complete s w t p l k c e found hashed

-- In a well-formed state, an identity that `findBySubject` returns is stored under its id, and has
-- the tenant, the method and the subject of the query.
pub find_by_subject_sound :
    (s : MemoryState) (t m u : Text) (ref : ℕ) (r : IdentityRecord)
    → IsWellFormed s
    → (find_by_subject t m u ref s).0 ≡ ok (some r)
    → MatchesSubject t m u r × ((Identities.find_by_id t r.identity_id ref s).0 ≡ ok (some r))
unfolding Identities.find_by_id find_by_subject
find_by_subject_sound s t m u ref r w h =
    let o = truthy (get text_discrete (identity_subject_key t m u) s.identity_subjects) in
    let e : ok (identity_under s w t o) ≡ ok (some r) = sym (find_identity_lem s w t o ref) ∙ h in
    let (parts, found) = identity_of_subject_sound s w t m u r (ok-eq-ok e) in (parts, ap ok found)

-- In a well-formed state, `findBySubject` returns every stored identity of that tenant, method and
-- subject.
pub find_by_subject_complete :
    (s : MemoryState) (t m u : Text) (ref : ℕ) (l : Text) (c : Cell IdentityRecord)
    → IsWellFormed s
    → get text_discrete l s.identities ≡ some c
    → MatchesSubject t m u c.value
    → (find_by_subject t m u ref s).0 ≡ ok (some c.value)
unfolding find_by_subject
find_by_subject_complete s t m u ref l c w found parts =
    find_identity_lem s w t _ ref ∙ ap ok (identity_of_subject_complete s w t m u l c found parts)
