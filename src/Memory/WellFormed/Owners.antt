-- ===== src/Memory/WellFormed/Owners.antt =====
-- The owners of the records are there after each change.
use authmodules.Prelude.{ℕ, ◌≡◌, true, none, some, Text, text_discrete, arith}
use authmodules.JsMap.{Map, get, has, set}
use authmodules.JsMap.Laws.{get-set, has-set}
use authmodules.Contracts.Records.{AccountRecord, IdentityRecord, CredentialRecord, SessionRecord}
use authmodules.Memory.State.{Cell, account_key, identity_key}
use authmodules.Memory.Action.{cell}
use authmodules.Memory.Credentials.{fits_identity}
use authmodules.Memory.Moves.{IdentityMove, CredentialMove, SessionMove}
use authmodules.Memory.Sessions
use authmodules.Memory.WellFormed.Defs.{Owners}

module _ {a : Map Text (Cell AccountRecord)} {i : Map Text (Cell IdentityRecord)}
    {c : Map Text (Cell CredentialRecord)} {s : Map Text (Cell SessionRecord)} where
  -- An account put in, or replaced.
  pub Owners-account :
      (k : Text) (ref : ℕ) (r : AccountRecord)
      → Owners a i c s
      → Owners (set text_discrete k (cell ref r) a) i c s
  Owners-account k ref r o = record {
    of_identity = λ l d h. ground (
      arith,
      o.of_identity l d h,
      has-set text_discrete k (account_key d.value.tenant_id d.value.account_id) (cell ref r) a,
    );
    of_credential = λ l d h. ground (
      arith,
      o.of_credential l d h,
      has-set text_discrete k (account_key d.value.tenant_id d.value.account_id) (cell ref r) a,
    );
    of_session = λ l d h. ground (
      arith,
      o.of_session l d h,
      has-set text_discrete k (account_key d.value.tenant_id d.value.account_id) (cell ref r) a,
    );
  }

  -- A new identity of a stored account.
  pub Owners-identity :
      (k : Text) (ref : ℕ) (r : IdentityRecord)
      → has text_discrete (account_key r.tenant_id r.account_id) a ≡ true
      → get text_discrete k i ≡ none
      → Owners a i c s
      → Owners a (set text_discrete k (cell ref r) i) c s
  unfolding fits_identity
  Owners-identity k ref r owner new o = record {
    of_identity =
        λ l d h. ground (arith, o.of_identity l d, get-set text_discrete k l (cell ref r) i);
    of_credential = λ l d h. ground (
      arith,
      o.of_credential l d h,
      get-set text_discrete k (identity_key d.value.tenant_id d.value.identity_id) (cell ref r) i,
    );
    of_session = o.of_session;
  }

  -- An identity replaced along its moves.
  pub Owners-IdentityMove :
      (k : Text) (ref : ℕ) (b : Cell IdentityRecord) (r : IdentityRecord)
      → get text_discrete k i ≡ some b
      → IdentityMove b.value r
      → Owners a i c s
      → Owners a (set text_discrete k (cell ref r) i) c s
  unfolding fits_identity
  Owners-IdentityMove k ref b _ there (IdentityMove.verify verified now) o =
      let v = record (b.value) { verified_at = some verified; updated_at = now } in
      record {
        of_identity = λ l d h. ground (
          arith,
          o.of_identity l d,
          o.of_identity k b there,
          get-set text_discrete k l (cell ref v) i,
        );
        of_credential = λ l d h. ground (
          arith,
          o.of_credential l d h,
          get-set text_discrete k (identity_key d.value.tenant_id d.value.identity_id) (cell ref v)
              i,
        );
        of_session = o.of_session;
      }

  pub Owners-credential :
      (k : Text) (ref : ℕ) (r : CredentialRecord)
      → has text_discrete (account_key r.tenant_id r.account_id) a ≡ true
      → fits_identity r (get text_discrete (identity_key r.tenant_id r.identity_id) i) ≡ true
      → Owners a i c s
      → Owners a i (set text_discrete k (cell ref r) c) s
  Owners-credential k ref r owner fits o = record {
    of_identity = o.of_identity;
    of_credential =
        λ l d h. ground (arith, o.of_credential l d, get-set text_discrete k l (cell ref r) c);
    of_session = o.of_session;
  }

  pub Owners-session :
      (k : Text) (ref : ℕ) (r : SessionRecord)
      → has text_discrete (account_key r.tenant_id r.account_id) a ≡ true
      → Owners a i c s
      → Owners a i c (set text_discrete k (cell ref r) s)
  Owners-session k ref r owner o = record {
    of_identity = o.of_identity;
    of_credential = o.of_credential;
    of_session =
        λ l d h. ground (arith, o.of_session l d, get-set text_discrete k l (cell ref r) s);
  }

  pub Owners-CredentialMove :
      (k : Text) (ref : ℕ) (b : Cell CredentialRecord) (r : CredentialRecord)
      → get text_discrete k c ≡ some b
      → CredentialMove b.value r
      → Owners a i c s
      → Owners a i (set text_discrete k (cell ref r) c) s
  unfolding fits_identity
  Owners-CredentialMove k ref b _ there (CredentialMove.rewrite m now valid) o =
      let (owner, fits) = o.of_credential k b there in Owners-credential k ref _ owner fits o
  Owners-CredentialMove k ref b _ there (CredentialMove.restatus status now may) o =
      let (owner, fits) = o.of_credential k b there in Owners-credential k ref _ owner fits o

  pub Owners-session_move :
      (k : Text) (ref : ℕ) (b : Cell SessionRecord) (r : SessionRecord)
      → get text_discrete k s ≡ some b
      → SessionMove b.value r
      → Owners a i c s
      → Owners a i c (set text_discrete k (cell ref r) s)
  unfolding Sessions.expire
  Owners-session_move k ref b _ there (SessionMove.revoke now live) o =
      Owners-session k ref _ (o.of_session k b there) o
  Owners-session_move k ref b _ there (SessionMove.expire now live over) o =
      Owners-session k ref _ (o.of_session k b there) o
