-- ===== src/Core/Views.antt =====
-- packages/core/src/views/records.ts: what a caller sees of a record. The copies of dates and of
-- public data are those values.
use authmodules.Prelude.{Option, Text, ◌≡◌, refl}
use authmodules.Contracts.Values.{Time}
use authmodules.Contracts.Json.{Json}
use authmodules.Contracts.Records.{
  AccountRecord, AccountStatus, IdentityRecord, CredentialRecord, CredentialStatus, SessionRecord,
  SessionStatus,
}

pub record AccountView : Type 0 where
  pub tenant_id : Text
  pub account_id : Text
  pub status : AccountStatus
  pub public_data : Option Json

pub record IdentityView : Type 0 where
  pub tenant_id : Text
  pub identity_id : Text
  pub account_id : Text
  pub method_id : Text
  pub method_kind : Text
  pub subject : Text
  pub subject_kind : Text
  pub display : Option Text
  pub verified_at : Option Time

pub record CredentialView : Type 0 where
  pub tenant_id : Text
  pub credential_id : Text
  pub account_id : Text
  pub identity_id : Text
  pub method_id : Text
  pub method_kind : Text
  pub status : CredentialStatus

pub record SessionView : Type 0 where
  pub tenant_id : Text
  pub session_id : Text
  pub account_id : Text
  pub status : SessionStatus
  pub issued_at : Time
  pub expires_at : Time
  pub revoked_at : Option Time

pub to_account_view : AccountRecord → AccountView
to_account_view r = record {
  tenant_id = r.tenant_id;
  account_id = r.account_id;
  status = r.status;
  public_data = r.public_data;
}

pub to_identity_view : IdentityRecord → IdentityView
to_identity_view r = record {
  tenant_id = r.tenant_id;
  identity_id = r.identity_id;
  account_id = r.account_id;
  method_id = r.method_id;
  method_kind = r.method_kind;
  subject = r.subject;
  subject_kind = r.subject_kind;
  display = r.display;
  verified_at = r.verified_at;
}

pub to_credential_view : CredentialRecord → CredentialView
to_credential_view r = record {
  tenant_id = r.tenant_id;
  credential_id = r.credential_id;
  account_id = r.account_id;
  identity_id = r.identity_id;
  method_id = r.method_id;
  method_kind = r.method_kind;
  status = r.status;
}

pub to_session_view : SessionRecord → SessionView
to_session_view r = record {
  tenant_id = r.tenant_id;
  session_id = r.session_id;
  account_id = r.account_id;
  status = r.status;
  issued_at = r.issued_at;
  expires_at = r.expires_at;
  revoked_at = r.revoked_at;
}

-- The fields of a session that its view shows.
pub to_session_view-fields :
    (r : SessionRecord)
    → ((to_session_view r).tenant_id ≡ r.tenant_id)
      × ((to_session_view r).account_id ≡ r.account_id)
      × ((to_session_view r).status ≡ r.status)
      × ((to_session_view r).issued_at ≡ r.issued_at)
      × ((to_session_view r).expires_at ≡ r.expires_at)
unfolding to_session_view
to_session_view-fields r = (refl, refl, refl, refl, refl)
