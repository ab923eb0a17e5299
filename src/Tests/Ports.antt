-- ===== src/Tests/Ports.antt =====
-- Ports on a clock that goes forward with each reading, and the operations of the core over them.
use authmodules.Core.Validation.{is_auth_context}
use authmodules.Contracts.Auth.{
  AuthOperationName, Attempt, AuthContext, AuthProof, IdentityClaim, TokenIdentity, RawSecret,
}
use authmodules.Contracts.Errors.{Reason}
use authmodules.Core.Ports.{GuardDecision, AuthGuard, Ports, Stored, Answer, Reading}
use authmodules.Core.Attempts.Laws.{accept_start-Reported, Reported}
use authmodules.Core.Attempts.{guarded_attempt, accept_start}
use authmodules.Core.Accounts.Laws.{resolve_account-IsResolved, IsResolved}
use authmodules.Core.Accounts.{resolve_account, account_record, ResolvedAccount}
use authmodules.Contracts.Records.{CreateSessionRequest, Actor, AccountMode}
use authmodules.Core.Sessions.Create.{
  session_record, CreatedSession, create_session, complete_session, store_session, issue_token,
  resolve_session_ttl,
}
use authmodules.Core.Sessions.Revoke.{revoke_session}
use authmodules.Core.Sessions.Concealed.{MayRevoke, revoke_session-conceals, without_session}
use authmodules.Prelude.{ℕ, ◌+◌, ◌≤◌, ◌<◌, true, none, some, [], codes, ◌≡◌, refl, inl, inr}
use authmodules.Contracts.Values.{Time, at}
use authmodules.Core.Views.{to_session_view}
use authmodules.Core.Run.{done}
use authmodules.Core.Policy.{policy, now_or_fail, generate_core_id}
use authmodules.Core.Sessions.Defs.{get_session, GetSessionInput, RevokeSessionInput}
use authmodules.Core.Sessions.Found.{get_session-IsLive, IsLive}
use authmodules.Core.Sessions.Issued.{create_session-IsIssued, IsIssued, resolve_session_ttl-bounds}
use authmodules.Tests.Data.{tenant, account_id, session_id, token, an_account, a_session, password}

abbrev pub raw : RawSecret
raw = record { revealed = some (codes "raw") }

abbrev pub ports : Ports ℕ
ports = record {
  clock = λ w. (Reading.read (at w), w + 1);
  generate = λ kind tenant now w. (Reading.read (codes "id"), w);
  session = record { default_ttl_seconds = 60; max_ttl_seconds = some 3600 };
  identify =
      λ secret tenant now w. (Answer.answered (some (TokenIdentity.by_token_hash token none)), w);
  issue = λ input w. (Answer.answered (record { raw = raw; token_hash = token }), w);
  policy = none;
  guard = none;
  event_sink = some (λ event w. w + 1000);
  find_account = λ tenant id tx w. (Stored.answered (some an_account), w);
  create_account = λ r tx w. (Stored.answered r, w);
  find_by_subject = λ tenant method subject tx w. (Stored.answered none, w);
  create_identity = λ r tx w. (Stored.answered r, w);
  find_session = λ tenant id w. (Stored.answered (some a_session), w);
  find_by_token_hash = λ tenant hash w. (Stored.answered (some a_session), w);
  create_session = λ r tx w. (Stored.answered r, w);
  revoke = λ tenant id now w. (Stored.answered none, w);
}

abbrev pub context : AuthContext
context = record {
  tenant_id = tenant;
  request_id = none;
  actor = some (Actor.account (codes "other"));
  ip = none;
  user_agent = none;
  locale = none;
  policy_input = none;
  metadata = none;
}

abbrev claim : IdentityClaim
claim = record {
  method_id = codes "password.basic";
  method_kind = password;
  subject = codes "u";
  subject_kind = codes "k";
  display = none;
  verified_at = none;
}

abbrev pub proof : AuthProof
proof = record {
  proof_method = record { method_id = codes "password.basic"; method_kind = password };
  primary_identity = claim;
  additional_identities = none;
  evidence = [];
  assurance = none;
  auth_time = 5;
  expires_at = none;
  claims = none;
}

abbrev get_input : GetSessionInput
get_input = record { context = context; token = some raw }

got : get_session ports get_input 5 ≡ (done (some (to_session_view a_session)), 7)
unfolding get_session is_auth_context authmodules.Contracts.Values.is_safe_text now_or_fail
    authmodules.Core.Validation.is_token_identify_result
    authmodules.Core.Validation.snapshot_protected_value
    authmodules.Core.Validation.is_session_record authmodules.Prelude.text_discrete
    authmodules.Core.Sessions.Defs.find_account_of authmodules.Core.Validation.is_account_record
got = refl

get_session-IsLive_example :
    (is_auth_context context ≡ true)
    × ((r : RawSecret) × (some raw ≡ some r) × IsLive ports context r (to_session_view a_session) 7)
get_session-IsLive_example = get_session-IsLive ports get_input 5 got

abbrev revoke_input : RevokeSessionInput
revoke_input = record { context = context; session_id = session_id }

revoke_session-conceals_example :
    revoke_session ports revoke_input 5 ≡ revoke_session (without_session ports) revoke_input 5
unfolding MayRevoke
revoke_session-conceals_example =
    revoke_session-conceals ports revoke_input 5
      λ v r found may. elim may [ inl (name, e) ↦ cc | inr e ↦ cc ]

abbrev request : CreateSessionRequest
request = record { ttl_seconds = none }

resolved : resolve_session_ttl ports.session request ≡ some 60
unfolding resolve_session_ttl
resolved = refl

resolve_session_ttl-bounds_example : (0 < 60) × (60 ≤ 3600)
resolve_session_ttl-bounds_example =
    resolve_session_ttl-bounds ports.session request 60 3600 resolved refl

abbrev created : CreatedSession
created = record {
  session = to_session_view (session_record context (codes "id") account_id token 5 60005);
  token = record { raw = raw; issued_at = 5; expires_at = 60005 };
}

created_at_five :
    create_session ports context account_id proof request (at 5) none 5 ≡ (done created, 6)
unfolding create_session authmodules.Contracts.Values.make_date policy generate_core_id
    authmodules.Contracts.Values.is_safe_text issue_token
    authmodules.Core.Validation.is_token_issue_result
    authmodules.Core.Validation.snapshot_raw_secret
    authmodules.Core.Validation.snapshot_protected_value store_session
    authmodules.Core.Validation.is_session_record authmodules.Prelude.text_discrete complete_session
    now_or_fail
created_at_five = refl

create_session-IsIssued_example :
    (now : Time) × (ttl : ℕ) × (at 5 ≡ at now)
    × (resolve_session_ttl ports.session request ≡ some ttl)
    × IsIssued ports context account_id now ttl created 6
create_session-IsIssued_example =
    create_session-IsIssued ports context account_id proof request (at 5) none 5 created_at_five

abbrev resolved_account : ResolvedAccount
resolved_account = record { account = account_record context (codes "id") 5; identity = none }

resolved_new :
    resolve_account ports context AccountMode.create_new_account claim none 5 none 5
    ≡ (done resolved_account, 5)
unfolding resolve_account policy authmodules.Core.Accounts.find_identity_of
    authmodules.Core.Accounts.resolve_for authmodules.Core.Accounts.make_account generate_core_id
    authmodules.Contracts.Values.is_safe_text authmodules.Core.Accounts.store_account
    authmodules.Core.Validation.is_account_record authmodules.Prelude.text_discrete
    authmodules.Core.Sessions.Defs.account_is_active
resolved_new = refl

context_valid : is_auth_context context ≡ true
unfolding is_auth_context authmodules.Contracts.Values.is_safe_text
context_valid = refl

resolve_account-IsResolved_example :
    IsResolved context claim AccountMode.create_new_account resolved_account
resolve_account-IsResolved_example =
    resolve_account-IsResolved ports context AccountMode.create_new_account claim none 5 none 5
      context_valid resolved_new

abbrev a_guard : AuthGuard ℕ
a_guard = record {
  before_attempt = λ a w. (Answer.answered (GuardDecision.deny Reason.rate_limited none none), w);
  after_attempt = λ a outcome w. w + 10;
}

abbrev guarded_ports : Ports ℕ
guarded_ports = record ports { guard = some a_guard }

abbrev an_attempt : Attempt AuthContext
an_attempt = record {
  context = context;
  method = record { method_id = codes "password.basic"; method_kind = password };
  operation = AuthOperationName.authenticate;
  lookup = none;
  challenge_id = none;
}

accept_start-Reported_example :
    Reported guarded_ports an_attempt
      (a_guard.before_attempt (guarded_attempt an_attempt) 5).0
      (accept_start guarded_ports an_attempt none 5)
accept_start-Reported_example = accept_start-Reported guarded_ports an_attempt none a_guard 5 refl
