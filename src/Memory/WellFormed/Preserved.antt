-- ===== src/Memory/WellFormed/Preserved.antt =====
-- Every change of `Step` keeps the state well formed.
use authmodules.Prelude.{
  ℕ, ◌≡◌, refl, ◌∙◌, Bool, true, some, Text, text_discrete, none-ne-some, arith, ap,
}
use authmodules.JsMap.{Map, get, set}
use authmodules.JsMap.Laws.{none_of_not-has}
use authmodules.Contracts.Records.{IdentityRecord, CredentialRecord, SessionRecord, ChallengeRecord}
use authmodules.Memory.RecordValidation.{
  is_account_record, is_identity_record, is_session_record, is_credential_record,
  is_challenge_record,
}
use authmodules.Memory.State.{MemoryState, Cell, create_empty_state, token_key_discrete}
use authmodules.Memory.Action.{cell}
use authmodules.Memory.Directory.{
  IsKeyed, IsKeyed-empty, IsKeyed-set, IsIndexed-empty, IsIndexed-create, IsIndexed-update,
}
use authmodules.Memory.Moves.{IdentityMove, CredentialMove, SessionMove}
use authmodules.Memory.Sessions
use authmodules.Memory.Steps.{
  Step, Steps, done, more, key_of_account, key_of_identity, subject_of, key_of_credential, place_of,
  key_of_session, key_of_challenge,
}
use authmodules.Memory.WellFormed.Defs.{IsWellFormed, valid_credential, valid_challenge}
use authmodules.Memory.WellFormed.Moves.{
  AccountMove-keeps, IdentityMove-keeps, CredentialMove-keeps, SessionMove-keeps,
  ChallengeMove-keeps,
}
use authmodules.Memory.WellFormed.Owners.{
  Owners-account, Owners-identity, Owners-IdentityMove, Owners-credential, Owners-CredentialMove,
  Owners-session, Owners-session_move,
}

pub IsWellFormed-empty : IsWellFormed create_empty_state
unfolding get
IsWellFormed-empty = record {
  accounts = IsKeyed-empty _ _;
  identities = IsKeyed-empty _ _;
  subjects = IsIndexed-empty _ _ _;
  credentials = IsKeyed-empty _ _;
  places = IsIndexed-empty _ _ _;
  sessions = IsKeyed-empty _ _;
  hashes = IsIndexed-empty _ _ _;
  challenges = IsKeyed-empty _ _;
  owners = record {
    of_identity = λ k c h. cc;
    of_credential = λ k c h. absurd (none-ne-some h);
    of_session = λ k c h. cc;
  };
}

credential_version :
    (r : CredentialRecord) → is_credential_record r ≡ true → valid_credential r ≡ true
unfolding is_credential_record
credential_version r h = ground arith

challenge_version : (r : ChallengeRecord) → is_challenge_record r ≡ true → valid_challenge r ≡ true
unfolding is_challenge_record
challenge_version r h = ground arith

-- A replaced record stands under the key where the old one stood.
module _ {A : Type 0} (key_of : A → Text) (valid : A → Bool) {main : Map Text (Cell A)} where
  replaced :
      (k : Text) (ref : ℕ) (c : Cell A) (v : A)
      → get text_discrete k main ≡ some c
      → (key_of v ≡ key_of c.value)
      → (valid v ≡ true)
      → IsKeyed key_of valid main
      → IsKeyed key_of valid (set text_discrete k (cell ref v) main)
  replaced k ref c v there same ok d =
      IsKeyed-set key_of valid k ref v (same ∙ (d.at k c there).0) ok d

IdentityMove-id : {r v : IdentityRecord} → IdentityMove r v → v.identity_id ≡ r.identity_id
IdentityMove-id (IdentityMove.verify verified now) = refl

CredentialMove-id :
    {r v : CredentialRecord} → CredentialMove r v → v.credential_id ≡ r.credential_id
CredentialMove-id (CredentialMove.rewrite m now valid) = refl
CredentialMove-id (CredentialMove.restatus status now may) = refl

SessionMove-id : {r v : SessionRecord} → SessionMove r v → v.session_id ≡ r.session_id
unfolding Sessions.expire
SessionMove-id (SessionMove.revoke now live) = refl
SessionMove-id (SessionMove.expire now live over) = refl

pub Step-IsWellFormed : {s t : MemoryState} → Step s t → IsWellFormed s → IsWellFormed t
Step-IsWellFormed {s} (Step.new_account ref r valid new) w = record {
  accounts = IsKeyed-set key_of_account is_account_record _ ref r refl valid w.accounts;
  identities = w.identities;
  subjects = w.subjects;
  credentials = w.credentials;
  places = w.places;
  sessions = w.sessions;
  hashes = w.hashes;
  challenges = w.challenges;
  owners = Owners-account _ ref r w.owners;
}
Step-IsWellFormed {s} (Step.set_account k ref c r there move) w =
    let (same, valid) = AccountMove-keeps move (w.accounts.at k c there).1 in
    record {
      accounts = replaced key_of_account is_account_record k ref c r there same valid w.accounts;
      identities = w.identities;
      subjects = w.subjects;
      credentials = w.credentials;
      places = w.places;
      sessions = w.sessions;
      hashes = w.hashes;
      challenges = w.challenges;
      owners = Owners-account k ref r w.owners;
    }
Step-IsWellFormed {s} (Step.new_identity ref r valid owner new free) w =
    let absent = none_of_not-has text_discrete (key_of_identity r) s.identities new in
    record {
      accounts = w.accounts;
      identities = IsKeyed-set key_of_identity is_identity_record _ ref r refl valid w.identities;
      subjects =
          IsIndexed-create text_discrete _ _ _ ref r (subject_of r) absent
            (none_of_not-has text_discrete _ s.identity_subjects free) refl w.subjects;
      credentials = w.credentials;
      places = w.places;
      sessions = w.sessions;
      hashes = w.hashes;
      challenges = w.challenges;
      owners = Owners-identity _ ref r owner absent w.owners;
    }
Step-IsWellFormed {s} (Step.set_identity k ref c r there move) w =
    let (same, subject, valid) = IdentityMove-keeps move (w.identities.at k c there).1 in
    record {
      accounts = w.accounts;
      identities =
          replaced key_of_identity is_identity_record k ref c r there same valid w.identities;
      subjects =
          IsIndexed-update text_discrete _ _ k ref r c there (ap some subject)
            (IdentityMove-id move) w.subjects;
      credentials = w.credentials;
      places = w.places;
      sessions = w.sessions;
      hashes = w.hashes;
      challenges = w.challenges;
      owners = Owners-IdentityMove k ref c r there move w.owners;
    }
Step-IsWellFormed {s} (Step.new_credential ref r valid owner fits new free) w =
    let absent = none_of_not-has text_discrete (key_of_credential r) s.credentials new in
    record {
      accounts = w.accounts;
      identities = w.identities;
      subjects = w.subjects;
      credentials =
          IsKeyed-set key_of_credential valid_credential _ ref r refl (credential_version r valid)
            w.credentials;
      places =
          IsIndexed-create text_discrete _ _ _ ref r (place_of r) absent
            (none_of_not-has text_discrete _ s.credentials_by_identity free) refl w.places;
      sessions = w.sessions;
      hashes = w.hashes;
      challenges = w.challenges;
      owners = Owners-credential _ ref r owner fits w.owners;
    }
Step-IsWellFormed {s} (Step.set_credential k ref c r there move) w =
    let (same, place, valid) = CredentialMove-keeps move (w.credentials.at k c there).1 in
    record {
      accounts = w.accounts;
      identities = w.identities;
      subjects = w.subjects;
      credentials =
          replaced key_of_credential valid_credential k ref c r there same valid w.credentials;
      places =
          IsIndexed-update text_discrete _ _ k ref r c there (ap some place)
            (CredentialMove-id move) w.places;
      sessions = w.sessions;
      hashes = w.hashes;
      challenges = w.challenges;
      owners = Owners-CredentialMove k ref c r there move w.owners;
    }
Step-IsWellFormed {s} (Step.new_session ref r hash valid owner hashed new free) w =
    let absent = none_of_not-has text_discrete (key_of_session r) s.sessions new in
    record {
      accounts = w.accounts;
      identities = w.identities;
      subjects = w.subjects;
      credentials = w.credentials;
      places = w.places;
      sessions = IsKeyed-set key_of_session is_session_record _ ref r refl valid w.sessions;
      hashes =
          IsIndexed-create token_key_discrete _ _ _ ref r hash absent
            (none_of_not-has token_key_discrete _ s.sessions_by_token_hash free) hashed w.hashes;
      challenges = w.challenges;
      owners = Owners-session _ ref r owner w.owners;
    }
Step-IsWellFormed {s} (Step.set_session k ref c r there move) w =
    let (same, hash, valid) = SessionMove-keeps move (w.sessions.at k c there).1 in
    record {
      accounts = w.accounts;
      identities = w.identities;
      subjects = w.subjects;
      credentials = w.credentials;
      places = w.places;
      sessions = replaced key_of_session is_session_record k ref c r there same valid w.sessions;
      hashes =
          IsIndexed-update token_key_discrete _ _ k ref r c there hash (SessionMove-id move)
            w.hashes;
      challenges = w.challenges;
      owners = Owners-session_move k ref c r there move w.owners;
    }
Step-IsWellFormed {s} (Step.new_challenge ref r valid new) w = record {
  accounts = w.accounts;
  identities = w.identities;
  subjects = w.subjects;
  credentials = w.credentials;
  places = w.places;
  sessions = w.sessions;
  hashes = w.hashes;
  challenges =
      IsKeyed-set key_of_challenge valid_challenge _ ref r refl (challenge_version r valid)
        w.challenges;
  owners = w.owners;
}
Step-IsWellFormed {s} (Step.set_challenge k ref c r there move) w =
    let (same, valid) = ChallengeMove-keeps move (w.challenges.at k c there).1 in
    record {
      accounts = w.accounts;
      identities = w.identities;
      subjects = w.subjects;
      credentials = w.credentials;
      places = w.places;
      sessions = w.sessions;
      hashes = w.hashes;
      challenges =
          replaced key_of_challenge valid_challenge k ref c r there same valid w.challenges;
      owners = w.owners;
    }

pub Steps-IsWellFormed : {s t : MemoryState} → Steps s t → IsWellFormed s → IsWellFormed t
Steps-IsWellFormed done w = w
Steps-IsWellFormed (more x xs) w = Steps-IsWellFormed xs (Step-IsWellFormed x w)
