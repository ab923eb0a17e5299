-- ===== src/Memory/WellFormed/Moves.antt =====
-- A move keeps a record valid, and keeps all that its key and its index entry are made of.
use authmodules.Prelude.{◌≡◌, refl, true, arith}
use authmodules.Contracts.Records.{
  AccountRecord, IdentityRecord, CredentialRecord, SessionRecord, ChallengeRecord,
}
use authmodules.Memory.RecordValidation.{
  is_account_record, is_identity_record, is_credential_record, is_session_record,
  is_challenge_record,
}
use authmodules.Memory.Sessions
use authmodules.Memory.Challenges
use authmodules.Memory.State.{next_version}
use authmodules.Memory.Moves.{AccountMove, IdentityMove, CredentialMove, SessionMove, ChallengeMove}
use authmodules.Memory.Steps.{
  key_of_account, key_of_identity, subject_of, key_of_credential, place_of, key_of_session, hash_of,
  key_of_challenge,
}
use authmodules.Memory.WellFormed.Defs.{valid_credential, valid_challenge}

pub AccountMove-keeps :
    {r v : AccountRecord}
    → AccountMove r v
    → is_account_record r ≡ true
    → (key_of_account v ≡ key_of_account r) × (is_account_record v ≡ true)
unfolding is_account_record
AccountMove-keeps (AccountMove.restatus status now may) h = (refl, h)

pub IdentityMove-keeps :
    {r v : IdentityRecord}
    → IdentityMove r v
    → is_identity_record r ≡ true
    → (key_of_identity v ≡ key_of_identity r)
      × (subject_of v ≡ subject_of r)
      × (is_identity_record v ≡ true)
unfolding is_identity_record
IdentityMove-keeps (IdentityMove.verify verified now) h = (refl, refl, h)

pub CredentialMove-keeps :
    {r v : CredentialRecord}
    → CredentialMove r v
    → valid_credential r ≡ true
    → (key_of_credential v ≡ key_of_credential r)
      × (place_of v ≡ place_of r)
      × (valid_credential v ≡ true)
unfolding is_credential_record next_version
CredentialMove-keeps (CredentialMove.rewrite m now valid) h = (refl, refl, ground arith)
CredentialMove-keeps (CredentialMove.restatus status now may) h = (refl, refl, ground arith)

pub SessionMove-keeps :
    {r v : SessionRecord}
    → SessionMove r v
    → is_session_record r ≡ true
    → (key_of_session v ≡ key_of_session r) × (hash_of v ≡ hash_of r) × (is_session_record v ≡ true)
unfolding is_session_record Sessions.expire
SessionMove-keeps (SessionMove.revoke now live) h = (refl, refl, ground arith)
SessionMove-keeps (SessionMove.expire now live over) h = (refl, refl, ground arith)

pub ChallengeMove-keeps :
    {r v : ChallengeRecord}
    → ChallengeMove r v
    → valid_challenge r ≡ true
    → (key_of_challenge v ≡ key_of_challenge r) × (valid_challenge v ≡ true)
unfolding is_challenge_record next_version Challenges.fail_once Challenges.consume Challenges.expire
ChallengeMove-keeps (ChallengeMove.miss now pending left live) h = (refl, ground arith)
ChallengeMove-keeps (ChallengeMove.consume now pending left live) h = (refl, ground arith)
ChallengeMove-keeps (ChallengeMove.expire now status over) h = (refl, ground arith)
