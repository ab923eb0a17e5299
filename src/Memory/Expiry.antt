-- ===== src/Memory/Expiry.antt =====
-- How many records the two cleanups expire: packages/testkit/src/stores/sessions.ts and
-- challenges.ts.
use authmodules.Prelude.{
  arith, ap, ℕ, ◌≤◌, ◌≡◌, true, some, Option, Text, text_discrete, test→, &&-eq-true,
}
use authmodules.Contracts.Records.{SessionRecord, SessionStatus, ChallengeRecord, ChallengeStatus}
use Prim.Native.Nat.{min}
use authmodules.Contracts.Errors.{ok}
use authmodules.Contracts.Values.{Time, Date, snapshot_date}
use authmodules.Memory.Action.{cleanup_limit}
use authmodules.Memory.State.{MemoryState}
use authmodules.Memory.Cleanup.Laws.{Count, due_count, due_count-Count, cleanup_loop-count}
use authmodules.Memory.Sessions
use authmodules.Memory.Challenges

-- An active session of the tenant whose time is over, and such a pending challenge.
pub IsOverSession : Text → Time → SessionRecord → Type 0
IsOverSession tenant_id now r =
    (r.tenant_id ≡ tenant_id) × (r.status ≡ SessionStatus.active) × (r.expires_at ≤ now)

pub IsOverChallenge : Text → Time → ChallengeRecord → Type 0
IsOverChallenge tenant_id now r =
    (r.tenant_id ≡ tenant_id) × (r.status ≡ ChallengeStatus.pending) × (r.expires_at ≤ now)

session_due-IsOver :
    (tenant_id : Text) (now : Time) (r : SessionRecord)
    → Sessions.is_due tenant_id now r ≡ true
    → IsOverSession tenant_id now r
unfolding Sessions.is_due IsOverSession
session_due-IsOver tenant_id now r h =
    let (own, rest) = &&-eq-true _ _ h in
    (test→ (text_discrete r.tenant_id tenant_id) own, ground arith, ground arith)

session_over-due :
    (tenant_id : Text) (now : Time) (r : SessionRecord)
    → IsOverSession tenant_id now r
    → Sessions.is_due tenant_id now r ≡ true
unfolding Sessions.is_due IsOverSession
session_over-due tenant_id now r (own, active, over) = ground arith

challenge_due-IsOver :
    (tenant_id : Text) (now : Time) (r : ChallengeRecord)
    → Challenges.is_due tenant_id now r ≡ true
    → IsOverChallenge tenant_id now r
unfolding Challenges.is_due IsOverChallenge
challenge_due-IsOver tenant_id now r h =
    let (own, rest) = &&-eq-true _ _ h in
    (test→ (text_discrete r.tenant_id tenant_id) own, ground arith, ground arith)

challenge_over-due :
    (tenant_id : Text) (now : Time) (r : ChallengeRecord)
    → IsOverChallenge tenant_id now r
    → Challenges.is_due tenant_id now r ≡ true
unfolding Challenges.is_due IsOverChallenge
challenge_over-due tenant_id now r (own, pending, over) = ground arith

-- With a valid date and limit, both cleanups answer the number of the tenant's active (pending)
-- records whose time is over, but at most the limit, which is 1000 where none is given.
pub cleanup_expired-Count :
    (tenant_id : Text) (now : Date) (limit : Option ℕ) (bound : ℕ) (time : Time) (ref : ℕ)
    (s : MemoryState)
    → snapshot_date now ≡ some time
    → cleanup_limit limit ≡ some bound
    → ((n : ℕ) × Count (IsOverSession tenant_id time) s.sessions n
        × ((Sessions.cleanup_expired tenant_id now limit ref s).0 ≡ ok (min bound n)))
      × ((n : ℕ) × Count (IsOverChallenge tenant_id time) s.challenges n
          × ((Challenges.cleanup_expired tenant_id now limit ref s).0 ≡ ok (min bound n)))
unfolding Sessions.cleanup_expired Challenges.cleanup_expired
cleanup_expired-Count tenant_id now limit bound time ref s e f =
    let sessions =
      cleanup_loop-count (Sessions.is_due tenant_id time) (Sessions.expire time) bound ref
        s.sessions 0 s.sessions (omega arith) in
    let challenges =
      cleanup_loop-count (Challenges.is_due tenant_id time) (Challenges.expire time) bound ref
        s.challenges 0 s.challenges (omega arith) in
    (
      (
        due_count (Sessions.is_due tenant_id time) s.sessions,
        due_count-Count _ _ (session_due-IsOver tenant_id time) (session_over-due tenant_id time)
            s.sessions,
        rw (e, f) (ap ok (omega (arith, sessions))),
      ),
      (
        due_count (Challenges.is_due tenant_id time) s.challenges,
        due_count-Count _ _ (challenge_due-IsOver tenant_id time)
            (challenge_over-due tenant_id time) s.challenges,
        rw (e, f) (ap ok (omega (arith, challenges))),
      ),
    )
