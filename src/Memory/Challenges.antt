-- ===== src/Memory/Challenges.antt =====
-- packages/testkit/src/stores/challenges.ts
use authmodules.Prelude.{
  ℕ, ◌+◌, Bool, true, false, Option, none, some, Text, text_discrete, test, if◌then◌else◌, ◌||◌,
  ◌&&◌, not, leb, ◌==◌,
}
use authmodules.JsMap.{get, has, set}
use authmodules.Contracts.Errors.{Reason, ok}
use authmodules.Contracts.Values.{Time, Date, snapshot_date}
use authmodules.Contracts.Records.{ChallengeRecord, ChallengeStatus}
use authmodules.Memory.RecordValidation.{snapshot_challenge}
use authmodules.Memory.State.{MemoryState, challenge_key, next_version}
use authmodules.Memory.Cleanup.{cleanup_loop}
use authmodules.Memory.Action.{Action, fail, require, cell, content, cleanup_limit}

-- `ConsumePendingResult`
pub data ConsumeResult : Type 0 where
  consumed already_consumed expired attempts_exceeded version_conflict : ConsumeResult

-- `RecordFailedAttemptResult`
pub data AttemptResult : Type 0 where
  recorded attempts_exceeded expired : ChallengeRecord → AttemptResult
  version_conflict : AttemptResult

unfoldable pub create : ChallengeRecord → Action ChallengeRecord
create input = require (snapshot_challenge input) Reason.store_unavailable λ r ref s.
    let key = challenge_key r.tenant_id r.challenge_id in
    if has text_discrete key s.challenges
    then fail Reason.store_unavailable ref s
    else (ok r, record s { challenges = set text_discrete key (cell ref r) s.challenges })

unfoldable pub find_by_id : Text → Text → Action (Option ChallengeRecord)
find_by_id tenant_id challenge_id ref s =
    (ok (content (get text_discrete (challenge_key tenant_id challenge_id) s.challenges)), s)

is_pending : ChallengeStatus → Bool
is_pending ChallengeStatus.pending = true
is_pending _ = false

is_consumed : ChallengeStatus → Bool
is_consumed ChallengeStatus.consumed = true
is_consumed _ = false

is_expired : ChallengeStatus → Bool
is_expired ChallengeStatus.expired = true
is_expired _ = false

is_failed : ChallengeStatus → Bool
is_failed ChallengeStatus.failed = true
is_failed _ = false

unfoldable pub expire : Time → ChallengeRecord → ChallengeRecord
expire now r = record r {
  status = ChallengeStatus.expired;
  version = next_version r.version;
  updated_at = now;
}

-- The record after one more failed attempt.
unfoldable pub fail_once : Time → ChallengeRecord → ChallengeRecord
fail_once now r = record r {
  attempts = r.attempts + 1;
  status = if leb r.max_attempts (r.attempts + 1) then ChallengeStatus.failed else r.status;
  version = next_version r.version;
  updated_at = now;
}

-- What `recordFailedAttempt` answers for a record, and what it stores in its place.
unfoldable pub attempt : ℕ → Time → ChallengeRecord → AttemptResult × Option ChallengeRecord
unfolding is_consumed is_expired is_failed expire fail_once
attempt expected_version now r =
    if not (r.version == expected_version)
    then (AttemptResult.version_conflict, none)
    else if is_consumed r.status
    then (AttemptResult.version_conflict, none)
    else if is_failed r.status || leb r.max_attempts r.attempts
    then (AttemptResult.attempts_exceeded r, none)
    else if is_expired r.status
    then (AttemptResult.expired r, none)
    else if leb r.expires_at now
    then (AttemptResult.expired (expire now r), some (expire now r))
    else (
      (if is_failed (fail_once now r).status
          then AttemptResult.attempts_exceeded (fail_once now r)
          else AttemptResult.recorded (fail_once now r)),
      some (fail_once now r),
    )

unfoldable pub consume : Time → ChallengeRecord → ChallengeRecord
consume now r = record r {
  status = ChallengeStatus.consumed;
  version = next_version r.version;
  consumed_at = some now;
  updated_at = now;
}

-- What `consumePending` answers for a record, and what it stores in its place.
unfoldable pub take_pending : ℕ → Time → ChallengeRecord → ConsumeResult × Option ChallengeRecord
unfolding is_consumed is_expired is_failed expire consume
take_pending expected_version now r =
    if not (r.version == expected_version)
    then (ConsumeResult.version_conflict, none)
    else if is_consumed r.status
    then (ConsumeResult.already_consumed, none)
    else if is_expired r.status
    then (ConsumeResult.expired, none)
    else if leb r.expires_at now
    then (ConsumeResult.expired, some (expire now r))
    else if is_failed r.status || leb r.max_attempts r.attempts
    then (ConsumeResult.attempts_exceeded, none)
    else (ConsumeResult.consumed, some (consume now r))

-- `current.challenges.set(key, …)`, where there is something to store.
unfoldable pub store_at : Text → Option ChallengeRecord → ℕ → MemoryState → MemoryState
store_at key none ref s = s
store_at key (some r) ref s = record s {
  challenges = set text_discrete key (cell ref r) s.challenges;
}

-- Both methods find the record, and answer and store by its content.
unfoldable pub update_at :
    {A : Type 0} → Text → Text → (ChallengeRecord → A × Option ChallengeRecord) → Action A
unfolding store_at
update_at tenant_id challenge_id decide ref s =
    let key = challenge_key tenant_id challenge_id in
    require (get text_discrete key s.challenges) Reason.challenge_not_found
      (λ found ref s. (ok (decide found.value).0, store_at key (decide found.value).1 ref s)) ref s

unfoldable pub record_failed_attempt : Text → Text → ℕ → Date → Action AttemptResult
unfolding update_at attempt
record_failed_attempt tenant_id challenge_id expected_version now =
    require (snapshot_date now) Reason.store_unavailable
      λ time. update_at tenant_id challenge_id (attempt expected_version time)

unfoldable pub consume_pending : Text → Text → ℕ → Date → Action ConsumeResult
unfolding update_at take_pending
consume_pending tenant_id challenge_id expected_version now =
    require (snapshot_date now) Reason.store_unavailable
      λ time. update_at tenant_id challenge_id (take_pending expected_version time)

-- The challenges that the cleanup of a tenant does not skip.
unfoldable pub is_due : Text → Time → ChallengeRecord → Bool
unfolding is_pending text_discrete
is_due tenant_id now r =
    test (text_discrete r.tenant_id tenant_id) && (is_pending r.status && leb r.expires_at now)

unfoldable pub cleanup_expired : Text → Date → Option ℕ → Action ℕ
unfolding is_due expire
cleanup_expired tenant_id now limit =
    require (cleanup_limit limit) Reason.store_unavailable λ bound.
      require (snapshot_date now) Reason.store_unavailable λ time ref s.
        let due = is_due tenant_id time in
        let (count, challenges) =
          cleanup_loop due (expire time) bound ref s.challenges 0 s.challenges in
        (ok count, record s { challenges = challenges })
