-- ===== src/Memory/History/Consumption.antt =====
-- What no history can undo: settled challenges and sessions.
use authmodules.Prelude.{
  inr, inl, Option, none, Option-cases, refl, ◌+◌, ℕ, ◌≡◌, ◌≢◌, ◌⊎◌, some, List, Text,
  text_discrete, arith,
}
use authmodules.JsMap.Laws.{get-set_self, get-set, none_of_not-has}
use authmodules.Memory.WellFormed.{Steps-AllDistinct, AllDistinct}
use authmodules.Memory.State.{challenge_key, MemoryState, Cell}
use authmodules.Contracts.Values.{Time, Date, snapshot_date}
use authmodules.Contracts.Errors.{store_failure, Result, ok, err, Reason, StoreFailure}
use authmodules.JsMap.{get}
use authmodules.Contracts.Records.{SessionRecord, SessionStatus, ChallengeRecord, ChallengeStatus}
use authmodules.Memory.Action.{cell}
use authmodules.Memory.Moves.{SessionMove, ChallengeMove}
use authmodules.Memory.Steps.{Step, Steps, done, more, key_of_session, key_of_challenge}
use authmodules.Memory.History.{Operation, run, run-Steps, perform, perform-Steps}
use authmodules.Memory.Challenges.{ConsumeResult, consume_pending, take_pending, consume, store_at}

-- A challenge that is consumed or expired, and a session that has left `active`.
abbrev pub IsSettled : ChallengeStatus → Type 0
IsSettled status = (status ≡ ChallengeStatus.consumed) ⊎ (status ≡ ChallengeStatus.expired)

no_move : {r v : ChallengeRecord} → ChallengeMove r v → IsSettled r.status → ⊥
no_move (ChallengeMove.miss now pending left live) h = ground arith
no_move (ChallengeMove.consume now pending left live) h = ground arith
no_move (ChallengeMove.expire now status over) h = ground arith

no_session_move : {r v : SessionRecord} → SessionMove r v → r.status ≢ SessionStatus.active → ⊥
no_session_move (SessionMove.revoke now live) h = h live
no_session_move (SessionMove.expire now live over) h = h live

module _ (k : Text) where
  Step-challenge :
      {s t : MemoryState} (c : Cell ChallengeRecord)
      → Step s t
      → IsSettled c.value.status
      → get text_discrete k s.challenges ≡ some c
      → get text_discrete k t.challenges ≡ some c
  Step-challenge {s} c (Step.new_challenge ref r valid new) settled h = ground (
    arith,
    get-set text_discrete (key_of_challenge r) k (cell ref r) s.challenges,
    none_of_not-has text_discrete (key_of_challenge r) s.challenges new,
  )
  Step-challenge {s} c (Step.set_challenge l ref b r there move) settled h =
      elim (text_discrete l k) [
        | yes p ↦ absurd (no_move move (ground arith))
        | no p ↦ ground (arith, get-set text_discrete l k (cell ref r) s.challenges)
      ]
  Step-challenge c (Step.new_account ref r valid new) settled h = h
  Step-challenge c _ settled h = h

  Step-session :
      {s t : MemoryState} (c : Cell SessionRecord)
      → Step s t
      → c.value.status ≢ SessionStatus.active
      → get text_discrete k s.sessions ≡ some c
      → get text_discrete k t.sessions ≡ some c
  Step-session {s} c (Step.new_session ref r hash valid owner hashed new free) over h = ground (
    arith,
    get-set text_discrete (key_of_session r) k (cell ref r) s.sessions,
    none_of_not-has text_discrete (key_of_session r) s.sessions new,
  )
  Step-session {s} c (Step.set_session l ref b r there move) over h = elim (text_discrete l k) [
    | yes p ↦ absurd (no_session_move move (λ live. over (ground arith)))
    | no p ↦ ground (arith, get-set text_discrete l k (cell ref r) s.sessions)
  ]
  Step-session c _ over h = h

  Steps-challenge :
      {s t : MemoryState} (c : Cell ChallengeRecord)
      → Steps s t
      → IsSettled c.value.status
      → get text_discrete k s.challenges ≡ some c
      → get text_discrete k t.challenges ≡ some c
  Steps-challenge c done settled h = h
  Steps-challenge c (more x xs) settled h =
      Steps-challenge c xs settled (Step-challenge c x settled h)

  Steps-session :
      {s t : MemoryState} (c : Cell SessionRecord)
      → Steps s t
      → c.value.status ≢ SessionStatus.active
      → get text_discrete k s.sessions ≡ some c
      → get text_discrete k t.sessions ≡ some c
  Steps-session c done over h = h
  Steps-session c (more x xs) over h = Steps-session c xs over (Step-session c x over h)

-- A session that is revoked or expired stays as it is, the same object, through every history.
pub run-settled_session :
    (k : Text) (c : Cell SessionRecord) (ref : ℕ) (os : List Operation) (s : MemoryState)
    → AllDistinct s
    → c.value.status ≢ SessionStatus.active
    → get text_discrete k s.sessions ≡ some c
    → get text_discrete k (run ref os s).sessions ≡ some c
run-settled_session k c ref os s d over h = Steps-session k c (run-Steps ref os s d) over h

-- A challenge that is consumed or expired stays as it is, the same object, through every history.
pub run-settled_challenge :
    (k : Text) (c : Cell ChallengeRecord) (ref : ℕ) (os : List Operation) (s : MemoryState)
    → AllDistinct s
    → IsSettled c.value.status
    → get text_discrete k s.challenges ≡ some c
    → get text_discrete k (run ref os s).challenges ≡ some c
run-settled_challenge k c ref os s d over h = Steps-challenge k c (run-Steps ref os s d) over h

-- What `consumePending` answers and stores, by the record found.
consume_at :
    ℕ
    → Time
    → Text
    → ℕ
    → MemoryState
    → Option (Cell ChallengeRecord)
    → Result StoreFailure ConsumeResult × MemoryState
unfolding take_pending store_at
consume_at v now k ref s none = (err (store_failure Reason.challenge_not_found), s)
consume_at v now k ref s (some c) =
    (ok (take_pending v now c.value).0, store_at k (take_pending v now c.value).1 ref s)

consume_on :
    ℕ → Option Time → Text → ℕ → MemoryState → Result StoreFailure ConsumeResult × MemoryState
unfolding consume_at
consume_on v none k ref s = (err (store_failure Reason.store_unavailable), s)
consume_on v (some time) k ref s = consume_at v time k ref s (get text_discrete k s.challenges)

consume_pending_lem :
    (t id : Text) (v : ℕ) (now : Date) (ref : ℕ) (s : MemoryState)
    → consume_pending t id v now ref s ≡ consume_on v (snapshot_date now) (challenge_key t id) ref s
unfolding consume_on consume_at consume_pending
consume_pending_lem t id v now ref s = elim (Option-cases (snapshot_date now)) [
  | inl e ↦ rw e refl
  | inr (time, e) ↦
      rw e (elim (Option-cases (get text_discrete (challenge_key t id) s.challenges)) [
        | inl f ↦ rw f refl
        | inr (c, f) ↦ rw f refl
      ])
]

take_pending-consumed :
    (v : ℕ) (now : Time) (r : ChallengeRecord)
    → (take_pending v now r).0 ≡ ConsumeResult.consumed
    → (take_pending v now r).1 ≡ some (consume now r)
unfolding take_pending consume
take_pending-consumed v now r h = ground arith

take_pending-settled :
    (v : ℕ) (now : Time) (r : ChallengeRecord)
    → IsSettled r.status
    → (take_pending v now r).0 ≢ ConsumeResult.consumed
unfolding take_pending
take_pending-settled v now r h e = ground arith

-- Whoever is told `consumed` has left a consumed record under the key.
consume_at-stores :
    (v : ℕ) (now : Time) (k : Text) (ref : ℕ) (s : MemoryState)
    (found : Option (Cell ChallengeRecord))
    → (consume_at v now k ref s found).0 ≡ ok ConsumeResult.consumed
    → (c : Cell ChallengeRecord) × (get text_discrete k
          (consume_at v now k ref s found).1.challenges
        ≡ some c)
      × (c.value.status ≡ ChallengeStatus.consumed)
unfolding consume_at store_at consume
consume_at-stores v now k ref s none h = cc
consume_at-stores v now k ref s (some c) h =
    let kept = take_pending-consumed v now c.value (ground arith) in
    (cell ref (consume now c.value), rw kept (get-set_self text_discrete k _ s.challenges), refl)

consume_on-stores :
    (v : ℕ) (now : Option Time) (k : Text) (ref : ℕ) (s : MemoryState)
    → (consume_on v now k ref s).0 ≡ ok ConsumeResult.consumed
    → (c : Cell ChallengeRecord) × (get text_discrete k (consume_on v now k ref s).1.challenges
        ≡ some c)
      × (c.value.status ≡ ChallengeStatus.consumed)
unfolding consume_on
consume_on-stores v none k ref s h = cc
consume_on-stores v (some time) k ref s h = consume_at-stores v time k ref s _ h

consume_pending-stores :
    (t id : Text) (v : ℕ) (now : Date) (ref : ℕ) (s : MemoryState)
    → (consume_pending t id v now ref s).0 ≡ ok ConsumeResult.consumed
    → (c : Cell ChallengeRecord) × (get text_discrete
          (challenge_key t id)
          (consume_pending t id v now ref s).1.challenges
        ≡ some c)
      × (c.value.status ≡ ChallengeStatus.consumed)
consume_pending-stores t id v now ref s =
    rw (consume_pending_lem t id v now ref s)
      (consume_on-stores v (snapshot_date now) (challenge_key t id) ref s)

consume_at-refuses :
    (v : ℕ) (now : Time) (k : Text) (ref : ℕ) (s : MemoryState) (c : Cell ChallengeRecord)
    → IsSettled c.value.status
    → (consume_at v now k ref s (some c)).0 ≢ ok ConsumeResult.consumed
unfolding consume_at
consume_at-refuses v now k ref s c h e = ground (arith, take_pending-settled v now c.value h)

consume_on-refuses :
    (v : ℕ) (now : Option Time) (k : Text) (ref : ℕ) (s : MemoryState) (c : Cell ChallengeRecord)
    → get text_discrete k s.challenges ≡ some c
    → IsSettled c.value.status
    → (consume_on v now k ref s).0 ≢ ok ConsumeResult.consumed
unfolding consume_on
consume_on-refuses v none k ref s c found h = λ e. cc
consume_on-refuses v (some time) k ref s c found h =
    rw found (consume_at-refuses v time k ref s c h)

consume_pending-refuses :
    (t id : Text) (v : ℕ) (now : Date) (ref : ℕ) (s : MemoryState) (c : Cell ChallengeRecord)
    → get text_discrete (challenge_key t id) s.challenges ≡ some c
    → IsSettled c.value.status
    → (consume_pending t id v now ref s).0 ≢ ok ConsumeResult.consumed
consume_pending-refuses t id v now ref s c found h =
    rw (consume_pending_lem t id v now ref s)
      (consume_on-refuses v (snapshot_date now) _ ref s c found h)

-- A challenge is consumed at most once: after a `consumePending` that answered `consumed`, and any
-- further calls, no `consumePending` on that challenge answers `consumed`, whatever its version and time.
pub consume_pending-once :
    (t id : Text) (v w : ℕ) (now later : Date) (ref next : ℕ) (os : List Operation)
    (s : MemoryState)
    → AllDistinct s
    → (consume_pending t id v now ref s).0 ≡ ok ConsumeResult.consumed
    → (consume_pending t id w later next (run (ref + 1) os (consume_pending t id v now ref s).1)).0
      ≢ ok ConsumeResult.consumed
unfolding perform
consume_pending-once t id v w now later ref next os s d h =
    let (c, found, status) = consume_pending-stores t id v now ref s h in
    let after =
      Steps-AllDistinct (perform-Steps ref (Operation.consume_pending t id v now) s d) d in
    consume_pending-refuses t id w later next _ c
      (run-settled_challenge _ c (ref + 1) os _ after (inl status) found) (inl status)
