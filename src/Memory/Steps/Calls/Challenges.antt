-- ===== src/Memory/Steps/Calls/Challenges.antt =====
-- The calls of the challenges store make only the changes of `Step`.
use authmodules.Prelude.{
  ℕ, ◌≡◌, ◌≤◌, ◌<◌, ◌⊎◌, true, Option, some, Text, text_discrete, inl, inr, Bool-cases,
  Option-cases, arith,
}
use mathlib.Core.Path.{subst}
use authmodules.JsMap.{keys, get, has}
use authmodules.JsMap.Order.{IsDistinct, Agrees-self}
use authmodules.Contracts.Values.{Time, Date, snapshot_date}
use authmodules.Contracts.Records.{ChallengeRecord, ChallengeStatus}
use authmodules.Memory.RecordValidation.{snapshot_challenge, snapshot_challenge_lem}
use authmodules.Memory.State.{MemoryState, challenge_key}
use authmodules.Memory.Action.{cleanup_limit}
use authmodules.Memory.Cleanup.{cleanup_loop}
use authmodules.Memory.Cleanup.Laws.{cleanup_loop_inv}
use authmodules.Memory.Challenges
use authmodules.Memory.Challenges.{
  attempt, take_pending, update_at, fail_once, consume, expire, is_due,
}
use authmodules.Memory.Moves.{ChallengeMove}
use authmodules.Memory.Steps.{Step, Steps, done, Steps-one, Steps-trans, key_of_challenge}

pub create_challenge-Steps :
    (r : ChallengeRecord) (ref : ℕ) (s : MemoryState) → Steps s (Challenges.create r ref s).1
unfolding Challenges.create
create_challenge-Steps r ref s = elim (Option-cases (snapshot_challenge r)) [
  | inl e ↦ rw e done
  | inr (v, e) ↦
      let (same, valid) = snapshot_challenge_lem r e in
      elim (Bool-cases (has text_discrete (key_of_challenge v) s.challenges)) [
        | inl old ↦ rw (e, old) done
        | inr new ↦ rw (e, new) (Steps-one (Step.new_challenge ref v (ground arith) new))
      ]
]

-- What is stored after a failed attempt, and on what conditions.
attempt-cases :
    (version : ℕ) (now : Time) (r v : ChallengeRecord)
    → (attempt version now r).1 ≡ some v
    → (r.status ≡ ChallengeStatus.pending)
      × (r.attempts < r.max_attempts)
      × (((r.expires_at ≤ now) × (expire now r ≡ v))
          ⊎ ((now < r.expires_at) × (fail_once now r ≡ v)))
unfolding attempt
attempt-cases version now r v h = ground arith

take_pending-cases :
    (version : ℕ) (now : Time) (r v : ChallengeRecord)
    → (take_pending version now r).1 ≡ some v
    → (((r.status ≡ ChallengeStatus.pending) ⊎ (r.status ≡ ChallengeStatus.failed))
        × (r.expires_at ≤ now)
        × (expire now r ≡ v))
      ⊎ ((r.status ≡ ChallengeStatus.pending)
          × (r.attempts < r.max_attempts)
          × (now < r.expires_at)
          × (consume now r ≡ v))
unfolding take_pending
take_pending-cases version now r v h = ground arith

attempt-Move :
    (version : ℕ) (now : Time) (r v : ChallengeRecord)
    → (attempt version now r).1 ≡ some v
    → ChallengeMove r v
attempt-Move version now r v h =
    let (pending, left, ends) = attempt-cases version now r v h in
    elim ends [
      | inl (over, e) ↦ subst (ChallengeMove r) e (ChallengeMove.expire now (inl pending) over)
      | inr (live, e) ↦ subst (ChallengeMove r) e (ChallengeMove.miss now pending left live)
    ]

take_pending-Move :
    (version : ℕ) (now : Time) (r v : ChallengeRecord)
    → (take_pending version now r).1 ≡ some v
    → ChallengeMove r v
take_pending-Move version now r v h = elim (take_pending-cases version now r v h) [
  | inl (status, over, e) ↦ subst (ChallengeMove r) e (ChallengeMove.expire now status over)
  | inr (pending, left, live, e) ↦
      subst (ChallengeMove r) e (ChallengeMove.consume now pending left live)
]

module _ (tenant_id challenge_id : Text) (ref : ℕ) (s : MemoryState) where
  update_at-Steps :
      {A : Type 0} (decide : ChallengeRecord → A × Option ChallengeRecord)
      → ((r v : ChallengeRecord) → (decide r).1 ≡ some v → ChallengeMove r v)
      → Steps s (update_at tenant_id challenge_id decide ref s).1
  unfolding update_at
  update_at-Steps decide moves =
      elim (Option-cases (get text_discrete (challenge_key tenant_id challenge_id) s.challenges)) [
        | inl missing ↦ rw missing done
        | inr (c, found) ↦ elim (Option-cases (decide c.value).1) [
          | inl nothing ↦ rw (found, nothing) done
          | inr (v, e) ↦
              rw (found, e) (Steps-one (Step.set_challenge _ ref c v found (moves c.value v e)))
        ]
      ]

  pub record_failed_attempt-Steps :
      (version : ℕ) (now : Date)
      → Steps s (Challenges.record_failed_attempt tenant_id challenge_id version now ref s).1
  unfolding Challenges.record_failed_attempt
  record_failed_attempt-Steps version now = elim (Option-cases (snapshot_date now)) [
    | inl e ↦ rw e done
    | inr (time, e) ↦ rw e (update_at-Steps (attempt version time) (attempt-Move version time))
  ]

  pub consume_pending-Steps :
      (version : ℕ) (now : Date)
      → Steps s (Challenges.consume_pending tenant_id challenge_id version now ref s).1
  unfolding Challenges.consume_pending
  consume_pending-Steps version now = elim (Option-cases (snapshot_date now)) [
    | inl e ↦ rw e done
    | inr (time, e) ↦
        rw e (update_at-Steps (take_pending version time) (take_pending-Move version time))
  ]

due_parts :
    (tenant_id : Text) (now : Time) (r : ChallengeRecord)
    → is_due tenant_id now r ≡ true
    → (r.status ≡ ChallengeStatus.pending) × (r.expires_at ≤ now)
unfolding is_due
due_parts tenant_id now r h = ground arith

module _ (tenant_id : Text) (ref : ℕ) (s : MemoryState) where
  expire_all-Steps :
      (limit : ℕ) (now : Time)
      → IsDistinct text_discrete (keys s.challenges)
      → Steps s (record s {
        challenges =
            (cleanup_loop
              (is_due tenant_id now)
              (expire now)
              limit
              ref
              s.challenges
              0
              s.challenges).1;
      })
  expire_all-Steps limit now d =
      cleanup_loop_inv (is_due tenant_id now) (expire now) limit ref
        (λ m. Steps s (record s { challenges = m }))
        (λ key c m found due before.
          let (pending, over) = due_parts tenant_id now c.value due in
          Steps-trans before (
            Steps-one
              (Step.set_challenge key ref c _ found (ChallengeMove.expire now (inl pending) over))))
        s.challenges 0 s.challenges d (Agrees-self text_discrete s.challenges d) done

  pub cleanup_challenges-Steps :
      (now : Date) (limit : Option ℕ)
      → IsDistinct text_discrete (keys s.challenges)
      → Steps s (Challenges.cleanup_expired tenant_id now limit ref s).1
  unfolding Challenges.cleanup_expired
  cleanup_challenges-Steps now limit d = elim (Option-cases (cleanup_limit limit)) [
    | inl e ↦ rw e done
    | inr (bound, e) ↦ elim (Option-cases (snapshot_date now)) [
      | inl f ↦ rw (e, f) done
      | inr (time, f) ↦ rw (e, f) (expire_all-Steps bound time d)
    ]
  ]
