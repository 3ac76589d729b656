-- ===== src/Limits/Retries.antt =====
-- The time of a bucket, and the attempts of a reservation.
use tokenpanel.Prelude.{
  ℕ, zero, suc, ◌+◌, ◌*◌, ◌≤◌, ◌<◌, ◌≡◌, refl, ap, ◌∙◌, List, ◌∷◌, arith, some, Bool-cases, inl,
  inr, leb,
}
use tokenpanel.Limits.{bucket_duration_seconds, bucket_start_for, RateLimitRule, Estimates}
use tokenpanel.Limits.Counters.{CounterStore}
use tokenpanel.Limits.Reserve.{
  PlannedHold, plan_holds, attempt_reserve, reserve_loop, reserve_limits, Outcome, conflict,
  commits,
}

-- A time is in its bucket: not before the start, and before the end; and a bucket is never longer
-- than its window.
pub in_bucket :
    (now_ms window_seconds : ℕ)
    → 0 < window_seconds
    → (bucket_start_for now_ms window_seconds ≤ now_ms)
      × (now_ms
          < bucket_start_for now_ms window_seconds + bucket_duration_seconds window_seconds * 1000)
      × (bucket_duration_seconds window_seconds ≤ window_seconds)
unfolding bucket_start_for bucket_duration_seconds
in_bucket now_ms w h = elim (Bool-cases (leb w 60)) [
  | inl e ↦ rw e (omega arith, omega arith, omega arith)
  | inr e ↦ elim (Bool-cases (leb w 3600)) [
    | inl f ↦ rw (e, f) (omega arith, omega arith, ground arith)
    | inr f ↦ rw (e, f) (omega arith, omega arith, ground arith)
  ]
]

module _ (c : CounterStore) (org customer now_ms : ℕ) where
  open c use {Db}

  loop_retries :
      (n k : ℕ) (attempt : ℕ → Outcome c) (ps : List PlannedHold) (seen db : Db)
      → k < n
      → ((j : ℕ) → j < k → attempt j ≡ conflict)
      → attempt k ≡ commits seen db
      → reserve_loop c attempt n org customer ps now_ms
        ≡ some (attempt_reserve c org customer ps now_ms seen db)
  unfolding reserve_loop
  loop_retries zero k attempt ps seen db h conflicts e = ground arith
  loop_retries (suc n) zero attempt ps seen db h conflicts e = rw (e, reserve_loop) refl
  loop_retries (suc n) (suc k) attempt ps seen db h conflicts e =
      rw (conflicts 0 (omega arith), reserve_loop)
        (loop_retries n k (λ j. attempt (suc j)) ps seen db (omega (arith, h))
          (λ j l. conflicts (suc j) (omega (arith, l))) e)

  -- If fewer than eight attempts conflict before one commits, the request gets that one's answer,
  -- checked against the snapshot that it read and written to the state on which it commits.
  pub reserve_retries :
      (k : ℕ) (attempt : ℕ → Outcome c) (rules : List RateLimitRule) (estimates : Estimates)
      (p : PlannedHold) (ps : List PlannedHold) (start seen db : Db)
      → plan_holds rules estimates now_ms ≡ p ∷ ps
      → k < 8
      → ((j : ℕ) → j < k → attempt j ≡ conflict)
      → attempt k ≡ commits seen db
      → reserve_limits c attempt org customer rules estimates now_ms start
        ≡ some (attempt_reserve c org customer (p ∷ ps) now_ms seen db)
  unfolding reserve_limits
  reserve_retries k attempt rules estimates p ps start seen db planned h conflicts e =
      rw (planned, reserve_limits)
        (loop_retries 8 k attempt (plan_holds rules estimates now_ms) seen db h conflicts e
          ∙ ap (λ qs. some (attempt_reserve c org customer qs now_ms seen db)) planned)
