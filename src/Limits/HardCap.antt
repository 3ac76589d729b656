-- ===== src/Limits/HardCap.antt =====
-- A reservation keeps every hard cap.
use tokenpanel.Prelude.{
  ℕ, zero, suc, ◌+◌, ◌≤◌, ◌<◌, ◌≡◌, refl, subst, true, List, [], ◌∷◌, arith, All, some, ◌⊎◌,
  some_inj, Bool-cases, inl, inr,
}
use tokenpanel.Prelude.Int.{pos_part}
use tokenpanel.Limits.{
  allows_cap_overshoot, RateLimitRule, Estimates, LimitReservation, reserve_max_attempts,
}
use tokenpanel.Limits.Keyed.{All-map}
use tokenpanel.Limits.Counters.{CounterStore, IsCounterStore}
use tokenpanel.Limits.Reserve.{
  PlannedHold, plan_holds, Admission, reserved, attempt_reserve, reserve_loop, Outcome, conflict,
  failure, commits, reserve_limits,
}
use tokenpanel.Limits.Attempts.{
  IsPlanned, plan_holds-IsPlanned, window_total, CapKept, attempt_kept,
}

module _ (c : CounterStore) (laws : IsCounterStore c) (org customer now_ms : ℕ) where
  open c use {Db, rows}

  List-cases :
      {A : Type 0} (xs : List A) → (xs ≡ []) ⊎ ((x : A) × (rest : List A) × (xs ≡ x ∷ rest))
  List-cases [] = inl refl
  List-cases (x ∷ xs) = inr (x, xs, refl)

  outcome_cases :
      (o : Outcome c)
      → (o ≡ conflict) ⊎ ((o ≡ failure) ⊎ ((seen : Db) × (db : Db) × (o ≡ commits seen db)))
  outcome_cases conflict = inl refl
  outcome_cases failure = inr (inl refl)
  outcome_cases (commits seen db) = inr (inr (seen, db, refl))

  -- The first of `n` attempts that does not conflict commits, with this answer.
  abbrev CommitsFirst : (ℕ → Outcome c) → ℕ → List PlannedHold → Admission × Db → Type 0
  CommitsFirst attempt n ps a =
      (k : ℕ) × (k < n)
      × ((j : ℕ) → j < k → attempt j ≡ conflict)
      × ((seen : Db) × (db : Db) × (attempt k ≡ commits seen db)
          × (attempt_reserve c org customer ps now_ms seen db ≡ a))

  earlier :
      (k : ℕ) (attempt : ℕ → Outcome c)
      → attempt 0 ≡ conflict
      → ((j : ℕ) → j < k → attempt (suc j) ≡ conflict)
      → (j : ℕ) → j < suc k
      → attempt j ≡ conflict
  earlier k attempt first rest zero l = first
  earlier k attempt first rest (suc j) l = rest j (omega (arith, l))

  later :
      (n : ℕ) (attempt : ℕ → Outcome c) (ps : List PlannedHold) (a : Admission × Db)
      → attempt 0 ≡ conflict
      → CommitsFirst (λ k. attempt (suc k)) n ps a
      → CommitsFirst attempt (suc n) ps a
  later n attempt ps a first (k, l, rest, committed) =
      (suc k, omega (arith, l), earlier k attempt first rest, committed)

  loop_commits :
      (n : ℕ) (attempt : ℕ → Outcome c) (ps : List PlannedHold) (a : Admission × Db)
      → reserve_loop c attempt n org customer ps now_ms ≡ some a
      → CommitsFirst attempt n ps a
  unfolding reserve_loop
  loop_commits zero attempt ps a = λ h. ground (arith, h)
  loop_commits (suc n) attempt ps a = elim (outcome_cases (attempt 0)) [
    | inl e ↦
        rw (e, reserve_loop)
          (λ h. later n attempt ps a e (loop_commits n (λ k. attempt (suc k)) ps a h))
    | inr (inl e) ↦ rw (e, reserve_loop) (λ h. ground (arith, h))
    | inr (inr (seen, db, e)) ↦
        rw (e, reserve_loop)
          (λ h. (0, omega arith, λ j l. absurd (omega (arith, l)), (seen, db, e, some_inj h)))
  ]

  -- The cap of a planned hold is soft; or, with the attempt that committed, from the snapshot `seen` on
  -- the state `db`, the claim fits the snapshot, and the sum of its window in the state after the commit passes the cap at most by
  -- what the window of `db` has more than that of `seen`.
  abbrev pub SoftOrKept : (ℕ → Outcome c) → Db → PlannedHold → Type 0
  SoftOrKept attempt db' p =
      (allows_cap_overshoot p.rule.dimension ≡ true)
      ⊎ ((k : ℕ) × (k < 8)
          × ((j : ℕ) → j < k → attempt j ≡ conflict)
          × ((seen : Db) × (db : Db) × (attempt k ≡ commits seen db)
              × (window_total c laws org customer now_ms p seen + pos_part p.increment
                  ≤ p.rule.cap_value)
              × (window_total c laws org customer now_ms p seen
                    + window_total c laws org customer now_ms p db'
                  ≤ p.rule.cap_value + window_total c laws org customer now_ms p db)))

  soft_or_kept :
      (attempt : ℕ → Outcome c) (k : ℕ) (seen db db' : Db) (p : PlannedHold)
      → k < 8
      → ((j : ℕ) → j < k → attempt j ≡ conflict)
      → attempt k ≡ commits seen db
      → CapKept c laws org customer now_ms seen db db' p
      → SoftOrKept attempt db' p
  soft_or_kept attempt k seen db db' p l first e h =
      elim (Bool-cases (allows_cap_overshoot p.rule.dimension)) [
        | inl soft ↦ inl soft
        | inr hard ↦ inr (k, l, first, (seen, db, e, (h hard).0, (h hard).1))
      ]

  planned_kept :
      (attempt : ℕ → Outcome c) (planned : List PlannedHold) (db' : Db) (r : LimitReservation)
      → All (IsPlanned c laws org customer now_ms) planned
      → CommitsFirst attempt 8 planned (reserved r, db')
      → All (SoftOrKept attempt db') planned
  planned_kept attempt planned db' r h (k, l, first, (seen, db, e, a)) =
      All-map (CapKept c laws org customer now_ms seen db db') (SoftOrKept attempt db')
        (λ p. soft_or_kept attempt k seen db db' p l first e) planned
        (attempt_kept c laws org customer now_ms planned seen db db' r h a)

  -- When a request is admitted, one of eight attempts committed after conflicts only. For every rule
  -- that the request claims something of, unless the rule's dimension is money, the window's sum in
  -- the snapshot that the attempt read is within the cap together with the claim, and the sum after
  -- the commit passes the cap at most by what was added to the window between the snapshot and the
  -- commit.
  pub reserve_keeps_caps :
      (attempt : ℕ → Outcome c) (rules : List RateLimitRule) (estimates : Estimates) (db db' : Db)
      (r : LimitReservation)
      → reserve_limits c attempt org customer rules estimates now_ms db ≡ some (reserved r, db')
      → All (SoftOrKept attempt db') (plan_holds rules estimates now_ms)
  unfolding reserve_limits
  reserve_keeps_caps attempt rules estimates db db' r =
      elim (List-cases (plan_holds rules estimates now_ms)) [
        | inl e ↦ rw e (λ h. tt)
        | inr (p, ps, e) ↦
            let planned = plan_holds rules estimates now_ms in
            rw (e, reserve_limits)
              (λ h. subst (All (SoftOrKept attempt db')) e (
                planned_kept attempt planned db' r
                  (plan_holds-IsPlanned c laws org customer now_ms rules estimates)
                  (loop_commits reserve_max_attempts attempt planned (reserved r, db') h)))
      ]
