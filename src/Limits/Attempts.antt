-- ===== src/Limits/Attempts.antt =====
-- One attempt of a reservation keeps the hard caps.
use tokenpanel.Prelude.{
  ℕ, ◌+◌, ◌≤◌, ◌≡◌, refl, ap, ◌∙◌, sym, subst, Bool, true, false, List, [], ◌∷◌, map, arith,
  if◌then◌else◌, All, Bool-cases, Option-cases, inl, inr,
}
use tokenpanel.Prelude.Int.{ℤ, pos, pos_part, ◌+ℤ◌, leb_ℤ}
use tokenpanel.Limits.{
  allows_cap_overshoot, RateLimitRule, Estimates, estimated_rule_increment, resolve_scope_target,
  LimitReservation, ViolatedLimit,
}
use tokenpanel.Limits.Keyed.{Any}
use tokenpanel.Limits.Counters.{
  Counter, CounterStore, IsCounterStore, in_window, sum_counts, find_window_counters,
  bulk_upsert_counters,
}
use tokenpanel.Limits.Writes.{coalesce_counter_writes}
use tokenpanel.Limits.Writes.Coalesce.{
  IsClaim, StandsFor, coalesce-Distinct, coalesce-covers, claimed_le,
}
use tokenpanel.Limits.Windows.{bulk_le}
use tokenpanel.Limits.Reserve.{
  PlannedHold, plan_holds, exceeds, write_of, Admission, reserved, window_docs, split_holds, finish,
  attempt_reserve, violation,
}
use tokenpanel.Limits.FallsIn.{AtTime, coalesce-AtTime, added_le}

-- What a step of the loop of an attempt makes of the rest.
abbrev sorted :
    Bool
    → ViolatedLimit
    → PlannedHold
    → List ViolatedLimit
    → List PlannedHold
    → List ViolatedLimit × List PlannedHold
sorted b v p bad good = if b then (v ∷ bad, good) else (bad, p ∷ good)

both_empty :
    (b : Bool) (v : ViolatedLimit) (p : PlannedHold) (bad : List ViolatedLimit)
    (good : List PlannedHold)
    → (sorted b v p bad good).0 ≡ []
    → (b ≡ false) × (bad ≡ []) × ((sorted b v p bad good).1 ≡ p ∷ good)
both_empty true v p bad good h = ground arith
both_empty false v p bad good h = (refl, h, refl)

module _ (c : CounterStore) (laws : IsCounterStore c) (org customer now_ms : ℕ) where
  open c use {Db, rows}

  -- A planned hold claims something of the bucket of the time.
  abbrev pub IsPlanned : PlannedHold → Type 0
  IsPlanned p = (leb_ℤ p.increment (pos 0) ≡ false) × AtTime now_ms (write_of p)

  pub plan_holds-IsPlanned :
      (rules : List RateLimitRule) (estimates : Estimates)
      → All IsPlanned (plan_holds rules estimates now_ms)
  unfolding plan_holds
  plan_holds-IsPlanned [] estimates = tt
  plan_holds-IsPlanned (rule ∷ rules) estimates =
      let rest = plan_holds-IsPlanned rules estimates in
      elim (Bool-cases rule.active) [
        | inr e ↦ rw e rest
        | inl e ↦ rw e (elim (Option-cases (resolve_scope_target rule estimates.model_alias_id)) [
          | inl n ↦ rw n rest
          | inr (target, n) ↦
              rw n (elim (Bool-cases (leb_ℤ (estimated_rule_increment rule estimates) (pos 0))) [
                | inl z ↦ rw z rest
                | inr z ↦ rw z ((z, refl), rest)
              ])
        ])
      ]

  split_holds-All :
      (ps : List PlannedHold) (db : Db)
      → (split_holds c customer ps now_ms db).0 ≡ []
      → ((split_holds c customer ps now_ms db).1 ≡ ps)
        × All (λ p. exceeds (window_docs c customer p db) p.increment p.rule.cap_value ≡ false) ps
  unfolding split_holds
  split_holds-All [] db h = (refl, tt)
  split_holds-All (p ∷ ps) db h =
      let (bad, good) = split_holds c customer ps now_ms db in
      let docs = window_docs c customer p db in
      let (e, b, g) =
        both_empty (exceeds docs p.increment p.rule.cap_value) (violation p.rule docs now_ms) p bad
          good h in
      let (same_ps, rest) = split_holds-All ps db b in (g ∙ ap (λ qs. p ∷ qs) same_ps, (e, rest))

  fits :
      (docs : List Counter) (n : ℤ) (cap : ℕ)
      → exceeds docs n cap ≡ false
      → leb_ℤ n (pos 0) ≡ false
      → sum_counts docs + pos_part n ≤ cap
  unfolding ◌+ℤ◌
  fits docs n cap h k = ground arith

  -- The sum of a planned hold's window.
  abbrev pub window_total : PlannedHold → Db → ℕ
  window_total p db = sum_counts (window_docs c customer p db)

  hold_kept :
      (ps : List PlannedHold) (p : PlannedHold) (seen db : Db)
      → All IsClaim (map write_of ps)
      → All (AtTime now_ms) (map write_of ps)
      → Any (λ s. StandsFor s (write_of p)) (coalesce_counter_writes (map write_of ps))
      → IsPlanned p
      → exceeds (window_docs c customer p seen) p.increment p.rule.cap_value ≡ false
      → allows_cap_overshoot p.rule.dimension ≡ false
      → window_total p seen
          + window_total p
              (bulk_upsert_counters c org customer (coalesce_counter_writes (map write_of ps)) db)
        ≤ p.rule.cap_value + window_total p db
  unfolding find_window_counters
  hold_kept ps p seen db claims times covers planned fit hard =
      let es = coalesce_counter_writes (map write_of ps) in
      let f = in_window customer p.rule.dimension p.rule.window_seconds p.window_start p.target in
      rw (laws.find_lem f (bulk_upsert_counters c org customer es db), laws.find_lem f db)
        (omega (
          arith,
          bulk_le customer p.rule.dimension p.rule.window_seconds p.window_start p.target c laws org
              customer es db,
          added_le c laws org customer now_ms p.window_start (write_of p) es hard planned.1
              (coalesce-AtTime now_ms (map write_of ps) times),
          claimed_le (write_of p) es (coalesce-Distinct (map write_of ps)) covers,
          fits (window_docs c customer p seen) p.increment p.rule.cap_value fit planned.0,
        ))

  IsPlanned-claims : (ps : List PlannedHold) → All IsPlanned ps → All IsClaim (map write_of ps)
  IsPlanned-claims [] h = tt
  IsPlanned-claims (p ∷ ps) h = (ground (arith, h.0.0), IsPlanned-claims ps h.1)

  IsPlanned-times :
      (ps : List PlannedHold) → All IsPlanned ps → All (AtTime now_ms) (map write_of ps)
  IsPlanned-times [] h = tt
  IsPlanned-times (p ∷ ps) h = (h.0.1, IsPlanned-times ps h.1)

  -- For a hard cap: the claim fits the snapshot, and the sum of the window after a commit, `db'`, passes the cap at most by what the
  -- window of `db`, the state before the commit, has more than that of the snapshot.
  abbrev pub CapKept : Db → Db → Db → PlannedHold → Type 0
  CapKept seen db db' p =
      allows_cap_overshoot p.rule.dimension ≡ false
      → (window_total p seen + pos_part p.increment ≤ p.rule.cap_value)
        × (window_total p seen + window_total p db' ≤ p.rule.cap_value + window_total p db)

  -- By recursion on a part of the planned holds, with the writes of all of them.
  holds_kept :
      (all ps : List PlannedHold) (seen db : Db)
      → All IsPlanned all
      → All IsPlanned ps
      → All
          (λ e. Any (λ s. StandsFor s e) (coalesce_counter_writes (map write_of all)))
          (map write_of ps)
      → All (λ p. exceeds (window_docs c customer p seen) p.increment p.rule.cap_value ≡ false) ps
      → All
          (CapKept seen db
            (bulk_upsert_counters c org customer (coalesce_counter_writes (map write_of all)) db))
          ps
  holds_kept all [] seen db h k covers fit = tt
  holds_kept all (p ∷ ps) seen db h k covers fit = (
    (λ hard. (
      fits (window_docs c customer p seen) p.increment p.rule.cap_value fit.0 k.0.0,
      hold_kept all p seen db (IsPlanned-claims all h) (IsPlanned-times all h) covers.0 k.0 fit.0
          hard,
    )),
    holds_kept all ps seen db h k.1 covers.1 fit.1,
  )

  finish_reserved :
      (bad : List ViolatedLimit) (good : List PlannedHold) (db db' : Db) (r : LimitReservation)
      → finish c org customer bad good db ≡ (reserved r, db')
      → (bad ≡ [])
        × (bulk_upsert_counters c org customer (coalesce_counter_writes (map write_of good)) db
            ≡ db')
  unfolding finish
  finish_reserved [] good db db' r e = (refl, ap (λ (x : Admission × Db). x.1) e)
  finish_reserved (v ∷ vs) good db db' r e = ground (arith, ap (λ (x : Admission × Db). x.0) e)

  pub attempt_kept :
      (ps : List PlannedHold) (seen db db' : Db) (r : LimitReservation)
      → All IsPlanned ps
      → attempt_reserve c org customer ps now_ms seen db ≡ (reserved r, db')
      → All (CapKept seen db db') ps
  unfolding attempt_reserve
  attempt_kept ps seen db db' r h e =
      let (empty, written) =
        finish_reserved (split_holds c customer ps now_ms seen).0
          (split_holds c customer ps now_ms seen).1 db db' r e in
      let (same_ps, fit) = split_holds-All ps seen empty in
      subst (λ d. All (CapKept seen db d) ps)
        (ap
            (λ qs.
              bulk_upsert_counters c org customer (coalesce_counter_writes (map write_of qs)) db)
            (sym same_ps)
          ∙ written)
        (holds_kept ps ps seen db h h (coalesce-covers (map write_of ps) (IsPlanned-claims ps h))
          fit)
