-- ===== src/Limits/Reserve.antt =====
-- Admission: the check of the rolling windows and the atomic hold on the counters.
use tokenpanel.Prelude.{
  ℕ, zero, suc, ◌-◌, ◌*◌, ◌/◌, max, Bool, true, false, Option, none, some, List, [], ◌∷◌, map, ltb,
  if◌then◌else◌, Text,
}
use tokenpanel.Prelude.Int.{ℤ, pos, sub_ℕ, ◌+ℤ◌, leb_ℤ}
use tokenpanel.Limits.{
  RateLimitRule, ViolatedLimit, Estimates, LimitHold, LimitReservation, estimated_rule_increment,
  resolve_scope_target, bucket_start_for, reserve_max_attempts,
}
use tokenpanel.Limits.Counters.{
  Counter, CounterWrite, CounterStore, find_window_counters, bulk_upsert_counters, sum_counts,
}
use tokenpanel.Limits.Writes.{coalesce_counter_writes}

pub record PlannedHold : Type 0 where
  pub rule : RateLimitRule
  pub target : Option Text
  pub increment : ℤ
  pub bucket_start : ℕ
  pub window_start : ℤ

abbrev planned_hold : RateLimitRule → Option Text → ℤ → ℕ → PlannedHold
planned_hold rule target increment now_ms = record {
  rule = rule;
  target = target;
  increment = increment;
  bucket_start = bucket_start_for now_ms rule.window_seconds;
  window_start = sub_ℕ now_ms (rule.window_seconds * 1000);
}

unfoldable pub plan_holds : List RateLimitRule → Estimates → ℕ → List PlannedHold
unfolding resolve_scope_target estimated_rule_increment bucket_start_for
plan_holds [] estimates now_ms = []
plan_holds (rule ∷ rules) estimates now_ms =
    let rest = plan_holds rules estimates now_ms in
    let increment = estimated_rule_increment rule estimates in
    if rule.active
    then elim (resolve_scope_target rule estimates.model_alias_id) [
      | none ↦ rest
      | some target ↦
          if leb_ℤ increment (pos 0) then rest else planned_hold rule target increment now_ms ∷ rest
    ]
    else rest

-- The earliest bucket of the window, or the time itself.
abbrev pub oldest_bucket : ℕ → List Counter → ℕ
oldest_bucket oldest [] = oldest
oldest_bucket oldest (r ∷ rs) =
    oldest_bucket (if ltb r.bucket_start oldest then r.bucket_start else oldest) rs

abbrev pub violation : RateLimitRule → List Counter → ℕ → ViolatedLimit
violation rule docs now_ms = record {
  rule = rule;
  current = sum_counts docs;
  cap = rule.cap_value;
  retry_after_seconds = max 1 (rule.window_seconds - (now_ms - oldest_bucket now_ms docs) / 1000);
}

-- `current + increment > cap`
abbrev pub exceeds : List Counter → ℤ → ℕ → Bool
exceeds docs increment cap =
    if leb_ℤ (pos (sum_counts docs) +ℤ increment) (pos cap) then false else true

abbrev pub hold_of : PlannedHold → LimitHold
hold_of p = record {
  rule_id = p.rule.id;
  dimension = p.rule.dimension;
  window_seconds = p.rule.window_seconds;
  bucket_start = p.bucket_start;
  scope_target = p.target;
  reserved = p.increment;
  cap_value = p.rule.cap_value;
}

abbrev pub write_of : PlannedHold → CounterWrite
write_of p = record {
  dimension = p.rule.dimension;
  window_seconds = p.rule.window_seconds;
  bucket_start = p.bucket_start;
  scope_target = p.target;
  increment = p.increment;
}

pub data Admission : Type 0 where
  reserved : LimitReservation → Admission
  violated : List ViolatedLimit → Admission

module _ (c : CounterStore) where
  open c use {Db}

  -- The documents that a planned hold is checked against.
  abbrev pub window_docs : ℕ → PlannedHold → Db → List Counter
  window_docs customer p db =
      find_window_counters c customer p.rule.dimension p.rule.window_seconds p.window_start p.target
        db

  unfoldable pub check_limits : ℕ → List RateLimitRule → Estimates → ℕ → Db → List ViolatedLimit
  unfolding find_window_counters resolve_scope_target estimated_rule_increment
  check_limits customer [] estimates now_ms db = []
  check_limits customer (rule ∷ rules) estimates now_ms db =
      let rest = check_limits customer rules estimates now_ms db in
      let increment = estimated_rule_increment rule estimates in
      elim (resolve_scope_target rule estimates.model_alias_id) [
        | none ↦ rest
        | some target ↦
            if leb_ℤ increment (pos 0)
            then rest
            else (let docs =
                  find_window_counters c customer rule.dimension rule.window_seconds
                    (sub_ℕ now_ms (rule.window_seconds * 1000)) target db in
                if exceeds docs increment rule.cap_value
                then violation rule docs now_ms ∷ rest
                else rest)
      ]

  -- The loop of an attempt: the violations, and the holds that pass.
  unfoldable pub split_holds : ℕ → List PlannedHold → ℕ → Db → List ViolatedLimit × List PlannedHold
  unfolding find_window_counters
  split_holds customer [] now_ms db = ([], [])
  split_holds customer (p ∷ ps) now_ms db =
      let (bad, good) = split_holds customer ps now_ms db in
      let docs = window_docs customer p db in
      if exceeds docs p.increment p.rule.cap_value
      then (violation p.rule docs now_ms ∷ bad, good)
      else (bad, p ∷ good)

  -- No violation: the holds are written. Else nothing is.
  unfoldable pub finish : ℕ → ℕ → List ViolatedLimit → List PlannedHold → Db → Admission × Db
  unfolding coalesce_counter_writes bulk_upsert_counters
  finish org customer [] good db = (
    reserved (record { organization_id = org; customer_id = customer; holds = map hold_of good }),
    bulk_upsert_counters c org customer (coalesce_counter_writes (map write_of good)) db,
  )
  finish org customer (v ∷ vs) good db = (violated (v ∷ vs), db)

  -- One transaction: `seen` is the snapshot that it reads, and `db` the state to which its writes are
  -- added when it commits.
  unfoldable pub attempt_reserve : ℕ → ℕ → List PlannedHold → ℕ → Db → Db → Admission × Db
  unfolding split_holds finish
  attempt_reserve org customer planned now_ms seen db =
      let (bad, good) = split_holds customer planned now_ms seen in finish org customer bad good db

  -- How the transaction of an attempt ends: on a conflict it is tried again; else it commits, or
  -- fails for another reason. Transactions have snapshot isolation: in between the snapshot and the
  -- commit, others may have written documents that this one reads but does not write.
  pub data Outcome : Type 0 where
    conflict failure : Outcome
    commits : Db → Db → Outcome

  -- `none` is a failure of the database.
  unfoldable pub reserve_loop :
      (ℕ → Outcome) → ℕ → ℕ → ℕ → List PlannedHold → ℕ → Option (Admission × Db)
  unfolding attempt_reserve
  reserve_loop attempt zero org customer planned now_ms = none
  reserve_loop attempt (suc left) org customer planned now_ms =
      let again = reserve_loop (λ k. attempt (suc k)) left org customer planned now_ms in
      elim (attempt 0) [
        | conflict ↦ again
        | failure ↦ none
        | commits seen db ↦ some (attempt_reserve org customer planned now_ms seen db)
      ]

  -- `db` is the state when nothing is planned.
  unfoldable pub reserve_limits :
      (ℕ → Outcome) → ℕ → ℕ → List RateLimitRule → Estimates → ℕ → Db → Option (Admission × Db)
  unfolding plan_holds reserve_loop
  reserve_limits attempt org customer rules estimates now_ms db =
      let planned = plan_holds rules estimates now_ms in
      let run = reserve_loop attempt reserve_max_attempts org customer planned now_ms in
      elim planned [
        | [] ↦
            some
              (reserved (record { organization_id = org; customer_id = customer; holds = [] }), db)
        | p ∷ ps ↦ run
      ]

  -- The decision without a write.
  unfoldable pub reserve_limits_dry_run :
      ℕ → ℕ → List RateLimitRule → Estimates → ℕ → Db → Admission
  unfolding plan_holds check_limits
  reserve_limits_dry_run org customer rules estimates now_ms db =
      let planned = plan_holds rules estimates now_ms in
      let bad = check_limits customer rules estimates now_ms db in
      elim planned [
        | [] ↦ reserved (record { organization_id = org; customer_id = customer; holds = [] })
        | p ∷ ps ↦ elim bad [
          | [] ↦ reserved (record {
            organization_id = org;
            customer_id = customer;
            holds = map hold_of (p ∷ ps);
          })
          | v ∷ vs ↦ violated (v ∷ vs)
        ]
      ]
