-- ===== src/Limits/Examples.antt =====
-- Counters kept in a list, and requests admitted against them.
use tokenpanel.Prelude.{
  ℕ, ◌+◌, ◌*◌, ◌≤◌, ◌<◌, ◌≡◌, refl, true, Option, none, some, List, [], ◌∷◌, All, map, max, Text,
  codes, arith, same, zero, suc,
}
use tokenpanel.Prelude.Int.{pos, ◌+ℤ◌, ◌-ℤ◌}
use tokenpanel.Limits.{
  Dimension, tokens, requests, customer, RateLimitRule, Estimates, LimitReservation,
  bucket_start_for, bucket_duration_seconds, estimated_rule_increment, resolve_scope_target,
}
use tokenpanel.Limits.{LimitHold, clamp_settle_delta, hard_cap_room, rule_increment, model}
use tokenpanel.Limits.Settle.{window_sum, settle_hold, settle_rules, settle_limits}
use tokenpanel.Limits.Settling.{settle_hold_keeps_cap}
use tokenpanel.Limits.Keyed.{Distinct, Any}
use tokenpanel.Limits.Counters.{
  Counter, CounterWrite, CounterStore, IsCounterStore, in_window, is_bucket, add_count,
  find_window_counters, write_counter, bulk_upsert_counters,
}
use tokenpanel.Limits.Streams.{same_stream, collapse_rules_by_stream}
use tokenpanel.Limits.Strictest.{collapse_strictest, IsStrictFor}
use tokenpanel.Limits.Writes.{same_write_key, coalesce_counter_writes}
use tokenpanel.Limits.Writes.Coalesce.{coalesce_claims, IsClaim, StandsFor}
use tokenpanel.Limits.Reserve.{
  plan_holds, hold_of, reserved, split_holds, finish, attempt_reserve, reserve_loop, reserve_limits,
  Outcome, conflict, commits,
}
use tokenpanel.Limits.InMemory.{counters_in_memory, counters_in_memory-laws}
use tokenpanel.Limits.Wire.{parse_limit_reservation, serialize_limit_reservation, reservation_back}
use tokenpanel.Limits.HardCap.{reserve_keeps_caps, SoftOrKept}
use tokenpanel.Limits.Retries.{in_bucket, reserve_retries}

abbrev store : CounterStore
store = counters_in_memory

abbrev laws : IsCounterStore store
laws = counters_in_memory-laws

abbrev rule : Text → Dimension → ℕ → RateLimitRule
rule id dimension cap = record {
  id = id;
  window_seconds = 3600;
  dimension = dimension;
  cap_value = cap;
  scope = customer;
  scope_target = none;
  active = true;
}

abbrev rules : List RateLimitRule
rules =
    rule (codes "a") tokens 1000 ∷ rule (codes "b") requests 5 ∷ rule (codes "c") tokens 900 ∷ []

abbrev estimates : Estimates
estimates = record {
  estimated_tokens = some (pos 400);
  estimated_spend_micros = none;
  model_alias_id = none;
}

-- 90,000,000 ms is the start of a minute; 300 tokens were used then.
abbrev db : List Counter
db =
    record {
      organization_id = 7;
      customer_id = 4;
      dimension = tokens;
      window_seconds = 3600;
      bucket_start = 90000000;
      scope_target = none;
      count = 300;
    }
    ∷ []

-- The first attempt conflicts.
abbrev attempt : ℕ → Outcome store
attempt zero = conflict
attempt (suc n) = commits db db

collapse_strictest_example :
    Distinct (same_stream (λ t. t)) (collapse_rules_by_stream (λ t. t) rules)
    × All (λ r. r.active ≡ true) (collapse_rules_by_stream (λ t. t) rules)
    × All (λ r. Any (λ s. IsStrictFor (λ t. t) s r) (collapse_rules_by_stream (λ t. t) rules)) rules
collapse_strictest_example = collapse_strictest (λ t. t) rules

abbrev writes : List CounterWrite
writes =
    record {
      dimension = tokens;
      window_seconds = 60;
      bucket_start = 5;
      scope_target = none;
      increment = pos 7;
    }
    ∷ record {
      dimension = tokens;
      window_seconds = 60;
      bucket_start = 5;
      scope_target = none;
      increment = pos 4;
    }
    ∷ []

coalesce_claims_example :
    Distinct same_write_key (coalesce_counter_writes writes)
    × All IsClaim (coalesce_counter_writes writes)
    × All (λ e. Any (λ s. StandsFor s e) (coalesce_counter_writes writes)) writes
coalesce_claims_example = coalesce_claims writes (omega arith, (omega arith, tt))

in_bucket_example :
    (bucket_start_for 90012345 3600 ≤ 90012345)
    × (90012345 < bucket_start_for 90012345 3600 + bucket_duration_seconds 3600 * 1000)
    × (bucket_duration_seconds 3600 ≤ 3600)
in_bucket_example = in_bucket 90012345 3600 (omega arith)

-- Both rules on tokens are met by one write.
abbrev counter_at : Dimension → ℕ → Counter
counter_at dimension count = record {
  organization_id = 7;
  customer_id = 4;
  dimension = dimension;
  window_seconds = 3600;
  bucket_start = 90000000;
  scope_target = none;
  count = count;
}

abbrev db_after : List Counter
db_after = counter_at tokens 700 ∷ counter_at requests 1 ∷ []

abbrev reservation : LimitReservation
reservation = record {
  organization_id = 7;
  customer_id = 4;
  holds = map hold_of (plan_holds rules estimates 90012345);
}

reserve_runs :
    reserve_limits store attempt 7 4 rules estimates 90012345 []
    ≡ some (reserved reservation, db_after)
unfolding reserve_limits plan_holds reserve_loop attempt_reserve split_holds finish
    find_window_counters in_window is_bucket add_count bulk_upsert_counters write_counter
    coalesce_counter_writes same_write_key bucket_start_for bucket_duration_seconds
    estimated_rule_increment resolve_scope_target same ◌+ℤ◌
reserve_runs = refl

reserve_keeps_caps_example :
    All (SoftOrKept store laws 7 4 90012345 attempt db_after) (plan_holds rules estimates 90012345)
reserve_keeps_caps_example =
    reserve_keeps_caps store laws 7 4 90012345 attempt rules estimates [] db_after reservation
      reserve_runs

-- A request that read 300 tokens, and another that commits 400 in the bucket before in between: both
-- are admitted under the caps of 1000 and 900, and the window then counts 1100.
abbrev skew : ℕ → Outcome store
skew n = commits db (record (counter_at tokens 400) { bucket_start = 89940000 } ∷ db)

skewed :
    reserve_limits store skew 7 4 rules estimates 90012345 []
    ≡ some (
      reserved reservation,
      record (counter_at tokens 400) { bucket_start = 89940000 } ∷ db_after,
    )
unfolding reserve_limits plan_holds reserve_loop attempt_reserve split_holds finish
    find_window_counters in_window is_bucket add_count bulk_upsert_counters write_counter
    coalesce_counter_writes same_write_key bucket_start_for bucket_duration_seconds
    estimated_rule_increment resolve_scope_target same ◌+ℤ◌
skewed = refl

first_conflicts : (j : ℕ) → j < 1 → attempt j ≡ conflict
first_conflicts zero h = refl
first_conflicts (suc j) h = ground arith

reserve_retries_example :
    reserve_limits store attempt 7 4 rules estimates 90012345 []
    ≡ some (attempt_reserve store 7 4 (plan_holds rules estimates 90012345) 90012345 db db)
unfolding plan_holds estimated_rule_increment resolve_scope_target
reserve_retries_example =
    reserve_retries store 7 4 90012345 1 attempt rules estimates _ _ [] db db refl (omega arith)
      first_conflicts refl

-- A hold of 400 tokens that became 900: the window holds 700 of 1000.
abbrev held_tokens : LimitHold
held_tokens = record {
  rule_id = codes "a";
  dimension = tokens;
  window_seconds = 3600;
  bucket_start = 90000000;
  scope_target = none;
  reserved = pos 400;
  cap_value = 1000;
}

settle_hold_keeps_cap_example :
    window_sum store 4 tokens 3600 none 90012345 (
      bulk_upsert_counters store 7 4
        (settle_hold store 4 held_tokens (pos 900) 90012345 db_after)
        db_after)
    ≤ max (window_sum store 4 tokens 3600 none 90012345 db_after) 1000
settle_hold_keeps_cap_example =
    settle_hold_keeps_cap store laws 7 4 90012345 held_tokens (pos 900) db_after refl

-- Two rules of different streams that count the requests for model "x" in one counter, both holding
-- 10 tokens of 60: the stricter has no room left and writes nothing, so the other's claim is not
-- reduced to it, and the counter goes above the stricter cap of 100.
abbrev shared_rule : Text → Option Text → ℕ → RateLimitRule
shared_rule id target cap = record (rule id tokens cap) { scope = model; scope_target = target }

abbrev shared_hold : Text → ℕ → LimitHold
shared_hold id cap = record held_tokens {
  rule_id = id;
  scope_target = some (codes "x");
  reserved = pos 10;
  cap_value = cap;
}

abbrev shared_counter : ℕ → Counter
shared_counter n = record (counter_at tokens n) { scope_target = some (codes "x") }

shared_cap_passed :
    settle_limits store
      (some (record {
        organization_id = 7;
        customer_id = 4;
        holds = shared_hold (codes "a") 100 ∷ shared_hold (codes "b") 1000 ∷ [];
      }))
      7
      4
      (shared_rule (codes "a") none 100 ∷ shared_rule (codes "b") (some (codes "x")) 1000 ∷ [])
      (record { tokens = pos 60; spend_micros = pos 0; model_alias_id = some (codes "x") })
      90012345
      (shared_counter 100 ∷ [])
    ≡ shared_counter 150 ∷ []
unfolding settle_limits settle_rules settle_hold window_sum clamp_settle_delta hard_cap_room
    rule_increment resolve_scope_target find_window_counters in_window is_bucket add_count
    bulk_upsert_counters write_counter coalesce_counter_writes same_write_key same ◌+ℤ◌ ◌-ℤ◌
shared_cap_passed = refl

abbrev wired : LimitReservation
wired = record {
  organization_id = 7;
  customer_id = 4;
  holds =
      record {
        rule_id = codes "a";
        dimension = tokens;
        window_seconds = 3600;
        bucket_start = 90000000;
        scope_target = none;
        reserved = pos 400;
        cap_value = 1000;
      }
      ∷ [];
}

abbrev date_text : ℕ → Text
date_text t = t ∷ []

abbrev date_in : Text → Option ℕ
date_in [] = none
date_in (t ∷ rest) = some t

reservation_back_example :
    parse_limit_reservation date_in 7 4 (serialize_limit_reservation date_text (some wired))
    ≡ some wired
reservation_back_example =
    reservation_back date_text date_in (λ t. refl) wired
      ((ground arith, (400, refl, ground arith)), tt)
