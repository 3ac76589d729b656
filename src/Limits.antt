-- ===== src/Limits.antt =====
-- Rolling rate limits: apps/api/src/lib/rate-limits.ts, the identity of a rule's stream in
-- packages/contracts/src/rate-limits.ts, and the counters of
-- apps/api/src/infrastructure/mongo/repositories/usage.ts. Caps are whole numbers here; the schema
-- admits fractions.
pub mod Keyed
pub mod Counters
pub mod Writes
pub mod Streams
pub mod Windows
pub mod Reserve
pub mod Settle
pub mod FallsIn
pub mod Attempts
pub mod HardCap
pub mod Settling
pub mod Strictest
pub mod Retries
pub mod Wire
pub mod InMemory
mod Examples
use mathlib.Core.Option
use tokenpanel.Prelude.{
  ℕ, ◌+◌, ◌-◌, ◌*◌, ◌/◌, max, Bool, true, false, not, ◌&&◌, ◌||◌, Option, none, some, List, [], ◌∷◌,
  ◌==◌, leb, ltb, if◌then◌else◌, Text, codes, same,
}
use tokenpanel.Prelude.Int.{ℤ, pos, pos_part, sub_ℕ, leb_ℤ, at_least_zero, ◌-ℤ◌}

pub data Dimension : Type 0 where
  tokens requests spend_units spend_micros : Dimension

pub data Scope : Type 0 where
  customer plan model : Scope

pub record RateLimitRule : Type 0 where
  pub id : Text
  pub window_seconds : ℕ
  pub dimension : Dimension
  pub cap_value : ℕ
  pub scope : Scope
  pub scope_target : Option Text
  pub active : Bool

pub record ViolatedLimit : Type 0 where
  pub rule : RateLimitRule
  pub current : ℕ
  pub cap : ℕ
  pub retry_after_seconds : ℕ

pub record Usage : Type 0 where
  pub tokens : ℤ
  pub spend_micros : ℤ
  pub model_alias_id : Option Text

pub record Estimates : Type 0 where
  pub estimated_tokens : Option ℤ
  pub estimated_spend_micros : Option ℤ
  pub model_alias_id : Option Text

pub record LimitHold : Type 0 where
  pub rule_id : Text
  pub dimension : Dimension
  pub window_seconds : ℕ
  pub bucket_start : ℕ
  pub scope_target : Option Text
  pub reserved : ℤ
  pub cap_value : ℕ

pub record LimitReservation : Type 0 where
  pub organization_id : ℕ
  pub customer_id : ℕ
  pub holds : List LimitHold

abbrev pub reserve_max_attempts : ℕ
reserve_max_attempts = 8

unfoldable pub rule_increment : RateLimitRule → Usage → ℤ
rule_increment rule usage = elim rule.dimension [
  | tokens ↦ usage.tokens
  | requests ↦ pos 1
  | spend_units ↦ usage.spend_micros
  | spend_micros ↦ usage.spend_micros
]

-- `Math.max(0, n ?? 0)`
abbrev or_zero : Option ℤ → ℤ
or_zero none = pos 0
or_zero (some n) = at_least_zero n

unfoldable pub estimated_rule_increment : RateLimitRule → Estimates → ℤ
estimated_rule_increment rule estimates = elim rule.dimension [
  | tokens ↦ or_zero estimates.estimated_tokens
  | requests ↦ pos 1
  | spend_units ↦ or_zero estimates.estimated_spend_micros
  | spend_micros ↦ or_zero estimates.estimated_spend_micros
]

abbrev pub allows_cap_overshoot : Dimension → Bool
allows_cap_overshoot tokens = false
allows_cap_overshoot requests = false
allows_cap_overshoot spend_units = true
allows_cap_overshoot spend_micros = true

unfoldable pub hard_cap_room : ℕ → ℕ → ℕ
hard_cap_room cap_value window_sum = cap_value - window_sum

abbrev pub min_ℤ : ℤ → ℤ → ℤ
min_ℤ a b = if leb_ℤ a b then a else b

abbrev pub max_ℤ : ℤ → ℤ → ℤ
max_ℤ a b = if leb_ℤ a b then b else a

unfoldable pub clamp_settle_delta : Dimension → ℤ → ℕ → ℕ → ℤ
unfolding hard_cap_room
clamp_settle_delta dimension delta cap_value window_sum =
    if leb_ℤ delta (pos 0)
    then delta
    else if allows_cap_overshoot dimension
    then delta
    else min_ℤ delta (pos (hard_cap_room cap_value window_sum))

abbrev is_set : Option Text → Bool
is_set none = false
is_set (some []) = false
is_set (some (c ∷ cs)) = true

abbrev pub same_target : Option Text → Option Text → Bool
same_target none none = true
same_target (some a) (some b) = same a b
same_target _ _ = false

-- `none` is `undefined`, the rule is skipped; `some none` is `null`.
unfoldable pub resolve_scope_target : RateLimitRule → Option Text → Option (Option Text)
resolve_scope_target rule model_alias_id = elim rule.scope [
  | customer ↦ some none
  | plan ↦ some none
  | model ↦
      if is_set rule.scope_target
      then (if same_target model_alias_id rule.scope_target then some rule.scope_target else none)
      else elim model_alias_id [ some m ↦ some (some m) | none ↦ none ]
]

unfoldable pub bucket_duration_seconds : ℕ → ℕ
bucket_duration_seconds window_seconds =
    if leb window_seconds 60 then 1 else if leb window_seconds 3600 then 60 else 300

-- Milliseconds. A quotient of a quotient is the quotient by the product.
unfoldable pub bucket_start_for : ℕ → ℕ → ℕ
unfolding bucket_duration_seconds
bucket_start_for now_ms window_seconds =
    let bucket = bucket_duration_seconds window_seconds in now_ms / 1000 / bucket * bucket * 1000

abbrev pub dimension_code : Dimension → ℕ
dimension_code tokens = 0
dimension_code requests = 1
dimension_code spend_units = 2
dimension_code spend_micros = 3

-- The money dimension under either label.
abbrev pub stream_dimension : Dimension → Dimension
stream_dimension spend_units = spend_micros
stream_dimension d = d

abbrev pub same_dimension : Dimension → Dimension → Bool
same_dimension a b = dimension_code a == dimension_code b
