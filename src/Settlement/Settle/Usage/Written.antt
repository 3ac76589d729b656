-- ===== src/Settlement/Settle/Usage/Written.antt =====
-- What a settlement is given, and the documents that it writes: the usage record, the entry of the
-- ledger and the usage of the limits.
use tokenpanel.Prelude.{ℕ, Bool, true, false, not, Option, none, some, List, ltb, length, Text}
use tokenpanel.Prelude.Int.{ℤ, pos, neg, leb_ℤ, at_least_zero}
use tokenpanel.Billing.Charges.{Usage, Protocol}
use tokenpanel.Limits
use tokenpanel.Limits.{RateLimitRule, LimitReservation}
use tokenpanel.Settlement.Settle.Record.{SettlementActor, UsageRecord, BalanceAdjustment}

pub record SettleUsageParams : Type 0 where
  pub org_id : ℕ
  pub actor : SettlementActor
  pub model_alias_id : Text
  pub provider_id : ℕ
  pub upstream_model_id : Text
  pub protocol : Protocol
  pub usage : Usage
  pub cost_micros : ℤ
  pub price_micros : ℤ
  pub currency : Text
  pub provider_request_id : Option Text
  pub gateway_request_id : Option Text
  pub status : ℕ
  pub duration_ms : ℤ
  pub error_code : Option Text
  pub rules : List RateLimitRule
  pub occurred_at : ℕ
  pub reserved_micros : Option ℤ
  pub limit_reservation : Option LimitReservation
  pub rethrow_guard_failure : Bool

-- The object ids that are minted, and the clock.
pub record Fresh : Type 0 where
  pub usage_id : ℕ
  pub adjustment_id : ℕ
  pub now : ℕ

abbrev pub or_zero_ℤ : Option ℤ → ℤ
or_zero_ℤ none = pos 0
or_zero_ℤ (some n) = n

abbrev pub is_some : {A : Type 0} → Option A → Bool
is_some none = false
is_some (some a) = true

abbrev pub is_positive : ℤ → Bool
is_positive n = not (leb_ℤ n (pos 0))

-- `Math.max(0, params.reservedMicros ?? 0)`
abbrev pub reserved_of : SettleUsageParams → ℤ
reserved_of p = at_least_zero (or_zero_ℤ p.reserved_micros)

-- `holds.length > 0`
abbrev pub has_holds : Option LimitReservation → Bool
has_holds none = false
has_holds (some r) = ltb 0 (length r.holds)

-- The record under its compacted key, with the total that was computed.
unfoldable pub usage_record : SettleUsageParams → Option Text → ℕ → Fresh → UsageRecord
usage_record p key total fresh = record {
  id = fresh.usage_id;
  organization_id = p.org_id;
  customer_id = p.actor.customer_id;
  api_key_id = p.actor.api_key_id;
  actor_kind = p.actor.actor_kind;
  management_key_id = p.actor.management_key_id;
  customer_email = p.actor.customer_email;
  model_alias_id = p.model_alias_id;
  provider_id = p.provider_id;
  upstream_model_id = p.upstream_model_id;
  protocol = p.protocol;
  prompt_tokens = p.usage.prompt_tokens;
  completion_tokens = p.usage.completion_tokens;
  reasoning_tokens = or_zero_ℤ p.usage.reasoning_tokens;
  cache_read_tokens = or_zero_ℤ p.usage.cache_read_tokens;
  cache_write_tokens = or_zero_ℤ p.usage.cache_write_tokens;
  total_tokens = total;
  cost_micros = p.cost_micros;
  price_micros = p.price_micros;
  currency = p.currency;
  provider_request_id = p.provider_request_id;
  gateway_request_id = key;
  billed = is_some p.actor.customer_id;
  error_code = p.error_code;
  status = p.status;
  duration_ms = p.duration_ms;
  occurred_at = p.occurred_at;
  created_at = fresh.now;
  updated_at = fresh.now;
}

unfoldable pub usage_debit : SettleUsageParams → ℕ → Fresh → BalanceAdjustment
usage_debit p customer fresh = record {
  id = fresh.adjustment_id;
  organization_id = p.org_id;
  customer_id = customer;
  amount_micros = neg p.price_micros;
  currency = p.currency;
  occurred_at = p.occurred_at;
  created_at = fresh.now;
  updated_at = fresh.now;
}

unfoldable pub usage_payload : SettleUsageParams → ℕ → Limits.Usage
usage_payload p total = record {
  tokens = pos total;
  spend_micros = p.price_micros;
  model_alias_id = some p.model_alias_id;
}
