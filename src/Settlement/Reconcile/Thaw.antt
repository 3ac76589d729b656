-- ===== src/Settlement/Reconcile/Thaw.antt =====
-- What a row and its context say of the request: the parameters of the late settlement.
mod Fields
mod Entries
use tokenpanel.Prelude.{
  ℕ, Bool, true, false, ◌&&◌, Option, none, some, List, [], ◌∷◌, ◌==◌, ltb, leb, length, Text,
  codes, same, if◌then◌else◌,
}
use tokenpanel.Prelude.Int.{ℤ, pos, pos_part, leb_ℤ}
use tokenpanel.Billing.Charges.{
  CacheAccountingMode, subset, additive, Protocol, openai, anthropic, ChargeSchedule, Usage,
  apply_token_schedule, cache_accounting_for_protocol,
}
use tokenpanel.Limits.{RateLimitRule, LimitReservation}
use tokenpanel.Limits.Wire.{LimitHoldWire, parse_limit_reservation}
use tokenpanel.Providers.ProviderUsage.{max_safe}
use tokenpanel.Settlement.Outbox
use tokenpanel.Settlement.Outbox.{
  Value, text, number, usage, schedule, rules, limit_holds, Context, Row,
}
use tokenpanel.Settlement.Settle.Record.{
  ActorKind, customer_key, management_key, playground, SettlementActor,
}
use tokenpanel.Settlement.Settle.Usage.{SettleUsageParams, is_positive}
use tokenpanel.Settlement.Settle.Context.{Platform}
pub use Fields.{
  lookup, as_text, as_number, as_schedule, as_rules, as_holds, as_usage, or_else, chain, filled,
  is_some, with_default, kind_of,
}
unfoldable pub use Fields.{is_token_usage}
pub use Entries.{
  Entry, ModelDoc, provider_id_of, upstream_of, price_of, schedule_of, same_entry, find_exact,
  stub_at, stub, resolve_filled, currency_in,
}
unfoldable pub use Entries.{resolve_entry, reconstructed_price, reconstruct_frozen_attribution}

unfoldable pub actor_from_context : Platform → Row → Context → SettlementActor
actor_from_context platform row ctx = record {
  actor_kind = kind_of (as_text (lookup (codes "actorKind") ctx));
  customer_id = row.customer_id;
  api_key_id = chain platform.of_hex (as_text (lookup (codes "apiKeyId") ctx));
  management_key_id = chain platform.of_hex (as_text (lookup (codes "managementKeyId") ctx));
  customer_email = as_text (lookup (codes "customerEmail") ctx);
}

abbrev pub mode_in : Option Text → Option CacheAccountingMode
mode_in none = none
mode_in (some t) =
    if same t (codes "subset")
    then some subset
    else if same t (codes "additive")
    then some additive
    else none

abbrev pub protocol_of : Option Outbox.Protocol → Protocol
protocol_of (some Outbox.anthropic) = anthropic
protocol_of (some Outbox.openai) = openai
protocol_of none = openai

unfoldable pub frozen_mode : Context → Usage → Protocol → CacheAccountingMode
unfolding cache_accounting_for_protocol
frozen_mode ctx u protocol =
    with_default
      (or_else (mode_in (as_text (lookup (codes "cacheAccounting") ctx))) u.cache_accounting)
      (cache_accounting_for_protocol protocol)

abbrev waived : Option ℤ → ℤ → ℤ
waived none price = price
waived (some n) price = if leb_ℤ n (pos 0) && leb_ℤ (pos 0) n then pos 0 else price

-- The frozen price, or the price by the schedule, which an override of 0 waives.
unfoldable pub final_price : Context → Entry → ModelDoc → Usage → CacheAccountingMode → ℤ
unfolding apply_token_schedule
final_price ctx entry model u mode = elim (price_of ctx) [
  | some price ↦ price
  | none ↦
      let by = with_default (schedule_of ctx) (with_default entry.price model.price) in
      waived (as_number (lookup (codes "priceMicrosOverride") ctx))
        (pos (apply_token_schedule by u (some mode)))
]

unfoldable pub final_cost : Context → Usage → CacheAccountingMode → ℤ
unfolding apply_token_schedule
final_cost ctx u mode = elim (as_number (lookup (codes "costMicros") ctx)) [
  | some cost ↦ cost
  | none ↦ elim (as_schedule (lookup (codes "costSchedule") ctx)) [
    | some s ↦ pos (apply_token_schedule s u (some mode))
    | none ↦ pos 0
  ]
]

-- `effective` is the answer of `getEffectiveRules`, or none if that fails.
unfoldable pub rules_of : Context → Option ℕ → List RateLimitRule → List RateLimitRule
rules_of ctx customer effective = elim (as_rules (lookup (codes "rules") ctx)) [
  | some rs ↦ rs
  | none ↦ if is_some customer then effective else []
]

abbrev pub reserved_in : Option ℤ → ℤ
reserved_in none = pos 0
reserved_in (some n) = if leb_ℤ n (pos max_safe) && is_positive n then n else pos 0

abbrev pub reservation_in : Platform → Row → Context → Option LimitReservation
reservation_in platform row ctx = elim row.customer_id [
  | none ↦ none
  | some customer ↦
      parse_limit_reservation platform.parse_date row.organization_id customer
        (as_holds (lookup (codes "limitHolds") ctx))
]

-- A status below 0 becomes 0: the schema of the record refuses both.
abbrev status_in : Option ℤ → ℕ
status_in none = 200
status_in (some n) = pos_part n

-- The parameters of the settlement, from the row, its usage, the model and the entry.
unfoldable pub thawed_params :
    Platform → Row → Usage → ℕ → ModelDoc → Entry → List RateLimitRule → SettleUsageParams
unfolding actor_from_context frozen_mode final_price final_cost rules_of parse_limit_reservation
thawed_params platform row u provider model entry effective =
    let ctx = row.context in
    let protocol = protocol_of row.protocol in
    let mode = frozen_mode ctx u protocol in
    let with_mode : Usage = record u { cache_accounting = some mode } in
    record {
      org_id = row.organization_id;
      actor = actor_from_context platform row ctx;
      model_alias_id = row.model_alias_id;
      provider_id = provider;
      upstream_model_id = entry.upstream_model_id;
      protocol = protocol;
      usage = with_mode;
      cost_micros = final_cost ctx with_mode mode;
      price_micros = final_price ctx entry model with_mode mode;
      currency = currency_in ctx model.currency;
      provider_request_id = row.provider_request_id;
      gateway_request_id = some row.gateway_request_id;
      status = status_in (as_number (lookup (codes "status") ctx));
      duration_ms = with_default (as_number (lookup (codes "durationMs") ctx)) (pos 0);
      error_code = as_text (lookup (codes "errorCode") ctx);
      rules = rules_of ctx row.customer_id effective;
      occurred_at =
          with_default (chain platform.parse_date (as_text (lookup (codes "occurredAt") ctx)))
            row.created_at;
      reserved_micros = some (reserved_in (as_number (lookup (codes "reservedMicros") ctx)));
      limit_reservation = reservation_in platform row ctx;
      rethrow_guard_failure = true;
    }
