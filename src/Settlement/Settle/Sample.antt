-- ===== src/Settlement/Settle/Sample.antt =====
-- Collections and a request, to try settlements on.
use tokenpanel.Prelude.{ℕ, Option, Bool, true, none, some, List, [], ◌∷◌, Text, codes, ◌==◌}
use tokenpanel.Prelude.Int.{ℤ, pos}
use tokenpanel.Mongo.{in_memory, in_memory-IsCollection}
use tokenpanel.Billing.Balance.{Customer, active}
use tokenpanel.Billing.Charges.{openai, subset, Usage, Model, ModelEntry, TokenPriceSchedule}
use tokenpanel.Limits.{RateLimitRule}
use tokenpanel.Limits.InMemory.{counters_in_memory}
use tokenpanel.Providers.ProviderUsage.{missing}
use tokenpanel.Settlement.Settle.Record.{
  SettlementActor, BalanceAdjustment, Stores, State, clash, customer_key,
}
use tokenpanel.Settlement.Settle.Usage.{SettleUsageParams, Fresh}
use tokenpanel.Settlement.Settle.Context.{Platform}
use tokenpanel.Settlement.Settle.OrOutbox.{SettleUsageOrOutboxParams, Minted}
use tokenpanel.Settlement.Settle.Paying.{IsStores}

abbrev pub same_id : Customer → Customer → Bool
same_id a b = a.id == b.id

abbrev pub same_adjustment : BalanceAdjustment → BalanceAdjustment → Bool
same_adjustment a b = a.id == b.id

abbrev pub stores : Stores
stores = record {
  usage = in_memory clash;
  customers = in_memory same_id;
  adjustments = in_memory same_adjustment;
  counters = counters_in_memory;
}

abbrev pub stores-IsStores : IsStores stores
stores-IsStores = record {
  adjustment_clash = same_adjustment;
  customer_clash = same_id;
  usage = in_memory-IsCollection clash;
  customers = in_memory-IsCollection same_id;
  adjustments = in_memory-IsCollection same_adjustment;
}

-- A customer with 1000 micros, of which 600 are held.
abbrev pub customer : Customer
customer = record {
  id = 8;
  organization_id = 7;
  status = active;
  balance = record {
    amount_micros = some (pos 1000);
    amount_units = none;
    amount_minor = none;
    reserved_micros = some (pos 600);
    reserved_units = none;
    reserved_minor = none;
    currency = codes "USD";
  };
  updated_at = 0;
}

abbrev pub start : State stores
start = record { usage = []; customers = customer ∷ []; adjustments = []; counters = [] }

abbrev pub no_rules : List RateLimitRule
no_rules = []

abbrev pub actor : SettlementActor
actor = record {
  actor_kind = customer_key;
  customer_id = some 8;
  api_key_id = none;
  management_key_id = none;
  customer_email = none;
}

abbrev pub used : Usage
used = record {
  prompt_tokens = 100;
  completion_tokens = 20;
  reasoning_tokens = none;
  cache_read_tokens = none;
  cache_write_tokens = none;
  total_tokens = 120;
  cache_accounting = some subset;
}

abbrev pub params : ℤ → SettleUsageParams
params price = record {
  org_id = 7;
  actor = actor;
  model_alias_id = codes "m";
  provider_id = 9;
  upstream_model_id = codes "up";
  protocol = openai;
  usage = used;
  cost_micros = pos 300;
  price_micros = price;
  currency = codes "USD";
  provider_request_id = none;
  gateway_request_id = some (codes "gw_1");
  status = 200;
  duration_ms = pos 40;
  error_code = none;
  rules = no_rules;
  occurred_at = 50;
  reserved_micros = some (pos 600);
  limit_reservation = none;
  rethrow_guard_failure = true;
}

abbrev pub fresh : Fresh
fresh = record { usage_id = 1; adjustment_id = 2; now = 60 }

abbrev pub digest : Text → Text
digest t = t

abbrev pub prices : TokenPriceSchedule
prices = record {
  input = 1000000;
  output = 5000000;
  reasoning = none;
  cache_read = none;
  cache_write = none;
  input_audio = none;
  output_audio = none;
}

abbrev pub entry : ModelEntry
entry = record { id = 1; cost = none; price = none; priority = 0; active = true }

abbrev pub model : Model
model = record { entries = entry ∷ []; output_limit = none; price = prices; currency = codes "USD" }

abbrev pub request : SettleUsageOrOutboxParams
request = record {
  org_id = 7;
  actor = actor;
  model = model;
  model_alias_id = codes "m";
  entry = entry;
  upstream_model_id = codes "up";
  provider_id = 9;
  protocol = openai;
  provider_usage = some (missing (codes "usage_malformed") none);
  response = none;
  provider_request_id = some (codes "req_1");
  gateway_request_id = some (codes "gw_1");
  reserved_micros = some (pos 600);
  limit_reservation = none;
  status = 200;
  duration_ms = 40;
  error_code = none;
  rules = no_rules;
  price_micros_override = none;
  occurred_at = 50;
}

abbrev pub head : Text → Option ℕ
head [] = none
head (n ∷ rest) = some n

abbrev pub platform : Platform
platform = record {
  sha256_hex = digest;
  to_hex = λ n. n ∷ [];
  of_hex = head;
  to_iso_string = λ n. n ∷ [];
  parse_date = head;
}

abbrev pub minted : Minted
minted = record { fresh = fresh; outbox_id = 3; gateway_request_id = codes "gw_f" }
