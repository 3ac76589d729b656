-- ===== src/Settlement/Settle/OrOutbox.antt =====
-- `settleUsageOrOutbox`: reported usage is settled; usage that is missing, or whose settlement
-- fails, goes to the outbox.
use tokenpanel.Prelude.{ℕ, true, Option, none, some, List, [], ◌∷◌, Text, codes}
use tokenpanel.Prelude.Int.{ℤ, pos, at_least_zero}
use tokenpanel.Mongo.{Collection}
use tokenpanel.Billing.Charges.{
  Protocol, openai, anthropic, Usage, Model, ModelEntry, Charges, compute_charges,
  resolve_cache_accounting, cache_accounting_for_protocol,
}
use tokenpanel.Limits.{RateLimitRule, LimitReservation}
use tokenpanel.Settlement.Outbox
use tokenpanel.Settlement.Outbox.{Row, text, Context}
use tokenpanel.Settlement.Outbox.Service.{
  EnqueueOutboxParams, enqueue_settlement_outbox, resolve_gateway_request_id,
}
use tokenpanel.Providers.ProviderUsage.{ProviderUsage, reported, missing}
use tokenpanel.Settlement.Settle.Record.{
  SettlementActor, SettleError, guard, duplicate_key, system, SettleResult, done, failed, Stores,
  State,
}
use tokenpanel.Settlement.Settle.Transaction.{Commit}
use tokenpanel.Settlement.Settle.Usage.{SettleUsageParams, Fresh, settle_usage}
use tokenpanel.Settlement.Settle.Context.{Platform, ReconContext, outbox_recon_context}

pub data UsageStatus : Type 0 where
  as_reported as_missing : UsageStatus

-- The part of an upstream's response that is read here.
pub record ChatResponse : Type 0 where
  pub usage_status : Option UsageStatus
  pub usage : Usage
  pub usage_missing_reason : Option Text
  pub provider_request_id : Option Text

pub record SettleUsageOrOutboxParams : Type 0 where
  pub org_id : ℕ
  pub actor : SettlementActor
  pub model : Model
  pub model_alias_id : Text
  pub entry : ModelEntry
  pub upstream_model_id : Text
  pub provider_id : ℕ
  pub protocol : Protocol
  pub provider_usage : Option ProviderUsage
  pub response : Option ChatResponse
  pub provider_request_id : Option Text
  pub gateway_request_id : Option Text
  pub reserved_micros : Option ℤ
  pub limit_reservation : Option LimitReservation
  pub status : ℕ
  pub duration_ms : ℕ
  pub error_code : Option Text
  pub rules : List RateLimitRule
  pub price_micros_override : Option ℤ
  pub occurred_at : ℕ

-- What is minted on the way: for the settlement, for a row of the outbox, and for a request that
-- has no id at all.
pub record Minted : Type 0 where
  pub fresh : Fresh
  pub outbox_id : ℕ
  pub gateway_request_id : Text

pub data SettleOrOutbox : Type 0 where
  settled : SettleOrOutbox
  outboxed : ℕ → SettleOrOutbox

abbrev missing_reason : Option Text → Option UsageStatus → Text
missing_reason (some reason) status = reason
missing_reason none (some as_missing) = codes "usage_missing"
missing_reason none _ = codes "usage_status_unspecified"

abbrev of_response : Option ChatResponse → ProviderUsage
of_response none = missing (codes "usage_not_provided") none
of_response (some r) = elim r.usage_status [
  | some as_reported ↦ reported r.usage
  | some as_missing ↦
      missing (missing_reason r.usage_missing_reason r.usage_status) r.provider_request_id
  | none ↦ missing (missing_reason r.usage_missing_reason r.usage_status) r.provider_request_id
]

unfoldable pub provider_usage_of : SettleUsageOrOutboxParams → ProviderUsage
provider_usage_of p = elim p.provider_usage [ some u ↦ u | none ↦ of_response p.response ]

abbrev response_id : Option ChatResponse → Option Text
response_id none = none
response_id (some r) = r.provider_request_id

abbrev upstream_request_id : ProviderUsage → Option ChatResponse → Option Text
upstream_request_id (missing reason id) response = id
upstream_request_id (reported u) response = response_id response

abbrev pub or_else : {A : Type 0} → Option A → Option A → Option A
or_else (some a) b = some a
or_else none b = b

abbrev pub request_id : SettleUsageOrOutboxParams → Option Text
request_id p = or_else p.provider_request_id (upstream_request_id (provider_usage_of p) p.response)

abbrev pub key_of : Platform → SettleUsageOrOutboxParams → Minted → Text
key_of platform p minted =
    resolve_gateway_request_id platform.sha256_hex p.gateway_request_id (request_id p)
      (platform.to_hex p.org_id) minted.gateway_request_id

abbrev pub outbox_protocol : Protocol → Outbox.Protocol
outbox_protocol openai = Outbox.openai
outbox_protocol anthropic = Outbox.anthropic

abbrev pub reserved_micros_of : SettleUsageOrOutboxParams → ℤ
reserved_micros_of p = elim p.reserved_micros [ none ↦ pos 0 | some n ↦ at_least_zero n ]

-- `outboxBase` with a reason and a context.
unfoldable pub outbox_params :
    Platform → SettleUsageOrOutboxParams → Minted → Text → Context → EnqueueOutboxParams
unfolding provider_usage_of resolve_gateway_request_id
outbox_params platform p minted reason context = record {
  organization_id = p.org_id;
  customer_id = p.actor.customer_id;
  gateway_request_id = key_of platform p minted;
  reason = reason;
  model_alias_id = p.model_alias_id;
  provider_id = some p.provider_id;
  upstream_model_id = some p.upstream_model_id;
  protocol = some (outbox_protocol p.protocol);
  provider_request_id = request_id p;
  context = some context;
}

-- The context of a request without usage.
unfoldable pub missing_context : SettleUsageOrOutboxParams → Text → ReconContext
missing_context p reason = record {
  actor = p.actor;
  model = p.model;
  entry = p.entry;
  provider_id = p.provider_id;
  upstream_model_id = p.upstream_model_id;
  status = p.status;
  duration_ms = p.duration_ms;
  error_code = p.error_code;
  usage = none;
  price_micros = none;
  cost_micros = none;
  currency = none;
  price_micros_override = p.price_micros_override;
  rules = some p.rules;
  occurred_at = p.occurred_at;
  cache_accounting = some (cache_accounting_for_protocol p.protocol);
  reserved_micros = some (reserved_micros_of p);
  limit_reservation = p.limit_reservation;
  extra = (codes "reason", text reason) ∷ [];
}

-- The usage under its mode, and what it costs.
unfoldable pub priced_usage : SettleUsageOrOutboxParams → Usage → Usage
priced_usage p u = record u {
  cache_accounting =
      some (resolve_cache_accounting u (some (cache_accounting_for_protocol p.protocol)));
}

unfoldable pub charges_of : SettleUsageOrOutboxParams → Usage → Charges
unfolding compute_charges priced_usage
charges_of p u =
    compute_charges p.entry p.model (priced_usage p u) (priced_usage p u).cache_accounting

unfoldable pub final_price : SettleUsageOrOutboxParams → Usage → ℤ
unfolding charges_of
final_price p u = elim p.price_micros_override [
  | some price ↦ price
  | none ↦ pos (charges_of p u).price_micros
]

unfoldable pub settle_params :
    Platform → SettleUsageOrOutboxParams → Minted → Usage → SettleUsageParams
unfolding priced_usage charges_of final_price provider_usage_of resolve_gateway_request_id
settle_params platform p minted u = record {
  org_id = p.org_id;
  actor = p.actor;
  model_alias_id = p.model_alias_id;
  provider_id = p.provider_id;
  upstream_model_id = p.upstream_model_id;
  protocol = p.protocol;
  usage = priced_usage p u;
  cost_micros = pos (charges_of p u).cost_micros;
  price_micros = final_price p u;
  currency = (charges_of p u).currency;
  provider_request_id = request_id p;
  gateway_request_id = some (key_of platform p minted);
  status = p.status;
  duration_ms = pos p.duration_ms;
  error_code = p.error_code;
  rules = p.rules;
  occurred_at = p.occurred_at;
  reserved_micros = some (reserved_micros_of p);
  limit_reservation = p.limit_reservation;
  rethrow_guard_failure = true;
}

abbrev pub failure_reason : SettleError → Text
failure_reason (guard message) = codes "settlement_guard_failed"
failure_reason _ = codes "settlement_failed"

-- The message of the error, for the context.
abbrev error_message : SettleError → Text
error_message (guard message) = message
error_message duplicate_key = codes "duplicate_key"
error_message system = codes "system_error"

unfoldable pub failure_context : SettleUsageOrOutboxParams → Usage → SettleError → ReconContext
unfolding priced_usage charges_of final_price
failure_context p u e = record {
  actor = p.actor;
  model = p.model;
  entry = p.entry;
  provider_id = p.provider_id;
  upstream_model_id = p.upstream_model_id;
  status = p.status;
  duration_ms = p.duration_ms;
  error_code = p.error_code;
  usage = some (priced_usage p u);
  price_micros = some (final_price p u);
  cost_micros = some (charges_of p u).cost_micros;
  currency = some (charges_of p u).currency;
  price_micros_override = p.price_micros_override;
  rules = some p.rules;
  occurred_at = p.occurred_at;
  cache_accounting = (priced_usage p u).cache_accounting;
  reserved_micros = some (reserved_micros_of p);
  limit_reservation = p.limit_reservation;
  extra = (codes "error", text (error_message e)) ∷ [];
}

module _ (platform : Platform) (s : Stores) (c : Collection Row) where
  -- The answer, the state of the stores, and the outbox.
  abbrev pub Outcome : Type 0
  Outcome = SettleResult SettleOrOutbox × (State s × c.Db)

  abbrev pub enqueued : State s → Outbox.Result ℕ × c.Db → Outcome
  enqueued st (Outbox.ok id, outbox) = (done (outboxed id), (st, outbox))
  enqueued st (Outbox.err e, outbox) = (failed system, (st, outbox))

  unfoldable pub to_outbox :
      SettleUsageOrOutboxParams → Minted → Text → ReconContext → State s → c.Db → Outcome
  unfolding outbox_params outbox_recon_context enqueue_settlement_outbox
  to_outbox p minted reason context st outbox = enqueued st (
      enqueue_settlement_outbox platform.sha256_hex c
        (outbox_params platform p minted reason (outbox_recon_context platform context))
        minted.outbox_id minted.fresh.now outbox)

  abbrev pub after_settle :
      SettleUsageOrOutboxParams → Minted → Usage → c.Db → SettleResult Unit × State s → Outcome
  after_settle p minted u outbox (done x, st) = (done settled, (st, outbox))
  after_settle p minted u outbox (failed e, st) =
      to_outbox p minted (failure_reason e) (failure_context p u e) st outbox

  abbrev pub by_usage :
      SettleUsageOrOutboxParams
      → Minted
      → Commit
      → s.usage.Db
      → State s
      → c.Db
      → ProviderUsage
      → Outcome
  by_usage p minted commit seen st outbox (missing reason id) =
      to_outbox p minted reason (missing_context p reason) st outbox
  by_usage p minted commit seen st outbox (reported u) = after_settle p minted u outbox (
      settle_usage platform.sha256_hex s (settle_params platform p minted u) minted.fresh commit
        seen st)

  unfoldable pub settle_usage_or_outbox :
      SettleUsageOrOutboxParams → Minted → Commit → s.usage.Db → State s → c.Db → Outcome
  unfolding provider_usage_of missing_context failure_context settle_params settle_usage to_outbox
  settle_usage_or_outbox p minted commit seen st outbox =
      by_usage p minted commit seen st outbox (provider_usage_of p)
