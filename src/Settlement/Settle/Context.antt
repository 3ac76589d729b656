-- ===== src/Settlement/Settle/Context.antt =====
-- `outboxReconContext`: what the outbox keeps of a request, for a later settlement at the same terms.
use tokenpanel.Prelude.{ℕ, Option, none, some, List, [], ◌∷◌, Text, codes, if◌then◌else◌}
use tokenpanel.Prelude.Int.{ℤ, pos}
use tokenpanel.Billing.Charges.{
  CacheAccountingMode, subset, additive, TokenPriceSchedule, ChargeSchedule, Usage, Model,
  ModelEntry, entry_price, resolve_cache_accounting,
}
use tokenpanel.Limits.{RateLimitRule, LimitReservation}
use tokenpanel.Limits.Wire.{serialize_limit_reservation}
use tokenpanel.Settlement.Outbox.{
  Value, text, null, number, usage, schedule, rules, limit_holds, Context,
}
use tokenpanel.Settlement.Settle.Record.{
  ActorKind, customer_key, management_key, playground, SettlementActor,
}
use tokenpanel.Settlement.Settle.Usage.{is_positive}

-- What is not under this repository: the digest of node:crypto as hex, the hex of object ids of the
-- driver and its reading, and the text of dates of the language and its reading.
pub record Platform : Type 0 where
  pub sha256_hex : Text → Text
  pub to_hex : ℕ → Text
  pub of_hex : Text → Option ℕ
  pub to_iso_string : ℕ → Text
  pub parse_date : Text → Option ℕ

-- The parameters that the request gives to the context.
pub record ReconContext : Type 0 where
  pub actor : SettlementActor
  pub model : Model
  pub entry : ModelEntry
  pub provider_id : ℕ
  pub upstream_model_id : Text
  pub status : ℕ
  pub duration_ms : ℕ
  pub error_code : Option Text
  pub usage : Option Usage
  pub price_micros : Option ℤ
  pub cost_micros : Option ℕ
  pub currency : Option Text
  pub price_micros_override : Option ℤ
  pub rules : Option (List RateLimitRule)
  pub occurred_at : ℕ
  pub cache_accounting : Option CacheAccountingMode
  pub reserved_micros : Option ℤ
  pub limit_reservation : Option LimitReservation
  pub extra : Context

abbrev pub kind_text : ActorKind → Text
kind_text customer_key = codes "customer_key"
kind_text management_key = codes "management_key"
kind_text playground = codes "playground"

abbrev pub mode_text : CacheAccountingMode → Text
mode_text subset = codes "subset"
mode_text additive = codes "additive"

abbrev pub or_null : Option Text → Value
or_null none = null
or_null (some t) = text t

-- `...(value !== undefined ? { [key]: value } : {})`
abbrev pub entry_if : Text → Option Value → Context → Context
entry_if key none rest = rest
entry_if key (some v) rest = (key, v) ∷ rest

abbrev pub entries : List (Text × Option Value) → Context → Context
entries [] extra = extra
entries ((key, o) ∷ more) extra = entry_if key o (entries more extra)

abbrev pub map_value : {A : Type 0} → (A → Value) → Option A → Option Value
map_value f none = none
map_value f (some a) = some (f a)

abbrev pub currency_of : Option Text → Text → Text
currency_of none model = model
currency_of (some t) model = t

-- The five rates that are kept: the rates for audio are not.
unfoldable pub frozen_schedule : TokenPriceSchedule → ChargeSchedule
frozen_schedule s = record {
  input = some s.input;
  output = some s.output;
  reasoning = s.reasoning;
  cache_read = s.cache_read;
  cache_write = s.cache_write;
  input_audio = none;
  output_audio = none;
}

-- `params.cacheAccounting ?? (params.usage ? resolveCacheAccounting(params.usage) : undefined)`
abbrev pub frozen_mode : Option CacheAccountingMode → Option Usage → Option CacheAccountingMode
frozen_mode (some mode) u = some mode
frozen_mode none none = none
frozen_mode none (some u) = some (resolve_cache_accounting u none)

abbrev pub frozen_usage : Option Usage → Option CacheAccountingMode → Option Usage
frozen_usage none mode = none
frozen_usage (some u) none = some u
frozen_usage (some u) (some mode) = some (record u { cache_accounting = some mode })

abbrev pub if_positive : Option ℤ → Option ℤ
if_positive none = none
if_positive (some n) = if is_positive n then some n else none

abbrev pub hex_or_null : (ℕ → Text) → Option ℕ → Value
hex_or_null to_hex none = null
hex_or_null to_hex (some id) = text (to_hex id)

-- The keys that are left out where their value is undefined.
abbrev pub optional_entries : Platform → ReconContext → List (Text × Option Value)
optional_entries platform c =
    let mode = frozen_mode c.cache_accounting c.usage in
    (codes "errorCode", map_value text c.error_code)
    ∷ (codes "costSchedule", map_value (λ s. schedule (frozen_schedule s)) c.entry.cost)
    ∷ (codes "rules", map_value rules c.rules)
    ∷ (codes "usage", map_value usage (frozen_usage c.usage mode))
    ∷ (codes "cacheAccounting", map_value (λ m. text (mode_text m)) mode)
    ∷ (codes "priceMicros", map_value number c.price_micros)
    ∷ (codes "costMicros", map_value (λ n. number (pos n)) c.cost_micros)
    ∷ (codes "priceMicrosOverride", map_value number c.price_micros_override)
    ∷ (codes "reservedMicros", map_value number (if_positive c.reserved_micros))
    ∷ (
      codes "limitHolds",
      map_value limit_holds
          (serialize_limit_reservation platform.to_iso_string c.limit_reservation),
    )
    ∷ []

unfoldable pub outbox_recon_context : Platform → ReconContext → Context
unfolding frozen_schedule resolve_cache_accounting serialize_limit_reservation
outbox_recon_context platform c =
    (codes "actorKind", text (kind_text c.actor.actor_kind))
    ∷ (codes "apiKeyId", hex_or_null platform.to_hex c.actor.api_key_id)
    ∷ (codes "managementKeyId", hex_or_null platform.to_hex c.actor.management_key_id)
    ∷ (codes "customerEmail", or_null c.actor.customer_email)
    ∷ (codes "status", number (pos c.status))
    ∷ (codes "durationMs", number (pos c.duration_ms))
    ∷ (codes "currency", text (currency_of c.currency c.model.currency))
    ∷ (codes "providerId", text (platform.to_hex c.provider_id))
    ∷ (codes "upstreamModelId", text c.upstream_model_id)
    ∷ (codes "occurredAt", text (platform.to_iso_string c.occurred_at))
    ∷ (codes "priceSchedule", schedule (frozen_schedule (entry_price c.model c.entry)))
    ∷ entries (optional_entries platform c) c.extra
