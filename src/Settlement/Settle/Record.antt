-- ===== src/Settlement/Settle/Record.antt =====
-- What a settlement writes: the usage record and the entry of the ledger, as the schemas of
-- packages/db/src/schemas/effect/usage.ts and customer.ts accept them, and the operations of the
-- usage and customers repositories that store them.
use tokenpanel.Prelude.{
  ℕ, Bool, true, false, ◌&&◌, ◌||◌, Option, none, some, ◌==◌, leb, length, Text, same,
  if◌then◌else◌,
}
use tokenpanel.Prelude.Int.{ℤ, pos, neg, leb_ℤ}
use tokenpanel.Mongo.{Collection}
use tokenpanel.Billing.Charges.{Protocol}
use tokenpanel.Billing.Balance.{Customer}
use tokenpanel.Limits.Counters.{CounterStore}
use tokenpanel.Providers.ProviderUsage.{max_safe}

pub data ActorKind : Type 0 where
  customer_key management_key playground : ActorKind

-- With a customer the request is billed; without one it is only recorded.
pub record SettlementActor : Type 0 where
  pub actor_kind : ActorKind
  pub customer_id : Option ℕ
  pub api_key_id : Option ℕ
  pub management_key_id : Option ℕ
  pub customer_email : Option Text

pub record UsageRecord : Type 0 where
  pub id : ℕ
  pub organization_id : ℕ
  pub customer_id : Option ℕ
  pub api_key_id : Option ℕ
  pub actor_kind : ActorKind
  pub management_key_id : Option ℕ
  pub customer_email : Option Text
  pub model_alias_id : Text
  pub provider_id : ℕ
  pub upstream_model_id : Text
  pub protocol : Protocol
  pub prompt_tokens : ℕ
  pub completion_tokens : ℕ
  pub reasoning_tokens : ℤ
  pub cache_read_tokens : ℤ
  pub cache_write_tokens : ℤ
  pub total_tokens : ℕ
  pub cost_micros : ℤ
  pub price_micros : ℤ
  pub currency : Text
  pub provider_request_id : Option Text
  pub gateway_request_id : Option Text
  pub billed : Bool
  pub error_code : Option Text
  pub status : ℕ
  pub duration_ms : ℤ
  pub occurred_at : ℕ
  pub created_at : ℕ
  pub updated_at : ℕ

-- The reason of the entry is always "usage_debit".
pub record BalanceAdjustment : Type 0 where
  pub id : ℕ
  pub organization_id : ℕ
  pub customer_id : ℕ
  pub amount_micros : ℤ
  pub currency : Text
  pub occurred_at : ℕ
  pub created_at : ℕ
  pub updated_at : ℕ

abbrev at_most : ℕ → Option Text → Bool
at_most n none = true
at_most n (some t) = leb (length t) n

abbrev between : ℕ → ℕ → Text → Bool
between lo hi t = leb lo (length t) && leb (length t) hi

abbrev optional_between : ℕ → ℕ → Option Text → Bool
optional_between lo hi none = true
optional_between lo hi (some t) = between lo hi t

abbrev is_count : ℤ → Bool
is_count n = leb_ℤ (pos 0) n && leb_ℤ n (pos max_safe)

-- Whether the schema accepts a record. The alias and the currency come out of stored documents, and
-- have their formats already.
unfoldable pub accepts : UsageRecord → Bool
accepts r =
    at_most 254 r.customer_email
    && between 1 160 r.upstream_model_id
    && leb r.prompt_tokens max_safe
    && leb r.completion_tokens max_safe
    && is_count r.reasoning_tokens
    && is_count r.cache_read_tokens
    && is_count r.cache_write_tokens
    && leb r.total_tokens max_safe
    && is_count r.cost_micros
    && is_count r.price_micros
    && at_most 200 r.provider_request_id
    && optional_between 1 80 r.gateway_request_id
    && at_most 80 r.error_code
    && leb 100 r.status
    && leb r.status 599
    && is_count r.duration_ms

abbrev same_key : Option Text → Option Text → Bool
same_key (some a) (some b) = same a b
same_key _ _ = false

-- The unique indexes of the usage records: on `_id`, and on `gatewayRequestId` where it is a text.
unfoldable pub clash : UsageRecord → UsageRecord → Bool
clash a b = same_key a.gateway_request_id b.gateway_request_id || a.id == b.id

abbrev pub has_key : Text → UsageRecord → Bool
has_key key r = same_key r.gateway_request_id (some key)

-- Failures of a settlement: of a guard, of a unique index, and of the store or of a schema.
pub data SettleError : Type 0 where
  guard : Text → SettleError
  duplicate_key system : SettleError

pub data SettleResult (A : Type 0) : Type 0 where
  done : A → SettleResult A
  failed : SettleError → SettleResult A

-- The collections that a settlement touches, and a state of them.
pub record Stores : Type 1 where
  pub usage : Collection UsageRecord
  pub customers : Collection Customer
  pub adjustments : Collection BalanceAdjustment
  pub counters : CounterStore

pub record State (s : Stores) : Type 0 where
  pub usage : s.usage.Db
  pub customers : s.customers.Db
  pub adjustments : s.adjustments.Db
  pub counters : s.counters.Db

abbrev pub checked : Option UsageRecord → SettleResult Bool
checked none = done false
checked (some r) = if accepts r then done true else failed system

-- An insert under a unique index: `none` is a duplicate key.
abbrev pub stored : {A : Type 0} → Option A → SettleResult A
stored none = failed duplicate_key
stored (some db) = done db

module _ (c : Collection UsageRecord) where
  -- Whether there is a record, if its schema accepts it.
  unfoldable pub find_by_gateway_request_id : Text → c.Db → SettleResult Bool
  unfolding accepts
  find_by_gateway_request_id key db = checked (c.find_one (has_key key) db)

  unfoldable pub insert : UsageRecord → c.Db → SettleResult c.Db
  unfolding accepts
  insert r db = if accepts r then stored (c.insert_one r db) else failed system

abbrev is_safe : ℤ → Bool
is_safe n = leb_ℤ n (pos max_safe) && leb_ℤ (neg (pos max_safe)) n

module _ (c : Collection BalanceAdjustment) where
  unfoldable pub insert_adjustment : BalanceAdjustment → c.Db → SettleResult c.Db
  insert_adjustment a db =
      if is_safe a.amount_micros then stored (c.insert_one a db) else failed system
