-- ===== src/Billing/Charges.antt =====
-- Charges from token usage: apps/api/src/domains/billing/charges.ts. Products and quotients are
-- exact: the source computes them in doubles, which are exact below 2 ^ 53.
pub mod Rounding
pub mod Bounds
use mathlib.Core.Option
use tokenpanel.Prelude.{
  ℕ, ◌+◌, ◌-◌, ◌*◌, min, Option, none, some, List, Bool, ◌==◌, if◌then◌else◌, Text,
}
use tokenpanel.Prelude.Int.{ℤ, pos_part}
use tokenpanel.Billing.Charges.Rounding.{ceil_per_million}

pub data CacheAccountingMode : Type 0 where
  subset additive : CacheAccountingMode

pub data Protocol : Type 0 where
  openai anthropic : Protocol

-- Micros per million tokens.
pub record ChargeSchedule : Type 0 where
  pub input : Option ℕ
  pub output : Option ℕ
  pub reasoning : Option ℕ
  pub cache_read : Option ℕ
  pub cache_write : Option ℕ
  pub input_audio : Option ℕ
  pub output_audio : Option ℕ

-- A stored schedule always has the two base rates.
pub record TokenPriceSchedule : Type 0 where
  pub input : ℕ
  pub output : ℕ
  pub reasoning : Option ℕ
  pub cache_read : Option ℕ
  pub cache_write : Option ℕ
  pub input_audio : Option ℕ
  pub output_audio : Option ℕ

-- The optional counts may be negative: the source bounds them.
pub record Usage : Type 0 where
  pub prompt_tokens : ℕ
  pub completion_tokens : ℕ
  pub reasoning_tokens : Option ℤ
  pub cache_read_tokens : Option ℤ
  pub cache_write_tokens : Option ℤ
  pub total_tokens : ℕ
  pub cache_accounting : Option CacheAccountingMode

pub record ModelEntry : Type 0 where
  pub id : ℕ
  pub cost : Option TokenPriceSchedule
  pub price : Option TokenPriceSchedule
  pub priority : ℕ
  pub active : Bool

pub record Model : Type 0 where
  pub entries : List ModelEntry
  pub output_limit : Option ℕ
  pub price : TokenPriceSchedule
  pub currency : Text

unfoldable pub cache_accounting_for_protocol : Protocol → CacheAccountingMode
cache_accounting_for_protocol anthropic = additive
cache_accounting_for_protocol openai = subset

unfoldable pub resolve_cache_accounting : Usage → Option CacheAccountingMode → CacheAccountingMode
resolve_cache_accounting usage fallback = elim usage.cache_accounting [
  | some mode ↦ mode
  | none ↦ elim fallback [ some mode ↦ mode | none ↦ subset ]
]

abbrev pub or_zero : Option ℕ → ℕ
or_zero none = 0
or_zero (some n) = n

-- `Math.max(0, count ?? 0)`
abbrev pub count : Option ℤ → ℕ
count none = 0
count (some n) = pos_part n

-- The completion at the rate for reasoning, if there is one, and the base rate.
abbrev pub output_at : Option ℕ → ℕ → ℕ → ℕ → ℕ
output_at none rate completion reasoning = ceil_per_million (completion * rate)
output_at (some reasoning_rate) rate completion reasoning =
    if reasoning == 0
    then ceil_per_million (completion * rate)
    else ceil_per_million ((completion - reasoning) * rate)
      + ceil_per_million (reasoning * reasoning_rate)

unfoldable pub output_charge : ChargeSchedule → Usage → ℕ
output_charge schedule usage =
    output_at schedule.reasoning (or_zero schedule.output) usage.completion_tokens
      (min (count usage.reasoning_tokens) usage.completion_tokens)

-- A cache count peeled off the prompt tokens that remain: what is left, and its charge.
unfoldable pub peel : Option ℕ → ℕ → ℕ → ℕ × ℕ
peel none cached remaining = (remaining, 0)
peel (some rate) cached remaining =
    let peeled = min cached remaining in
    if cached == 0 then (remaining, 0) else (remaining - peeled, ceil_per_million (peeled * rate))

unfoldable pub input_charge : ChargeSchedule → Usage → CacheAccountingMode → ℕ
unfolding peel
input_charge schedule usage additive =
    ceil_per_million (usage.prompt_tokens * or_zero schedule.input)
    + ceil_per_million (count usage.cache_read_tokens * or_zero schedule.cache_read)
    + ceil_per_million (count usage.cache_write_tokens * or_zero schedule.cache_write)
input_charge schedule usage subset =
    let (after_read, read_charge) =
      peel schedule.cache_read (count usage.cache_read_tokens) usage.prompt_tokens in
    let (remaining, write_charge) =
      peel schedule.cache_write (count usage.cache_write_tokens) after_read in
    ceil_per_million (remaining * or_zero schedule.input) + (read_charge + write_charge)

unfoldable pub apply_token_schedule : ChargeSchedule → Usage → Option CacheAccountingMode → ℕ
unfolding input_charge output_charge resolve_cache_accounting
apply_token_schedule schedule usage fallback =
    input_charge schedule usage (resolve_cache_accounting usage fallback)
    + output_charge schedule usage

abbrev pub charge_schedule : TokenPriceSchedule → ChargeSchedule
charge_schedule s = record {
  input = some s.input;
  output = some s.output;
  reasoning = s.reasoning;
  cache_read = s.cache_read;
  cache_write = s.cache_write;
  input_audio = s.input_audio;
  output_audio = s.output_audio;
}

pub record Charges : Type 0 where
  pub cost_micros : ℕ
  pub price_micros : ℕ
  pub currency : Text

-- `entry.price ?? model.price`
abbrev pub entry_price : Model → ModelEntry → TokenPriceSchedule
entry_price model entry = elim entry.price [ some s ↦ s | none ↦ model.price ]

unfoldable pub compute_charges : ModelEntry → Model → Usage → Option CacheAccountingMode → Charges
unfolding apply_token_schedule
compute_charges entry model usage cache_accounting = record {
  cost_micros = elim entry.cost [
    | some s ↦ apply_token_schedule (charge_schedule s) usage cache_accounting
    | none ↦ 0
  ];
  price_micros =
      apply_token_schedule (charge_schedule (entry_price model entry)) usage cache_accounting;
  currency = model.currency;
}
