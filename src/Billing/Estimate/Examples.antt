-- ===== src/Billing/Estimate/Examples.antt =====
-- A model with two entries, and a chat priced against it.
use tokenpanel.Prelude.{◌+◌, ◌*◌, ◌≤◌, ◌≡◌, refl, true, none, some, List, [], ◌∷◌, codes, arith}
use tokenpanel.Prelude.Int.{pos}
use tokenpanel.Billing.Charges.{
  subset, TokenPriceSchedule, Usage, ModelEntry, Model, charge_schedule, resolve_cache_accounting,
  apply_token_schedule, input_charge, output_charge, peel, compute_charges, ChargeSchedule,
}
use tokenpanel.Billing.Charges.Rounding.{ceil_div, ceil_per_million}
use tokenpanel.Billing.Charges.Bounds.{IsDiscounted, charge_le, charge_ge, base_charge}
use tokenpanel.Billing.Estimate.{
  Content, plain, parts, null, text_part, other_part, estimate_prompt_tokens,
  worst_case_active_entry_price, resolve_completion_cap, estimate_pre_flight_spend,
}
use tokenpanel.Billing.Estimate.Bounds.{prompt_covered, worst_case_bounds, within_estimate, Below}

abbrev model_price : TokenPriceSchedule
model_price = record {
  input = 2500000;
  output = 10000000;
  reasoning = none;
  cache_read = some 1250000;
  cache_write = none;
  input_audio = none;
  output_audio = none;
}

abbrev costly : TokenPriceSchedule
costly = record {
  input = 3000000;
  output = 9000000;
  reasoning = none;
  cache_read = some 300000;
  cache_write = some 3000000;
  input_audio = none;
  output_audio = none;
}

abbrev first_entry : ModelEntry
first_entry = record { id = 1; cost = none; price = none; priority = 0; active = true }

abbrev second_entry : ModelEntry
second_entry = record {
  id = 2;
  cost = some model_price;
  price = some costly;
  priority = 1;
  active = true;
}

abbrev model : Model
model = record {
  entries = first_entry ∷ second_entry ∷ [];
  output_limit = some 1000;
  price = model_price;
  currency = codes "USD";
}

abbrev usage : Usage
usage = record {
  prompt_tokens = 1000;
  completion_tokens = 301;
  reasoning_tokens = some (pos 100);
  cache_read_tokens = some (pos 640);
  cache_write_tokens = none;
  total_tokens = 1301;
  cache_accounting = none;
}

abbrev messages : List Content
messages = plain (codes "hello") ∷ parts (text_part (codes "look") ∷ other_part ∷ []) ∷ null ∷ []

prompt_covered_example :
    (1 ≤ estimate_prompt_tokens messages none)
    × (9 + 3072 ≤ estimate_prompt_tokens messages none * 4)
    × (estimate_prompt_tokens messages none * 4 ≤ 9 + 3072 + 4)
prompt_covered_example = prompt_covered messages none

worst_case_bounds_example :
    Below model_price (worst_case_active_entry_price model)
    × Below costly (worst_case_active_entry_price model)
worst_case_bounds_example = worst_case_bounds model (first_entry ∷ []) [] second_entry refl refl

costly-IsDiscounted : IsDiscounted (charge_schedule costly)
costly-IsDiscounted = record { reasoning = tt; cache_read = omega arith; cache_write = omega arith }

within_estimate_example :
    (compute_charges second_entry model usage none).price_micros
    ≤ (estimate_pre_flight_spend model (pos 1000) (some (pos 400))).estimated_spend_micros + 3
unfolding resolve_cache_accounting estimate_pre_flight_spend resolve_completion_cap
within_estimate_example =
    within_estimate model (first_entry ∷ []) [] second_entry usage none (pos 1000) (some (pos 400))
      refl refl refl costly-IsDiscounted (omega arith) (omega arith)

-- 360 prompt tokens at 3 and 640 cached ones at 0.3 micros, and 301 completion tokens at 9.
charges_run : (compute_charges second_entry model usage none).price_micros ≡ 3981
unfolding compute_charges apply_token_schedule input_charge output_charge peel
    resolve_cache_accounting ceil_per_million ceil_div
charges_run = refl

-- The same with one rate for the tokens of each side.
abbrev flat : ChargeSchedule
flat = record {
  input = some 3000000;
  output = some 9000000;
  reasoning = some 9000000;
  cache_read = some 3000000;
  cache_write = none;
  input_audio = none;
  output_audio = none;
}

charge_le_example : apply_token_schedule flat usage (some subset) ≤ base_charge flat usage + 3
unfolding resolve_cache_accounting
charge_le_example =
    charge_le flat usage (some subset) refl
      (record { reasoning = omega arith; cache_read = omega arith; cache_write = tt })

charge_ge_example : base_charge flat usage ≤ apply_token_schedule flat usage (some subset)
unfolding resolve_cache_accounting
charge_ge_example =
    charge_ge flat usage (some subset) refl
      (record { reasoning = omega arith; cache_read = omega arith; cache_write = tt })
