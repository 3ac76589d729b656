-- ===== src/Billing/Estimate.antt =====
-- What a request may cost, before it is sent: apps/api/src/domains/billing/estimate.ts.
pub mod Bounds
mod Examples
use mathlib.Core.Option
use tokenpanel.Prelude.{
  ℕ, ◌+◌, ◌-◌, ◌*◌, max, Option, none, some, List, [], ◌∷◌, ltb, if◌then◌else◌, Text, length,
}
use tokenpanel.Prelude.Int.{ℤ, pos_part}
use tokenpanel.Billing.Charges.{TokenPriceSchedule, ModelEntry, Model, entry_price}
use tokenpanel.Billing.Charges.Rounding.{ceil_div, ceil_per_million}

abbrev pub default_completion_cap : ℕ
default_completion_cap = 4096

abbrev pub non_text_part_tokens : ℕ
non_text_part_tokens = 768

abbrev pub chars_per_token_estimate : ℕ
chars_per_token_estimate = 4

-- A part of another type than text, with no more of it than the estimate reads.
pub data ContentPart : Type 0 where
  text_part : Text → ContentPart
  other_part : ContentPart

pub data Content : Type 0 where
  plain : Text → Content
  parts : List ContentPart → Content
  null : Content

-- Characters and parts that are not text, so far.
unfoldable pub count_parts : List ContentPart → ℕ × ℕ → ℕ × ℕ
count_parts [] (chars, non_text) = (chars, non_text)
count_parts (text_part t ∷ ps) (chars, non_text) = count_parts ps (chars + length t, non_text)
count_parts (other_part ∷ ps) (chars, non_text) = count_parts ps (chars, non_text + 1)

unfoldable pub count_messages : List Content → ℕ × ℕ → ℕ × ℕ
unfolding count_parts
count_messages [] acc = acc
count_messages (plain t ∷ ms) acc = count_messages ms (acc.0 + length t, acc.1)
count_messages (parts ps ∷ ms) acc = count_messages ms (count_parts ps acc)
count_messages (null ∷ ms) acc = count_messages ms acc

unfoldable pub estimate_prompt_tokens : List Content → Option Text → ℕ
unfolding count_messages ceil_div
estimate_prompt_tokens messages system_text =
    let (chars, non_text) =
      count_messages messages (elim system_text [ some t ↦ length t | none ↦ 0 ], 0) in
    max 1 (ceil_div chars chars_per_token_estimate + non_text * non_text_part_tokens)

pub record WorstPrice : Type 0 where
  pub input : ℕ
  pub output : ℕ

abbrev pub raise : WorstPrice → TokenPriceSchedule → WorstPrice
raise p s = record {
  input = if ltb p.input s.input then s.input else p.input;
  output = if ltb p.output s.output then s.output else p.output;
}

-- The loop over the active entries.
unfoldable pub worst_of : Model → List ModelEntry → WorstPrice → WorstPrice
worst_of model [] p = p
worst_of model (e ∷ es) p =
    worst_of model es (if e.active then raise p (entry_price model e) else p)

unfoldable pub worst_case_active_entry_price : Model → WorstPrice
unfolding worst_of
worst_case_active_entry_price model =
    worst_of model model.entries (record { input = model.price.input; output = model.price.output })

unfoldable pub resolve_completion_cap : Option ℤ → Model → ℕ
resolve_completion_cap (some n) model = pos_part n
resolve_completion_cap none model = elim model.output_limit [
  | some n ↦ n
  | none ↦ default_completion_cap
]

pub record PreFlightEstimate : Type 0 where
  pub prompt_tokens : ℕ
  pub completion_tokens : ℕ
  pub estimated_tokens : ℕ
  pub estimated_spend_micros : ℕ
  pub currency : Text
  pub price : WorstPrice

unfoldable pub estimate_pre_flight_spend : Model → ℤ → Option ℤ → PreFlightEstimate
unfolding resolve_completion_cap worst_case_active_entry_price
estimate_pre_flight_spend model estimated_prompt_tokens max_completion_tokens =
    let prompt = pos_part estimated_prompt_tokens in
    let completion = resolve_completion_cap max_completion_tokens model in
    let price = worst_case_active_entry_price model in
    record {
      prompt_tokens = prompt;
      completion_tokens = completion;
      estimated_tokens = prompt + completion;
      estimated_spend_micros =
          ceil_per_million (prompt * price.input) + ceil_per_million (completion * price.output);
      currency = model.currency;
      price = price;
    }
