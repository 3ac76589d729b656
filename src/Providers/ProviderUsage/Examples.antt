-- ===== src/Providers/ProviderUsage/Examples.antt =====
-- Usage as providers send it, and the theorems at such usage.
use mathlib.Core.List.Permᴰ as Permᴰ
use tokenpanel.Prelude.{
  ◌≡◌, refl, true, false, none, some, List, [], ◌∷◌, Text, codes, same, inr, if◌then◌else◌,
}
use tokenpanel.Prelude.Int.{ℤ, pos}
use tokenpanel.Billing.Charges.{CacheAccountingMode, anthropic, additive, Usage}
use tokenpanel.Providers.ProviderUsage.{
  Json, no_key, number, object, whole, not_whole, Object, num_field, first_num, safe_add_non_neg,
  parts_sum_for_processed_total, normalize_processed_total_tokens, counts_of, reported, missing,
}
use tokenpanel.Providers.ProviderUsage.OpenAi.{
  resolve_openai_provider_total, parse_openai_provider_usage,
}
use tokenpanel.Providers.ProviderUsage.Anthropic.{parse_anthropic_provider_usage}
use tokenpanel.Providers.ProviderUsage.Stream.{
  Fragment, accum, merge_present, merge_anthropic_stream_usage, is_anthropic_stream_usage_complete,
}
use tokenpanel.Providers.ProviderUsage.Totals.{normalize_exact}
use tokenpanel.Providers.ProviderUsage.Merging.{merge_all, merge_any_order}
use tokenpanel.Providers.ProviderUsage.Reported.{settled_counts, reported_settles}

abbrev fields : List (Text × Json) → Object
fields [] k = no_key
fields ((j, v) ∷ rest) k = if same j k then v else fields rest k

abbrev tokens : ℤ → Json
tokens n = number (whole n)

-- A hundred tokens of input and twenty of output, of which the provider reports no total.
abbrev sent : Json
sent = object (
    fields (
      (codes "input_tokens", tokens (pos 100))
      ∷ (codes "output_tokens", tokens (pos 20))
      ∷ (codes "cache_read_input_tokens", tokens (pos 30))
      ∷ []))

abbrev read : Usage
read = record {
  prompt_tokens = 100;
  completion_tokens = 20;
  reasoning_tokens = none;
  cache_read_tokens = some (pos 30);
  cache_write_tokens = none;
  total_tokens = 150;
  cache_accounting = some additive;
}

sent_parsed : parse_anthropic_provider_usage sent ≡ reported read
unfolding parse_anthropic_provider_usage num_field first_num normalize_processed_total_tokens
    parts_sum_for_processed_total safe_add_non_neg same
sent_parsed = refl

-- A total below its parts, a count that is no integer, and one side alone are refused.
below_parts :
    parse_openai_provider_usage (
      object (
        fields (
          (codes "prompt_tokens", tokens (pos 100))
          ∷ (codes "completion_tokens", tokens (pos 20))
          ∷ (codes "total_tokens", tokens (pos 119))
          ∷ [])))
    ≡ missing (codes "usage_inconsistent_total") none
unfolding parse_openai_provider_usage num_field first_num resolve_openai_provider_total
    safe_add_non_neg same
below_parts = refl

fractional :
    parse_openai_provider_usage (
      object (
        fields (
          (codes "prompt_tokens", number not_whole)
          ∷ (codes "completion_tokens", tokens (pos 20))
          ∷ [])))
    ≡ missing (codes "usage_malformed") none
unfolding parse_openai_provider_usage num_field same
fractional = refl

one_side :
    parse_anthropic_provider_usage (object (fields ((codes "input_tokens", tokens (pos 9)) ∷ [])))
    ≡ missing (codes "usage_incomplete") none
unfolding parse_anthropic_provider_usage same
one_side = refl

reported_settles_example :
    ((mode : CacheAccountingMode) × (read.cache_accounting ≡ some mode))
    × (normalize_processed_total_tokens (settled_counts anthropic read) ≡ some 150)
reported_settles_example = reported_settles anthropic sent read (inr sent_parsed)

normalize_exact_example : normalize_processed_total_tokens (counts_of read) ≡ some 150
normalize_exact_example = normalize_exact read

abbrev start : Fragment
start = record {
  prompt_tokens = some 100;
  completion_tokens = none;
  reasoning_tokens = none;
  cache_read_tokens = some 30;
  cache_write_tokens = none;
}

abbrev delta : Fragment
delta = record {
  prompt_tokens = none;
  completion_tokens = some 20;
  reasoning_tokens = some 5;
  cache_read_tokens = none;
  cache_write_tokens = none;
}

-- One fragment is not enough.
incomplete : is_anthropic_stream_usage_complete (merge_all none (start ∷ [])) ≡ false
unfolding is_anthropic_stream_usage_complete merge_all merge_anthropic_stream_usage merge_present
    accum
incomplete = refl

complete : is_anthropic_stream_usage_complete (merge_all none (start ∷ delta ∷ [])) ≡ true
unfolding is_anthropic_stream_usage_complete merge_all merge_anthropic_stream_usage merge_present
    accum normalize_processed_total_tokens parts_sum_for_processed_total safe_add_non_neg
complete = refl

merge_any_order_example : merge_all none (start ∷ delta ∷ []) ≡ merge_all none (delta ∷ start ∷ [])
merge_any_order_example =
    merge_any_order none (start ∷ delta ∷ []) (delta ∷ start ∷ []) (Permᴰ.swap refl refl)
