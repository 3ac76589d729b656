-- ===== src/Providers/ProviderUsage/OpenAi.antt =====
-- `parseOpenAIProviderUsage`: cached tokens are a part of the prompt's.
use tokenpanel.Prelude.{
  ℕ, not, ◌&&◌, ◌||◌, Option, none, some, [], ◌∷◌, ltb, ◌==◌, Text, codes, if◌then◌else◌,
}
use tokenpanel.Prelude.Int.{pos}
use tokenpanel.Billing.Charges.{subset, Usage}
use tokenpanel.Providers.ProviderUsage.{
  whole, Json, no_key, object, Object, has, get, Field, absent, malformed, count, num_field,
  first_num, safe_add_non_neg, counts_of, normalize_processed_total_tokens, ProviderUsage, reported,
  missing, optional_count, is_malformed,
}

pub data ProviderTotal : Type 0 where
  inconsistent overflow : ProviderTotal
  total : ℕ → ProviderTotal

abbrev against_sum : Field → Option ℕ → ProviderTotal
against_sum t none = overflow
against_sum absent (some sum) = total sum
against_sum malformed (some sum) = overflow
against_sum (count t) (some sum) =
    if t == 0 && ltb 0 sum then total sum else if ltb t sum then inconsistent else total t

-- The total is one that `num_field` read.
unfoldable pub resolve_openai_provider_total : ℕ → ℕ → Field → ProviderTotal
unfolding safe_add_non_neg
resolve_openai_provider_total prompt completion t =
    against_sum t (safe_add_non_neg (whole (pos prompt) ∷ whole (pos completion) ∷ []))

-- `o[key]` if it is an object, else nothing.
abbrev pub nested : Text → Object → Object
nested key o = elim (get key o) [ object d ↦ d | _ ↦ λ k. no_key ]

abbrev pub with_total : Usage → Option ℕ → ProviderUsage
with_total u none = missing (codes "usage_overflow") none
with_total u (some t) = reported (record u { total_tokens = t })

abbrev pub with_provider_total : (ℕ → Usage) → ProviderTotal → ProviderUsage
with_provider_total base inconsistent = missing (codes "usage_inconsistent_total") none
with_provider_total base overflow = missing (codes "usage_overflow") none
with_provider_total base (total t) =
    with_total (base t) (normalize_processed_total_tokens (counts_of (base t)))

abbrev pub subset_usage : ℕ → ℕ → Field → Field → Field → ℕ → Usage
subset_usage prompt completion reasoning cache_read cache_write t = record {
  prompt_tokens = prompt;
  completion_tokens = completion;
  reasoning_tokens = optional_count reasoning;
  cache_read_tokens = optional_count cache_read;
  cache_write_tokens = optional_count cache_write;
  total_tokens = t;
  cache_accounting = some subset;
}

-- From the two counts on.
abbrev pub with_counts : Object → ℕ → ℕ → Field → ProviderUsage
with_counts o prompt completion t =
    let reasoning = first_num (
      get (codes "reasoning_tokens") o
      ∷ get (codes "reasoning_tokens") (nested (codes "completion_tokens_details") o)
      ∷ []) in
    let cache_read = first_num (
      get (codes "cached_tokens") (nested (codes "prompt_tokens_details") o)
      ∷ get (codes "cache_read_tokens") o
      ∷ []) in
    let cache_write =
      first_num (get (codes "cache_creation_tokens") o ∷ get (codes "cache_write_tokens") o ∷ []) in
    if is_malformed reasoning || (is_malformed cache_read || is_malformed cache_write)
    then missing (codes "usage_malformed") none
    else with_provider_total (subset_usage prompt completion reasoning cache_read cache_write)
        (resolve_openai_provider_total prompt completion t)

abbrev pub both_counts : Object → Field → Field → Field → ProviderUsage
both_counts o (count prompt) (count completion) t = with_counts o prompt completion t
both_counts o _ _ t = missing (codes "usage_incomplete") none

abbrev pub parse_object : Object → ProviderUsage
parse_object o =
    let prompt = num_field (get (codes "prompt_tokens") o) in
    let completion = num_field (get (codes "completion_tokens") o) in
    let t = num_field (get (codes "total_tokens") o) in
    if not (
      has (codes "prompt_tokens") o
      || has (codes "completion_tokens") o
      || has (codes "total_tokens") o)
    then missing (codes "usage_empty_object") none
    else if not (has (codes "prompt_tokens") o) || not (has (codes "completion_tokens") o)
    then missing (codes "usage_incomplete") none
    else if is_malformed prompt || is_malformed completion || is_malformed t
    then missing (codes "usage_malformed") none
    else both_counts o prompt completion t

unfoldable pub parse_openai_provider_usage : Json → ProviderUsage
unfolding num_field first_num resolve_openai_provider_total normalize_processed_total_tokens
parse_openai_provider_usage (object o) = parse_object o
parse_openai_provider_usage _ = missing (codes "usage_absent") none
