-- ===== src/Providers/ProviderUsage/Anthropic.antt =====
-- `parseAnthropicProviderUsage`: cached tokens come in addition to the input's.
use tokenpanel.Prelude.{ℕ, not, ◌||◌, none, some, [], ◌∷◌, codes, if◌then◌else◌}
use tokenpanel.Billing.Charges.{additive, Usage}
use tokenpanel.Providers.ProviderUsage.{
  Json, object, Object, has, get, Field, count, num_field, first_num, Counts, counts_of,
  normalize_processed_total_tokens, ProviderUsage, missing, optional_count, is_malformed,
}
use tokenpanel.Providers.ProviderUsage.OpenAi.{with_total}

-- The counts of the base usage: no total is given.
abbrev pub without_total : Usage → Counts
without_total u = record (counts_of u) { total_tokens = none }

abbrev pub additive_usage : ℕ → ℕ → Field → Field → Field → Usage
additive_usage prompt completion reasoning cache_read cache_write = record {
  prompt_tokens = prompt;
  completion_tokens = completion;
  reasoning_tokens = optional_count reasoning;
  cache_read_tokens = optional_count cache_read;
  cache_write_tokens = optional_count cache_write;
  total_tokens = 0;
  cache_accounting = some additive;
}

abbrev pub anthropic_cache_read : Object → Field
anthropic_cache_read o =
    first_num (get (codes "cache_read_input_tokens") o ∷ get (codes "cache_read_tokens") o ∷ [])

abbrev pub anthropic_cache_write : Object → Field
anthropic_cache_write o =
    first_num
      (get (codes "cache_creation_input_tokens") o ∷ get (codes "cache_creation_tokens") o ∷ [])

abbrev pub with_counts : Object → ℕ → ℕ → ProviderUsage
with_counts o prompt completion =
    let reasoning = num_field (get (codes "reasoning_tokens") o) in
    let cache_read = anthropic_cache_read o in
    let cache_write = anthropic_cache_write o in
    let base = additive_usage prompt completion reasoning cache_read cache_write in
    if is_malformed reasoning || (is_malformed cache_read || is_malformed cache_write)
    then missing (codes "usage_malformed") none
    else with_total base (normalize_processed_total_tokens (without_total base))

abbrev pub both_counts : Object → Field → Field → ProviderUsage
both_counts o (count prompt) (count completion) = with_counts o prompt completion
both_counts o _ _ = missing (codes "usage_incomplete") none

abbrev pub parse_object : Object → ProviderUsage
parse_object o =
    let prompt = num_field (get (codes "input_tokens") o) in
    let completion = num_field (get (codes "output_tokens") o) in
    if not (has (codes "input_tokens") o || has (codes "output_tokens") o)
    then missing (codes "usage_empty_object") none
    else if not (has (codes "input_tokens") o) || not (has (codes "output_tokens") o)
    then missing (codes "usage_incomplete") none
    else if is_malformed prompt || is_malformed completion
    then missing (codes "usage_malformed") none
    else both_counts o prompt completion

unfoldable pub parse_anthropic_provider_usage : Json → ProviderUsage
unfolding num_field first_num normalize_processed_total_tokens
parse_anthropic_provider_usage (object o) = parse_object o
parse_anthropic_provider_usage _ = missing (codes "usage_absent") none
