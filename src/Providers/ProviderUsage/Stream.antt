-- ===== src/Providers/ProviderUsage/Stream.antt =====
-- Usage that a stream of Anthropic gives in fragments.
use mathlib.Core.Option
use tokenpanel.Prelude.{
  ℕ, max, Bool, true, false, not, ◌&&◌, ◌||◌, Option, none, some, ltb, Text, codes, if◌then◌else◌,
}
use tokenpanel.Prelude.Int.{pos}
use tokenpanel.Billing.Charges.{additive, Usage, or_zero}
use tokenpanel.Providers.ProviderUsage.{
  Json, object, Object, has, get, Field, absent, count, num_field, first_num, counts_of,
  normalize_processed_total_tokens, is_malformed,
}
use tokenpanel.Providers.ProviderUsage.Anthropic.{anthropic_cache_read, anthropic_cache_write}

pub record Fragment : Type 0 where
  pub prompt_tokens : Option ℕ
  pub completion_tokens : Option ℕ
  pub reasoning_tokens : Option ℕ
  pub cache_read_tokens : Option ℕ
  pub cache_write_tokens : Option ℕ

-- The accumulator. Its `cacheAccounting` is always additive.
pub record Accum : Type 0 where
  pub prompt_tokens : ℕ
  pub completion_tokens : ℕ
  pub reasoning_tokens : Option ℕ
  pub cache_read_tokens : Option ℕ
  pub cache_write_tokens : Option ℕ
  pub total_tokens : ℕ
  pub has_input : Bool
  pub has_output : Bool
  pub overflow : Bool

abbrev field_if_present : Text → Object → Field
field_if_present key o = if has key o then num_field (get key o) else absent

abbrev given : Field → Option ℕ
given (count n) = some n
given _ = none

abbrev pub is_given : Option ℕ → Bool
is_given none = false
is_given (some n) = true

abbrev fragment_of_object : Object → Option Fragment
fragment_of_object o =
    let prompt = field_if_present (codes "input_tokens") o in
    let completion = field_if_present (codes "output_tokens") o in
    let reasoning = field_if_present (codes "reasoning_tokens") o in
    let cache_read = anthropic_cache_read o in
    let cache_write = anthropic_cache_write o in
    if not (has (codes "input_tokens") o) && not (has (codes "output_tokens") o)
    then none
    else if is_malformed prompt || is_malformed completion
    then none
    else if is_malformed reasoning
    then none
    else if is_malformed cache_read || is_malformed cache_write
    then none
    else if not (is_given (given prompt)) && not (is_given (given completion))
    then none
    else some (record {
      prompt_tokens = given prompt;
      completion_tokens = given completion;
      reasoning_tokens = given reasoning;
      cache_read_tokens = given cache_read;
      cache_write_tokens = given cache_write;
    })

unfoldable pub parse_anthropic_stream_usage_fragment : Json → Option Fragment
unfolding num_field first_num
parse_anthropic_stream_usage_fragment (object o) = fragment_of_object o
parse_anthropic_stream_usage_fragment _ = none

abbrev pub positive : ℕ → Option ℕ
positive n = if ltb 0 n then some n else none

-- The accumulator before the first fragment: `prev` is undefined.
abbrev pub nothing : Accum
nothing = record {
  prompt_tokens = 0;
  completion_tokens = 0;
  reasoning_tokens = none;
  cache_read_tokens = none;
  cache_write_tokens = none;
  total_tokens = 0;
  has_input = false;
  has_output = false;
  overflow = false;
}

abbrev pub usage_of : ℕ → ℕ → Option ℕ → Option ℕ → Option ℕ → Usage
usage_of prompt completion reasoning cache_read cache_write = record {
  prompt_tokens = prompt;
  completion_tokens = completion;
  reasoning_tokens = Option.map pos reasoning;
  cache_read_tokens = Option.map pos cache_read;
  cache_write_tokens = Option.map pos cache_write;
  total_tokens = 0;
  cache_accounting = some additive;
}

-- The total of what is merged, with no reported total.
abbrev pub total_of : ℕ → ℕ → Option ℕ → Option ℕ → Option ℕ → Option ℕ
total_of prompt completion reasoning cache_read cache_write =
    normalize_processed_total_tokens
      (record (counts_of (usage_of prompt completion reasoning cache_read cache_write)) {
        total_tokens = none;
      })

-- What a merge returns, from the maxima of the counts and from the flags.
unfoldable pub accum : ℕ → ℕ → ℕ → ℕ → ℕ → Bool → Bool → Accum
unfolding normalize_processed_total_tokens
accum prompt completion reasoning cache_read cache_write has_input has_output =
    let total =
      total_of prompt completion (positive reasoning) (positive cache_read)
        (positive cache_write) in
    record {
      prompt_tokens = prompt;
      completion_tokens = completion;
      reasoning_tokens = positive reasoning;
      cache_read_tokens = positive cache_read;
      cache_write_tokens = positive cache_write;
      total_tokens = or_zero total;
      has_input = has_input;
      has_output = has_output;
      overflow = not (is_given total);
    }

unfoldable pub merge_present : Accum → Fragment → Accum
unfolding accum
merge_present prev next =
    accum (max prev.prompt_tokens (or_zero next.prompt_tokens))
      (max prev.completion_tokens (or_zero next.completion_tokens))
      (max (or_zero prev.reasoning_tokens) (or_zero next.reasoning_tokens))
      (max (or_zero prev.cache_read_tokens) (or_zero next.cache_read_tokens))
      (max (or_zero prev.cache_write_tokens) (or_zero next.cache_write_tokens))
      (prev.has_input || is_given next.prompt_tokens)
      (prev.has_output || is_given next.completion_tokens)

-- `prev?.x ?? 0` and `prev?.hasInput ?? false`: no accumulator counts as the empty one.
unfoldable pub merge_anthropic_stream_usage : Option Accum → Fragment → Accum
unfolding merge_present
merge_anthropic_stream_usage none next = merge_present nothing next
merge_anthropic_stream_usage (some prev) next = merge_present prev next

unfoldable pub is_anthropic_stream_usage_complete : Option Accum → Bool
is_anthropic_stream_usage_complete none = false
is_anthropic_stream_usage_complete (some u) = u.has_input && u.has_output && not u.overflow

unfoldable pub to_token_usage : Accum → Usage
unfolding normalize_processed_total_tokens
to_token_usage u =
    let usage =
      usage_of u.prompt_tokens u.completion_tokens u.reasoning_tokens u.cache_read_tokens
        u.cache_write_tokens in
    if u.overflow then usage_of 0 0 none none none else record usage {
      total_tokens = or_zero (normalize_processed_total_tokens (counts_of usage));
    }
