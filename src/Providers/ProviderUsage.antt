-- ===== src/Providers/ProviderUsage.antt =====
-- Token usage as a provider reports it, or its absence: apps/api/src/providers/provider-usage.ts.
-- Sums are exact: the source adds two safe integers at a time, and tests each sum.
pub mod OpenAi
pub mod Anthropic
pub mod Stream
pub mod Totals
pub mod Reported
pub mod Merging
mod Examples
use tokenpanel.Prelude.{
  ℕ, ◌+◌, max, Bool, true, false, ◌||◌, Option, none, some, List, [], ◌∷◌, ltb, leb, Text,
  if◌then◌else◌,
}
use tokenpanel.Prelude.Int.{ℤ, pos, negsuc}
use tokenpanel.Billing.Charges.{CacheAccountingMode, additive, subset, Usage}

-- A number: an integer, or a fraction, an infinity or NaN.
pub data Number : Type 0 where
  whole : ℤ → Number
  not_whole : Number

-- A value of a decoded JSON document: `other` is null, a text or a truth value. Reading a key that
-- an object lacks gives `no_key`, which counts as undefined.
pub data Json : Type 0 where
  no_key undefined other : Json
  number : Number → Json
  object : (Text → Json) → Json

abbrev pub Object : Type 0
Object = Text → Json

abbrev is_key : Json → Bool
is_key no_key = false
is_key _ = true

abbrev pub has : Text → Object → Bool
has key o = is_key (o key)

abbrev pub get : Text → Object → Json
get key o = o key

-- `Number.MAX_SAFE_INTEGER`
abbrev pub max_safe : ℕ
max_safe = 9007199254740991

-- `Number.isSafeInteger(v) && v >= 0`
abbrev pub safe_count : Number → Option ℕ
safe_count (whole (pos n)) = if leb n max_safe then some n else none
safe_count _ = none

-- A token field: `undefined`, `null` or the count.
pub data Field : Type 0 where
  absent malformed : Field
  count : ℕ → Field

abbrev field_of : Option ℕ → Field
field_of none = malformed
field_of (some n) = count n

unfoldable pub num_field : Json → Field
num_field no_key = absent
num_field undefined = absent
num_field (number v) = field_of (safe_count v)
num_field (object o) = malformed
num_field other = malformed

abbrev sum_from : ℕ → List Number → Option ℕ
sum_from sum [] = some sum
sum_from sum (v ∷ vs) = elim (safe_count v) [
  | none ↦ none
  | some n ↦ if leb (sum + n) max_safe then sum_from (sum + n) vs else none
]

unfoldable pub safe_add_non_neg : List Number → Option ℕ
safe_add_non_neg vs = sum_from 0 vs

-- The loop of `firstNum`, with `sawMalformed`.
abbrev first_from : Bool → List Json → Field
first_from saw_malformed [] = if saw_malformed then malformed else absent
first_from saw_malformed (v ∷ vs) = elim (num_field v) [
  | absent ↦ first_from saw_malformed vs
  | malformed ↦ first_from true vs
  | count n ↦ count n
]

unfoldable pub first_num : List Json → Field
unfolding num_field
first_num vs = first_from false vs

abbrev pub or_nothing : Option Number → Number
or_nothing none = whole (pos 0)
or_nothing (some n) = n

-- What the totals are made from.
pub record Counts : Type 0 where
  pub prompt_tokens : Number
  pub completion_tokens : Number
  pub cache_read_tokens : Option Number
  pub cache_write_tokens : Option Number
  pub total_tokens : Option Number
  pub cache_accounting : Option CacheAccountingMode

abbrev is_additive : Option CacheAccountingMode → Bool
is_additive none = false
is_additive (some subset) = false
is_additive (some additive) = true

unfoldable pub parts_sum_for_processed_total : Counts → Option ℕ
unfolding safe_add_non_neg
parts_sum_for_processed_total u =
    if is_additive u.cache_accounting
    then safe_add_non_neg (
        u.prompt_tokens
        ∷ u.completion_tokens
        ∷ or_nothing u.cache_read_tokens
        ∷ or_nothing u.cache_write_tokens
        ∷ [])
    else safe_add_non_neg (u.prompt_tokens ∷ u.completion_tokens ∷ [])

-- The reported total against the sum of the parts.
abbrev pub at_least_parts : Option Number → ℕ → Option ℕ
at_least_parts none parts = some parts
at_least_parts (some reported) parts = elim (safe_count reported) [
  | none ↦ none
  | some r ↦
      if ltb 0 r
      then (if leb (max r parts) max_safe then some (max r parts) else none)
      else some parts
]

unfoldable pub normalize_processed_total_tokens : Counts → Option ℕ
unfolding parts_sum_for_processed_total
normalize_processed_total_tokens u = elim (parts_sum_for_processed_total u) [
  | none ↦ none
  | some parts ↦ at_least_parts u.total_tokens parts
]

-- Usage as a value of the type of provider-usage.ts, and the counts in it.
abbrev optional_number : Option ℤ → Option Number
optional_number none = none
optional_number (some n) = some (whole n)

abbrev pub counts_of : Usage → Counts
counts_of u = record {
  prompt_tokens = whole (pos u.prompt_tokens);
  completion_tokens = whole (pos u.completion_tokens);
  cache_read_tokens = optional_number u.cache_read_tokens;
  cache_write_tokens = optional_number u.cache_write_tokens;
  total_tokens = some (whole (pos u.total_tokens));
  cache_accounting = u.cache_accounting;
}

-- `missing` has the reason, and the provider's request id if there is one.
pub data ProviderUsage : Type 0 where
  reported : Usage → ProviderUsage
  missing : Text → Option Text → ProviderUsage

abbrev pub optional_count : Field → Option ℤ
optional_count (count n) = some (pos n)
optional_count _ = none

abbrev pub is_malformed : Field → Bool
is_malformed malformed = true
is_malformed _ = false
