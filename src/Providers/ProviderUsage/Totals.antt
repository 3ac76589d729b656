-- ===== src/Providers/ProviderUsage/Totals.antt =====
-- The processed total against an exact description of it.
use tokenpanel.Prelude.{
  ℕ, ◌+◌, ◌≡◌, max, Bool, true, false, ◌&&◌, Option, none, some, leb, arith, if◌then◌else◌,
}
use tokenpanel.Prelude.Int.{ℤ, negsuc}
use tokenpanel.Billing.Charges.{CacheAccountingMode, additive, subset, Usage}
use tokenpanel.Billing.Charges as Charges
use tokenpanel.Providers.ProviderUsage.{
  max_safe, counts_of, parts_sum_for_processed_total, safe_add_non_neg,
  normalize_processed_total_tokens,
}

-- All the tokens that the provider processed.
abbrev pub processed : Usage → ℕ
processed u = elim u.cache_accounting [
  | none ↦ u.prompt_tokens + u.completion_tokens
  | some subset ↦ u.prompt_tokens + u.completion_tokens
  | some additive ↦
      u.prompt_tokens
      + u.completion_tokens
      + Charges.count u.cache_read_tokens
      + Charges.count u.cache_write_tokens
]

abbrev not_negative : Option ℤ → Bool
not_negative (some (negsuc n)) = false
not_negative _ = true

abbrev pub caches_count : Usage → Bool
caches_count u = elim u.cache_accounting [
  | none ↦ true
  | some subset ↦ true
  | some additive ↦ not_negative u.cache_read_tokens && not_negative u.cache_write_tokens
]

-- Whether the counts are ones of which a total can be made.
abbrev pub is_countable : Usage → Bool
is_countable u = caches_count u && leb (processed u) max_safe && leb u.total_tokens max_safe

normalized :
    (mode : Option CacheAccountingMode) (p c t : ℕ) (r k w : Option ℤ)
    → (let u : Usage = record {
      prompt_tokens = p;
      completion_tokens = c;
      reasoning_tokens = r;
      cache_read_tokens = k;
      cache_write_tokens = w;
      total_tokens = t;
      cache_accounting = mode;
    } in
        normalize_processed_total_tokens (counts_of u)
        ≡ (if is_countable u then some (max (processed u) u.total_tokens) else none))
unfolding normalize_processed_total_tokens parts_sum_for_processed_total safe_add_non_neg
normalized none p c t r k w = ground arith
normalized (some subset) p c t r k w = ground arith
normalized (some additive) p c t r k w = ground arith

-- The total is the larger of the reported total and all the tokens processed. There is none exactly
-- if that sum or the reported total is above 2 ^ 53 - 1, or if in additive mode a cache count is
-- negative. The prompt, the completion and the reported total are natural numbers here.
pub normalize_exact :
    (u : Usage)
    → normalize_processed_total_tokens (counts_of u)
      ≡ (if is_countable u then some (max (processed u) u.total_tokens) else none)
normalize_exact u =
    normalized u.cache_accounting u.prompt_tokens u.completion_tokens u.total_tokens
      u.reasoning_tokens u.cache_read_tokens u.cache_write_tokens
