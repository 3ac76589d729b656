-- ===== src/Providers/ProviderUsage/Reported.antt =====
-- What is reported can be settled.
use tokenpanel.Prelude.{
  ℕ, Text, ◌≡◌, refl, sym, subst, ◌∙◌, max, Bool, true, false, ◌&&◌, Option, none, some, leb, arith,
  if◌then◌else◌, ◌⊎◌, inl, inr, codes,
}
use tokenpanel.Prelude.Int.{ℤ, pos}
use tokenpanel.Billing.Charges.{
  CacheAccountingMode, additive, subset, Usage, Protocol, resolve_cache_accounting,
  cache_accounting_for_protocol,
}
use tokenpanel.Providers.ProviderUsage.{
  whole, at_least_parts, optional_count, no_key, undefined, other, number, Counts, Json, object,
  Object, get, Field, counts_of, num_field, normalize_processed_total_tokens, ProviderUsage,
  reported, missing, max_safe, absent, malformed, count,
}
use tokenpanel.Providers.ProviderUsage.OpenAi.{
  with_total, with_provider_total, ProviderTotal, inconsistent, overflow, total,
  parse_openai_provider_usage,
}
use tokenpanel.Providers.ProviderUsage.OpenAi as OpenAi
use tokenpanel.Providers.ProviderUsage.Anthropic as Anthropic
use tokenpanel.Providers.ProviderUsage.Anthropic.{parse_anthropic_provider_usage, without_total}
use tokenpanel.Providers.ProviderUsage.Totals.{processed, caches_count, normalize_exact}

-- A usage whose total the service would compute again as it is.
abbrev pub IsTotalled : Usage → Type 0
IsTotalled u = normalize_processed_total_tokens (counts_of u) ≡ some u.total_tokens

again :
    (c : Bool) (p m t : ℕ)
    → (if c && leb p max_safe && leb m max_safe then some (max p m) else none) ≡ some t
    → (if c && leb p max_safe && leb t max_safe then some (max p t) else none) ≡ some t
again c p m t e = ground arith

-- A total that was computed from a usage, put into it, is computed again.
total_again :
    (u : Usage) (t : ℕ)
    → normalize_processed_total_tokens (counts_of u) ≡ some t
    → IsTotalled (record u { total_tokens = t })
total_again u t e =
    normalize_exact (record u { total_tokens = t })
    ∙ again (caches_count u) (processed u) u.total_tokens t (sym (normalize_exact u) ∙ e)

-- A usage that the settlement can count: its own total, under an explicit mode.
abbrev pub IsSettleable : Usage → Type 0
IsSettleable u = IsTotalled u × ((mode : CacheAccountingMode) × (u.cache_accounting ≡ some mode))

-- What `settleUsage` counts: the usage, under the mode that it resolves.
unfoldable pub settled_counts : Protocol → Usage → Counts
settled_counts protocol u = record (counts_of u) {
  cache_accounting =
      some (resolve_cache_accounting u (some (cache_accounting_for_protocol protocol)));
}

resolved :
    (protocol : Protocol) (u : Usage)
    → IsSettleable u
    → normalize_processed_total_tokens (settled_counts protocol u) ≡ some u.total_tokens
unfolding settled_counts resolve_cache_accounting
resolved protocol u (t, (mode, m)) = rw m (rw m at t)

-- What is reported is settleable.
IsSound : ProviderUsage → Type 0
IsSound (reported u) = IsSettleable u
IsSound (missing reason id) = Unit

in_sound : (u : Usage) → IsSound (reported u) → IsSettleable u
unfolding IsSound
in_sound u h = h

missing-Sound : (reason : Text) (id : Option Text) → IsSound (missing reason id)
unfolding IsSound
missing-Sound reason id = tt

if-Sound : (b : Bool) (x y : ProviderUsage) → IsSound x → IsSound y → IsSound (if b then x else y)
if-Sound true x y h k = h
if-Sound false x y h k = k

with_total-Sound :
    (base : Usage) (mode : CacheAccountingMode) (o : Option ℕ)
    → base.cache_accounting ≡ some mode
    → normalize_processed_total_tokens (counts_of base) ≡ o
    → IsSound (with_total base o)
unfolding IsSound
with_total-Sound base mode none m n = tt
with_total-Sound base mode (some t) m n = (total_again base t n, (mode, m))

openai_total-Sound :
    (prompt completion : ℕ) (r k w : Field) (t : ProviderTotal)
    → IsSound (with_provider_total (OpenAi.subset_usage prompt completion r k w) t)
openai_total-Sound prompt completion r k w inconsistent = missing-Sound _ _
openai_total-Sound prompt completion r k w overflow = missing-Sound _ _
openai_total-Sound prompt completion r k w (total t) =
    with_total-Sound (OpenAi.subset_usage prompt completion r k w t) subset _ refl refl

openai_counts-Sound : (o : Object) (p c t : Field) → IsSound (OpenAi.both_counts o p c t)
openai_counts-Sound o (count p) (count c) t = search (if-Sound, missing-Sound, openai_total-Sound)
openai_counts-Sound o absent c t = missing-Sound _ _
openai_counts-Sound o malformed c t = missing-Sound _ _
openai_counts-Sound o (count p) absent t = missing-Sound _ _
openai_counts-Sound o (count p) malformed t = missing-Sound _ _

openai-Sound : (j : Json) → IsSound (parse_openai_provider_usage j)
unfolding parse_openai_provider_usage
openai-Sound (object o) = search (if-Sound, missing-Sound, openai_counts-Sound)
openai-Sound no_key = missing-Sound _ _
openai-Sound undefined = missing-Sound _ _
openai-Sound other = missing-Sound _ _
openai-Sound (number v) = missing-Sound _ _

-- No total is the same as the total 0.
no_total :
    (p c : ℕ) (r k w : Option ℤ)
    → (let base : Usage = record {
      prompt_tokens = p;
      completion_tokens = c;
      reasoning_tokens = r;
      cache_read_tokens = k;
      cache_write_tokens = w;
      total_tokens = 0;
      cache_accounting = some additive;
    } in
        normalize_processed_total_tokens (counts_of base)
        ≡ normalize_processed_total_tokens (without_total base))
unfolding normalize_processed_total_tokens
no_total p c r k w = either _
  where
    either :
        (o : Option ℕ)
        → elim o [ none ↦ none | some parts ↦ at_least_parts (some (whole (pos 0))) parts ]
          ≡ elim o [ none ↦ none | some parts ↦ at_least_parts none parts ]
    either none = refl
    either (some parts) = refl

anthropic_counts-Sound : (o : Object) (p c : Field) → IsSound (Anthropic.both_counts o p c)
anthropic_counts-Sound o (count p) (count c) =
    let r = num_field (get (codes "reasoning_tokens") o) in
    let k = Anthropic.anthropic_cache_read o in
    let w = Anthropic.anthropic_cache_write o in
    if-Sound _ _ _ (missing-Sound _ _) (
      with_total-Sound (Anthropic.additive_usage p c r k w) additive _ refl
        (no_total p c (optional_count r) (optional_count k) (optional_count w)))
anthropic_counts-Sound o absent c = missing-Sound _ _
anthropic_counts-Sound o malformed c = missing-Sound _ _
anthropic_counts-Sound o (count p) absent = missing-Sound _ _
anthropic_counts-Sound o (count p) malformed = missing-Sound _ _

anthropic-Sound : (j : Json) → IsSound (parse_anthropic_provider_usage j)
unfolding parse_anthropic_provider_usage
anthropic-Sound (object o) = search (if-Sound, missing-Sound, anthropic_counts-Sound)
anthropic-Sound no_key = missing-Sound _ _
anthropic-Sound undefined = missing-Sound _ _
anthropic-Sound other = missing-Sound _ _
anthropic-Sound (number v) = missing-Sound _ _

-- Whatever an upstream sends, usage that is read from it as reported has an accounting mode and a
-- total that the settlement computes again as it is, under either protocol: it never fails on an
-- overflow.
pub reported_settles :
    (protocol : Protocol) (j : Json) (u : Usage)
    → (parse_openai_provider_usage j ≡ reported u) ⊎ (parse_anthropic_provider_usage j ≡ reported u)
    → ((mode : CacheAccountingMode) × (u.cache_accounting ≡ some mode))
      × (normalize_processed_total_tokens (settled_counts protocol u) ≡ some u.total_tokens)
reported_settles protocol j u h =
    let settleable : IsSettleable u = elim h [
      | inl e ↦ in_sound u (subst IsSound e (openai-Sound j))
      | inr e ↦ in_sound u (subst IsSound e (anthropic-Sound j))
    ] in
    (settleable.1, resolved protocol u settleable)
