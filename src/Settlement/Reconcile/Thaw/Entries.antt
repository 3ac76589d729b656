-- ===== src/Settlement/Reconcile/Thaw/Entries.antt =====
-- The model and the entry at whose terms a row is settled: `resolveEntry` and
-- `reconstructFrozenAttribution`.
use tokenpanel.Prelude.{
  ℕ, Bool, ◌&&◌, Option, none, some, List, [], ◌∷◌, ◌==◌, Text, codes, same, if◌then◌else◌,
}
use tokenpanel.Prelude.Int.{ℤ}
use tokenpanel.Billing.Charges.{ChargeSchedule}
use tokenpanel.Settlement.Outbox.{Context, Row}
use tokenpanel.Settlement.Settle.Context.{Platform}
use tokenpanel.Settlement.Reconcile.Thaw.Fields.{
  lookup, as_text, as_number, as_schedule, or_else, chain, filled, is_some, with_default,
}

-- An entry of a model, and a model, as far as they are read here.
pub record Entry : Type 0 where
  pub provider_id : ℕ
  pub upstream_model_id : Text
  pub price : Option ChargeSchedule

pub record ModelDoc : Type 0 where
  pub entries : List Entry
  pub price : ChargeSchedule
  pub currency : Text

abbrev pub provider_id_of : Platform → Row → Context → Option ℕ
provider_id_of platform row ctx =
    or_else row.provider_id (chain platform.of_hex (as_text (lookup (codes "providerId") ctx)))

abbrev pub upstream_of : Row → Context → Option Text
upstream_of row ctx = or_else row.upstream_model_id (as_text (lookup (codes "upstreamModelId") ctx))

abbrev pub price_of : Context → Option ℤ
price_of ctx = as_number (lookup (codes "priceMicros") ctx)

abbrev pub schedule_of : Context → Option ChargeSchedule
schedule_of ctx = as_schedule (lookup (codes "priceSchedule") ctx)

abbrev pub same_entry : ℕ → Text → Entry → Bool
same_entry provider upstream e = e.provider_id == provider && same e.upstream_model_id upstream

abbrev pub find_exact : ℕ → Text → List Entry → Option Entry
find_exact provider upstream [] = none
find_exact provider upstream (e ∷ es) =
    if same_entry provider upstream e then some e else find_exact provider upstream es

abbrev of_provider : ℕ → List Entry → List Entry
of_provider provider [] = []
of_provider provider (e ∷ es) =
    if e.provider_id == provider then e ∷ of_provider provider es else of_provider provider es

abbrev pub stub_at : ℕ → Bool → Option Text → Option Entry
stub_at provider priced none = none
stub_at provider priced (some u) =
    if priced
    then some (record { provider_id = provider; upstream_model_id = u; price = none })
    else none

-- The entry at the frozen price, if there is one and an upstream model is known.
abbrev pub stub : ℕ → Option Text → Context → Option Entry
stub provider upstream ctx = stub_at provider (is_some (price_of ctx)) (filled upstream)

abbrev one_match : List Entry → Option Entry → Option Entry
one_match [] frozen = frozen
one_match (e ∷ []) frozen = some e
one_match (e ∷ f ∷ es) frozen = none

abbrev pub resolve_filled : List Entry → ℕ → Option Text → Context → Option Text → Option Entry
resolve_filled entries provider upstream ctx (some u) =
    or_else (find_exact provider u entries) (stub provider (some u) ctx)
resolve_filled entries provider upstream ctx none =
    one_match (of_provider provider entries)
      (stub provider (or_else upstream (as_text (lookup (codes "upstreamModelId") ctx))) ctx)

-- `none` is `{ ok: false }`.
unfoldable pub resolve_entry : List Entry → ℕ → Option Text → Context → Option Entry
resolve_entry entries provider upstream ctx =
    resolve_filled entries provider upstream ctx (filled upstream)

-- The base rates of a schedule are 0 where it has none; it has no rates for audio.
unfoldable pub reconstructed_price : ChargeSchedule → ChargeSchedule
reconstructed_price s = record {
  input = some (with_default s.input 0);
  output = some (with_default s.output 0);
  reasoning = s.reasoning;
  cache_read = s.cache_read;
  cache_write = s.cache_write;
  input_audio = none;
  output_audio = none;
}

abbrev free : ChargeSchedule
free = record {
  input = some 0;
  output = some 0;
  reasoning = none;
  cache_read = none;
  cache_write = none;
  input_audio = none;
  output_audio = none;
}

abbrev entry_schedule : Option Entry → Option ChargeSchedule
entry_schedule none = none
entry_schedule (some e) = e.price

abbrev model_schedule : Option ModelDoc → Option ChargeSchedule
model_schedule none = none
model_schedule (some m) = some m.price

-- The schedule that a reconstruction uses.
abbrev rebuilt_schedule : Context → Option Entry → Option ModelDoc → ChargeSchedule
rebuilt_schedule ctx entry model = reconstructed_price (
    with_default (schedule_of ctx)
      (with_default (entry_schedule entry) (with_default (model_schedule model) free)))

abbrev model_currency : Option ModelDoc → Text
model_currency none = codes "USD"
model_currency (some m) = m.currency

abbrev pub currency_in : Context → Text → Text
currency_in ctx fallback = with_default (filled (as_text (lookup (codes "currency") ctx))) fallback

-- The model, whether there is a provider, and the entry, where the frozen terms can stand in for
-- what is missing.
unfoldable pub reconstruct_frozen_attribution :
    Context → ℕ → Text → Option ModelDoc → Option Entry → ModelDoc × Entry
unfolding reconstructed_price
reconstruct_frozen_attribution ctx provider upstream model entry =
    let price = rebuilt_schedule ctx entry model in
    let stub_entry : Entry = record {
      provider_id = provider;
      upstream_model_id = upstream;
      price = some price;
    } in
    (
      with_default model (record {
        entries = stub_entry ∷ [];
        price = price;
        currency = currency_in ctx (model_currency model);
      }),
      with_default entry stub_entry,
    )
