-- ===== src/Settlement/Reconcile/Late.antt =====
-- The late settlement of a request whose settlement failed.
use tokenpanel.Prelude.{
  ℕ, ◌≡◌, refl, ap, ◌∙◌, Bool, true, false, Option, none, some, List, [], ◌∷◌, Text, same_iff, ltb,
  length, arith, codes,
}
use tokenpanel.Prelude.Int.{ℤ}
use tokenpanel.Billing.Charges.{Usage}
use tokenpanel.Settlement.Outbox.{Context, Row}
use tokenpanel.Settlement.Outbox.Service.{enqueued_row, compact_gateway_request_id}
use tokenpanel.Settlement.Settle.Record.{SettleError}
use tokenpanel.Settlement.Settle.Context.{Platform}
use tokenpanel.Settlement.Settle.OrOutbox.{
  SettleUsageOrOutboxParams, Minted, settle_params, priced_usage, key_of, final_price,
  outbox_params,
}
use tokenpanel.Settlement.Reconcile.Thaw.{
  as_usage, as_number, lookup, Entry, ModelDoc, price_of, filled, find_exact, stub, resolve_entry,
  reconstruct_frozen_attribution, or_else, resolve_filled, thawed_params,
}
use tokenpanel.Settlement.Reconcile.Worker.{
  Answers, Attribution, ready, attributed_by, attribution, entry_in,
}
use tokenpanel.Settlement.Reconcile.Terms.{
  failed_row, IsFreezable, same_terms, price_at, usage_kept,
}

-- An entry that is found by its upstream model has it.
exact_named :
    (provider : ℕ) (upstream : Text) (es : List Entry) (e : Entry)
    → find_exact provider upstream es ≡ some e
    → e.upstream_model_id ≡ upstream
exact_named provider upstream [] e h = cc h
exact_named provider upstream (x ∷ es) e h =
    ground (arith, exact_named provider upstream es e, same_iff x.upstream_model_id upstream)

filled_named : (t : Text) → ltb 0 (length t) ≡ true → filled (some t) ≡ some t
filled_named t h = rw h refl

module _ (row : Row) (price : ℤ) (frozen : price_of row.context ≡ some price) (upstream : Text)
    (named : ltb 0 (length upstream) ≡ true) where
  abbrev ctx : Context
  ctx = row.context

  stub_named :
      (provider : ℕ)
      → stub provider (some upstream) ctx
        ≡ some (record { provider_id = provider; upstream_model_id = upstream; price = none })
  stub_named provider = rw (named, frozen) refl

  found_or_stub :
      (entries : List Entry) (provider : ℕ) (o : Option Entry)
      → find_exact provider upstream entries ≡ o
      → (e : Entry) × (or_else o (stub provider (some upstream) ctx) ≡ some e)
        × (e.upstream_model_id ≡ upstream)
  found_or_stub entries provider none h = (
    record { provider_id = provider; upstream_model_id = upstream; price = none },
    stub_named provider,
    refl,
  )
  found_or_stub entries provider (some e) h = (e, refl, exact_named provider upstream entries e h)

  -- With a frozen price an entry is always found, and names the upstream model.
  resolve_named :
      (entries : List Entry) (provider : ℕ)
      → (e : Entry) × (resolve_entry entries provider (some upstream) ctx ≡ some e)
        × (e.upstream_model_id ≡ upstream)
  unfolding resolve_entry
  resolve_named entries provider =
      let (e, found, up) = found_or_stub entries provider _ refl in
      (
        e,
        ap (resolve_filled entries provider (some upstream) ctx) (filled_named upstream named)
            ∙ found,
        up,
      )

  -- An attribution that is ready, to an entry of the upstream model.
  abbrev pub IsNamed : ℕ → Attribution → Type 0
  IsNamed provider x =
      (model : ModelDoc) × (entry : Entry) × (x ≡ ready provider model entry)
      × (entry.upstream_model_id ≡ upstream)

  attributed-IsNamed :
      (model : Option ModelDoc) (present : Bool) (provider : ℕ)
      → row.upstream_model_id ≡ some upstream
      → IsNamed provider
          (attributed_by model present row provider (entry_in model provider row) (some upstream))
  unfolding reconstruct_frozen_attribution
  attributed-IsNamed none present provider up = rw frozen (_, _, refl, refl)
  attributed-IsNamed (some m) present provider up =
      let (e, found, has) = resolve_named m.entries provider in
      rw up (rw found (by_presence present e has))
    where
      by_presence :
          (present : Bool) (e : Entry)
          → e.upstream_model_id ≡ upstream
          → IsNamed provider (attributed_by (some m) present row provider (some e) (some upstream))
      by_presence true e has = (m, e, refl, has)
      by_presence false e has = rw frozen (m, e, refl, has)

-- The row of a settlement that failed is worked off at the terms of that settlement: its usage is
-- read back, whatever the repositories answer it is attributed to the request's provider and upstream
-- model, and the parameters of the late settlement are those of the one that failed, under the row's
-- key. The upstream model and the currency have names, the request is a customer's, its counts, its
-- hold and the sizes of its reservation of limits are safe integers, that reservation, if any, is the
-- customer's and holds something, and the platform reads ids and dates back from their texts.
pub late_terms :
    (platform : Platform) (p : SettleUsageOrOutboxParams) (minted : Minted) (u : Usage)
    (e : SettleError) (customer : ℕ) (answers : Answers)
    → IsFreezable platform p minted u e customer
    → ltb 0 (length p.upstream_model_id) ≡ true
    → (as_usage (lookup (codes "usage") (failed_row platform p minted u e).context)
        ≡ some (priced_usage p u))
      × ((model : ModelDoc) × (entry : Entry) × (attribution platform answers
              (failed_row platform p minted u e)
            ≡ ready p.provider_id model entry)
          × (thawed_params platform
                (failed_row platform p minted u e)
                (priced_usage p u)
                p.provider_id
                model
                entry
                answers.rules
              ≡ record (settle_params platform p minted u) {
                gateway_request_id =
                    some
                      (compact_gateway_request_id platform.sha256_hex (key_of platform p minted));
              }))
unfolding attribution enqueued_row outbox_params
late_terms platform p minted u e customer answers h named =
    let row : Row = failed_row platform p minted u e in
    let (model, entry, is, up) =
      attributed-IsNamed row (final_price p u) (ap as_number (price_at platform p minted u e))
        p.upstream_model_id named answers.model answers.provider p.provider_id refl in
    (
      usage_kept platform p minted u e h.counted,
      (
        model,
        entry,
        ap
              (attributed_by answers.model answers.provider row p.provider_id
                (entry_in answers.model p.provider_id row))
              (filled_named p.upstream_model_id named)
            ∙ is,
        same_terms platform p minted u e customer p.provider_id model entry answers.rules h up,
      ),
    )
