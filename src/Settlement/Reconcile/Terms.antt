-- ===== src/Settlement/Reconcile/Terms.antt =====
-- The terms of a settlement that failed come back from the outbox.
pub mod Values
use tokenpanel.Prelude.{
  All, subst, [], ◌∷◌, ℕ, ◌≡◌, refl, ap, ◌∙◌, true, Option, none, some, List, [], ◌∷◌, Bool-cases,
  inl, inr, arith, Text, codes, same, ltb, length, if◌then◌else◌, some_inj,
}
use tokenpanel.Prelude.Int.{ℤ, pos, leb_ℤ}
use tokenpanel.Billing.Charges.{
  CacheAccountingMode, subset, additive, Usage, Protocol, openai, anthropic,
  resolve_cache_accounting, cache_accounting_for_protocol,
}
use tokenpanel.Limits.{RateLimitRule, LimitHold, LimitReservation}
use tokenpanel.Limits.Wire.{
  IsStorable, reservation_back, LimitHoldWire, serialize_limit_reservation, parse_limit_reservation,
}
use tokenpanel.Providers.ProviderUsage.{max_safe}
use tokenpanel.Settlement.Outbox.{Value, text, number, usage, rules, limit_holds, Context, Row}
use tokenpanel.Settlement.Outbox.Service.{enqueued_row, compact_gateway_request_id}
use tokenpanel.Settlement.Settle.Record.{
  ActorKind, customer_key, management_key, playground, SettleError,
}
use tokenpanel.Settlement.Settle.Usage.{is_positive}
use tokenpanel.Settlement.Settle.Context.{
  Platform, ReconContext, entry_if, entries, optional_entries, outbox_recon_context, kind_text,
  mode_text, map_value, hex_or_null, or_null, if_positive,
}
use tokenpanel.Settlement.Settle.OrOutbox.{
  SettleUsageOrOutboxParams, Minted, settle_params, outbox_params, failure_context, failure_reason,
  priced_usage, key_of, reserved_micros_of, outbox_protocol, charges_of, final_price,
}
use tokenpanel.Settlement.Reconcile.Thaw
use tokenpanel.Settlement.Reconcile.Thaw.{
  Entry, ModelDoc, lookup, or_else, as_text, as_number, as_usage, as_rules, as_holds, chain,
  with_default, kind_of, mode_in, reserved_in, reservation_in, thawed_params, is_token_usage,
  actor_from_context, frozen_mode, final_cost, rules_of, protocol_of,
}
use tokenpanel.Settlement.Reconcile.Terms.Values.{
  entry_at, lookup-entry_if, lookup-entries, kind_back, mode_back, text_back, email_back,
  protocol_back, hex_back, reserved_back, counted_usage, holds_back,
}

-- The row of a settlement that failed.
abbrev pub failed_row : Platform → SettleUsageOrOutboxParams → Minted → Usage → SettleError → Row
failed_row platform p minted u e =
    enqueued_row platform.sha256_hex
      (outbox_params platform p minted (failure_reason e)
        (outbox_recon_context platform (failure_context p u e)))
      minted.outbox_id minted.fresh.now

module _ (platform : Platform) (p : SettleUsageOrOutboxParams) (minted : Minted) (u : Usage)
    (e : SettleError) where
  abbrev frozen : ReconContext
  frozen = failure_context p u e

  abbrev ctx : Context
  ctx = (failed_row platform p minted u e).context

  optional_at :
      (k : Text)
      → lookup k (entries (optional_entries platform frozen) frozen.extra)
        ≡ entry_at k (optional_entries platform frozen) (lookup k frozen.extra)
  optional_at k = lookup-entries k (optional_entries platform frozen) frozen.extra

  -- The entries that are there or not.
  error_code_at : as_text (lookup (codes "errorCode") ctx) ≡ p.error_code
  unfolding same outbox_recon_context enqueued_row outbox_params failure_context priced_usage
  error_code_at = ap as_text (optional_at (codes "errorCode")) ∙ text_back p.error_code

  usage_at : lookup (codes "usage") ctx ≡ some (usage (priced_usage p u))
  unfolding same outbox_recon_context enqueued_row outbox_params failure_context priced_usage
  usage_at = optional_at (codes "usage")

  rules_at : lookup (codes "rules") ctx ≡ some (rules p.rules)
  unfolding same outbox_recon_context enqueued_row outbox_params failure_context
  rules_at = optional_at (codes "rules")

  pub price_at : lookup (codes "priceMicros") ctx ≡ some (number (final_price p u))
  unfolding same outbox_recon_context enqueued_row outbox_params failure_context
  price_at = optional_at (codes "priceMicros")

  cost_at : lookup (codes "costMicros") ctx ≡ some (number (pos (charges_of p u).cost_micros))
  unfolding same outbox_recon_context enqueued_row outbox_params failure_context
  cost_at = optional_at (codes "costMicros")

  mode_at :
      (m : CacheAccountingMode)
      → (priced_usage p u).cache_accounting ≡ some m
      → lookup (codes "cacheAccounting") ctx ≡ some (text (mode_text m))
  unfolding same outbox_recon_context enqueued_row outbox_params failure_context priced_usage
  mode_at m h =
      optional_at (codes "cacheAccounting") ∙ ap (λ m. some (text (mode_text m))) (some_inj h)

  reserved_at :
      lookup (codes "reservedMicros") ctx
      ≡ or_else (map_value number (if_positive (some (reserved_micros_of p)))) none
  unfolding same outbox_recon_context enqueued_row outbox_params failure_context
  reserved_at = optional_at (codes "reservedMicros")

  holds_at :
      lookup (codes "limitHolds") ctx
      ≡ or_else
          (map_value limit_holds
            (serialize_limit_reservation platform.to_iso_string p.limit_reservation))
          none
  unfolding same outbox_recon_context enqueued_row outbox_params failure_context
  holds_at = optional_at (codes "limitHolds")

  -- The entries that are always there.
  kind_at : lookup (codes "actorKind") ctx ≡ some (text (kind_text p.actor.actor_kind))
  unfolding same outbox_recon_context enqueued_row outbox_params failure_context
  kind_at = refl

  api_key_at : lookup (codes "apiKeyId") ctx ≡ some (hex_or_null platform.to_hex p.actor.api_key_id)
  unfolding same outbox_recon_context enqueued_row outbox_params failure_context
  api_key_at = refl

  management_key_at :
      lookup (codes "managementKeyId") ctx
      ≡ some (hex_or_null platform.to_hex p.actor.management_key_id)
  unfolding same outbox_recon_context enqueued_row outbox_params failure_context
  management_key_at = refl

  email_at : lookup (codes "customerEmail") ctx ≡ some (or_null p.actor.customer_email)
  unfolding same outbox_recon_context enqueued_row outbox_params failure_context
  email_at = refl

  status_at : lookup (codes "status") ctx ≡ some (number (pos p.status))
  unfolding same outbox_recon_context enqueued_row outbox_params failure_context
  status_at = refl

  duration_at : lookup (codes "durationMs") ctx ≡ some (number (pos p.duration_ms))
  unfolding same outbox_recon_context enqueued_row outbox_params failure_context
  duration_at = refl

  currency_at : lookup (codes "currency") ctx ≡ some (text (charges_of p u).currency)
  unfolding same outbox_recon_context enqueued_row outbox_params failure_context
  currency_at = refl

  occurred_at_lem :
      lookup (codes "occurredAt") ctx ≡ some (text (platform.to_iso_string p.occurred_at))
  unfolding same outbox_recon_context enqueued_row outbox_params failure_context
  occurred_at_lem = refl

  -- A reservation of limits that survives the outbox: that of the customer, which holds something, in
  -- sizes that are safe integers; or none.
  abbrev pub IsCarried : ℕ → Option LimitReservation → Type 0
  IsCarried customer none = Unit
  IsCarried customer (some r) =
      (r.organization_id ≡ p.org_id)
      × (r.customer_id ≡ customer)
      × All IsStorable r.holds
      × ((h : LimitHold) × (hs : List LimitHold) × (r.holds ≡ h ∷ hs))

  carried :
      (customer : ℕ) (o : Option LimitReservation)
      → ((t : ℕ) → platform.parse_date (platform.to_iso_string t) ≡ some t)
      → IsCarried customer o
      → parse_limit_reservation platform.parse_date p.org_id customer
          (serialize_limit_reservation platform.to_iso_string o)
        ≡ o
  unfolding serialize_limit_reservation parse_limit_reservation
  carried customer none dates h = refl
  carried customer (some r) dates (same_org, same_customer, storable, (h, hs, holds)) =
      subst
        (λ org.
          parse_limit_reservation platform.parse_date org customer
            (serialize_limit_reservation platform.to_iso_string (some r))
          ≡ some r)
        same_org
        (subst
          (λ customer.
            parse_limit_reservation platform.parse_date r.organization_id customer
              (serialize_limit_reservation platform.to_iso_string (some r))
            ≡ some r)
          same_customer
          (reservation_back platform.to_iso_string platform.parse_date dates r storable
            ∙ ap (λ (hs : List LimitHold). elim hs [ [] ↦ none | h ∷ hs ↦ some r ]) holds))

  -- What the terms need to survive the outbox: the request is a customer's, ids and dates are read
  -- back from their texts, the currency has a name, the counts and the hold are safe integers, and so
  -- are the sizes of a reservation of limits, which is that of the customer and holds something.
  pub record IsFreezable (customer : ℕ) : Type 0 where
    pub of_customer : p.actor.customer_id ≡ some customer
    pub ids : (n : ℕ) → platform.of_hex (platform.to_hex n) ≡ some n
    pub dates : (t : ℕ) → platform.parse_date (platform.to_iso_string t) ≡ some t
    pub named : ltb 0 (length (charges_of p u).currency) ≡ true
    pub counted : is_token_usage (priced_usage p u) ≡ true
    pub safe_hold : leb_ℤ (reserved_micros_of p) (pos max_safe) ≡ true
    pub held : IsCarried customer p.limit_reservation

  reserved_kept :
      leb_ℤ (reserved_micros_of p) (pos max_safe) ≡ true
      → reserved_in
          (as_number (or_else (map_value number (if_positive (some (reserved_micros_of p)))) none))
        ≡ reserved_micros_of p
  reserved_kept h = reserved_back (reserved_micros_of p) (ground arith) h

  reservation_at :
      (customer : ℕ)
      → IsFreezable customer
      → reservation_in platform (failed_row platform p minted u e) ctx ≡ p.limit_reservation
  unfolding enqueued_row outbox_params
  reservation_at customer h =
      ap
        (λ (o : Option ℕ). elim o [
          | none ↦ none
          | some customer ↦
              parse_limit_reservation platform.parse_date p.org_id customer
                (as_holds (lookup (codes "limitHolds") ctx))
        ])
        h.of_customer
      ∙ ap (parse_limit_reservation platform.parse_date p.org_id customer)
          (ap as_holds holds_at ∙ holds_back _)
      ∙ carried customer p.limit_reservation h.dates h.held

  cost_kept :
      (v : Usage) (m : CacheAccountingMode) → final_cost ctx v m ≡ pos (charges_of p u).cost_micros
  unfolding final_cost charges_of
  cost_kept v m = rw (cost_at, final_cost) refl

  price_kept :
      (entry : Entry) (model : ModelDoc) (v : Usage) (m : CacheAccountingMode)
      → Thaw.final_price ctx entry model v m ≡ final_price p u
  unfolding Thaw.final_price final_price
  price_kept entry model v m = rw (price_at, Thaw.final_price) refl

  rules_kept :
      (customer : Option ℕ) (effective : List RateLimitRule)
      → rules_of ctx customer effective ≡ p.rules
  unfolding rules_of
  rules_kept customer effective = rw (rules_at, rules_of) refl

  pub usage_kept :
      is_token_usage (priced_usage p u) ≡ true
      → as_usage (lookup (codes "usage") ctx) ≡ some (priced_usage p u)
  usage_kept h = ap as_usage usage_at ∙ counted_usage (priced_usage p u) h

  -- Whatever model and entry are found, if the entry names the request's upstream model, the late
  -- settlement of the row has the very parameters of the one that failed, under the row's key.
  pub same_terms :
      (customer provider : ℕ) (model : ModelDoc) (entry : Entry) (effective : List RateLimitRule)
      → IsFreezable customer
      → entry.upstream_model_id ≡ p.upstream_model_id
      → thawed_params platform
          (failed_row platform p minted u e)
          (priced_usage p u)
          p.provider_id
          model
          entry
          effective
        ≡ record (settle_params platform p minted u) {
          gateway_request_id =
              some (compact_gateway_request_id platform.sha256_hex (key_of platform p minted));
        }
  unfolding thawed_params actor_from_context frozen_mode enqueued_row outbox_params settle_params
      priced_usage
  same_terms customer provider model entry effective h up =
      rw
        (
          kind_at,
          kind_back p.actor.actor_kind,
          api_key_at,
          hex_back platform p.actor.api_key_id h.ids,
          management_key_at,
          hex_back platform p.actor.management_key_id h.ids,
          email_at,
          email_back p.actor.customer_email,
          protocol_back p.protocol,
          mode_at _ refl,
          mode_back (resolve_cache_accounting u (some (cache_accounting_for_protocol p.protocol))),
          cost_kept _ _,
          price_kept entry model _ _,
          currency_at,
          h.named,
          status_at,
          duration_at,
          error_code_at,
          rules_kept _ effective,
          occurred_at_lem,
          h.dates p.occurred_at,
          reserved_at,
          reserved_kept h.safe_hold,
          reservation_at customer h,
          up,
        )
        refl
