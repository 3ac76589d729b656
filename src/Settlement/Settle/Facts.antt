-- ===== src/Settlement/Settle/Facts.antt =====
-- What a settlement should write, said of the stored documents.
use tokenpanel.Prelude.{
  ℕ, ◌≡◌, refl, true, false, Option, none, some, List, [], ◌∷◌, ◌++◌, ◌∙◌, ◌⊎◌, inl, inr, Text,
  Bool-cases, arith,
}
use mathlib.Core.List.{append-nil}
use tokenpanel.Prelude.Int.{pos, neg, ◌≤ℤ◌}
use tokenpanel.Limits.{Usage, LimitHold, LimitReservation}
use tokenpanel.Limits.Settle.{settle_limits, record_usage}
use tokenpanel.Settlement.Settle.Record.{UsageRecord, BalanceAdjustment, Stores, State}
use tokenpanel.Settlement.Settle.Usage.{
  SettleUsageParams, Fresh, usage_record, usage_debit, usage_payload, count_usage, is_positive,
  or_zero_ℤ, has_holds,
}
use tokenpanel.Settlement.Settle.Paying.{debits}

-- The usage record of a request, under a key and with a total.
pub record IsRecordOf (p : SettleUsageParams) (key : Option Text) (total : ℕ) (r : UsageRecord)
    : Type 0 where
  pub keyed : r.gateway_request_id ≡ key
  pub whose :
      (r.organization_id ≡ p.org_id)
      × (r.customer_id ≡ p.actor.customer_id)
      × (r.api_key_id ≡ p.actor.api_key_id)
      × (r.management_key_id ≡ p.actor.management_key_id)
      × (r.actor_kind ≡ p.actor.actor_kind)
      × (r.customer_email ≡ p.actor.customer_email)
  pub served :
      (r.model_alias_id ≡ p.model_alias_id)
      × (r.provider_id ≡ p.provider_id)
      × (r.upstream_model_id ≡ p.upstream_model_id)
      × (r.provider_request_id ≡ p.provider_request_id)
      × (r.protocol ≡ p.protocol)
  pub counted :
      (r.prompt_tokens ≡ p.usage.prompt_tokens)
      × (r.completion_tokens ≡ p.usage.completion_tokens)
      × (r.total_tokens ≡ total)
      × (r.reasoning_tokens ≡ or_zero_ℤ p.usage.reasoning_tokens)
      × (r.cache_read_tokens ≡ or_zero_ℤ p.usage.cache_read_tokens)
      × (r.cache_write_tokens ≡ or_zero_ℤ p.usage.cache_write_tokens)
  pub priced :
      (r.cost_micros ≡ p.cost_micros)
      × (r.price_micros ≡ p.price_micros)
      × (r.currency ≡ p.currency)
  pub ended :
      (r.occurred_at ≡ p.occurred_at)
      × (r.duration_ms ≡ p.duration_ms)
      × (r.status ≡ p.status)
      × (r.error_code ≡ p.error_code)

pub usage_record-IsRecordOf :
    (p : SettleUsageParams) (key : Option Text) (total : ℕ) (fresh : Fresh)
    → IsRecordOf p key total (usage_record p key total fresh)
unfolding usage_record
usage_record-IsRecordOf p key total fresh = record {
  keyed = refl;
  whose = (refl, refl, refl, refl, refl, refl);
  served = (refl, refl, refl, refl, refl);
  counted = (refl, refl, refl, refl, refl, refl);
  priced = (refl, refl, refl);
  ended = (refl, refl, refl, refl);
}

-- The entry of the ledger takes the price from the customer.
abbrev IsDebitOf : SettleUsageParams → ℕ → BalanceAdjustment → Type 0
IsDebitOf p customer a =
    (a.amount_micros ≡ neg p.price_micros)
    × (a.customer_id ≡ customer)
    × (a.organization_id ≡ p.org_id)
    × (a.currency ≡ p.currency)
    × (a.occurred_at ≡ p.occurred_at)

-- Without a price the ledger is as before, and with one it has one entry more.
abbrev pub Posts : SettleUsageParams → ℕ → List BalanceAdjustment → List BalanceAdjustment → Type 0
Posts p customer before after =
    ((p.price_micros ≤ℤ pos 0) × (after ≡ before))
    ⊎ ((pos 1 ≤ℤ p.price_micros)
        × ((a : BalanceAdjustment) × (after ≡ before ++ a ∷ []) × IsDebitOf p customer a))

pub debits-Posts :
    (p : SettleUsageParams) (customer : ℕ) (fresh : Fresh) (before after : List BalanceAdjustment)
    → after ≡ before ++ debits p customer fresh
    → Posts p customer before after
unfolding usage_debit
debits-Posts p customer fresh before after = elim (Bool-cases (is_positive p.price_micros)) [
  | inl e ↦ rw e (λ h.
      inr (ground (arith, e), (usage_debit p customer fresh, h, (refl, refl, refl, refl, refl))))
  | inr e ↦ rw e (λ h. inl (ground (arith, e), h ∙ append-nil before))
]

-- A reservation that holds something, or nothing that is held.
abbrev HoldsSome : Option LimitReservation → Type 0
HoldsSome none = ⊥
HoldsSome (some r) = (h : LimitHold) × (hs : List LimitHold) × (r.holds ≡ h ∷ hs)

abbrev HoldsNone : Option LimitReservation → Type 0
HoldsNone none = Unit
HoldsNone (some r) = r.holds ≡ []

module _ (s : Stores) where
  -- The limits count the request's total and price for its model and customer: what was held is
  -- settled, and if nothing was held the usage is recorded.
  abbrev pub CountsUsage : SettleUsageParams → ℕ → ℕ → s.counters.Db → s.counters.Db → Type 0
  CountsUsage p customer total before after =
      let usage : Usage = record {
        tokens = pos total;
        spend_micros = p.price_micros;
        model_alias_id = some p.model_alias_id;
      } in
      (HoldsSome p.limit_reservation
        × (after
            ≡ settle_limits s.counters p.limit_reservation p.org_id customer p.rules usage
                p.occurred_at before))
      ⊎ (HoldsNone p.limit_reservation
          × (after ≡ record_usage s.counters p.org_id customer p.rules usage p.occurred_at before))

  holds_some : (o : Option LimitReservation) → has_holds o ≡ true → HoldsSome o
  holds_some none h = cc h
  holds_some (some r) h = by_list r.holds h
    where
      by_list :
          (hs : List LimitHold)
          → has_holds (some (record r { holds = hs })) ≡ true
          → (h : LimitHold) × (rest : List LimitHold) × (hs ≡ h ∷ rest)
      by_list [] h = cc h
      by_list (x ∷ xs) h = (x, xs, refl)

  holds_none : (o : Option LimitReservation) → has_holds o ≡ false → HoldsNone o
  holds_none none h = tt
  holds_none (some r) h = by_list r.holds h
    where
      by_list : (hs : List LimitHold) → has_holds (some (record r { holds = hs })) ≡ false → hs ≡ []
      by_list [] h = refl
      by_list (x ∷ xs) h = ground (arith, h)

  pub count_usage-CountsUsage :
      (p : SettleUsageParams) (customer total : ℕ) (st : State s) (after : s.counters.Db)
      → after ≡ (count_usage s p customer total st).counters
      → CountsUsage p customer total st.counters after
  unfolding count_usage usage_payload
  count_usage-CountsUsage p customer total st after =
      elim (Bool-cases (has_holds p.limit_reservation)) [
        | inl e ↦ rw e (λ h. inl (holds_some p.limit_reservation e, h))
        | inr e ↦ rw e (λ h. inr (holds_none p.limit_reservation e, h))
      ]
