-- ===== src/Billing/Workflow/Examples.antt =====
-- A request that the balance refuses.
use tokenpanel.Prelude.{
  ℕ, ◌≡◌, refl, Bool, true, false, none, some, List, [], ◌∷◌, ◌++◌, codes, if◌then◌else◌, same,
}
use tokenpanel.Prelude.Int.{pos, ◌-ℤ◌}
use tokenpanel.Mongo.{Collection, in_memory, in_memory-IsCollection, update_first, any}
use tokenpanel.Billing.Balance.{
  zero_decimal, three_decimal, four_decimal, Customer, active, would_reserve_succeed,
  available_micros, available_gte, effective_amount, effective_reserved, effective,
}
use tokenpanel.Billing.Balance.Repo.{reserve_balance, open_in, is_closed}
use tokenpanel.Billing.Charges.{TokenPriceSchedule, Model}
use tokenpanel.Billing.Charges.Rounding.{ceil_per_million, ceil_div}
use tokenpanel.Billing.Estimate.{
  estimate_pre_flight_spend, resolve_completion_cap, worst_case_active_entry_price, worst_of,
}
use tokenpanel.Limits.Counters.{Counter, CounterStore, filter, IsCounterStore}
use tokenpanel.Limits.{RateLimitRule, tokens, customer}
use tokenpanel.Limits.Reserve.{Outcome, conflict, commits}
use tokenpanel.Billing.Workflow.{
  PreFlightParams, err, insufficient_balance, pre_flight, reserve_holds, hold_balance, answers,
  normalize_balance, is_currency, decode_snapshot, fail_reserve_decision, release_quietly,
  resolve_model,
}
use tokenpanel.Billing.Workflow.Admitted.{OnOk, CapsHold, admitted_within_caps}
use tokenpanel.Billing.Workflow.PreFlight.{refusal_is_free, KeptOnError}

abbrev no_clash : Customer → Customer → Bool
no_clash a b = false

abbrev store : Collection Customer
store = in_memory no_clash

abbrev counters : CounterStore
counters = record {
  Db = List Counter;
  rows = λ db. db;
  find = filter;
  update_one = update_first;
  upsert_one = λ p f a db. if any p db then update_first p f db else db ++ a ∷ [];
}

-- A tenth of a dollar.
abbrev poor : Customer
poor = record {
  id = 4;
  organization_id = 7;
  status = active;
  balance = record {
    amount_micros = some (pos 100000);
    amount_units = none;
    amount_minor = none;
    reserved_micros = none;
    reserved_units = none;
    reserved_minor = none;
    currency = codes "USD";
  };
  updated_at = 0;
}

abbrev price : TokenPriceSchedule
price = record {
  input = 1000000;
  output = 50000000;
  reasoning = none;
  cache_read = none;
  cache_write = none;
  input_audio = none;
  output_audio = none;
}

abbrev gpt : Model
gpt = record {
  entries = record { id = 1; cost = none; price = none; priority = 0; active = true } ∷ [];
  output_limit = none;
  price = price;
  currency = codes "USD";
}

abbrev request : PreFlightParams
request = record {
  org_id = 7;
  customer_id = 4;
  api_key_model_whitelist = codes "gpt" ∷ [];
  alias_id = codes "gpt";
  estimated_prompt_tokens = some (pos 100);
  max_completion_tokens = none;
}

abbrev attempt : ℕ → Outcome counters
attempt n = conflict

-- 100 prompt tokens and 4,096 of completion.
refused_run :
    pre_flight store counters false answers attempt (some (gpt, true)) [] request 10 (poor ∷ [], [])
    ≡ (err (insufficient_balance (pos 204900) (codes "USD") (pos 100000)), (poor ∷ [], []))
unfolding pre_flight reserve_holds hold_balance decode_snapshot normalize_balance is_currency
    fail_reserve_decision release_quietly resolve_model reserve_balance open_in is_closed
    available_gte effective_amount effective_reserved effective would_reserve_succeed
    available_micros estimate_pre_flight_spend resolve_completion_cap worst_case_active_entry_price
    worst_of ceil_per_million ceil_div same ◌-ℤ◌
refused_run = refl

-- A balance that is stored in cents only is read in micros.
legacy_read :
    decode_snapshot (record poor {
      balance = record poor.balance { amount_micros = none; amount_minor = some (pos 10) };
    })
    ≡ some (record { amount_micros = pos 100000; reserved_micros = pos 0; currency = codes "USD" })
unfolding decode_snapshot normalize_balance is_currency same zero_decimal three_decimal four_decimal
legacy_read = refl

refusal_is_free_example :
    KeptOnError store counters
      (in_memory-IsCollection no_clash)
      (pre_flight store counters false answers attempt
        (some (gpt, true))
        []
        request
        10
        (poor ∷ [], []))
      (poor ∷ [])
refusal_is_free_example =
    refusal_is_free store counters (in_memory-IsCollection no_clash) false answers attempt
      (some (gpt, true)) [] request 10 (poor ∷ [], []) (cc)

abbrev counter_laws : IsCounterStore counters
counter_laws = record {
  find_lem = λ p db. refl;
  rows-update = λ p f db. refl;
  rows-upsert = λ p f a db. refl;
}

abbrev rich : Customer
rich = record poor { balance = record poor.balance { amount_micros = some (pos 900000) } }

abbrev token_rule : RateLimitRule
token_rule = record {
  id = codes "a";
  window_seconds = 3600;
  dimension = tokens;
  cap_value = 5000;
  scope = customer;
  scope_target = none;
  active = true;
}

-- The first transaction commits on empty counters.
abbrev commit : ℕ → Outcome counters
commit n = commits [] []

admitted_within_caps_example :
    OnOk store counters counter_laws
      (CapsHold store counters counter_laws commit gpt (token_rule ∷ []) request 90012345)
      (reserve_holds store counters false answers commit gpt
        (token_rule ∷ [])
        request
        90012345
        (rich ∷ [], []))
admitted_within_caps_example =
    admitted_within_caps store counters counter_laws false answers commit gpt (token_rule ∷ [])
      request 90012345 (rich ∷ [], [])
