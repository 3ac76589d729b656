-- ===== src/Billing/Workflow.antt =====
-- The steps before a provider is called: apps/api/src/domains/billing/workflow.ts. The answers of
-- the models and plans repositories, and how the operations of the database end, are arguments. A
-- customer that cannot be read is one that cannot be decoded.
-- The injected rules and snapshot and the dry run, which only tests use, are left out.
mod Snapshot
pub mod PreFlight
pub mod Admitted
mod Examples
use mathlib.Core.Option
use tokenpanel.Prelude.{
  ℕ, Bool, true, false, not, ◌&&◌, Option, none, some, List, [], ◌∷◌, ◌==◌, leb, if◌then◌else◌,
  Text, codes, same,
}
use tokenpanel.Prelude.Int.{ℤ, pos, leb_ℤ}
use tokenpanel.Mongo.{Collection}
use tokenpanel.Billing.Balance.{
  Customer, BalanceSnapshot, Refusal, currency_mismatch, insufficient_available,
  would_reserve_succeed, available_micros,
}
use tokenpanel.Billing.Balance.Repo.{Held, reserved, refused, reserve_balance, release_reserved}
use tokenpanel.Billing.Charges.{Model}
use tokenpanel.Billing.Estimate.{PreFlightEstimate, estimate_pre_flight_spend}
use tokenpanel.Limits.{RateLimitRule, ViolatedLimit, Estimates, LimitReservation}
use tokenpanel.Limits.Counters.{CounterStore}
use tokenpanel.Limits.Reserve
use tokenpanel.Limits.Reserve.{Admission, violated, Outcome, reserve_limits}
use tokenpanel.Limits.Settle.{release_limits}
unfoldable pub use Snapshot.{decode_snapshot, normalize_balance, is_currency}

pub record BalanceReservation : Type 0 where
  pub reserved_micros : ℤ
  pub customer_id : ℕ
  pub organization_id : ℕ

pub data WorkflowError : Type 0 where
  model_not_allowed model_not_found customer_not_found system_error : WorkflowError
  rate_limited : Option ViolatedLimit → WorkflowError
  balance_currency_mismatch : Text → Text → WorkflowError
  -- The need, the currency and what was available.
  insufficient_balance : ℤ → Text → ℤ → WorkflowError

pub record PreFlightParams : Type 0 where
  pub org_id : ℕ
  pub customer_id : ℕ
  pub api_key_model_whitelist : List Text
  pub alias_id : Text
  pub estimated_prompt_tokens : Option ℤ
  pub max_completion_tokens : Option ℤ

pub record PreFlightResult : Type 0 where
  pub model : Model
  pub rules : List RateLimitRule
  pub reservation : Option BalanceReservation
  pub limit_reservation : Option LimitReservation
  pub estimated_tokens : ℕ
  pub estimated_spend_micros : ℕ

pub data PreFlightOutcome : Type 0 where
  ok : PreFlightResult → PreFlightOutcome
  err : WorkflowError → PreFlightOutcome

abbrev includes : List Text → Text → Bool
includes [] t = false
includes (x ∷ xs) t = if same x t then true else includes xs t

-- An empty list allows every model.
abbrev pub is_allowed : List Text → Text → Bool
is_allowed [] alias = true
is_allowed (x ∷ xs) alias = includes (x ∷ xs) alias

-- The model that was found, and whether it is active.
unfoldable pub resolve_model : Option (Model × Bool) → Option Model
resolve_model none = none
resolve_model (some (model, active)) = if active then some model else none

unfoldable pub fail_reserve_decision : BalanceSnapshot → ℤ → Text → WorkflowError
unfolding would_reserve_succeed available_micros
fail_reserve_decision snap need currency =
    let short =
      insufficient_balance need currency
        (available_micros snap.amount_micros (some snap.reserved_micros)) in
    elim (would_reserve_succeed snap need currency) [
      | none ↦ short
      | some currency_mismatch ↦ balance_currency_mismatch snap.currency currency
      | some insufficient_available ↦ short
    ]

-- How an update of the database ends: it answers, or it fails, before it was applied or after.
pub data Write : Type 0 where
  answers not_applied answer_lost : Write

abbrev pub first_violation : List ViolatedLimit → Option ViolatedLimit
first_violation [] = none
first_violation (v ∷ vs) = some v

abbrev pub estimate_of : Model → PreFlightParams → PreFlightEstimate
estimate_of model params =
    estimate_pre_flight_spend model
      (elim params.estimated_prompt_tokens [ none ↦ pos 0 | some n ↦ n ])
      params.max_completion_tokens

abbrev pub limit_estimates : PreFlightParams → PreFlightEstimate → Estimates
limit_estimates params estimate = record {
  estimated_tokens = some (pos estimate.estimated_tokens);
  estimated_spend_micros = some (pos estimate.estimated_spend_micros);
  model_alias_id = some params.alias_id;
}

module _ (c : Collection Customer) (k : CounterStore) where
  abbrev pub State : Type 0
  State = c.Db × k.Db

  -- `releaseLimits(...)` with its failures caught; `fails` is whether it fails and is not applied: the
  -- failure of a release that was applied is as good as an answer.
  unfoldable pub release_quietly : Bool → Option LimitReservation → State → State
  unfolding release_limits
  release_quietly fails r (db, counters) =
      if fails then (db, counters) else (db, release_limits k r counters)

  abbrev pub preflight_result :
      Model
      → List RateLimitRule
      → Option BalanceReservation
      → Option LimitReservation
      → PreFlightEstimate
      → PreFlightResult
  preflight_result model rules reservation limits estimate = record {
    model = model;
    rules = rules;
    reservation = reservation;
    limit_reservation = limits;
    estimated_tokens = estimate.estimated_tokens;
    estimated_spend_micros = estimate.estimated_spend_micros;
  }

  -- The hold on the balance, after the limits.
  unfoldable pub hold_balance :
      Bool
      → Write
      → PreFlightParams
      → ℕ
      → Model
      → List RateLimitRule
      → PreFlightEstimate
      → Option LimitReservation
      → State
      → PreFlightOutcome × State
  unfolding reserve_balance decode_snapshot fail_reserve_decision release_quietly
  hold_balance release_fails write params now model rules estimate limits (db, counters) =
      let need = pos estimate.estimated_spend_micros in
      let (held, db') =
        reserve_balance c params.customer_id params.org_id need estimate.currency now db in
      if estimate.estimated_spend_micros == 0
      then (ok (preflight_result model rules none limits estimate), (db, counters))
      else elim (c.find_one (λ r. r.id == params.customer_id) db) [
        | none ↦ (err customer_not_found, release_quietly release_fails limits (db, counters))
        | some r ↦ elim (decode_snapshot r) [
          | none ↦ (err system_error, (db, counters))
          | some snap ↦ elim write [
            | not_applied ↦ (err system_error, (db, counters))
            | answer_lost ↦ (err system_error, (db', counters))
            | answers ↦ elim held [
              | refused reason ↦ (
                err (fail_reserve_decision snap need estimate.currency),
                release_quietly release_fails limits (db', counters),
              )
              | reserved n ↦ (
                ok (
                    preflight_result model rules
                      (if leb_ℤ n (pos 0)
                        then none
                        else some (record {
                          reserved_micros = n;
                          customer_id = params.customer_id;
                          organization_id = params.org_id;
                        }))
                      limits estimate),
                (db', counters),
              )
            ]
          ]
        ]
      ]

  -- The answer of the limits: `none` is a failure of the database.
  unfoldable pub after_limits :
      Bool
      → Write
      → PreFlightParams
      → ℕ
      → Model
      → List RateLimitRule
      → PreFlightEstimate
      → State
      → Option (Admission × k.Db)
      → PreFlightOutcome × State
  unfolding hold_balance
  after_limits release_fails write params now model rules estimate s none = (err system_error, s)
  after_limits release_fails write params now model rules estimate s
        (some (violated vs, counters)) =
      (err (rate_limited (first_violation vs)), (s.0, counters))
  after_limits release_fails write params now model rules estimate s
        (some (Reserve.reserved limits, counters)) =
      hold_balance release_fails write params now model rules estimate (some limits) (s.0, counters)

  -- The holds for a model: the limits, if there are rules, then the balance. `attempt` is how the
  -- transactions of the limits end.
  unfoldable pub reserve_holds :
      Bool
      → Write
      → (ℕ → Outcome k)
      → Model
      → List RateLimitRule
      → PreFlightParams
      → ℕ
      → State
      → PreFlightOutcome × State
  unfolding after_limits estimate_pre_flight_spend reserve_limits
  reserve_holds release_fails write attempt model [] params now s =
      hold_balance release_fails write params now model [] (estimate_of model params) none s
  reserve_holds release_fails write attempt model (r ∷ rs) params now s =
      after_limits release_fails write params now model (r ∷ rs) (estimate_of model params) s (
        reserve_limits k attempt params.org_id params.customer_id (r ∷ rs)
          (limit_estimates params (estimate_of model params)) now s.1)

  unfoldable pub pre_flight :
      Bool
      → Write
      → (ℕ → Outcome k)
      → Option (Model × Bool)
      → List RateLimitRule
      → PreFlightParams
      → ℕ
      → State
      → PreFlightOutcome × State
  unfolding reserve_holds resolve_model
  pre_flight release_fails write attempt found rules params now s =
      if not (is_allowed params.api_key_model_whitelist params.alias_id)
      then (err model_not_allowed, s)
      else elim (resolve_model found) [
        | none ↦ (err model_not_found, s)
        | some model ↦ reserve_holds release_fails write attempt model rules params now s
      ]

  -- Both holds are given back, each on its own.
  unfoldable pub release_all_preflight_holds :
      Bool → Bool → Option BalanceReservation → Option LimitReservation → ℕ → State → State
  unfolding release_quietly release_reserved
  release_all_preflight_holds balance_fails limits_fail none limits now state =
      release_quietly limits_fail limits state
  release_all_preflight_holds balance_fails limits_fail (some r) limits now (db, counters) =
      let (released, db') =
        release_reserved c r.customer_id r.organization_id r.reserved_micros now db in
      release_quietly limits_fail limits (if balance_fails then db else db', counters)
