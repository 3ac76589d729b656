-- ===== src/Settlement/Reconcile/Examples.antt =====
-- A settlement that failed, worked off, and the theorems at it.
use tokenpanel.Prelude.{
  ◌≡◌, refl, true, false, none, some, List, [], ◌∷◌, codes, same, ltb, length, arith,
}
use tokenpanel.Prelude.Int.{pos, neg}
use tokenpanel.Mongo.{in_memory}
use tokenpanel.Settlement.Outbox.{Row, Claim, decodes, decodes_enqueued}
use tokenpanel.Settlement.Outbox.Repo.{claimed, holds_claim, renew_claim, renewed}
use tokenpanel.Settlement.Outbox.Service
use tokenpanel.Settlement.Settle.Record.{State, SettleError, guard}
use tokenpanel.Settlement.Settle.Transaction.{acknowledged}
use tokenpanel.Settlement.Settle.Found.{IsRecorded}
use tokenpanel.Settlement.Settle.Sample.{
  stores, stores-IsStores, start, request, platform, minted, used, fresh, no_rules,
}
use tokenpanel.Settlement.Settle.OrOutbox.{
  SettleUsageOrOutboxParams, settle_params, priced_usage, key_of, outbox_params, failure_context,
  charges_of,
}
use tokenpanel.Settlement.Settle.Context.{outbox_recon_context}
use tokenpanel.Billing.Charges.Rounding.{ceil_per_million}
use tokenpanel.Billing.Balance.{amount_gte, reserved_gte}
use tokenpanel.Limits.{LimitHold, tokens}
use tokenpanel.Settlement.Reconcile.Thaw.{
  as_usage, lookup, thawed_params, is_token_usage, Entry, ModelDoc,
}
use tokenpanel.Settlement.Reconcile.Worker.{
  Answers, ReconcileResult, reconciled, reconcile_outbox_row, attribution, ready,
}
use tokenpanel.Settlement.Reconcile.Recorded.{row_key, reconciled-IsRecorded}
use tokenpanel.Settlement.Reconcile.Terms.{failed_row, IsFreezable}
use tokenpanel.Settlement.Reconcile.Late.{late_terms}

-- The model and the provider are gone.
abbrev answers : Answers
answers = record {
  model = none;
  provider = false;
  rules = no_rules;
  fresh = fresh;
  commit = acknowledged;
}

abbrev refusal : SettleError
refusal = guard (codes "settlement_guard_failed")

abbrev claim : Claim
claim = record { attempts = 1; claim_token = codes "t" }

abbrev row : Row
row = claimed 1 (codes "t") 70 1070 (failed_row platform request minted used refusal)

abbrev rows : List Row
rows = row ∷ []

abbrev worked : ReconcileResult × (State stores × List Row)
worked = reconcile_outbox_row platform stores (in_memory Service.clash) answers row claim start rows

worked_lem :
    reconcile_outbox_row platform stores (in_memory Service.clash) answers row claim start rows
    ≡ (reconciled, (worked.1.0, worked.1.1))
unfolding reconcile_outbox_row claimed Service.enqueued_row outbox_params outbox_recon_context same
    failure_context is_token_usage renew_claim holds_claim ceil_per_million amount_gte reserved_gte
    neg renewed
worked_lem = refl

row_filled : ltb 0 (length row.gateway_request_id) ≡ true
unfolding claimed Service.enqueued_row outbox_params Service.compact_gateway_request_id
    Service.resolve_gateway_request_id
row_filled = refl

reconciled-IsRecorded_example :
    IsRecorded
      (row_key platform stores stores-IsStores (in_memory Service.clash) row row_filled)
      (stores.usage.rows worked.1.0.usage)
reconciled-IsRecorded_example =
    reconciled-IsRecorded platform stores stores-IsStores (in_memory Service.clash) row row_filled
      answers claim start worked.1.0 rows worked.1.1 worked_lem

-- A request that also holds tokens of a rate limit.
abbrev hold : LimitHold
hold = record {
  rule_id = codes "a";
  dimension = tokens;
  window_seconds = 60;
  bucket_start = 40;
  scope_target = none;
  reserved = pos 120;
  cap_value = 1000;
}

abbrev holding : SettleUsageOrOutboxParams
holding = record request {
  limit_reservation = some (record { organization_id = 7; customer_id = 8; holds = hold ∷ [] });
}

freezable : IsFreezable platform holding minted used refusal 8
unfolding charges_of is_token_usage
freezable = record {
  of_customer = refl;
  ids = λ n. refl;
  dates = λ t. refl;
  named = refl;
  counted = refl;
  safe_hold = refl;
  held = (refl, refl, ((omega arith, (120, refl, omega arith)), tt), (hold, [], refl));
}

-- The schema of the outbox accepts the row.
storable : decodes_enqueued (failed_row platform holding minted used refusal) ≡ true
unfolding decodes_enqueued decodes Service.enqueued_row outbox_params
storable = refl

late_terms_example :
    (as_usage (lookup (codes "usage") (failed_row platform holding minted used refusal).context)
      ≡ some (priced_usage holding used))
    × ((model : ModelDoc) × (entry : Entry) × (attribution platform answers
            (failed_row platform holding minted used refusal)
          ≡ ready 9 model entry)
        × (thawed_params platform
              (failed_row platform holding minted used refusal)
              (priced_usage holding used)
              9
              model
              entry
              no_rules
            ≡ record (settle_params platform holding minted used) {
              gateway_request_id = some (
                  Service.compact_gateway_request_id platform.sha256_hex
                    (key_of platform holding minted));
            }))
late_terms_example = late_terms platform holding minted used refusal 8 answers freezable refl
