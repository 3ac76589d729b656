-- ===== src/Settlement/Settle/Usage.antt =====
-- `settleUsage`: the usage record, the debit, the entry of the ledger and the counters in one
-- transaction, once for a gateway request id. Fresh object ids and clock readings are arguments.
mod Written
use tokenpanel.Prelude.{
  ℕ, Bool, true, false, not, ◌||◌, Option, none, some, List, ltb, length, Text, codes,
  if◌then◌else◌,
}
use tokenpanel.Prelude.Int.{ℤ, pos, neg, leb_ℤ, at_least_zero}
use tokenpanel.Billing.Charges.{Usage, Protocol}
use tokenpanel.Billing.Balance.Repo.{settle_with_reservation, debit_balance}
use tokenpanel.Limits
use tokenpanel.Limits.{RateLimitRule, LimitReservation}
use tokenpanel.Limits.Settle.{settle_limits, record_usage}
use tokenpanel.Settlement.Outbox.Service.{compact_gateway_request_id}
use tokenpanel.Providers.ProviderUsage.{normalize_processed_total_tokens}
use tokenpanel.Providers.ProviderUsage.Reported.{settled_counts}
use tokenpanel.Settlement.Settle.Record.{
  SettlementActor, UsageRecord, BalanceAdjustment, SettleError, guard, duplicate_key, SettleResult,
  done, failed, Stores, State, find_by_gateway_request_id, insert, insert_adjustment,
}
use tokenpanel.Settlement.Settle.Transaction.{Commit, with_mongo_session}
pub use Written.{SettleUsageParams, Fresh, or_zero_ℤ, is_some, is_positive, reserved_of, has_holds}
unfoldable pub use Written.{usage_record, usage_debit, usage_payload}

-- The debit of the price, with the release of the hold if anything is held.
abbrev pub debit_by :
    Bool → (s : Stores) → SettleUsageParams → ℕ → Fresh → s.customers.Db → Bool × s.customers.Db
debit_by true s p customer fresh db =
    settle_with_reservation s.customers customer p.org_id p.price_micros (reserved_of p) p.currency
      fresh.now db
debit_by false s p customer fresh db =
    debit_balance s.customers customer p.org_id p.price_micros p.currency fresh.now db

module _ (s : Stores) where
  abbrev pub debit : SettleUsageParams → ℕ → Fresh → s.customers.Db → Bool × s.customers.Db
  debit p customer fresh db = debit_by (is_positive (reserved_of p)) s p customer fresh db

  abbrev pub debited : State s → Bool × s.customers.Db → SettleResult (State s)
  debited st (true, db) = done (record st { customers = db })
  debited st (false, db) = failed (guard (codes "settlement_guard_failed"))

  unfoldable pub move_balance : SettleUsageParams → ℕ → Fresh → State s → SettleResult (State s)
  unfolding settle_with_reservation debit_balance
  move_balance p customer fresh st =
      if is_positive p.price_micros || is_positive (reserved_of p)
      then debited st (debit p customer fresh st.customers)
      else done st

  abbrev pub with_adjustments : State s → SettleResult s.adjustments.Db → SettleResult (State s)
  with_adjustments st (done db) = done (record st { adjustments = db })
  with_adjustments st (failed e) = failed e

  unfoldable pub post_debit : SettleUsageParams → ℕ → Fresh → State s → SettleResult (State s)
  unfolding insert_adjustment usage_debit
  post_debit p customer fresh st =
      if is_positive p.price_micros
      then with_adjustments st
          (insert_adjustment s.adjustments (usage_debit p customer fresh) st.adjustments)
      else done st

  unfoldable pub count_usage : SettleUsageParams → ℕ → ℕ → State s → State s
  unfolding settle_limits record_usage usage_payload
  count_usage p customer total st = record st {
    counters =
        if has_holds p.limit_reservation
        then settle_limits s.counters p.limit_reservation p.org_id customer p.rules
            (usage_payload p total) p.occurred_at st.counters
        else record_usage s.counters p.org_id customer p.rules (usage_payload p total) p.occurred_at
            st.counters;
  }

  -- `yield*`: go on with the state, or fail.
  infixl 5 ◌then_do◌
  abbrev pub ◌then_do◌ :
      SettleResult (State s) → (State s → SettleResult (State s)) → SettleResult (State s)
  (done st) then_do f = f st
  (failed e) then_do f = failed e

  abbrev pub bill_for : Option ℕ → SettleUsageParams → ℕ → Fresh → State s → SettleResult (State s)
  bill_for none p total fresh st = done st
  bill_for (some customer) p total fresh st =
      move_balance p customer fresh st
      then_do post_debit p customer fresh
      then_do (λ st. done (count_usage p customer total st))

  -- After the insert of the record.
  unfoldable pub bill : SettleUsageParams → ℕ → Fresh → State s → SettleResult (State s)
  unfolding move_balance post_debit count_usage
  bill p total fresh st = bill_for p.actor.customer_id p total fresh st

  abbrev pub found : Option Text → s.usage.Db → SettleResult Bool
  found none db = done false
  found (some key) db = find_by_gateway_request_id s.usage key db

  -- A duplicate key is a duplicate of the request if its record is there.
  abbrev pub if_there : SettleError → State s → SettleResult Bool → SettleResult (State s)
  if_there e st (done true) = done st
  if_there e st (done false) = failed e
  if_there e st (failed e') = failed e'

  abbrev pub inserted :
      SettleUsageParams
      → Option Text
      → ℕ
      → Fresh
      → State s
      → SettleResult s.usage.Db
      → SettleResult (State s)
  inserted p key total fresh st (done db) = bill p total fresh (record st { usage = db })
  inserted p (some key) total fresh st (failed duplicate_key) =
      if_there duplicate_key st (find_by_gateway_request_id s.usage key st.usage)
  inserted p key total fresh st (failed e) = failed e

  abbrev pub unless_raced :
      SettleUsageParams
      → Option Text
      → ℕ
      → Fresh
      → State s
      → SettleResult Bool
      → SettleResult (State s)
  unless_raced p key total fresh st (done true) = done st
  unless_raced p key total fresh st (failed e) = failed e
  unless_raced p key total fresh st (done false) =
      inserted p key total fresh st (insert s.usage (usage_record p key total fresh) st.usage)

  -- The body of the transaction.
  unfoldable pub settle_body :
      SettleUsageParams → Option Text → ℕ → Fresh → State s → SettleResult (State s)
  unfolding find_by_gateway_request_id insert usage_record bill
  settle_body p key total fresh st = unless_raced p key total fresh st (found key st.usage)

  -- A guard's failure is swallowed unless it is rethrown.
  abbrev pub guard_failure : Bool → SettleResult (State s) × State s → SettleResult Unit × State s
  guard_failure rethrow (done x, st) = (done tt, st)
  guard_failure true (failed e, st) = (failed e, st)
  guard_failure false (failed (guard message), st) = (done tt, st)
  guard_failure false (failed e, st) = (failed e, st)

  abbrev pub with_total :
      SettleUsageParams
      → Option Text
      → Fresh
      → Commit
      → State s
      → Option ℕ
      → SettleResult Unit × State s
  with_total p key fresh commit st none = (failed (guard (codes "usage_overflow")), st)
  with_total p key fresh commit st (some total) =
      guard_failure p.rethrow_guard_failure
        (with_mongo_session commit (settle_body p key total fresh) st)

  abbrev pub unless_done :
      SettleUsageParams
      → Option Text
      → Fresh
      → Commit
      → State s
      → SettleResult Bool
      → SettleResult Unit × State s
  unless_done p key fresh commit st (done true) = (done tt, st)
  unless_done p key fresh commit st (failed e) = (failed e, st)
  unless_done p key fresh commit st (done false) =
      with_total p key fresh commit st
        (normalize_processed_total_tokens (settled_counts p.protocol p.usage))

  -- Under a key: `seen` is what the first lookup saw, and `st` the state in which the transaction
  -- runs.
  unfoldable pub settle_under_key :
      SettleUsageParams
      → Option Text
      → Fresh
      → Commit
      → s.usage.Db
      → State s
      → SettleResult Unit × State s
  unfolding find_by_gateway_request_id normalize_processed_total_tokens settled_counts
      with_mongo_session settle_body
  settle_under_key p key fresh commit seen st = unless_done p key fresh commit st (found key seen)

-- `sha256_hex` is the digest of node:crypto, as hex.
module _ (sha256_hex : Text → Text) where
  -- An empty id is none.
  unfoldable pub gateway_key : Option Text → Option Text
  unfolding compact_gateway_request_id
  gateway_key none = none
  gateway_key (some id) =
      if ltb 0 (length id) then some (compact_gateway_request_id sha256_hex id) else none

  unfoldable pub settle_usage :
      (s : Stores)
      → SettleUsageParams
      → Fresh
      → Commit
      → s.usage.Db
      → State s
      → SettleResult Unit × State s
  unfolding gateway_key settle_under_key
  settle_usage s p fresh commit seen st =
      settle_under_key s p (gateway_key p.gateway_request_id) fresh commit seen st
