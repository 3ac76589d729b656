-- ===== src/Billing/Balance/Examples.antt =====
-- Concrete customers and calls: the balance operations run, and the theorems applied.
use tokenpanel.Prelude.{
  ◌≡◌, refl, Bool, true, false, none, some, ◌-◌, List, [], ◌∷◌, All, codes, arith, same,
}
use tokenpanel.Prelude.Int.{ℤ, pos, negsuc, ◌+ℤ◌, ◌-ℤ◌, ◌≤ℤ◌, floor_div, neg}
use tokenpanel.Mongo.{Collection, IsCollection, in_memory, in_memory-IsCollection}
use tokenpanel.Mongo.Laws.{Unique, row_at}
use tokenpanel.Billing.Balance.{
  Balance, Customer, active, effective, effective_amount, effective_reserved, balance_factor,
  balance_dual_inc, scale, zero_decimal, three_decimal, four_decimal, available_gte, amount_gte,
  reserved_gte, add_amount, add_reserved, would_reserve_succeed,
}
use tokenpanel.Billing.Balance.Repo.{
  open_in, is_closed, moved, settle_allowed, reserve_balance, settle_with_reservation,
}
use tokenpanel.Billing.Balance.Paths.{dual_inc_moves, dual_write_lag}
use tokenpanel.Billing.Balance.Holds.{reserve_decides, answer, snapshot}
use tokenpanel.Billing.Balance.Calls.{Call, reserve, settle, run_call, run_calls}
use tokenpanel.Billing.Balance.Ledger.{ledger, money, plus, total}
use tokenpanel.Billing.Balance.Solvency.{solvency, Solvent}

abbrev no_clash : Customer → Customer → Bool
no_clash a b = false

abbrev store : Collection Customer
store = in_memory no_clash

-- 5 dollars under the older key in cents, with nothing held.
abbrev five_dollars : Balance
five_dollars = record {
  amount_micros = none;
  amount_units = some (pos 500);
  amount_minor = none;
  reserved_micros = none;
  reserved_units = none;
  reserved_minor = none;
  currency = codes "USD";
}

abbrev alice : Customer
alice = record {
  id = 4;
  organization_id = 7;
  status = active;
  balance = five_dollars;
  updated_at = 0;
}

abbrev db : List Customer
db = alice ∷ []

abbrev calls : List Call
calls =
    reserve 4 7 (pos 3000000) (codes "USD") 10
    ∷ reserve 4 7 (pos 3000000) (codes "USD") 11
    ∷ settle 4 7 (pos 1234567) (pos 3000000) (codes "USD") 12
    ∷ []

dual_inc_moves_example :
    let after = balance_dual_inc (negsuc 0) (pos 5) five_dollars in
    (effective_amount after ≡ effective_amount five_dollars +ℤ negsuc 0)
    × (effective_reserved after ≡ effective_reserved five_dollars +ℤ pos 5)
    × (after.currency ≡ codes "USD")
dual_inc_moves_example = dual_inc_moves (negsuc 0) (pos 5) five_dollars

dual_write_lag_example :
    let after = balance_dual_inc (negsuc 0) (pos 5) five_dollars in
    (units : ℤ) × (after.amount_units ≡ some units)
    × (scale units (balance_factor after.currency) ≤ℤ effective_amount after)
    × (effective_amount after
        ≤ℤ scale units (balance_factor after.currency) +ℤ pos (balance_factor after.currency - 1))
dual_write_lag_example = dual_write_lag (negsuc 0) (pos 5) five_dollars refl

no_clash_laws : IsCollection store no_clash
no_clash_laws = in_memory-IsCollection no_clash

db-Unique : Unique Customer.id db
db-Unique = (tt, tt)

reserve_decides_example :
    (reserve_balance store 4 7 (pos 6000000) (codes "USD") 10 db).0
    ≡ answer
        (pos 6000000)
        (would_reserve_succeed (snapshot five_dollars) (pos 6000000) (codes "USD"))
unfolding is_closed effective_reserved effective
reserve_decides_example =
    reserve_decides store no_clash_laws 4 7 (pos 6000000) (codes "USD") 10 db alice db-Unique refl
      refl refl (omega arith)

-- The second hold is refused, and the settled price is below its hold.
calls_run : (run_calls store calls db).0 ≡ true ∷ false ∷ true ∷ []
unfolding run_call reserve_balance settle_with_reservation open_in moved settle_allowed
    balance_dual_inc add_amount add_reserved available_gte amount_gte reserved_gte is_closed
    effective_amount effective_reserved effective balance_factor zero_decimal three_decimal
    four_decimal scale floor_div neg ◌+ℤ◌ ◌-ℤ◌ same
calls_run = refl

ledger_example :
    (r : Customer) × (row_at Customer.id 4 (run_calls store calls db).1 ≡ some r)
    × (money r ≡ plus (money alice) (total 4 calls (run_calls store calls db).0))
ledger_example = ledger store no_clash_laws 4 calls db alice db-Unique refl

solvency_example : All Solvent (run_calls store calls db).1
unfolding effective_amount effective_reserved effective scale balance_factor zero_decimal
    three_decimal four_decimal same
solvency_example =
    solvency store no_clash_laws calls db (refl, (refl, (refl, tt)))
      ((omega arith, omega arith), tt)
