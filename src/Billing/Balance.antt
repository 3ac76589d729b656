-- ===== src/Billing/Balance.antt =====
-- A customer's balance and its atomic updates: apps/api/src/infrastructure/mongo/balance-paths.ts
-- and the balance operations of apps/api/src/infrastructure/mongo/repositories/customers.ts, with
-- the pure decisions of apps/api/src/domains/billing/reservation.ts.
pub mod Repo
pub mod Paths
pub mod Holds
pub mod Calls
pub mod Ledger
pub mod Solvency
mod Examples
use tokenpanel.Prelude.{
  ℕ, ◌*◌, Bool, true, false, not, ◌&&◌, Option, none, some, List, [], ◌∷◌, ◌==◌, if◌then◌else◌,
  Text, codes, same,
}
use tokenpanel.Prelude.Int.{
  ℤ, pos, pos_part, neg_part, sub_ℕ, ◌+ℤ◌, ◌-ℤ◌, leb_ℤ, at_least_zero, floor_div,
}

-- The stored keys of a balance. Micros are authoritative; Units and Minor are older names of the
-- same money in minor units.
pub record Balance : Type 0 where
  pub amount_micros : Option ℤ
  pub amount_units : Option ℤ
  pub amount_minor : Option ℤ
  pub reserved_micros : Option ℤ
  pub reserved_units : Option ℤ
  pub reserved_minor : Option ℤ
  pub currency : Text

pub data CustomerStatus : Type 0 where
  active suspended closed : CustomerStatus

pub record Customer : Type 0 where
  pub id : ℕ
  pub organization_id : ℕ
  pub status : CustomerStatus
  pub balance : Balance
  pub updated_at : ℕ

abbrev pub one_of : List Text → Text → Bool
one_of [] c = false
one_of (x ∷ xs) c = if same x c then true else one_of xs c

unfoldable pub zero_decimal : List Text
zero_decimal =
    codes "BIF"
    ∷ codes "CLP"
    ∷ codes "DJF"
    ∷ codes "GNF"
    ∷ codes "ISK"
    ∷ codes "JPY"
    ∷ codes "KMF"
    ∷ codes "KRW"
    ∷ codes "PYG"
    ∷ codes "RWF"
    ∷ codes "UGX"
    ∷ codes "UYI"
    ∷ codes "VND"
    ∷ codes "VUV"
    ∷ codes "XAF"
    ∷ codes "XOF"
    ∷ codes "XPF"
    ∷ []

unfoldable pub three_decimal : List Text
three_decimal =
    codes "BHD"
    ∷ codes "IQD"
    ∷ codes "JOD"
    ∷ codes "KWD"
    ∷ codes "LYD"
    ∷ codes "OMR"
    ∷ codes "TND"
    ∷ []

unfoldable pub four_decimal : List Text
four_decimal = codes "CLF" ∷ codes "UYW" ∷ []

-- Micros in a minor unit of the currency.
unfoldable pub balance_factor : Text → ℕ
balance_factor c =
    if one_of zero_decimal c
    then 1000000
    else if one_of three_decimal c
    then 1000
    else if one_of four_decimal c
    then 100
    else 10000

-- `$multiply` by a factor.
unfoldable pub scale : ℤ → ℕ → ℤ
scale a k = sub_ℕ (pos_part a * k) (neg_part a * k)

-- `$ifNull`: Micros, else Units by the factor, else Minor by the factor, else 0.
unfoldable pub effective : Option ℤ → Option ℤ → Option ℤ → ℕ → ℤ
unfolding scale
effective (some micros) units minor factor = micros
effective none (some units) minor factor = scale units factor
effective none none (some minor) factor = scale minor factor
effective none none none factor = pos 0

unfoldable pub effective_amount : Balance → ℤ
unfolding effective
effective_amount b =
    effective b.amount_micros b.amount_units b.amount_minor (balance_factor b.currency)

unfoldable pub effective_reserved : Balance → ℤ
unfolding effective
effective_reserved b =
    effective b.reserved_micros b.reserved_units b.reserved_minor (balance_factor b.currency)

abbrev pub is_zero : ℤ → Bool
is_zero d = leb_ℤ d (pos 0) && leb_ℤ (pos 0) d

-- The two halves of `balanceDualIncPipeline`: a delta of 0 sets nothing.
unfoldable pub add_amount : ℤ → Balance → Balance
unfolding effective_amount
add_amount delta b =
    let next = effective_amount b +ℤ delta in
    if is_zero delta then b else record b {
      amount_micros = some next;
      amount_units = some (floor_div next (balance_factor b.currency));
      amount_minor = none;
    }

unfoldable pub add_reserved : ℤ → Balance → Balance
unfolding effective_reserved
add_reserved delta b =
    let next = effective_reserved b +ℤ delta in
    if is_zero delta then b else record b {
      reserved_micros = some next;
      reserved_units = some (floor_div next (balance_factor b.currency));
      reserved_minor = none;
    }

unfoldable pub balance_dual_inc : ℤ → ℤ → Balance → Balance
unfolding add_amount add_reserved
balance_dual_inc amount_delta reserved_delta b =
    add_reserved reserved_delta (add_amount amount_delta b)

unfoldable pub available_gte : ℤ → Balance → Bool
unfolding effective_amount effective_reserved
available_gte need b = leb_ℤ need (effective_amount b -ℤ effective_reserved b)

unfoldable pub amount_gte : ℤ → Balance → Bool
unfolding effective_amount
amount_gte price b = leb_ℤ price (effective_amount b)

unfoldable pub reserved_gte : ℤ → Balance → Bool
unfolding effective_reserved
reserved_gte hold b = leb_ℤ hold (effective_reserved b)

-- The snapshot of domains/billing/reservation.ts, and its decisions.
pub record BalanceSnapshot : Type 0 where
  pub amount_micros : ℤ
  pub reserved_micros : ℤ
  pub currency : Text

unfoldable pub available_micros : ℤ → Option ℤ → ℤ
available_micros amount none = at_least_zero (amount -ℤ pos 0)
available_micros amount (some reserved) = at_least_zero (amount -ℤ at_least_zero reserved)

pub data Refusal : Type 0 where
  currency_mismatch insufficient_available : Refusal

-- `none` is `{ ok: true }`.
unfoldable pub would_reserve_succeed : BalanceSnapshot → ℤ → Text → Option Refusal
unfolding available_micros
would_reserve_succeed snap need currency =
    if leb_ℤ need (pos 0)
    then none
    else if not (same snap.currency currency)
    then some currency_mismatch
    else if not (leb_ℤ need (available_micros snap.amount_micros (some snap.reserved_micros)))
    then some insufficient_available
    else none
