-- ===== src/Billing/Workflow/Snapshot.antt =====
-- The stored customer as the pre-flight reads it: packages/db/src/schemas/legacy-money-normalize.ts
-- and the balance in packages/db/src/schemas/effect/primitives.ts.
use tokenpanel.Prelude.{
  ℕ, Bool, true, ◌&&◌, Option, none, some, [], ◌∷◌, ◌==◌, leb, length, Text, if◌then◌else◌,
}
use tokenpanel.Prelude.Int.{ℤ, pos, leb_ℤ}
use tokenpanel.Providers.ProviderUsage.{max_safe}
use tokenpanel.Billing.Balance.{Balance, Customer, BalanceSnapshot, balance_factor, scale}

-- `promoteMinor` with `preferMinor`: the units that are then stored, if any.
abbrev pub promote_minor : Option ℤ → Option ℤ → Option ℤ
promote_minor units none = units
promote_minor units (some minor) = some minor

-- `promoteMicros`: the micros that are then stored, if any.
abbrev pub promote_micros : Option ℤ → Option ℤ → ℕ → Option ℤ
promote_micros (some micros) units factor = some micros
promote_micros none none factor = none
promote_micros none (some units) factor = some (scale units factor)

-- Amounts are integers. The factor of a currency in small letters, which the source would raise, is
-- of no account: the schema refuses such a currency.
unfoldable pub normalize_balance : Balance → Balance
unfolding balance_factor scale
normalize_balance b =
    let factor = balance_factor b.currency in
    record b {
      amount_micros =
          promote_micros b.amount_micros (promote_minor b.amount_units b.amount_minor) factor;
      amount_units = none;
      amount_minor = none;
      reserved_micros =
          promote_micros b.reserved_micros (promote_minor b.reserved_units b.reserved_minor) factor;
      reserved_units = none;
      reserved_minor = none;
    }

abbrev all_capitals : Text → Bool
all_capitals [] = true
all_capitals (c ∷ s) = leb 65 c && leb c 90 && all_capitals s

-- `CurrencyCode`
unfoldable pub is_currency : Text → Bool
is_currency s = length s == 3 && all_capitals s

-- `MoneyMicros`
abbrev pub is_money : ℤ → Bool
is_money n = leb_ℤ (pos 0) n && leb_ℤ n (pos max_safe)

abbrev or_nothing : Option ℤ → ℤ
or_nothing none = pos 0
or_nothing (some n) = n

abbrev pub snapshot_of : Option ℤ → ℤ → Text → Option BalanceSnapshot
snapshot_of none held currency = none
snapshot_of (some amount) held currency =
    if is_money amount && is_money held && is_currency currency
    then some (record { amount_micros = amount; reserved_micros = held; currency = currency })
    else none

-- The balance, normalized, as the schema reads it: an amount is required, and what is held is 0 if
-- it is not stored.
unfoldable pub decode_snapshot : Customer → Option BalanceSnapshot
unfolding normalize_balance is_currency
decode_snapshot r =
    let b = normalize_balance r.balance in
    snapshot_of b.amount_micros (or_nothing b.reserved_micros) b.currency
