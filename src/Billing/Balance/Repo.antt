-- ===== src/Billing/Balance/Repo.antt =====
-- The balance operations of the customers repository: one atomic update each.
use tokenpanel.Prelude.{
  ℕ, Bool, true, false, not, ◌&&◌, ◌||◌, Option, none, some, ◌==◌, if◌then◌else◌, Text, codes, same,
}
use tokenpanel.Prelude.Int.{ℤ, pos, neg, leb_ℤ, at_least_zero}
use tokenpanel.Mongo.{Collection}
use tokenpanel.Billing.Balance.{
  Customer, CustomerStatus, closed, balance_dual_inc, available_gte, amount_gte, reserved_gte,
}

unfoldable pub is_closed : CustomerStatus → Bool
is_closed closed = true
is_closed _ = false

-- `"balance.currency": currency, status: { $ne: "closed" }`
unfoldable pub open_in : Text → Customer → Bool
unfolding is_closed
open_in currency r = same r.balance.currency currency && not (is_closed r.status)

abbrev pub matched {ℓ} : {A : Type ℓ} → Option A → Bool
matched none = false
matched (some a) = true

-- The update document of every operation.
unfoldable pub moved : ℤ → ℤ → ℕ → Customer → Customer
moved amount_delta reserved_delta now r = record r {
  balance = balance_dual_inc amount_delta reserved_delta r.balance;
  updated_at = now;
}

pub data Held : Type 0 where
  reserved : ℤ → Held
  refused : Text → Held

-- The price and the hold in play are tested only if they are positive.
unfoldable pub settle_allowed : ℤ → ℤ → Customer → Bool
settle_allowed price hold r =
    (leb_ℤ price (pos 0) || amount_gte price r.balance)
    && (leb_ℤ hold (pos 0) || reserved_gte hold r.balance)

module _ (c : Collection Customer) where
  open c use {Db, update_one}

  -- Atomic hold: available ≥ need → $inc reservedMicros.
  unfoldable pub reserve_balance : ℕ → ℕ → ℤ → Text → ℕ → Db → Held × Db
  unfolding open_in moved
  reserve_balance customer org need currency now db =
      if leb_ℤ need (pos 0)
      then (reserved (pos 0), db)
      else (let (db', found) =
            update_one
              (λ r.
                r.id == customer
                && (r.organization_id == org && open_in currency r && available_gte need r.balance))
              (moved (pos 0) need now) db in
          (if matched found then reserved need else refused (codes "insufficient_available"), db'))

  -- Release a prior hold without debiting.
  unfoldable pub release_reserved : ℕ → ℕ → ℤ → ℕ → Db → Bool × Db
  unfolding moved
  release_reserved customer org hold now db =
      if leb_ℤ hold (pos 0)
      then (true, db)
      else (let (db', found) =
            update_one
              (λ r. r.id == customer && (r.organization_id == org && reserved_gte hold r.balance))
              (moved (pos 0) (neg hold) now) db in
          (matched found, db'))

  -- Debit the price and release the hold in one update.
  unfoldable pub settle_with_reservation : ℕ → ℕ → ℤ → ℤ → Text → ℕ → Db → Bool × Db
  unfolding open_in moved settle_allowed
  settle_with_reservation customer org price_micros reserved_micros currency now db =
      let hold = at_least_zero reserved_micros in
      let price = at_least_zero price_micros in
      if leb_ℤ price (pos 0) && leb_ℤ hold (pos 0)
      then (true, db)
      else (let (db', found) =
            update_one
              (λ r.
                r.id == customer
                && (r.organization_id == org && open_in currency r && settle_allowed price hold r))
              (moved (neg price) (neg hold) now) db in
          (matched found, db'))

  -- Bare debit when no hold exists.
  unfoldable pub debit_balance : ℕ → ℕ → ℤ → Text → ℕ → Db → Bool × Db
  unfolding open_in moved
  debit_balance customer org price currency now db =
      if leb_ℤ price (pos 0)
      then (true, db)
      else (let (db', found) =
            update_one
              (λ r.
                r.id == customer
                && (r.organization_id == org && open_in currency r && amount_gte price r.balance))
              (moved (neg price) (pos 0) now) db in
          (matched found, db'))
