-- ===== src/Billing/Balance/Paths.antt =====
-- Reading and writing a balance by its old and new keys: the money that a balance stands for moves
-- by the deltas, and the key in minor units follows it, rounded down.
use tokenpanel.Prelude.{
  ℕ, ◌+◌, ◌-◌, ◌*◌, ◌/◌, ◌%◌, ◌<◌, ◌≡◌, sym, ◌∙◌, ap, refl, inl, inr, true, false, some, arith,
  Text, Bool-cases,
}
use native.Mathlib.Nat.{div-add-mod', mod-lt}
use tokenpanel.Prelude.Int.{ℤ, pos, negsuc, ◌+ℤ◌, ◌≤ℤ◌, floor_div}
use tokenpanel.Billing.Balance.{
  Balance, balance_factor, scale, effective, effective_amount, effective_reserved, is_zero,
  add_amount, add_reserved, balance_dual_inc,
}

balance_factor_pos : (c : Text) → 0 < balance_factor c
unfolding balance_factor
balance_factor_pos c = ground arith

pub +ℤ_zero : (a d : ℤ) → is_zero d ≡ true → a +ℤ d ≡ a
unfolding ◌+ℤ◌
+ℤ_zero a d h = ground arith

-- The floor of a micros value in minor units stands for at most that value, and for all of it but
-- less than one minor unit.
pub floor_div_bounds :
    (x : ℤ) (k : ℕ)
    → 0 < k
    → (scale (floor_div x k) k ≤ℤ x) × (x ≤ℤ scale (floor_div x k) k +ℤ pos (k - 1))
unfolding scale floor_div ◌+ℤ◌
floor_div_bounds (pos n) k h =
    let e : n / k * k + n % k ≡ n = div-add-mod' n k in
    let l : n % k < k = mod-lt n h in grind arith
floor_div_bounds (negsuc n) k h =
    let e : n / k * k + n % k ≡ n = div-add-mod' n k in
    let l : n % k < k = mod-lt n h in grind arith

pub add_amount_moves :
    (d : ℤ) (b : Balance) → effective_amount (add_amount d b) ≡ effective_amount b +ℤ d
unfolding effective_amount effective add_amount
add_amount_moves d b = elim (Bool-cases (is_zero d)) [
  | inl e ↦ rw e (sym (+ℤ_zero (effective_amount b) d e))
  | inr e ↦ rw e refl
]

pub add_reserved_moves :
    (d : ℤ) (b : Balance) → effective_reserved (add_reserved d b) ≡ effective_reserved b +ℤ d
unfolding effective_reserved effective add_reserved
add_reserved_moves d b = elim (Bool-cases (is_zero d)) [
  | inl e ↦ rw e (sym (+ℤ_zero (effective_reserved b) d e))
  | inr e ↦ rw e refl
]

add_amount_keeps :
    (d : ℤ) (b : Balance)
    → (effective_reserved (add_amount d b) ≡ effective_reserved b)
      × ((add_amount d b).currency ≡ b.currency)
unfolding effective_reserved add_amount
add_amount_keeps d b = ground arith

add_reserved_keeps :
    (d : ℤ) (b : Balance)
    → (effective_amount (add_reserved d b) ≡ effective_amount b)
      × ((add_reserved d b).currency ≡ b.currency)
unfolding effective_amount add_reserved
add_reserved_keeps d b = ground arith

-- Whichever keys the balance is stored under, one update moves the money that it stands for by the
-- deltas, and keeps the currency.
pub dual_inc_moves :
    (amount_delta reserved_delta : ℤ) (b : Balance)
    → (effective_amount (balance_dual_inc amount_delta reserved_delta b)
        ≡ effective_amount b +ℤ amount_delta)
      × (effective_reserved (balance_dual_inc amount_delta reserved_delta b)
          ≡ effective_reserved b +ℤ reserved_delta)
      × ((balance_dual_inc amount_delta reserved_delta b).currency ≡ b.currency)
unfolding balance_dual_inc
dual_inc_moves da dr b =
    let b1 = add_amount da b in
    let (r1, c1) = add_amount_keeps da b in
    let (a2, c2) = add_reserved_keeps dr b1 in
    (a2 ∙ add_amount_moves da b, add_reserved_moves dr b1 ∙ ap (λ r. r +ℤ dr) r1, c2 ∙ c1)

amount_written :
    (d : ℤ) (b : Balance)
    → is_zero d ≡ false
    → (add_amount d b).amount_units
      ≡ some (floor_div (effective_amount b +ℤ d) (balance_factor b.currency))
unfolding add_amount
amount_written d b h = rw h refl

add_reserved_units : (d : ℤ) (b : Balance) → (add_reserved d b).amount_units ≡ b.amount_units
unfolding add_reserved
add_reserved_units d b = ground arith

-- After an update that moves the amount, a reader of the older key in minor units sees at most the
-- effective amount, and less than one minor unit below it.
pub dual_write_lag :
    (amount_delta reserved_delta : ℤ) (b : Balance)
    → is_zero amount_delta ≡ false
    → let after = balance_dual_inc amount_delta reserved_delta b in
      (units : ℤ) × (after.amount_units ≡ some units)
      × (scale units (balance_factor after.currency) ≤ℤ effective_amount after)
      × (effective_amount after
          ≤ℤ scale units (balance_factor after.currency) +ℤ pos (balance_factor after.currency - 1))
unfolding balance_dual_inc
dual_write_lag da dr b h =
    let (m, _, c) = dual_inc_moves da dr b in
    let (lo, hi) =
      floor_div_bounds (effective_amount b +ℤ da) (balance_factor b.currency)
        (balance_factor_pos b.currency) in
    (
      floor_div (effective_amount b +ℤ da) (balance_factor b.currency),
      add_reserved_units dr (add_amount da b) ∙ amount_written da b h,
      rw (m, c) lo,
      rw (m, c) hi,
    )
