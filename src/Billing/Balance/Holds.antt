-- ===== src/Billing/Balance/Holds.antt =====
-- Admission by an atomic update: the pure decision of domains/billing/reservation.ts against the
-- filter of `reserveBalance`, and the solvency that the guarded operations keep.
use mathlib.Core.Option
use tokenpanel.Prelude.{
  ℕ, ◌≡◌, refl, sym, ap, ◌∙◌, inl, inr, Bool, true, false, ◌&&◌, Option, none, some, arith, ◌==◌,
  Bool-cases, if◌then◌else◌, Text, codes, same,
}
use tokenpanel.Prelude.Int.{ℤ, pos, ◌-ℤ◌, ◌≤ℤ◌, leb_ℤ, at_least_zero}
use tokenpanel.Mongo.{Collection, IsCollection}
use tokenpanel.Mongo.Laws.{Unique, row_at, keep_if, found_under}
use tokenpanel.Billing.Balance.{
  Balance, Customer, effective_amount, effective_reserved, available_gte, BalanceSnapshot,
  available_micros, Refusal, would_reserve_succeed,
}
use tokenpanel.Billing.Balance.Repo.{
  is_closed, open_in, matched, moved, Held, reserved, refused, reserve_balance,
}

unfoldable pub snapshot : Balance → BalanceSnapshot
snapshot b = record {
  amount_micros = effective_amount b;
  reserved_micros = effective_reserved b;
  currency = b.currency;
}

-- The answer of `reserveBalance` that the decision on a snapshot calls for.
abbrev pub answer : ℤ → Option Refusal → Held
answer need none = reserved (at_least_zero need)
answer need (some r) = refused (codes "insufficient_available")

pub at_least_zero_id : (a : ℤ) → pos 0 ≤ℤ a → at_least_zero a ≡ a
at_least_zero_id a h = ground arith

leb-at_least_zero :
    (need a : ℤ) → leb_ℤ need (pos 0) ≡ false → leb_ℤ need (at_least_zero a) ≡ leb_ℤ need a
leb-at_least_zero need a h = ground arith

positive : (a : ℤ) → leb_ℤ a (pos 0) ≡ false → at_least_zero a ≡ a
positive a h = ground arith

trivial : (a : ℤ) → leb_ℤ a (pos 0) ≡ true → at_least_zero a ≡ pos 0
trivial a h = ground arith

decides_trivial :
    (snap : BalanceSnapshot) (need : ℤ) (currency : Text)
    → leb_ℤ need (pos 0) ≡ true
    → answer need (would_reserve_succeed snap need currency) ≡ reserved (pos 0)
unfolding would_reserve_succeed
decides_trivial snap need currency e = rw e (ap reserved (trivial need e))

matched_if :
    (q : Customer → Bool) (f : Customer → Customer) (r : Customer) (a b : Held)
    → (if matched (Option.map f (keep_if q (some r))) then a else b) ≡ (if q r then a else b)
matched_if q f r a b = elim (Bool-cases (q r)) [ inl e ↦ rw e refl | inr e ↦ rw e refl ]

-- The filter of the update passes when the decision on the balance's snapshot is to go ahead.
pub reserve_filter :
    (r : Customer) (org : ℕ) (need : ℤ) (currency : Text)
    → (r.organization_id == org) ≡ true
    → is_closed r.status ≡ false
    → pos 0 ≤ℤ effective_reserved r.balance
    → leb_ℤ need (pos 0) ≡ false
    → (if r.organization_id == org && open_in currency r && available_gte need r.balance
        then reserved need
        else refused (codes "insufficient_available"))
      ≡ answer need (would_reserve_succeed (snapshot r.balance) need currency)
unfolding would_reserve_succeed available_micros open_in available_gte snapshot
reserve_filter r org need currency o s h n =
    let amount = effective_amount r.balance in
    let held = effective_reserved r.balance in
    rw (o, s, n, at_least_zero_id held h, leb-at_least_zero need (amount -ℤ held) n)
      (elim (Bool-cases (same r.balance.currency currency)) [
        | inl e ↦ rw e (elim (Bool-cases (leb_ℤ need (amount -ℤ held))) [
          | inl f ↦ rw (f, positive need n) refl
          | inr f ↦ rw f refl
        ])
        | inr e ↦ rw e refl
      ])

module _ (c : Collection Customer) {clash : Customer → Customer → Bool}
    (laws : IsCollection c clash) where
  open c use {Db, rows}

  -- For a customer of the organization that is not closed and whose reserved amount is not negative,
  -- the atomic update reserves exactly when the pure decision on the stored balance goes ahead, and
  -- answers with the amount held.
  pub reserve_decides :
      (customer org : ℕ) (need : ℤ) (currency : Text) (now : ℕ) (db : Db) (r : Customer)
      → Unique Customer.id (rows db)
      → row_at Customer.id customer (rows db) ≡ some r
      → (r.organization_id == org) ≡ true
      → is_closed r.status ≡ false
      → pos 0 ≤ℤ effective_reserved r.balance
      → (reserve_balance c customer org need currency now db).0
        ≡ answer need (would_reserve_succeed (snapshot r.balance) need currency)
  unfolding reserve_balance
  reserve_decides customer org need currency now db r u at o s h =
      elim (Bool-cases (leb_ℤ need (pos 0))) [
        | inl e ↦ rw e (sym (decides_trivial (snapshot r.balance) need currency e))
        | inr e ↦
            let q : Customer → Bool =
              λ r. r.organization_id == org && open_in currency r && available_gte need r.balance in
            let found = found_under Customer.id c laws customer q (moved (pos 0) need now) db u in
            let hit = ap (λ o. Option.map (moved (pos 0) need now) (keep_if q o)) at in
            rw e (
              ap
                (λ o. if matched o then reserved need else refused (codes "insufficient_available"))
                (found ∙ hit)
              ∙ matched_if q (moved (pos 0) need now) r (reserved need)
                  (refused (codes "insufficient_available"))
              ∙ reserve_filter r org need currency o s h e)
      ]
