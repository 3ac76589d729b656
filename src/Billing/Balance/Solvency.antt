-- ===== src/Billing/Balance/Solvency.antt =====
-- Holds never exceed the money: what the calls keep of every stored balance.
use tokenpanel.Prelude.{
  ℕ, ◌≡◌, subst, sym, inl, inr, Bool, true, false, ◌&&◌, ◌||◌, List, [], ◌∷◌, arith, All,
  Bool-cases, ◌==◌,
}
use tokenpanel.Prelude.Int.{ℤ, pos, pos_part, neg, ◌+ℤ◌, ◌-ℤ◌, ◌≤ℤ◌, leb_ℤ, at_least_zero, int_laws}
use tokenpanel.Mongo.{Collection, IsCollection, update_first}
use tokenpanel.Billing.Balance.{Customer, available_gte, reserved_gte}
use tokenpanel.Billing.Balance.Repo.{moved, settle_allowed}
use tokenpanel.Billing.Balance.Calls.{
  Call, reserve, release, settle, debit, customer_of, amount_delta, reserved_delta, is_trivial,
  passes, time_of, run_call, run_call-guarded, run_calls,
}
use tokenpanel.Billing.Balance.Ledger.{money, plus, money-moved}

-- The effective reserved amount is between 0 and the effective amount.
abbrev pub Solvent : Customer → Type 0
Solvent r = (pos 0 ≤ℤ (money r).1) × ((money r).1 ≤ℤ (money r).0)

-- A settled price is at most its hold, and nothing is debited without a hold.
abbrev pub is_covered : Call → Bool
is_covered (reserve customer org need currency now) = true
is_covered (release customer org hold now) = true
is_covered (settle customer org price hold currency now) =
    leb_ℤ (at_least_zero price) (at_least_zero hold)
is_covered (debit customer org price currency now) = leb_ℤ price (pos 0)

abbrev Within : ℤ × ℤ → Type 0
Within m = (pos 0 ≤ℤ m.1) × (m.1 ≤ℤ m.0)

last_of : (a b : Bool) → (a && b) ≡ true → b ≡ true
last_of a b h = ground arith

reserve-Within :
    (m : ℤ × ℤ) (need : ℤ)
    → leb_ℤ need (pos 0) ≡ false
    → leb_ℤ need (m.0 -ℤ m.1) ≡ true
    → Within m
    → Within (m.0 +ℤ pos 0, m.1 +ℤ at_least_zero need)
reserve-Within m need t p s = grind int_laws

release-Within :
    (m : ℤ × ℤ) (hold : ℤ)
    → leb_ℤ hold m.1 ≡ true
    → Within m
    → Within (m.0 +ℤ pos 0, m.1 +ℤ neg (at_least_zero hold))
release-Within m hold p s = grind int_laws

settle-Within :
    (m : ℤ × ℤ) (price hold : ℕ)
    → leb_ℤ (pos price) (pos hold) ≡ true
    → (leb_ℤ (pos hold) (pos 0) || leb_ℤ (pos hold) m.1) ≡ true
    → Within m
    → Within (m.0 +ℤ neg (pos price), m.1 +ℤ neg (pos hold))
settle-Within m price hold h p s = grind int_laws

Solvent-moved :
    (o : Call) (r : Customer)
    → is_trivial o ≡ false
    → is_covered o ≡ true
    → passes o r ≡ true
    → Solvent r
    → Solvent (moved (amount_delta o) (reserved_delta o) (time_of o) r)
unfolding available_gte reserved_gte settle_allowed
Solvent-moved o r t h p s =
    subst Within (sym (money-moved (amount_delta o) (reserved_delta o) (time_of o) r)) (go o t h p)
  where
    go :
        (o : Call)
        → is_trivial o ≡ false
        → is_covered o ≡ true
        → passes o r ≡ true
        → Within (plus (money r) (amount_delta o, reserved_delta o))
    go (reserve customer org need currency now) t h p =
        reserve-Within (money r) need t (last_of _ _ p) s
    go (release customer org hold now) t h p = release-Within (money r) hold (last_of _ _ p) s
    go (settle customer org price hold currency now) t h p =
        settle-Within (money r) (pos_part price) (pos_part hold) h (last_of _ _ (last_of _ _ p)) s
    go (debit customer org price currency now) t h p = ground arith

first_of : (a b : Bool) → (a && b) ≡ true → b ≡ true
first_of a b h = ground arith

All-update_first :
    (P : Customer → Type 0) (p : Customer → Bool) (f : Customer → Customer) (rows : List Customer)
    → ((r : Customer) → p r ≡ true → P r → P (f r))
    → All P rows
    → All P (update_first p f rows)
All-update_first P p f [] h a = a
All-update_first P p f (x ∷ rows) h a = elim (Bool-cases (p x)) [
  | inl e ↦ rw e (h x e a.0, a.1)
  | inr e ↦ rw e (a.0, All-update_first P p f rows h a.1)
]

module _ (c : Collection Customer) {clash : Customer → Customer → Bool}
    (laws : IsCollection c clash) where
  open c use {Db, rows}

  call_step :
      (o : Call) (db : Db)
      → is_covered o ≡ true
      → All Solvent (rows db)
      → All Solvent (rows (run_call c o db).1)
  call_step o db h s = rw (run_call-guarded c o db) (elim (Bool-cases (is_trivial o)) [
    | inl e ↦ rw e s
    | inr e ↦
        let f = moved (amount_delta o) (reserved_delta o) (time_of o) in
        let p : Customer → Bool = λ r. r.id == customer_of o && passes o r in
        rw e (
          rw (laws.rows-update p f db) (
            All-update_first Solvent p f (rows db) (λ r q. Solvent-moved o r e h (last_of _ _ q))
              s))
  ])

  -- If every customer's holds are between 0 and the customer's money, no run of reserves, releases,
  -- settlements with a price of at most their hold, and debits of nothing changes that, whatever the
  -- calls name and whichever of them fail: no interleaving of requests holds more than there is.
  pub solvency :
      (calls : List Call) (db : Db)
      → All (λ o. is_covered o ≡ true) calls
      → All Solvent (rows db)
      → All Solvent (rows (run_calls c calls db).1)
  solvency [] db h s = s
  solvency (o ∷ os) db h s = solvency os (run_call c o db).1 h.1 (call_step o db h.0 s)
