-- ===== src/Billing/Balance/Calls.antt =====
-- A call of a balance operation as a value, and runs of calls in the order in which the database
-- applies them.
use tokenpanel.Prelude.{
  ℕ, ◌≡◌, refl, sym, ap, inl, inr, Bool, true, false, ◌&&◌, List, [], ◌∷◌, arith, ◌==◌, Bool-cases,
  if◌then◌else◌, Text, codes,
}
use tokenpanel.Prelude.Int.{ℤ, pos, neg, leb_ℤ, at_least_zero}
use tokenpanel.Mongo.{Collection}
use tokenpanel.Billing.Balance.{Customer, available_gte, amount_gte, reserved_gte}
use tokenpanel.Billing.Balance.Repo.{
  open_in, matched, moved, Held, reserved, refused, settle_allowed, reserve_balance,
  release_reserved, settle_with_reservation, debit_balance,
}

-- A call: the customer, the organization, then the arguments, with the time last.
pub data Call : Type 0 where
  reserve : ℕ → ℕ → ℤ → Text → ℕ → Call
  release : ℕ → ℕ → ℤ → ℕ → Call
  settle : ℕ → ℕ → ℤ → ℤ → Text → ℕ → Call
  debit : ℕ → ℕ → ℤ → Text → ℕ → Call

abbrev pub customer_of : Call → ℕ
customer_of (reserve customer org need currency now) = customer
customer_of (release customer org hold now) = customer
customer_of (settle customer org price hold currency now) = customer
customer_of (debit customer org price currency now) = customer

abbrev pub amount_delta : Call → ℤ
amount_delta (reserve customer org need currency now) = pos 0
amount_delta (release customer org hold now) = pos 0
amount_delta (settle customer org price hold currency now) = neg (at_least_zero price)
amount_delta (debit customer org price currency now) = neg (at_least_zero price)

abbrev pub reserved_delta : Call → ℤ
reserved_delta (reserve customer org need currency now) = at_least_zero need
reserved_delta (release customer org hold now) = neg (at_least_zero hold)
reserved_delta (settle customer org price hold currency now) = neg (at_least_zero hold)
reserved_delta (debit customer org price currency now) = pos 0

-- The calls that answer without a look at the database.
abbrev pub is_trivial : Call → Bool
is_trivial (reserve customer org need currency now) = leb_ℤ need (pos 0)
is_trivial (release customer org hold now) = leb_ℤ hold (pos 0)
is_trivial (settle customer org price hold currency now) =
    leb_ℤ (at_least_zero price) (pos 0) && leb_ℤ (at_least_zero hold) (pos 0)
is_trivial (debit customer org price currency now) = leb_ℤ price (pos 0)

-- What else than the customer's id the update asks of the stored document.
abbrev pub passes : Call → Customer → Bool
passes (reserve customer org need currency now) r =
    r.organization_id == org && open_in currency r && available_gte need r.balance
passes (release customer org hold now) r = r.organization_id == org && reserved_gte hold r.balance
passes (settle customer org price hold currency now) r =
    r.organization_id == org
    && open_in currency r
    && settle_allowed (at_least_zero price) (at_least_zero hold) r
passes (debit customer org price currency now) r =
    r.organization_id == org && open_in currency r && amount_gte price r.balance

abbrev pub time_of : Call → ℕ
time_of (reserve customer org need currency now) = now
time_of (release customer org hold now) = now
time_of (settle customer org price hold currency now) = now
time_of (debit customer org price currency now) = now

abbrev pub is_reserved : Held → Bool
is_reserved (reserved n) = true
is_reserved (refused reason) = false

positive : (a : ℤ) → leb_ℤ a (pos 0) ≡ false → a ≡ at_least_zero a
positive a h = ground arith

module _ (c : Collection Customer) where
  open c use {Db, rows, update_one}

  -- Whether the call reported success, and the state after it.
  unfoldable pub run_call : Call → Db → Bool × Db
  run_call (reserve customer org need currency now) db =
      let (held, db') = reserve_balance c customer org need currency now db in
      (is_reserved held, db')
  run_call (release customer org hold now) db = release_reserved c customer org hold now db
  run_call (settle customer org price hold currency now) db =
      settle_with_reservation c customer org price hold currency now db
  run_call (debit customer org price currency now) db =
      debit_balance c customer org price currency now db

  -- The one guarded update that every call is.
  abbrev pub guarded : Call → Db → Bool × Db
  guarded o db =
      if is_trivial o
      then (true, db)
      else (let (db', found) =
            update_one (λ r. r.id == customer_of o && passes o r)
              (moved (amount_delta o) (reserved_delta o) (time_of o)) db in
          (matched found, db'))

  is_reserved_if :
      (b : Bool) (n : ℤ) (reason : Text)
      → is_reserved (if b then reserved n else refused reason) ≡ b
  is_reserved_if true n reason = refl
  is_reserved_if false n reason = refl

  pub run_call-guarded : (o : Call) (db : Db) → run_call o db ≡ guarded o db
  unfolding run_call reserve_balance release_reserved settle_with_reservation debit_balance
  run_call-guarded (reserve customer org need currency now) db =
      elim (Bool-cases (leb_ℤ need (pos 0))) [
        | inl e ↦ rw e refl
        | inr e ↦
            rw (e, sym (positive need e))
              (ap
                (λ b. (
                  b,
                  (update_one
                      (λ r. r.id == customer && passes (reserve customer org need currency now) r)
                      (moved (pos 0) need now) db).0,
                ))
                (is_reserved_if _ need (codes "insufficient_available")))
      ]
  run_call-guarded (release customer org hold now) db = elim (Bool-cases (leb_ℤ hold (pos 0))) [
    | inl e ↦ rw e refl
    | inr e ↦ rw (e, sym (positive hold e)) refl
  ]
  run_call-guarded (settle customer org price hold currency now) db =
      elim (Bool-cases
        (leb_ℤ (at_least_zero price) (pos 0) && leb_ℤ (at_least_zero hold) (pos 0))) [
          | inl e ↦ rw e refl
          | inr e ↦ rw e refl
        ]
  run_call-guarded (debit customer org price currency now) db =
      elim (Bool-cases (leb_ℤ price (pos 0))) [
        | inl e ↦ rw e refl
        | inr e ↦ rw (e, sym (positive price e)) refl
      ]

  -- The answers of a run of calls, and the state after it.
  abbrev pub run_calls : List Call → Db → List Bool × Db
  run_calls [] db = ([], db)
  run_calls (o ∷ os) db =
      let (ok, db1) = run_call o db in let (oks, db2) = run_calls os db1 in (ok ∷ oks, db2)
