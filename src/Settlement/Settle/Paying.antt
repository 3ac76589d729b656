-- ===== src/Settlement/Settle/Paying.antt =====
-- What the steps of a settlement write for a customer who is billed.
use tokenpanel.Prelude.{
  ℕ, ◌≡◌, refl, sym, subst, ap, ◌∙◌, Bool, true, false, ◌||◌, some, List, [], ◌∷◌, ◌++◌, arith,
  Bool-cases, inl, inr, if◌then◌else◌,
}
use tokenpanel.Prelude.Int.{ℤ, pos, neg, at_least_zero}
use mathlib.Core.List.{append-nil}
use tokenpanel.Mongo.{Collection, IsCollection}
use tokenpanel.Mongo.Laws.{Unique, row_at}
use tokenpanel.Billing.Balance.{Customer, is_zero}
use tokenpanel.Billing.Balance.Calls
use tokenpanel.Billing.Balance.Calls.{Call, run_call}
use tokenpanel.Billing.Balance.Repo.{debit_balance}
use tokenpanel.Billing.Balance.Ledger.{money, plus, plus_zero, call_moves}
use tokenpanel.Settlement.Settle.Record.{
  BalanceAdjustment, SettleResult, done, failed, Stores, State, insert_adjustment, clash,
}
use tokenpanel.Settlement.Settle.Usage.{
  SettleUsageParams, Fresh, usage_debit, move_balance, post_debit, count_usage, is_positive,
  reserved_of, or_zero_ℤ, debit, debit_by, debited, with_adjustments, ◌then_do◌,
}
use tokenpanel.Settlement.Settle.Found.{OnDone, OnDone-map, Appends, inserted-Appends}

-- The entry of the ledger, if there is a price.
abbrev pub debits : SettleUsageParams → ℕ → Fresh → List BalanceAdjustment
debits p customer fresh =
    if is_positive p.price_micros then usage_debit p customer fresh ∷ [] else []

-- The customer's money moves by the price and by the hold.
abbrev pub MovesMoney : (c : Collection Customer) → SettleUsageParams → ℕ → c.Db → c.Db → Type 0
MovesMoney c p customer db db' =
    (r : Customer)
    → Unique Customer.id (c.rows db)
    → row_at Customer.id customer (c.rows db) ≡ some r
    → (r' : Customer) × (row_at Customer.id customer (c.rows db') ≡ some r')
      × (money r' ≡ plus (money r) (neg (at_least_zero p.price_micros), neg (reserved_of p)))

-- The laws of the collections that a settlement writes to.
pub record IsStores (s : Stores) : Type 1 where
  pub adjustment_clash : BalanceAdjustment → BalanceAdjustment → Bool
  pub customer_clash : Customer → Customer → Bool
  pub usage : IsCollection s.usage clash
  pub customers : IsCollection s.customers customer_clash
  pub adjustments : IsCollection s.adjustments adjustment_clash

then-OnDone :
    (s : Stores) (P Q : State s → Type 0) (r : SettleResult (State s))
    (f : State s → SettleResult (State s))
    → OnDone P r
    → ((st : State s) → P st → OnDone Q (f st))
    → OnDone Q (◌then_do◌ s r f)
unfolding OnDone
then-OnDone s P Q (done st) f h k = k st h
then-OnDone s P Q (failed e) f h k = tt

no_hold : (n : ℤ) → is_positive (at_least_zero n) ≡ false → pos 0 ≡ neg (at_least_zero n)
unfolding neg
no_hold n e = ground arith

nothing_owed : (n : ℤ) → is_positive n ≡ false → is_zero (neg (at_least_zero n)) ≡ true
unfolding neg
nothing_owed n e = ground arith

module _ (s : Stores) (laws : IsStores s) (p : SettleUsageParams) (customer : ℕ)
    (fresh : Fresh) where
  -- A debit that succeeds moves the price and the hold.
  moves_by :
      (held : Bool) (db : s.customers.Db)
      → is_positive (reserved_of p) ≡ held
      → (debit_by held s p customer fresh db).0 ≡ true
      → MovesMoney s.customers p customer db (debit_by held s p customer fresh db).1
  unfolding run_call debit_balance
  moves_by true db e h r u at =
      call_moves s.customers laws.customers
        (Calls.settle customer p.org_id p.price_micros (reserved_of p) p.currency fresh.now) db r h
        u at
  moves_by false db e h r u at =
      let (r', at', m) =
        call_moves s.customers laws.customers
          (Calls.debit customer p.org_id p.price_micros p.currency fresh.now) db r h u at in
      (
        r',
        at',
        m
            ∙ ap (λ d. plus (money r) (neg (at_least_zero p.price_micros), d))
                (no_hold (or_zero_ℤ p.reserved_micros) e),
      )

  -- Only the customers change, by the price and the hold.
  abbrev Moved : State s → State s → Type 0
  Moved st st' =
      (st'.usage ≡ st.usage)
      × (st'.adjustments ≡ st.adjustments)
      × (st'.counters ≡ st.counters)
      × MovesMoney s.customers p customer st.customers st'.customers

  debited-Moved :
      (st : State s) (x : Bool × s.customers.Db)
      → (x.0 ≡ true → MovesMoney s.customers p customer st.customers x.1)
      → OnDone (Moved st) (debited s st x)
  unfolding OnDone
  debited-Moved st (true, db) m = (refl, refl, refl, m refl)
  debited-Moved st (false, db) m = tt

  move_balance-Moved : (st : State s) → OnDone (Moved st) (move_balance s p customer fresh st)
  unfolding move_balance OnDone
  move_balance-Moved st =
      elim (Bool-cases (is_positive p.price_micros || is_positive (reserved_of p))) [
        | inl e ↦ rw e (
            debited-Moved st (debit s p customer fresh st.customers)
              (moves_by (is_positive (reserved_of p)) st.customers refl))
        | inr e ↦ rw e (
          refl,
          refl,
          refl,
          λ r u at. (
            r,
            at,
            plus_zero (money r) (neg (at_least_zero p.price_micros), neg (reserved_of p))
                (nothing_owed p.price_micros (ground (arith, e)))
                (nothing_owed (reserved_of p) (ground (arith, e))),
          ),
        )
      ]

  -- Only the ledger changes, by the entry of the debit.
  abbrev Posted : State s → State s → Type 0
  Posted st st' =
      (st'.usage ≡ st.usage)
      × (st'.customers ≡ st.customers)
      × (st'.counters ≡ st.counters)
      × (s.adjustments.rows st'.adjustments
          ≡ s.adjustments.rows st.adjustments ++ debits p customer fresh)

  with-Posted :
      (st : State s) (x : SettleResult s.adjustments.Db)
      → is_positive p.price_micros ≡ true
      → OnDone
          (Appends s.adjustments laws.adjustments (usage_debit p customer fresh) st.adjustments)
          x
      → OnDone (Posted st) (with_adjustments s st x)
  unfolding OnDone
  with-Posted st (failed e) b h = tt
  with-Posted st (done db) b h = rw b (refl, refl, refl, h)

  post_debit-Posted : (st : State s) → OnDone (Posted st) (post_debit s p customer fresh st)
  unfolding post_debit insert_adjustment OnDone
  post_debit-Posted st = elim (Bool-cases (is_positive p.price_micros)) [
    | inl e ↦
        subst
          (λ b. OnDone (Posted st) (
            if b
            then with_adjustments s st
                (insert_adjustment s.adjustments (usage_debit p customer fresh) st.adjustments)
            else done st))
          (sym e)
          (with-Posted st _ e (
            inserted-Appends s.adjustments laws.adjustments _ _ (usage_debit p customer fresh)
              st.adjustments))
    | inr e ↦ rw e (refl, refl, refl, rw e (sym (append-nil (s.adjustments.rows st.adjustments))))
  ]

  -- What is written for a customer who is billed.
  abbrev pub Billed : ℕ → State s → State s → Type 0
  Billed total st st' =
      (st'.usage ≡ st.usage)
      × MovesMoney s.customers p customer st.customers st'.customers
      × (s.adjustments.rows st'.adjustments
          ≡ s.adjustments.rows st.adjustments ++ debits p customer fresh)
      × (st'.counters ≡ (count_usage s p customer total st).counters)

  -- The same before the counters are written.
  abbrev Paid : State s → State s → Type 0
  Paid st st' =
      (st'.usage ≡ st.usage)
      × MovesMoney s.customers p customer st.customers st'.customers
      × (s.adjustments.rows st'.adjustments
          ≡ s.adjustments.rows st.adjustments ++ debits p customer fresh)
      × (st'.counters ≡ st.counters)

  paid :
      (st : State s)
      → OnDone
          (Paid st)
          (◌then_do◌ s (move_balance s p customer fresh st) (post_debit s p customer fresh))
  paid st =
      then-OnDone s (Moved st) (Paid st) (move_balance s p customer fresh st)
        (post_debit s p customer fresh) (move_balance-Moved st)
        (λ st1 (u, a, k, m).
          OnDone-map (Posted st1) (Paid st) (post_debit s p customer fresh st1)
            (λ st2 (u', c', k', a'). (
              u' ∙ u,
              subst (λ db. MovesMoney s.customers p customer st.customers db) (sym c') m,
              a' ∙ ap (λ db. s.adjustments.rows db ++ debits p customer fresh) a,
              k' ∙ k,
            ))
            (post_debit-Posted st1))

  counted :
      (total : ℕ) (st st' : State s)
      → st'.counters ≡ st.counters
      → (count_usage s p customer total st').counters ≡ (count_usage s p customer total st).counters
  unfolding count_usage
  counted total st st' e = rw e refl

  pub billed :
      (total : ℕ) (st : State s)
      → OnDone (Billed total st) (
          ◌then_do◌ s
            (◌then_do◌ s (move_balance s p customer fresh st) (post_debit s p customer fresh))
            (λ st'. done (count_usage s p customer total st')))
  unfolding OnDone count_usage
  billed total st =
      then-OnDone s (Paid st) (Billed total st)
        (◌then_do◌ s (move_balance s p customer fresh st) (post_debit s p customer fresh))
        (λ st'. done (count_usage s p customer total st')) (paid st)
        (λ st' (u, m, a, k). (u, m, a, counted total st st' k))
