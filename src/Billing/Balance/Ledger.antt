-- ===== src/Billing/Balance/Ledger.antt =====
-- What runs of calls do to a customer's money.
use mathlib.Core.Option
use tokenpanel.Prelude.{
  ℕ, ◌≡◌, refl, sym, ap, ◌∙◌, subst, inl, inr, ◌≢◌, Bool, true, false, ◌&&◌, Option, some, List, [],
  ◌∷◌, arith, ◌==◌, ==_iff, Bool-cases, if◌then◌else◌,
}
use tokenpanel.Prelude.Int.{ℤ, pos, neg, ◌+ℤ◌, int_laws}
use tokenpanel.Mongo.{Collection, IsCollection}
use tokenpanel.Mongo.Laws.{
  Unique, row_at, keep_if, found_under, stored_under, others_under, Unique-under,
}
use tokenpanel.Billing.Balance.{
  Customer, effective_amount, effective_reserved, is_zero, balance_dual_inc,
}
use tokenpanel.Billing.Balance.Repo.{matched, moved}
use tokenpanel.Billing.Balance.Paths.{dual_inc_moves, +ℤ_zero}
use tokenpanel.Billing.Balance.Calls.{
  Call, reserve, release, settle, debit, customer_of, amount_delta, reserved_delta, is_trivial,
  passes, time_of, run_call, guarded, run_call-guarded, run_calls,
}

-- What a successful call posts to a customer's account.
abbrev pub posted : ℕ → Call → Bool → ℤ → ℤ
posted k o ok delta = if ok && (customer_of o == k) then delta else pos 0

trivial_deltas :
    (o : Call)
    → is_trivial o ≡ true
    → (is_zero (amount_delta o) ≡ true) × (is_zero (reserved_delta o) ≡ true)
unfolding neg
trivial_deltas (reserve customer org need currency now) h = ground arith
trivial_deltas (release customer org hold now) h = ground arith
trivial_deltas (settle customer org price hold currency now) h = ground arith
trivial_deltas (debit customer org price currency now) h = ground arith

-- The money of a customer: the effective amount and the effective reserved amount.
abbrev pub money : Customer → ℤ × ℤ
money r = (effective_amount r.balance, effective_reserved r.balance)

abbrev pub plus : ℤ × ℤ → ℤ × ℤ → ℤ × ℤ
plus m d = (m.0 +ℤ d.0, m.1 +ℤ d.1)

abbrev pub entry : ℕ → Call → Bool → ℤ × ℤ
entry k o ok = (posted k o ok (amount_delta o), posted k o ok (reserved_delta o))

pub plus_zero : (m d : ℤ × ℤ) → is_zero d.0 ≡ true → is_zero d.1 ≡ true → m ≡ plus m d
plus_zero m d h k =
    sym (ap (λ a. (a, m.1 +ℤ d.1)) (+ℤ_zero m.0 d.0 h) ∙ ap (λ b. (m.0, b)) (+ℤ_zero m.1 d.1 k))

abbrev pub total : ℕ → List Call → List Bool → ℤ × ℤ
total k (o ∷ os) (ok ∷ oks) = plus (entry k o ok) (total k os oks)
total k _ _ = (pos 0, pos 0)

posted_zero :
    (k : ℕ) (o : Call) (ok : Bool) (d : ℤ) → is_zero d ≡ true → is_zero (posted k o ok d) ≡ true
posted_zero k o ok d h = elim (Bool-cases (ok && (customer_of o == k))) [
  | inl e ↦ rw e h
  | inr e ↦ rw e refl
]

other_entry :
    (k : ℕ) (o : Call) (ok : Bool) (m : ℤ × ℤ)
    → (customer_of o == k) ≡ false
    → m ≡ plus m (entry k o ok)
other_entry k o true m f = rw f (plus_zero m (pos 0, pos 0) refl refl)
other_entry k o false m f = plus_zero m (pos 0, pos 0) refl refl

pub money-moved :
    (a d : ℤ) (now : ℕ) (r : Customer) → money (moved a d now r) ≡ plus (money r) (a, d)
unfolding moved
money-moved a d now r =
    let (x, y, z) = dual_inc_moves a d r.balance in
    ap (λ m. (m, effective_reserved (balance_dual_inc a d r.balance))) x
    ∙ ap (λ m. (effective_amount r.balance +ℤ a, m)) y

moved_id : (a d : ℤ) (now : ℕ) (r : Customer) → (moved a d now r).id ≡ r.id
unfolding moved
moved_id a d now r = refl

matched-map :
    {A : Type 0} (f : A → A) (q : A → Bool) (r : A)
    → matched (Option.map f (keep_if q (some r))) ≡ q r
matched-map f q r = elim (Bool-cases (q r)) [ inl e ↦ rw e refl | inr e ↦ rw e refl ]

module _ (c : Collection Customer) {clash : Customer → Customer → Bool}
    (laws : IsCollection c clash) where
  open c use {Db, rows}

  -- The update of a call, before the answer.
  abbrev update_of : Call → Db → Db × Option Customer
  update_of o db =
      c.update_one (λ r. r.id == customer_of o && passes o r)
        (moved (amount_delta o) (reserved_delta o) (time_of o)) db

  same_customer :
      (o : Call) (db : Db) (r : Customer)
      → Unique Customer.id (rows db)
      → row_at Customer.id (customer_of o) (rows db) ≡ some r
      → (r' : Customer) × (row_at Customer.id (customer_of o) (rows (update_of o db).0) ≡ some r')
        × (money r' ≡ plus (money r) (entry (customer_of o) o (matched (update_of o db).1)))
  same_customer o db r u at =
      let f = moved (amount_delta o) (reserved_delta o) (time_of o) in
      let keep : (x : Customer) → (f x).id ≡ x.id =
        moved_id (amount_delta o) (reserved_delta o) (time_of o) in
      let stored = stored_under Customer.id c laws (customer_of o) (passes o) f db keep in
      let found = found_under Customer.id c laws (customer_of o) (passes o) f db u in
      let m : matched (update_of o db).1 ≡ passes o r =
        ap matched (found ∙ ap (λ x. Option.map f (keep_if (passes o) x)) at)
        ∙ matched-map f (passes o) r in
      (
        if passes o r then f r else r,
        stored ∙ ap (Option.map (λ x. if passes o x then f x else x)) at,
        rw m (elim (Bool-cases (passes o r)) [
          | inl e ↦
              rw (e, (==_iff (customer_of o) (customer_of o)).1 refl)
                (money-moved (amount_delta o) (reserved_delta o) (time_of o) r)
          | inr e ↦ rw e (plus_zero (money r) (pos 0, pos 0) refl refl)
        ]),
      )

  guarded_step :
      (k : ℕ) (o : Call) (db : Db) (r : Customer)
      → Unique Customer.id (rows db)
      → row_at Customer.id k (rows db) ≡ some r
      → (r' : Customer) × (row_at Customer.id k (rows (guarded c o db).1) ≡ some r')
        × (money r' ≡ plus (money r) (entry k o (guarded c o db).0))
  guarded_step k o db r u at = elim (Bool-cases (is_trivial o)) [
    | inl e ↦
        let (z, w) = trivial_deltas o e in
        rw e (
          r,
          at,
          plus_zero (money r) (entry k o true) (posted_zero k o true _ z)
              (posted_zero k o true _ w),
        )
    | inr e ↦ rw e (elim (Bool-cases (customer_of o == k)) [
      | inl f ↦
          subst
            (λ k.
              row_at Customer.id k (rows db) ≡ some r
              → (r' : Customer) × (row_at Customer.id k (rows (update_of o db).0) ≡ some r')
                × (money r' ≡ plus (money r) (entry k o (matched (update_of o db).1))))
            ((==_iff (customer_of o) k).0 f) (same_customer o db r u) at
      | inr f ↦
          let ne : k ≢ customer_of o = λ g. ground arith in
          let keep = moved_id (amount_delta o) (reserved_delta o) (time_of o) in
          (
            r,
            others_under Customer.id c laws (customer_of o) (passes o)
                  (moved (amount_delta o) (reserved_delta o) (time_of o)) db k keep ne
                ∙ at,
            other_entry k o (matched (update_of o db).1) (money r) f,
          )
    ])
  ]

  pub call_step :
      (k : ℕ) (o : Call) (db : Db) (r : Customer)
      → Unique Customer.id (rows db)
      → row_at Customer.id k (rows db) ≡ some r
      → (r' : Customer) × (row_at Customer.id k (rows (run_call c o db).1) ≡ some r')
        × (money r' ≡ plus (money r) (entry k o (run_call c o db).0))
  call_step k o db r u at = rw (run_call-guarded c o db) (guarded_step k o db r u at)

  -- A call that succeeds moves its customer's money by its deltas.
  pub call_moves :
      (o : Call) (db : Db) (r : Customer)
      → (run_call c o db).0 ≡ true
      → Unique Customer.id (rows db)
      → row_at Customer.id (customer_of o) (rows db) ≡ some r
      → (r' : Customer) × (row_at Customer.id (customer_of o) (rows (run_call c o db).1) ≡ some r')
        × (money r' ≡ plus (money r) (amount_delta o, reserved_delta o))
  call_moves o db r h u at =
      let (r', at', m) = call_step (customer_of o) o db r u at in
      (
        r',
        at',
        m
            ∙ ap (λ b. plus (money r) (entry (customer_of o) o b)) h
            ∙ ap
                (λ b.
                  plus (money r)
                    (if b then amount_delta o else pos 0, if b then reserved_delta o else pos 0))
                ((==_iff (customer_of o) (customer_of o)).1 refl),
      )

  pub Unique-run_call :
      (o : Call) (db : Db)
      → Unique Customer.id (rows db)
      → Unique Customer.id (rows (run_call c o db).1)
  Unique-run_call o db u = rw (run_call-guarded c o db) (elim (Bool-cases (is_trivial o)) [
    | inl e ↦ rw e u
    | inr e ↦ rw e (
        Unique-under Customer.id c laws (customer_of o) (passes o)
          (moved (amount_delta o) (reserved_delta o) (time_of o)) db
          (moved_id (amount_delta o) (reserved_delta o) (time_of o)) u)
  ])

  plus_assoc : (m d e : ℤ × ℤ) → plus (plus m d) e ≡ plus m (plus d e)
  plus_assoc m d e =
      let x : m.0 +ℤ d.0 +ℤ e.0 ≡ m.0 +ℤ (d.0 +ℤ e.0) = grind int_laws in
      let y : m.1 +ℤ d.1 +ℤ e.1 ≡ m.1 +ℤ (d.1 +ℤ e.1) = grind int_laws in
      ap (λ a. (a, m.1 +ℤ d.1 +ℤ e.1)) x ∙ ap (λ b. (m.0 +ℤ (d.0 +ℤ e.0), b)) y

  -- After any run of the balance operations on a collection with unique ids, a customer of it is
  -- still stored, and the effective amount and the effective reserved amount are those from before
  -- plus the deltas of the calls for this customer that reported success: a call that reports failure
  -- or is for another customer leaves both as they are.
  pub ledger :
      (k : ℕ) (calls : List Call) (db : Db) (r : Customer)
      → Unique Customer.id (rows db)
      → row_at Customer.id k (rows db) ≡ some r
      → (r' : Customer) × (row_at Customer.id k (rows (run_calls c calls db).1) ≡ some r')
        × (money r' ≡ plus (money r) (total k calls (run_calls c calls db).0))
  ledger k [] db r u at = (r, at, plus_zero (money r) (pos 0, pos 0) refl refl)
  ledger k (o ∷ os) db r u at =
      let (r1, at1, m1) = call_step k o db r u at in
      let (r2, at2, m2) = ledger k os (run_call c o db).1 r1 (Unique-run_call o db u) at1 in
      (
        r2,
        at2,
        m2
            ∙ ap (λ m. plus m (total k os (run_calls c os (run_call c o db).1).0)) m1
            ∙ plus_assoc (money r) (entry k o (run_call c o db).0)
                (total k os (run_calls c os (run_call c o db).1).0),
      )
