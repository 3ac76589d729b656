-- ===== src/Billing/Workflow/PreFlight.antt =====
-- A request that is refused before the provider is called costs nothing.
use tokenpanel.Prelude.{
  ℕ, ◌≡◌, ◌≢◌, refl, ap, ◌∙◌, ◌⊎◌, inl, inr, Bool, true, false, not, ◌&&◌, Option, none, some, List,
  [], ◌∷◌, ◌==◌, arith, Bool-cases, Option-cases, Text,
}
use tokenpanel.Prelude.Int.{ℤ, pos, leb_ℤ}
use tokenpanel.Mongo.{Collection, IsCollection, find_first}
use tokenpanel.Mongo.Laws.{update_first_missing}
use tokenpanel.Billing.Balance.{Customer, available_gte}
use tokenpanel.Billing.Balance.Repo.{Held, reserved, refused, moved, open_in, reserve_balance}
use tokenpanel.Billing.Charges.{Model}
use tokenpanel.Billing.Estimate.{PreFlightEstimate}
use tokenpanel.Limits.{RateLimitRule, LimitReservation}
use tokenpanel.Limits.Counters.{CounterStore}
use tokenpanel.Limits.Reserve
use tokenpanel.Limits.Reserve.{Admission, violated, Outcome, reserve_limits}
use tokenpanel.Billing.Workflow.{
  Write, answers, not_applied, answer_lost, PreFlightParams, PreFlightOutcome, ok, err, State,
  hold_balance, release_quietly, decode_snapshot, after_limits, estimate_of, limit_estimates,
  reserve_holds, pre_flight, resolve_model, is_allowed,
}

pub Write-cases : (w : Write) → (w ≡ answers) ⊎ ((w ≡ not_applied) ⊎ (w ≡ answer_lost))
Write-cases answers = inl refl
Write-cases not_applied = inr (inl refl)
Write-cases answer_lost = inr (inr refl)

module _ (c : Collection Customer) (k : CounterStore) {clash : Customer → Customer → Bool}
    (laws : IsCollection c clash) where
  open c use {Db, rows}

  -- Whether it is the answer of a hold that was refused: then the documents are as before.
  KeptIfRefused : Held × Db → Db → Type 0
  KeptIfRefused (reserved n, db') db = Unit
  KeptIfRefused (refused reason, db') db = rows db' ≡ rows db

  refused_keeps :
      (customer org : ℕ) (need : ℤ) (currency : Text) (now : ℕ) (db : Db)
      → KeptIfRefused (reserve_balance c customer org need currency now db) db
  unfolding reserve_balance KeptIfRefused
  refused_keeps customer org need currency now db =
      let p : Customer → Bool = λ r.
        r.id == customer
        && (r.organization_id == org && open_in currency r && available_gte need r.balance) in
      let f = moved (pos 0) need now in
      elim (Bool-cases (leb_ℤ need (pos 0))) [
        | inl e ↦ rw e tt
        | inr e ↦ elim (Option-cases (find_first p (rows db))) [
          | inl n ↦
              rw (e, laws.found-update p f db, n)
                (laws.rows-update p f db ∙ update_first_missing p f (rows db) n)
          | inr (r, n) ↦ rw (e, laws.found-update p f db, n) tt
        ]
      ]

  -- On an error the stored customers are as before.
  abbrev pub KeptOnError : PreFlightOutcome × State c k → Db → Type 0
  KeptOnError (ok r, s) db = Unit
  KeptOnError (err e, s) db = rows s.0 ≡ rows db

  release_customers :
      (b : Bool) (l : Option LimitReservation) (s : State c k) → (release_quietly c k b l s).0 ≡ s.0
  unfolding release_quietly
  release_customers true l s = refl
  release_customers false l s = refl

  Held-cases : (x : Held × Db) → ((n : ℤ) × (x.0 ≡ reserved n)) ⊎ ((t : Text) × (x.0 ≡ refused t))
  Held-cases (reserved n, db) = inl (n, refl)
  Held-cases (refused t, db) = inr (t, refl)

  refused_rows :
      (x : Held × Db) (db : Db) (t : Text)
      → x.0 ≡ refused t
      → KeptIfRefused x db
      → rows x.1 ≡ rows db
  unfolding KeptIfRefused
  refused_rows (reserved n, db') db t e h = ground (arith, e)
  refused_rows (refused s, db') db t e h = h

  hold_kept :
      (release_fails : Bool) (write : Write) (params : PreFlightParams) (now : ℕ) (model : Model)
      (rules : List RateLimitRule) (estimate : PreFlightEstimate) (limits : Option LimitReservation)
      (s : State c k)
      → write ≢ answer_lost
      → KeptOnError
          (hold_balance c k release_fails write params now model rules estimate limits s)
          s.0
  unfolding hold_balance
  hold_kept release_fails write params now model rules estimate limits s answered =
      let held =
        reserve_balance c params.customer_id params.org_id (pos estimate.estimated_spend_micros)
          estimate.currency now s.0 in
      elim (Bool-cases (estimate.estimated_spend_micros == 0)) [
        | inl e ↦ rw e tt
        | inr e ↦ elim (Option-cases (c.find_one (λ r. r.id == params.customer_id) s.0)) [
          | inl n ↦ rw (e, n) (ap rows (release_customers release_fails limits s))
          | inr (r, n) ↦ elim (Option-cases (decode_snapshot r)) [
            | inl d ↦ rw (e, n, d) refl
            | inr (snap, d) ↦ elim (Write-cases write) [
              | inr (inl f) ↦ rw (e, n, d, f) refl
              | inr (inr f) ↦ absurd (answered f)
              | inl f ↦ elim (Held-cases held) [
                | inl (m, h) ↦ rw (e, n, d, f, h) tt
                | inr (t, h) ↦
                    rw (e, n, d, f, h)
                      (ap rows (release_customers release_fails limits (held.1, s.1))
                        ∙ refused_rows held s.0 t h (
                            refused_keeps params.customer_id params.org_id
                              (pos estimate.estimated_spend_micros) estimate.currency now s.0))
              ]
            ]
          ]
        ]
      ]

  after_kept :
      (release_fails : Bool) (write : Write) (params : PreFlightParams) (now : ℕ) (model : Model)
      (rules : List RateLimitRule) (estimate : PreFlightEstimate) (s : State c k)
      (x : Option (Admission × k.Db))
      → write ≢ answer_lost
      → KeptOnError (after_limits c k release_fails write params now model rules estimate s x) s.0
  unfolding after_limits
  after_kept release_fails write params now model rules estimate s none answered = refl
  after_kept release_fails write params now model rules estimate s (some (violated vs, counters))
        answered =
      refl
  after_kept release_fails write params now model rules estimate s
        (some (Reserve.reserved l, counters)) answered =
      hold_kept release_fails write params now model rules estimate (some l) (s.0, counters)
        answered

  holds_kept :
      (release_fails : Bool) (write : Write) (attempt : ℕ → Outcome k) (model : Model)
      (rules : List RateLimitRule) (params : PreFlightParams) (now : ℕ) (s : State c k)
      → write ≢ answer_lost
      → KeptOnError (reserve_holds c k release_fails write attempt model rules params now s) s.0
  unfolding reserve_holds
  holds_kept release_fails write attempt model [] params now s answered =
      hold_kept release_fails write params now model [] (estimate_of model params) none s answered
  holds_kept release_fails write attempt model (r ∷ rs) params now s answered =
      after_kept release_fails write params now model (r ∷ rs) (estimate_of model params) s
        (reserve_limits k attempt params.org_id params.customer_id (r ∷ rs)
          (limit_estimates params (estimate_of model params)) now s.1)
        answered

  -- Whatever the reason for which a request is refused before the provider is called (its key, its
  -- model, a rate limit, its balance, or a failure of the database), every stored customer is as
  -- before: no money was moved or held. Excepted is an update of the balance that is applied but whose
  -- answer is lost.
  pub refusal_is_free :
      (release_fails : Bool) (write : Write) (attempt : ℕ → Outcome k)
      (found : Option (Model × Bool)) (rules : List RateLimitRule) (params : PreFlightParams)
      (now : ℕ) (s : State c k)
      → write ≢ answer_lost
      → KeptOnError (pre_flight c k release_fails write attempt found rules params now s) s.0
  unfolding pre_flight
  refusal_is_free release_fails write attempt found rules params now s answered =
      elim (Bool-cases (not (is_allowed params.api_key_model_whitelist params.alias_id))) [
        | inl e ↦ rw e refl
        | inr e ↦ elim (Option-cases (resolve_model found)) [
          | inl n ↦ rw (e, n) refl
          | inr (model, n) ↦
              rw (e, n) (holds_kept release_fails write attempt model rules params now s answered)
        ]
      ]
