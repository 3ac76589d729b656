-- ===== src/Billing/Workflow/Admitted.antt =====
-- An admitted request is within its limits.
use tokenpanel.Prelude.{
  ℕ, ◌≡◌, refl, ◌⊎◌, inl, inr, Bool, Option, none, some, List, [], ◌∷◌, ◌==◌, All, Bool-cases,
  Option-cases, Text,
}
use tokenpanel.Prelude.Int.{ℤ, pos}
use tokenpanel.Mongo.{Collection}
use tokenpanel.Billing.Balance.{Customer}
use tokenpanel.Billing.Balance.Repo.{Held, reserved, refused, reserve_balance}
use tokenpanel.Billing.Charges.{Model}
use tokenpanel.Billing.Estimate.{PreFlightEstimate}
use tokenpanel.Limits.{RateLimitRule, LimitReservation}
use tokenpanel.Limits.Counters.{CounterStore, IsCounterStore}
use tokenpanel.Limits.Reserve
use tokenpanel.Limits.Reserve.{Admission, violated, Outcome, plan_holds, reserve_limits}
use tokenpanel.Limits.HardCap.{SoftOrKept, reserve_keeps_caps}
use tokenpanel.Billing.Workflow.PreFlight.{Write-cases}
use tokenpanel.Billing.Workflow.{
  Write, PreFlightParams, PreFlightOutcome, ok, err, State, hold_balance, decode_snapshot,
  after_limits, estimate_of, limit_estimates, reserve_holds,
}

module _ (c : Collection Customer) (k : CounterStore) (laws : IsCounterStore k) where
  -- If the request is admitted, the counters are as the predicate says.
  abbrev pub OnOk : (k.Db → Type 0) → PreFlightOutcome × State c k → Type 0
  OnOk P (ok r, s) = P s.1
  OnOk P (err e, s) = Unit

  Held-cases : (x : Held × c.Db) → ((n : ℤ) × (x.0 ≡ reserved n)) ⊎ ((t : Text) × (x.0 ≡ refused t))
  Held-cases (reserved n, db) = inl (n, refl)
  Held-cases (refused t, db) = inr (t, refl)

  hold_keeps :
      (P : k.Db → Type 0) (release_fails : Bool) (write : Write) (params : PreFlightParams)
      (now : ℕ) (model : Model) (rules : List RateLimitRule) (estimate : PreFlightEstimate)
      (limits : Option LimitReservation) (s : State c k)
      → P s.1
      → OnOk P (hold_balance c k release_fails write params now model rules estimate limits s)
  unfolding hold_balance
  hold_keeps P release_fails write params now model rules estimate limits s p =
      let held =
        reserve_balance c params.customer_id params.org_id (pos estimate.estimated_spend_micros)
          estimate.currency now s.0 in
      elim (Bool-cases (estimate.estimated_spend_micros == 0)) [
        | inl e ↦ rw e p
        | inr e ↦ elim (Option-cases (c.find_one (λ r. r.id == params.customer_id) s.0)) [
          | inl n ↦ rw (e, n) tt
          | inr (r, n) ↦ elim (Option-cases (decode_snapshot r)) [
            | inl d ↦ rw (e, n, d) tt
            | inr (snap, d) ↦ elim (Write-cases write) [
              | inr (inl f) ↦ rw (e, n, d, f) tt
              | inr (inr f) ↦ rw (e, n, d, f) tt
              | inl f ↦ elim (Held-cases held) [
                | inl (m, h) ↦ rw (e, n, d, f, h) p
                | inr (t, h) ↦ rw (e, n, d, f, h) tt
              ]
            ]
          ]
        ]
      ]

  -- Every rule that the request claims something of counts money, or its cap is passed at most by what
  -- others added to its window in between the snapshot of the attempt that committed and its commit.
  abbrev pub CapsHold :
      (ℕ → Outcome k) → Model → List RateLimitRule → PreFlightParams → ℕ → k.Db → Type 0
  CapsHold attempt model rules params now counters =
      All (SoftOrKept k laws params.org_id params.customer_id now attempt counters)
        (plan_holds rules (limit_estimates params (estimate_of model params)) now)

  after_caps :
      (release_fails : Bool) (write : Write) (attempt : ℕ → Outcome k) (params : PreFlightParams)
      (now : ℕ) (model : Model) (rules : List RateLimitRule) (s : State c k)
      (x : Option (Admission × k.Db))
      → reserve_limits k attempt params.org_id params.customer_id rules
          (limit_estimates params (estimate_of model params))
          now
          s.1
        ≡ x
      → OnOk (CapsHold attempt model rules params now) (
          after_limits c k release_fails write params now model rules
            (estimate_of model params)
            s
            x)
  unfolding after_limits
  after_caps release_fails write attempt params now model rules s none e = tt
  after_caps release_fails write attempt params now model rules s (some (violated vs, counters)) e =
      tt
  after_caps release_fails write attempt params now model rules s
        (some (Reserve.reserved l, counters)) e =
      hold_keeps (CapsHold attempt model rules params now) release_fails write params now model
        rules (estimate_of model params) (some l) (s.0, counters)
        (reserve_keeps_caps k laws params.org_id params.customer_id now attempt rules
          (limit_estimates params (estimate_of model params)) s.1 counters l e)

  -- When the pre-flight for a model admits a request, then in the counters that it leaves, for every
  -- rule that the request claims something of, unless the rule's dimension is money, the window's sum in
  -- the snapshot that the committing attempt read is within the cap together with this request's
  -- claim, and the sum after the commit passes the cap at most by what was added to the window
  -- between the snapshot and the commit.
  pub admitted_within_caps :
      (release_fails : Bool) (write : Write) (attempt : ℕ → Outcome k) (model : Model)
      (rules : List RateLimitRule) (params : PreFlightParams) (now : ℕ) (s : State c k)
      → OnOk
          (CapsHold attempt model rules params now)
          (reserve_holds c k release_fails write attempt model rules params now s)
  unfolding reserve_holds plan_holds
  admitted_within_caps release_fails write attempt model [] params now s =
      hold_keeps (CapsHold attempt model [] params now) release_fails write params now model []
        (estimate_of model params) none s tt
  admitted_within_caps release_fails write attempt model (r ∷ rs) params now s =
      after_caps release_fails write attempt params now model (r ∷ rs) s
        (reserve_limits k attempt params.org_id params.customer_id (r ∷ rs)
          (limit_estimates params (estimate_of model params)) now s.1)
        refl
