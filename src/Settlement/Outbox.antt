-- ===== src/Settlement/Outbox.antt =====
-- A row of the settlement outbox (packages/db/src/schemas/effect/settlement-outbox.ts) and the
-- credentials of a claim. Object ids and times in milliseconds are numbers.
pub mod Repo
pub mod Service
pub mod Steps
pub mod Fencing
pub mod Ending
pub mod Claiming
pub mod Batch
pub mod Retry
pub mod Keys
pub mod Enqueue
mod Examples
use tokenpanel.Prelude.{
  ℕ, Bool, true, false, ◌&&◌, Option, none, some, List, [], ◌∷◌, ◌==◌, leb, length, Text, same,
  if◌then◌else◌,
}
use tokenpanel.Prelude.Int.{ℤ}
use tokenpanel.Billing.Charges.{Usage, ChargeSchedule}
use tokenpanel.Limits.{RateLimitRule}
use tokenpanel.Limits.Wire.{LimitHoldWire}

pub data Status : Type 0 where
  pending in_progress reconciled failed abandoned : Status

pub data Protocol : Type 0 where
  openai anthropic : Protocol

-- A value of the free-form context: those that the settlement freezes, or something else that the
-- outbox carries along.
pub data Value : Type 0 where
  text : Text → Value
  null : Value
  number : ℤ → Value
  usage : Usage → Value
  schedule : ChargeSchedule → Value
  rules : List RateLimitRule → Value
  limit_holds : List LimitHoldWire → Value
  opaque : ℕ → Value

abbrev pub Context : Type 0
Context = List (Text × Value)

pub record Row : Type 0 where
  pub id : ℕ
  pub organization_id : ℕ
  pub customer_id : Option ℕ
  pub gateway_request_id : Text
  pub reason : Text
  pub model_alias_id : Text
  pub provider_id : Option ℕ
  pub upstream_model_id : Option Text
  pub protocol : Option Protocol
  pub provider_request_id : Option Text
  pub context : Context
  pub status : Status
  pub attempts : Option ℕ
  pub claim_token : Option Text
  pub next_attempt_at : Option ℕ
  pub claimed_at : Option ℕ
  pub created_at : ℕ
  pub updated_at : ℕ

-- Fencing credentials that come with each claim.
pub record Claim : Type 0 where
  pub attempts : ℕ
  pub claim_token : Text

unfoldable pub status_eq : Status → Status → Bool
status_eq pending pending = true
status_eq in_progress in_progress = true
status_eq reconciled reconciled = true
status_eq failed failed = true
status_eq abandoned abandoned = true
status_eq _ _ = false

-- `{ ...context, [key]: value }`
unfoldable pub put : Text → Value → Context → Context
put k v [] = (k, v) ∷ []
put k v ((j, w) ∷ m) = if same j k then (k, v) ∷ m else (j, w) ∷ put k v m

abbrev bounded : ℕ → ℕ → Text → Bool
bounded lo hi s = leb lo (length s) && leb (length s) hi

abbrev optional_bounded : ℕ → ℕ → Option Text → Bool
optional_bounded lo hi none = true
optional_bounded lo hi (some s) = bounded lo hi s

-- Whether the schema of a row accepts it.
unfoldable pub decodes : Row → Bool
decodes r =
    bounded 1 80 r.gateway_request_id
    && bounded 1 200 r.reason
    && bounded 1 120 r.model_alias_id
    && optional_bounded 0 200 r.upstream_model_id
    && optional_bounded 0 200 r.provider_request_id
    && optional_bounded 1 64 r.claim_token

abbrev is_given : {A : Type 0} → Option A → Bool
is_given none = false
is_given (some a) = true

-- Whether the schema accepts a document that is enqueued. Such a document has the keys of the
-- optional fields even where their values are undefined, and an exact optional field refuses an
-- undefined value.
unfoldable pub decodes_enqueued : Row → Bool
unfolding decodes
decodes_enqueued r =
    decodes r
    && is_given r.provider_id
    && is_given r.upstream_model_id
    && is_given r.protocol
    && is_given r.provider_request_id

-- A boundary refuses what its schema does not accept.
pub data Failure : Type 0 where
  persistence_data : Failure

pub data Result {ℓ} (A : Type ℓ) : Type ℓ where
  ok : A → Result A
  err : Failure → Result A
