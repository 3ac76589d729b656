-- ===== src/Settlement/Outbox/Service.antt =====
-- The service over the repository, apps/api/src/services/settlement-outbox.ts, and the pure
-- decisions of apps/api/src/domains/settlement/outbox.ts.
use tokenpanel.Prelude.{
  ℕ, ◌+◌, ◌*◌, ◌-◌, ◌^◌, min, Bool, ◌||◌, Option, none, some, [], List, ◌++◌, ltb, leb, ◌==◌,
  length, take, drop, Text, codes, same, if◌then◌else◌,
}
use tokenpanel.Mongo.{Collection}
use tokenpanel.Settlement.Policy.{
  outbox_max_attempts, outbox_claim_lease_ms, gateway_request_id_max, outbox_backoff_base_seconds,
  outbox_backoff_cap_seconds, settlement_reason_max,
}
use tokenpanel.Settlement.Outbox.{
  Protocol, Context, Row, pending, Claim, decodes_enqueued, persistence_data, Result, ok, err,
}
use tokenpanel.Settlement.Outbox.Repo.{
  attempts_or_zero, mark_abandoned, release_after_failure, claim_due, renew_claim,
}

-- The unique index on `gatewayRequestId`, and that on `_id`.
unfoldable pub clash : Row → Row → Bool
clash a b = same a.gateway_request_id b.gateway_request_id || a.id == b.id

unfoldable pub backoff_seconds : ℕ → ℕ
backoff_seconds attempts =
    min outbox_backoff_cap_seconds (outbox_backoff_base_seconds * 2 ^ attempts)

unfoldable pub next_outbox_attempt_at : ℕ → ℕ → ℕ
unfolding backoff_seconds
next_outbox_attempt_at attempts from = from + backoff_seconds attempts * 1000

unfoldable pub should_abandon : ℕ → Bool
should_abandon attempts = leb outbox_max_attempts attempts

unfoldable pub lease_until : ℕ → ℕ
lease_until from = from + outbox_claim_lease_ms

unfoldable pub claim_from_row : Row → Option Claim
claim_from_row row = elim row.claim_token [
  | none ↦ none
  | some token ↦
      if ltb 0 (length token)
      then some (record { attempts = attempts_or_zero row.attempts; claim_token = token })
      else none
]

pub record EnqueueOutboxParams : Type 0 where
  pub organization_id : ℕ
  pub customer_id : Option ℕ
  pub gateway_request_id : Text
  pub reason : Text
  pub model_alias_id : Text
  pub provider_id : Option ℕ
  pub upstream_model_id : Option Text
  pub protocol : Option Protocol
  pub provider_request_id : Option Text
  pub context : Option Context

abbrev context_or_empty : Option Context → Context
context_or_empty none = []
context_or_empty (some m) = m

-- The last eight characters of a text.
abbrev tail_of : Text → Text
tail_of hex = drop (length hex - 8) hex

-- The key made from the request id of the provider and the hex of the organization's id.
unfoldable pub provider_key : Text → Text → Text
provider_key request hex = codes "gw_" ++ (tail_of hex ++ (codes "_" ++ request))

module _ (c : Collection Row) where
  open c use {Db, find_one, insert_one}

  -- Insert, or give the id of the row that already holds the gateway request id.
  unfoldable pub insert_or_get : Row → Db → Result ℕ × Db
  insert_or_get doc db =
      if decodes_enqueued doc
      then (elim (insert_one doc db) [
        | some db' ↦ (ok doc.id, db')
        | none ↦ elim (find_one (λ r. same r.gateway_request_id doc.gateway_request_id) db) [
          | some existing ↦ (ok existing.id, db)
          | none ↦ (ok doc.id, db)
        ]
      ])
      else (err persistence_data, db)

-- `sha256_hex` is the digest of node:crypto, as hex.
module _ (sha256_hex : Text → Text) where
  unfoldable pub compact_gateway_request_id : Text → Text
  compact_gateway_request_id raw =
      if length raw == 0
      then raw
      else if leb (length raw) gateway_request_id_max
      then raw
      else take gateway_request_id_max (codes "gwh_" ++ sha256_hex raw)

  unfoldable pub from_provider : Option Text → Text → Text → Text
  unfolding compact_gateway_request_id
  from_provider none hex fresh = fresh
  from_provider (some request) hex fresh =
      if ltb 0 (length request)
      then compact_gateway_request_id (provider_key request hex)
      else fresh

  -- `hex` is `organizationId.toHexString()`, and `fresh` the id that would be minted.
  unfoldable pub resolve_gateway_request_id : Option Text → Option Text → Text → Text → Text
  unfolding from_provider
  resolve_gateway_request_id (some key) provider hex fresh =
      if ltb 0 (length key)
      then compact_gateway_request_id key
      else from_provider provider hex fresh
  resolve_gateway_request_id none provider hex fresh = from_provider provider hex fresh

  unfoldable pub enqueued_row : EnqueueOutboxParams → ℕ → ℕ → Row
  unfolding compact_gateway_request_id
  enqueued_row p id now = record {
    id = id;
    organization_id = p.organization_id;
    customer_id = p.customer_id;
    gateway_request_id = compact_gateway_request_id p.gateway_request_id;
    reason = take settlement_reason_max p.reason;
    model_alias_id = p.model_alias_id;
    provider_id = p.provider_id;
    upstream_model_id = p.upstream_model_id;
    protocol = p.protocol;
    provider_request_id = p.provider_request_id;
    context = context_or_empty p.context;
    status = pending;
    attempts = some 0;
    claim_token = none;
    next_attempt_at = some now;
    claimed_at = none;
    created_at = now;
    updated_at = now;
  }

  module _ (c : Collection Row) where
    unfoldable pub enqueue_settlement_outbox : EnqueueOutboxParams → ℕ → ℕ → c.Db → Result ℕ × c.Db
    unfolding enqueued_row insert_or_get
    enqueue_settlement_outbox p id now = insert_or_get c (enqueued_row p id now)

module _ (c : Collection Row) where
  open c use {Db}

  -- Abandon at the cap on attempts, else return to pending with backoff.
  unfoldable pub release_outbox_after_failure : ℕ → Claim → Text → ℕ → Db → Result Bool × Db
  unfolding next_outbox_attempt_at
  release_outbox_after_failure id claim error now =
      if leb outbox_max_attempts claim.attempts
      then mark_abandoned c id claim (codes "max_attempts: " ++ take 120 error) now
      else release_after_failure c id claim error (next_outbox_attempt_at claim.attempts now) now

  unfoldable pub renew_outbox_claim : ℕ → Claim → ℕ → Db → Bool × Db
  unfolding lease_until
  renew_outbox_claim id claim now = renew_claim c id claim (lease_until now) now

  unfoldable pub claim_due_outbox_rows : (ℕ → Text) → ℕ → ℕ → Db → Result (List Row) × Db
  claim_due_outbox_rows new_claim_token limit now =
      claim_due c new_claim_token limit outbox_claim_lease_ms now
