-- ===== src/Settlement/Policy.antt =====
-- apps/api/src/domains/settlement/policy.ts
use tokenpanel.Prelude.{ℕ, ◌*◌}

abbrev pub outbox_max_attempts : ℕ
outbox_max_attempts = 20

abbrev pub outbox_claim_lease_ms : ℕ
outbox_claim_lease_ms = 5 * 60 * 1000

abbrev pub gateway_request_id_max : ℕ
gateway_request_id_max = 80

abbrev pub outbox_backoff_base_seconds : ℕ
outbox_backoff_base_seconds = 5

abbrev pub outbox_backoff_cap_seconds : ℕ
outbox_backoff_cap_seconds = 3600

abbrev pub settlement_reason_max : ℕ
settlement_reason_max = 200
