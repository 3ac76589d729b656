-- ===== src/Settlement/Settle/Examples.antt =====
-- Settlements at concrete collections, and the theorems at inputs that meet their hypotheses.
use tokenpanel.Prelude.{◌≡◌, refl, none, some, List, [], ◌∷◌, codes, same, length}
use tokenpanel.Prelude.Int.{pos, neg}
use tokenpanel.Mongo.{in_memory}
use tokenpanel.Billing.Balance.{amount_gte, reserved_gte}
use tokenpanel.Billing.Balance.Repo.{moved}
use tokenpanel.Billing.Charges.{resolve_cache_accounting}
use tokenpanel.Settlement.Outbox.{Row, decodes, decodes_enqueued}
use tokenpanel.Settlement.Outbox.Service
use tokenpanel.Settlement.Outbox.Service.{
  enqueue_settlement_outbox, compact_gateway_request_id, resolve_gateway_request_id,
}
use tokenpanel.Settlement.Settle.Record.{guard, system, done, failed, State}
use tokenpanel.Settlement.Settle.Transaction.{acknowledged}
use tokenpanel.Settlement.Settle.Usage.{usage_record, settle_usage, gateway_key}
use tokenpanel.Settlement.Settle.OrOutbox.{outboxed, settle_usage_or_outbox}
use tokenpanel.Settlement.Settle.Once.{IsSettled, settle_exact, settle_once}
use tokenpanel.Settlement.Settle.Sample.{
  stores, stores-IsStores, customer, start, params, fresh, digest, request, platform, minted,
}

abbrev charged : State stores
charged = (settle_usage digest stores (params (pos 500)) fresh acknowledged [] start).1

charged_lem :
    settle_usage digest stores (params (pos 500)) fresh acknowledged [] start ≡ (done tt, charged)
unfolding settle_usage resolve_cache_accounting same amount_gte reserved_gte neg
charged_lem = refl

-- 500 left, nothing held, and one record of each kind.
charged_balance :
    (charged.usage ≡ usage_record (params (pos 500)) (some (codes "gw_1")) 120 fresh ∷ [])
    × (length charged.adjustments ≡ 1)
    × (charged.customers ≡ moved (neg (pos 500)) (neg (pos 600)) 60 customer ∷ [])
unfolding settle_usage resolve_cache_accounting same amount_gte reserved_gte neg
charged_balance = (refl, refl, refl)

-- A price above the balance fails, and changes nothing.
overdrawn :
    settle_usage digest stores (params (pos 1001)) fresh acknowledged [] start
    ≡ (failed (guard (codes "settlement_guard_failed")), start)
unfolding settle_usage resolve_cache_accounting same amount_gte
overdrawn = refl

settle_exact_example :
    IsSettled stores stores-IsStores
      (params (pos 500))
      (gateway_key digest (some (codes "gw_1")))
      fresh
      []
      start
      charged
settle_exact_example =
    settle_exact stores stores-IsStores digest (params (pos 500)) fresh acknowledged [] start
      charged refl charged_lem

gw_1 : gateway_key digest (some (codes "gw_1")) ≡ some (codes "gw_1")
unfolding gateway_key compact_gateway_request_id
gw_1 = refl

-- A second settlement, of another price.
settle_once_example :
    (settle_usage digest stores (params (pos 7)) fresh acknowledged [] charged).1 ≡ charged
settle_once_example =
    settle_once stores stores-IsStores digest (params (pos 500)) (params (pos 7)) fresh fresh
      acknowledged acknowledged [] [] start charged (codes "gw_1") gw_1 gw_1 refl (λ h. h)
      charged_lem

abbrev outbox : List Row
outbox = []

abbrev kept : List Row
kept =
    (settle_usage_or_outbox platform stores (in_memory Service.clash) request minted acknowledged []
      start outbox).1.1

kept_lem :
    settle_usage_or_outbox platform stores
      (in_memory Service.clash)
      request
      minted
      acknowledged
      []
      start
      outbox
    ≡ (done (outboxed 3), (start, kept))
unfolding settle_usage_or_outbox decodes_enqueued decodes
kept_lem = refl

-- Without an id of the provider the request is refused, and is neither recorded nor kept.
lost :
    settle_usage_or_outbox platform stores
      (in_memory Service.clash)
      (record request { provider_request_id = none })
      minted
      acknowledged
      []
      start
      outbox
    ≡ (failed system, (start, outbox))
unfolding settle_usage_or_outbox decodes_enqueued decodes
lost = refl
