-- ===== src/Settlement/Settle/Kept.antt =====
-- No request is lost on the way to settlement.
pub mod Keys
pub mod RolledBack
use tokenpanel.Prelude.{
  ◌≡◌, ◌≢◌, Bool, false, Option, none, some, arith, Bool-cases, inl, inr, Text, leb, lt→ltb,
}
use tokenpanel.Billing.Charges.{Usage}
use tokenpanel.Mongo.{Collection, IsCollection}
use tokenpanel.Settlement.Outbox
use tokenpanel.Settlement.Outbox.{Row, decodes_enqueued}
use tokenpanel.Settlement.Outbox.Service
use tokenpanel.Settlement.Outbox.Service.{
  compact_gateway_request_id, resolve_gateway_request_id, from_provider, provider_key, enqueued_row,
  EnqueueOutboxParams, insert_or_get,
}
use tokenpanel.Settlement.Outbox.Enqueue
use tokenpanel.Providers.ProviderUsage.{ProviderUsage}
use tokenpanel.Settlement.Settle.Record.{
  SettleError, guard, duplicate_key, system, SettleResult, done, failed, Stores, State,
}
use tokenpanel.Settlement.Settle.Transaction.{
  Commit, acknowledged, aborted, unacknowledged, ended, with_mongo_session,
}
use tokenpanel.Settlement.Settle.Usage.{
  SettleUsageParams, settle_body, guard_failure, with_total, unless_done, settle_under_key, Fresh,
}
use tokenpanel.Settlement.Settle.Context.{Platform}
use tokenpanel.Settlement.Settle.OrOutbox.{
  SettleUsageOrOutboxParams, Minted, SettleOrOutbox, settled, outboxed, key_of, outbox_params,
}
use tokenpanel.Settlement.Settle.Found.{IsRecorded}
use tokenpanel.Settlement.Settle.Paying.{IsStores}
use tokenpanel.Settlement.Settle.Kept.Keys.{compact_filled, from_provider_filled}

module _ (platform : Platform) (s : Stores) (laws : IsStores s) (c : Collection Row)
    (outbox_laws : IsCollection c Service.clash) where
  open platform use {sha256_hex}

  -- The key under which a request is settled or kept.
  abbrev pub stored_key : SettleUsageOrOutboxParams → Minted → Text
  stored_key p minted = compact_gateway_request_id sha256_hex (key_of platform p minted)

  -- Settled: the request is recorded, and the outbox is as it was. Kept: the outbox has the row of
  -- the answer under the request's key, and unless a commit went unacknowledged nothing else changed.
  abbrev pub IsKept :
      SettleUsageOrOutboxParams
      → Minted
      → Commit
      → State s
      → State s
      → c.Db
      → c.Db
      → SettleOrOutbox
      → Type 0
  IsKept p minted commit st st' outbox outbox' settled =
      IsRecorded (stored_key p minted) (s.usage.rows st'.usage) × (outbox' ≡ outbox)
  IsKept p minted commit st st' outbox outbox' (outboxed id) =
      ((x : Row) × (Enqueue.holder (stored_key p minted) (c.rows outbox') ≡ some x) × (x.id ≡ id))
      × (commit ≢ unacknowledged → st' ≡ st)

  -- The schema refuses the row that would keep the request.
  abbrev pub IsUnstorable : SettleUsageOrOutboxParams → Minted → Type 0
  IsUnstorable p minted =
      (reason : Text) × (context : Outbox.Context) × (decodes_enqueued (
          enqueued_row sha256_hex (outbox_params platform p minted reason context) minted.outbox_id
            minted.fresh.now)
        ≡ false)

  -- What an outcome leaves behind: an answer is kept, and a failure has an unstorable row and leaves
  -- the outbox as it was.
  unfoldable pub KeptBy :
      SettleUsageOrOutboxParams
      → Minted
      → Commit
      → State s
      → c.Db
      → SettleResult SettleOrOutbox × (State s × c.Db)
      → Type 0
  KeptBy p minted commit st outbox (done r, (st', outbox')) =
      IsKept p minted commit st st' outbox outbox' r
  KeptBy p minted commit st outbox (failed e, (st', outbox')) =
      IsUnstorable p minted × (outbox' ≡ outbox) × (commit ≢ unacknowledged → st' ≡ st)
