-- ===== src/Settlement/Settle/Transaction.antt =====
-- `withMongoSession`: the body's writes are applied together or not at all. The server is not part
-- of this repository; what its commit does is an argument.
use tokenpanel.Settlement.Settle.Record.{SettleResult, done, failed, system}

-- A commit is acknowledged, or it fails and nothing is applied, or it is applied and no attempt to
-- learn that succeeds.
pub data Commit : Type 0 where
  acknowledged aborted unacknowledged : Commit

module _ {A : Type 0} where
  abbrev pub committed : Commit → A → A → SettleResult A × A
  committed acknowledged start db = (done db, db)
  committed aborted start db = (failed system, start)
  committed unacknowledged start db = (failed system, db)

  abbrev pub ended : Commit → A → SettleResult A → SettleResult A × A
  ended commit start (done db) = committed commit start db
  ended commit start (failed e) = (failed e, start)

  -- The answer, and the state after it.
  unfoldable pub with_mongo_session : Commit → (A → SettleResult A) → A → SettleResult A × A
  with_mongo_session commit body db = ended commit db (body db)
