-- ===== src/Settlement/Settle/Kept/RolledBack.antt =====
-- A settlement that fails leaves the state as it was.
use tokenpanel.Prelude.{ℕ, ◌≡◌, ◌≢◌, refl, Bool, true, false, Option, none, some, Text}
use tokenpanel.Settlement.Settle.Record.{
  SettleError, guard, duplicate_key, system, SettleResult, done, failed, Stores, State,
}
use tokenpanel.Settlement.Settle.Transaction.{
  Commit, acknowledged, aborted, unacknowledged, ended, with_mongo_session,
}
use tokenpanel.Settlement.Settle.Usage.{
  SettleUsageParams, settle_body, guard_failure, with_total, unless_done, settle_under_key,
  settle_usage, Fresh,
}

module _ (s : Stores) where
  ended-rolled_back :
      (b : Bool) (commit : Commit) (st st' : State s) (e : SettleError) (r : SettleResult (State s))
      → commit ≢ unacknowledged
      → guard_failure s b (ended commit st r) ≡ (failed e, st')
      → st' ≡ st
  ended-rolled_back b acknowledged st st' e (done x) c h = cc h
  ended-rolled_back true aborted st st' e (done x) c h = cc h
  ended-rolled_back false aborted st st' e (done x) c h = cc h
  ended-rolled_back b unacknowledged st st' e (done x) c h = absurd (c refl)
  ended-rolled_back true commit st st' e (failed x) c h = cc h
  ended-rolled_back false commit st st' e (failed (guard m)) c h = cc h
  ended-rolled_back false commit st st' e (failed duplicate_key) c h = cc h
  ended-rolled_back false commit st st' e (failed system) c h = cc h

  with_total-rolled_back :
      (p : SettleUsageParams) (key : Option Text) (fresh : Fresh) (commit : Commit)
      (st st' : State s) (e : SettleError) (o : Option ℕ)
      → commit ≢ unacknowledged
      → with_total s p key fresh commit st o ≡ (failed e, st')
      → st' ≡ st
  unfolding with_mongo_session
  with_total-rolled_back p key fresh commit st st' e none c h = cc h
  with_total-rolled_back p key fresh commit st st' e (some total) c h =
      ended-rolled_back p.rethrow_guard_failure commit st st' e (settle_body s p key total fresh st)
        c h

  unless_done-rolled_back :
      (p : SettleUsageParams) (key : Option Text) (fresh : Fresh) (commit : Commit)
      (st st' : State s) (e : SettleError) (x : SettleResult Bool)
      → commit ≢ unacknowledged
      → unless_done s p key fresh commit st x ≡ (failed e, st')
      → st' ≡ st
  unless_done-rolled_back p key fresh commit st st' e (done true) c h = cc h
  unless_done-rolled_back p key fresh commit st st' e (failed x) c h = cc h
  unless_done-rolled_back p key fresh commit st st' e (done false) c h =
      with_total-rolled_back p key fresh commit st st' e _ c h

  -- A settlement that fails changes nothing, unless a commit was applied without an acknowledgement.
  pub settle-rolled_back :
      (sha256_hex : Text → Text) (p : SettleUsageParams) (fresh : Fresh) (commit : Commit)
      (seen : s.usage.Db) (st st' : State s) (e : SettleError)
      → commit ≢ unacknowledged
      → settle_usage sha256_hex s p fresh commit seen st ≡ (failed e, st')
      → st' ≡ st
  unfolding settle_usage settle_under_key
  settle-rolled_back sha256_hex p fresh commit seen st st' e c h =
      unless_done-rolled_back p _ fresh commit st st' e _ c h
