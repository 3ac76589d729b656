-- ===== src/Settlement/Settle/Once.antt =====
-- A request is settled exactly, and once.
use tokenpanel.Prelude.{
  ℕ, ◌≡◌, refl, sym, subst, ap, ◌∙◌, Bool, true, false, Option, none, some, ◌⊎◌, inl, inr, Text,
}
use tokenpanel.Providers.ProviderUsage.{normalize_processed_total_tokens}
use tokenpanel.Providers.ProviderUsage.Reported.{settled_counts}
use tokenpanel.Settlement.Settle.Record.{
  guard, duplicate_key, system, SettleResult, done, failed, Stores, State,
}
use tokenpanel.Settlement.Settle.Transaction.{
  Commit, acknowledged, aborted, unacknowledged, ended, with_mongo_session,
}
use tokenpanel.Settlement.Settle.Usage.{
  SettleUsageParams, Fresh, usage_record, settle_body, found, guard_failure, with_total,
  unless_done, settle_under_key, gateway_key, settle_usage,
}
use tokenpanel.Settlement.Settle.Found.{OnDone, IsRecorded, found_recorded, holder-append}
use tokenpanel.Settlement.Settle.Paying.{IsStores}
use tokenpanel.Settlement.Settle.Exact.{Known, IsNew, Outcome, Raced, found-Raced, body-Outcome}

module _ (s : Stores) (laws : IsStores s) where
  -- Either the first look-up saw the record, and nothing changes, or the usage has a total, and the
  -- transaction finds the request known or settles it under that total.
  abbrev pub IsSettled :
      SettleUsageParams → Option Text → Fresh → s.usage.Db → State s → State s → Type 0
  IsSettled p key fresh seen st st' =
      (Known s laws p fresh key seen × (st' ≡ st))
      ⊎ ((total : ℕ) × (normalize_processed_total_tokens (settled_counts p.protocol p.usage)
            ≡ some total)
          × Outcome s laws p fresh key total st st')

  ended-Outcome :
      (P : State s → Type 0) (commit : Commit) (st st' : State s) (r : SettleResult (State s))
      → OnDone P r
      → guard_failure s true (ended commit st r) ≡ (done tt, st')
      → P st'
  unfolding OnDone
  ended-Outcome P acknowledged st st' (done st1) h e =
      subst P (ap (λ (x : SettleResult Unit × State s). x.1) e) h
  ended-Outcome P aborted st st' (done st1) h e = cc e
  ended-Outcome P unacknowledged st st' (done st1) h e = cc e
  ended-Outcome P commit st st' (failed x) h e = cc e

  with_total-Settled :
      (p : SettleUsageParams) (key : Option Text) (fresh : Fresh) (commit : Commit)
      (seen : s.usage.Db) (st st' : State s) (o : Option ℕ)
      → p.rethrow_guard_failure ≡ true
      → normalize_processed_total_tokens (settled_counts p.protocol p.usage) ≡ o
      → with_total s p key fresh commit st o ≡ (done tt, st')
      → IsSettled p key fresh seen st st'
  unfolding with_mongo_session
  with_total-Settled p key fresh commit seen st st' none r n e = cc e
  with_total-Settled p key fresh commit seen st st' (some total) r n e = inr (
    total,
    n,
    ended-Outcome (Outcome s laws p fresh key total st) commit st st'
        (settle_body s p key total fresh st) (body-Outcome s laws p fresh key total st)
        (subst
          (λ b.
            guard_failure s b (ended commit st (settle_body s p key total fresh st))
            ≡ (done tt, st'))
          r e),
  )

  unless_done-Settled :
      (p : SettleUsageParams) (key : Option Text) (fresh : Fresh) (commit : Commit)
      (seen : s.usage.Db) (st st' : State s) (x : SettleResult Bool)
      → p.rethrow_guard_failure ≡ true
      → Raced s laws p fresh key seen x
      → unless_done s p key fresh commit st x ≡ (done tt, st')
      → IsSettled p key fresh seen st st'
  unfolding Raced
  unless_done-Settled p key fresh commit seen st st' (done true) r h e =
      inl (h, sym (ap (λ (x : SettleResult Unit × State s). x.1) e))
  unless_done-Settled p key fresh commit seen st st' (done false) r h e =
      with_total-Settled p key fresh commit seen st st' _ r refl e
  unless_done-Settled p key fresh commit seen st st' (failed x) r h e = cc e

  -- While the records know the request, the transaction changes nothing.
  body-Known :
      (p : SettleUsageParams) (key : Text) (fresh : Fresh) (total : ℕ) (st : State s)
      → IsRecorded key (s.usage.rows st.usage)
      → settle_body s p (some key) total fresh st ≡ done st
  unfolding settle_body
  body-Known p key fresh total st h = rw (found_recorded s.usage laws.usage key st.usage h) refl

  same_state : (b : Bool) (x : SettleResult (State s) × State s) → (guard_failure s b x).1 ≡ x.1
  same_state b (done st, st') = refl
  same_state true (failed e, st) = refl
  same_state false (failed (guard m), st) = refl
  same_state false (failed duplicate_key, st) = refl
  same_state false (failed system, st) = refl

  ended_same : (commit : Commit) (st : State s) → (ended commit st (done st)).1 ≡ st
  ended_same acknowledged st = refl
  ended_same aborted st = refl
  ended_same unacknowledged st = refl

  with_total-Known :
      (p : SettleUsageParams) (key : Text) (fresh : Fresh) (commit : Commit) (st : State s)
      (o : Option ℕ)
      → IsRecorded key (s.usage.rows st.usage)
      → (with_total s p (some key) fresh commit st o).1 ≡ st
  unfolding with_mongo_session
  with_total-Known p key fresh commit st none h = refl
  with_total-Known p key fresh commit st (some total) h =
      same_state p.rethrow_guard_failure
        (ended commit st (settle_body s p (some key) total fresh st))
      ∙ ap (λ r. (ended commit st r).1) (body-Known p key fresh total st h)
      ∙ ended_same commit st

  unless_done-Known :
      (p : SettleUsageParams) (key : Text) (fresh : Fresh) (commit : Commit) (st : State s)
      (x : SettleResult Bool)
      → IsRecorded key (s.usage.rows st.usage)
      → (unless_done s p (some key) fresh commit st x).1 ≡ st
  unless_done-Known p key fresh commit st (done true) h = refl
  unless_done-Known p key fresh commit st (done false) h =
      with_total-Known p key fresh commit st _ h
  unless_done-Known p key fresh commit st (failed e) h = refl

  -- After a settlement the records know its request.
  pub settled-Known :
      (p : SettleUsageParams) (key : Text) (fresh : Fresh) (seen : s.usage.Db) (st st' : State s)
      → (IsRecorded key (s.usage.rows seen) → IsRecorded key (s.usage.rows st.usage))
      → IsSettled p (some key) fresh seen st st'
      → IsRecorded key (s.usage.rows st'.usage)
  unfolding Known IsNew usage_record
  settled-Known p key fresh seen st st' stays (inl (known, e)) =
      subst (λ (x : State s). IsRecorded key (s.usage.rows x.usage)) (sym e) (stays known)
  settled-Known p key fresh seen st st' stays (inr (total, n, inl (known, e))) =
      subst (λ (x : State s). IsRecorded key (s.usage.rows x.usage)) (sym e) known
  settled-Known p key fresh seen st st' stays (inr (total, n, inr (new, ((r, shape, a, is), w)))) =
      (r, rw shape (holder-append key (s.usage.rows st.usage) r new is.keyed), a)

  module _ (sha256_hex : Text → Text) where
    -- A settlement that succeeds, with its guard's failures passed on, is exactly this: either the first
    -- look-up saw the request recorded, and nothing changed; or the usage has a total, and the
    -- transaction found the request recorded and changed nothing, or it was new. Then one record was
    -- added, with that total, the request's key, parties, counts, price and cost. Without a customer
    -- nothing else was written. For a customer the money moved by the price and by the hold, the
    -- ledger got one entry that takes the price off if there is a price, and none if not, and the
    -- counters are those that the limits make of the total and the price: by settling what was held,
    -- or by recording the usage if nothing was. The transaction reads the state on which it commits.
    pub settle_exact :
        (p : SettleUsageParams) (fresh : Fresh) (commit : Commit) (seen : s.usage.Db)
        (st st' : State s)
        → p.rethrow_guard_failure ≡ true
        → settle_usage sha256_hex s p fresh commit seen st ≡ (done tt, st')
        → IsSettled p (gateway_key sha256_hex p.gateway_request_id) fresh seen st st'
    unfolding settle_usage settle_under_key
    settle_exact p fresh commit seen st st' r e =
        let key = gateway_key sha256_hex p.gateway_request_id in
        unless_done-Settled p key fresh commit seen st st' (found s key seen) r
          (found-Raced s laws p fresh key seen) e

    -- Once a settlement has succeeded, another under the same gateway request id changes nothing,
    -- whatever its other parameters are, whatever its first look-up saw and however its commit ends.
    -- The records that the first look-up saw are still there when the transaction runs.
    pub settle_once :
        (p p' : SettleUsageParams) (fresh fresh' : Fresh) (commit commit' : Commit)
        (seen seen' : s.usage.Db) (st st' : State s) (key : Text)
        → gateway_key sha256_hex p.gateway_request_id ≡ some key
        → gateway_key sha256_hex p'.gateway_request_id ≡ some key
        → p.rethrow_guard_failure ≡ true
        → (IsRecorded key (s.usage.rows seen) → IsRecorded key (s.usage.rows st.usage))
        → settle_usage sha256_hex s p fresh commit seen st ≡ (done tt, st')
        → (settle_usage sha256_hex s p' fresh' commit' seen' st').1 ≡ st'
    unfolding settle_usage settle_under_key
    settle_once p p' fresh fresh' commit commit' seen seen' st st' key k k' r stays e = rw k' (
        unless_done-Known p' key fresh' commit' st' (found s (some key) seen') (
          settled-Known p key fresh seen st st' stays (
            subst (λ key. IsSettled p key fresh seen st st') k
              (settle_exact p fresh commit seen st st' r e))))
