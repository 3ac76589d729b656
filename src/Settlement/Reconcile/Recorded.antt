-- ===== src/Settlement/Reconcile/Recorded.antt =====
-- A row that is reported as reconciled is settled.
use tokenpanel.Prelude.{
  ℕ, ◌≡◌, refl, subst, Bool, true, false, Option, none, some, Text, codes, ltb, length,
}
use tokenpanel.Mongo.{Collection}
use tokenpanel.Billing.Charges.{Usage}
use tokenpanel.Settlement.Outbox.{Row, Claim}
use tokenpanel.Settlement.Outbox.Service.{compact_gateway_request_id, renew_outbox_claim}
use tokenpanel.Settlement.Settle.Record.{
  SettleResult, done, failed, Stores, State, find_by_gateway_request_id,
}
use tokenpanel.Settlement.Settle.Usage.{settle_usage, gateway_key}
use tokenpanel.Settlement.Settle.Context.{Platform}
use tokenpanel.Settlement.Settle.Found.{IsRecorded, Tells, find-Tells}
use tokenpanel.Settlement.Settle.Paying.{IsStores}
use tokenpanel.Settlement.Settle.Once.{IsSettled, settled-Known, settle_exact}
use tokenpanel.Settlement.Reconcile.Thaw.{Entry, ModelDoc, as_usage, lookup, thawed_params}
use tokenpanel.Settlement.Reconcile.Worker.{
  Answers, ReconcileResult, reconciled, abandoned, retry, Attribution, ready, not_ready,
  attribution, if_ok, is_found, after_settle, settle_row, if_renewed, unless_recorded, is_recorded,
  with_usage, reconcile_outbox_row,
}

module _ (platform : Platform) (s : Stores) (laws : IsStores s) (c : Collection Row) (row : Row)
    (filled : ltb 0 (length row.gateway_request_id) ≡ true) where
  open platform use {sha256_hex}

  abbrev pub row_key : Text
  row_key = compact_gateway_request_id sha256_hex row.gateway_request_id

  -- If the outcome is reconciled, the request is recorded in its state.
  abbrev Sound : ReconcileResult × (State s × c.Db) → Type 0
  Sound x = x.0 ≡ reconciled → IsRecorded row_key (s.usage.rows x.1.0.usage)

  not_reconciled :
      (b : Bool) (r : ReconcileResult) → (r ≡ reconciled → ⊥) → if_ok b r ≡ reconciled → ⊥
  not_reconciled true r n e = n e
  not_reconciled false r n e = cc e

  row_gateway_key : gateway_key sha256_hex (some row.gateway_request_id) ≡ some row_key
  unfolding gateway_key
  row_gateway_key = rw filled refl

  module _ (answers : Answers) (claim : Claim) (u : Usage) (st : State s) where
    after_settle-Sound :
        (db : c.Db) (provider : ℕ) (model : ModelDoc) (entry : Entry)
        (x : SettleResult Unit × State s)
        → settle_usage sha256_hex s
            (thawed_params platform row u provider model entry answers.rules)
            answers.fresh
            answers.commit
            st.usage
            st
          ≡ x
        → Sound (after_settle platform s c row claim answers.fresh.now db x)
    unfolding thawed_params
    after_settle-Sound db provider model entry (failed e, st') h =
        λ e. absurd (not_reconciled _ retry (λ e. cc e) e)
    after_settle-Sound db provider model entry (done tt, st') h =
        let p = thawed_params platform row u provider model entry answers.rules in
        λ e.
          settled-Known s laws p row_key answers.fresh st.usage st st' (λ known. known)
            (subst (λ key. IsSettled s laws p key answers.fresh st.usage st st') row_gateway_key
              (settle_exact s laws sha256_hex p answers.fresh answers.commit st.usage st st' refl
                h))

    settle_row-Sound :
        (db : c.Db) (attributed : Attribution)
        → Sound (settle_row platform s c answers row claim u st db attributed)
    settle_row-Sound db (not_ready why) = λ e. absurd (not_reconciled _ retry (λ e. cc e) e)
    settle_row-Sound db (ready provider model entry) =
        after_settle-Sound db provider model entry _ refl

    if_renewed-Sound : (x : Bool × c.Db) → Sound (if_renewed platform s c answers row claim u st x)
    if_renewed-Sound (false, db) = λ e. cc e
    if_renewed-Sound (true, db) = settle_row-Sound db (attribution platform answers row)

    -- A record that is found is there.
    found-IsRecorded :
        (x : SettleResult Bool)
        → Tells s.usage laws.usage row_key st.usage x
        → is_found x ≡ true
        → IsRecorded row_key (s.usage.rows st.usage)
    unfolding Tells
    found-IsRecorded (done true) h e = h
    found-IsRecorded (done false) h e = cc e
    found-IsRecorded (failed x) h e = cc e

    unless_recorded-Sound :
        (db : c.Db) (found : Bool)
        → is_recorded platform s c row st ≡ found
        → Sound (unless_recorded platform s c answers row claim u st db found)
    unless_recorded-Sound db true h = λ e.
        found-IsRecorded (find_by_gateway_request_id s.usage row_key st.usage)
          (find-Tells s.usage laws.usage row_key st.usage) (rw filled at h)
    unless_recorded-Sound db false h =
        if_renewed-Sound (renew_outbox_claim c row.id claim answers.fresh.now db)

  with_usage-Sound :
      (answers : Answers) (claim : Claim) (st : State s) (db : c.Db) (o : Option Usage)
      → Sound (with_usage platform s c answers row claim st db o)
  with_usage-Sound answers claim st db none = λ e. absurd (not_reconciled _ abandoned (λ e. cc e) e)
  with_usage-Sound answers claim st db (some u) =
      unless_recorded-Sound answers claim u st db (is_recorded platform s c row st) refl

  -- A row with a gateway request id that the worker reports as reconciled is recorded as settled
  -- under that id, whatever the other repositories answer and however the commit ends.
  pub reconciled-IsRecorded :
      (answers : Answers) (claim : Claim) (st st' : State s) (db db' : c.Db)
      → reconcile_outbox_row platform s c answers row claim st db ≡ (reconciled, (st', db'))
      → IsRecorded row_key (s.usage.rows st'.usage)
  unfolding reconcile_outbox_row
  reconciled-IsRecorded answers claim st st' db db' e =
      subst Sound e
        (with_usage-Sound answers claim st db (as_usage (lookup (codes "usage") row.context))) refl
