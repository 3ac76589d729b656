-- ===== src/Settlement/Reconcile/Worker.antt =====
-- `reconcileOutboxRow` and `processSettlementOutboxBatch`. What other repositories answer, the
-- clock, minted ids and the end of a commit are arguments.
use tokenpanel.Prelude.{
  ℕ, suc, Bool, true, false, not, ◌&&◌, ◌||◌, Option, none, some, List, [], ◌∷◌, ltb, length, Text,
  codes, if◌then◌else◌,
}
use tokenpanel.Mongo.{Collection}
use tokenpanel.Billing.Charges.{Usage}
use tokenpanel.Limits.{RateLimitRule}
use tokenpanel.Settlement.Outbox
use tokenpanel.Settlement.Outbox.{Row, Claim}
use tokenpanel.Settlement.Outbox.Repo.{mark_reconciled, mark_abandoned}
use tokenpanel.Settlement.Outbox.Service.{
  compact_gateway_request_id, renew_outbox_claim, release_outbox_after_failure,
  claim_due_outbox_rows, claim_from_row,
}
use tokenpanel.Settlement.Settle.Record.{
  SettleError, guard, duplicate_key, system, SettleResult, done, failed, Stores, State,
  find_by_gateway_request_id,
}
use tokenpanel.Settlement.Settle.Transaction.{Commit}
use tokenpanel.Settlement.Settle.Usage.{Fresh, settle_usage}
use tokenpanel.Settlement.Settle.Context.{Platform}
use tokenpanel.Settlement.Reconcile.Thaw.{
  Entry, ModelDoc, lookup, as_usage, provider_id_of, upstream_of, price_of, schedule_of, filled,
  is_some, resolve_entry, reconstruct_frozen_attribution, thawed_params,
}

-- What the work on a row gets from its surroundings: the model under the row's alias and whether the
-- provider is there, none if the query fails; the effective rules of the customer.
pub record Answers : Type 0 where
  pub model : Option ModelDoc
  pub provider : Bool
  pub rules : List RateLimitRule
  pub fresh : Fresh
  pub commit : Commit

pub data ReconcileResult : Type 0 where
  reconciled retry abandoned stale_claim : ReconcileResult

-- What the settlement needs, or the reason to try again later.
pub data Attribution : Type 0 where
  ready : ℕ → ModelDoc → Entry → Attribution
  not_ready : Text → Attribution

abbrev pub entry_in : Option ModelDoc → ℕ → Row → Option Entry
entry_in none provider row = none
entry_in (some m) provider row =
    resolve_entry m.entries provider (upstream_of row row.context) row.context

abbrev pub checked : ℕ → Option ModelDoc → Bool → Option Entry → Attribution
checked provider none present entry = not_ready (codes "model_not_found")
checked provider (some m) false entry = not_ready (codes "provider_not_found")
checked provider (some m) true none = not_ready (codes "entry_not_found")
checked provider (some m) true (some e) = ready provider m e

-- Frozen terms stand in for a model, a provider or an entry that is gone.
abbrev pub rebuilt : ℕ → Text → Row → Option ModelDoc → Option Entry → Attribution
rebuilt provider upstream row model entry =
    let (m, e) = reconstruct_frozen_attribution row.context provider upstream model entry in
    ready provider m e

abbrev pub has_terms : Row → Bool
has_terms row = is_some (price_of row.context) || is_some (schedule_of row.context)

abbrev pub attributed_by :
    Option ModelDoc → Bool → Row → ℕ → Option Entry → Option Text → Attribution
attributed_by model present row provider entry none = checked provider model present entry
attributed_by model present row provider entry (some upstream) =
    if (not (is_some model) || not present || not (is_some entry)) && has_terms row
    then rebuilt provider upstream row model entry
    else checked provider model present entry

abbrev pub attributed : Answers → Row → ℕ → Attribution
attributed answers row provider =
    attributed_by answers.model answers.provider row provider (entry_in answers.model provider row)
      (filled (upstream_of row row.context))

abbrev pub attribution_at : Answers → Row → Option ℕ → Attribution
attribution_at answers row none = not_ready (codes "provider_id_missing")
attribution_at answers row (some provider) = attributed answers row provider

unfoldable pub attribution : Platform → Answers → Row → Attribution
unfolding resolve_entry reconstruct_frozen_attribution
attribution platform answers row =
    attribution_at answers row (provider_id_of platform row row.context)

-- The message of a failed settlement.
abbrev message : SettleError → Text
message (guard m) = m
message duplicate_key = codes "duplicate_key"
message system = codes "system_error"

abbrev reason_of : Row → Text
reason_of row =
    if ltb 0 (length row.reason) then row.reason else codes "missing_usage_no_provider_lookup"

abbrev pub answered : Outbox.Result Bool → Bool
answered (Outbox.ok b) = b
answered (Outbox.err e) = false

abbrev pub is_found : SettleResult Bool → Bool
is_found (done b) = b
is_found (failed e) = false

abbrev pub if_ok : Bool → ReconcileResult → ReconcileResult
if_ok true r = r
if_ok false r = stale_claim

-- `{ claimed, reconciled, abandoned }`
pub record BatchResult : Type 0 where
  pub claimed_rows : ℕ
  pub reconciled_rows : ℕ
  pub abandoned_rows : ℕ

abbrev counted : {A : Type 0} → ReconcileResult → (ℕ × ℕ) × A → (ℕ × ℕ) × A
counted reconciled ((r, a), x) = ((suc r, a), x)
counted abandoned ((r, a), x) = ((r, suc a), x)
counted retry y = y
counted stale_claim y = y

module _ (platform : Platform) (s : Stores) (c : Collection Row) where
  abbrev pub Outcome : Type 0
  Outcome = ReconcileResult × (State s × c.Db)

  abbrev pub give_up : Row → Claim → ℕ → State s → c.Db → Outcome
  give_up row claim now st db =
      let (found, db') = mark_abandoned c row.id claim (reason_of row) now db in
      (if_ok (answered found) abandoned, (st, db'))

  abbrev pub close : Row → Claim → ℕ → State s → c.Db → Outcome
  close row claim now st db =
      let (found, db') = mark_reconciled c row.id claim now db in
      (if_ok found reconciled, (st, db'))

  abbrev pub try_later : Row → Claim → ℕ → Text → State s → c.Db → Outcome
  try_later row claim now why st db =
      let (found, db') = release_outbox_after_failure c row.id claim why now db in
      (if_ok (answered found) retry, (st, db'))

  abbrev pub after_settle : Row → Claim → ℕ → c.Db → SettleResult Unit × State s → Outcome
  after_settle row claim now db (done x, st) = close row claim now st db
  after_settle row claim now db (failed e, st) = try_later row claim now (message e) st db

  abbrev pub settle_row : Answers → Row → Claim → Usage → State s → c.Db → Attribution → Outcome
  settle_row answers row claim u st db (not_ready why) =
      try_later row claim answers.fresh.now why st db
  settle_row answers row claim u st db (ready provider model entry) =
      after_settle row claim answers.fresh.now db (
        settle_usage platform.sha256_hex s
          (thawed_params platform row u provider model entry answers.rules) answers.fresh
          answers.commit st.usage st)

  abbrev pub if_renewed : Answers → Row → Claim → Usage → State s → Bool × c.Db → Outcome
  if_renewed answers row claim u st (false, db) = (stale_claim, (st, db))
  if_renewed answers row claim u st (true, db) =
      settle_row answers row claim u st db (attribution platform answers row)

  abbrev pub unless_recorded : Answers → Row → Claim → Usage → State s → c.Db → Bool → Outcome
  unless_recorded answers row claim u st db true = close row claim answers.fresh.now st db
  unless_recorded answers row claim u st db false =
      if_renewed answers row claim u st (renew_outbox_claim c row.id claim answers.fresh.now db)

  -- A row always has a gateway request id: its schema asks for one.
  abbrev pub is_recorded : Row → State s → Bool
  is_recorded row st =
      if ltb 0 (length row.gateway_request_id)
      then is_found (
          find_by_gateway_request_id s.usage
            (compact_gateway_request_id platform.sha256_hex row.gateway_request_id) st.usage)
      else false

  abbrev pub with_usage : Answers → Row → Claim → State s → c.Db → Option Usage → Outcome
  with_usage answers row claim st db none = give_up row claim answers.fresh.now st db
  with_usage answers row claim st db (some u) =
      unless_recorded answers row claim u st db (is_recorded row st)

  unfoldable pub reconcile_outbox_row : Answers → Row → Claim → State s → c.Db → Outcome
  unfolding mark_abandoned mark_reconciled release_outbox_after_failure renew_outbox_claim
      find_by_gateway_request_id compact_gateway_request_id thawed_params settle_usage attribution
  reconcile_outbox_row answers row claim st db =
      with_usage answers row claim st db (as_usage (lookup (codes "usage") row.context))

  -- The rows of a batch, one after the other; a row without a claim token is left alone. Each row
  -- meets its own surroundings. What is counted are the rows reconciled and abandoned.
  unfoldable pub reconcile_rows :
      (Row → Answers) → List Row → State s → c.Db → (ℕ × ℕ) × (State s × c.Db)
  unfolding reconcile_outbox_row claim_from_row
  reconcile_rows answers [] st db = ((0, 0), (st, db))
  reconcile_rows answers (row ∷ rows) st db = elim (claim_from_row row) [
    | none ↦ reconcile_rows answers rows st db
    | some claim ↦
        let (result, (st', db')) = reconcile_outbox_row (answers row) row claim st db in
        counted result (reconcile_rows answers rows st' db')
  ]

  abbrev of_claimed :
      (Row → Answers) → State s → Outbox.Result (List Row) × c.Db → BatchResult × (State s × c.Db)
  of_claimed answers st (Outbox.err e, db) =
      (record { claimed_rows = 0; reconciled_rows = 0; abandoned_rows = 0 }, (st, db))
  of_claimed answers st (Outbox.ok rows, db) =
      let ((r, a), (st', db')) = reconcile_rows answers rows st db in
      (record { claimed_rows = length rows; reconciled_rows = r; abandoned_rows = a }, (st', db'))

  unfoldable pub process_settlement_outbox_batch :
      (ℕ → Text) → (Row → Answers) → ℕ → ℕ → State s → c.Db → BatchResult × (State s × c.Db)
  unfolding reconcile_rows claim_due_outbox_rows
  process_settlement_outbox_batch new_claim_token answers limit now st db =
      of_claimed answers st (claim_due_outbox_rows c new_claim_token limit now db)
