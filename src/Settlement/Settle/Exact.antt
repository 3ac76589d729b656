-- ===== src/Settlement/Settle/Exact.antt =====
-- What a settlement that succeeds has written.
use tokenpanel.Prelude.{
  ℕ, ◌≡◌, refl, ap, ◌∙◌, Bool, true, false, Option, none, some, [], ◌∷◌, ◌++◌, ◌⊎◌, inl, inr, Text,
}
use tokenpanel.Settlement.Settle.Record.{
  UsageRecord, accepts, SettleError, guard, duplicate_key, system, SettleResult, done, failed,
  Stores, State, find_by_gateway_request_id, insert,
}
use tokenpanel.Settlement.Settle.Usage.{
  SettleUsageParams, Fresh, usage_record, count_usage, bill, bill_for, found, if_there, inserted,
  unless_raced, settle_body,
}
use tokenpanel.Settlement.Settle.Found.{
  holder, IsRecorded, OnDone, OnDone-map, Tells, find-Tells, Appends, guarded-Appends,
}
use tokenpanel.Settlement.Settle.Facts.{
  IsRecordOf, usage_record-IsRecordOf, Posts, debits-Posts, CountsUsage, count_usage-CountsUsage,
}
use tokenpanel.Settlement.Settle.Paying.{MovesMoney, IsStores, billed, Billed}

module _ (s : Stores) (laws : IsStores s) (p : SettleUsageParams) (fresh : Fresh) where
  -- What is written for the actor: nothing without a customer.
  abbrev pub WritesFor : Option ℕ → ℕ → State s → State s → Type 0
  WritesFor none total st st' =
      (st'.customers ≡ st.customers)
      × (st'.adjustments ≡ st.adjustments)
      × (st'.counters ≡ st.counters)
  WritesFor (some customer) total st st' =
      MovesMoney s.customers p customer st.customers st'.customers
      × Posts p customer (s.adjustments.rows st.adjustments) (s.adjustments.rows st'.adjustments)
      × CountsUsage s p customer total st.counters st'.counters

  -- A new record, and what is written for the actor.
  abbrev pub Settles : Option Text → ℕ → State s → State s → Type 0
  Settles key total st st' =
      ((r : UsageRecord) × (s.usage.rows st'.usage ≡ s.usage.rows st.usage ++ r ∷ [])
        × (accepts r ≡ true)
        × IsRecordOf p key total r)
      × WritesFor p.actor.customer_id total st st'

  -- The records know the request, or they do not.
  unfoldable pub Known : Option Text → s.usage.Db → Type 0
  Known none db = ⊥
  Known (some key) db = IsRecorded key (s.usage.rows db)

  unfoldable pub IsNew : Option Text → s.usage.Db → Type 0
  IsNew none db = Unit
  IsNew (some key) db = holder key (s.usage.rows db) ≡ none

  -- A known request changes nothing, and a new one is settled.
  abbrev pub Outcome : Option Text → ℕ → State s → State s → Type 0
  Outcome key total st st' =
      (Known key st.usage × (st' ≡ st)) ⊎ (IsNew key st.usage × Settles key total st st')

  counted_for :
      (customer : Option ℕ) (total : ℕ) (st : State s) (db : s.usage.Db)
      → OnDone
          (λ st'. (st'.usage ≡ db) × WritesFor customer total st st')
          (bill_for s customer p total fresh (record st { usage = db }))
  unfolding OnDone count_usage
  counted_for none total st db = (refl, (refl, refl, refl))
  counted_for (some customer) total st db =
      OnDone-map (Billed s laws p customer fresh total (record st { usage = db }))
        (λ st'. (st'.usage ≡ db) × WritesFor (some customer) total st st') _
        (λ st' (u, m, a, k). (
          u,
          (
            m,
            debits-Posts p customer fresh _ _ a,
            count_usage-CountsUsage s p customer total (record st { usage = db }) _ k,
          ),
        ))
        (billed s laws p customer fresh total (record st { usage = db }))

  if_there-Outcome :
      (key : Text) (total : ℕ) (st : State s) (e : SettleError) (r : SettleResult Bool)
      → Tells s.usage laws.usage key st.usage r
      → OnDone (Outcome (some key) total st) (if_there s e st r)
  unfolding OnDone Tells Known
  if_there-Outcome key total st e (done true) h = inl (h, refl)
  if_there-Outcome key total st e (done false) h = tt
  if_there-Outcome key total st e (failed e') h = tt

  inserted-Outcome :
      (key : Option Text) (total : ℕ) (st : State s) (x : SettleResult s.usage.Db)
      → IsNew key st.usage
      → OnDone
          (λ db.
            Appends s.usage laws.usage (usage_record p key total fresh) st.usage db
            × (accepts (usage_record p key total fresh) ≡ true))
          x
      → OnDone (Outcome key total st) (inserted s p key total fresh st x)
  unfolding OnDone bill
  inserted-Outcome key total st (done db) n h =
      OnDone-map (λ st'. (st'.usage ≡ db) × WritesFor p.actor.customer_id total st st')
        (Outcome key total st) (bill s p total fresh (record st { usage = db }))
        (λ st' (u, w). inr (
          n,
          (
            (
              usage_record p key total fresh,
              ap s.usage.rows u ∙ h.0,
              h.1,
              usage_record-IsRecordOf p key total fresh,
            ),
            w,
          ),
        ))
        (counted_for p.actor.customer_id total st db)
  inserted-Outcome (some key) total st (failed duplicate_key) n h =
      if_there-Outcome key total st duplicate_key (find_by_gateway_request_id s.usage key st.usage)
        (find-Tells s.usage laws.usage key st.usage)
  inserted-Outcome none total st (failed duplicate_key) n h = tt
  inserted-Outcome none total st (failed (guard m)) n h = tt
  inserted-Outcome none total st (failed system) n h = tt
  inserted-Outcome (some key) total st (failed (guard m)) n h = tt
  inserted-Outcome (some key) total st (failed system) n h = tt

  -- What the look-up before the insert tells.
  unfoldable pub Raced : Option Text → s.usage.Db → SettleResult Bool → Type 0
  Raced key db (done true) = Known key db
  Raced key db (done false) = IsNew key db
  Raced key db (failed e) = Unit

  found_told :
      (key : Text) (db : s.usage.Db) (r : SettleResult Bool)
      → Tells s.usage laws.usage key db r
      → Raced (some key) db r
  unfolding Raced Tells Known IsNew
  found_told key db (done true) h = h
  found_told key db (done false) h = h
  found_told key db (failed e) h = tt

  pub found-Raced : (key : Option Text) (db : s.usage.Db) → Raced key db (found s key db)
  unfolding Raced IsNew
  found-Raced none db = tt
  found-Raced (some key) db =
      found_told key db (find_by_gateway_request_id s.usage key db)
        (find-Tells s.usage laws.usage key db)

  unless_raced-Outcome :
      (key : Option Text) (total : ℕ) (st : State s) (r : SettleResult Bool)
      → Raced key st.usage r
      → OnDone (Outcome key total st) (unless_raced s p key total fresh st r)
  unfolding OnDone Raced insert
  unless_raced-Outcome key total st (done true) h = inl (h, refl)
  unless_raced-Outcome key total st (failed e) h = tt
  unless_raced-Outcome key total st (done false) h =
      inserted-Outcome key total st (insert s.usage (usage_record p key total fresh) st.usage) h
        (guarded-Appends s.usage laws.usage _ system (usage_record p key total fresh) st.usage)

  pub body-Outcome :
      (key : Option Text) (total : ℕ) (st : State s)
      → OnDone (Outcome key total st) (settle_body s p key total fresh st)
  unfolding settle_body
  body-Outcome key total st = unless_raced-Outcome key total st _ (found-Raced key st.usage)
