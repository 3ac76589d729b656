-- ===== src/Settlement/Outbox/Examples.antt =====
-- The outbox at a concrete collection: runs, and the theorems at inputs that meet their hypotheses.
use tokenpanel.Prelude.{
  ◌*◌, ◌≤◌, ◌<◌, ◌≡◌, refl, true, none, some, List, [], ◌∷◌, arith, Text, ◌++◌, codes, same,
  replicate, length,
}
use tokenpanel.Mongo.{Collection, IsCollection, in_memory, in_memory-IsCollection, select}
use tokenpanel.Mongo.Laws.{row_at}
use tokenpanel.Settlement.Outbox.{
  pending, reconciled, Value, decodes, decodes_enqueued, openai, Row, Claim, ok, err,
  persistence_data,
}
use tokenpanel.Settlement.Outbox.Repo.{
  holds_claim, is_candidate, sooner, expects, claimed, closed, update_where, mark_reconciled,
  claim_candidate, claim_due,
}
use tokenpanel.Settlement.Outbox.Service.{
  clash, backoff_seconds, EnqueueOutboxParams, enqueued_row, enqueue_settlement_outbox,
  compact_gateway_request_id, resolve_gateway_request_id, release_outbox_after_failure,
}
use tokenpanel.Settlement.Outbox.Steps.{
  by_id, IsKeyed, reconciles, updates, here, next, Step, Steps, Steps-Advances,
}
use tokenpanel.Settlement.Outbox.Steps.{Advances, by_id}
use tokenpanel.Settlement.Outbox.Fencing.{AllRefused}
use tokenpanel.Settlement.Outbox.Ending.{as_reconciled, ended_once}
use tokenpanel.Settlement.Outbox.Claiming.{leased, claim_blocked, superseded}
use tokenpanel.Settlement.Outbox.Retry.{
  backoff_bounds, backoff_cap, IsReported, release_outbox_after_failure_lem,
}
use tokenpanel.Settlement.Outbox.Keys.{compact_fits, KeyClash, compact_collision, resolve_stable}
use tokenpanel.Settlement.Outbox.Enqueue.{enqueue_twice}

abbrev store : Collection Row
store = in_memory clash

abbrev no_context : List (Text × Value)
no_context = []

-- A row as it was enqueued at time 10.
abbrev fresh_row : Row
fresh_row = record {
  id = 1;
  organization_id = 7;
  customer_id = some 8;
  gateway_request_id = codes "gw_1";
  reason = codes "usage_missing";
  model_alias_id = codes "m";
  provider_id = some 9;
  upstream_model_id = none;
  protocol = none;
  provider_request_id = none;
  context = no_context;
  status = pending;
  attempts = some 0;
  claim_token = none;
  next_attempt_at = some 10;
  claimed_at = none;
  created_at = 10;
  updated_at = 10;
}

abbrev one_row : List Row
one_row = fresh_row ∷ []

abbrev first_claim : Claim
first_claim = record { attempts = 1; claim_token = codes "t1" }

abbrev held_row : Row
held_row = claimed 1 (codes "t1") 20 1020 fresh_row

abbrev held_rows : List Row
held_rows = held_row ∷ []

held_rows-IsKeyed : IsKeyed store held_rows
held_rows-IsKeyed = (tt, tt)

claim_runs :
    claim_candidate store (codes "t1") 20 1020 fresh_row one_row ≡ (ok (some held_row), held_rows)
unfolding claim_candidate expects claimed decodes
claim_runs = refl

-- While the lease of the first worker runs, the row is not a candidate; after it, a second worker
-- takes over, and the first is refused.
takeover : claim_candidate store (codes "t2") 2000 3000 held_row held_rows ≡ (
  ok (some (claimed 2 (codes "t2") 2000 3000 held_row)),
  claimed 2 (codes "t2") 2000 3000 held_row ∷ [],
)
unfolding claim_candidate expects claimed decodes
takeover = refl

superseded_example :
    AllRefused store
      (in_memory-IsCollection clash)
      (claimed 2 (codes "t2") 2000 3000 held_row ∷ [])
      1
      first_claim
unfolding is_candidate claimed
superseded_example =
    superseded store (in_memory-IsCollection clash) held_rows _ _ held_row _ (codes "t2") 2000 3000
      first_claim held_rows-IsKeyed refl takeover (omega arith) here

abbrev laws : IsCollection store clash
laws = in_memory-IsCollection clash

reconciles_run :
    mark_reconciled store 1 first_claim 500 held_rows ≡ (true, closed reconciled 500 held_row ∷ [])
unfolding mark_reconciled holds_claim claimed same
reconciles_run = refl

ended_once_example : AllRefused store laws (closed reconciled 500 held_row ∷ []) 1 first_claim
ended_once_example =
    ended_once store laws held_rows _ _ 1 first_claim 500 held_rows-IsKeyed
      (as_reconciled reconciles_run) here

reconciling : Step store held_rows (closed reconciled 500 held_row ∷ [])
unfolding claimed holds_claim closed same update_where
reconciling = updates (reconciles 1 first_claim 500) refl

Steps-Advances_example :
    (r : Row) × (row_at by_id 1 (closed reconciled 500 held_row ∷ []) ≡ some r)
    × Advances held_row r
unfolding claimed mark_reconciled holds_claim closed same
Steps-Advances_example = Steps-Advances store laws 1 held_row (next here reconciling) refl

claim_blocked_example :
    ((claim_candidate store (codes "t2") 900 1900 held_row held_rows).0 ≡ ok none)
    × ((claim_candidate store (codes "t2") 900 1900 held_row held_rows).1 ≡ held_rows)
unfolding claimed
claim_blocked_example =
    claim_blocked store laws held_rows held_row held_row (codes "t2") 900 1900 held_rows-IsKeyed
      refl (leased 1020 refl (omega arith))

claim_due_runs :
    claim_due store (λ k. codes "t1") 5 1000 20 one_row ≡ (ok (held_row ∷ []), held_rows)
unfolding claim_due claim_candidate expects claimed decodes is_candidate sooner select
claim_due_runs = refl

release_outbox_after_failure_lem_example :
    let (res, db') =
      release_outbox_after_failure store 1 first_claim (codes "down") 500 held_rows in
    (res ≡ ok true)
    × ((r' : Row) × (row_at by_id 1 db' ≡ some r')
        × IsReported first_claim (codes "down") 500 held_row r')
unfolding claimed holds_claim decodes same
release_outbox_after_failure_lem_example =
    release_outbox_after_failure_lem store laws held_rows 1 first_claim (codes "down") 500 held_row
      held_rows-IsKeyed refl refl refl

backoff_bounds_example :
    (backoff_seconds 2 ≤ backoff_seconds 4) × (5 ≤ backoff_seconds 2) × (backoff_seconds 4 ≤ 3600)
backoff_bounds_example = backoff_bounds 2 4 (omega arith)

backoff_cap_example :
    (10 ≤ 3 → backoff_seconds 3 ≡ 3600) × (3 < 9 → backoff_seconds 4 ≡ 2 * backoff_seconds 3)
backoff_cap_example = backoff_cap 3

-- A digest of the right length, in place of SHA-256.
abbrev digest : Text → Text
digest s = replicate 64 102

digest_length : (s : Text) → length (digest s) ≡ 64
digest_length s = refl

abbrev long_id : Text
long_id = replicate 100 120

compact_fits_example :
    (length (compact_gateway_request_id digest long_id) ≤ 80)
    × (compact_gateway_request_id digest (compact_gateway_request_id digest long_id)
        ≡ compact_gateway_request_id digest long_id)
compact_fits_example = compact_fits digest digest_length long_id

-- A short id that spells the hashed key of a long one.
abbrev spelling : Text
spelling = codes "gwh_" ++ digest long_id

compact_collision_example : KeyClash digest digest_length long_id spelling
unfolding compact_gateway_request_id
compact_collision_example = compact_collision digest digest_length long_id spelling refl

resolve_stable_example :
    let resolved =
      resolve_gateway_request_id digest none
        (some (codes "req"))
        (codes "abcdefghij")
        (codes "new") in
    (resolve_gateway_request_id digest none
        (some (codes "req"))
        (codes "abcdefghij")
        (codes "other")
      ≡ resolved)
    × (compact_gateway_request_id digest resolved ≡ resolved)
resolve_stable_example =
    resolve_stable digest digest_length none (codes "req") (codes "abcdefghij") (codes "new")
      (codes "other") (omega arith)

abbrev enqueued : EnqueueOutboxParams
enqueued = record {
  organization_id = 7;
  customer_id = some 8;
  gateway_request_id = codes "gw_2";
  reason = codes "usage_missing";
  model_alias_id = codes "m";
  provider_id = some 9;
  upstream_model_id = some (codes "up");
  protocol = some openai;
  provider_request_id = some (codes "req_2");
  context = none;
}

abbrev enqueued_rows : List Row
enqueued_rows = fresh_row ∷ enqueued_row digest enqueued 2 50 ∷ []

enqueue_runs : enqueue_settlement_outbox digest store enqueued 2 50 one_row ≡ (ok 2, enqueued_rows)
unfolding enqueue_settlement_outbox decodes_enqueued decodes clash same compact_gateway_request_id
enqueue_runs = refl

-- Without the request id of the provider the schema refuses the document.
nameless_refused :
    enqueue_settlement_outbox digest store
      (record enqueued { provider_request_id = none })
      2
      50
      one_row
    ≡ (err persistence_data, one_row)
unfolding enqueue_settlement_outbox decodes_enqueued decodes
nameless_refused = refl

enqueue_twice_example :
    enqueue_settlement_outbox digest store enqueued 3 90 enqueued_rows ≡ (ok 2, enqueued_rows)
unfolding decodes_enqueued decodes enqueued_row
enqueue_twice_example =
    enqueue_twice store laws digest enqueued enqueued 2 3 50 90 2 one_row enqueued_rows refl refl
      refl enqueue_runs
