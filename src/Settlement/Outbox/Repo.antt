-- ===== src/Settlement/Outbox/Repo.antt =====
-- The repository, apps/api/src/infrastructure/mongo/repositories/settlement-outbox.ts. Each
-- operation takes its clock reading and the state of the collection.
use tokenpanel.Prelude.{
  ℕ, suc, ◌+◌, ◌*◌, Bool, true, false, ◌&&◌, ◌||◌, Option, none, some, List, [], ◌∷◌, ◌++◌, ◌==◌,
  ltb, leb, length, take, Text, codes, same, if◌then◌else◌,
}
use tokenpanel.Mongo.{Collection}
use tokenpanel.Settlement.Outbox.{
  Status, pending, in_progress, reconciled, failed, abandoned, Value, text, Row, Claim, status_eq,
  put, decodes, persistence_data, Result, ok, err,
}

abbrev pub is_some {ℓ} : {A : Type ℓ} → Option A → Bool
is_some none = false
is_some (some a) = true

abbrev option_nat_eq : Option ℕ → ℕ → Bool
option_nat_eq none n = false
option_nat_eq (some m) n = m == n

abbrev option_text_eq : Option Text → Text → Bool
option_text_eq none t = false
option_text_eq (some s) t = same s t

-- `{ attempts: n }`: a missing field does not match.
unfoldable pub attempts_match : Option ℕ → ℕ → Bool
attempts_match o n = option_nat_eq o n

-- `$or: [{ nextAttemptAt: { $lte: now } }, { nextAttemptAt: { $exists: false } }]`
unfoldable pub is_due : Row → ℕ → Bool
is_due r now = elim r.next_attempt_at [ none ↦ true | some t ↦ leb t now ]

-- `status: { $in: ["pending", "in_progress"] }` and due.
unfoldable pub is_candidate : ℕ → Row → Bool
unfolding is_due status_eq
is_candidate now r = (status_eq r.status pending || status_eq r.status in_progress) && is_due r now

abbrev time_key : Option ℕ → ℕ
time_key none = 0
time_key (some t) = suc t

-- `sort({ nextAttemptAt: 1, createdAt: 1 })`, as the strict order: a missing time sorts first.
unfoldable pub sooner : Row → Row → Bool
sooner a b =
    if time_key a.next_attempt_at == time_key b.next_attempt_at
    then ltb a.created_at b.created_at
    else ltb (time_key a.next_attempt_at) (time_key b.next_attempt_at)

-- `claimFilter(id, claim)`, apart from the `_id`.
unfoldable pub holds_claim : Claim → Row → Bool
unfolding status_eq attempts_match
holds_claim claim r =
    status_eq r.status in_progress
    && attempts_match r.attempts claim.attempts
    && option_text_eq r.claim_token claim.claim_token

abbrev pub claim_filter : ℕ → Claim → Row → Bool
claim_filter id claim r = r.id == id && holds_claim claim r

-- The filter of `claimOne`, apart from the `_id`.
unfoldable pub expects : Status → ℕ → ℕ → Row → Bool
unfolding status_eq attempts_match is_due
expects status attempts now r =
    status_eq r.status status && attempts_match r.attempts attempts && is_due r now

abbrev pub attempts_or_zero : Option ℕ → ℕ
attempts_or_zero none = 0
attempts_or_zero (some n) = n

-- The `$set` of a claim.
unfoldable pub claimed : ℕ → Text → ℕ → ℕ → Row → Row
claimed attempts token now lease_until r = record r {
  status = in_progress;
  attempts = some attempts;
  claim_token = some token;
  claimed_at = some now;
  next_attempt_at = some lease_until;
  updated_at = now;
}

unfoldable pub renewed : ℕ → ℕ → Row → Row
renewed now lease_until r = record r { next_attempt_at = some lease_until; updated_at = now }

-- The end of a claim: a new status, with `claimedAt` and `claimToken` unset.
unfoldable pub closed : Status → ℕ → Row → Row
closed status now r = record r {
  status = status;
  updated_at = now;
  claimed_at = none;
  claim_token = none;
}

unfoldable pub closed_with : Status → ℕ → List (Text × Value) → Row → Row
unfolding closed
closed_with status now context r = record (closed status now r) { context = context }

unfoldable pub released : ℕ → ℕ → List (Text × Value) → Row → Row
unfolding closed_with
released now next_attempt_at context r = record (closed_with pending now context r) {
  next_attempt_at = some next_attempt_at;
}

module _ (c : Collection Row) where
  open c use {Db, find_one, find_sorted, update_one}

  pub find_by_id : ℕ → Db → Result (Option Row)
  find_by_id id db = elim (find_one (λ r. r.id == id) db) [
    | none ↦ ok none
    | some r ↦ if decodes r then ok (some r) else err persistence_data
  ]

  -- An atomic update under a filter, and whether it matched.
  unfoldable pub update_where : ℕ → (Row → Bool) → (Row → Row) → Db → Bool × Db
  update_where id q f db =
      let (db', found) = update_one (λ r. r.id == id && q r) f db in (is_some found, db')

  unfoldable pub renew_claim : ℕ → Claim → ℕ → ℕ → Db → Bool × Db
  unfolding update_where
  renew_claim id claim lease_until now =
      update_where id (holds_claim claim) (renewed now lease_until)

  unfoldable pub mark_reconciled : ℕ → Claim → ℕ → Db → Bool × Db
  unfolding update_where
  mark_reconciled id claim now = update_where id (holds_claim claim) (closed reconciled now)

  -- Read the row under the claim, then update it with a context made from what was read.
  unfoldable pub read_then_update :
      ℕ → Claim → (List (Text × Value) → Row → Row) → Text → Text → Db → Result Bool × Db
  unfolding update_where
  read_then_update id claim change key note db =
      elim (find_one (λ r. r.id == id && holds_claim claim r) db) [
        | none ↦ (ok false, db)
        | some raw ↦
            if decodes raw
            then (let (matched, db') =
                  update_where id (holds_claim claim) (change (put key (text note) raw.context))
                    db in
                (ok matched, db'))
            else (err persistence_data, db)
      ]

  unfoldable pub mark_failed : ℕ → Claim → Text → ℕ → Db → Result Bool × Db
  unfolding read_then_update
  mark_failed id claim error now =
      read_then_update id claim (closed_with failed now) (codes "lastError") (take 500 error)

  unfoldable pub mark_abandoned : ℕ → Claim → Text → ℕ → Db → Result Bool × Db
  unfolding read_then_update
  mark_abandoned id claim reason now =
      read_then_update id claim (closed_with abandoned now) (codes "abandonReason")
        (take 200 reason)

  unfoldable pub release_after_failure : ℕ → Claim → Text → ℕ → ℕ → Db → Result Bool × Db
  unfolding read_then_update
  release_after_failure id claim error next_attempt_at now =
      read_then_update id claim (released now next_attempt_at) (codes "lastError") (take 500 error)

  unfoldable pub claim_one : ℕ → Status → ℕ → (Row → Row) → ℕ → Db → Result (Option Row) × Db
  claim_one id status attempts change now db =
      let (db', found) = update_one (λ r. r.id == id && expects status attempts now r) change db in
      elim found [
        | none ↦ (ok none, db')
        | some r ↦ if decodes r then (ok (some r), db') else (err persistence_data, db')
      ]

  -- The update of `claimDue` for one candidate: it holds only if the row has not moved since.
  unfoldable pub claim_candidate : Text → ℕ → ℕ → Row → Db → Result (Option Row) × Db
  unfolding claim_one
  claim_candidate token now lease_until row =
      claim_one row.id row.status (attempts_or_zero row.attempts)
        (claimed (attempts_or_zero row.attempts + 1) token now lease_until) now

  module _ (new_claim_token : ℕ → Text) where
    -- The loop of `claimDue`; `k` counts the tokens drawn.
    unfoldable pub claim_loop : ℕ → ℕ → ℕ → ℕ → List Row → List Row → Db → Result (List Row) × Db
    claim_loop limit now lease_until k claims [] db = (ok claims, db)
    claim_loop limit now lease_until k claims (row ∷ rest) db = elim (leb limit (length claims)) [
      | true ↦ (ok claims, db)
      | false ↦
          let (found, db') = claim_candidate (new_claim_token k) now lease_until row db in
          elim found [
            | err e ↦ (err e, db')
            | ok none ↦ claim_loop limit now lease_until (k + 1) claims rest db'
            | ok (some r) ↦ claim_loop limit now lease_until (k + 1) (claims ++ r ∷ []) rest db'
          ]
    ]

    unfoldable pub claim_due : ℕ → ℕ → ℕ → Db → Result (List Row) × Db
    unfolding claim_loop
    claim_due limit lease_ms now db =
        claim_loop limit now (now + lease_ms) 0 []
          (find_sorted (is_candidate now) sooner (limit * 3) db) db
