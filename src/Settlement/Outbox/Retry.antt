-- ===== src/Settlement/Outbox/Retry.antt =====
-- The backoff of a failed attempt, and what a failure report stores.
use native.Mathlib.Numerals.{towards_suc}
use native.Mathlib.Nat.{pow-le-pow_right, one-le-pow}
use mathlib.Core.Option
use tokenpanel.Prelude.{
  ℕ, ◌+◌, ◌*◌, ◌^◌, min, ◌≤◌, ◌<◌, ◌≡◌, refl, ap, ◌∙◌, inl, inr, true, ◌&&◌, Option, none, some,
  List, [], ◌∷◌, arith, leb, ◌==◌, if◌then◌else◌, Text, Bool-cases, ◌++◌, codes, take, same,
  same_refl,
}
use tokenpanel.Mongo.{Collection, IsCollection, find_first}
use tokenpanel.Mongo.Laws.{row_at, keep_if, find-row_at, row_at-update_self}
use tokenpanel.Settlement.Outbox.{pending, abandoned, Value, text, put, decodes, Row, Claim, ok}
use tokenpanel.Settlement.Outbox.Repo.{
  holds_claim, closed, closed_with, released, is_some, read_then_update, mark_abandoned,
  release_after_failure,
}
use tokenpanel.Settlement.Outbox.Service.{
  clash, backoff_seconds, next_outbox_attempt_at, release_outbox_after_failure,
}
use tokenpanel.Settlement.Outbox.Steps.{by_id, IsKeyed, Update, Update-id, abandons, releases}

-- The delay grows with the attempts, starts at five seconds or more and never passes an hour.
pub backoff_bounds :
    (m n : ℕ)
    → m ≤ n
    → (backoff_seconds m ≤ backoff_seconds n) × (5 ≤ backoff_seconds m) × (backoff_seconds n ≤ 3600)
unfolding backoff_seconds
backoff_bounds m n h =
    let grows : 2 ^ m ≤ 2 ^ n = pow-le-pow_right (omega arith) h in
    let one : 1 ≤ 2 ^ m = one-le-pow m 2 (omega arith) in (omega arith, omega arith, omega arith)

-- The cap is met from the tenth attempt on, and not before: up to the ninth the delay doubles.
pub backoff_cap :
    (n : ℕ)
    → (10 ≤ n → backoff_seconds n ≡ 3600)
      × (n < 9 → backoff_seconds (n + 1) ≡ 2 * backoff_seconds n)
unfolding backoff_seconds
backoff_cap n =
    let double : 2 ^ (n + 1) ≡ 2 * 2 ^ n = simp towards_suc (omega arith) in
    (
      λ h. let big : 2 ^ 10 ≤ 2 ^ n = pow-le-pow_right (omega arith) h in omega arith,
      λ h.
          let small : 2 ^ n ≤ 2 ^ 8 = pow-le-pow_right (omega arith) {j = 8} (omega arith) in
          omega (arith, double),
    )

-- The value of a key, if the context has it.
abbrev pub value_at : Text → List (Text × Value) → Option Value
value_at k [] = none
value_at k ((j, v) ∷ m) = if same j k then some v else value_at k m

value_at-put : (k : Text) (v : Value) (m : List (Text × Value)) → value_at k (put k v m) ≡ some v
unfolding put
value_at-put k v [] = rw (same_refl k) refl
value_at-put k v ((j, w) ∷ m) = elim (Bool-cases (same j k)) [
  | inl e ↦ rw e (rw (same_refl k) refl)
  | inr e ↦ rw e (rw e (value_at-put k v m))
]

-- What a row is after a failure report, as a reader of the outbox sees it.
pub record IsReported (claim : Claim) (error : Text) (now : ℕ) (r r' : Row) : Type 0 where
  pub same_request :
      (r'.id ≡ r.id)
      × (r'.gateway_request_id ≡ r.gateway_request_id)
      × (r'.customer_id ≡ r.customer_id)
  pub unclaimed : (r'.claim_token ≡ none) × (r'.claimed_at ≡ none)
  pub counted : (r'.attempts ≡ r.attempts) × (r'.updated_at ≡ now)
  pub retried :
      claim.attempts < 20
      → (r'.status ≡ pending)
        × (r'.next_attempt_at ≡ some (now + min 3600 (5 * 2 ^ claim.attempts) * 1000))
        × (value_at (codes "lastError") r'.context ≡ some (text (take 500 error)))
  pub given_up :
      20 ≤ claim.attempts
      → (r'.status ≡ abandoned)
        × (value_at (codes "abandonReason") r'.context
            ≡ some (text (take 200 (codes "max_attempts: " ++ take 120 error))))

-- What a failure report makes of the row that it reports on.
abbrev after_failure : Claim → Text → ℕ → Row → Row
after_failure claim error now r =
    if leb 20 claim.attempts
    then closed_with abandoned now
        (put (codes "abandonReason") (text (take 200 (codes "max_attempts: " ++ take 120 error)))
          r.context)
        r
    else released now (now + backoff_seconds claim.attempts * 1000)
        (put (codes "lastError") (text (take 500 error)) r.context) r

after_failure-IsReported :
    (claim : Claim) (error : Text) (now : ℕ) (r : Row)
    → IsReported claim error now r (after_failure claim error now r)
unfolding closed closed_with released backoff_seconds
after_failure-IsReported claim error now r = elim (Bool-cases (leb 20 claim.attempts)) [
  | inl old ↦ rw old (record {
    same_request = (refl, refl, refl);
    unclaimed = (refl, refl);
    counted = (refl, refl);
    retried = λ young. absurd (ground (arith, old, young));
    given_up = λ h. (refl, value_at-put (codes "abandonReason") _ r.context);
  })
  | inr young ↦ rw young (record {
    same_request = (refl, refl, refl);
    unclaimed = (refl, refl);
    counted = (refl, refl);
    retried = λ h. (refl, refl, value_at-put (codes "lastError") _ r.context);
    given_up = λ old. absurd (ground (arith, old, young));
  })
]

module _ (c : Collection Row) (laws : IsCollection c clash) where
  open c use {Db, rows}

  -- Reading a row that is held under the claim, and updating it.
  read_then_update_lem :
      (db : Db) (id : ℕ) (claim : Claim) (change : List (Text × Value) → Row → Row)
      (key note : Text) (r : Row)
      → Update id (holds_claim claim) (change (put key (text note) r.context))
      → IsKeyed c db
      → row_at by_id id (rows db) ≡ some r
      → holds_claim claim r ≡ true
      → decodes r ≡ true
      → ((read_then_update c id claim change key note db).0 ≡ ok true)
        × (row_at by_id id (rows (read_then_update c id claim change key note db).1)
            ≡ some (change (put key (text note) r.context) r))
  unfolding read_then_update
  read_then_update_lem db id claim change key note r u keyed at held fine =
      let f = change (put key (text note) r.context) in
      let found : find_first (λ x. x.id == id && holds_claim claim x) (rows db) ≡ some r =
        find-row_at by_id id (holds_claim claim) (rows db) keyed
        ∙ ap (keep_if (holds_claim claim)) at
        ∙ rw held in
      rw
        (
          laws.find_one_lem (λ x. x.id == id && holds_claim claim x) db,
          found,
          read_then_update,
          fine,
        )
        (
          ap (λ o. ok (is_some o))
              (laws.found-update (λ x. x.id == id && holds_claim claim x) f db
                ∙ ap (Option.map f) found),
          rw (laws.rows-update (λ x. x.id == id && holds_claim claim x) f db) (
              row_at-update_self by_id id (holds_claim claim) f (rows db) (Update-id u)
              ∙ ap (Option.map (λ x. if holds_claim claim x then f x else x)) at
              ∙ rw held),
        )

  stored_after :
      (db : Db) (id : ℕ) (claim : Claim) (error : Text) (now : ℕ) (r : Row)
      → IsKeyed c db
      → row_at by_id id (rows db) ≡ some r
      → holds_claim claim r ≡ true
      → decodes r ≡ true
      → let (res, db') = release_outbox_after_failure c id claim error now db in
        (res ≡ ok true) × (row_at by_id id (rows db') ≡ some (after_failure claim error now r))
  unfolding release_outbox_after_failure mark_abandoned release_after_failure next_outbox_attempt_at
  stored_after db id claim error now r keyed at held fine =
      elim (Bool-cases (leb 20 claim.attempts)) [
        | inl old ↦ rw old (
            read_then_update_lem db id claim (closed_with abandoned now) _ _ r
              (abandons id claim now _) keyed at held fine)
        | inr young ↦ rw young (
            read_then_update_lem db id claim (released now _) _ _ r (releases id claim now _ _)
              keyed at held fine)
      ]

  -- A failure report by the worker that holds the claim, on a row that its schema accepts, succeeds,
  -- and ends the claim; the attempts stay counted. Below twenty attempts the row is pending again,
  -- due after five seconds doubled with each attempt, an hour at most, and names the error; from the
  -- twentieth on it is abandoned, and names the reason.
  pub release_outbox_after_failure_lem :
      (db : Db) (id : ℕ) (claim : Claim) (error : Text) (now : ℕ) (r : Row)
      → IsKeyed c db
      → row_at by_id id (rows db) ≡ some r
      → holds_claim claim r ≡ true
      → decodes r ≡ true
      → let (res, db') = release_outbox_after_failure c id claim error now db in
        (res ≡ ok true)
        × ((r' : Row) × (row_at by_id id (rows db') ≡ some r') × IsReported claim error now r r')
  release_outbox_after_failure_lem db id claim error now r keyed at held fine =
      let (answer, stored) = stored_after db id claim error now r keyed at held fine in
      (
        answer,
        (after_failure claim error now r, stored, after_failure-IsReported claim error now r),
      )
