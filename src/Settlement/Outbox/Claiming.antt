-- ===== src/Settlement/Outbox/Claiming.antt =====
-- Claims: what a claim of a candidate does to its row, and the batch claim of `claimDue`.
use mathlib.Core.Option
use tokenpanel.Prelude.{
  ℕ, ◌+◌, ◌≤◌, ◌<◌, ◌≡◌, refl, sym, ap, ◌∙◌, true, false, ◌&&◌, Option, none, some, arith, ◌==◌,
  if◌then◌else◌, Text, some_inj, ◌≢◌,
}
use tokenpanel.Mongo.{Collection, IsCollection}
use tokenpanel.Mongo.Laws.{row_at, keep_if, find-row_at, update_first_missing}
use tokenpanel.Settlement.Outbox.{
  Status, decodes, Row, Claim, persistence_data, Result, ok, err, status_eq,
}
use tokenpanel.Settlement.Outbox.Repo.{
  claim_one, attempts_or_zero, is_candidate, expects, claimed, update_where, claim_candidate,
}
use tokenpanel.Settlement.Outbox.Service.{clash}
use tokenpanel.Settlement.Outbox.Steps.{
  is_spent, by_id, IsKeyed, claims, updates, here, next, Step, Steps, Steps-IsKeyed,
}
use tokenpanel.Settlement.Outbox.Fencing.{AllRefused, fenced_forever}
use tokenpanel.Settlement.Outbox.Ending.{matched_row}

-- A new claim spends every claim made at the attempts that it found, or fewer.
claimed-spent :
    (row r : Row) (n : ℕ) (token : Text) (now lease : ℕ)
    → n ≤ attempts_or_zero row.attempts
    → is_spent n (claimed (attempts_or_zero row.attempts + 1) token now lease r) ≡ true
unfolding is_spent claimed
claimed-spent row r n token now lease h = ground arith

-- What a claim should answer, given the row that is stored now.
abbrev pub claim_outcome : Row → Text → ℕ → ℕ → Option Row → Result (Option Row)
claim_outcome row token now lease none = ok none
claim_outcome row token now lease (some r) =
    let next = claimed (attempts_or_zero row.attempts + 1) token now lease r in
    if expects row.status (attempts_or_zero row.attempts) now r
    then (if decodes next then ok (some next) else err persistence_data)
    else ok none

-- What the repository makes of the document that an update returns.
abbrev checked : Option Row → Result (Option Row)
checked none = ok none
checked (some r) = if decodes r then ok (some r) else err persistence_data

outcome-checked :
    (row : Row) (token : Text) (now lease : ℕ) (o : Option Row)
    → checked (
        Option.map
          (claimed (attempts_or_zero row.attempts + 1) token now lease)
          (keep_if (expects row.status (attempts_or_zero row.attempts) now) o))
      ≡ claim_outcome row token now lease o
outcome-checked row token now lease none = refl
outcome-checked row token now lease (some r) = ground arith

-- Why a claim fails: the row has moved on since the worker read it, or its lease still runs, or it
-- has no count of attempts.
pub data OutOfReach (row r : Row) (now : ℕ) : Type 0 where
  moved : status_eq r.status row.status ≡ false → OutOfReach row r now
  reclaimed : attempts_or_zero row.attempts < attempts_or_zero r.attempts → OutOfReach row r now
  leased : (t : ℕ) → r.next_attempt_at ≡ some t → now < t → OutOfReach row r now
  uncounted : r.attempts ≡ none → OutOfReach row r now

OutOfReach-expects :
    (row r : Row) (now : ℕ)
    → OutOfReach row r now
    → expects row.status (attempts_or_zero row.attempts) now r ≡ false
unfolding expects
OutOfReach-expects row r now (moved h) = ground arith
OutOfReach-expects row r now (reclaimed h) = ground arith
OutOfReach-expects row r now (leased t e h) = ground arith
OutOfReach-expects row r now (uncounted e) = ground arith

module _ (c : Collection Row) (laws : IsCollection c clash) where
  open c use {Db, rows}

  module _ (id : ℕ) (st : Status) (n now : ℕ) (f : Row → Row) (db : Db) where
    claimed-result :
        (claim_one c id st n f now db).0
        ≡ checked (c.update_one (λ r. r.id == id && expects st n now r) f db).1
    unfolding claim_one
    claimed-result = ground arith

    claimed-state :
        (claim_one c id st n f now db).1
        ≡ (c.update_one (λ r. r.id == id && expects st n now r) f db).0
    unfolding claim_one
    claimed-state = ground arith

  -- The whole behaviour of a claim: it succeeds exactly if the row stored under the id still has
  -- the status and the attempts that the worker read, and is due.
  pub claim_candidate_lem :
      (db : Db) (row : Row) (token : Text) (now lease : ℕ)
      → IsKeyed c db
      → (claim_candidate c token now lease row db).0
        ≡ claim_outcome row token now lease (row_at by_id row.id (rows db))
  unfolding claim_candidate
  claim_candidate_lem db row token now lease keyed =
      claimed-result row.id row.status (attempts_or_zero row.attempts) now _ db
      ∙ ap checked (
          laws.found-update _ _ db
          ∙ ap (Option.map (claimed (attempts_or_zero row.attempts + 1) token now lease)) (
              find-row_at by_id row.id (expects row.status (attempts_or_zero row.attempts) now)
                (rows db) keyed))
      ∙ outcome-checked row token now lease (row_at by_id row.id (rows db))

  -- A claim that is blocked gets no row and changes none.
  pub claim_blocked :
      (db : Db) (row r : Row) (token : Text) (now lease : ℕ)
      → IsKeyed c db
      → row_at by_id row.id (rows db) ≡ some r
      → OutOfReach row r now
      → ((claim_candidate c token now lease row db).0 ≡ ok none)
        × (rows (claim_candidate c token now lease row db).1 ≡ rows db)
  claim_blocked db row r token now lease keyed at blocked = (
    claim_candidate_lem db row token now lease keyed
        ∙ ap (claim_outcome row token now lease) at
        ∙ rw (OutOfReach-expects row r now blocked),
    unfold claim_candidate in
        ap rows (claimed-state row.id row.status (attempts_or_zero row.attempts) now _ db)
        ∙ laws.rows-update _ _ db
        ∙ update_first_missing _ _ (rows db) (
            find-row_at by_id row.id (expects row.status (attempts_or_zero row.attempts) now)
              (rows db) keyed
            ∙ ap (keep_if (expects row.status (attempts_or_zero row.attempts) now)) at
            ∙ rw (OutOfReach-expects row r now blocked)),
  )

  checked_found : (o : Option Row) (r : Row) → checked o ≡ ok (some r) → (o ≢ none) × (o ≡ some r)
  checked_found none r h = cc
  checked_found (some x) r h = (λ e. cc, ground arith)

  -- A successful claim found the row as the worker had read it, and due; it stores what it returns.
  pub claim_success :
      (db db₁ : Db) (row r : Row) (token : Text) (now lease : ℕ)
      → IsKeyed c db
      → claim_candidate c token now lease row db ≡ (ok (some r), db₁)
      → (old : Row) × (expects row.status (attempts_or_zero row.attempts) now old ≡ true)
        × (r ≡ claimed (attempts_or_zero row.attempts + 1) token now lease old)
        × (row_at by_id row.id (rows db₁) ≡ some r)
  unfolding claim_candidate claimed
  claim_success db db₁ row r token now lease keyed e =
      let n = attempts_or_zero row.attempts in
      let f = claimed (n + 1) token now lease in
      let result =
        sym (claimed-result row.id row.status n now f db)
        ∙ ap (λ (x : Result (Option Row) × Db). x.0) e in
      let (ne, found) = checked_found _ r result in
      let (old, passes, made, at) =
        matched_row c laws db row.id (expects row.status n now) f (λ x. refl) keyed ne in
      let same = some_inj (sym found ∙ made) in
      (
        old,
        passes,
        same,
        ap (λ d. row_at by_id row.id (rows d))
              (sym (ap (λ (x : Result (Option Row) × Db). x.1) e)
                ∙ claimed-state row.id row.status n now f db)
            ∙ at
            ∙ ap some (sym same),
      )

  -- A claim is one step, whatever it finds.
  pub claim-Step :
      (db db₁ : Db) (row : Row) (found : Result (Option Row)) (token : Text) (now lease : ℕ)
      → is_candidate now row ≡ true
      → claim_candidate c token now lease row db ≡ (found, db₁)
      → Step c db db₁
  unfolding claim_candidate update_where
  claim-Step db db₁ row found token now lease candidate e =
      updates (claims row token now lease candidate) (
        sym (ap (λ (x : Result (Option Row) × Db). x.1) e)
        ∙ claimed-state row.id row.status (attempts_or_zero row.attempts) now _ db)

  -- When a worker claims a row, every claim made at the attempts that it found there, or at fewer,
  -- is refused from then on, after any further steps of any workers.
  pub superseded :
      (db db₁ db' : Db) (row r : Row) (token : Text) (now lease : ℕ) (claim : Claim)
      → IsKeyed c db
      → is_candidate now row ≡ true
      → claim_candidate c token now lease row db ≡ (ok (some r), db₁)
      → claim.attempts ≤ attempts_or_zero row.attempts
      → Steps c db₁ db'
      → AllRefused c laws db' row.id claim
  superseded db db₁ db' row r token now lease claim keyed candidate e older steps =
      let (old, passes, same, at) = claim_success db db₁ row r token now lease keyed e in
      let made =
        Steps-IsKeyed c laws
          (next here (claim-Step db db₁ row (ok (some r)) token now lease candidate e)) keyed in
      fenced_forever c laws db₁ db' row.id r claim made at
        (rw same (claimed-spent row old claim.attempts token now lease older)) steps
