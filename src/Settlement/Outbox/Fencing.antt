-- ===== src/Settlement/Outbox/Fencing.antt =====
-- A claim that another worker has superseded, or that has been closed, has no power left.
use mathlib.Core.Option
use tokenpanel.Prelude.{
  ℕ, ◌≡◌, refl, ap, ◌∙◌, inl, inr, Bool, true, false, ◌&&◌, none, some, List, arith, leb, ◌==◌,
  Text, Bool-cases, ◌++◌, codes, take,
}
use tokenpanel.Mongo.{Collection, IsCollection, find_first}
use tokenpanel.Mongo.Laws.{row_at, keep_if, find-row_at, update_first_missing}
use tokenpanel.Settlement.Outbox.{reconciled, failed, abandoned, Value, Row, Claim, Result, ok}
use tokenpanel.Settlement.Outbox.Repo.{
  holds_claim, renewed, closed, closed_with, released, is_some, update_where, read_then_update,
  renew_claim, mark_reconciled, mark_failed, mark_abandoned, release_after_failure,
}
use tokenpanel.Settlement.Outbox.Service.{
  clash, next_outbox_attempt_at, release_outbox_after_failure,
}
use tokenpanel.Settlement.Outbox.Steps.{
  is_spent, by_id, IsKeyed, Steps, Steps-Advances, Steps-IsKeyed,
}

-- A spent claim does not pass the filter.
spent-holds_claim :
    (claim : Claim) (r : Row) → is_spent claim.attempts r ≡ true → holds_claim claim r ≡ false
unfolding is_spent holds_claim
spent-holds_claim claim r h = ground arith

module _ (c : Collection Row) (laws : IsCollection c clash) where
  open c use {Db, rows}

  -- An operation that reports failure and leaves every row as it was.
  abbrev pub Refused : Db → Bool × Db → Type 0
  Refused db r = (r.0 ≡ false) × (rows r.1 ≡ rows db)

  abbrev pub RefusedResult : Db → Result Bool × Db → Type 0
  RefusedResult db r = (r.0 ≡ ok false) × (rows r.1 ≡ rows db)

  module _ (db : Db) (id : ℕ) (r : Row) (claim : Claim) (keyed : IsKeyed c db)
      (at : row_at by_id id (rows db) ≡ some r) (spent : is_spent claim.attempts r ≡ true) where
    nothing_found : find_first (λ x. x.id == id && holds_claim claim x) (rows db) ≡ none
    nothing_found =
        find-row_at by_id id (holds_claim claim) (rows db) keyed
        ∙ ap (keep_if (holds_claim claim)) at
        ∙ rw (spent-holds_claim claim r spent)

    update-Refused : (f : Row → Row) → Refused db (update_where c id (holds_claim claim) f db)
    unfolding update_where
    update-Refused f = (
      ap is_some (
          laws.found-update (λ x. x.id == id && holds_claim claim x) f db
          ∙ ap (Option.map f) nothing_found),
      laws.rows-update (λ x. x.id == id && holds_claim claim x) f db
          ∙ update_first_missing _ f (rows db) nothing_found,
    )

    read-RefusedResult :
        (change : List (Text × Value) → Row → Row) (key note : Text)
        → RefusedResult db (read_then_update c id claim change key note db)
    unfolding read_then_update
    read-RefusedResult change key note =
        rw
          (
            laws.find_one_lem (λ x. x.id == id && holds_claim claim x) db,
            nothing_found,
            read_then_update,
          )
          (refl, refl)

  -- Every operation that takes a claim on the row refuses.
  pub record AllRefused (db : Db) (id : ℕ) (claim : Claim) : Type 0 where
    pub renew : (lease now : ℕ) → Refused db (renew_claim c id claim lease now db)
    pub reconcile : (now : ℕ) → Refused db (mark_reconciled c id claim now db)
    pub fail : (note : Text) (now : ℕ) → RefusedResult db (mark_failed c id claim note now db)
    pub abandon : (note : Text) (now : ℕ) → RefusedResult db (mark_abandoned c id claim note now db)
    pub release :
        (note : Text) (next_at now : ℕ)
        → RefusedResult db (release_after_failure c id claim note next_at now db)
    pub release_or_abandon :
        (note : Text) (now : ℕ)
        → RefusedResult db (release_outbox_after_failure c id claim note now db)

  spent-AllRefused :
      (db : Db) (id : ℕ) (r : Row) (claim : Claim)
      → IsKeyed c db
      → row_at by_id id (rows db) ≡ some r
      → is_spent claim.attempts r ≡ true
      → AllRefused db id claim
  unfolding renew_claim mark_reconciled mark_failed mark_abandoned release_after_failure
      release_outbox_after_failure
  spent-AllRefused db id r claim keyed at spent = record {
    renew = λ lease now. update-Refused db id r claim keyed at spent (renewed now lease);
    reconcile = λ now. update-Refused db id r claim keyed at spent (closed reconciled now);
    fail = λ note now. refused (closed_with failed now) (codes "lastError") (take 500 note);
    abandon = abandoning;
    release = releasing;
    release_or_abandon = λ note now. elim (Bool-cases (leb 20 claim.attempts)) [
      | inl old ↦ rw old (abandoning (codes "max_attempts: " ++ take 120 note) now)
      | inr young ↦ rw young (releasing note (next_outbox_attempt_at claim.attempts now) now)
    ];
  }
    where
      refused :
          (change : List (Text × Value) → Row → Row) (key note : Text)
          → RefusedResult db (read_then_update c id claim change key note db)
      refused = read-RefusedResult db id r claim keyed at spent

      abandoning :
          (note : Text) (now : ℕ) → RefusedResult db (mark_abandoned c id claim note now db)
      abandoning note now =
          refused (closed_with abandoned now) (codes "abandonReason") (take 200 note)

      releasing :
          (note : Text) (next_at now : ℕ)
          → RefusedResult db (release_after_failure c id claim note next_at now db)
      releasing note next_at now =
          refused (released now next_at) (codes "lastError") (take 500 note)

  -- A spent claim is refused now and after any further steps of any workers.
  pub fenced_forever :
      (db db' : Db) (id : ℕ) (r : Row) (claim : Claim)
      → IsKeyed c db
      → row_at by_id id (rows db) ≡ some r
      → is_spent claim.attempts r ≡ true
      → Steps c db db'
      → AllRefused db' id claim
  fenced_forever db db' id r claim keyed at spent steps =
      let (r', at', adv) = Steps-Advances c laws id r steps at in
      spent-AllRefused db' id r' claim (Steps-IsKeyed c laws steps keyed) at'
        (adv.spent_stays claim.attempts spent)
