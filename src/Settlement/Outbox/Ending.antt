-- ===== src/Settlement/Outbox/Ending.antt =====
-- A report that ends a claim ends it once and for all.
use mathlib.Core.Option
use tokenpanel.Prelude.{
  ℕ, ◌≡◌, refl, sym, ap, ◌∙◌, inl, inr, Bool, true, false, ◌&&◌, none, some, List, arith, ◌==◌,
  if◌then◌else◌, Text, Bool-cases, Option-cases, ◌≢◌,
}
use tokenpanel.Mongo.{Collection, IsCollection}
use tokenpanel.Mongo.Laws.{row_at, keep_if, find-row_at, row_at-update_self}
use tokenpanel.Settlement.Outbox.{
  Status, in_progress, reconciled, failed, abandoned, Value, text, put, Row, Claim, ok, status_eq,
}
use tokenpanel.Settlement.Outbox.Repo.{
  holds_claim, closed, closed_with, released, is_some, update_where, read_then_update,
  mark_reconciled, mark_failed, mark_abandoned, release_after_failure,
}
use tokenpanel.Settlement.Outbox.Service.{clash}
use tokenpanel.Settlement.Outbox.Steps.{
  is_spent, by_id, IsKeyed, Update, Update-id, reconciles, fails, abandons, releases, updates, here,
  next, Steps, Steps-IsKeyed,
}
use tokenpanel.Settlement.Outbox.Fencing.{AllRefused, fenced_forever}

-- A row that passes the filter was not spent; once closed it is.
closed-spent :
    (claim : Claim) (st : Status) (r : Row) (now : ℕ)
    → holds_claim claim r ≡ true
    → status_eq st in_progress ≡ false
    → is_spent claim.attempts (closed st now r) ≡ true
unfolding is_spent holds_claim closed
closed-spent claim st r now h ne = ground arith

closed_with-spent :
    (claim : Claim) (st : Status) (r : Row) (now : ℕ) (context : List (Text × Value))
    → holds_claim claim r ≡ true
    → status_eq st in_progress ≡ false
    → is_spent claim.attempts (closed_with st now context r) ≡ true
unfolding is_spent holds_claim closed_with
closed_with-spent claim st r now context h ne = ground arith

released-spent :
    (claim : Claim) (r : Row) (now at : ℕ) (context : List (Text × Value))
    → holds_claim claim r ≡ true
    → is_spent claim.attempts (released now at context r) ≡ true
unfolding is_spent holds_claim released
released-spent claim r now at context h = ground arith

module _ (c : Collection Row) (laws : IsCollection c clash) where
  open c use {Db, rows}

  -- What a successful update says of the row before and after it.
  pub matched_row :
      (db : Db) (id : ℕ) (q : Row → Bool) (f : Row → Row)
      → ((r : Row) → (f r).id ≡ r.id)
      → IsKeyed c db
      → (c.update_one (λ x. x.id == id && q x) f db).1 ≢ none
      → (r : Row) × (q r ≡ true)
        × ((c.update_one (λ x. x.id == id && q x) f db).1 ≡ some (f r))
        × (row_at by_id id (rows (c.update_one (λ x. x.id == id && q x) f db).0) ≡ some (f r))
  matched_row db id q f keep keyed found = elim (Option-cases (row_at by_id id (rows db))) [
    | inl gone ↦ absurd (found (result ∙ ap (λ o. Option.map f (keep_if q o)) gone))
    | inr (r, at) ↦ elim (Bool-cases (q r)) [
      | inl passes ↦ (
        r,
        passes,
        result ∙ ap (λ o. Option.map f (keep_if q o)) at ∙ rw passes,
        rw (laws.rows-update (λ x. x.id == id && q x) f db) (
            row_at-update_self by_id id q f (rows db) keep
            ∙ ap (Option.map (λ x. if q x then f x else x)) at
            ∙ rw passes),
      )
      | inr misses ↦ absurd (found (result ∙ ap (λ o. Option.map f (keep_if q o)) at ∙ rw misses))
    ]
  ]
    where
      result :
          (c.update_one (λ x. x.id == id && q x) f db).1
          ≡ Option.map f (keep_if q (row_at by_id id (rows db)))
      result = laws.found-update _ f db ∙ ap (Option.map f) (find-row_at by_id id q (rows db) keyed)

  -- The row after an update under the claim that matched.
  updated_row :
      (db db₁ : Db) (id : ℕ) (claim : Claim) (f : Row → Row)
      → ((r : Row) → (f r).id ≡ r.id)
      → IsKeyed c db
      → update_where c id (holds_claim claim) f db ≡ (true, db₁)
      → (r : Row) × (holds_claim claim r ≡ true) × (row_at by_id id (rows db₁) ≡ some (f r))
  unfolding update_where
  updated_row db db₁ id claim f keep keyed e =
      let (r, passes, found, at) = matched_row db id (holds_claim claim) f keep keyed (missed) in
      (r, passes, ap (λ d. row_at by_id id (rows d)) (sym (ap (λ (x : Bool × Db). x.1) e)) ∙ at)
    where
      missed : (c.update_one (λ x. x.id == id && holds_claim claim x) f db).1 ≢ none
      missed gone = cc (ap (λ (x : Bool × Db). x.0) e, ap is_some gone)

  -- A successful update that ends the claim ends it for good.
  closing_ends :
      (db db₁ db' : Db) (id : ℕ) (claim : Claim) (f : Row → Row)
      → Update id (holds_claim claim) f
      → ((r : Row) → holds_claim claim r ≡ true → is_spent claim.attempts (f r) ≡ true)
      → IsKeyed c db
      → update_where c id (holds_claim claim) f db ≡ (true, db₁)
      → Steps c db₁ db'
      → AllRefused c laws db' id claim
  closing_ends db db₁ db' id claim f u ends keyed e steps =
      let (r, passes, at) = updated_row db db₁ id claim f (Update-id u) keyed e in
      let made = updates u (sym (ap (λ (x : Bool × Db). x.1) e)) in
      fenced_forever c laws db₁ db' id (f r) claim (Steps-IsKeyed c laws (next here made) keyed) at
        (ends r passes) steps

  read_success :
      (db db₁ : Db) (id : ℕ) (claim : Claim) (change : List (Text × Value) → Row → Row)
      (key note : Text)
      → read_then_update c id claim change key note db ≡ (ok true, db₁)
      → (raw : Row) × (update_where c id
            (holds_claim claim)
            (change (put key (text note) raw.context))
            db
          ≡ (true, db₁))
  unfolding read_then_update
  read_success db db₁ id claim change key note e =
      elim (Option-cases (c.find_one (λ r. r.id == id && holds_claim claim r) db)) [
        | inl gone ↦ cc (rw (gone, read_then_update) at e)
        | inr (raw, found) ↦ (raw, ground (arith, rw (found, read_then_update) at e))
      ]

  -- A worker's report that ends a claim: reconciled, failed, abandoned, or released for a retry.
  pub data ClaimEnd (db db₁ : Db) (id : ℕ) (claim : Claim) (now : ℕ) : Type 0 where
    as_reconciled : mark_reconciled c id claim now db ≡ (true, db₁) → ClaimEnd db db₁ id claim now
    as_failed :
        (note : Text)
        → mark_failed c id claim note now db ≡ (ok true, db₁)
        → ClaimEnd db db₁ id claim now
    as_abandoned :
        (note : Text)
        → mark_abandoned c id claim note now db ≡ (ok true, db₁)
        → ClaimEnd db db₁ id claim now
    as_released :
        (note : Text) (next_at : ℕ)
        → release_after_failure c id claim note next_at now db ≡ (ok true, db₁)
        → ClaimEnd db db₁ id claim now

  -- After a report has ended a claim, and any further steps of any workers, every operation under
  -- that claim is refused: a claim settles its row at most once.
  pub ended_once :
      (db db₁ db' : Db) (id : ℕ) (claim : Claim) (now : ℕ)
      → IsKeyed c db
      → ClaimEnd db db₁ id claim now
      → Steps c db₁ db'
      → AllRefused c laws db' id claim
  unfolding mark_reconciled mark_failed mark_abandoned release_after_failure status_eq
  ended_once db db₁ db' id claim now keyed (as_reconciled e) steps =
      closing_ends db db₁ db' id claim (closed reconciled now) (reconciles id claim now)
        (λ r h. closed-spent claim reconciled r now h refl) keyed e steps
  ended_once db db₁ db' id claim now keyed (as_failed note e) steps =
      let (raw, done) = read_success db db₁ id claim (closed_with failed now) _ _ e in
      closing_ends db db₁ db' id claim _ (fails id claim now _)
        (λ r h. closed_with-spent claim failed r now _ h refl) keyed done steps
  ended_once db db₁ db' id claim now keyed (as_abandoned note e) steps =
      let (raw, done) = read_success db db₁ id claim (closed_with abandoned now) _ _ e in
      closing_ends db db₁ db' id claim _ (abandons id claim now _)
        (λ r h. closed_with-spent claim abandoned r now _ h refl) keyed done steps
  ended_once db db₁ db' id claim now keyed (as_released note next_at e) steps =
      let (raw, done) = read_success db db₁ id claim (released now next_at) _ _ e in
      closing_ends db db₁ db' id claim _ (releases id claim now next_at _)
        (λ r h. released-spent claim r now next_at _ h) keyed done steps
