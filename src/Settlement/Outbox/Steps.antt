-- ===== src/Settlement/Outbox/Steps.antt =====
-- The atomic updates that workers make to the outbox, in any order and by any number of workers:
-- a worker may act on a row that it read long ago. Every operation of the repository and the
-- service is a sequence of such steps.
mod Advance
use mathlib.Core.Option
use tokenpanel.Prelude.{
  ℕ, ◌+◌, ◌≤◌, ◌≡◌, refl, sym, ap, ◌∙◌, inl, inr, Bool, true, false, not, ◌&&◌, ◌||◌, none, some,
  List, [], ◌∷◌, ◌++◌, arith, ltb, ◌==◌, if◌then◌else◌, Text, Bool-cases, some_inj,
}
use tokenpanel.Mongo.{Collection, IsCollection, update_first, any}
use tokenpanel.Mongo.Laws.{
  row_at, Unique, row_at-update_ne, row_at-update_self, row_at-append, Unique-update, Unique-append,
}
use tokenpanel.Settlement.Outbox.{
  Status, in_progress, reconciled, failed, abandoned, Value, Row, Claim, status_eq,
}
use tokenpanel.Settlement.Outbox.Repo.{
  attempts_or_zero, is_candidate, holds_claim, expects, claimed, renewed, closed, closed_with,
  released, update_where,
}
use tokenpanel.Settlement.Outbox.Service.{clash}
pub use Advance.{
  Advances, Advances-refl, Advances-trans, claimed-Advances, renewed-Advances, closed-Advances,
  released-Advances, closed_with-Advances,
}
unfoldable pub use Advance.{is_terminal, is_spent}

-- The updates that the workers send: a row's id, the rest of the filter, and the change.
pub data Update : ℕ → (Row → Bool) → (Row → Row) → Type 0 where
  claims :
      (row : Row) (token : Text) (now lease : ℕ)
      → is_candidate now row ≡ true
      → Update row.id
          (expects row.status (attempts_or_zero row.attempts) now)
          (claimed (attempts_or_zero row.attempts + 1) token now lease)
  renews :
      (id : ℕ) (claim : Claim) (now lease : ℕ) → Update id (holds_claim claim) (renewed now lease)
  reconciles :
      (id : ℕ) (claim : Claim) (now : ℕ) → Update id (holds_claim claim) (closed reconciled now)
  fails :
      (id : ℕ) (claim : Claim) (now : ℕ) (context : List (Text × Value))
      → Update id (holds_claim claim) (closed_with failed now context)
  abandons :
      (id : ℕ) (claim : Claim) (now : ℕ) (context : List (Text × Value))
      → Update id (holds_claim claim) (closed_with abandoned now context)
  releases :
      (id : ℕ) (claim : Claim) (now at : ℕ) (context : List (Text × Value))
      → Update id (holds_claim claim) (released now at context)

pub Update-Advances :
    {id : ℕ} {q : Row → Bool} {f : Row → Row}
    → Update id q f
    → (r : Row) → q r ≡ true
    → Advances r (f r)
unfolding status_eq
Update-Advances (claims row token now lease c) r h = claimed-Advances row r token now lease c h
Update-Advances (renews id claim now lease) r h = renewed-Advances claim r now lease h
Update-Advances (reconciles id claim now) r h = closed-Advances claim reconciled r now h refl
Update-Advances (fails id claim now context) r h =
    closed_with-Advances claim failed r now context h refl
Update-Advances (abandons id claim now context) r h =
    closed_with-Advances claim abandoned r now context h refl
Update-Advances (releases id claim now at context) r h = released-Advances claim r now at context h

pub Update-id :
    {id : ℕ} {q : Row → Bool} {f : Row → Row} → Update id q f → (r : Row) → (f r).id ≡ r.id
unfolding claimed renewed closed closed_with released
Update-id (claims row token now lease c) r = refl
Update-id (renews id claim now lease) r = refl
Update-id (reconciles id claim now) r = refl
Update-id (fails id claim now context) r = refl
Update-id (abandons id claim now context) r = refl
Update-id (releases id claim now at context) r = refl

abbrev pub by_id : Row → ℕ
by_id r = r.id

-- What one update does to the row under an id.
advance_at :
    {id : ℕ} {q : Row → Bool} {f : Row → Row} (i : ℕ) (rows : List Row) (r : Row)
    → Update id q f
    → row_at by_id i rows ≡ some r
    → (r' : Row) × (row_at by_id i (update_first (λ x. x.id == id && q x) f rows) ≡ some r')
      × Advances r r'
advance_at {id} {q} {f} i rows r u e = elim (Bool-cases (i == id)) [
  | inl hit ↦
      let self = row_at-update_self by_id id q f rows (Update-id u) in
      let here : i ≡ id = ground arith in
      elim (Bool-cases (q r)) [
        | inl passes ↦ (
          f r,
          rw here (self ∙ ap (Option.map (λ x. if q x then f x else x)) (rw here at e) ∙ rw passes),
          Update-Advances u r passes,
        )
        | inr misses ↦ (
          r,
          rw here (self ∙ ap (Option.map (λ x. if q x then f x else x)) (rw here at e) ∙ rw misses),
          Advances-refl r,
        )
      ]
  | inr miss ↦
      (r, row_at-update_ne by_id id i q f rows (Update-id u) (ground arith) ∙ e, Advances-refl r)
]

module _ (c : Collection Row) where
  open c use {Db, rows}

  -- One atomic operation of one worker, or the enqueueing of a new row.
  pub data Step (db db' : Db) : Type 0 where
    updates :
        {id : ℕ} {q : Row → Bool} {f : Row → Row}
        → Update id q f
        → db' ≡ (update_where c id q f db).1
        → Step db db'
    inserts : (doc : Row) → c.insert_one doc db ≡ some db' → Step db db'

  pub data Steps (db : Db) : Db → Type 0 where
    here : Steps db db
    next : {db₁ db₂ : Db} → Steps db db₁ → Step db₁ db₂ → Steps db db₂

  pub Steps-append : {a b d : Db} → Steps a b → Steps b d → Steps a d
  Steps-append s here = s
  Steps-append s (next t u) = next (Steps-append s t) u

  -- The outbox holds one row under each id.
  abbrev pub IsKeyed : Db → Type 0
  IsKeyed db = Unique by_id (rows db)

module _ (c : Collection Row) (laws : IsCollection c clash) where
  open c use {Db, rows}

  inserted-rows :
      (doc : Row) {db db' : Db}
      → c.insert_one doc db ≡ some db'
      → (any (clash doc) (rows db) ≡ false) × (rows db' ≡ rows db ++ doc ∷ [])
  inserted-rows doc {db} {db'} e = elim (Bool-cases (any (clash doc) (rows db))) [
    | inl taken ↦ cc (laws.insert_clash doc db taken)
    | inr free ↦
        let (new, made, shape) = laws.insert_new doc db free in
        (free, ap rows (some_inj (sym e ∙ made)) ∙ shape)
  ]

  -- No step loses a row or takes it back: see `Advances`.
  pub Step-Advances :
      {db db' : Db} (i : ℕ) (r : Row)
      → Step c db db'
      → row_at by_id i (rows db) ≡ some r
      → (r' : Row) × (row_at by_id i (rows db') ≡ some r') × Advances r r'
  unfolding update_where
  Step-Advances {db} {db'} i r (updates {id} {q} {f} u e) h =
      let (r', at, adv) = advance_at i (rows db) r u h in
      (r', rw (e, laws.rows-update (λ x. x.id == id && q x) f db) at, adv)
  Step-Advances {db} {db'} i r (inserts doc e) h = (
    r,
    rw ((inserted-rows doc e).1, row_at-append by_id i (rows db) doc, h) refl,
    Advances-refl r,
  )

  -- Over any interleaving of workers: a row keeps its id and its key, attempts never fall, a
  -- terminal row never changes, and a claim that is spent stays spent.
  pub Steps-Advances :
      {db db' : Db} (i : ℕ) (r : Row)
      → Steps c db db'
      → row_at by_id i (rows db) ≡ some r
      → (r' : Row) × (row_at by_id i (rows db') ≡ some r') × Advances r r'
  Steps-Advances i r here h = (r, h, Advances-refl r)
  Steps-Advances i r (next s t) h =
      let (m, at, adv) = Steps-Advances i r s h in
      let (r', at', adv') = Step-Advances i m t at in (r', at', Advances-trans adv adv')

  any-row_at : (doc : Row) (l : List Row) → any (clash doc) l ≡ false → row_at by_id doc.id l ≡ none
  unfolding clash
  any-row_at doc [] h = refl
  any-row_at doc (x ∷ l) h = ground (arith, any-row_at doc l)

  Step-IsKeyed : {db db' : Db} → Step c db db' → IsKeyed c db → IsKeyed c db'
  unfolding update_where
  Step-IsKeyed {db} {db'} (updates {id} {q} {f} u e) k =
      rw (e, laws.rows-update (λ x. x.id == id && q x) f db)
        (Unique-update by_id (λ x. x.id == id && q x) f (rows db) (Update-id u) k)
  Step-IsKeyed {db} {db'} (inserts doc e) k =
      let (free, shape) = inserted-rows doc e in
      rw shape (Unique-append by_id (rows db) doc k (any-row_at doc (rows db) free))

  -- Ids stay unique.
  pub Steps-IsKeyed : {db db' : Db} → Steps c db db' → IsKeyed c db → IsKeyed c db'
  Steps-IsKeyed here k = k
  Steps-IsKeyed (next s t) k = Step-IsKeyed t (Steps-IsKeyed s k)
