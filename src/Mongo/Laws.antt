-- ===== src/Mongo/Laws.antt =====
-- What an update of one document keeps, on the list of documents with their keys.
use mathlib.Core.Option
use tokenpanel.Prelude.{
  ℕ, ◌≡◌, ◌≢◌, refl, sym, ap, ◌∙◌, some_inj, inl, inr, Bool, true, ◌&&◌, Option, none, some, List,
  [], ◌∷◌, ◌++◌, arith, All, ◌==◌, Bool-cases, if◌then◌else◌,
}
use tokenpanel.Mongo.Rows.{find_first, update_first, any, Collection, IsCollection}

module _ {ℓ} {A : Type ℓ} where
  abbrev pub keep_if : (A → Bool) → Option A → Option A
  keep_if q none = none
  keep_if q (some r) = if q r then some r else none

  -- An update that matches nothing changes nothing.
  pub update_first_missing :
      (p : A → Bool) (f : A → A) (rows : List A)
      → find_first p rows ≡ none
      → update_first p f rows ≡ rows
  update_first_missing p f [] h = refl
  update_first_missing p f (x ∷ rows) h = ground (arith, update_first_missing p f rows)

  pub find_first_passes :
      (p : A → Bool) (rows : List A) (r : A) → find_first p rows ≡ some r → p r ≡ true
  find_first_passes p [] r h = ground arith
  find_first_passes p (x ∷ rows) r h = ground (arith, find_first_passes p rows r)

module _ {ℓ} {A : Type ℓ} (key : A → ℕ) where
  -- The document under a key.
  abbrev pub row_at : ℕ → List A → Option A
  row_at k rows = find_first (λ r. key r == k) rows

  -- No two documents share a key.
  abbrev pub Unique : List A → Type 0
  Unique [] = Unit
  Unique (x ∷ rows) = All (λ r. key r ≢ key x) rows × Unique rows

  pub row_at-update_ne :
      (k j : ℕ) (q : A → Bool) (f : A → A) (rows : List A)
      → ((r : A) → key (f r) ≡ key r)
      → j ≢ k
      → row_at j (update_first (λ r. key r == k && q r) f rows) ≡ row_at j rows
  row_at-update_ne k j q f [] keep ne = refl
  row_at-update_ne k j q f (x ∷ rows) keep ne =
      ground (arith, keep x, row_at-update_ne k j q f rows keep ne)

  pub row_at-update_self :
      (k : ℕ) (q : A → Bool) (f : A → A) (rows : List A)
      → ((r : A) → key (f r) ≡ key r)
      → row_at k (update_first (λ r. key r == k && q r) f rows)
        ≡ Option.map (λ r. if q r then f r else r) (row_at k rows)
  row_at-update_self k q f [] keep = refl
  row_at-update_self k q f (x ∷ rows) keep =
      ground (arith, keep x, row_at-update_self k q f rows keep)

  row_at-fresh : (k : ℕ) (rows : List A) → All (λ r. key r ≢ k) rows → row_at k rows ≡ none
  row_at-fresh k [] h = refl
  row_at-fresh k (x ∷ rows) h = ground (arith, h.0, row_at-fresh k rows h.1)

  find-fresh :
      (k : ℕ) (q : A → Bool) (rows : List A)
      → All (λ r. key r ≢ k) rows
      → find_first (λ r. key r == k && q r) rows ≡ none
  find-fresh k q [] h = refl
  find-fresh k q (x ∷ rows) h = ground (arith, h.0, find-fresh k q rows h.1)

  -- With unique keys a filter on a key finds the document under that key, if the rest holds of it.
  pub find-row_at :
      (k : ℕ) (q : A → Bool) (rows : List A)
      → Unique rows
      → find_first (λ r. key r == k && q r) rows ≡ keep_if q (row_at k rows)
  find-row_at k q [] u = refl
  find-row_at k q (x ∷ rows) u =
      ground (arith, find-row_at k q rows u.1, λ (e : key x ≡ k). find-fresh k q rows (fresh e))
    where
      fresh : key x ≡ k → All (λ r. key r ≢ k) rows
      fresh e = rw e at u.0

  All-ne-update :
      (n : ℕ) (p : A → Bool) (f : A → A) (rows : List A)
      → ((r : A) → key (f r) ≡ key r)
      → All (λ r. key r ≢ n) rows
      → All (λ r. key r ≢ n) (update_first p f rows)
  All-ne-update n p f [] keep h = tt
  All-ne-update n p f (x ∷ rows) keep h = ground (arith, keep x, All-ne-update n p f rows keep h.1)

  pub Unique-update :
      (p : A → Bool) (f : A → A) (rows : List A)
      → ((r : A) → key (f r) ≡ key r)
      → Unique rows
      → Unique (update_first p f rows)
  Unique-update p f [] keep u = tt
  Unique-update p f (x ∷ rows) keep u = elim (Bool-cases (p x)) [
    | inl hit ↦ rw hit (rw (keep x) u)
    | inr miss ↦ rw miss (All-ne-update (key x) p f rows keep u.0, Unique-update p f rows keep u.1)
  ]

  All-ne-append :
      (n : ℕ) (rows : List A) (a : A)
      → All (λ r. key r ≢ n) rows
      → key a ≢ n
      → All (λ r. key r ≢ n) (rows ++ a ∷ [])
  All-ne-append n [] a h e = (e, tt)
  All-ne-append n (x ∷ rows) a h e = (h.0, All-ne-append n rows a h.1 e)

  -- A document under a new key keeps the keys unique.
  pub Unique-append :
      (rows : List A) (a : A) → Unique rows → row_at (key a) rows ≡ none → Unique (rows ++ a ∷ [])
  Unique-append [] a u h = (tt, tt)
  Unique-append (x ∷ rows) a u h =
      (All-ne-append (key x) rows a u.0 (ground arith), Unique-append rows a u.1 (ground arith))

  pub row_at-append :
      (k : ℕ) (rows : List A) (a : A)
      → row_at k (rows ++ a ∷ [])
        ≡ elim (row_at k rows) [ some r ↦ some r | none ↦ if key a == k then some a else none ]
  row_at-append k [] a = refl
  row_at-append k (x ∷ rows) a = ground (arith, row_at-append k rows a)

-- The same of a collection whose documents have unique keys: an update under a key and a filter.
module _ {A : Type 0} (key : A → ℕ) (c : Collection A) {clash : A → A → Bool}
    (laws : IsCollection c clash) where
  open c use {Db, rows}

  module _ (k : ℕ) (q : A → Bool) (f : A → A) (db : Db) where
    -- What the update returns.
    pub found_under :
        Unique key (rows db)
        → (c.update_one (λ r. key r == k && q r) f db).1
          ≡ Option.map f (keep_if q (row_at key k (rows db)))
    found_under u =
        laws.found-update (λ r. key r == k && q r) f db
        ∙ ap (Option.map f) (find-row_at key k q (rows db) u)

    -- What it stores under the key.
    pub stored_under :
        ((r : A) → key (f r) ≡ key r)
        → row_at key k (rows (c.update_one (λ r. key r == k && q r) f db).0)
          ≡ Option.map (λ r. if q r then f r else r) (row_at key k (rows db))
    stored_under keep =
        rw (laws.rows-update (λ r. key r == k && q r) f db)
          (row_at-update_self key k q f (rows db) keep)

    -- What is under other keys stays.
    pub others_under :
        (j : ℕ)
        → ((r : A) → key (f r) ≡ key r)
        → j ≢ k
        → row_at key j (rows (c.update_one (λ r. key r == k && q r) f db).0)
          ≡ row_at key j (rows db)
    others_under j keep ne =
        rw (laws.rows-update (λ r. key r == k && q r) f db)
          (row_at-update_ne key k j q f (rows db) keep ne)

    pub Unique-under :
        ((r : A) → key (f r) ≡ key r)
        → Unique key (rows db)
        → Unique key (rows (c.update_one (λ r. key r == k && q r) f db).0)
    Unique-under keep u =
        rw (laws.rows-update (λ r. key r == k && q r) f db)
          (Unique-update key (λ r. key r == k && q r) f (rows db) keep u)

-- An insert that is accepted appends the document.
pub appended :
    {A : Type 0} (c : Collection A) {clash : A → A → Bool} (laws : IsCollection c clash) (a : A)
    (db db' : c.Db)
    → c.insert_one a db ≡ some db'
    → c.rows db' ≡ c.rows db ++ a ∷ []
appended c {clash} laws a db db' e = elim (Bool-cases (any (clash a) (c.rows db))) [
  | inl h ↦ cc (laws.insert_clash a db h, e)
  | inr h ↦
      let (new, made, shape) = laws.insert_new a db h in ap c.rows (some_inj (sym e ∙ made)) ∙ shape
]
