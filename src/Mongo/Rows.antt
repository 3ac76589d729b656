-- ===== src/Mongo/Rows.antt =====
-- The interface of a collection, and what an update does to the list of its documents.
use mathlib.Core.Option
use tokenpanel.Prelude.{
  ℕ, ◌≤◌, ◌≡◌, Bool, true, false, Option, none, some, List, [], ◌∷◌, ◌++◌, length, All,
  if◌then◌else◌,
}

module _ {ℓ} {A : Type ℓ} where
  -- The first document that passes the filter.
  abbrev pub find_first : (A → Bool) → List A → Option A
  find_first p [] = none
  find_first p (x ∷ xs) = if p x then some x else find_first p xs

  -- The update of the first document that passes the filter.
  abbrev pub update_first : (A → Bool) → (A → A) → List A → List A
  update_first p f [] = []
  update_first p f (x ∷ xs) = if p x then f x ∷ xs else x ∷ update_first p f xs

  abbrev pub any : (A → Bool) → List A → Bool
  any p [] = false
  any p (x ∷ xs) = if p x then true else any p xs

pub record Collection (A : Type 0) : Type 1 where
  pub Db : Type 0
  -- The documents, in the order of their insertion.
  pub rows : Db → List A
  pub find_one : (A → Bool) → Db → Option A
  -- `find(filter).sort(order).limit(n)`.
  pub find_sorted : (A → Bool) → (A → A → Bool) → ℕ → Db → List A
  -- `none` is a duplicate key.
  pub insert_one : A → Db → Option Db
  -- The new state, and the updated document if one matched.
  pub update_one : (A → Bool) → (A → A) → Db → Db × Option A

-- `clash` tells documents that a unique index holds apart.
pub record IsCollection {A : Type 0} (c : Collection A) (clash : A → A → Bool) : Type 1 where
  pub find_one_lem : (p : A → Bool) (db : c.Db) → c.find_one p db ≡ find_first p (c.rows db)
  pub find_sorted-All :
      (p : A → Bool) (before : A → A → Bool) (n : ℕ) (db : c.Db)
      → All (λ r. p r ≡ true) (c.find_sorted p before n db)
  pub find_sorted-le :
      (p : A → Bool) (before : A → A → Bool) (n : ℕ) (db : c.Db)
      → length (c.find_sorted p before n db) ≤ n
  pub insert_new :
      (a : A) (db : c.Db)
      → any (clash a) (c.rows db) ≡ false
      → (db' : c.Db) × (c.insert_one a db ≡ some db') × (c.rows db' ≡ c.rows db ++ a ∷ [])
  pub insert_clash :
      (a : A) (db : c.Db) → any (clash a) (c.rows db) ≡ true → c.insert_one a db ≡ none
  pub rows-update :
      (p : A → Bool) (f : A → A) (db : c.Db)
      → c.rows (c.update_one p f db).0 ≡ update_first p f (c.rows db)
  pub found-update :
      (p : A → Bool) (f : A → A) (db : c.Db)
      → (c.update_one p f db).1 ≡ Option.map f (find_first p (c.rows db))
