-- ===== src/Mongo/InMemory.antt =====
-- A collection kept as a list: the laws of the interface can be met.
use mathlib.Core.Option
use tokenpanel.Prelude.{
  ℕ, zero, suc, ◌≡◌, refl, Bool, true, none, some, List, [], ◌∷◌, ◌++◌, arith, take, length-take-le,
  All, if◌then◌else◌,
}
use tokenpanel.Mongo.Rows.{find_first, update_first, any, Collection, IsCollection}

module _ {A : Type 0} where
  -- A stable insertion sort of the documents that pass the filter.
  pub put_sorted : (A → A → Bool) → A → List A → List A
  put_sorted before a [] = a ∷ []
  put_sorted before a (x ∷ xs) = if before x a then x ∷ put_sorted before a xs else a ∷ x ∷ xs

  unfoldable pub select : (A → Bool) → (A → A → Bool) → List A → List A
  unfolding put_sorted
  select p before [] = []
  select p before (x ∷ xs) =
      let rest = select p before xs in if p x then put_sorted before x rest else rest

  put_sorted-All :
      (p : A → Bool) (before : A → A → Bool) (a : A) (xs : List A)
      → p a ≡ true
      → All (λ r. p r ≡ true) xs
      → All (λ r. p r ≡ true) (put_sorted before a xs)
  unfolding put_sorted
  put_sorted-All p before a [] h hs = (h, tt)
  put_sorted-All p before a (x ∷ xs) h hs = ground (arith, put_sorted-All p before a xs h hs.1)

  select-All :
      (p : A → Bool) (before : A → A → Bool) (xs : List A)
      → All (λ r. p r ≡ true) (select p before xs)
  unfolding select
  select-All p before [] = tt
  select-All p before (x ∷ xs) = ground (
    arith,
    select-All p before xs,
    λ (h : p x ≡ true). put_sorted-All p before x (select p before xs) h (select-All p before xs),
  )

  take-All : (P : A → Type 0) (n : ℕ) (xs : List A) → All P xs → All P (take n xs)
  take-All P zero xs h = tt
  take-All P (suc n) [] h = tt
  take-All P (suc n) (x ∷ xs) h = (h.0, take-All P n xs h.1)

-- `Listing A` is the state; `clash` is the unique index.
abbrev pub Listing : Type 0 → Type 0
Listing A = List A

module _ {A : Type 0} (clash : A → A → Bool) where
  abbrev pub in_memory : Collection A
  in_memory = record {
    Db = Listing A;
    rows = λ db. db;
    find_one = find_first;
    find_sorted = λ p before n db. take n (select p before db);
    insert_one = λ a db. if any (clash a) db then none else some (db ++ a ∷ []);
    update_one = λ p f db. (update_first p f db, Option.map f (find_first p db));
  }

  pub in_memory-IsCollection : IsCollection in_memory clash
  in_memory-IsCollection = record {
    find_one_lem = λ p db. refl;
    find_sorted-All = λ p before n db. take-All _ n (select p before db) (select-All p before db);
    find_sorted-le = λ p before n db. length-take-le n (select p before db);
    insert_new = λ a db h. (db ++ a ∷ [], ground arith, refl);
    insert_clash = λ a db h. ground arith;
    rows-update = λ p f db. refl;
    found-update = λ p f db. refl;
  }
