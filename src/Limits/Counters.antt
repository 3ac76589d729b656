-- ===== src/Limits/Counters.antt =====
-- The counters: one document for a bucket of a stream. The driver is an interface with the laws that
-- MongoDB documents for `find`, `updateOne` and `updateOne` with `upsert`.
use tokenpanel.Prelude.{
  ℕ, ◌+◌, ◌≡◌, Bool, ◌&&◌, Option, List, [], ◌∷◌, ◌++◌, ◌==◌, if◌then◌else◌, Text,
}
use tokenpanel.Prelude.Int.{ℤ, pos, pos_part, ◌+ℤ◌, leb_ℤ}
use tokenpanel.Mongo.{update_first, any}
use tokenpanel.Limits.{Dimension, stream_dimension, same_dimension, same_target}

pub record Counter : Type 0 where
  pub organization_id : ℕ
  pub customer_id : ℕ
  pub dimension : Dimension
  pub window_seconds : ℕ
  pub bucket_start : ℕ
  pub scope_target : Option Text
  pub count : ℕ

pub record CounterWrite : Type 0 where
  pub dimension : Dimension
  pub window_seconds : ℕ
  pub bucket_start : ℕ
  pub scope_target : Option Text
  pub increment : ℤ

abbrev pub filter : {A : Type 0} → (A → Bool) → List A → List A
filter p [] = []
filter p (x ∷ xs) = if p x then x ∷ filter p xs else filter p xs

pub record CounterStore : Type 1 where
  pub Db : Type 0
  pub rows : Db → List Counter
  pub find : (Counter → Bool) → Db → List Counter
  pub update_one : (Counter → Bool) → (Counter → Counter) → Db → Db
  -- With the document to insert if none matches.
  pub upsert_one : (Counter → Bool) → (Counter → Counter) → Counter → Db → Db

pub record IsCounterStore (c : CounterStore) : Type 0 where
  pub find_lem : (p : Counter → Bool) (db : c.Db) → c.find p db ≡ filter p (c.rows db)
  pub rows-update :
      (p : Counter → Bool) (f : Counter → Counter) (db : c.Db)
      → c.rows (c.update_one p f db) ≡ update_first p f (c.rows db)
  pub rows-upsert :
      (p : Counter → Bool) (f : Counter → Counter) (a : Counter) (db : c.Db)
      → c.rows (c.upsert_one p f a db)
        ≡ (if any p (c.rows db) then update_first p f (c.rows db) else c.rows db ++ a ∷ [])

-- The filter of `findWindowCounters`: the money dimension matches both of its labels.
unfoldable pub in_window : ℕ → Dimension → ℕ → ℤ → Option Text → Counter → Bool
in_window customer dimension window_seconds window_start scope_target r =
    r.customer_id == customer
    && same_dimension (stream_dimension r.dimension) (stream_dimension dimension)
    && r.window_seconds == window_seconds
    && leb_ℤ window_start (pos r.bucket_start)
    && same_target r.scope_target scope_target

-- The filter of one write of `bulkUpsertCounters`.
unfoldable pub is_bucket : ℕ → ℕ → CounterWrite → Counter → Bool
is_bucket org customer e r =
    r.organization_id == org
    && r.customer_id == customer
    && same_dimension r.dimension (stream_dimension e.dimension)
    && r.window_seconds == e.window_seconds
    && r.bucket_start == e.bucket_start
    && same_target r.scope_target e.scope_target

-- `$inc`, and the floor at 0 of a release.
unfoldable pub add_count : ℤ → Counter → Counter
add_count n r = record r { count = pos_part (pos r.count +ℤ n) }

abbrev pub new_counter : ℕ → ℕ → CounterWrite → Counter
new_counter org customer e = record {
  organization_id = org;
  customer_id = customer;
  dimension = stream_dimension e.dimension;
  window_seconds = e.window_seconds;
  bucket_start = e.bucket_start;
  scope_target = e.scope_target;
  count = pos_part e.increment;
}

abbrev pub sum_counts : List Counter → ℕ
sum_counts [] = 0
sum_counts (r ∷ rs) = r.count + sum_counts rs

module _ (c : CounterStore) where
  open c use {Db, find, update_one, upsert_one}

  unfoldable pub find_window_counters : ℕ → Dimension → ℕ → ℤ → Option Text → Db → List Counter
  unfolding in_window
  find_window_counters customer dimension window_seconds window_start scope_target db =
      find (in_window customer dimension window_seconds window_start scope_target) db

  unfoldable pub write_counter : ℕ → ℕ → CounterWrite → Db → Db
  unfolding is_bucket add_count
  write_counter org customer e db =
      if leb_ℤ (pos 0) e.increment
      then upsert_one (is_bucket org customer e) (add_count e.increment)
          (new_counter org customer e) db
      else update_one (is_bucket org customer e) (add_count e.increment) db

  unfoldable pub bulk_upsert_counters : ℕ → ℕ → List CounterWrite → Db → Db
  unfolding write_counter
  bulk_upsert_counters org customer [] db = db
  bulk_upsert_counters org customer (e ∷ es) db =
      bulk_upsert_counters org customer es (write_counter org customer e db)
