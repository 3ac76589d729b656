-- ===== src/Limits/Windows.antt =====
-- What a write does to the sum of a window.
use tokenpanel.Prelude.{
  ℕ, ◌+◌, ◌≤◌, ◌≡◌, refl, ap, Bool, true, ◌&&◌, List, [], ◌∷◌, ◌++◌, arith, if◌then◌else◌, ==_iff,
  same_iff, Option, none, some, Bool-cases, inl, inr, Text,
}
use tokenpanel.Prelude.Int.{ℤ, pos, pos_part, ◌+ℤ◌, leb_ℤ}
use tokenpanel.Mongo.{update_first, any}
use tokenpanel.Limits.{Dimension, stream_dimension, same_dimension, same_target}
use tokenpanel.Limits.Counters.{
  Counter, CounterWrite, CounterStore, IsCounterStore, filter, in_window, is_bucket, add_count,
  new_counter, sum_counts, write_counter, bulk_upsert_counters,
}

add_count_le : (n : ℤ) (r : Counter) → (add_count n r).count ≤ r.count + pos_part n
unfolding add_count ◌+ℤ◌
add_count_le n r = ground arith

-- `f` is a filter that does not read the count, `s` what it says of the documents that `p` passes.
module _ (f p : Counter → Bool) (s : Bool) (n : ℤ) (agrees : (r : Counter) → p r ≡ true → f r ≡ s)
    (ignores : (r : Counter) → f (add_count n r) ≡ f r) where
  sum-update :
      (rows : List Counter)
      → sum_counts (filter f (update_first p (add_count n) rows))
        ≤ sum_counts (filter f rows) + (if s then pos_part n else 0)
  sum-update [] = omega arith
  sum-update (x ∷ xs) = elim (Bool-cases (p x)) [
    | inl e ↦
        rw (e, ignores x, agrees x e)
          (elim (Bool-cases s) [
            | inl t ↦ rw t (omega (arith, add_count_le n x))
            | inr t ↦ rw t (omega arith)
          ])
    | inr e ↦ rw e (elim (Bool-cases (f x)) [
      | inl t ↦ rw t (omega (arith, sum-update xs))
      | inr t ↦ rw t (sum-update xs)
    ])
  ]

sum-append :
    (f : Counter → Bool) (rows : List Counter) (a : Counter)
    → sum_counts (filter f (rows ++ a ∷ []))
      ≡ sum_counts (filter f rows) + (if f a then a.count else 0)
sum-append f [] a = ground arith
sum-append f (x ∷ xs) a = ground (arith, sum-append f xs a)

and6 :
    (p q r s t u : Bool)
    → (p && q && r && s && t && u) ≡ true
    → (p ≡ true) × (q ≡ true) × (r ≡ true) × (s ≡ true) × (t ≡ true) × (u ≡ true)
and6 p q r s t u h = ground arith

pub same_dimension-eq : (a b : Dimension) → same_dimension a b ≡ true → a ≡ b
same_dimension-eq a b h = ground arith

pub same_target-eq : (a b : Option Text) → same_target a b ≡ true → a ≡ b
same_target-eq none none h = refl
same_target-eq (some s) (some t) h = ap some ((same_iff s t).0 h)
same_target-eq none (some t) h = ground arith
same_target-eq (some s) none h = ground arith

module _ (customer : ℕ) (dimension : Dimension) (window_seconds : ℕ) (window_start : ℤ)
    (scope_target : Option Text) where
  abbrev window : Counter → Bool
  window = in_window customer dimension window_seconds window_start scope_target

  window-add : (n : ℤ) (r : Counter) → window (add_count n r) ≡ window r
  unfolding in_window add_count
  window-add n r = refl

  window-bucket :
      (org who : ℕ) (e : CounterWrite) (r : Counter)
      → is_bucket org who e r ≡ true
      → window r ≡ window (new_counter org who e)
  unfolding in_window is_bucket
  window-bucket org who e r h =
      let (o, c, d, w, b, t) = and6 _ _ _ _ _ _ h in
      rw
        (
          (==_iff r.customer_id who).0 c,
          same_dimension-eq r.dimension (stream_dimension e.dimension) d,
          (==_iff r.window_seconds e.window_seconds).0 w,
          (==_iff r.bucket_start e.bucket_start).0 b,
          same_target-eq r.scope_target e.scope_target t,
        )
        refl

  module _ (c : CounterStore) (laws : IsCounterStore c) (org who : ℕ) where
    open c use {Db, rows}

    abbrev in_sum : Db → ℕ
    in_sum db = sum_counts (filter window (rows db))

    -- What the writes add to the window, at most.
    abbrev pub added : List CounterWrite → ℕ
    added [] = 0
    added (e ∷ es) = (if window (new_counter org who e) then pos_part e.increment else 0) + added es

    write_le :
        (e : CounterWrite) (db : Db)
        → in_sum (write_counter c org who e db)
          ≤ in_sum db + (if window (new_counter org who e) then pos_part e.increment else 0)
    unfolding write_counter
    write_le e db =
        let p = is_bucket org who e in
        let updated =
          sum-update window p (window (new_counter org who e)) e.increment (window-bucket org who e)
            (window-add e.increment) (rows db) in
        elim (Bool-cases (leb_ℤ (pos 0) e.increment)) [
          | inl h ↦
              rw (h, laws.rows-upsert p (add_count e.increment) (new_counter org who e) db)
                (elim (Bool-cases (any p (rows db))) [
                  | inl t ↦ rw t updated
                  | inr t ↦
                      rw t (omega (arith, sum-append window (rows db) (new_counter org who e)))
                ])
          | inr h ↦ rw (h, laws.rows-update p (add_count e.increment) db) updated
        ]

    -- What a run of writes leaves in a window, at most.
    pub bulk_le :
        (es : List CounterWrite) (db : Db)
        → in_sum (bulk_upsert_counters c org who es db) ≤ in_sum db + added es
    unfolding bulk_upsert_counters
    bulk_le [] db = omega arith
    bulk_le (e ∷ es) db = omega (arith, write_le e db, bulk_le es (write_counter c org who e db))
