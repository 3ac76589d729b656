-- ===== src/Settlement/Settle/Found.antt =====
-- What the look-ups and the steps of a settlement tell of the state they give.
use tokenpanel.Prelude.{
  ◌≡◌, refl, sym, Bool, true, false, Option, none, some, List, [], ◌∷◌, ◌++◌, arith, Bool-cases,
  inl, inr, Text, same_refl, if◌then◌else◌,
}
use tokenpanel.Mongo.{Collection, IsCollection, find_first}
use tokenpanel.Mongo.Laws.{appended}
use tokenpanel.Settlement.Settle.Record.{
  UsageRecord, accepts, has_key, SettleResult, done, failed, find_by_gateway_request_id, checked,
  stored, SettleError, clash,
}

-- The record under a key, of those whose schema holds.
abbrev pub holder : Text → List UsageRecord → Option UsageRecord
holder key rows = find_first (has_key key) rows

abbrev pub IsRecorded : Text → List UsageRecord → Type 0
IsRecorded key rows = (r : UsageRecord) × (holder key rows ≡ some r) × (accepts r ≡ true)

-- What holds of a state, if the result is one.
unfoldable pub OnDone : {A : Type 0} → (A → Type 0) → SettleResult A → Type 0
OnDone P (done a) = P a
OnDone P (failed e) = Unit

pub OnDone-map :
    {A : Type 0} (P Q : A → Type 0) (r : SettleResult A)
    → ((a : A) → P a → Q a)
    → OnDone P r
    → OnDone Q r
unfolding OnDone
OnDone-map P Q (done a) f h = f a h
OnDone-map P Q (failed e) f h = tt

pub in_done : {A : Type 0} (P : A → Type 0) (a : A) → OnDone P (done a) → P a
unfolding OnDone
in_done P a h = h

module _ (c : Collection UsageRecord) (laws : IsCollection c clash) where
  -- A record that is there is found.
  pub found_recorded :
      (key : Text) (db : c.Db)
      → IsRecorded key (c.rows db)
      → find_by_gateway_request_id c key db ≡ done true
  unfolding find_by_gateway_request_id
  found_recorded key db (r, h, a) = rw (laws.find_one_lem (has_key key) db, h, a) refl

  -- What a look-up tells.
  unfoldable pub Tells : Text → c.Db → SettleResult Bool → Type 0
  Tells key db (done true) = IsRecorded key (c.rows db)
  Tells key db (done false) = holder key (c.rows db) ≡ none
  Tells key db (failed e) = Unit

  checked-Tells :
      (key : Text) (db : c.Db) (o : Option UsageRecord)
      → holder key (c.rows db) ≡ o
      → Tells key db (checked o)
  unfolding Tells
  checked-Tells key db none h = h
  checked-Tells key db (some r) h = elim (Bool-cases (accepts r)) [
    | inl a ↦ rw a (r, h, a)
    | inr a ↦ rw a tt
  ]

  pub find-Tells : (key : Text) (db : c.Db) → Tells key db (find_by_gateway_request_id c key db)
  unfolding find_by_gateway_request_id
  find-Tells key db =
      checked-Tells key db (c.find_one (has_key key) db) (sym (laws.find_one_lem (has_key key) db))

pub holder-append :
    (key : Text) (rows : List UsageRecord) (r : UsageRecord)
    → holder key rows ≡ none
    → r.gateway_request_id ≡ some key
    → holder key (rows ++ r ∷ []) ≡ some r
holder-append key [] r h e = rw (e, same_refl key) refl
holder-append key (x ∷ rows) r h e = ground (arith, holder-append key rows r)

module _ {A : Type 0} (c : Collection A) {clash : A → A → Bool} (laws : IsCollection c clash) where
  -- What an insert that is accepted has stored.
  abbrev pub Appends : A → c.Db → c.Db → Type 0
  Appends a db db' = c.rows db' ≡ c.rows db ++ a ∷ []

  stored-Appends :
      (a : A) (db : c.Db) (o : Option c.Db)
      → c.insert_one a db ≡ o
      → OnDone (Appends a db) (stored o)
  unfolding OnDone
  stored-Appends a db none e = tt
  stored-Appends a db (some db') e = appended c laws a db db' e

  -- Behind a guard, the guard has passed.
  pub guarded-Appends :
      (b : Bool) (e : SettleError) (a : A) (db : c.Db)
      → OnDone
          (λ db'. Appends a db db' × (b ≡ true))
          (if b then stored (c.insert_one a db) else failed e)
  unfolding OnDone
  guarded-Appends true e a db =
      OnDone-map (Appends a db) (λ db'. Appends a db db' × (true ≡ true))
        (stored (c.insert_one a db)) (λ db' h. (h, refl))
        (stored-Appends a db (c.insert_one a db) refl)
  guarded-Appends false e a db = tt

  pub inserted-Appends :
      (b : Bool) (e : SettleError) (a : A) (db : c.Db)
      → OnDone (Appends a db) (if b then stored (c.insert_one a db) else failed e)
  inserted-Appends b e a db =
      OnDone-map (λ db'. Appends a db db' × (b ≡ true)) (Appends a db) _ (λ db' h. h.0)
        (guarded-Appends b e a db)
