-- ===== src/Settlement/Outbox/Enqueue.antt =====
-- Enqueueing is idempotent on the gateway request id.
use tokenpanel.Prelude.{
  ℕ, ◌≡◌, refl, sym, subst, ap, ◌∙◌, inl, inr, true, false, Option, none, some, List, [], ◌∷◌,
  arith, same, same_iff, ◌==◌, Text, Bool-cases, Option-cases, ◌++◌,
}
use tokenpanel.Mongo.{Collection, IsCollection, find_first, any}
use tokenpanel.Settlement.Outbox.{decodes_enqueued, Row, Failure, Result, ok, err}
use tokenpanel.Settlement.Outbox.Service.{
  clash, EnqueueOutboxParams, enqueued_row, insert_or_get, enqueue_settlement_outbox,
  compact_gateway_request_id,
}

-- The row that holds a gateway request id.
abbrev pub holder : Text → List Row → Option Row
holder k rows = find_first (λ r. same r.gateway_request_id k) rows

-- A row that holds the id stands in the way of an insert, and without one only the `_id` does.
held-clash :
    (doc x : Row) (rows : List Row)
    → holder doc.gateway_request_id rows ≡ some x
    → any (clash doc) rows ≡ true
unfolding clash
held-clash doc x [] h = cc
held-clash doc x (r ∷ rows) h = ground (
  arith,
  held-clash doc x rows,
  same_iff r.gateway_request_id doc.gateway_request_id,
  same_iff doc.gateway_request_id r.gateway_request_id,
)

free-clash :
    (doc : Row) (rows : List Row)
    → holder doc.gateway_request_id rows ≡ none
    → any (λ r. r.id == doc.id) rows ≡ false
    → any (clash doc) rows ≡ false
unfolding clash
free-clash doc [] h f = refl
free-clash doc (r ∷ rows) h f = ground (
  arith,
  free-clash doc rows,
  same_iff r.gateway_request_id doc.gateway_request_id,
  same_iff doc.gateway_request_id r.gateway_request_id,
)

holder-append :
    (k : Text) (rows : List Row) (doc : Row)
    → holder k rows ≡ none
    → doc.gateway_request_id ≡ k
    → holder k (rows ++ doc ∷ []) ≡ some doc
holder-append k [] doc h e = ground (arith, same_iff doc.gateway_request_id k)
holder-append k (r ∷ rows) doc h e = ground (arith, holder-append k rows doc)

module _ (c : Collection Row) (laws : IsCollection c clash) where
  open c use {Db, rows}

  -- With a holder in place, `insert_or_get` answers with its id and changes nothing.
  insert_or_get-held :
      (doc x : Row) (db : Db)
      → decodes_enqueued doc ≡ true
      → holder doc.gateway_request_id (rows db) ≡ some x
      → insert_or_get c doc db ≡ (ok x.id, db)
  unfolding insert_or_get
  insert_or_get-held doc x db fine h = rw (
    fine,
    laws.insert_clash doc db (held-clash doc x (rows db) h),
    laws.find_one_lem (λ r. same r.gateway_request_id doc.gateway_request_id) db,
    h,
  )

  -- Only the schema refuses a document, and then nothing changes.
  pub insert_or_get-refused :
      (doc : Row) (e : Failure) (db db₁ : Db)
      → insert_or_get c doc db ≡ (err e, db₁)
      → (decodes_enqueued doc ≡ false) × (db₁ ≡ db)
  unfolding insert_or_get
  insert_or_get-refused doc e db db₁ h = elim (Bool-cases (decodes_enqueued doc)) [
    | inr bad ↦ (bad, cc (rw (bad, insert_or_get) at h))
    | inl fine ↦ elim (Option-cases (c.insert_one doc db)) [
      | inr (db', new) ↦ cc (rw (fine, insert_or_get, new) at h)
      | inl clashes ↦
          elim (Option-cases
            (c.find_one (λ r. same r.gateway_request_id doc.gateway_request_id) db)) [
              | inl n ↦ cc (rw (fine, insert_or_get, clashes, n) at h)
              | inr (x, n) ↦ cc (rw (fine, insert_or_get, clashes, n) at h)
            ]
    ]
  ]

  -- After an `insert_or_get` that succeeds, the row whose id it gave holds the gateway request id.
  pub insert_or_get-holds :
      (doc : Row) (i : ℕ) (db db₁ : Db)
      → any (λ r. r.id == doc.id) (rows db) ≡ false
      → insert_or_get c doc db ≡ (ok i, db₁)
      → (x : Row) × (holder doc.gateway_request_id (rows db₁) ≡ some x) × (x.id ≡ i)
  unfolding insert_or_get
  insert_or_get-holds doc i db db₁ fresh e = elim (Bool-cases (decodes_enqueued doc)) [
    | inr bad ↦ cc (rw (bad, insert_or_get) at e)
    | inl fine ↦ elim (Option-cases (holder doc.gateway_request_id (rows db))) [
      | inl free ↦
          let (new, made, shape) = laws.insert_new doc db (free-clash doc (rows db) free fresh) in
          let same_state : (ok doc.id, new) ≡ (ok i, db₁) = rw (fine, insert_or_get, made) at e in
          (
            doc,
            subst (λ d. holder doc.gateway_request_id (rows d) ≡ some doc)
                (ap (λ (x : Result ℕ × Db). x.1) same_state)
                (rw shape (holder-append doc.gateway_request_id (rows db) doc free refl)),
            cc same_state,
          )
      | inr (x, h) ↦
          let same_state : (ok x.id, db) ≡ (ok i, db₁) =
            sym (insert_or_get-held doc x db fine h) ∙ e in
          (
            x,
            subst (λ d. holder doc.gateway_request_id (rows d) ≡ some x)
                (ap (λ (x : Result ℕ × Db). x.1) same_state) h,
            cc same_state,
          )
    ]
  ]

  module _ (sha256_hex : Text → Text) where
    -- After an enqueueing that succeeded, another under the same gateway request id, at any time and
    -- with any other particulars, adds no row and answers with the id of the first. The second document
    -- is one that the schema accepts: its four optional fields are given. The first one's id is fresh.
    pub enqueue_twice :
        (p p' : EnqueueOutboxParams) (id id' now now' i : ℕ) (db db₁ : Db)
        → any (λ r. r.id == id) (rows db) ≡ false
        → compact_gateway_request_id sha256_hex p.gateway_request_id
          ≡ compact_gateway_request_id sha256_hex p'.gateway_request_id
        → decodes_enqueued (enqueued_row sha256_hex p' id' now') ≡ true
        → enqueue_settlement_outbox sha256_hex c p id now db ≡ (ok i, db₁)
        → enqueue_settlement_outbox sha256_hex c p' id' now' db₁ ≡ (ok i, db₁)
    unfolding enqueue_settlement_outbox
    enqueue_twice p p' id id' now now' i db db₁ fresh key fine e =
        let (x, h, named) =
          insert_or_get-holds (enqueued_row sha256_hex p id now) i db db₁ fresh e in
        insert_or_get-held (enqueued_row sha256_hex p' id' now') x db₁ fine
          (subst (λ k. holder k (rows db₁) ≡ some x) key h)
        ∙ ap (λ (j : ℕ). (ok j, db₁)) named
