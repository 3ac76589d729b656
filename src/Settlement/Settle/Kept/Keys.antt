-- ===== src/Settlement/Settle/Kept/Keys.antt =====
-- The key of a row that is enqueued is never empty.
use tokenpanel.Prelude.{
  ◌≡◌, true, false, Option, none, some, arith, Bool-cases, inl, inr, Text, ltb, leb, lt→ltb, length,
  ◌==◌,
}
use tokenpanel.Settlement.Outbox.Service.{
  compact_gateway_request_id, resolve_gateway_request_id, from_provider, provider_key,
}

module _ (sha256_hex : Text → Text) where
  pub compact_filled :
      (raw : Text)
      → ltb 0 (length raw) ≡ true
      → ltb 0 (length (compact_gateway_request_id sha256_hex raw)) ≡ true
  unfolding compact_gateway_request_id
  compact_filled raw h =
      let z : (length raw == 0) ≡ false = ground (arith, h) in
      elim (Bool-cases (leb (length raw) 80)) [
        | inl e ↦ rw (z, e) h
        | inr e ↦ rw (z, e) (lt→ltb 0 _ (omega arith))
      ]

  pub from_provider_filled :
      (request : Option Text) (hex fresh : Text)
      → ltb 0 (length fresh) ≡ true
      → ltb 0 (length (from_provider sha256_hex request hex fresh)) ≡ true
  unfolding from_provider provider_key
  from_provider_filled none hex fresh h = h
  from_provider_filled (some request) hex fresh h = elim (Bool-cases (ltb 0 (length request))) [
    | inl e ↦ rw e (compact_filled (provider_key request hex) (lt→ltb 0 _ (omega arith)))
    | inr e ↦ rw e h
  ]

  pub resolve_filled :
      (key request : Option Text) (hex fresh : Text)
      → ltb 0 (length fresh) ≡ true
      → ltb 0 (length (resolve_gateway_request_id sha256_hex key request hex fresh)) ≡ true
  unfolding resolve_gateway_request_id
  resolve_filled none request hex fresh h = from_provider_filled request hex fresh h
  resolve_filled (some key) request hex fresh h = elim (Bool-cases (ltb 0 (length key))) [
    | inl e ↦ rw e (compact_filled key e)
    | inr e ↦ rw e (from_provider_filled request hex fresh h)
  ]
