-- ===== src/Settlement/Outbox/Keys.antt =====
-- Gateway request ids: they fit the index, and compacting them twice is compacting them once.
use tokenpanel.Prelude.{
  ℕ, ◌≤◌, ◌<◌, ◌≡◌, refl, sym, ap, ◌∙◌, ◌⊎◌, inl, inr, Option, none, some, [], ◌∷◌, ◌++◌, arith,
  ltb, ◌==◌, Text, codes, length, length-append, take, Bool-cases, zero, suc, le→leb, lt→ltb,
  lt→leb_false, not_zero,
}
use tokenpanel.Settlement.Outbox.Service.{
  compact_gateway_request_id, resolve_gateway_request_id, provider_key,
}

module _ (sha256_hex : Text → Text) (hex_length : (s : Text) → length (sha256_hex s) ≡ 64) where
  abbrev compact : Text → Text
  compact = compact_gateway_request_id sha256_hex

  take_all : (n : ℕ) (s : Text) → length s ≤ n → take n s ≡ s
  take_all zero [] h = refl
  take_all zero (x ∷ s) h = absurd (omega arith)
  take_all (suc n) [] h = refl
  take_all (suc n) (x ∷ s) h = ap (◌∷◌ x) (take_all n s (omega arith))

  hashed_length : (raw : Text) → length (codes "gwh_" ++ sha256_hex raw) ≡ 68
  hashed_length raw = omega (arith, length-append (codes "gwh_") (sha256_hex raw), hex_length raw)

  compact_short : (raw : Text) → length raw ≤ 80 → compact raw ≡ raw
  unfolding compact_gateway_request_id
  compact_short raw h = elim (Bool-cases (length raw == 0)) [
    | inl empty ↦ rw empty
    | inr more ↦ rw (more, le→leb (length raw) 80 h)
  ]

  compact_long : (raw : Text) → 80 < length raw → compact raw ≡ codes "gwh_" ++ sha256_hex raw
  unfolding compact_gateway_request_id
  compact_long raw h =
      rw (not_zero (length raw) h, lt→leb_false (length raw) 80 h)
        (take_all 80 _ (omega (arith, hashed_length raw)))

  short_or_long : (raw : Text) → (length raw ≤ 80) ⊎ (80 < length raw)
  short_or_long raw = omega arith

  -- A compacted key is at most 80 characters long, and compacting it again changes nothing.
  pub compact_fits :
      (raw : Text) → (length (compact raw) ≤ 80) × (compact (compact raw) ≡ compact raw)
  compact_fits raw = (fits raw, compact_short (compact raw) (fits raw))
    where
      fits : (raw : Text) → length (compact raw) ≤ 80
      fits raw = elim (short_or_long raw) [
        | inl short ↦ rw (compact_short raw short) short
        | inr long ↦ rw (compact_long raw long) (omega (arith, hashed_length raw))
      ]

  -- How two request ids can come to share a key.
  pub data KeyClash (s t : Text) : Type 0 where
    equal : s ≡ t → KeyClash s t
    same_hash : sha256_hex s ≡ sha256_hex t → KeyClash s t
    spells_hash : t ≡ codes "gwh_" ++ sha256_hex s → KeyClash s t
    spelled_hash : s ≡ codes "gwh_" ++ sha256_hex t → KeyClash s t

  append_cancel : (p s t : Text) → p ++ s ≡ p ++ t → s ≡ t
  append_cancel [] s t e = e
  append_cancel (x ∷ p) s t e = append_cancel p s t (cc)

  -- Two request ids share a key only if they are equal, their hashes are, or one of them spells
  -- the hashed key of the other. So long ids never collide by being cut off.
  pub compact_collision : (s t : Text) → compact s ≡ compact t → KeyClash s t
  compact_collision s t e = elim (short_or_long s) [
    | inl short ↦ elim (short_or_long t) [
      | inl short' ↦ equal (sym (compact_short s short) ∙ e ∙ compact_short t short')
      | inr long' ↦ spelled_hash (sym (compact_short s short) ∙ e ∙ compact_long t long')
    ]
    | inr long ↦ elim (short_or_long t) [
      | inl short' ↦ spells_hash (sym (compact_short t short') ∙ sym e ∙ compact_long s long)
      | inr long' ↦
          same_hash (
            append_cancel (codes "gwh_") _ _ (sym (compact_long s long) ∙ e ∙ compact_long t long'))
    ]
  ]

  -- The key that a retry resolves to: with a request id of the caller or of the provider it does
  -- not depend on the id that would be minted, and the outbox and the ledger, which compact it
  -- again, keep it as it is.
  pub resolve_stable :
      (key : Option Text) (request hex fresh fresh' : Text)
      → 0 < length request
      → let resolved = resolve_gateway_request_id sha256_hex key (some request) hex fresh in
        (resolve_gateway_request_id sha256_hex key (some request) hex fresh' ≡ resolved)
        × (compact resolved ≡ resolved)
  unfolding resolve_gateway_request_id
  resolve_stable none request hex fresh fresh' h =
      rw (lt→ltb 0 (length request) h) (refl, (compact_fits (provider_key request hex)).1)
  resolve_stable (some key) request hex fresh fresh' h = elim (Bool-cases (ltb 0 (length key))) [
    | inl given ↦ rw given (refl, (compact_fits key).1)
    | inr empty ↦
        rw (empty, lt→ltb 0 (length request) h) (refl, (compact_fits (provider_key request hex)).1)
  ]
