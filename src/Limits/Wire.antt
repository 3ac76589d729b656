-- ===== src/Limits/Wire.antt =====
-- A reservation as the outbox carries it: `serializeLimitReservation` and `parseLimitReservation`.
-- `Date.prototype.toISOString` and `new Date(text)` of the language are parameters.
use tokenpanel.Prelude.{
  ℕ, ◌≡◌, ◌≤◌, refl, sym, subst, ap, le→leb, Option, none, some, List, [], ◌∷◌, leb, Text,
  if◌then◌else◌, All, ◌>>=◌,
}
use tokenpanel.Prelude.Int.{ℤ, pos, pos_part, neg_part, at_least_zero}
use tokenpanel.Providers.ProviderUsage.{max_safe}
use tokenpanel.Limits.{Dimension, LimitHold, LimitReservation}

-- A hold in JSON. `none` is a field that is absent or of another type than the reader asks for; the
-- scope target of a hold without one is null.
pub record LimitHoldWire : Type 0 where
  pub rule_id : Option Text
  pub dimension : Option Dimension
  pub window_seconds : Option ℕ
  pub bucket_start : Option Text
  pub scope_target : Option Text
  pub reserved : Option ℤ
  pub cap_value : Option ℕ

abbrev safe : Option ℕ → Option ℕ
safe none = none
safe (some n) = if leb n max_safe then some n else none

abbrev safe_ℤ : Option ℤ → Option ℤ
safe_ℤ none = none
safe_ℤ (some n) =
    if leb (pos_part n) max_safe then (if leb (neg_part n) max_safe then some n else none) else none

module _ (to_iso_string : ℕ → Text) where
  unfoldable pub wire_of : LimitHold → LimitHoldWire
  wire_of h = record {
    rule_id = some h.rule_id;
    dimension = some h.dimension;
    window_seconds = some h.window_seconds;
    bucket_start = some (to_iso_string h.bucket_start);
    scope_target = h.scope_target;
    reserved = some h.reserved;
    cap_value = some h.cap_value;
  }

  abbrev pub wires : List LimitHold → List LimitHoldWire
  wires [] = []
  wires (h ∷ hs) = wire_of h ∷ wires hs

  abbrev unless_empty : List LimitHoldWire → Option (List LimitHoldWire)
  unless_empty [] = none
  unless_empty (w ∷ ws) = some (w ∷ ws)

  unfoldable pub serialize_limit_reservation : Option LimitReservation → Option (List LimitHoldWire)
  unfolding wire_of
  serialize_limit_reservation none = none
  serialize_limit_reservation (some r) = unless_empty (wires r.holds)

module _ (parse_date : Text → Option ℕ) where
  abbrev date_of : Option Text → Option ℕ
  date_of none = none
  date_of (some t) = parse_date t

  -- One hold of the wire: each guard that fails skips it.
  unfoldable pub hold_of_wire : LimitHoldWire → Option LimitHold
  hold_of_wire w = do
    rule_id ← w.rule_id
    dimension ← w.dimension
    window_seconds ← safe w.window_seconds
    reserved ← safe_ℤ w.reserved
    cap_value ← w.cap_value
    bucket_start ← date_of w.bucket_start
    some (record {
      rule_id = rule_id;
      dimension = dimension;
      window_seconds = window_seconds;
      bucket_start = bucket_start;
      scope_target = w.scope_target;
      reserved = at_least_zero reserved;
      cap_value = cap_value;
    })

  abbrev keep : Option LimitHold → List LimitHold → List LimitHold
  keep none hs = hs
  keep (some h) hs = h ∷ hs

  abbrev pub holds_of_wire : List LimitHoldWire → List LimitHold
  holds_of_wire [] = []
  holds_of_wire (w ∷ ws) = keep (hold_of_wire w) (holds_of_wire ws)

  abbrev unless_none : ℕ → ℕ → List LimitHold → Option LimitReservation
  unless_none org customer [] = none
  unless_none org customer (h ∷ hs) =
      some (record { organization_id = org; customer_id = customer; holds = h ∷ hs })

  -- `none` on the wire is a value that is not an array.
  unfoldable pub parse_limit_reservation :
      ℕ → ℕ → Option (List LimitHoldWire) → Option LimitReservation
  unfolding hold_of_wire
  parse_limit_reservation org customer none = none
  parse_limit_reservation org customer (some ws) = unless_none org customer (holds_of_wire ws)

-- A hold as a reservation makes it: what it claims is not negative, and sizes are safe integers.
abbrev pub IsStorable : LimitHold → Type 0
IsStorable h = (h.window_seconds ≤ max_safe) × ((n : ℕ) × (h.reserved ≡ pos n) × (n ≤ max_safe))

module _ (to_iso_string : ℕ → Text) (parse_date : Text → Option ℕ)
    (dates : (t : ℕ) → parse_date (to_iso_string t) ≡ some t) where
  fields_back :
      (id : Text) (d : Dimension) (w t n cap : ℕ) (target : Option Text)
      → w ≤ max_safe
      → n ≤ max_safe
      → (let h : LimitHold = record {
        rule_id = id;
        dimension = d;
        window_seconds = w;
        bucket_start = t;
        scope_target = target;
        reserved = pos n;
        cap_value = cap;
      } in
          hold_of_wire parse_date (wire_of to_iso_string h) ≡ some h)
  unfolding hold_of_wire wire_of
  fields_back id d w t n cap target hw hn =
      rw (le→leb w max_safe hw, le→leb n max_safe hn, dates t) refl

  hold_back :
      (h : LimitHold) → IsStorable h → hold_of_wire parse_date (wire_of to_iso_string h) ≡ some h
  hold_back h (w, (n, e, l)) =
      subst
        (λ m.
          hold_of_wire parse_date (wire_of to_iso_string (record h { reserved = m }))
          ≡ some (record h { reserved = m }))
        (sym e)
        (fields_back h.rule_id h.dimension h.window_seconds h.bucket_start n h.cap_value
          h.scope_target w l)

  holds_back :
      (hs : List LimitHold)
      → All IsStorable hs
      → holds_of_wire parse_date (wires to_iso_string hs) ≡ hs
  holds_back [] s = refl
  holds_back (h ∷ hs) (s, rest) = rw (hold_back h s) (ap (λ xs. h ∷ xs) (holds_back hs rest))

  -- A reservation that the outbox carried comes back as it was, where it held anything; one that
  -- held nothing comes back as none.
  pub reservation_back :
      (r : LimitReservation)
      → All IsStorable r.holds
      → parse_limit_reservation parse_date r.organization_id r.customer_id
          (serialize_limit_reservation to_iso_string (some r))
        ≡ elim r.holds [ [] ↦ none | h ∷ hs ↦ some r ]
  unfolding parse_limit_reservation serialize_limit_reservation
  reservation_back r s = by_holds r.organization_id r.customer_id r.holds s
    where
      by_holds :
          (org customer : ℕ) (hs : List LimitHold)
          → All IsStorable hs
          → (let r : LimitReservation = record {
            organization_id = org;
            customer_id = customer;
            holds = hs;
          } in
              parse_limit_reservation parse_date org customer
                (serialize_limit_reservation to_iso_string (some r))
              ≡ elim hs [ [] ↦ none | h ∷ hs ↦ some r ])
      by_holds org customer [] s = refl
      by_holds org customer (h ∷ hs) s =
          ap (unless_none parse_date org customer) (holds_back (h ∷ hs) s)
