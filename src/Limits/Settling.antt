-- ===== src/Limits/Settling.antt =====
-- What the settlement of a request does to a hard cap.
use tokenpanel.Prelude.{
  ℕ, ◌-◌, ◌*◌, ◌≤◌, ◌≡◌, refl, ap, max, Bool, true, false, List, [], ◌∷◌, arith, if◌then◌else◌,
  Option, Bool-cases, inl, inr, Text,
}
use tokenpanel.Prelude.Int.{ℤ, pos, pos_part, ◌-ℤ◌, sub_ℕ, leb_ℤ}
use tokenpanel.Limits.{
  Dimension, LimitHold, allows_cap_overshoot, hard_cap_room, clamp_settle_delta,
}
use tokenpanel.Limits.Counters.{
  CounterWrite, CounterStore, IsCounterStore, filter, in_window, new_counter, sum_counts,
  find_window_counters, bulk_upsert_counters,
}
use tokenpanel.Limits.Windows.{added, bulk_le}
use tokenpanel.Limits.Settle.{is_zero, write_hold, window_sum, settle_hold}

nonpositive : (raw : ℤ) (room : ℕ) → leb_ℤ raw (pos 0) ≡ true → pos_part raw ≤ room
nonpositive raw room h = ground arith

module _ (c : CounterStore) (laws : IsCounterStore c) (org customer now_ms : ℕ) where
  open c use {Db, rows}

  -- A list of writes, none or one, whose increment is at most the room.
  AtMostRoom : List CounterWrite → ℕ → Type 0
  AtMostRoom [] room = Unit
  AtMostRoom (e ∷ []) room = pos_part e.increment ≤ room
  AtMostRoom (e ∷ f ∷ es) room = ⊥

  sum_lem :
      (d : Dimension) (w : ℕ) (t : Option Text) (db : Db)
      → window_sum c customer d w t now_ms db
        ≡ sum_counts (filter (in_window customer d w (sub_ℕ now_ms (w * 1000)) t) (rows db))
  unfolding window_sum find_window_counters
  sum_lem d w t db =
      ap sum_counts (laws.find_lem (in_window customer d w (sub_ℕ now_ms (w * 1000)) t) db)

  added_room :
      (d : Dimension) (w : ℕ) (start : ℤ) (t : Option Text) (es : List CounterWrite) (room : ℕ)
      → AtMostRoom es room
      → added customer d w start t c laws org customer es ≤ room
  unfolding AtMostRoom
  added_room d w start t [] room h = omega arith
  added_room d w start t (e ∷ []) room h =
      elim (Bool-cases (in_window customer d w start t (new_counter org customer e))) [
        | inl x ↦ rw x (omega (arith, h))
        | inr x ↦ rw x (omega arith)
      ]
  added_room d w start t (e ∷ f ∷ es) room h = elim h [ ]

  room_kept :
      (d : Dimension) (w : ℕ) (t : Option Text) (es : List CounterWrite) (cap : ℕ) (db : Db)
      → AtMostRoom es (cap - window_sum c customer d w t now_ms db)
      → window_sum c customer d w t now_ms (bulk_upsert_counters c org customer es db)
        ≤ max (window_sum c customer d w t now_ms db) cap
  room_kept d w t es cap db h =
      let start = sub_ℕ now_ms (w * 1000) in
      omega (
        arith,
        sum_lem d w t db,
        sum_lem d w t (bulk_upsert_counters c org customer es db),
        bulk_le customer d w start t c laws org customer es db,
        added_room d w start t es (cap - window_sum c customer d w t now_ms db) h,
      )

  clamped :
      (d : Dimension) (delta : ℤ) (cap sum : ℕ)
      → allows_cap_overshoot d ≡ false
      → leb_ℤ delta (pos 0) ≡ false
      → pos_part (clamp_settle_delta d delta cap sum) ≤ cap - sum
  unfolding clamp_settle_delta hard_cap_room
  clamped d delta cap sum hard h = rw (hard, h) (ground arith)

  chosen :
      (h : LimitHold) (z l o y : Bool) (raw delta : ℤ) (room : ℕ)
      → o ≡ false
      → (l ≡ true → pos_part raw ≤ room)
      → (l ≡ false → pos_part delta ≤ room)
      → AtMostRoom
          (if z
            then []
            else if l
            then write_hold h raw ∷ []
            else if o
            then write_hold h raw ∷ []
            else if y
            then []
            else write_hold h delta ∷ [])
          room
  unfolding AtMostRoom
  chosen h true l o y raw delta room e p q = tt
  chosen h false true o y raw delta room e p q = p refl
  chosen h false false true y raw delta room e p q = ground arith
  chosen h false false false true raw delta room e p q = tt
  chosen h false false false false raw delta room e p q = q refl

  hold_room :
      (h : LimitHold) (actual : ℤ) (db : Db)
      → allows_cap_overshoot h.dimension ≡ false
      → AtMostRoom (settle_hold c customer h actual now_ms db) (
          h.cap_value - window_sum c customer h.dimension h.window_seconds h.scope_target now_ms db)
  unfolding settle_hold
  hold_room h actual db hard =
      let raw = actual -ℤ h.reserved in
      let sum = window_sum c customer h.dimension h.window_seconds h.scope_target now_ms db in
      chosen h (is_zero raw) (leb_ℤ raw (pos 0)) (allows_cap_overshoot h.dimension)
        (is_zero (clamp_settle_delta h.dimension raw h.cap_value sum)) raw
        (clamp_settle_delta h.dimension raw h.cap_value sum) (h.cap_value - sum) hard
        (nonpositive raw (h.cap_value - sum)) (clamped h.dimension raw h.cap_value sum hard)

  -- Whatever the usage, the settlement of a hold with a hard cap leaves its window's sum within the
  -- cap, or no higher than it was.
  pub settle_hold_keeps_cap :
      (h : LimitHold) (actual : ℤ) (db : Db)
      → allows_cap_overshoot h.dimension ≡ false
      → window_sum c customer h.dimension h.window_seconds h.scope_target now_ms
          (bulk_upsert_counters c org customer (settle_hold c customer h actual now_ms db) db)
        ≤ max
            (window_sum c customer h.dimension h.window_seconds h.scope_target now_ms db)
            h.cap_value
  settle_hold_keeps_cap h actual db hard =
      room_kept h.dimension h.window_seconds h.scope_target
        (settle_hold c customer h actual now_ms db) h.cap_value db (hold_room h actual db hard)
