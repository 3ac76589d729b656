-- ===== src/Limits/FallsIn.antt =====
-- Which writes of a request fall into a window.
use tokenpanel.Prelude.{
  ℕ, ◌≤◌, ◌≡◌, ap, ◌∙◌, sym, Bool, true, false, ◌&&◌, List, [], ◌∷◌, arith, All, ==_iff, Bool-cases,
  inl, inr,
}
use tokenpanel.Prelude.Int.{ℤ}
use tokenpanel.Limits.{
  Dimension, stream_dimension, same_dimension, dimension_code, allows_cap_overshoot,
  bucket_start_for,
}
use tokenpanel.Limits.Keyed.{put_all-All}
use tokenpanel.Limits.Counters.{CounterWrite, CounterStore, IsCounterStore, in_window, new_counter}
use tokenpanel.Limits.Writes.{key_target, same_write_key, merge_writes, coalesce_counter_writes}
use tokenpanel.Limits.Writes.Coalesce.{parts→key, claimed}
use tokenpanel.Limits.Windows.{added, same_target-eq}

-- A write to the bucket of a time.
abbrev pub AtTime : ℕ → CounterWrite → Type 0
AtTime now_ms e = e.bucket_start ≡ bucket_start_for now_ms e.window_seconds

pub coalesce-AtTime :
    (now_ms : ℕ) (es : List CounterWrite)
    → All (AtTime now_ms) es
    → All (AtTime now_ms) (coalesce_counter_writes es)
unfolding coalesce_counter_writes same_write_key
coalesce-AtTime now_ms es h =
    put_all-All same_write_key merge_writes (AtTime now_ms) es [] (λ x a e p q. p) h tt

and5 :
    (p q r s t : Bool)
    → (p && q && r && s && t) ≡ true
    → (p ≡ true) × (q ≡ true) × (r ≡ true) × (s ≡ true) × (t ≡ true)
and5 p q r s t h = ground arith

hard_dimension :
    (a d : Dimension)
    → allows_cap_overshoot d ≡ false
    → same_dimension (stream_dimension (stream_dimension a)) (stream_dimension d) ≡ true
    → dimension_code a ≡ dimension_code d
hard_dimension a d h k = ground arith

-- A write of the time that falls into the window of a hard cap is for the counter of its own write.
falls_in :
    (customer org now_ms : ℕ) (start : ℤ) (k e : CounterWrite)
    → allows_cap_overshoot k.dimension ≡ false
    → AtTime now_ms k
    → AtTime now_ms e
    → in_window customer k.dimension k.window_seconds start k.scope_target
        (new_counter org customer e)
      ≡ true
    → same_write_key e k ≡ true
unfolding in_window
falls_in customer org now_ms start k e hard tk te h =
    let (c, d, w, b, t) = and5 _ _ _ _ _ h in
    let we = (==_iff e.window_seconds k.window_seconds).0 w in
    parts→key e k (
      hard_dimension e.dimension k.dimension hard d,
      we,
      te ∙ ap (bucket_start_for now_ms) we ∙ sym tk,
      ap key_target (same_target-eq e.scope_target k.scope_target t),
    )

module _ (c : CounterStore) (laws : IsCounterStore c) (org customer now_ms : ℕ) where
  open c use {Db, rows}

  pub added_le :
      (start : ℤ) (k : CounterWrite) (es : List CounterWrite)
      → allows_cap_overshoot k.dimension ≡ false
      → AtTime now_ms k
      → All (AtTime now_ms) es
      → added customer k.dimension k.window_seconds start k.scope_target c laws org customer es
        ≤ claimed k es
  added_le start k [] hard tk h = omega arith
  added_le start k (e ∷ es) hard tk h =
      let rest = added_le start k es hard tk h.1 in
      elim (Bool-cases (
        in_window customer k.dimension k.window_seconds start k.scope_target
          (new_counter org customer e))) [
            | inl t ↦
                rw (t, falls_in customer org now_ms start k e hard tk h.0 t) (omega (arith, rest))
            | inr t ↦ rw t (omega (arith, rest))
          ]
