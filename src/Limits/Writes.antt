-- ===== src/Limits/Writes.antt =====
-- Writes of one request to the counters, and the limits of a stream's window.
pub mod Coalesce
use tokenpanel.Prelude.{
  ℕ, ◌+◌, ◌-◌, ◌*◌, ◌/◌, max, min, Bool, true, false, ◌&&◌, Option, none, some, List, [], ◌∷◌, ◌==◌,
  ltb, if◌then◌else◌, Text, same,
}
use tokenpanel.Prelude.Int.{ℤ, pos, leb_ℤ}
use tokenpanel.Limits.{same_dimension, min_ℤ, max_ℤ}
use tokenpanel.Limits.Counters.{Counter, CounterWrite}
use tokenpanel.Limits.Keyed.{put_all}

abbrev pub key_target : Option Text → Text
key_target none = []
key_target (some t) = t

-- The parts of `counterWriteKey`; the source joins them with NUL characters.
unfoldable pub same_write_key : CounterWrite → CounterWrite → Bool
same_write_key a b =
    same_dimension a.dimension b.dimension
    && a.window_seconds == b.window_seconds
    && a.bucket_start == b.bucket_start
    && same (key_target a.scope_target) (key_target b.scope_target)

abbrev pub merged : ℤ → ℤ → ℤ
merged prev next =
    if leb_ℤ (pos 0) prev && leb_ℤ (pos 0) next
    then min_ℤ prev next
    else if leb_ℤ prev (pos 0) && leb_ℤ next (pos 0)
    then max_ℤ prev next
    else prev

abbrev pub merge_writes : CounterWrite → CounterWrite → CounterWrite
merge_writes prev e = record prev { increment = merged prev.increment e.increment }

unfoldable pub coalesce_counter_writes : List CounterWrite → List CounterWrite
unfolding same_write_key
coalesce_counter_writes entries = put_all same_write_key merge_writes entries []
