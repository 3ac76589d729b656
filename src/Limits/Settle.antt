-- ===== src/Limits/Settle.antt =====
-- After the request: the counters are moved from the estimate to the actual usage, or the hold is
-- released.
use tokenpanel.Prelude.{
  ℕ, ◌*◌, Bool, true, false, ◌&&◌, Option, none, some, List, [], ◌∷◌, ◌++◌, if◌then◌else◌, Text,
  same,
}
use tokenpanel.Prelude.Int.{ℤ, pos, neg, sub_ℕ, ◌-ℤ◌, leb_ℤ}
use tokenpanel.Limits.{
  Dimension, RateLimitRule, Usage, LimitHold, LimitReservation, rule_increment,
  resolve_scope_target, bucket_start_for, allows_cap_overshoot, hard_cap_room, clamp_settle_delta,
  min_ℤ,
}
use tokenpanel.Limits.Counters.{
  CounterWrite, CounterStore, find_window_counters, bulk_upsert_counters, sum_counts,
}
use tokenpanel.Limits.Writes.{coalesce_counter_writes}

abbrev pub write_hold : LimitHold → ℤ → CounterWrite
write_hold h n = record {
  dimension = h.dimension;
  window_seconds = h.window_seconds;
  bucket_start = h.bucket_start;
  scope_target = h.scope_target;
  increment = n;
}

abbrev pub write_rule : RateLimitRule → Option Text → ℕ → ℤ → CounterWrite
write_rule rule target now_ms n = record {
  dimension = rule.dimension;
  window_seconds = rule.window_seconds;
  bucket_start = bucket_start_for now_ms rule.window_seconds;
  scope_target = target;
  increment = n;
}

abbrev pub released : List LimitHold → List CounterWrite
released [] = []
released (h ∷ hs) =
    if leb_ℤ h.reserved (pos 0) then released hs else write_hold h (neg h.reserved) ∷ released hs

-- `new Map(holds.map((h) => [h.ruleId, h]))`: the last hold of an id counts.
abbrev pub hold_for : Text → List LimitHold → Option LimitHold
hold_for id [] = none
hold_for id (h ∷ hs) = elim (hold_for id hs) [
  | some x ↦ some x
  | none ↦ if same h.rule_id id then some h else none
]

abbrev pub is_among : Text → List Text → Bool
is_among id [] = false
is_among id (x ∷ xs) = if same x id then true else is_among id xs

-- The holds that no rule consumed.
abbrev pub orphans : List Text → List LimitHold → List LimitHold
orphans consumed [] = []
orphans consumed (h ∷ hs) =
    if is_among h.rule_id consumed then orphans consumed hs else h ∷ orphans consumed hs

abbrev pub is_zero : ℤ → Bool
is_zero n = leb_ℤ n (pos 0) && leb_ℤ (pos 0) n

module _ (c : CounterStore) where
  open c use {Db}

  unfoldable pub release_limits : Option LimitReservation → Db → Db
  unfolding coalesce_counter_writes bulk_upsert_counters
  release_limits none db = db
  release_limits (some r) db =
      bulk_upsert_counters c r.organization_id r.customer_id
        (coalesce_counter_writes (released r.holds)) db

  unfoldable pub window_sum : ℕ → Dimension → ℕ → Option Text → ℕ → Db → ℕ
  unfolding find_window_counters
  window_sum customer dimension window_seconds scope_target now_ms db = sum_counts (
      find_window_counters c customer dimension window_seconds
        (sub_ℕ now_ms (window_seconds * 1000)) scope_target db)

  -- What a hold's counter is moved by: nothing at all if the delta is 0.
  unfoldable pub settle_hold : ℕ → LimitHold → ℤ → ℕ → Db → List CounterWrite
  unfolding window_sum clamp_settle_delta
  settle_hold customer h actual now_ms db =
      let raw = actual -ℤ h.reserved in
      let delta =
        clamp_settle_delta h.dimension raw h.cap_value
          (window_sum customer h.dimension h.window_seconds h.scope_target now_ms db) in
      if is_zero raw
      then []
      else if leb_ℤ raw (pos 0)
      then write_hold h raw ∷ []
      else if allows_cap_overshoot h.dimension
      then write_hold h raw ∷ []
      else if is_zero delta
      then []
      else write_hold h delta ∷ []

  -- A rule that held nothing.
  unfoldable pub settle_unheld : ℕ → RateLimitRule → Option Text → ℤ → ℕ → Db → List CounterWrite
  unfolding window_sum hard_cap_room bucket_start_for
  settle_unheld customer rule target actual now_ms db =
      let room =
        hard_cap_room rule.cap_value
          (window_sum customer rule.dimension rule.window_seconds target now_ms db) in
      let increment = min_ℤ actual (pos room) in
      if leb_ℤ actual (pos 0)
      then []
      else if allows_cap_overshoot rule.dimension
      then write_rule rule target now_ms actual ∷ []
      else if leb_ℤ increment (pos 0)
      then []
      else write_rule rule target now_ms increment ∷ []

  -- The writes of the rules, and the ids of the holds that they consume.
  unfoldable pub settle_rules :
      ℕ → List RateLimitRule → List LimitHold → Usage → ℕ → Db → List CounterWrite × List Text
  unfolding settle_hold settle_unheld rule_increment resolve_scope_target
  settle_rules customer [] holds usage now_ms db = ([], [])
  settle_rules customer (rule ∷ rules) holds usage now_ms db =
      let (writes, consumed) = settle_rules customer rules holds usage now_ms db in
      let actual = rule_increment rule usage in
      if rule.active
      then elim (resolve_scope_target rule usage.model_alias_id) [
        | none ↦ (writes, consumed)
        | some target ↦ elim (hold_for rule.id holds) [
          | some h ↦ (settle_hold customer h actual now_ms db ++ writes, rule.id ∷ consumed)
          | none ↦ (settle_unheld customer rule target actual now_ms db ++ writes, consumed)
        ]
      ]
      else (writes, consumed)

  abbrev pub holds_of : Option LimitReservation → List LimitHold
  holds_of none = []
  holds_of (some r) = r.holds

  unfoldable pub settle_limits :
      Option LimitReservation → ℕ → ℕ → List RateLimitRule → Usage → ℕ → Db → Db
  unfolding settle_rules coalesce_counter_writes bulk_upsert_counters
  settle_limits reservation org customer rules usage now_ms db =
      let org_id : ℕ = elim reservation [ none ↦ org | some r ↦ r.organization_id ] in
      let customer_id : ℕ = elim reservation [ none ↦ customer | some r ↦ r.customer_id ] in
      let holds = holds_of reservation in
      let (writes, consumed) = settle_rules customer_id rules holds usage now_ms db in
      bulk_upsert_counters c org_id customer_id
        (coalesce_counter_writes (writes ++ released (orphans consumed holds))) db

  abbrev pub usage_writes : List RateLimitRule → Usage → ℕ → List CounterWrite
  usage_writes [] usage now_ms = []
  usage_writes (rule ∷ rules) usage now_ms =
      let rest = usage_writes rules usage now_ms in
      let increment = rule_increment rule usage in
      if leb_ℤ increment (pos 0)
      then rest
      else elim (resolve_scope_target rule usage.model_alias_id) [
        | none ↦ rest
        | some target ↦ write_rule rule target now_ms increment ∷ rest
      ]

  unfoldable pub record_usage : ℕ → ℕ → List RateLimitRule → Usage → ℕ → Db → Db
  unfolding rule_increment resolve_scope_target bucket_start_for coalesce_counter_writes
      bulk_upsert_counters
  record_usage org customer rules usage now_ms db =
      bulk_upsert_counters c org customer
        (coalesce_counter_writes (usage_writes rules usage now_ms)) db
