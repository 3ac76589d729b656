-- ===== src/Limits/Streams.antt =====
-- Which rules are in force: one rule for a stream, the strictest.
use tokenpanel.Prelude.{
  ℕ, ◌+◌, Bool, true, false, ◌&&◌, Option, none, some, List, [], ◌∷◌, ◌==◌, ltb, if◌then◌else◌,
  Text, same,
}
use tokenpanel.Limits.{
  RateLimitRule, Scope, customer, plan, model, stream_dimension, same_dimension,
}
use tokenpanel.Limits.Keyed.{put_all}

-- `rateLimitStreamScope`: whether the stream is a model's.
abbrev pub is_model_scope : Scope → Bool
is_model_scope customer = false
is_model_scope plan = false
is_model_scope model = true

abbrev text_or_empty : Option Text → Text
text_or_empty none = []
text_or_empty (some t) = t

abbrev pub active_rules : List RateLimitRule → List RateLimitRule
active_rules [] = []
active_rules (r ∷ rs) = if r.active then r ∷ active_rules rs else active_rules rs

abbrev pub stricter : RateLimitRule → RateLimitRule → RateLimitRule
stricter prev r = if ltb r.cap_value prev.cap_value then r else prev

abbrev pub same_id : RateLimitRule → RateLimitRule → Bool
same_id a b = same a.id b.id

-- `normalize` is `trim().toLowerCase()`.
module _ (normalize : Text → Text) where
  unfoldable pub stream_target : RateLimitRule → Text
  stream_target r = if is_model_scope r.scope then normalize (text_or_empty r.scope_target) else []

  -- The parts of `rateLimitStreamKey`.
  unfoldable pub same_stream : RateLimitRule → RateLimitRule → Bool
  unfolding stream_target
  same_stream a b =
      same_dimension (stream_dimension a.dimension) (stream_dimension b.dimension)
      && a.window_seconds == b.window_seconds
      && (if is_model_scope a.scope
          then is_model_scope b.scope
          else (if is_model_scope b.scope then false else true))
      && same (stream_target a) (stream_target b)

  unfoldable pub collapse_rules_by_stream : List RateLimitRule → List RateLimitRule
  unfolding same_stream
  collapse_rules_by_stream rules = put_all same_stream stricter (active_rules rules) []

  -- The plan's rules if there is a subscription to a plan, and the customer's own, by rule id.
  unfoldable pub get_effective_rules : List RateLimitRule → List RateLimitRule → List RateLimitRule
  unfolding collapse_rules_by_stream
  get_effective_rules plan_rules customer_rules = collapse_rules_by_stream (
      put_all same_id (λ prev r. r) (active_rules customer_rules)
        (put_all same_id (λ prev r. r) (active_rules plan_rules) []))

  -- The indices of the first two active rules that share a stream.
  abbrev seen_at : RateLimitRule → List (RateLimitRule × ℕ) → Option ℕ
  seen_at r [] = none
  seen_at r ((x, i) ∷ seen) = if same_stream x r then some i else seen_at r seen

  unfoldable pub duplicate_from : ℕ → List (RateLimitRule × ℕ) → List RateLimitRule → Option (ℕ × ℕ)
  unfolding same_stream
  duplicate_from i seen [] = none
  duplicate_from i seen (r ∷ rs) =
      let rest = duplicate_from (i + 1) seen rs in
      let later = duplicate_from (i + 1) ((r, i) ∷ seen) rs in
      if r.active then elim (seen_at r seen) [ some j ↦ some (j, i) | none ↦ later ] else rest

  unfoldable pub find_duplicate_rate_limit_stream : List RateLimitRule → Option (ℕ × ℕ)
  unfolding duplicate_from
  find_duplicate_rate_limit_stream rules = duplicate_from 0 [] rules
