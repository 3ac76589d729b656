-- ===== src/Limits/Strictest.antt =====
-- The rules in force: one for a stream, and none laxer than a rule that was given.
use tokenpanel.Prelude.{
  ℕ, ◌≤◌, ◌≡◌, refl, sym, ap, ◌∙◌, Bool, true, false, ◌&&◌, List, [], ◌∷◌, arith, if◌then◌else◌,
  All, ◌==◌, ==_iff, same, same_iff, Text, Bool-cases, inl, inr, ltb,
}
use tokenpanel.Limits.{RateLimitRule, stream_dimension, dimension_code}
use tokenpanel.Limits.Keyed.{Distinct, Any, put_all-All, put_all-Distinct, put_all-covers}
use tokenpanel.Limits.Streams.{
  is_model_scope, active_rules, stricter, stream_target, same_stream, collapse_rules_by_stream,
}

-- Both sides of the key, in parts.
abbrev SameStream : (Text → Text) → RateLimitRule → RateLimitRule → Type 0
SameStream normalize a b =
    (dimension_code (stream_dimension a.dimension) ≡ dimension_code (stream_dimension b.dimension))
    × (a.window_seconds ≡ b.window_seconds)
    × (is_model_scope a.scope ≡ is_model_scope b.scope)
    × (stream_target normalize a ≡ stream_target normalize b)

and4 :
    (p q r s : Bool) → (p && q && r && s) ≡ true → (p ≡ true) × (q ≡ true) × (r ≡ true) × (s ≡ true)
and4 p q r s h = ground arith

same_bool : (a b : Bool) → (if a then b else (if b then false else true)) ≡ true → a ≡ b
same_bool a b h = ground arith

same_bool_of : (a b : Bool) → a ≡ b → (if a then b else (if b then false else true)) ≡ true
same_bool_of a b h = ground arith

all4 : (p q r s : Bool) → p ≡ true → q ≡ true → r ≡ true → s ≡ true → (p && q && r && s) ≡ true
all4 p q r s h1 h2 h3 h4 = ground arith

pairs :
    {a b c d : ℕ} {p q : Bool} {s t : Text}
    → a ≡ b
    → c ≡ d
    → p ≡ q
    → s ≡ t
    → ◌≡◌ {A = (ℕ × ℕ) × (Bool × Text)} ((a, c), (p, s)) ((b, d), (q, t))
pairs h k l m = cc

stricter_active :
    (x a : RateLimitRule) → x.active ≡ true → a.active ≡ true → (stricter x a).active ≡ true
stricter_active x a h k = elim (Bool-cases (ltb a.cap_value x.cap_value)) [
  | inl e ↦ rw e k
  | inr e ↦ rw e h
]

active_rules-All : (rules : List RateLimitRule) → All (λ r. r.active ≡ true) (active_rules rules)
active_rules-All [] = tt
active_rules-All (r ∷ rs) = elim (Bool-cases r.active) [
  | inl e ↦ rw e (refl, active_rules-All rs)
  | inr e ↦ rw e (active_rules-All rs)
]

module _ (normalize : Text → Text) where
  key→parts : (a b : RateLimitRule) → same_stream normalize a b ≡ true → SameStream normalize a b
  unfolding same_stream
  key→parts a b h =
      let (d, w, s, t) = and4 _ _ _ _ h in
      (
        (==_iff (dimension_code (stream_dimension a.dimension))
              (dimension_code (stream_dimension b.dimension))).0
            d,
        (==_iff a.window_seconds b.window_seconds).0 w,
        same_bool (is_model_scope a.scope) (is_model_scope b.scope) s,
        (same_iff (stream_target normalize a) (stream_target normalize b)).0 t,
      )

  parts→key : (a b : RateLimitRule) → SameStream normalize a b → same_stream normalize a b ≡ true
  unfolding same_stream
  parts→key a b h =
      let (d, w, s, t) = h in
      all4 _ _ _ _
        ((==_iff (dimension_code (stream_dimension a.dimension))
            (dimension_code (stream_dimension b.dimension))).1
          d)
        ((==_iff a.window_seconds b.window_seconds).1 w)
        (same_bool_of (is_model_scope a.scope) (is_model_scope b.scope) s)
        ((same_iff (stream_target normalize a) (stream_target normalize b)).1 t)

  same_stream_refl : (a : RateLimitRule) → same_stream normalize a a ≡ true
  same_stream_refl a = parts→key a a (refl, refl, refl, refl)

  replaced :
      (x a : RateLimitRule)
      → same_stream normalize x a ≡ true
      → SameStream normalize (stricter x a) x
  replaced x a h = elim (Bool-cases (ltb a.cap_value x.cap_value)) [
    | inl e ↦ rw e (let (d, w, s, t) = key→parts x a h in (sym d, sym w, sym s, sym t))
    | inr e ↦ rw e (refl, refl, refl, refl)
  ]

  congruent :
      (a b y : RateLimitRule)
      → SameStream normalize a b
      → same_stream normalize a y ≡ same_stream normalize b y
  unfolding same_stream
  congruent a b y h =
      let (d, w, s, t) = h in
      ap
        (λ (k : (ℕ × ℕ) × (Bool × Text)).
          k.0.0 == dimension_code (stream_dimension y.dimension)
          && k.0.1 == y.window_seconds
          && (if k.1.0
              then is_model_scope y.scope
              else (if is_model_scope y.scope then false else true))
          && same k.1.1 (stream_target normalize y))
        (pairs d w s t)

  congruent_right :
      (a b y : RateLimitRule)
      → SameStream normalize a b
      → same_stream normalize y a ≡ same_stream normalize y b
  unfolding same_stream
  congruent_right a b y h =
      let (d, w, s, t) = h in
      ap
        (λ (k : (ℕ × ℕ) × (Bool × Text)).
          dimension_code (stream_dimension y.dimension) == k.0.0
          && y.window_seconds == k.0.1
          && (if is_model_scope y.scope then k.1.0 else (if k.1.0 then false else true))
          && same (stream_target normalize y) k.1.1)
        (pairs d w s t)

  -- The rule is in force for the stream of the other, and is no laxer.
  abbrev pub IsStrictFor : RateLimitRule → RateLimitRule → Type 0
  IsStrictFor s r = (same_stream normalize s r ≡ true) × (s.cap_value ≤ r.cap_value)

  -- After the collapse no two rules share a stream, every rule in force is active, and every active
  -- rule that was given has one in force for its stream with at most its cap.
  pub collapse_strictest :
      (rules : List RateLimitRule)
      → let kept = collapse_rules_by_stream normalize rules in
        Distinct (same_stream normalize) kept
        × All (λ r. r.active ≡ true) kept
        × All (λ r. Any (λ s. IsStrictFor s r) kept) (active_rules rules)
  unfolding collapse_rules_by_stream
  collapse_strictest rules = (
    put_all-Distinct (same_stream normalize) stricter
        (λ x a y e. congruent (stricter x a) x y (replaced x a e))
        (λ x a y e. congruent_right (stricter x a) x y (replaced x a e)) (active_rules rules) [] tt,
    put_all-All (same_stream normalize) stricter (λ r. r.active ≡ true) (active_rules rules) []
        (λ x a e p q. stricter_active x a p q) (active_rules-All rules) tt,
    put_all-covers (same_stream normalize) stricter IsStrictFor
        (λ a. (same_stream_refl a, omega arith))
        (λ x a e. (congruent (stricter x a) x a (replaced x a e) ∙ e, ground arith))
        (λ x a b e r. (congruent (stricter x a) x b (replaced x a e) ∙ r.0, ground (arith, r.1)))
        (active_rules rules) [],
  )
