-- ===== src/Limits/Writes/Coalesce.antt =====
-- One write for a counter, and none above what a request claims of it.
use tokenpanel.Prelude.{
  ℕ, ◌+◌, ◌≤◌, ◌≡◌, refl, ◌∙◌, Bool, true, false, ◌&&◌, List, [], ◌∷◌, arith, if◌then◌else◌, All,
  ==_iff, same_iff, Bool-cases, inl, inr, sym,
}
use tokenpanel.Prelude.Int.{ℤ, pos, pos_part, ◌≤ℤ◌}
use tokenpanel.Limits.{dimension_code}
use tokenpanel.Limits.Counters.{CounterWrite}
use tokenpanel.Limits.Keyed.{
  Distinct, Any, put_all-All, put_all-Distinct, put_all-covers, All-zip, Any-map,
}
use tokenpanel.Limits.Writes.{
  key_target, same_write_key, merged, merge_writes, coalesce_counter_writes,
}

abbrev pub IsClaim : CounterWrite → Type 0
IsClaim e = pos 0 ≤ℤ e.increment

-- The entry has the same key, and claims no more.
abbrev pub StandsFor : CounterWrite → CounterWrite → Type 0
StandsFor s e = (same_write_key s e ≡ true) × (pos_part s.increment ≤ pos_part e.increment)

and4 :
    (p q r s : Bool) → (p && q && r && s) ≡ true → (p ≡ true) × (q ≡ true) × (r ≡ true) × (s ≡ true)
and4 p q r s h = ground arith

-- The parts of the key.
abbrev pub SameCounter : CounterWrite → CounterWrite → Type 0
SameCounter a b =
    (dimension_code a.dimension ≡ dimension_code b.dimension)
    × (a.window_seconds ≡ b.window_seconds)
    × (a.bucket_start ≡ b.bucket_start)
    × (key_target a.scope_target ≡ key_target b.scope_target)

pub key→parts : (a b : CounterWrite) → same_write_key a b ≡ true → SameCounter a b
unfolding same_write_key
key→parts a b h =
    let (d, w, t, k) = and4 _ _ _ _ h in
    (
      (==_iff (dimension_code a.dimension) (dimension_code b.dimension)).0 d,
      (==_iff a.window_seconds b.window_seconds).0 w,
      (==_iff a.bucket_start b.bucket_start).0 t,
      (same_iff (key_target a.scope_target) (key_target b.scope_target)).0 k,
    )

pub parts→key : (a b : CounterWrite) → SameCounter a b → same_write_key a b ≡ true
unfolding same_write_key
parts→key a b h =
    let (d, w, t, k) = h in
    rw
      (
        (==_iff (dimension_code a.dimension) (dimension_code b.dimension)).1 d,
        (==_iff a.window_seconds b.window_seconds).1 w,
        (==_iff a.bucket_start b.bucket_start).1 t,
        (same_iff (key_target a.scope_target) (key_target b.scope_target)).1 k,
      )
      refl

same_write_key_refl : (e : CounterWrite) → same_write_key e e ≡ true
same_write_key_refl e = parts→key e e (refl, refl, refl, refl)

pub same_write_key_trans :
    (a b e : CounterWrite)
    → same_write_key a e ≡ true
    → same_write_key b e ≡ true
    → same_write_key a b ≡ true
same_write_key_trans a b e h k =
    let (d, w, t, x) = key→parts a e h in
    let (d', w', t', x') = key→parts b e k in
    parts→key a b (d ∙ sym d', w ∙ sym w', t ∙ sym t', x ∙ sym x')

-- The writes of a request name each counter once.
pub coalesce-Distinct :
    (entries : List CounterWrite) → Distinct same_write_key (coalesce_counter_writes entries)
unfolding coalesce_counter_writes same_write_key
coalesce-Distinct entries =
    put_all-Distinct same_write_key merge_writes (λ x a y e. refl) (λ x a y e. refl) entries [] tt

IsClaim-merge : (x a : CounterWrite) → IsClaim x → IsClaim a → IsClaim (merge_writes x a)
IsClaim-merge x a h k = ground arith

-- Writes that claim stay claims.
pub coalesce-IsClaim :
    (entries : List CounterWrite)
    → All IsClaim entries
    → All IsClaim (coalesce_counter_writes entries)
unfolding coalesce_counter_writes
coalesce-IsClaim entries h =
    put_all-All same_write_key merge_writes IsClaim entries [] (λ x a e p q. IsClaim-merge x a p q)
      h tt

merged_le_right : (x a : ℤ) → pos 0 ≤ℤ a → pos_part (merged x a) ≤ pos_part a
merged_le_right x a k = ground arith

merged_le_left : (x a : ℤ) → pos_part (merged x a) ≤ pos_part x
merged_le_left x a = ground arith

-- Each claim has a write under its key that claims no more.
pub coalesce-covers :
    (entries : List CounterWrite)
    → All IsClaim entries
    → All (λ e. Any (λ s. StandsFor s e) (coalesce_counter_writes entries)) entries
unfolding coalesce_counter_writes same_write_key
coalesce-covers entries h =
    All-zip IsClaim (λ e. Any (λ s. IsClaim e → StandsFor s e) (coalesce_counter_writes entries))
      (λ e. Any (λ s. StandsFor s e) (coalesce_counter_writes entries))
      (λ e p q.
        Any-map (λ s. IsClaim e → StandsFor s e) (λ s. StandsFor s e) (λ s f. f p)
          (coalesce_counter_writes entries) q)
      entries h
      (put_all-covers same_write_key merge_writes (λ s e. IsClaim e → StandsFor s e)
        (λ a p. (same_write_key_refl a, omega arith))
        (λ x a e p. (e, merged_le_right x.increment a.increment p))
        (λ x a b e r p. ((r p).0, omega (arith, (r p).1, merged_le_left x.increment a.increment)))
        entries [])

-- What a list of writes adds to the counter of a write.
abbrev pub claimed : CounterWrite → List CounterWrite → ℕ
claimed k [] = 0
claimed k (x ∷ xs) = (if same_write_key x k then pos_part x.increment else 0) + claimed k xs

claimed_none :
    (k x : CounterWrite) (xs : List CounterWrite)
    → same_write_key x k ≡ true
    → All (λ y. same_write_key x y ≡ false) xs
    → claimed k xs ≡ 0
claimed_none k x [] e h = refl
claimed_none k x (y ∷ ys) e h = elim (Bool-cases (same_write_key y k)) [
  | inl f ↦ ground (arith, same_write_key_trans x y k e f, h.0)
  | inr f ↦ rw f (omega (arith, claimed_none k x ys e h.1))
]

absent :
    (k x : CounterWrite) (xs : List CounterWrite)
    → same_write_key x k ≡ true
    → All (λ y. same_write_key x y ≡ false) xs
    → Any (λ s. StandsFor s k) xs
    → ⊥
absent k x [] e h a = elim a [ ]
absent k x (y ∷ ys) e h a = elim a [
  | inl s ↦ ground (arith, same_write_key_trans x y k e s.0, h.0)
  | inr r ↦ absent k x ys e h.1 r
]

-- In a list that names each counter once, what is added to a claim's counter is at most the claim.
pub claimed_le :
    (k : CounterWrite) (xs : List CounterWrite)
    → Distinct same_write_key xs
    → Any (λ s. StandsFor s k) xs
    → claimed k xs ≤ pos_part k.increment
claimed_le k [] d h = elim h [ ]
claimed_le k (x ∷ xs) d h = elim (Bool-cases (same_write_key x k)) [
  | inl e ↦
      let none_left = claimed_none k x xs e d.0 in
      elim h [
        | inl s ↦ rw e (omega (arith, s.1, none_left))
        | inr r ↦ elim (absent k x xs e d.0 r) [ ]
      ]
  | inr e ↦ elim h [
    | inl s ↦ ground (arith, s.0)
    | inr r ↦ rw e (omega (arith, claimed_le k xs d.1 r))
  ]
]

-- Of writes that claim, no two coalesced ones have the same key (dimension, window, bucket and
-- target), and all of them claim; and each original has one under its key that claims no more. Two
-- keys can still mean one counter: the two spend dimensions are one when they are written.
pub coalesce_claims :
    (entries : List CounterWrite)
    → All IsClaim entries
    → Distinct same_write_key (coalesce_counter_writes entries)
      × All IsClaim (coalesce_counter_writes entries)
      × All (λ e. Any (λ s. StandsFor s e) (coalesce_counter_writes entries)) entries
coalesce_claims entries h =
    (coalesce-Distinct entries, coalesce-IsClaim entries h, coalesce-covers entries h)
