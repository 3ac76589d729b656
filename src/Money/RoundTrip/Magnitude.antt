-- ===== src/Money/RoundTrip/Magnitude.antt =====
-- The text of an amount without its sign is read as the amount.
use Prim.Native.Nat.{ℕ, ◌+◌, ◌-◌, ◌*◌, ◌/◌, ◌%◌, ◌≤◌, ◌<◌}
use mathlib.Core.Path.{◌≡◌, refl, ap, subst, ◌∙◌}
use mathlib.Core.Logic.{inl, inr}
use mathlib.Core.Bool.{true, false}
use mathlib.Core.Option.{Option, some}
use mathlib.Core.List.{[], ◌∷◌, ◌++◌}
use native.Mathlib.Omega.{arith}
use tokenpanel.Prelude.{Text, length, replicate, ◌==◌, ◌>>=◌, Bool-cases}
use tokenpanel.Money.{
  max_safe_integer, is_empty, all_digits, split_point, pad_end, pad_start, parse_int, parts_at,
  amount, decimal, strip_end_zeros, magnitude,
}
use tokenpanel.Money.RoundTrip.Digits.{
  parse-digits, all_digits-digits, digits-some, length-digits, length-pad_start,
  all_digits-pad_start, parse-pad_start, all_digits-strip_end, length-strip_end,
  strip_end-replicate,
}
use tokenpanel.Money.RoundTrip.Shape.{
  solid, starts, starts-alone, solid-point, digits-solid, solid-append, starts-digits, split-digits,
  split-append, has_point-digits, amount-digits,
}

decimal-digits : (n : ℕ) → all_digits (decimal n) ≡ true
unfolding decimal
decimal-digits n = all_digits-digits 16 n [] refl

decimal-some : (n : ℕ) → is_empty (decimal n) ≡ false
unfolding decimal
decimal-some n = digits-some 15 n

parse-decimal : (n : ℕ) → n ≤ max_safe_integer → parse_int (decimal n) ≡ n
unfolding decimal
parse-decimal n h = parse-digits 16 n [] (omega arith) ∙ (omega arith)

length-decimal : (n : ℕ) → n < 1000000 → length (decimal n) ≤ 6
unfolding decimal
length-decimal n h = length-digits 16 6 n [] (omega arith) h

-- The six places of a fraction.
places : (frac : ℕ) → Text
places frac = pad_start (decimal frac)

pad-strip_end : (p : Text) → length p ≡ 6 → pad_end (strip_end_zeros p) ≡ p
pad-strip_end p h =
    subst (λ n. strip_end_zeros p ++ replicate (n - length (strip_end_zeros p)) 48 ≡ p) h
      (strip_end-replicate p)

places-facts :
    (frac : ℕ)
    → frac < 1000000
    → (all_digits (strip_end_zeros (places frac)) ≡ true)
      × (length (strip_end_zeros (places frac)) ≤ 6)
      × (parse_int (pad_end (strip_end_zeros (places frac))) ≡ frac)
unfolding places
places-facts frac h =
    let six = length-pad_start (decimal frac) (length-decimal frac h) in
    (
      all_digits-strip_end (places frac)
          (all_digits-pad_start (decimal frac) ∙ decimal-digits frac),
      omega (arith, six, length-strip_end (places frac)),
      ap parse_int (pad-strip_end (places frac) six)
          ∙ parse-pad_start (decimal frac)
          ∙ parse-decimal frac (omega arith),
    )

-- Reading an unsigned text.
abbrev pub read : Text → Option ℕ
read s = parts_at s (split_point s) >>= amount

read-digits :
    (i : Text) (v : ℕ)
    → is_empty i ≡ false
    → all_digits i ≡ true
    → parse_int i * 1000000 ≡ v
    → v ≤ max_safe_integer
    → read i ≡ some v
read-digits i v hi hd hv hm =
    rw (split-digits i hd) (amount-digits i [] v hi hd refl (omega arith) (omega arith) hm)

read-point :
    (i f : Text) (v : ℕ)
    → is_empty i ≡ false
    → all_digits i ≡ true
    → all_digits f ≡ true
    → length f ≤ 6
    → parse_int i * 1000000 + parse_int (pad_end f) ≡ v
    → v ≤ max_safe_integer
    → read (i ++ 46 ∷ f) ≡ some v
read-point i f v hi hd hf hl hv hm =
    rw (split-append i f hd, has_point-digits f hf) (amount-digits i f v hi hd hf hl hv hm)

magnitude-cases :
    (P : Text → Type 0) (a : ℕ)
    → (a % 1000000 ≡ 0 → P (decimal (a / 1000000)))
    → P (decimal (a / 1000000) ++ 46 ∷ strip_end_zeros (places (a % 1000000)))
    → P (magnitude a)
unfolding magnitude places
magnitude-cases P a whole both = elim (Bool-cases (a % 1000000 == 0)) [
  | inl e ↦ rw e (whole (ground arith))
  | inr e ↦ rw e both
]

pub read-magnitude : (a : ℕ) → a ≤ max_safe_integer → read (magnitude a) ≡ some a
read-magnitude a h =
    let whole = decimal (a / 1000000) in
    let value = parse-decimal (a / 1000000) (omega arith) in
    let (hf, hl, hp) = places-facts (a % 1000000) (omega arith) in
    magnitude-cases (λ s. read s ≡ some a) a
      (λ e. read-digits whole a (decimal-some _) (decimal-digits _) (omega arith) h)
      (read-point whole (strip_end_zeros (places (a % 1000000))) a (decimal-some _)
        (decimal-digits _) hf hl (omega arith) h)

pub starts-magnitude : (a : ℕ) → starts (magnitude a) ≡ true
starts-magnitude a =
    let whole = decimal (a / 1000000) in
    magnitude-cases (λ s. starts s ≡ true) a
      (λ e. starts-alone whole (decimal-some _) (decimal-digits _))
      (starts-digits whole _ (decimal-some _) (decimal-digits _))

pub solid-magnitude : (a : ℕ) → solid (magnitude a) ≡ true
solid-magnitude a =
    let whole = digits-solid (decimal (a / 1000000)) (decimal-digits _) in
    let (hf, hl, hp) = places-facts (a % 1000000) (omega arith) in
    magnitude-cases (λ s. solid s ≡ true) a (λ e. whole)
      (solid-append (decimal (a / 1000000)) _ whole (solid-point _ (digits-solid _ hf)))
