-- ===== src/Money/RoundTrip/Shape.antt =====
-- What a text of digits is to the tests of the parser.
use Prim.Native.Nat.{ℕ, ◌+◌, ◌*◌, ◌≤◌}
use mathlib.Core.Path.{◌≡◌, refl}
use mathlib.Core.Bool.{Bool, true, false, not, ◌&&◌}
use mathlib.Core.Option.{none, some}
use mathlib.Core.List.{[], ◌∷◌, ◌++◌}
use native.Mathlib.Omega.{arith}
use tokenpanel.Prelude.{Text, length}
use tokenpanel.Money.{
  max_safe_integer, is_white, trim_start, trim_end, kept_before, is_empty, is_digit, all_digits,
  split_point, has_point, pad_end, parse_int, sign_of, amount,
}
use tokenpanel.Money.RoundTrip.Digits.{parse-strip}

-- No white space at all.
abbrev pub solid : Text → Bool
solid [] = true
solid (c ∷ s) = not (is_white c) && solid s

-- It starts with a digit.
abbrev pub starts : Text → Bool
starts [] = false
starts (c ∷ s) = is_digit c

pub digit-solid : (c : ℕ) → is_digit c ≡ true → is_white c ≡ false
unfolding is_white
digit-solid c h = ground arith

pub digits-solid : (s : Text) → all_digits s ≡ true → solid s ≡ true
digits-solid [] h = refl
digits-solid (c ∷ s) h = ground (arith, digit-solid c, digits-solid s)

pub solid-append : (s t : Text) → solid s ≡ true → solid t ≡ true → solid (s ++ t) ≡ true
solid-append [] t hs ht = ht
solid-append (c ∷ s) t hs ht = ground (arith, solid-append s t)

pub trim_start-solid : (s : Text) → solid s ≡ true → trim_start s ≡ s
unfolding trim_start
trim_start-solid [] h = refl
trim_start-solid (c ∷ s) h = grind arith

kept-solid : (c : ℕ) (s : Text) → is_white c ≡ false → kept_before c s ≡ c ∷ s
kept-solid c [] h = grind arith
kept-solid c (d ∷ s) h = refl

pub trim_end-solid : (s : Text) → solid s ≡ true → trim_end s ≡ s
unfolding trim_end
trim_end-solid [] h = refl
trim_end-solid (c ∷ s) h = rw (trim_end-solid s (ground arith)) (kept-solid c s (ground arith))

pub starts-digits : (s t : Text) → is_empty s ≡ false → all_digits s ≡ true → starts (s ++ t) ≡ true
starts-digits [] t h hd = cc
starts-digits (c ∷ s) t h hd = ground arith

pub starts-alone : (s : Text) → is_empty s ≡ false → all_digits s ≡ true → starts s ≡ true
starts-alone [] h hd = cc
starts-alone (c ∷ s) h hd = ground arith

pub solid-point : (s : Text) → solid s ≡ true → solid (46 ∷ s) ≡ true
unfolding is_white
solid-point s h = h

pub sign_of-starts : (s : Text) → starts s ≡ true → sign_of s ≡ (false, s)
sign_of-starts [] h = cc
sign_of-starts (c ∷ s) h = ground arith

pub starts-some : (s : Text) → starts s ≡ true → is_empty s ≡ false
starts-some [] h = cc
starts-some (c ∷ s) h = refl

pub split-digits : (s : Text) → all_digits s ≡ true → split_point s ≡ none
unfolding split_point
split-digits [] h = refl
split-digits (c ∷ s) h = grind (arith, split-digits s)

pub split-append : (s t : Text) → all_digits s ≡ true → split_point (s ++ 46 ∷ t) ≡ some (s, t)
unfolding split_point
split-append [] t h = refl
split-append (c ∷ s) t h = grind (arith, split-append s t)

pub has_point-digits : (s : Text) → all_digits s ≡ true → has_point s ≡ false
unfolding has_point
has_point-digits [] h = refl
has_point-digits (c ∷ s) h = ground (arith, has_point-digits s)

-- Digits with at most six places are read as their value.
pub amount-digits :
    (i f : Text) (v : ℕ)
    → is_empty i ≡ false
    → all_digits i ≡ true
    → all_digits f ≡ true
    → length f ≤ 6
    → parse_int i * 1000000 + parse_int (pad_end f) ≡ v
    → v ≤ max_safe_integer
    → amount (i, f) ≡ some v
amount-digits i f v hi hd hf hl hv hm = grind (arith, parse-strip i)
