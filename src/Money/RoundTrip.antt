-- ===== src/Money/RoundTrip.antt =====
-- Formatting an amount and parsing the text gives the amount back.
pub mod Digits
pub mod Shape
pub mod Magnitude
use Prim.Native.Nat.{ℕ, suc, ◌+◌, ◌≤◌}
use mathlib.Core.Path.{◌≡◌, refl, ap, ◌∙◌}
use mathlib.Core.Bool.{Bool, true, false, not, ◌&&◌}
use mathlib.Core.Option.{Option, none, some}
use mathlib.Core.List.{List, [], ◌∷◌, ◌++◌}
use native.Mathlib.Omega.{arith}
use tokenpanel.Prelude.{Text, ltb, if◌then◌else◌, ◌>>=◌}
use tokenpanel.Prelude.Int.{ℤ, pos, negsuc, neg, pos_part, neg_part}
use tokenpanel.Money.{
  max_safe_integer, is_empty, is_white, trim_start, trim_end, sign_of, signed, parse_signed,
  magnitude, sign_text, parse_major_to_micros, format_micros_to_major,
}
use Shape.{solid, starts, trim_start-solid, trim_end-solid, sign_of-starts, starts-some}
use Magnitude.{read, read-magnitude, starts-magnitude, solid-magnitude}

le_not-ltb : {a : ℕ} → a ≤ max_safe_integer → ltb max_safe_integer a ≡ false
le_not-ltb h = ground arith

-- The sign before an amount.
parse_signed-magnitude :
    (allow negative : Bool) (a : ℕ)
    → a ≤ max_safe_integer
    → (negative && not allow) ≡ false
    → parse_signed allow (negative, magnitude a) ≡ some (signed negative a)
parse_signed-magnitude allow negative a ha h =
    rw (h, starts-some (magnitude a) (starts-magnitude a), read-magnitude a ha) refl

-- Without white space the parser starts at the sign.
parse-solid :
    (s : Text) (allow : Bool)
    → solid s ≡ true
    → is_empty s ≡ false
    → parse_major_to_micros s allow ≡ parse_signed allow (sign_of s)
unfolding parse_major_to_micros
parse-solid s allow h hs = rw (trim_start-solid s h, trim_end-solid s h, hs) refl

parse-magnitude :
    (allow : Bool) (n a : ℕ)
    → a ≡ n
    → a ≤ max_safe_integer
    → parse_major_to_micros (magnitude a) allow ≡ some (pos n)
parse-magnitude allow n a e h =
    let begins = starts-magnitude a in
    parse-solid (magnitude a) allow (solid-magnitude a) (starts-some (magnitude a) begins)
    ∙ ap (parse_signed allow) (sign_of-starts (magnitude a) begins)
    ∙ parse_signed-magnitude allow false a h refl
    ∙ ap (λ x. some (pos x)) e

solid-minus : (s : Text) → solid s ≡ true → solid (45 ∷ s) ≡ true
unfolding is_white
solid-minus s h = h

neg-suc : (a n : ℕ) → a ≡ suc n → neg (pos a) ≡ negsuc n
unfolding neg
neg-suc a n e = ground arith

parse-minus :
    (n a : ℕ)
    → a ≡ suc n
    → a ≤ max_safe_integer
    → parse_major_to_micros (45 ∷ magnitude a) true ≡ some (negsuc n)
parse-minus n a e h =
    parse-solid (45 ∷ magnitude a) true (solid-minus _ (solid-magnitude a)) refl
    ∙ parse_signed-magnitude true true a h refl
    ∙ ap some (neg-suc a n e)

format-safe :
    (micros : ℤ)
    → pos_part micros + neg_part micros ≤ max_safe_integer
    → format_micros_to_major micros
      ≡ some (sign_text micros ++ magnitude (pos_part micros + neg_part micros))
unfolding format_micros_to_major
format-safe micros h = rw (le_not-ltb h) refl

abbrev is_negative : ℤ → Bool
is_negative (pos n) = false
is_negative (negsuc n) = true

-- An amount in micros that is a safe integer is formatted, and the text is parsed to the same
-- amount, where a negative amount needs the option that allows negatives.
pub parse-format :
    (micros : ℤ) (allow : Bool)
    → pos_part micros + neg_part micros ≤ max_safe_integer
    → (is_negative micros && not allow) ≡ false
    → (format_micros_to_major micros >>= λ text. parse_major_to_micros text allow) ≡ some micros
parse-format (pos n) allow h ha =
    rw (format-safe (pos n) h) (parse-magnitude allow n (n + 0) (omega arith) h)
parse-format (negsuc n) true h ha =
    rw (format-safe (negsuc n) h) (parse-minus n (0 + suc n) (omega arith) h)
parse-format (negsuc n) false h ha = cc
