-- ===== src/Money.antt =====
-- Money in micros as text of major units: packages/contracts/src/money-micros.ts. A text is its
-- code units, a micros amount an integer, and a throw is none. `parseInt`, the product by the scale
-- and the sum are exact: a rounded result is above the largest safe integer only if the exact one is.
pub mod RoundTrip
mod Examples
use Prim.Native.Nat.{ℕ, zero, suc, ◌+◌, ◌-◌, ◌*◌, ◌/◌, ◌%◌, ◌^◌}
use mathlib.Core.Bool.{Bool, true, false, not, ◌&&◌, ◌||◌}
use mathlib.Core.Option.{Option, none, some}
use mathlib.Core.List.{List, [], ◌∷◌, ◌++◌}
use tokenpanel.Prelude.{Text, length, replicate, ltb, leb, ◌==◌, if◌then◌else◌, ◌>>=◌}
use tokenpanel.Prelude.Int.{ℤ, pos, negsuc, neg, pos_part, neg_part}

-- `Number.MAX_SAFE_INTEGER`
abbrev pub max_safe_integer : ℕ
max_safe_integer = 9007199254740991

abbrev pub micros_per_major : ℕ
micros_per_major = 1000000

abbrev pub micros_fractional_digits : ℕ
micros_fractional_digits = 6

-- An exponent is an integer here, and a product is exact, as it is in the source below 2 ^ 53.
unfoldable pub micros_per_minor : ℤ → Option ℕ
micros_per_minor (pos exponent) =
    if ltb 6 exponent then none else some (10 ^ (micros_fractional_digits - exponent))
micros_per_minor (negsuc exponent) = none

abbrev pub times : ℤ → ℕ → ℤ
times (pos minor) k = pos (minor * k)
times (negsuc minor) k = neg (pos (suc minor * k))

unfoldable pub minor_to_micros : ℤ → ℤ → Option ℤ
minor_to_micros minor exponent = micros_per_minor exponent >>= λ k. some (times minor k)

-- The white space and line terminators of ECMAScript.
unfoldable pub is_white : ℕ → Bool
is_white c =
    leb 9 c && leb c 13
    || c == 32
    || c == 160
    || c == 5760
    || leb 8192 c && leb c 8202
    || c == 8232
    || c == 8233
    || c == 8239
    || c == 8287
    || c == 12288
    || c == 65279

unfoldable pub trim_start : Text → Text
trim_start [] = []
trim_start (c ∷ s) = if is_white c then trim_start s else c ∷ s

abbrev pub kept_before : ℕ → Text → Text
kept_before c [] = if is_white c then [] else c ∷ []
kept_before c (d ∷ s) = c ∷ d ∷ s

unfoldable pub trim_end : Text → Text
trim_end [] = []
trim_end (c ∷ s) = kept_before c (trim_end s)

abbrev pub is_empty : Text → Bool
is_empty [] = true
is_empty (c ∷ s) = false

abbrev pub is_digit : ℕ → Bool
is_digit c = leb 48 c && leb c 57

abbrev pub all_digits : Text → Bool
all_digits [] = true
all_digits (c ∷ s) = is_digit c && all_digits s

-- `/^[0-9]+$/.test(s)`
abbrev pub is_numeric : Text → Bool
is_numeric s = not (is_empty s) && all_digits s

-- What stands before the first point and what stands behind it.
unfoldable pub split_point : Text → Option (Text × Text)
split_point [] = none
split_point (c ∷ s) = if c == 46 then some ([], s) else (split_point s >>= λ p. some (c ∷ p.0, p.1))

unfoldable pub has_point : Text → Bool
has_point [] = false
has_point (c ∷ s) = c == 46 || has_point s

-- `s.replace(/^0+(?=[0-9])/, "")`
unfoldable pub strip_zeros : Text → Text
strip_zeros [] = []
strip_zeros (c ∷ []) = c ∷ []
strip_zeros (c ∷ d ∷ s) =
    let rest = strip_zeros (d ∷ s) in if c == 48 && is_digit d then rest else c ∷ d ∷ s

-- `s.padEnd(MICROS_FRACTIONAL_DIGITS, "0")`
abbrev pub pad_end : Text → Text
pad_end s = s ++ replicate (micros_fractional_digits - length s) 48

-- `s.padStart(MICROS_FRACTIONAL_DIGITS, "0")`
abbrev pub pad_start : Text → Text
pad_start s = replicate (micros_fractional_digits - length s) 48 ++ s

-- `parseInt(s, 10)` of digits, read behind a number.
abbrev pub parse_int_from : ℕ → Text → ℕ
parse_int_from n [] = n
parse_int_from n (c ∷ s) = parse_int_from (n * 10 + (c - 48)) s

abbrev pub parse_int : Text → ℕ
parse_int s = parse_int_from 0 s

abbrev pub sign_of : Text → Bool × Text
sign_of [] = (false, [])
sign_of (c ∷ s) = if c == 45 then (true, s) else if c == 43 then (false, s) else (false, c ∷ s)

abbrev pub parts_at : Text → Option (Text × Text) → Option (Text × Text)
parts_at rest none = some (rest, [])
parts_at rest (some (int_part, frac_part)) =
    if has_point frac_part then none else some (int_part, frac_part)

abbrev pub amount : Text × Text → Option ℕ
amount (int_part, frac_part) =
    let int_text = if is_empty int_part then 48 ∷ [] else int_part in
    let value =
      parse_int (strip_zeros int_text) * micros_per_major + parse_int (pad_end frac_part) in
    if not (is_numeric int_text) || not (is_empty frac_part) && not (is_numeric frac_part)
    then none
    else if ltb micros_fractional_digits (length frac_part)
    then none
    else if ltb max_safe_integer value
    then none
    else some value

abbrev pub signed : Bool → ℕ → ℤ
signed negative value = if negative then neg (pos value) else pos value

abbrev pub parse_signed : Bool → Bool × Text → Option ℤ
parse_signed allow_negative (negative, rest) =
    if negative && not allow_negative
    then none
    else if is_empty rest
    then none
    else (parts_at rest (split_point rest) >>= amount >>= λ value. some (signed negative value))

unfoldable pub parse_major_to_micros : Text → Bool → Option ℤ
parse_major_to_micros input allow_negative =
    let s = trim_end (trim_start input) in
    if is_empty s then none else parse_signed allow_negative (sign_of s)

-- The decimal digits of a number before `out`; a number below 10 ^ fuel is written whole.
abbrev pub digits : ℕ → ℕ → Text → Text
digits zero n out = out
digits (suc fuel) n out =
    let written = (48 + n % 10) ∷ out in
    let rest = digits fuel (n / 10) written in if ltb n 10 then written else rest

-- `String(n)`: a safe integer has at most 16 digits.
unfoldable pub decimal : ℕ → Text
decimal n = digits 16 n []

abbrev pub zero_before : ℕ → Text → Text
zero_before c [] = if c == 48 then [] else c ∷ []
zero_before c (d ∷ s) = c ∷ d ∷ s

-- `s.replace(/0+$/, "")`
unfoldable pub strip_end_zeros : Text → Text
strip_end_zeros [] = []
strip_end_zeros (c ∷ s) = zero_before c (strip_end_zeros s)

unfoldable pub magnitude : ℕ → Text
magnitude abs =
    let whole = abs / micros_per_major in
    let frac = abs % micros_per_major in
    if frac == 0
    then decimal whole
    else decimal whole ++ 46 ∷ strip_end_zeros (pad_start (decimal frac))

abbrev pub sign_text : ℤ → Text
sign_text (pos n) = []
sign_text (negsuc n) = 45 ∷ []

unfoldable pub format_micros_to_major : ℤ → Option Text
format_micros_to_major micros =
    let abs = pos_part micros + neg_part micros in
    if ltb max_safe_integer abs then none else some (sign_text micros ++ magnitude abs)
