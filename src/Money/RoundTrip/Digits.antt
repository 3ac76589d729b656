-- ===== src/Money/RoundTrip/Digits.antt =====
-- The digits of a number, written and read, and the zeros around them.
use Prim.Native.Nat.{ℕ, zero, suc, ◌+◌, ◌-◌, ◌*◌, ◌/◌, ◌%◌, ◌≤◌, ◌<◌}
use mathlib.Core.Path.{◌≡◌, refl}
use mathlib.Core.Bool.{true, false}
use mathlib.Core.List.{[], ◌∷◌, ◌++◌}
use native.Mathlib.Omega.{arith}
use tokenpanel.Prelude.{Text, length, replicate}
use tokenpanel.Money.{
  is_empty, is_digit, all_digits, strip_zeros, pad_start, parse_int_from, parse_int, digits,
  zero_before, strip_end_zeros,
}

abbrev pub pow10 : ℕ → ℕ
pow10 zero = 1
pow10 (suc k) = 10 * pow10 k

pub parse-digits :
    (k n : ℕ) (out : Text) → n < pow10 k → parse_int_from 0 (digits k n out) ≡ parse_int_from n out
parse-digits zero n out h = grind arith
parse-digits (suc k) n out h = ground (arith, parse-digits k (n / 10) ((48 + n % 10) ∷ out))

pub all_digits-digits :
    (k n : ℕ) (out : Text) → all_digits out ≡ true → all_digits (digits k n out) ≡ true
all_digits-digits zero n out h = h
all_digits-digits (suc k) n out h =
    ground (arith, all_digits-digits k (n / 10) ((48 + n % 10) ∷ out))

digits-kept : (k n : ℕ) (out : Text) → is_empty out ≡ false → is_empty (digits k n out) ≡ false
digits-kept zero n out h = h
digits-kept (suc k) n out h = ground (arith, digits-kept k (n / 10) ((48 + n % 10) ∷ out) refl)

pub digits-some : (k n : ℕ) → is_empty (digits (suc k) n []) ≡ false
digits-some k n = ground (arith, digits-kept k (n / 10) ((48 + n % 10) ∷ []) refl)

pub length-digits :
    (k j n : ℕ) (out : Text) → 1 ≤ j → n < pow10 j → length (digits k n out) ≤ j + length out
length-digits zero j n out hj h = omega arith
length-digits (suc k) zero n out hj h = absurd (omega arith)
length-digits (suc k) (suc zero) n out hj h = ground arith
length-digits (suc k) (suc (suc j)) n out hj h =
    ground (arith, length-digits k (suc j) (n / 10) ((48 + n % 10) ∷ out))

pub parse-strip : (s : Text) → parse_int (strip_zeros s) ≡ parse_int s
unfolding strip_zeros
parse-strip [] = refl
parse-strip (c ∷ []) = refl
parse-strip (c ∷ d ∷ s) = ground (arith, parse-strip (d ∷ s))

zeros_digits : (k : ℕ) → all_digits (replicate k 48) ≡ true
zeros_digits zero = refl
zeros_digits (suc k) = zeros_digits k

parse_zeros : (k : ℕ) (s : Text) → parse_int (replicate k 48 ++ s) ≡ parse_int s
parse_zeros zero s = refl
parse_zeros (suc k) s = parse_zeros k s

all_digits-zeros : (k : ℕ) (s : Text) → all_digits (replicate k 48 ++ s) ≡ all_digits s
all_digits-zeros zero s = refl
all_digits-zeros (suc k) s = all_digits-zeros k s

length-zeros : (k : ℕ) (s : Text) → length (replicate k 48 ++ s) ≡ k + length s
length-zeros zero s = omega arith
length-zeros (suc k) s = omega (arith, length-zeros k s)

pub parse-pad_start : (s : Text) → parse_int (pad_start s) ≡ parse_int s
parse-pad_start s = parse_zeros (6 - length s) s

pub all_digits-pad_start : (s : Text) → all_digits (pad_start s) ≡ all_digits s
all_digits-pad_start s = all_digits-zeros (6 - length s) s

pub length-pad_start : (s : Text) → length s ≤ 6 → length (pad_start s) ≡ 6
length-pad_start s h = omega (arith, length-zeros (6 - length s) s)

all_digits-zero_before :
    (c : ℕ) (r : Text)
    → is_digit c ≡ true
    → all_digits r ≡ true
    → all_digits (zero_before c r) ≡ true
all_digits-zero_before c [] hc hr = ground arith
all_digits-zero_before c (d ∷ r) hc hr = ground arith

pub all_digits-strip_end : (s : Text) → all_digits s ≡ true → all_digits (strip_end_zeros s) ≡ true
unfolding strip_end_zeros
all_digits-strip_end [] h = refl
all_digits-strip_end (c ∷ s) h =
    all_digits-zero_before c (strip_end_zeros s) (ground arith)
      (all_digits-strip_end s (ground arith))

length-zero_before : (c : ℕ) (r : Text) → length (zero_before c r) ≤ suc (length r)
length-zero_before c [] = ground arith
length-zero_before c (d ∷ r) = omega arith

pub length-strip_end : (s : Text) → length (strip_end_zeros s) ≤ length s
unfolding strip_end_zeros
length-strip_end [] = omega arith
length-strip_end (c ∷ s) =
    omega (arith, length-zero_before c (strip_end_zeros s), length-strip_end s)

zeros_at : (k m : ℕ) → k ≡ m → replicate {A = ℕ} k 48 ≡ replicate m 48
zeros_at k m h = cc h

zero_before-replicate :
    (c n k m : ℕ) (r s : Text)
    → r ++ replicate m 48 ≡ s
    → length r ≤ n
    → m ≡ n - length r
    → k ≡ suc n - length (zero_before c r)
    → zero_before c r ++ replicate k 48 ≡ c ∷ s
zero_before-replicate c n zero m [] s h hr hm hk = ground arith
zero_before-replicate c n (suc k) m [] s h hr hm hk = grind (arith, zeros_at (suc k) m)
zero_before-replicate c n k m (d ∷ r) s h hr hm hk = grind arith

-- Zeros put back at the end give the text again.
pub strip_end-replicate :
    (s : Text) → strip_end_zeros s ++ replicate (length s - length (strip_end_zeros s)) 48 ≡ s
unfolding strip_end_zeros
strip_end-replicate [] = refl
strip_end-replicate (c ∷ s) =
    zero_before-replicate c (length s) _ _ (strip_end_zeros s) s (strip_end-replicate s)
      (length-strip_end s) refl refl
