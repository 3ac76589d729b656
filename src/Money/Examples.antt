-- ===== src/Money/Examples.antt =====
-- Amounts at which the codec is run.
use mathlib.Core.Path.{◌≡◌, refl}
use mathlib.Core.Bool.{true, false}
use mathlib.Core.Option.{none, some}
use native.Mathlib.Omega.{arith}
use tokenpanel.Prelude.{codes, ◌>>=◌}
use tokenpanel.Prelude.Int.{pos, negsuc, neg}
use tokenpanel.Money.{
  micros_per_minor, minor_to_micros, is_white, trim_start, trim_end, split_point, has_point,
  strip_zeros, decimal, strip_end_zeros, magnitude, parse_major_to_micros, format_micros_to_major,
}
use tokenpanel.Money.RoundTrip.{parse-format}

cents : parse_major_to_micros (codes " 0.15 ") false ≡ some (pos 150000)
unfolding parse_major_to_micros trim_end trim_start is_white split_point has_point strip_zeros
cents = refl

parse_half :
    (parse_major_to_micros (codes ".5") false ≡ some (pos 500000))
    × (parse_major_to_micros (codes "+007.") false ≡ some (pos 7000000))
unfolding parse_major_to_micros trim_end trim_start is_white split_point has_point strip_zeros
parse_half = (refl, refl)

refused :
    (parse_major_to_micros (codes "  ") false ≡ none)
    × (parse_major_to_micros (codes "-1") false ≡ none)
    × (parse_major_to_micros (codes "1.2.3") false ≡ none)
    × (parse_major_to_micros (codes "0.0000001") false ≡ none)
    × (parse_major_to_micros (codes "9007199254.740992") false ≡ none)
unfolding parse_major_to_micros trim_end trim_start is_white split_point has_point strip_zeros
refused = (refl, refl, refl, refl, refl)

formatted :
    (format_micros_to_major (pos 150000) ≡ some (codes "0.15"))
    × (format_micros_to_major (pos 3000000) ≡ some (codes "3"))
    × (format_micros_to_major (negsuc 299) ≡ some (codes "-0.0003"))
unfolding format_micros_to_major magnitude decimal strip_end_zeros
formatted = (refl, refl, refl)

minor_run :
    (minor_to_micros (pos 15) (pos 2) ≡ some (pos 150000))
    × (minor_to_micros (negsuc 2) (pos 3) ≡ some (negsuc 2999))
    × (minor_to_micros (pos 1) (pos 7) ≡ none)
unfolding minor_to_micros micros_per_minor neg
minor_run = (refl, refl, refl)

parse-format_example :
    (format_micros_to_major (negsuc 1234499) >>= λ text. parse_major_to_micros text true)
    ≡ some (negsuc 1234499)
parse-format_example = parse-format (negsuc 1234499) true (omega arith) refl
