-- ===== src/Billing/Charges/Rounding.antt =====
-- Rounding up: `Math.ceil(x / k)` on exact numbers.
use tokenpanel.Prelude.{ℕ, ◌+◌, ◌-◌, ◌*◌, ◌/◌, ◌≤◌, ◌<◌, arith}

unfoldable pub ceil_div : ℕ → ℕ → ℕ
ceil_div n k = (n + (k - 1)) / k

-- `Math.ceil(x / TOKENS_PER_MILLION_COUNT)`
abbrev pub tokens_per_million : ℕ
tokens_per_million = 1000000

unfoldable pub ceil_per_million : ℕ → ℕ
unfolding ceil_div
ceil_per_million n = ceil_div n 1000000

-- The ceiling is at least the quotient, and less than one above it.
pub ceil_per_million_le : (n : ℕ) → n ≤ ceil_per_million n * 1000000
unfolding ceil_per_million ceil_div
ceil_per_million_le n = omega arith

pub ceil_per_million_lt : (n : ℕ) → ceil_per_million n * 1000000 < n + 1000000
unfolding ceil_per_million ceil_div
ceil_per_million_lt n = omega arith

pub ceil_mono : (m n : ℕ) → m ≤ n → ceil_per_million m ≤ ceil_per_million n
ceil_mono m n h = omega (arith, ceil_per_million_le n, ceil_per_million_lt m)

-- Two ceilings are at most one more than the ceiling of the sum.
pub ceil_add : (m n : ℕ) → ceil_per_million m + ceil_per_million n ≤ ceil_per_million (m + n) + 1
ceil_add m n =
    omega (arith, ceil_per_million_lt m, ceil_per_million_lt n, ceil_per_million_le (m + n))

pub add_ceil : (m n : ℕ) → ceil_per_million (m + n) ≤ ceil_per_million m + ceil_per_million n
add_ceil m n =
    omega (arith, ceil_per_million_le m, ceil_per_million_le n, ceil_per_million_lt (m + n))
