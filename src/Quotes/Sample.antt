-- ===== src/Quotes/Sample.antt =====
-- Exact decimals as an instance of `Doubles`, for the witnesses: `(m, k)` is m / 10 ^ k.
use depix_sdk.Common.{ℕ, ◌+◌, ◌-◌, ◌*◌, ◌/◌, ◌^◌, true, none, some, ◌++◌, ◌==◌, not, length, Option}
use depix_sdk.Common.Text.{Text, decimal_from}
use depix_sdk.Common.Doubles.{Doubles}
use depix_sdk.Sideshift.{split_point}

-- Digits before a point and behind it.
abbrev of_parts : Text × Option Text → ℕ × ℕ
of_parts (digits, none) = (decimal_from 0 digits, 0)
of_parts (digits, some fraction) = (decimal_from 0 (digits ++ fraction), length fraction)

unfoldable pub read_decimal : Text → ℕ × ℕ
read_decimal s = of_parts (split_point s)

abbrev product : ℕ × ℕ → ℕ × ℕ → ℕ × ℕ
product (m, k) (n, l) = (m * n, k + l)

abbrev rounded_up : ℕ × ℕ → ℕ × ℕ
rounded_up (m, k) = ((m + (10 ^ k - 1)) / 10 ^ k, 0)

abbrev pub exact_decimals : Doubles
exact_decimals = record {
  Double = ℕ × ℕ;
  number = read_decimal;
  literal = λ n. (n, 0);
  times = product;
  ceil = rounded_up;
  finite = λ x. true;
  above_zero = λ x. not (x.0 == 0);
}
