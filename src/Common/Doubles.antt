-- ===== src/Common/Doubles.antt =====
-- The numbers of JavaScript where code computes with fractions: what it reads, tests and does. Rounding
-- is the platform's, so `times` is whatever the product of two doubles is.
use Prim.Native.Nat.{ℕ}
use mathlib.Core.Bool.{Bool}
use depix_sdk.Common.Text.{Text}

-- `Number(s)`, a literal, `a * b`, `Math.ceil(x)`, `Number.isFinite(x)` and `x > 0`.
pub record Doubles : Type 1 where
  pub Double : Type 0
  pub number : Text → Double
  pub literal : ℕ → Double
  pub times : Double → Double → Double
  pub ceil : Double → Double
  pub finite : Double → Bool
  pub above_zero : Double → Bool
