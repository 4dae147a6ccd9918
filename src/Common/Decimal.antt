-- ===== src/Common/Decimal.antt =====
-- The decimal digits of a number, as `String(n)` and `${n}` write them, and their value.
use mathlib.Core.Path.{◌≡◌, refl}
use mathlib.Core.Logic.{inl, inr}
use mathlib.Core.Bool.{true}
use mathlib.Core.List.{[], ◌∷◌, ◌++◌}
use Prim.Native.Nat.{ℕ, zero, suc, ◌+◌, ◌-◌, ◌*◌, ◌/◌, ◌%◌, ◌^◌, ◌≤◌, ◌<◌}
use native.Mathlib.Omega.{arith}
use depix_sdk.Common.Tests.{ltb, if◌then◌else◌, Bool-cases, ltb→lt}
use depix_sdk.Common.Lists.{length, length-append}
use depix_sdk.Common.Text.{Text, is_digit, all_digits, is_decimal, decimal_from}

-- A number has fewer digits than its successor has units.
unfoldable pub digits_from : ℕ → ℕ → Text
digits_from zero n = []
digits_from (suc f) n =
    let rest = digits_from f (n / 10) in
    if ltb n 10 then (b'0' + n) ∷ [] else rest ++ (b'0' + n % 10) ∷ []

unfoldable pub decimal : ℕ → Text
unfolding digits_from
decimal n = digits_from (suc n) n

pub decimal_from-snoc :
    (acc c : ℕ) (s : Text) → decimal_from acc (s ++ c ∷ []) ≡ decimal_from acc s * 10 + (c - b'0')
decimal_from-snoc acc c [] = refl
decimal_from-snoc acc c (d ∷ s) = decimal_from-snoc (acc * 10 + (d - b'0')) c s

decimal_from-digits_from : (f n : ℕ) → n < f → decimal_from 0 (digits_from f n) ≡ n
unfolding digits_from
decimal_from-digits_from zero n h = absurd (omega arith)
decimal_from-digits_from (suc f) n h = elim (Bool-cases (ltb n 10)) [
  | inl small ↦ rw (small, if◌then◌else◌) (omega arith)
  | inr large ↦
      let big : 10 ≤ n = ground arith in
      rw (large, if◌then◌else◌, decimal_from-snoc 0 (b'0' + n % 10) (digits_from f (n / 10)))
        (omega (arith, decimal_from-digits_from f (n / 10) (omega arith)))
]

pub decimal_from-decimal : (n : ℕ) → decimal_from 0 (decimal n) ≡ n
unfolding decimal
decimal_from-decimal n = decimal_from-digits_from (suc n) n (omega arith)

pub all_digits-snoc :
    (c : ℕ) (s : Text) → all_digits s ≡ true → is_digit c ≡ true → all_digits (s ++ c ∷ []) ≡ true
all_digits-snoc c [] h k = ground arith
all_digits-snoc c (d ∷ s) h k = ground (arith, all_digits-snoc c s)

digit_of : (d : ℕ) → d < 10 → is_digit (b'0' + d) ≡ true
digit_of d h = ground arith

all_digits-digits_from : (f n : ℕ) → all_digits (digits_from f n) ≡ true
unfolding digits_from
all_digits-digits_from zero n = refl
all_digits-digits_from (suc f) n = elim (Bool-cases (ltb n 10)) [
  | inl small ↦ rw (small, if◌then◌else◌) (ground (arith, digit_of n (ltb→lt n 10 small)))
  | inr large ↦
      rw (large, if◌then◌else◌)
        (all_digits-snoc (b'0' + n % 10) (digits_from f (n / 10))
          (all_digits-digits_from f (n / 10)) (digit_of (n % 10) (omega arith)))
]

pub is_decimal_iff_nonempty : (s : Text) → all_digits s ≡ true → 0 < length s → is_decimal s ≡ true
is_decimal_iff_nonempty [] h k = absurd (omega arith)
is_decimal_iff_nonempty (c ∷ s) h k = h

length-digits_from-pos : (f n : ℕ) → 0 < length (digits_from (suc f) n)
unfolding digits_from
length-digits_from-pos f n = elim (Bool-cases (ltb n 10)) [
  | inl small ↦ rw (small, if◌then◌else◌) (omega arith)
  | inr large ↦
      rw (large, if◌then◌else◌)
        (omega (arith, length-append (digits_from f (n / 10)) ((b'0' + n % 10) ∷ [])))
]

pub is_decimal-decimal : (n : ℕ) → is_decimal (decimal n) ≡ true
unfolding decimal
is_decimal-decimal n =
    is_decimal_iff_nonempty (digits_from (suc n) n) (all_digits-digits_from (suc n) n)
      (length-digits_from-pos n n)

pub all_digits-decimal : (n : ℕ) → all_digits (decimal n) ≡ true
unfolding decimal
all_digits-decimal n = all_digits-digits_from (suc n) n

-- One digit fewer on a tenth of a large number.
one_fewer :
    (f k n : ℕ) (shorter : (j : ℕ) → n / 10 < 10 ^ suc j → length (digits_from f (n / 10)) ≤ suc j)
    → n < 10 ^ suc k
    → 10 ≤ n
    → length (digits_from f (n / 10)) + 1 ≤ suc k
one_fewer f zero n shorter h big = absurd (omega arith)
one_fewer f (suc k) n shorter h big = omega (arith, shorter k (omega arith))

length-digits_from-le : (f k n : ℕ) → n < 10 ^ suc k → length (digits_from f n) ≤ suc k
unfolding digits_from
length-digits_from-le zero k n h = omega arith
length-digits_from-le (suc f) k n h = elim (Bool-cases (ltb n 10)) [
  | inl small ↦ rw (small, if◌then◌else◌) (omega arith)
  | inr large ↦
      rw (large, if◌then◌else◌, length-append (digits_from f (n / 10)) ((b'0' + n % 10) ∷ []))
        (one_fewer f k n (λ j. length-digits_from-le f j (n / 10)) h (ground arith))
]

-- A number below a power of ten has at most as many digits.
pub length-decimal-le : (k n : ℕ) → n < 10 ^ suc k → length (decimal n) ≤ suc k
unfolding decimal
length-decimal-le k n h = length-digits_from-le (suc n) k n h
