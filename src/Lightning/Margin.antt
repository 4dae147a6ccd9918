-- ===== src/Lightning/Margin.antt =====
-- The fee margin on an invoice's amount, as doubles compute it.
use depix_sdk.Common.{
  ℕ, zero, suc, sym, ◌+◌, ◌*◌, ◌/◌, ◌%◌, ◌≡◌, ◌≤◌, ◌<◌, if◌then◌else◌, ltb, ltb→lt, Bool-cases, inl,
  inr, arith,
}
use native.Mathlib.Nat.{mod-add-div', add-mul}
use depix_sdk.Lightning.{unit_of, to_nearest, with_fee_margin, fee_factor, two_52, two_53}

-- The unit of the last place is at most one part in 2 ^ 52, or 1.
unit_of-le :
    (rounds m unit : ℕ) → two_52 * unit ≤ m + two_52 → two_52 * unit_of rounds m unit ≤ m + two_52
unfolding unit_of
unit_of-le zero m unit h = h
unit_of-le (suc rounds) m unit h = elim (Bool-cases (ltb m (two_53 * unit))) [
  | inl fits ↦ rw (fits, if◌then◌else◌) h
  | inr more ↦ rw (more, if◌then◌else◌) (unit_of-le rounds m (2 * unit) (ground (arith, more)))
]

to_nearest-le : (m unit : ℕ) → to_nearest m unit ≤ m + unit
unfolding to_nearest
to_nearest-le m unit =
    let q = m / unit in
    let whole : m ≡ m % unit + q * unit = sym (mod-add-div' m unit) in
    let next : (q + 1) * unit ≡ q * unit + unit = omega (arith, add-mul q 1 unit) in
    ground (arith, whole, next)

-- The margin is 5 percent, rounded up, and at most three satoshis of rounding.
pub with_fee_margin-le :
    (sats : ℕ) → sats ≤ 9007199254740991 → 100 * with_fee_margin sats ≤ 105 * sats + 400
unfolding with_fee_margin
with_fee_margin-le sats small =
    let product = sats * fee_factor in
    let unit = unit_of 60 product 1 in
    let bound = unit_of-le 60 product 1 (omega arith) in
    let near = to_nearest-le product unit in omega (arith, bound, near)

-- Doubled that many times.
abbrev doubled : ℕ → ℕ → ℕ
doubled zero unit = unit
doubled (suc rounds) unit = doubled rounds (2 * unit)

-- With enough rounds the unit is wide enough: 2 ^ 53 of it exceed the number.
unit_of_enough :
    (rounds m unit : ℕ) → m < two_53 * doubled rounds unit → m < two_53 * unit_of rounds m unit
unfolding unit_of
unit_of_enough zero m unit h = h
unit_of_enough (suc rounds) m unit h = elim (Bool-cases (ltb m (two_53 * unit))) [
  | inl fits ↦ rw (fits, if◌then◌else◌) (ltb→lt _ _ fits)
  | inr more ↦ rw (more, if◌then◌else◌) (unit_of_enough rounds m (2 * unit) h)
]

-- Sixty rounds are enough for every safe number of satoshis.
pub sixty_rounds_suffice :
    (sats : ℕ)
    → sats ≤ 9007199254740991
    → sats * fee_factor < two_53 * unit_of 60 (sats * fee_factor) 1
sixty_rounds_suffice sats small = unit_of_enough 60 (sats * fee_factor) 1 (omega (arith, small))
