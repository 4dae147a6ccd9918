-- ===== src/Sideshift/Amounts.antt =====
-- An amount that is written for SideShift reads back.
use depix_sdk.Common.{
  ℕ, zero, suc, ◌+◌, ◌-◌, ◌*◌, ◌/◌, ◌%◌, ◌^◌, ◌<◌, ◌≤◌, ◌≡◌, refl, sym, ◌∙◌, true, none, some, [],
  ◌∷◌, ◌++◌, if◌then◌else◌, ◌==◌, ◌&&◌, length, length-append, Bool-cases, inl, inr, arith, ap,
  le→not_ltb,
}
use depix_sdk.Common.Text.{Text, all_digits, is_decimal, decimal_from}
use depix_sdk.Common.Decimal.{
  decimal, decimal_from-decimal, is_decimal-decimal, all_digits-decimal, length-decimal-le,
  is_decimal_iff_nonempty,
}
use depix_sdk.Sideshift.{
  usdt_sats_to_decimal, parse_units, parse_parts, split_point, join_units, pad_start, pad_end,
  zeros, strip_zeros, take_text,
}

length-zeros : (n : ℕ) → length (zeros n) ≡ n
unfolding zeros
length-zeros zero = refl
length-zeros (suc n) = ap suc (length-zeros n)

all_digits-append :
    (s t : Text) → all_digits s ≡ true → all_digits t ≡ true → all_digits (s ++ t) ≡ true
all_digits-append [] t h k = k
all_digits-append (c ∷ s) t h k = ground (arith, all_digits-append s t)

all_digits-zeros : (n : ℕ) → all_digits (zeros n) ≡ true
unfolding zeros
all_digits-zeros zero = refl
all_digits-zeros (suc n) = all_digits-zeros n

-- Zeros in front change no value.
decimal_from-zeros : (n : ℕ) (s : Text) → decimal_from 0 (zeros n ++ s) ≡ decimal_from 0 s
unfolding zeros
decimal_from-zeros zero s = refl
decimal_from-zeros (suc n) s = decimal_from-zeros n s

length-pad_start : (w : ℕ) (s : Text) → length s ≤ w → length (pad_start w s) ≡ w
unfolding pad_start
length-pad_start w s h =
    omega (arith, length-append (zeros (w - length s)) s, length-zeros (w - length s))

length-zero : (s : Text) → length s ≡ 0 → s ≡ []
length-zero [] h = refl
length-zero (c ∷ s) h = absurd (omega arith)

-- A zero before nothing but zeros.
all_zeros :
    (c : ℕ) (s : Text) (k : ℕ)
    → ((c == b'0') && (length (strip_zeros s) == 0)) ≡ true
    → k ≡ suc (length s)
    → (length (strip_zeros s) + length s ≡ length s → strip_zeros s ++ zeros (length s) ≡ s)
    → (if (c == b'0') && (length (strip_zeros s) == 0) then [] else c ∷ strip_zeros s) ++ zeros k
      ≡ c ∷ s
unfolding zeros
all_zeros c s k gone e ih =
    let empty : strip_zeros s ≡ [] = length-zero _ (ground (arith, gone)) in
    let rest : zeros (length s) ≡ s = ground (arith, empty, ih (ground (arith, gone))) in
    let zero_digit : c ≡ b'0' = ground (arith, gone) in
    rw (gone, if◌then◌else◌, e, zero_digit) (ap (λ t. b'0' ∷ t) rest)

-- What was stripped is put back.
strip_zeros-pads :
    (s : Text) (k : ℕ) → length (strip_zeros s) + k ≡ length s → strip_zeros s ++ zeros k ≡ s
unfolding strip_zeros zeros
strip_zeros-pads [] zero h = refl
strip_zeros-pads [] (suc k) h = absurd (omega arith)
strip_zeros-pads (c ∷ s) k h = elim (Bool-cases ((c == b'0') && (length (strip_zeros s) == 0))) [
  | inr kept ↦
      rw (strip_zeros, kept, if◌then◌else◌)
        (ap (λ t. c ∷ t) (strip_zeros-pads s k (ground (arith, kept, h))))
  | inl gone ↦ all_zeros c s k gone (ground (arith, gone, h)) (strip_zeros-pads s (length s))
]

decimal_from-zeros_only : (n : ℕ) → decimal_from 0 (zeros n) ≡ 0
unfolding zeros
decimal_from-zeros_only zero = refl
decimal_from-zeros_only (suc n) = decimal_from-zeros_only n

strip_zeros-length : (s : Text) → length (strip_zeros s) ≤ length s
unfolding strip_zeros
strip_zeros-length [] = omega arith
strip_zeros-length (c ∷ s) = ground (arith, strip_zeros-length s)

strip_zeros-digits : (s : Text) → all_digits s ≡ true → all_digits (strip_zeros s) ≡ true
unfolding strip_zeros
strip_zeros-digits [] h = refl
strip_zeros-digits (c ∷ s) h = ground (arith, strip_zeros-digits s)

-- A text with a value keeps a digit.
strip_zeros-pos : (s : Text) → 0 < decimal_from 0 s → 0 < length (strip_zeros s)
strip_zeros-pos s h = elim (Bool-cases (length (strip_zeros s) == 0)) [
  | inr some_left ↦ ground (arith, some_left)
  | inl empty ↦
      let gone : strip_zeros s ≡ [] = length-zero _ (ground (arith, empty)) in
      let same : zeros (length s) ≡ s =
        ap (λ t. t ++ zeros (length s)) (sym gone)
        ∙ strip_zeros-pads s (length s) (ground (arith, empty)) in
      absurd (omega (arith, ap (decimal_from 0) same, decimal_from-zeros_only (length s)))
]

take_text-short : (n : ℕ) (s : Text) → length s ≤ n → take_text n s ≡ s
unfolding take_text
take_text-short zero [] h = refl
take_text-short zero (c ∷ s) h = absurd (omega arith)
take_text-short (suc n) [] h = refl
take_text-short (suc n) (c ∷ s) h = ap (λ t. c ∷ t) (take_text-short n s (omega arith))

-- Digits have no point.
split_point-digits : (s t : Text) → all_digits s ≡ true → split_point (s ++ b'.' ∷ t) ≡ (s, some t)
unfolding split_point
split_point-digits [] t h = refl
split_point-digits (c ∷ s) t h = ground (arith, split_point-digits s t)

split_point-whole : (s : Text) → all_digits s ≡ true → split_point s ≡ (s, none)
unfolding split_point
split_point-whole [] h = refl
split_point-whole (c ∷ s) h = ground (arith, split_point-whole s)

-- The eight digits of a fraction.
abbrev fraction : ℕ → Text
fraction frac = pad_start 8 (decimal frac)

fraction-length : (frac : ℕ) → frac < 10 ^ 8 → length (fraction frac) ≡ 8
fraction-length frac h = length-pad_start 8 (decimal frac) (length-decimal-le 7 frac h)

fraction-digits : (frac : ℕ) → all_digits (fraction frac) ≡ true
unfolding pad_start
fraction-digits frac =
    all_digits-append (zeros (8 - length (decimal frac))) (decimal frac)
      (all_digits-zeros (8 - length (decimal frac))) (all_digits-decimal frac)

fraction-value : (frac : ℕ) → decimal_from 0 (fraction frac) ≡ frac
unfolding pad_start
fraction-value frac =
    decimal_from-zeros (8 - length (decimal frac)) (decimal frac) ∙ decimal_from-decimal frac

-- A stripped fraction is read as the fraction.
join_units-stripped :
    (whole : Text) (frac : ℕ)
    → frac < 10 ^ 8
    → join_units whole (strip_zeros (fraction frac)) ≡ some (decimal_from 0 whole * 10 ^ 8 + frac)
unfolding join_units pad_end
join_units-stripped whole frac h =
    let s = fraction frac in
    let short : length (strip_zeros s) ≤ 8 =
      omega (arith, strip_zeros-length s, fraction-length frac h) in
    let padded : strip_zeros s ++ zeros (8 - length (strip_zeros s)) ≡ s =
      strip_zeros-pads s (8 - length (strip_zeros s))
        (omega (arith, short, fraction-length frac h)) in
    rw
      (
        le→not_ltb 8 (length (strip_zeros s)) short,
        take_text-short 8 (strip_zeros s) short,
        padded,
        fraction-value frac,
      )
      refl

join_units-whole : (whole : Text) → join_units whole [] ≡ some (decimal_from 0 whole * 10 ^ 8)
unfolding join_units pad_end take_text zeros
join_units-whole whole = ap some (omega arith)

parse_units-whole :
    (s : Text) → all_digits s ≡ true → is_decimal s ≡ true → parse_units s ≡ join_units s []
unfolding parse_units parse_parts
parse_units-whole s h k = rw (parse_units, split_point-whole s h, k, if◌then◌else◌) refl

parse_units-point :
    (s t : Text)
    → all_digits s ≡ true
    → is_decimal s ≡ true
    → is_decimal t ≡ true
    → parse_units (s ++ b'.' ∷ t) ≡ join_units s t
unfolding parse_units parse_parts
parse_units-point s t h k l = rw (parse_units, split_point-digits s t h, k, l, if◌then◌else◌) refl

-- An amount of USDT that is written in SideShift's decimal form reads back as the same amount.
pub parse_units-usdt_sats_to_decimal :
    (sats : ℕ) → parse_units (usdt_sats_to_decimal sats) ≡ some sats
unfolding usdt_sats_to_decimal
parse_units-usdt_sats_to_decimal sats =
    let whole = decimal (sats / 10 ^ 8) in
    let frac = sats % 10 ^ 8 in
    let all = all_digits-decimal (sats / 10 ^ 8) in
    let one = is_decimal-decimal (sats / 10 ^ 8) in
    elim (Bool-cases (frac == 0)) [
      | inl round ↦
          rw
            (
              round,
              if◌then◌else◌,
              parse_units-whole whole all one,
              join_units-whole whole,
              decimal_from-decimal (sats / 10 ^ 8),
            )
            (ap some (ground (arith, round)))
      | inr fine ↦
          let stripped = strip_zeros (fraction frac) in
          let digits =
            is_decimal_iff_nonempty stripped
              (strip_zeros-digits (fraction frac) (fraction-digits frac))
              (strip_zeros-pos (fraction frac) (ground (arith, fine, fraction-value frac))) in
          rw
            (
              fine,
              if◌then◌else◌,
              parse_units-point whole stripped all one digits,
              join_units-stripped whole frac (omega arith),
              decimal_from-decimal (sats / 10 ^ 8),
            )
            (ap some (omega arith))
    ]
