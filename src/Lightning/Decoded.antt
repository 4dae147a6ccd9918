-- ===== src/Lightning/Decoded.antt =====
-- What a lockup that is checked against an invoice may cost.
use depix_sdk.Common.{
  ℕ, ◌+◌, ◌*◌, ◌/◌, ◌%◌, ◌^◌, ◌≡◌, ◌≤◌, ◌<◌, refl, ◌∙◌, ◌⊎◌, All, true, subst, some, List, [], ◌∷◌,
  if◌then◌else◌, ok, ltb, ◌==◌, ◌++◌, ◌||◌, Bool-cases, Option-cases, inl, inr, arith, ap, ==_iff,
}
use depix_sdk.Common.Text.{Text, TextOps, codes, decimal_from, is_digit, is_decimal, all_digits}
use native.Mathlib.Nat.{mod-add-div'}
use depix_sdk.Lightning.Margin.{with_fee_margin-le}
use depix_sdk.Lightning.{
  multiplier_div, before_last_one, strip_prefix, split_digits, whole_sats, digits_amount, networks,
  matches_rest, hrp_amount, decode_lower, decode_invoice_amount_sats, assert_lockup_not_inflated,
}

-- The names of the networks.
abbrev pub IsNetwork : Text → Type 0
IsNetwork t =
    (t ≡ codes "lnbc")
    ⊎ (t ≡ codes "lntb")
    ⊎ (t ≡ codes "lnbcrt")
    ⊎ (t ≡ codes "lntbs")
    ⊎ (t ≡ codes "lnsb")

networks-IsNetwork : All IsNetwork networks
networks-IsNetwork = (
  inl refl,
  (
    inr (inl refl),
    (inr (inr (inl refl)), (inr (inr (inr (inl refl))), (inr (inr (inr (inr refl))), tt))),
  ),
)

-- The part of an invoice before its last `1` is the name of a network, one or more digits and a
-- multiplier, which has no digit, and the satoshis are exactly the digits' number of bitcoins over the divisor of the multiplier: no part of
-- one is lost. They are positive and a safe integer.
pub record IsExact (hrp : Text) (sats : ℕ) : Type 0 where
  pub network : Text
  pub digits : Text
  pub multiplier : Text
  pub divisor : ℕ
  pub known : IsNetwork network
  pub decimals : is_decimal digits ≡ true
  pub spelled : hrp ≡ network ++ (digits ++ multiplier)
  pub divided : multiplier_div multiplier ≡ some divisor
  pub exact : decimal_from 0 digits * 10 ^ 11 ≡ sats * 1000 * divisor
  pub positive : 0 < sats
  pub safe : sats ≤ 9007199254740991

strip_prefix-some : (p s rest : Text) → strip_prefix p s ≡ some rest → s ≡ p ++ rest
unfolding strip_prefix
strip_prefix-some [] s rest h = ground arith
strip_prefix-some (p ∷ ps) [] rest h = cc
strip_prefix-some (p ∷ ps) (c ∷ s) rest h = elim (Bool-cases (p == c)) [
  | inr differ ↦ absurd (ground (arith, differ))
  | inl same ↦
      let tail = strip_prefix-some ps s rest (ground (arith, same)) in
      let head : p ≡ c = (==_iff p c).0 same in cc (head, tail)
]

split_digits_parts : (s : Text) → s ≡ (split_digits s).0 ++ (split_digits s).1
unfolding split_digits
split_digits_parts [] = refl
split_digits_parts (c ∷ s) = elim (Bool-cases (is_digit c)) [
  | inl digit ↦ rw (digit, if◌then◌else◌) (ap (λ t. c ∷ t) (split_digits_parts s))
  | inr other ↦ rw (other, if◌then◌else◌) refl
]

split_digits-decimals : (s : Text) → all_digits (split_digits s).0 ≡ true
unfolding split_digits
split_digits-decimals [] = refl
split_digits-decimals (c ∷ s) = elim (Bool-cases (is_digit c)) [
  | inl digit ↦ rw (digit, if◌then◌else◌) (cc (digit, split_digits-decimals s))
  | inr other ↦ rw (other, if◌then◌else◌) refl
]

-- An amount is read of one digit or more.
amount_decimals :
    (parts : Text × Text) (sats : ℕ)
    → digits_amount parts ≡ some sats
    → all_digits parts.0 ≡ true
    → is_decimal parts.0 ≡ true
unfolding digits_amount
amount_decimals ([], multiplier) sats h d = cc
amount_decimals (c ∷ digits, multiplier) sats h d = d

-- Division without a remainder.
whole_parts : (n div : ℕ) → n % div ≡ 0 → n / div % 1000 ≡ 0 → n ≡ n / div / 1000 * 1000 * div
whole_parts n div h k =
    let parts : n / div ≡ n / div / 1000 * 1000 = omega arith in
    let all : n ≡ n / div * div = omega (arith, mod-add-div' n div) in all ∙ ap (λ m. m * div) parts

-- What `whole_sats` gives.
abbrev IsWhole : ℕ → ℕ → ℕ → Type 0
IsWhole amount div sats =
    (amount * 10 ^ 11 ≡ sats * 1000 * div) × (0 < sats) × (sats ≤ 9007199254740991)

whole_sats-IsWhole :
    (amount div sats : ℕ) → whole_sats amount div ≡ some sats → IsWhole amount div sats
unfolding whole_sats
whole_sats-IsWhole amount div sats h =
    let n = amount * 10 ^ 11 in
    let found = n / div / 1000 in
    elim (Bool-cases (n % div == 0)) [
      | inr uneven ↦ absurd (ground (arith, uneven))
      | inl even ↦ elim (Bool-cases (n / div % 1000 == 0)) [
        | inr part ↦ absurd (ground (arith, even, part))
        | inl whole ↦ elim (Bool-cases ((found == 0) || ltb 9007199254740991 found)) [
          | inl out ↦ absurd (ground (arith, even, whole, out))
          | inr fits ↦
              let same : found ≡ sats = ground (arith, even, whole, fits) in
              let exact : n ≡ found * 1000 * div =
                whole_parts n div ((==_iff _ _).0 even) ((==_iff _ _).0 whole) in
              subst (IsWhole amount div) same (exact, ground (arith, fits), ground (arith, fits))
        ]
      ]
    ]

-- The digits and the multiplier of an amount that is read, and its divisor.
digits_amount-IsWhole :
    (parts : Text × Text) (sats : ℕ)
    → digits_amount parts ≡ some sats
    → (div : ℕ) × (multiplier_div parts.1 ≡ some div) × IsWhole (decimal_from 0 parts.0) div sats
unfolding digits_amount
digits_amount-IsWhole ([], multiplier) sats h = cc
digits_amount-IsWhole (c ∷ digits, multiplier) sats h =
    elim (Option-cases (multiplier_div multiplier)) [
      | inl none_known ↦ absurd (ground (arith, none_known))
      | inr (div, e) ↦
          (div, e, whole_sats-IsWhole (decimal_from 0 (c ∷ digits)) div sats (ground (arith, e)))
    ]

digits_amount-IsExact :
    (network hrp rest : Text) (sats : ℕ)
    → IsNetwork network
    → strip_prefix network hrp ≡ some rest
    → digits_amount (split_digits rest) ≡ some sats
    → IsExact hrp sats
digits_amount-IsExact network hrp rest sats named stripped h =
    let whole = digits_amount-IsWhole (split_digits rest) sats h in
    record {
      network = network;
      digits = (split_digits rest).0;
      multiplier = (split_digits rest).1;
      divisor = whole.0;
      known = named;
      decimals = amount_decimals (split_digits rest) sats h (split_digits-decimals rest);
      spelled =
          strip_prefix-some network hrp rest stripped
          ∙ ap (λ t. network ++ t) (split_digits_parts rest);
      divided = whole.1;
      exact = whole.2.0;
      positive = whole.2.1;
      safe = whole.2.2;
    }

hrp_amount-IsExact :
    (networks : List Text) (hrp : Text) (sats : ℕ)
    → All IsNetwork networks
    → hrp_amount networks hrp ≡ some sats
    → IsExact hrp sats
unfolding hrp_amount
hrp_amount-IsExact [] hrp sats named h = cc
hrp_amount-IsExact (network ∷ others) hrp sats named h =
    elim (Option-cases (strip_prefix network hrp)) [
      | inl other ↦ hrp_amount-IsExact others hrp sats named.1 (ground (arith, other))
      | inr (rest, e) ↦ elim (Bool-cases (matches_rest (split_digits rest))) [
        | inl fits ↦ digits_amount-IsExact network hrp rest sats named.0 e (ground (arith, e, fits))
        | inr none_fits ↦ hrp_amount-IsExact others hrp sats named.1 (ground (arith, e, none_fits))
      ]
    ]

decode_lower-IsExact :
    (lower : Text) (sats : ℕ)
    → decode_lower lower ≡ some sats
    → (hrp : Text) × (before_last_one lower ≡ some hrp) × IsExact hrp sats
unfolding decode_lower
decode_lower-IsExact lower sats h = elim (Option-cases (before_last_one lower)) [
  | inl gone ↦ absurd (ground (arith, gone))
  | inr (hrp, e) ↦
      (hrp, e, hrp_amount-IsExact networks hrp sats networks-IsNetwork (ground (arith, e)))
]

-- A lockup that passes the check against an invoice is positive and at most 5 percent and 2,004
-- satoshis above the amount of the invoice, and that amount is exactly what the invoice names before
-- its last `1`: after one of the five networks' names, the number of bitcoins that all of its digits
-- spell, over the divisor of its multiplier, no part of a satoshi rounded away, positive and a safe
-- integer.
pub lockup_bounded :
    (ops : TextOps) (expected_amount : ℕ) (invoice : Text)
    → assert_lockup_not_inflated expected_amount (decode_invoice_amount_sats ops invoice) ≡ ok tt
    → (sats : ℕ) × (decode_invoice_amount_sats ops invoice ≡ some sats)
      × ((hrp : Text) × (before_last_one (ops.lower (ops.trim invoice)) ≡ some hrp)
          × IsExact hrp sats)
      × (0 < expected_amount)
      × (100 * expected_amount ≤ 105 * sats + 200400)
unfolding assert_lockup_not_inflated decode_invoice_amount_sats
lockup_bounded ops expected_amount invoice h =
    let lower = ops.lower (ops.trim invoice) in
    elim (Option-cases (decode_lower lower)) [
      | inl gone ↦ absurd (ground (arith, gone))
      | inr (sats, e) ↦
          let read = decode_lower-IsExact lower sats e in
          let margin = with_fee_margin-le sats read.2.safe in
          (sats, e, read, ground (arith, e), ground (arith, e, margin))
    ]
