-- ===== src/Lightning.antt =====
-- src/convert/boltz/lightning.ts: the buckets of a submarine swap's status, the amount that a BOLT11
-- invoice names, and the checks before funds are locked. Amounts of satoshis are natural numbers below
-- 2 ^ 53; an amount that is no finite positive number is 0 here.
pub mod Decoded
pub mod Margin
mod Tests
use depix_sdk.Common.{
  ℕ, zero, suc, ◌+◌, ◌-◌, ◌*◌, ◌/◌, ◌%◌, ◌^◌, Bool, true, false, Option, none, some, List, [], ◌∷◌,
  ◌++◌, if◌then◌else◌, Result, ok, err, ◌>>◌, throw_if, ltb, leb, ◌==◌, ◌&&◌, ◌||◌, not, any,
  length,
}
use depix_sdk.Common.Text.{Text, codes, text_eq, TextOps, is_digit, decimal_from}
use depix_sdk.Common.Js.{max_safe_integer}
use depix_sdk.Errors.{SdkError, lockup_inflated, invoice_no_amount, timeout_out_of_bounds}

pub data SubmarineBucket : Type 0 where
  bucket_pending bucket_paying bucket_completed bucket_refund bucket_refunded : SubmarineBucket

abbrev pub submarine_status : List (Text × SubmarineBucket)
submarine_status =
    (codes "swap.created", bucket_pending)
    ∷ (codes "transaction.mempool", bucket_pending)
    ∷ (codes "transaction.confirmed", bucket_pending)
    ∷ (codes "invoice.set", bucket_pending)
    ∷ (codes "invoice.pending", bucket_paying)
    ∷ (codes "invoice.paid", bucket_paying)
    ∷ (codes "transaction.claim.pending", bucket_paying)
    ∷ (codes "transaction.claimed", bucket_completed)
    ∷ (codes "invoice.failedToPay", bucket_refund)
    ∷ (codes "invoice.expired", bucket_refund)
    ∷ (codes "swap.expired", bucket_refund)
    ∷ (codes "transaction.lockupFailed", bucket_refund)
    ∷ (codes "transaction.refunded", bucket_refunded)
    ∷ (codes "swap.refunded", bucket_refunded)
    ∷ []

unfoldable pub bucket_in : List (Text × SubmarineBucket) → Text → Option SubmarineBucket
bucket_in [] raw = none
bucket_in ((name, bucket) ∷ rest) raw = if text_eq name raw then some bucket else bucket_in rest raw

unfoldable pub map_submarine_status : Text → Option SubmarineBucket
map_submarine_status = bucket_in submarine_status

-- The amount of an invoice in millisatoshis: a number of bitcoins, divided.
abbrev pub bolt11_msat_per_btc : ℕ
bolt11_msat_per_btc = 10 ^ 11

-- `BOLT11_MULTIPLIER_DIV`, and 1 where there is no multiplier; `none` is no multiplier's letter.
unfoldable pub multiplier_div : Text → Option ℕ
multiplier_div [] = some 1
multiplier_div (c ∷ d ∷ s) = none
multiplier_div (c ∷ []) =
    if c == b'm'
    then some 1000
    else if c == b'u'
    then some 1000000
    else if c == b'n'
    then some 1000000000
    else if c == b'p'
    then some 1000000000000
    else none

-- The text before the last `1`.
unfoldable pub before_last_one : Text → Option Text
before_last_one [] = none
before_last_one (c ∷ s) = elim (before_last_one s) [
  | some hrp ↦ some (c ∷ hrp)
  | none ↦ if c == b'1' then some [] else none
]

unfoldable pub strip_prefix : Text → Text → Option Text
strip_prefix [] s = some s
strip_prefix (p ∷ ps) [] = none
strip_prefix (p ∷ ps) (c ∷ s) = let rest = strip_prefix ps s in if p == c then rest else none

-- The digits at the start, and what follows them.
unfoldable pub split_digits : Text → Text × Text
split_digits [] = ([], [])
split_digits (c ∷ s) =
    let rest = split_digits s in if is_digit c then (c ∷ rest.0, rest.1) else ([], c ∷ s)

-- The satoshis of an amount and the divisor of its multiplier, if they are whole, positive and safe.
unfoldable pub whole_sats : ℕ → ℕ → Option ℕ
whole_sats amount div =
    let numerator = amount * bolt11_msat_per_btc in
    let msat = numerator / div in
    let sats = msat / 1000 in
    if not (numerator % div == 0)
    then none
    else if not (msat % 1000 == 0)
    then none
    else if (sats == 0) || ltb max_safe_integer sats
    then none
    else some sats

-- Digits and a multiplier, after the name of the network.
unfoldable pub digits_amount : Text × Text → Option ℕ
digits_amount ([], multiplier) = none
digits_amount (c ∷ digits, multiplier) = elim (multiplier_div multiplier) [
  | none ↦ none
  | some div ↦ whole_sats (decimal_from 0 (c ∷ digits)) div
]

-- The test `/^ln(bc|tb|bcrt|tbs|sb)([0-9]+)?([munp])?$/`: the first network with which the rest matches.
abbrev pub networks : List Text
networks = codes "lnbc" ∷ codes "lntb" ∷ codes "lnbcrt" ∷ codes "lntbs" ∷ codes "lnsb" ∷ []

unfoldable pub matches_rest : Text × Text → Bool
matches_rest (digits, []) = true
matches_rest (digits, c ∷ []) = (c == b'm') || (c == b'u') || (c == b'n') || (c == b'p')
matches_rest (digits, c ∷ d ∷ rest) = false

unfoldable pub hrp_amount : List Text → Text → Option ℕ
hrp_amount [] hrp = none
hrp_amount (network ∷ others) hrp =
    let later = hrp_amount others hrp in
    elim (strip_prefix network hrp) [
      | none ↦ later
      | some rest ↦
          if matches_rest (split_digits rest) then digits_amount (split_digits rest) else later
    ]

-- Of a trimmed text in lower case.
unfoldable pub decode_lower : Text → Option ℕ
decode_lower lower = elim (before_last_one lower) [
  | none ↦ none
  | some hrp ↦ hrp_amount networks hrp
]

-- `decodeInvoiceAmountSats(invoice)`.
unfoldable pub decode_invoice_amount_sats : TextOps → Text → Option ℕ
decode_invoice_amount_sats ops invoice = decode_lower (ops.lower (ops.trim invoice))

abbrev pub lockup_fixed_allowance_sats : ℕ
lockup_fixed_allowance_sats = 2000

-- The double `1 + LOCKUP_FEE_MARGIN` in units of 2 ^ -52; and 2 ^ 52 and 2 ^ 53.
abbrev pub fee_factor : ℕ
fee_factor = 4728779608739021

abbrev pub two_52 : ℕ
two_52 = 4503599627370496

abbrev pub two_53 : ℕ
two_53 = 9007199254740992

-- The least power of two, from `unit` on, of which 2 ^ 53 exceed `m`: the unit in the last place of a
-- double that stands for `m`. Sixty doublings reach past every product of two doubles below 2 ^ 53.
unfoldable pub unit_of : ℕ → ℕ → ℕ → ℕ
unit_of zero m unit = unit
unit_of (suc rounds) m unit =
    let wider = unit_of rounds m (2 * unit) in if ltb m (two_53 * unit) then unit else wider

-- The nearest multiple of the unit, at a tie the even one.
unfoldable pub to_nearest : ℕ → ℕ → ℕ
to_nearest m unit =
    let q = m / unit in
    let r = m % unit in
    if ltb unit (2 * r)
    then (q + 1) * unit
    else if (2 * r == unit) && (q % 2 == 1)
    then (q + 1) * unit
    else q * unit

-- `Math.ceil(invoiceSats * (1 + LOCKUP_FEE_MARGIN))`, a product of doubles.
unfoldable pub with_fee_margin : ℕ → ℕ
with_fee_margin sats =
    let product = sats * fee_factor in
    (to_nearest product (unit_of 60 product 1) + (two_52 - 1)) / two_52

-- `assertLockupNotInflated(expectedAmount, invoiceSats)`.
unfoldable pub assert_lockup_not_inflated : ℕ → Option ℕ → Result SdkError (Unit {0})
assert_lockup_not_inflated expected_amount invoice_sats =
    throw_if (expected_amount == 0) lockup_inflated >> elim invoice_sats [
      | none ↦ err invoice_no_amount
      | some sats ↦
          throw_if (ltb (with_fee_margin sats + lockup_fixed_allowance_sats) expected_amount)
            lockup_inflated
    ]

abbrev pub max_submarine_timeout_blocks : ℕ
max_submarine_timeout_blocks = 20160

-- `assertTimeoutInBounds`; a height that is not known, or no number, is `none`.
unfoldable pub assert_timeout_in_bounds : Option ℕ → Option ℕ → ℕ → Result SdkError (Unit {0})
assert_timeout_in_bounds none current max_blocks = ok tt
assert_timeout_in_bounds (some timeout) none max_blocks = ok tt
assert_timeout_in_bounds (some timeout) (some current) max_blocks =
    throw_if (leb timeout current || ltb (current + max_blocks) timeout) timeout_out_of_bounds
