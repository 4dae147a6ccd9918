-- ===== src/Lightning/Tests.antt =====
-- An invoice over 2,500 micro-bitcoins.
use depix_sdk.Common.{ℕ, ◌≡◌, ◌≤◌, ◌<◌, ◌+◌, ◌*◌, refl, some, ok}
use depix_sdk.Common.Text.{Text, codes, TextOps}
use depix_sdk.Lightning.{
  decode_invoice_amount_sats, assert_lockup_not_inflated, with_fee_margin, to_nearest, unit_of,
  decode_lower, before_last_one, hrp_amount, strip_prefix, split_digits, matches_rest,
  digits_amount, multiplier_div, whole_sats, map_submarine_status, bucket_in, bucket_paying,
}
use depix_sdk.Lightning.Decoded.{IsExact, lockup_bounded}

abbrev ops : TextOps
ops = record { trim = λ s. s; lower = λ s. s; trim-trim = λ s. refl; lower-lower = λ s. refl }

abbrev invoice : Text
invoice = codes "lnbc2500u1pvjluezpp"

decoded : decode_invoice_amount_sats ops invoice ≡ some 250000
unfolding decode_invoice_amount_sats decode_lower before_last_one hrp_amount strip_prefix
    split_digits matches_rest digits_amount multiplier_div whole_sats
decoded = refl

paying : map_submarine_status (codes "invoice.paid") ≡ some bucket_paying
unfolding map_submarine_status bucket_in
paying = refl

passes : assert_lockup_not_inflated 251000 (decode_invoice_amount_sats ops invoice) ≡ ok tt
unfolding assert_lockup_not_inflated with_fee_margin to_nearest unit_of decode_invoice_amount_sats
    decode_lower before_last_one hrp_amount strip_prefix split_digits matches_rest digits_amount
    multiplier_div whole_sats
passes = refl

lockup_bounded_example :
    (sats : ℕ) × (decode_invoice_amount_sats ops invoice ≡ some sats)
    × ((hrp : Text) × (before_last_one (ops.lower (ops.trim invoice)) ≡ some hrp)
        × IsExact hrp sats)
    × (0 < 251000)
    × (100 * 251000 ≤ 105 * sats + 200400)
lockup_bounded_example = lockup_bounded ops 251000 invoice passes

-- 20 * 1.05 is 21; 1,000 satoshis more are 1,050 more.
margin : with_fee_margin 1020 ≡ 1071
unfolding with_fee_margin to_nearest unit_of
margin = refl
