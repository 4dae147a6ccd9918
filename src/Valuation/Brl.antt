-- ===== src/Valuation/Brl.antt =====
-- src/guardrails/valuation.ts: BrlValuator and satsToAmount, with the formulas of src/assets.ts. The
-- arithmetic of doubles is the platform's; `quotes` is what the source of quotes gives.
pub mod Quoted
mod Tests
use depix_sdk.Common.{
  ℕ, zero, suc, ◌/◌, ◌%◌, ◌^◌, Bool, true, false, Option, none, some, List, [], ◌∷◌, ◌++◌,
  if◌then◌else◌, ◌==◌, Result, ok, err, ◌>>=◌, ◌>>◌, throw_if, not, length,
}
use depix_sdk.Common.Text.{Text}
use depix_sdk.Common.Decimal.{decimal}
use depix_sdk.Common.Doubles.{Doubles}
use depix_sdk.Errors.{SdkError, quotes_unavailable}
use depix_sdk.Quotes.{Quotes, is_finite_number}
use depix_sdk.Sideshift.{pad_start, strip_zeros}
use depix_sdk.Valuation.{depix_sats_to_brl_cents}

pub data AssetKey : Type 0 where
  depix_key usdt_key lbtc_key : AssetKey

pub data BrlFormula : Type 0 where
  peg usd btc : BrlFormula

abbrev pub asset_decimals : AssetKey → ℕ
asset_decimals depix_key = 8
asset_decimals usdt_key = 8
asset_decimals lbtc_key = 8

abbrev pub brl_formula : AssetKey → BrlFormula
brl_formula depix_key = peg
brl_formula usdt_key = usd
brl_formula lbtc_key = btc

-- `satsToAmount(sats, decimals)`, of an amount that is not negative.
unfoldable pub sats_to_amount : ℕ → ℕ → Text
sats_to_amount sats decimals =
    let base = 10 ^ decimals in
    let whole = decimal (sats / base) in
    let rem = strip_zeros (pad_start decimals (decimal (sats % base))) in
    if decimals == 0 then decimal sats else if length rem == 0 then whole else whole ++ b'.' ∷ rem

module _ (d : Doubles) where
  unfoldable pub brl_value : Quotes d → BrlFormula → d.Double → Result SdkError d.Double
  brl_value quotes usd amount = ok (d.times amount quotes.usd_brl)
  brl_value quotes btc amount = ok (d.times (d.times amount quotes.btc_usd) quotes.usd_brl)
  brl_value quotes peg amount = err quotes_unavailable

  -- The part of `valuate` after the quotes are there.
  unfoldable pub valuate_quoted : Quotes d → AssetKey → ℕ → Result SdkError d.Double
  valuate_quoted quotes asset amount_sats = do
    brl ←
        brl_value quotes (brl_formula asset)
          (d.number (sats_to_amount amount_sats (asset_decimals asset)))
    throw_if (not (is_finite_number d brl)) quotes_unavailable
    ok (d.ceil (d.times brl (d.literal 100)))

  unfoldable pub needs_quotes : Option (Quotes d) → AssetKey → ℕ → Result SdkError d.Double
  needs_quotes none asset amount_sats = err quotes_unavailable
  needs_quotes (some quotes) asset amount_sats = valuate_quoted quotes asset amount_sats

  -- `valuate(asset, amountSats)`.
  unfoldable pub valuate : Option (Quotes d) → AssetKey → ℕ → Result SdkError d.Double
  valuate quotes depix_key amount_sats = ok (d.literal (depix_sats_to_brl_cents amount_sats))
  valuate quotes usdt_key amount_sats = needs_quotes quotes usdt_key amount_sats
  valuate quotes lbtc_key amount_sats = needs_quotes quotes lbtc_key amount_sats

  abbrev pub or_none : Result SdkError d.Double → Option d.Double
  or_none (ok cents) = some cents
  or_none (err e) = none

  -- `estimateBrlCents(asset, amountSats)`.
  unfoldable pub estimate_brl_cents : Option (Quotes d) → AssetKey → ℕ → Option d.Double
  estimate_brl_cents quotes asset amount_sats =
      if amount_sats == 0 then some (d.literal 0) else or_none (valuate quotes asset amount_sats)
