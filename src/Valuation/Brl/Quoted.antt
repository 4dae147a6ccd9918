-- ===== src/Valuation/Brl/Quoted.antt =====
-- What a value in BRL rests on.
use depix_sdk.Common.{
  ℕ, ◌≡◌, Bool, true, false, List, ◌∷◌, ok, ◌>>◌, throw_if, not, Bool-cases, Option-cases, inl, inr,
  arith,
}
use depix_sdk.Common.Doubles.{Doubles}
use depix_sdk.Errors.{quotes_unavailable}
use depix_sdk.Quotes.{Quotes, QuotesCall, get_quotes, after_calls, is_finite_number}
use depix_sdk.Quotes.Fresh.{IsRecent, get_quotes-IsRecent}
use depix_sdk.Valuation.{depix_sats_to_brl_cents}
use depix_sdk.Valuation.Brl.{
  AssetKey, depix_key, usdt_key, lbtc_key, asset_decimals, sats_to_amount, brl_value,
  valuate_quoted, needs_quotes, valuate,
}

module _ (d : Doubles) where
  -- The product of an asset's amount and its rates.
  abbrev pub rated : Quotes d → AssetKey → d.Double → d.Double
  rated q depix_key amount = amount
  rated q usdt_key amount = d.times amount q.usd_brl
  rated q lbtc_key amount = d.times (d.times amount q.btc_usd) q.usd_brl

  -- The cents are the product with these rates, times 100 and rounded up, and the product is finite and
  -- positive.
  abbrev pub IsRated : Quotes d → AssetKey → ℕ → d.Double → Type 0
  IsRated q asset sats cents =
      let brl = rated q asset (d.number (sats_to_amount sats (asset_decimals asset))) in
      (is_finite_number d brl ≡ true) × (cents ≡ d.ceil (d.times brl (d.literal 100)))

  -- The outcome of a check and a value.
  checked :
      (brl cents : d.Double)
      → (throw_if (not (is_finite_number d brl)) quotes_unavailable
          >> ok (d.ceil (d.times brl (d.literal 100))))
        ≡ ok cents
      → (is_finite_number d brl ≡ true) × (cents ≡ d.ceil (d.times brl (d.literal 100)))
  checked brl cents h = elim (Bool-cases (is_finite_number d brl)) [
    | inl finite ↦ (finite, ground (arith, finite))
    | inr bad ↦ absurd (ground (arith, bad))
  ]

  valuate_quoted-IsRated :
      (q : Quotes d) (asset : AssetKey) (sats : ℕ) (cents : d.Double)
      → valuate_quoted d q asset sats ≡ ok cents
      → IsRated q asset sats cents
  unfolding valuate_quoted brl_value
  valuate_quoted-IsRated q depix_key sats cents h = cc
  valuate_quoted-IsRated q usdt_key sats cents h = checked _ cents h
  valuate_quoted-IsRated q lbtc_key sats cents h = checked _ cents h

  -- What a value says of the quotes behind it.
  abbrev pub IsQuoted :
      QuotesCall d → List (Bool × (QuotesCall d)) → AssetKey → ℕ → d.Double → Type 0
  IsQuoted call before depix_key sats cents = cents ≡ d.literal (depix_sats_to_brl_cents sats)
  IsQuoted call before usdt_key sats cents =
      (q : Quotes d) × IsRecent d q call ((false, call) ∷ before) × IsRated q usdt_key sats cents
  IsQuoted call before lbtc_key sats cents =
      (q : Quotes d) × IsRecent d q call ((false, call) ∷ before) × IsRated q lbtc_key sats cents

  needs_quotes-IsRated :
      (call : QuotesCall d) (before : List (Bool × (QuotesCall d))) (asset : AssetKey) (sats : ℕ)
      (cents : d.Double)
      → needs_quotes d (get_quotes d false call (after_calls d before)).0 asset sats ≡ ok cents
      → (q : Quotes d) × IsRecent d q call ((false, call) ∷ before) × IsRated q asset sats cents
  unfolding needs_quotes
  needs_quotes-IsRated call before asset sats cents h =
      elim (Option-cases (get_quotes d false call (after_calls d before)).0) [
        | inl gone ↦ absurd (ground (arith, gone))
        | inr (q, e) ↦ (
          q,
          get_quotes-IsRecent d false call before q e,
          valuate_quoted-IsRated q asset sats cents (ground (arith, e)),
        )
      ]

  -- A value that is returned is the peg for DePix. For the other assets it comes from a quote that the
  -- endpoint gave less than five minutes before, by this call or one before it: it is the product of
  -- the amount and its rates, finite and positive, in cents and rounded up. So without such a quote
  -- the valuation throws, whatever the cache went through before.
  pub valuate-IsQuoted :
      (call : QuotesCall d) (before : List (Bool × (QuotesCall d))) (asset : AssetKey) (sats : ℕ)
      (cents : d.Double)
      → valuate d (get_quotes d false call (after_calls d before)).0 asset sats ≡ ok cents
      → IsQuoted call before asset sats cents
  unfolding valuate
  valuate-IsQuoted call before depix_key sats cents h = ground arith
  valuate-IsQuoted call before usdt_key sats cents h =
      needs_quotes-IsRated call before usdt_key sats cents h
  valuate-IsQuoted call before lbtc_key sats cents h =
      needs_quotes-IsRated call before lbtc_key sats cents h
