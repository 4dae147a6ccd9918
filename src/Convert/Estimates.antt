-- ===== src/Convert/Estimates.antt =====
-- What the estimates of a route stand for.
use depix_sdk.Common.{
  ℕ, ◌≡◌, refl, true, Option, none, some, List, [], ◌∷◌, if◌then◌else◌, ok, err, ◌&&◌, All,
  Bool-cases, Option-cases, Result-cases, inl, inr, arith, ap, subst,
}
use depix_sdk.Common.Text.{TextOps}
use depix_sdk.Routes.Legs.{Route, RouteLeg, IntentAsset, asset_eq, depix, usdt, lbtc, btc, usdc}
use depix_sdk.Convert.Quote.{
  LegEstimate, Estimators, estimate_leg, estimate_next, estimate_legs, no_estimate, is_given,
  all_received, all_fees, same_asset, all_in, one_fee_asset, sum_fees, last_received, first_asset,
  fees_complete, common_asset, fee_total, quote_route,
}

module _ (ops : TextOps) (estimators : Estimators) where
  -- The legs in a row, each on what the one before it gives, as far as the estimates go.
  abbrev pub estimated : List RouteLeg → ℕ → Option ℕ
  estimated [] amount = some amount
  estimated (leg ∷ rest) amount = elim (estimate_leg ops estimators leg amount) [
    | err reason ↦ none
    | ok e ↦ elim e.received_sats [ none ↦ none | some given ↦ estimated rest given ]
  ]

  abbrev complete : Option ℕ → List LegEstimate → Option ℕ
  complete carry legs = if all_received legs then last_received carry legs else none

  estimate_legs-estimated :
      (legs : List RouteLeg) (amount : ℕ)
      → complete (some amount) (estimate_legs ops estimators legs (some amount))
        ≡ estimated legs amount
  unfolding estimate_legs all_received last_received estimate_next no_estimate
  estimate_legs-estimated [] amount = refl
  estimate_legs-estimated (leg ∷ rest) amount =
      elim (Result-cases (estimate_leg ops estimators leg amount)) [
        | inr (reason, e) ↦ ground (arith, e)
        | inl (estimate, e) ↦ elim (Option-cases estimate.received_sats) [
          | inl gone ↦ ground (arith, e, gone)
          | inr (given, g) ↦ ground (arith, e, g, estimate_legs-estimated rest given)
        ]
      ]

  -- The amount that a quote of a route estimates is what the legs give in a row, each on the estimate
  -- of the one before it, and there is none if any of them has none.
  pub quote_route-estimated :
      (route : Route) (amount : ℕ)
      → (quote_route ops estimators route amount).estimated_received_sats
        ≡ estimated route.legs amount
  unfolding quote_route
  quote_route-estimated route amount = estimate_legs-estimated route.legs amount

-- The leg's fee is in the asset.
pub record IsFeeIn (asset : IntentAsset) (e : LegEstimate) : Type 0 where
  pub fee : ℕ
  pub has_fee : e.fee_sats ≡ some fee
  pub in_asset : e.fee_asset ≡ some asset

asset_eq_sound : (a b : IntentAsset) → asset_eq a b ≡ true → a ≡ b
asset_eq_sound depix depix h = refl
asset_eq_sound usdt usdt h = refl
asset_eq_sound lbtc lbtc h = refl
asset_eq_sound btc btc h = refl
asset_eq_sound usdc usdc h = refl
asset_eq_sound depix usdt h = cc
asset_eq_sound depix lbtc h = cc
asset_eq_sound depix btc h = cc
asset_eq_sound depix usdc h = cc
asset_eq_sound usdt depix h = cc
asset_eq_sound usdt lbtc h = cc
asset_eq_sound usdt btc h = cc
asset_eq_sound usdt usdc h = cc
asset_eq_sound lbtc depix h = cc
asset_eq_sound lbtc usdt h = cc
asset_eq_sound lbtc btc h = cc
asset_eq_sound lbtc usdc h = cc
asset_eq_sound btc depix h = cc
asset_eq_sound btc usdt h = cc
asset_eq_sound btc lbtc h = cc
asset_eq_sound btc usdc h = cc
asset_eq_sound usdc depix h = cc
asset_eq_sound usdc usdt h = cc
asset_eq_sound usdc lbtc h = cc
asset_eq_sound usdc btc h = cc

same_asset_sound :
    (o : Option IntentAsset) (a : IntentAsset) → same_asset o (some a) ≡ true → o ≡ some a
same_asset_sound none a h = cc
same_asset_sound (some b) a h = ap some (asset_eq_sound b a h)

fee_there : (o : Option ℕ) → is_given o ≡ true → (n : ℕ) × (o ≡ some n)
fee_there none h = cc
fee_there (some n) h = (n, refl)

all_in-IsFeeIn :
    (asset : IntentAsset) (legs : List LegEstimate)
    → all_fees legs ≡ true
    → all_in (some asset) legs ≡ true
    → All (IsFeeIn asset) legs
unfolding all_fees all_in
all_in-IsFeeIn asset [] h k = tt
all_in-IsFeeIn asset (e ∷ rest) h k =
    let f = fee_there e.fee_sats (ground arith) in
    (
      record {
        fee = f.0;
        has_fee = f.1;
        in_asset = same_asset_sound e.fee_asset asset (ground arith);
      },
      all_in-IsFeeIn asset rest (ground arith) (ground arith),
    )

common_asset-IsFeeIn :
    (legs : List LegEstimate) (asset : IntentAsset)
    → common_asset legs ≡ some asset
    → All (IsFeeIn asset) legs
unfolding common_asset fees_complete one_fee_asset first_asset all_fees
common_asset-IsFeeIn [] asset h = cc
common_asset-IsFeeIn (e ∷ rest) asset h =
    elim (Bool-cases (all_fees (e ∷ rest) && all_in e.fee_asset rest)) [
      | inr other ↦ absurd (ground (arith, other))
      | inl one ↦
          let first : e.fee_asset ≡ some asset = ground (arith, one) in
          let f = fee_there e.fee_sats (ground (arith, one)) in
          (
            record { fee = f.0; has_fee = f.1; in_asset = first },
            all_in-IsFeeIn asset rest (ground (arith, one))
                (subst (λ o. all_in o rest ≡ true) first (ground (arith, one))),
          )
    ]

-- Where a quote names a total of the fees, every leg reports a fee in the asset that the quote names,
-- and the total is their sum.
pub quote_route-fee_total :
    (ops : TextOps) (estimators : Estimators) (route : Route) (amount total : ℕ)
    → (quote_route ops estimators route amount).estimated_fee_total_sats ≡ some total
    → (asset : IntentAsset) × ((quote_route ops estimators route amount).fee_asset ≡ some asset)
      × All (IsFeeIn asset) (quote_route ops estimators route amount).legs
      × (sum_fees (quote_route ops estimators route amount).legs ≡ total)
unfolding quote_route fee_total
quote_route-fee_total ops estimators route amount total h =
    let legs = estimate_legs ops estimators route.legs (some amount) in
    elim (Option-cases (common_asset legs)) [
      | inl gone ↦ absurd (ground (arith, gone))
      | inr (asset, same) ↦
          (asset, same, common_asset-IsFeeIn legs asset same, ground (arith, same))
    ]
