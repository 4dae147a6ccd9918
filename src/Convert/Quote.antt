-- ===== src/Convert/Quote.antt =====
-- quote() of src/convert/intent.ts: the estimates of a route, leg by leg. What the providers quote is a
-- field of `Estimators`; a call that throws gives its reason.
use depix_sdk.Common.{
  ℕ, suc, ◌+◌, ◌-◌, ◌*◌, ◌^◌, Bool, true, false, Option, none, some, List, [], ◌∷◌, ◌++◌,
  if◌then◌else◌, Result, ok, err, ◌>>=◌, ltb, leb, ◌&&◌, not, length,
}
use depix_sdk.Common.Text.{Text, codes, TextOps}
use depix_sdk.Common.Decimal.{decimal}
use depix_sdk.Routes.Legs.{
  Route, RouteLeg, RouteMethod, IntentAsset, IntentNetwork, swap, peg_in, peg_out,
  pay_lightning_invoice, receive_lightning, to_stablecoin, send, receive, lbtc, usdt, asset_eq,
  provider_name, method_name,
}
use depix_sdk.Sideshift.{usdt_decimal_to_sats}

pub record LegEstimate : Type 0 where
  pub received_sats : Option ℕ
  pub fee_sats : Option ℕ
  pub fee_asset : Option IntentAsset
  pub note : Option Text

-- A quote of SideSwap. The asset of the fee may be left out, or be none of the three that are known.
pub data QuotedFeeAsset : Type 0 where
  fee_omitted fee_unknown : QuotedFeeAsset
  fee_in : IntentAsset → QuotedFeeAsset

pub record MarketQuote : Type 0 where
  pub recv_amount_sats : ℕ
  pub server_fee_sats : ℕ
  pub fixed_fee_sats : ℕ
  pub quoted_fee_asset : QuotedFeeAsset

-- An estimate of Boltz for a stablecoin; `percent_fee` is what its percentage comes to, or 0.
pub record StablecoinEstimate : Type 0 where
  pub receive_amount : ℕ
  pub decimals : ℕ
  pub miner_fees_sats : ℕ
  pub percent_fee : ℕ

pub record ReverseEstimate : Type 0 where
  pub receive_sats : ℕ
  pub service_fee_sats : ℕ
  pub miner_fees_sats : ℕ

pub record Estimators : Type 0 where
  pub market_quote : IntentAsset → IntentAsset → ℕ → Result Text MarketQuote
  pub reverse_estimate : ℕ → Result Text ReverseEstimate
  pub stablecoin_estimate : IntentAsset → IntentNetwork → ℕ → Result Text StablecoinEstimate
  pub shift_quote : IntentNetwork → ℕ → Result Text (Option Text)

unfoldable pub no_estimate : Text → LegEstimate
no_estimate note = record {
  received_sats = none;
  fee_sats = none;
  fee_asset = none;
  note = some note;
}

unfoldable pub fee_asset_of : QuotedFeeAsset → IntentAsset → Option IntentAsset
fee_asset_of fee_omitted to = some to
fee_asset_of fee_unknown to = none
fee_asset_of (fee_in a) to = some a

unfoldable pub estimate_swap : RouteLeg → MarketQuote → LegEstimate
estimate_swap leg quote =
    let declared_fees = quote.server_fee_sats + quote.fixed_fee_sats in
    if leb quote.recv_amount_sats declared_fees
    then record {
      received_sats = none;
      fee_sats = some declared_fees;
      fee_asset = none;
      note = some (
          codes
            "declared fees meet or exceed the quoted receive — amount too small for this route");
    }
    else record {
      received_sats = some (quote.recv_amount_sats - declared_fees);
      fee_sats = some declared_fees;
      fee_asset = fee_asset_of quote.quoted_fee_asset leg.to;
      note = none;
    }

unfoldable pub estimate_reverse : ReverseEstimate → LegEstimate
estimate_reverse est = record {
  received_sats = some est.receive_sats;
  fee_sats = some (est.service_fee_sats + est.miner_fees_sats);
  fee_asset = some lbtc;
  note = none;
}

unfoldable pub estimate_stablecoin : StablecoinEstimate → Result Text LegEstimate
estimate_stablecoin est =
    if ltb 8 est.decimals
    then err (
        codes "stablecoin decimals "
        ++ decimal est.decimals
        ++ codes " > 8 not supported: up-scaling would over-report the receipt")
    else ok (record {
      received_sats = some (est.receive_amount * 10 ^ (8 - est.decimals));
      fee_sats = some (est.miner_fees_sats + est.percent_fee);
      fee_asset = some lbtc;
      note = none;
    })

unfoldable pub estimate_shift : ℕ → Option ℕ → LegEstimate
estimate_shift amount_in none = no_estimate (codes "SideShift quoted no settle amount")
estimate_shift amount_in (some settled) = record {
  received_sats = some settled;
  fee_sats = some (if leb settled amount_in then amount_in - settled else 0);
  fee_asset = some usdt;
  note = none;
}

abbrev pub peg_in_note : Text
peg_in_note =
    codes
      "peg-in fees are applied by SideSwap at order time (plus the BTC network fee you pay to fund) — no pre-estimate"

abbrev pub peg_out_note : Text
peg_out_note = codes "peg-out fees are applied by SideSwap at order time — no pre-estimate"

abbrev pub pay_lightning_note : Text
pay_lightning_note =
    codes
      "Boltz submarine fees are invoice-specific — pass `invoice` to convert() for exact amounts"

abbrev pub receive_note : Text
receive_note =
    codes "SideShift variable-rate shift — the rate is fixed only when the deposit arrives"

module _ (ops : TextOps) (estimators : Estimators) where
  -- `estimateLeg(leg, amountIn, deps)`, by the method of the leg.
  unfoldable pub estimate_method : RouteMethod → RouteLeg → ℕ → Result Text LegEstimate
  estimate_method swap leg amount_in = do
    quote ← estimators.market_quote leg.from leg.to amount_in
    ok (estimate_swap leg quote)
  estimate_method receive_lightning leg amount_in = do
    est ← estimators.reverse_estimate amount_in
    ok (estimate_reverse est)
  estimate_method to_stablecoin leg amount_in = do
    est ← estimators.stablecoin_estimate leg.to leg.network amount_in
    estimate_stablecoin est
  estimate_method send leg amount_in = do
    amount ← estimators.shift_quote leg.network amount_in
    ok (
        estimate_shift amount_in
          (elim amount [ none ↦ none | some a ↦ usdt_decimal_to_sats ops a ]))
  estimate_method peg_in leg amount_in = ok (no_estimate peg_in_note)
  estimate_method peg_out leg amount_in = ok (no_estimate peg_out_note)
  estimate_method pay_lightning_invoice leg amount_in = ok (no_estimate pay_lightning_note)
  estimate_method receive leg amount_in = ok (no_estimate receive_note)

  unfoldable pub estimate_leg : RouteLeg → ℕ → Result Text LegEstimate
  estimate_leg leg amount_in = estimate_method leg.method leg amount_in

  abbrev pub or_unavailable : Result Text LegEstimate → LegEstimate
  or_unavailable (ok estimate) = estimate
  or_unavailable (err reason) = no_estimate (codes "estimate unavailable: " ++ reason)

  -- The estimate of a leg on what the leg before it is estimated to give.
  unfoldable pub estimate_next : RouteLeg → Option ℕ → LegEstimate
  estimate_next leg none = no_estimate (codes "upstream leg estimate unavailable — cannot chain")
  estimate_next leg (some carry) = or_unavailable (estimate_leg leg carry)

  -- The loop of `quoteRoute`.
  unfoldable pub estimate_legs : List RouteLeg → Option ℕ → List LegEstimate
  estimate_legs [] carry = []
  estimate_legs (leg ∷ rest) carry =
      let estimate = estimate_next leg carry in estimate ∷ estimate_legs rest estimate.received_sats

abbrev pub is_given : {A : Type 0} → Option A → Bool
is_given none = false
is_given (some a) = true

unfoldable pub all_received : List LegEstimate → Bool
all_received [] = true
all_received (e ∷ rest) = is_given e.received_sats && all_received rest

unfoldable pub all_fees : List LegEstimate → Bool
all_fees [] = true
all_fees (e ∷ rest) = is_given e.fee_sats && all_fees rest

abbrev pub same_asset : Option IntentAsset → Option IntentAsset → Bool
same_asset none none = true
same_asset none (some b) = false
same_asset (some a) none = false
same_asset (some a) (some b) = asset_eq a b

unfoldable pub all_in : Option IntentAsset → List LegEstimate → Bool
all_in asset [] = true
all_in asset (e ∷ rest) = same_asset e.fee_asset asset && all_in asset rest

-- `new Set(legs.map((l) => l.feeAsset)).size === 1`.
unfoldable pub one_fee_asset : List LegEstimate → Bool
one_fee_asset [] = false
one_fee_asset (e ∷ rest) = all_in e.fee_asset rest

unfoldable pub sum_fees : List LegEstimate → ℕ
sum_fees [] = 0
sum_fees (e ∷ rest) = elim e.fee_sats [ none ↦ 0 | some f ↦ f ] + sum_fees rest

-- The last leg's estimate, or the amount that goes in.
unfoldable pub last_received : Option ℕ → List LegEstimate → Option ℕ
last_received carry [] = carry
last_received carry (e ∷ rest) = last_received e.received_sats rest

unfoldable pub first_asset : List LegEstimate → Option IntentAsset
first_asset [] = none
first_asset (e ∷ rest) = e.fee_asset

-- The notes of the legs, numbered from `n`.
unfoldable pub notes_from : ℕ → List RouteLeg → List LegEstimate → List Text
notes_from n (leg ∷ legs) (e ∷ rest) =
    let others = notes_from (suc n) legs rest in
    elim e.note [
      | none ↦ others
      | some note ↦
          (codes "leg "
            ++ decimal n
            ++ codes " ("
            ++ provider_name leg.provider
            ++ codes "."
            ++ method_name leg.method
            ++ codes "): "
            ++ note)
          ∷ others
    ]
notes_from n [] rest = []
notes_from n (leg ∷ legs) [] = []

pub record RouteQuote : Type 0 where
  pub id : Text
  pub legs : List LegEstimate
  pub hops : ℕ
  pub custodial : Bool
  pub estimated_received_sats : Option ℕ
  pub estimated_fee_total_sats : Option ℕ
  pub fee_asset : Option IntentAsset
  pub estimate_complete : Bool
  pub notes : List Text

unfoldable pub fees_complete : List LegEstimate → Bool
fees_complete legs = all_fees legs && one_fee_asset legs

unfoldable pub common_asset : List LegEstimate → Option IntentAsset
common_asset legs = if fees_complete legs then first_asset legs else none

unfoldable pub fee_total : List LegEstimate → Option ℕ
fee_total legs = elim (common_asset legs) [ none ↦ none | some a ↦ some (sum_fees legs) ]

-- `quoteRoute(route, intent, deps)`.
unfoldable pub quote_route : TextOps → Estimators → Route → ℕ → RouteQuote
quote_route ops estimators route amount =
    let legs = estimate_legs ops estimators route.legs (some amount) in
    record {
      id = route.id;
      legs = legs;
      hops = route.hops;
      custodial = route.custodial;
      estimated_received_sats =
          if all_received legs then last_received (some amount) legs else none;
      estimated_fee_total_sats = fee_total legs;
      fee_asset = common_asset legs;
      estimate_complete = all_received legs;
      notes =
          notes_from 1 route.legs legs
          ++ (if not (fees_complete legs) && ltb 1 (length legs) && all_received legs
              then codes
                  "leg fees are denominated in different assets — compare estimatedReceivedSats across routes instead"
                ∷ []
              else []);
    }
