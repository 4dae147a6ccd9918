-- ===== src/Convert/Tests.antt =====
-- Conversions on concrete rails.
use depix_sdk.Common.{◌≡◌, ◌≢◌, ◌+◌, refl, true, false, none, some, [], ◌∷◌, ok, err, arith, All}
use depix_sdk.Common.Text.{codes, TextOps}
use depix_sdk.Errors.{platform_failure}
use depix_sdk.Routes.Legs.{
  Route, market_leg, peg_out_leg, depix, lbtc, IntentAsset, build_route, leg_id_of, join,
}
use depix_sdk.Routes.Enumerate.{
  enumerate_routes, chains, reach_pivot, exit_legs, entry_legs, routes_by_exit, has_boltz_variant,
  sort, insert, comes_before, is_roundtrip, entry_to, home_chains,
}
use depix_sdk.Convert.Choose.{
  resolve_single_route, resolve_routes_or_throw, some_route, selector_of, pick_route,
  unambiguous_route, only,
}
use depix_sdk.Convert.Chosen.{IsChoice, resolve_single_route-IsChoice}
use depix_sdk.Routes.Sound.{IsRouteFor}
use depix_sdk.Convert.{
  LegError, returned, ConvertParams, ConvertResult, ExecuteContext, convert_settled,
}
use depix_sdk.Multihop.{is_inflow}
use depix_sdk.Convert.Execute.{
  Rails, Rounds, PegStatus, ShiftStatus, execute_leg, execute_method, execute_market_swap, outcome,
}
use depix_sdk.Convert.Polling.{execute_leg-returns}
use depix_sdk.Convert.Honest.{IsHonest, is_custodial, execute_leg-IsHonest}
use depix_sdk.Convert.Quote.{
  Estimators, quote_route, fee_omitted, sum_fees, fee_total, common_asset, fees_complete, all_fees,
  one_fee_asset, all_in, first_asset, estimate_legs, estimate_next, estimate_leg, estimate_method,
  estimate_swap, fee_asset_of,
}
use depix_sdk.Convert.Estimates.{estimated, quote_route-estimated, quote_route-fee_total, IsFeeIn}

abbrev ops : TextOps
ops = record { trim = λ s. s; lower = λ s. s; trim-trim = λ s. refl; lower-lower = λ s. refl }

abbrev down : LegError
down = record {
  code = platform_failure;
  message = codes "down";
  is_guardrail_error = false;
  nothing_locked = false;
}

abbrev pegs : Rounds PegStatus
pegs = record {
  answer = λ k. ok (record { status = codes "Pending"; txid = none });
  clock = λ k. 100 + k;
}

abbrev shifts : Rounds ShiftStatus
shifts = record {
  answer = λ k. ok (record { status = codes "waiting"; settle_amount = none });
  clock = λ k. 100 + k;
}

-- A market that pays 900, a peg-out that stays pending; the other rails are down.
abbrev rails : Rails
rails = record {
  market_swap = λ from to amount. ok (codes "t1", 900);
  peg_in_order = err down;
  peg_out_send = λ address amount.
      ok (record { order_id = codes "o"; txid = codes "t2"; recv_amount = some 880 });
  peg_rounds = λ id. pegs;
  boltz_ready = ok tt;
  pay_lightning = λ invoice. err down;
  reverse_swap = λ amount. err down;
  stablecoin_swap = λ asset network amount address. err down;
  shift_send = λ network amount address refund. err down;
  shift_rounds = λ id. shifts;
  shift_receive = λ network refund. err down;
}

abbrev swap_route : Route
swap_route = record {
  id = codes "r";
  legs = market_leg depix lbtc ∷ [];
  hops = 1;
  custodial = false;
}

abbrev ctx : ExecuteContext
ctx = record { route = swap_route; wait = true; timeout_ms = 3; interval_ms = 1 }

abbrev params : ConvertParams
params = record {
  from = depix;
  to = lbtc;
  network = none;
  from_network = none;
  amount = 5000;
  route = none;
  wait = none;
  timeout_ms = none;
  address = some (codes "bc1q");
  invoice = none;
  refund_address = none;
}

execute_leg-returns_example : execute_leg ops rails ctx peg_out_leg params 100 ≢ none
execute_leg-returns_example =
    execute_leg-returns ops rails ctx 100 (λ id k. omega arith) (λ id k. omega arith) peg_out_leg
      params

abbrev swapped : ConvertResult
swapped = record {
  route = swap_route;
  status = convert_settled;
  txids = codes "t1" ∷ [];
  received_sats = some 900;
  custodial = false;
  tracking_id = none;
  funding = none;
  next_step = none;
}

swaps : execute_leg ops rails ctx (market_leg depix lbtc) params 100 ≡ some (returned swapped)
unfolding execute_leg execute_method execute_market_swap outcome market_leg
swaps = refl

execute_leg-IsHonest_example :
    IsHonest
      (is_inflow (market_leg depix lbtc).method)
      (is_custodial (market_leg depix lbtc).method)
      swapped
execute_leg-IsHonest_example =
    execute_leg-IsHonest ops rails ctx (market_leg depix lbtc) params 100 swapped swaps

abbrev estimators : Estimators
estimators = record {
  market_quote = λ from to amount. ok (record {
    recv_amount_sats = 900;
    server_fee_sats = 10;
    fixed_fee_sats = 5;
    quoted_fee_asset = fee_omitted;
  });
  reverse_estimate = λ amount. err (codes "down");
  stablecoin_estimate = λ asset network amount. err (codes "down");
  shift_quote = λ network amount. err (codes "down");
}

quote_route-estimated_example :
    (quote_route ops estimators swap_route 5000).estimated_received_sats
    ≡ estimated ops estimators swap_route.legs 5000
quote_route-estimated_example = quote_route-estimated ops estimators swap_route 5000

has_total : (quote_route ops estimators swap_route 5000).estimated_fee_total_sats ≡ some 15
unfolding quote_route fee_total common_asset fees_complete all_fees one_fee_asset all_in first_asset
    sum_fees estimate_legs estimate_next estimate_leg estimate_method estimate_swap fee_asset_of
    market_leg home_chains
has_total = refl

quote_route-fee_total_example :
    (asset : IntentAsset) × ((quote_route ops estimators swap_route 5000).fee_asset ≡ some asset)
    × All (IsFeeIn asset) (quote_route ops estimators swap_route 5000).legs
    × (sum_fees (quote_route ops estimators swap_route 5000).legs ≡ 15)
quote_route-fee_total_example = quote_route-fee_total ops estimators swap_route 5000 15 has_total

abbrev chosen : Route
chosen = build_route (market_leg depix lbtc ∷ [])

chooses : resolve_single_route params ≡ ok chosen
unfolding resolve_single_route resolve_routes_or_throw some_route selector_of pick_route
    unambiguous_route only enumerate_routes chains reach_pivot exit_legs entry_legs entry_to
    routes_by_exit has_boltz_variant sort insert comes_before is_roundtrip build_route leg_id_of
    join market_leg home_chains
chooses = refl

resolve_single_route-IsChoice_example :
    IsRouteFor (selector_of params) chosen
    × IsChoice none (enumerate_routes (selector_of params)) chosen
resolve_single_route-IsChoice_example = resolve_single_route-IsChoice params chosen chooses
