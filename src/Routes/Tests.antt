-- ===== src/Routes/Tests.antt =====
-- Routes of three intents.
use depix_sdk.Common.{◌≡◌, refl, none, some, [], ◌∷◌, true, false, map, All}
use depix_sdk.Common.Text.{codes}
use depix_sdk.Routes.Legs.{
  RouteSelector, depix, usdt, lbtc, btc, polygon, build_route, leg_id_of, join, market_leg,
  to_stablecoin_leg, sideshift_send_leg, peg_in_leg, receive_lightning_leg,
}
use depix_sdk.Routes.Enumerate.{
  enumerate_routes, chains, reach_pivot, exit_legs, entry_legs, routes_by_exit, has_boltz_variant,
  sort, insert, comes_before, is_roundtrip, entry_to,
}
use depix_sdk.Routes.Sorted.{IsOrdered}
use depix_sdk.Routes.Sound.{IsRouteFor, enumerate_routes-IsRouteFor, enumerate_routes-IsOrdered}
use mathlib.Core.List.{Perm}

-- DePix to USDT on Polygon: by Boltz over L-BTC, or by SideShift over the wallet's USDT.
abbrev to_polygon : RouteSelector
to_polygon = record { from = depix; to = usdt; network = some polygon; from_network = none }

to_polygon_routes : map (λ r. r.custodial) (enumerate_routes to_polygon) ≡ false ∷ true ∷ []
unfolding enumerate_routes chains reach_pivot exit_legs routes_by_exit has_boltz_variant sort insert
    comes_before is_roundtrip build_route leg_id_of join market_leg to_stablecoin_leg
    sideshift_send_leg
to_polygon_routes = refl

-- BTC to L-BTC: a peg-in, or a Lightning swap; the smaller identifier comes first.
abbrev from_btc : RouteSelector
from_btc = record { from = btc; to = lbtc; network = none; from_network = none }

from_btc_routes :
    map (λ r. r.id) (enumerate_routes from_btc)
    ≡ codes "boltz.receiveLightning:BTC@lightning>LBTC@liquid"
      ∷ codes "sideswap.pegIn:BTC@bitcoin>LBTC@liquid"
      ∷ []
unfolding enumerate_routes chains entry_legs entry_to sort insert comes_before build_route leg_id_of
    join peg_in_leg receive_lightning_leg
from_btc_routes = refl

enumerate_routes-IsRouteFor_example : All (IsRouteFor to_polygon) (enumerate_routes to_polygon)
enumerate_routes-IsRouteFor_example = enumerate_routes-IsRouteFor to_polygon

enumerate_routes-IsOrdered_example :
    Perm (enumerate_routes to_polygon) (map build_route (chains depix usdt polygon none))
    × IsOrdered (enumerate_routes to_polygon)
enumerate_routes-IsOrdered_example = enumerate_routes-IsOrdered to_polygon
