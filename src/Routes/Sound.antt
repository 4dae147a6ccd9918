-- ===== src/Routes/Sound.antt =====
-- What the enumeration promises of its candidates.
use mathlib.Core.List.{Perm}
use depix_sdk.Common.{◌≡◌, refl, List, [], ◌∷◌, any, map, length, arith, All, All-map}
use depix_sdk.Routes.Legs.{RouteLeg, Route, RouteSelector, build_route}
use depix_sdk.Routes.Enumerate.{enumerate_routes, network_or_liquid, chains}
use depix_sdk.Routes.Chain.{All-mono, Leads, IsMarked, is_sideshift}
use depix_sdk.Routes.Leads.{chains-Leads}
use depix_sdk.Routes.Sorted.{All-sort, IsOrdered, sort-IsOrdered, sort-perm}

-- A route for the selector: its legs lead from the origin to the destination over at most three
-- hops, it counts them, and it is custodial exactly when SideShift carries one of them.
pub record IsRouteFor (s : RouteSelector) (r : Route) : Type 0 where
  pub leads : Leads s.from s.from_network s.to (network_or_liquid s.network) 3 r.legs
  pub counted : r.hops ≡ length r.legs
  pub custody : r.custodial ≡ any is_sideshift r.legs

any_marked :
    (legs : List RouteLeg) → All IsMarked legs → any (λ l. l.custodial) legs ≡ any is_sideshift legs
any_marked [] h = refl
any_marked (l ∷ legs) h = ground (arith, any_marked legs h.1, h.0)

built :
    (s : RouteSelector) (legs : List RouteLeg)
    → Leads s.from s.from_network s.to (network_or_liquid s.network) 3 legs
    → IsRouteFor s (build_route legs)
unfolding build_route
built s legs l = record { leads = l; counted = refl; custody = any_marked legs l.marked }

-- Every candidate is a chain of at most three legs, each starting where the one before it ended, from
-- the asset asked for, on a network that the selector allows, to the destination; and it is marked
-- custodial exactly when one of its legs is SideShift's.
pub enumerate_routes-IsRouteFor : (s : RouteSelector) → All (IsRouteFor s) (enumerate_routes s)
unfolding enumerate_routes
enumerate_routes-IsRouteFor s =
    let found = chains s.from s.to (network_or_liquid s.network) s.from_network in
    All-sort (IsRouteFor s) (map build_route found) (
      All-map (IsRouteFor s) build_route found (
        All-mono (built s) found
          (chains-Leads s.from s.to (network_or_liquid s.network) s.from_network)))

-- The candidates are the chains that the rails allow, each as often as it is found, in this order: no
-- candidate stands, anywhere in the list, before one with fewer hops, nor before a non-custodial one
-- of as many hops when it is custodial, nor before one that ties on both and has the smaller
-- identifier.
pub enumerate_routes-IsOrdered :
    (s : RouteSelector)
    → Perm
        (enumerate_routes s)
        (map build_route (chains s.from s.to (network_or_liquid s.network) s.from_network))
      × IsOrdered (enumerate_routes s)
unfolding enumerate_routes
enumerate_routes-IsOrdered s = (sort-perm _, sort-IsOrdered _)
