-- ===== src/Routes/Enumerate.antt =====
-- `enumerateRoutes` of src/convert/routes.ts. `sort` is an insertion sort by the source's comparison:
-- ECMAScript's sort is stable, and on a total order every sort gives the same list.
use depix_sdk.Common.{
  Bool, true, false, Option, none, some, List, [], ◌∷◌, ◌++◌, if◌then◌else◌, any, map, keep,
  flat_map, ◌||◌, ◌&&◌, not, ltb, ◌==◌,
}
use depix_sdk.Common.Text.{text_ltb}
use depix_sdk.Routes.Legs.{
  IntentAsset, depix, usdt, lbtc, btc, usdc, IntentNetwork, liquid, bitcoin, lightning, ethereum,
  polygon, arbitrum, optimism, base, tron, bsc, solana, RouteLeg, Route, RouteSelector, asset_eq,
  network_eq, build_route, market_leg, peg_in_leg, receive_lightning_leg, sideshift_receive_leg,
  peg_out_leg, pay_lightning_leg, to_stablecoin_leg, sideshift_send_leg,
}

-- `boltzVariantKey(asset, network) !== null`, by `VARIANT_KEYS` of stablecoin.ts.
unfoldable pub has_boltz_variant : IntentAsset → IntentNetwork → Bool
has_boltz_variant usdc arbitrum = true
has_boltz_variant usdc polygon = true
has_boltz_variant usdc ethereum = true
has_boltz_variant usdc optimism = true
has_boltz_variant usdc base = true
has_boltz_variant usdt arbitrum = true
has_boltz_variant usdt polygon = true
has_boltz_variant usdt ethereum = true
has_boltz_variant usdt optimism = true
has_boltz_variant usdt tron = true
has_boltz_variant _ _ = false

-- A row of `USDT_NETWORKS` of sideshift.ts.
pub record UsdtNetwork : Type 0 where
  pub id : IntentNetwork
  pub requires_shift : Bool

abbrev pub usdt_networks : List UsdtNetwork
usdt_networks =
    record { id = liquid; requires_shift = false }
    ∷ record { id = ethereum; requires_shift = true }
    ∷ record { id = tron; requires_shift = true }
    ∷ record { id = bsc; requires_shift = true }
    ∷ record { id = polygon; requires_shift = true }
    ∷ record { id = solana; requires_shift = true }
    ∷ []

abbrev pub sideshift_networks : List IntentNetwork
sideshift_networks = map (λ n. n.id) (keep (λ n. n.requires_shift) usdt_networks)

abbrev pub is_sideshift_network : IntentNetwork → Bool
is_sideshift_network network = any (network_eq network) sideshift_networks

abbrev pub is_liquid_asset : IntentAsset → Bool
is_liquid_asset asset = any (asset_eq asset) (depix ∷ usdt ∷ lbtc ∷ [])

-- `fromNetwork === undefined || fromNetwork === n`.
abbrev pub is_or_unset : IntentNetwork → Option IntentNetwork → Bool
is_or_unset n none = true
is_or_unset n (some m) = network_eq m n

-- `if (test) legs.push(leg);`
abbrev pub only_if : Bool → RouteLeg → List RouteLeg
only_if true leg = leg ∷ []
only_if false leg = []

unfoldable pub entry_legs : IntentAsset → Option IntentNetwork → List RouteLeg
entry_legs btc from_network =
    only_if (is_or_unset bitcoin from_network) peg_in_leg
    ++ only_if (is_or_unset lightning from_network) receive_lightning_leg
entry_legs usdt (some n) = only_if (is_sideshift_network n) (sideshift_receive_leg n)
entry_legs usdt none = map sideshift_receive_leg sideshift_networks
entry_legs _ from_network = []

unfoldable pub exit_legs : IntentAsset → IntentNetwork → List RouteLeg
exit_legs to network =
    only_if (asset_eq to btc && network_eq network bitcoin) peg_out_leg
    ++ (only_if (asset_eq to btc && network_eq network lightning) pay_lightning_leg
        ++ (only_if ((asset_eq to usdc || asset_eq to usdt) && has_boltz_variant to network)
              (to_stablecoin_leg to network)
            ++ only_if (asset_eq to usdt && is_sideshift_network network)
                (sideshift_send_leg network)))

-- An entry, and the market swap where it lands on another asset.
unfoldable pub entry_to : IntentAsset → RouteLeg → List RouteLeg
entry_to asset entry =
    if asset_eq entry.to asset then entry ∷ [] else entry ∷ market_leg entry.to asset ∷ []

-- The wallet's own holdings are the origin.
abbrev pub is_home : IntentAsset → Option IntentNetwork → Bool
is_home from from_network = is_liquid_asset from && is_or_unset liquid from_network

unfoldable pub reach_pivot : IntentAsset → Option IntentNetwork → IntentAsset → List (List RouteLeg)
reach_pivot from from_network pivot =
    if is_home from from_network
    then if asset_eq from pivot then [] ∷ [] else (market_leg from pivot ∷ []) ∷ []
    else map (entry_to pivot) (entry_legs from from_network)

-- A chain that starts where its exit ends.
unfoldable pub is_roundtrip : List RouteLeg → RouteLeg → Bool
is_roundtrip [] exit = false
is_roundtrip (first ∷ rest) exit =
    asset_eq first.from exit.to && network_eq first.from_network exit.network

-- The body of the inner loop for one exit.
unfoldable pub routes_by_exit : IntentAsset → Option IntentNetwork → RouteLeg → List (List RouteLeg)
routes_by_exit from from_network exit =
    keep (λ legs. not (is_roundtrip legs exit))
      (map (λ prefix. prefix ++ exit ∷ []) (reach_pivot from from_network exit.from))

-- The chains of legs in the order in which they are pushed.
unfoldable pub home_chains : IntentAsset → IntentAsset → Option IntentNetwork → List (List RouteLeg)
home_chains from to from_network =
    if not (asset_eq from to) then (market_leg from to ∷ []) ∷ [] else elim from_network [
      | none ↦ if asset_eq from usdt then map (λ e. e ∷ []) (entry_legs usdt none) else []
      | some n ↦ []
    ]

unfoldable pub chains :
    IntentAsset → IntentAsset → IntentNetwork → Option IntentNetwork → List (List RouteLeg)
chains from to network from_network =
    if network_eq network liquid && is_liquid_asset to
    then if is_home from from_network
      then home_chains from to from_network
      else map (entry_to to) (entry_legs from from_network)
    else flat_map (routes_by_exit from from_network) (exit_legs to network)

-- `a` comes strictly before `b`: the comparison is negative.
unfoldable pub comes_before : Route → Route → Bool
comes_before a b =
    if not (a.hops == b.hops)
    then ltb a.hops b.hops
    else if a.custodial
    then b.custodial && text_ltb a.id b.id
    else b.custodial || text_ltb a.id b.id

unfoldable pub insert : Route → List Route → List Route
insert r [] = r ∷ []
insert r (s ∷ rest) =
    let inserted = insert r rest in if comes_before s r then s ∷ inserted else r ∷ s ∷ rest

unfoldable pub sort : List Route → List Route
sort [] = []
sort (r ∷ rest) = insert r (sort rest)

abbrev pub network_or_liquid : Option IntentNetwork → IntentNetwork
network_or_liquid none = liquid
network_or_liquid (some n) = n

unfoldable pub enumerate_routes : RouteSelector → List Route
enumerate_routes selector = sort (
    map build_route
      (chains selector.from selector.to (network_or_liquid selector.network) selector.from_network))
