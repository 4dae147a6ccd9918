-- ===== src/Routes/Legs.antt =====
-- The types of src/convert/routes.ts, its leg constructors, and the identifier of a route.
use depix_sdk.Common.{ℕ, Bool, true, false, Option, List, [], ◌∷◌, ◌++◌, any, map, length, ◌==◌}
use depix_sdk.Common.Text.{Text, codes}

pub data IntentAsset : Type 0 where
  depix usdt lbtc btc usdc : IntentAsset

pub data IntentNetwork : Type 0 where
  liquid bitcoin lightning ethereum polygon arbitrum optimism base tron bsc solana : IntentNetwork

pub data RouteProvider : Type 0 where
  sideswap boltz sideshift : RouteProvider

pub data RouteMethod : Type 0 where
  swap peg_in peg_out pay_lightning_invoice receive_lightning to_stablecoin send receive :
      RouteMethod

pub record RouteLeg : Type 0 where
  pub provider : RouteProvider
  pub method : RouteMethod
  pub from : IntentAsset
  pub from_network : IntentNetwork
  pub to : IntentAsset
  pub network : IntentNetwork
  pub custodial : Bool

pub record Route : Type 0 where
  pub id : Text
  pub legs : List RouteLeg
  pub hops : ℕ
  pub custodial : Bool

-- An absent field is `none`.
pub record RouteSelector : Type 0 where
  pub from : IntentAsset
  pub to : IntentAsset
  pub network : Option IntentNetwork
  pub from_network : Option IntentNetwork

-- Assets and networks are compared by their numbers, as the source compares their names.
abbrev pub asset_number : IntentAsset → ℕ
asset_number depix = 0
asset_number usdt = 1
asset_number lbtc = 2
asset_number btc = 3
asset_number usdc = 4

abbrev pub network_number : IntentNetwork → ℕ
network_number liquid = 0
network_number bitcoin = 1
network_number lightning = 2
network_number ethereum = 3
network_number polygon = 4
network_number arbitrum = 5
network_number optimism = 6
network_number base = 7
network_number tron = 8
network_number bsc = 9
network_number solana = 10

abbrev pub asset_eq : IntentAsset → IntentAsset → Bool
asset_eq a b = asset_number a == asset_number b

abbrev pub network_eq : IntentNetwork → IntentNetwork → Bool
network_eq m n = network_number m == network_number n

abbrev pub asset_name : IntentAsset → Text
asset_name depix = codes "DEPIX"
asset_name usdt = codes "USDT"
asset_name lbtc = codes "LBTC"
asset_name btc = codes "BTC"
asset_name usdc = codes "USDC"

abbrev pub network_name : IntentNetwork → Text
network_name liquid = codes "liquid"
network_name bitcoin = codes "bitcoin"
network_name lightning = codes "lightning"
network_name ethereum = codes "ethereum"
network_name polygon = codes "polygon"
network_name arbitrum = codes "arbitrum"
network_name optimism = codes "optimism"
network_name base = codes "base"
network_name tron = codes "tron"
network_name bsc = codes "bsc"
network_name solana = codes "solana"

abbrev pub provider_name : RouteProvider → Text
provider_name sideswap = codes "sideswap"
provider_name boltz = codes "boltz"
provider_name sideshift = codes "sideshift"

abbrev pub method_name : RouteMethod → Text
method_name swap = codes "swap"
method_name peg_in = codes "pegIn"
method_name peg_out = codes "pegOut"
method_name pay_lightning_invoice = codes "payLightningInvoice"
method_name receive_lightning = codes "receiveLightning"
method_name to_stablecoin = codes "toStablecoin"
method_name send = codes "send"
method_name receive = codes "receive"

-- `legIdOf`.
unfoldable pub leg_id_of : RouteLeg → Text
leg_id_of leg =
    provider_name leg.provider
    ++ b'.'
      ∷ (method_name leg.method
          ++ b':'
            ∷ (asset_name leg.from
                ++ b'@'
                  ∷ (network_name leg.from_network
                      ++ b'>' ∷ (asset_name leg.to ++ b'@' ∷ network_name leg.network))))

-- `Array.prototype.join`.
unfoldable pub join : Text → List Text → Text
join sep [] = []
join sep (s ∷ []) = s
join sep (s ∷ t ∷ rest) = s ++ sep ++ join sep (t ∷ rest)

unfoldable pub build_route : List RouteLeg → Route
build_route legs = record {
  id = join (b'+' ∷ []) (map leg_id_of legs);
  legs = legs;
  hops = length legs;
  custodial = any (λ l. l.custodial) legs;
}

unfoldable pub market_leg : IntentAsset → IntentAsset → RouteLeg
market_leg from to = record {
  provider = sideswap;
  method = swap;
  from = from;
  from_network = liquid;
  to = to;
  network = liquid;
  custodial = false;
}

unfoldable pub peg_in_leg : RouteLeg
peg_in_leg = record {
  provider = sideswap;
  method = peg_in;
  from = btc;
  from_network = bitcoin;
  to = lbtc;
  network = liquid;
  custodial = false;
}

unfoldable pub receive_lightning_leg : RouteLeg
receive_lightning_leg = record {
  provider = boltz;
  method = receive_lightning;
  from = btc;
  from_network = lightning;
  to = lbtc;
  network = liquid;
  custodial = false;
}

unfoldable pub sideshift_receive_leg : IntentNetwork → RouteLeg
sideshift_receive_leg source = record {
  provider = sideshift;
  method = receive;
  from = usdt;
  from_network = source;
  to = usdt;
  network = liquid;
  custodial = true;
}

unfoldable pub peg_out_leg : RouteLeg
peg_out_leg = record {
  provider = sideswap;
  method = peg_out;
  from = lbtc;
  from_network = liquid;
  to = btc;
  network = bitcoin;
  custodial = false;
}

unfoldable pub pay_lightning_leg : RouteLeg
pay_lightning_leg = record {
  provider = boltz;
  method = pay_lightning_invoice;
  from = lbtc;
  from_network = liquid;
  to = btc;
  network = lightning;
  custodial = false;
}

unfoldable pub to_stablecoin_leg : IntentAsset → IntentNetwork → RouteLeg
to_stablecoin_leg to network = record {
  provider = boltz;
  method = to_stablecoin;
  from = lbtc;
  from_network = liquid;
  to = to;
  network = network;
  custodial = false;
}

unfoldable pub sideshift_send_leg : IntentNetwork → RouteLeg
sideshift_send_leg network = record {
  provider = sideshift;
  method = send;
  from = usdt;
  from_network = liquid;
  to = usdt;
  network = network;
  custodial = true;
}
