-- ===== src/Routes/Chain.antt =====
-- Every candidate route leads from the origin to the destination.
use depix_sdk.Common.{
  ℕ, ◌≤◌, ◌≡◌, refl, sym, ap, ◌∙◌, Bool, true, false, Option, none, some, List, [], ◌∷◌, ◌++◌,
  if◌then◌else◌, flat_map, ◌||◌, ◌&&◌, ==_iff, ◌==◌, All, All-append, All-map, arith, length,
}
use depix_sdk.Routes.Legs.{
  IntentAsset, IntentNetwork, depix, usdt, lbtc, btc, usdc, liquid, bitcoin, lightning, ethereum,
  polygon, arbitrum, optimism, base, tron, bsc, solana, RouteLeg, asset_eq, network_eq,
  asset_number, network_number, peg_in_leg, receive_lightning_leg, sideshift_receive_leg,
  peg_out_leg, pay_lightning_leg, to_stablecoin_leg, sideshift_send_leg, sideshift,
}
use depix_sdk.Routes.Enumerate.{
  has_boltz_variant, is_sideshift_network, sideshift_networks, is_or_unset, only_if, entry_legs,
  exit_legs,
}

abbrev asset_of : ℕ → IntentAsset
asset_of n =
    if n == 0
    then depix
    else if n == 1
    then usdt
    else if n == 2
    then lbtc
    else if n == 3
    then btc
    else usdc

asset_of-asset_number : (a : IntentAsset) → asset_of (asset_number a) ≡ a
asset_of-asset_number depix = refl
asset_of-asset_number usdt = refl
asset_of-asset_number lbtc = refl
asset_of-asset_number btc = refl
asset_of-asset_number usdc = refl

pub asset_eq_sound : (a b : IntentAsset) → asset_eq a b ≡ true → a ≡ b
asset_eq_sound a b h =
    sym (asset_of-asset_number a) ∙ (ap asset_of ((==_iff _ _).0 h) ∙ asset_of-asset_number b)

abbrev network_of : ℕ → IntentNetwork
network_of n =
    if n == 0
    then liquid
    else if n == 1
    then bitcoin
    else if n == 2
    then lightning
    else if n == 3
    then ethereum
    else if n == 4
    then polygon
    else if n == 5
    then arbitrum
    else if n == 6
    then optimism
    else if n == 7
    then base
    else if n == 8
    then tron
    else if n == 9
    then bsc
    else solana

network_of-network_number : (n : IntentNetwork) → network_of (network_number n) ≡ n
network_of-network_number liquid = refl
network_of-network_number bitcoin = refl
network_of-network_number lightning = refl
network_of-network_number ethereum = refl
network_of-network_number polygon = refl
network_of-network_number arbitrum = refl
network_of-network_number optimism = refl
network_of-network_number base = refl
network_of-network_number tron = refl
network_of-network_number bsc = refl
network_of-network_number solana = refl

pub network_eq_sound : (m n : IntentNetwork) → network_eq m n ≡ true → m ≡ n
network_eq_sound m n h =
    sym (network_of-network_number m)
    ∙ (ap network_of ((==_iff _ _).0 h) ∙ network_of-network_number n)

module _ {A : Type 0} where
  pub All-mono : {P Q : A → Type 0} → ((x : A) → P x → Q x) → (xs : List A) → All P xs → All Q xs
  All-mono f [] h = tt
  All-mono f (x ∷ xs) h = (f x h.0, All-mono f xs h.1)

  pub All-flat_map :
      {B : Type 0} (P : A → Type 0) (f : B → List A) (xs : List B)
      → All (λ x. All P (f x)) xs
      → All P (flat_map f xs)
  All-flat_map P f [] h = tt
  All-flat_map P f (x ∷ xs) h = All-append P (f x) (flat_map f xs) h.0 (All-flat_map P f xs h.1)

All-only_if :
    (P : RouteLeg → Type 0) (b : Bool) (l : RouteLeg) → (b ≡ true → P l) → All P (only_if b l)
All-only_if P true l h = (h refl, tt)
All-only_if P false l h = tt

-- Each leg starts where the one before it ended.
abbrev pub Connected :
    IntentAsset → IntentNetwork → List RouteLeg → IntentAsset → IntentNetwork → Type 0
Connected from origin [] to network = (from ≡ to) × (origin ≡ network)
Connected from origin (l ∷ ls) to network =
    (l.from ≡ from) × (l.from_network ≡ origin) × Connected l.to l.network ls to network

abbrev pub is_sideshift : RouteLeg → Bool
is_sideshift l = elim l.provider [ sideshift ↦ true | _ ↦ false ]

-- A leg is marked custodial exactly when SideShift carries it.
abbrev pub IsMarked : RouteLeg → Type 0
IsMarked l = l.custodial ≡ is_sideshift l

-- A chain from the origin to `to` on `network`, of at most `bound` legs.
pub record Leads (from : IntentAsset) (from_network : Option IntentNetwork) (to : IntentAsset)
    (network : IntentNetwork) (bound : ℕ) (legs : List RouteLeg) : Type 0 where
  pub origin : IntentNetwork
  pub allowed : is_or_unset origin from_network ≡ true
  pub connected : Connected from origin legs to network
  pub bounded : length legs ≤ bound
  pub marked : All IsMarked legs

pub Connected-append :
    (a : IntentAsset) (n : IntentNetwork) (legs : List RouteLeg) (l : RouteLeg)
    → Connected a n legs l.from l.from_network
    → Connected a n (legs ++ l ∷ []) l.to l.network
Connected-append a n [] l h = (sym h.0, sym h.1, (refl, refl))
Connected-append a n (k ∷ legs) l h = (h.0, h.1, Connected-append k.to k.network legs l h.2)

-- What an entry leg does: it starts at the origin and lands on Liquid.
abbrev pub IsEntry : IntentAsset → Option IntentNetwork → RouteLeg → Type 0
IsEntry from from_network l =
    (l.from ≡ from)
    × (is_or_unset l.from_network from_network ≡ true)
    × (l.network ≡ liquid)
    × IsMarked l

-- What an exit leg does: it leaves Liquid for the destination.
abbrev pub IsExit : IntentAsset → IntentNetwork → RouteLeg → Type 0
IsExit to network l = (l.from_network ≡ liquid) × (l.to ≡ to) × (l.network ≡ network) × IsMarked l

network_eq_refl : (n : IntentNetwork) → network_eq n n ≡ true
network_eq_refl n = ground arith

pub entry_legs-IsEntry :
    (from : IntentAsset) (from_network : Option IntentNetwork)
    → All (IsEntry from from_network) (entry_legs from from_network)
unfolding entry_legs peg_in_leg receive_lightning_leg sideshift_receive_leg
entry_legs-IsEntry depix from_network = tt
entry_legs-IsEntry lbtc from_network = tt
entry_legs-IsEntry usdc from_network = tt
entry_legs-IsEntry btc from_network =
    All-append _ (only_if (is_or_unset bitcoin from_network) peg_in_leg) _
      (All-only_if _ (is_or_unset bitcoin from_network) _ (λ e. (refl, e, refl, refl)))
      (All-only_if _ (is_or_unset lightning from_network) _ (λ e. (refl, e, refl, refl)))
entry_legs-IsEntry usdt none =
    All-map (IsEntry usdt none) sideshift_receive_leg sideshift_networks (
      (
        (refl, refl, refl, refl),
        (
          (refl, refl, refl, refl),
          ((refl, refl, refl, refl), ((refl, refl, refl, refl), ((refl, refl, refl, refl), tt))),
        ),
      ))
entry_legs-IsEntry usdt (some n) =
    All-only_if _ (is_sideshift_network n) _ (λ e. (refl, network_eq_refl n, refl, refl))

and_true : (a b : Bool) → (a && b) ≡ true → (a ≡ true) × (b ≡ true)
and_true a b h = ground arith

pub exit_legs-IsExit :
    (to : IntentAsset) (network : IntentNetwork) → All (IsExit to network) (exit_legs to network)
unfolding exit_legs peg_out_leg pay_lightning_leg to_stablecoin_leg sideshift_send_leg
exit_legs-IsExit to network =
    All-append _ (only_if (asset_eq to btc && network_eq network bitcoin) peg_out_leg) _
      (All-only_if _ (asset_eq to btc && network_eq network bitcoin) _ (λ e. (
        refl,
        sym (asset_eq_sound _ _ (and_true _ _ e).0),
        sym (network_eq_sound _ _ (and_true _ _ e).1),
        refl,
      )))
      (All-append _ (only_if (asset_eq to btc && network_eq network lightning) pay_lightning_leg) _
        (All-only_if _ (asset_eq to btc && network_eq network lightning) _ (λ e. (
          refl,
          sym (asset_eq_sound _ _ (and_true _ _ e).0),
          sym (network_eq_sound _ _ (and_true _ _ e).1),
          refl,
        )))
        (All-append _
          (only_if ((asset_eq to usdc || asset_eq to usdt) && has_boltz_variant to network)
            (to_stablecoin_leg to network))
          _
          (All-only_if _ ((asset_eq to usdc || asset_eq to usdt) && has_boltz_variant to network) _
            (λ e. (refl, refl, refl, refl)))
          (All-only_if _ (asset_eq to usdt && is_sideshift_network network) _
            (λ e. (refl, sym (asset_eq_sound _ _ (and_true _ _ e).0), refl, refl)))))
