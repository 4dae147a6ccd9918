-- ===== src/Routes/Leads.antt =====
-- The chains that the enumeration builds, from the origin to the destination.
use depix_sdk.Common.{
  ℕ, ◌≤◌, ◌≡◌, refl, sym, subst, ◌∙◌, Bool, true, Option, none, some, List, [], ◌∷◌, ◌++◌,
  if◌then◌else◌, map, ◌&&◌, not, All, All-append, All-keep, All-map, arith, length-append,
  Bool-cases, inl, inr,
}
use depix_sdk.Routes.Legs.{
  IntentAsset, IntentNetwork, usdt, liquid, RouteLeg, asset_eq, network_eq, market_leg,
  sideshift_receive_leg,
}
use depix_sdk.Routes.Enumerate.{
  is_liquid_asset, is_or_unset, entry_legs, exit_legs, entry_to, is_home, reach_pivot,
  routes_by_exit, home_chains, chains,
}
use depix_sdk.Routes.Chain.{
  asset_eq_sound, network_eq_sound, All-mono, All-flat_map, Connected, IsMarked, Leads,
  Connected-append, IsEntry, IsExit, entry_legs-IsEntry, exit_legs-IsExit,
}

Leads-mono :
    {from : IntentAsset} {from_network : Option IntentNetwork} {to : IntentAsset}
    {network : IntentNetwork} {m n : ℕ}
    → m ≤ n
    → (legs : List RouteLeg) → Leads from from_network to network m legs
    → Leads from from_network to network n legs
Leads-mono b legs l = record {
  origin = l.origin;
  allowed = l.allowed;
  connected = l.connected;
  bounded = omega (arith, l.bounded);
  marked = l.marked;
}

entry_to-Leads :
    (from : IntentAsset) (from_network : Option IntentNetwork) (to : IntentAsset) (l : RouteLeg)
    → IsEntry from from_network l
    → Leads from from_network to liquid 2 (entry_to to l)
unfolding entry_to market_leg
entry_to-Leads from from_network to l h = elim (Bool-cases (asset_eq l.to to)) [
  | inl e ↦
      rw (e, if◌then◌else◌)
        (record {
          origin = l.from_network;
          allowed = h.1;
          connected = (h.0, refl, (asset_eq_sound _ _ e, h.2));
          bounded = omega arith;
          marked = (h.3, tt);
        })
  | inr e ↦
      rw (e, if◌then◌else◌)
        (record {
          origin = l.from_network;
          allowed = h.1;
          connected = (h.0, refl, (refl, sym h.2, (refl, refl)));
          bounded = omega arith;
          marked = (h.3, (refl, tt));
        })
]

entries-Leads :
    (from : IntentAsset) (from_network : Option IntentNetwork) (to : IntentAsset)
    → All (Leads from from_network to liquid 2) (map (entry_to to) (entry_legs from from_network))
entries-Leads from from_network to =
    All-map _ (entry_to to) (entry_legs from from_network)
      (All-mono (entry_to-Leads from from_network to) _ (entry_legs-IsEntry from from_network))

market-Leads :
    (from : IntentAsset) (from_network : Option IntentNetwork) (to : IntentAsset)
    → is_or_unset liquid from_network ≡ true
    → Leads from from_network to liquid 2 (market_leg from to ∷ [])
unfolding market_leg
market-Leads from from_network to h = record {
  origin = liquid;
  allowed = h;
  connected = (refl, refl, (refl, refl));
  bounded = omega arith;
  marked = (refl, tt);
}

home_unset :
    (from : IntentAsset) (from_network : Option IntentNetwork)
    → is_home from from_network ≡ true
    → is_or_unset liquid from_network ≡ true
home_unset from from_network h = ground arith

reach_pivot-Leads :
    (from : IntentAsset) (from_network : Option IntentNetwork) (pivot : IntentAsset)
    → All (Leads from from_network pivot liquid 2) (reach_pivot from from_network pivot)
unfolding reach_pivot
reach_pivot-Leads from from_network pivot = elim (Bool-cases (is_home from from_network)) [
  | inr e ↦ rw (e, if◌then◌else◌) (entries-Leads from from_network pivot)
  | inl e ↦ elim (Bool-cases (asset_eq from pivot)) [
    | inl s ↦
        rw (e, s, if◌then◌else◌)
          (
            record {
              origin = liquid;
              allowed = home_unset from from_network e;
              connected = (asset_eq_sound _ _ s, refl);
              bounded = omega arith;
              marked = tt;
            },
            tt,
          )
    | inr s ↦
        rw (e, s, if◌then◌else◌)
          (market-Leads from from_network pivot (home_unset from from_network e), tt)
  ]
]

-- A prefix to the pivot of an exit, and the exit.
exit-Leads :
    (from : IntentAsset) (from_network : Option IntentNetwork) (to : IntentAsset)
    (network : IntentNetwork) (exit : RouteLeg)
    → IsExit to network exit
    → (legs : List RouteLeg) → Leads from from_network exit.from liquid 2 legs
    → Leads from from_network to network 3 (legs ++ exit ∷ [])
exit-Leads from from_network to network exit h legs l = record {
  origin = l.origin;
  allowed = l.allowed;
  connected =
      subst (λ a. Connected from l.origin (legs ++ exit ∷ []) a network) h.1
        (subst (λ n. Connected from l.origin (legs ++ exit ∷ []) exit.to n) h.2
          (Connected-append from l.origin legs exit
            (subst (λ n. Connected from l.origin legs exit.from n) (sym h.0) l.connected)));
  bounded = omega (arith, l.bounded, length-append legs (exit ∷ []));
  marked = All-append IsMarked legs (exit ∷ []) l.marked (h.3, tt);
}

routes_by_exit-Leads :
    (from : IntentAsset) (from_network : Option IntentNetwork) (to : IntentAsset)
    (network : IntentNetwork) (exit : RouteLeg)
    → IsExit to network exit
    → All (Leads from from_network to network 3) (routes_by_exit from from_network exit)
unfolding routes_by_exit
routes_by_exit-Leads from from_network to network exit h =
    All-keep _ _ (map (λ prefix. prefix ++ exit ∷ []) (reach_pivot from from_network exit.from)) (
      All-map _ (λ prefix. prefix ++ exit ∷ []) (reach_pivot from from_network exit.from)
        (All-mono (exit-Leads from from_network to network exit h) _
          (reach_pivot-Leads from from_network exit.from)))

inbound-Leads : All (Leads usdt none usdt liquid 2) (map (λ l. l ∷ []) (entry_legs usdt none))
unfolding entry_legs sideshift_receive_leg
inbound-Leads =
    let from_source : (n : IntentNetwork)
        → Leads usdt none usdt liquid 2 (sideshift_receive_leg n ∷ []) =
      λ n. record {
        origin = n;
        allowed = refl;
        connected = (refl, refl, (refl, refl));
        bounded = omega arith;
        marked = (refl, tt);
      } in
    (from_source _, (from_source _, (from_source _, (from_source _, (from_source _, tt)))))

home_chains-Leads :
    (from to : IntentAsset) (from_network : Option IntentNetwork)
    → is_or_unset liquid from_network ≡ true
    → All (Leads from from_network to liquid 2) (home_chains from to from_network)
unfolding home_chains
home_chains-Leads from to (some n) h = elim (Bool-cases (asset_eq from to)) [
  | inr e ↦ rw (e, not, if◌then◌else◌) (market-Leads from (some n) to h, tt)
  | inl e ↦ rw (e, not, if◌then◌else◌) tt
]
home_chains-Leads from to none h = elim (Bool-cases (asset_eq from to)) [
  | inr e ↦ rw (e, not, if◌then◌else◌) (market-Leads from none to h, tt)
  | inl e ↦ elim (Bool-cases (asset_eq from usdt)) [
    | inr u ↦ rw (e, not, if◌then◌else◌, u) tt
    | inl u ↦
        rw (e, not, if◌then◌else◌, u)
          (subst (λ a. All (Leads a none to liquid 2) (map (λ l. l ∷ []) (entry_legs usdt none)))
            (sym (asset_eq_sound _ _ u))
            (subst
              (λ a. All (Leads usdt none a liquid 2) (map (λ l. l ∷ []) (entry_legs usdt none)))
              (sym (asset_eq_sound _ _ u) ∙ asset_eq_sound _ _ e) inbound-Leads))
  ]
]

and_left : (a b : Bool) → (a && b) ≡ true → a ≡ true
and_left a b h = ground arith

-- The chains that end on Liquid.
abbrev liquid_chains : IntentAsset → IntentAsset → Option IntentNetwork → List (List RouteLeg)
liquid_chains from to from_network =
    if is_home from from_network
    then home_chains from to from_network
    else map (entry_to to) (entry_legs from from_network)

at_home :
    (from to : IntentAsset) (from_network : Option IntentNetwork)
    → All (Leads from from_network to liquid 3) (liquid_chains from to from_network)
at_home from to from_network = elim (Bool-cases (is_home from from_network)) [
  | inl e ↦
      rw (e, if◌then◌else◌)
        (All-mono (Leads-mono (omega arith)) _
          (home_chains-Leads from to from_network (home_unset from from_network e)))
  | inr e ↦
      rw (e, if◌then◌else◌)
        (All-mono (Leads-mono (omega arith)) _ (entries-Leads from from_network to))
]

-- Every chain leads from the origin to the destination in at most three legs.
pub chains-Leads :
    (from to : IntentAsset) (network : IntentNetwork) (from_network : Option IntentNetwork)
    → All (Leads from from_network to network 3) (chains from to network from_network)
unfolding chains
chains-Leads from to network from_network =
    elim (Bool-cases (network_eq network liquid && is_liquid_asset to)) [
      | inr e ↦
          rw (e, if◌then◌else◌)
            (All-flat_map _ (routes_by_exit from from_network) (exit_legs to network) (
              All-mono (routes_by_exit-Leads from from_network to network) _
                (exit_legs-IsExit to network)))
      | inl e ↦
          rw (e, if◌then◌else◌)
            (subst (λ n. All (Leads from from_network to n 3) (liquid_chains from to from_network))
              (sym (network_eq_sound network liquid (and_left _ _ e)))
              (at_home from to from_network))
    ]
