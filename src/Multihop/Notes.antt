-- ===== src/Multihop/Notes.antt =====
-- The texts of src/convert/multihop.ts that reach the caller or the stored plan.
use depix_sdk.Common.{
  ℕ, zero, suc, ◌≡◌, refl, Option, none, some, List, [], ◌∷◌, ◌++◌, if◌then◌else◌, ◌||◌, ltb,
}
use depix_sdk.Common.Text.{Text, codes}
use depix_sdk.Common.Decimal.{decimal}
use depix_sdk.Routes.Legs.{
  Route, RouteLeg, lbtc, depix, usdt, asset_eq, asset_name, provider_name, method_name, join,
}
use depix_sdk.Convert.{
  ConvertStatus, convert_settled, convert_pending, convert_awaiting_funding, convert_refunded,
  convert_refund_pending, convert_failed, leg_as_convert_call,
}

-- `legs.map((leg, i) => ...)`, numbered from `n`.
unfoldable pub numbered : ℕ → List RouteLeg → List Text
numbered n [] = []
numbered n (leg ∷ rest) =
    (decimal n ++ codes ") " ++ leg_as_convert_call leg) ∷ numbered (suc n) rest

unfoldable pub drop : {A : Type 0} → ℕ → List A → List A
drop n [] = []
drop zero (x ∷ xs) = x ∷ xs
drop (suc n) (x ∷ xs) = drop n xs

pub drop-zero : {A : Type 0} (xs : List A) → drop zero xs ≡ xs
unfolding drop
drop-zero [] = refl
drop-zero (x ∷ xs) = refl

unfoldable pub manual_remaining_legs : Route → ℕ → Text
manual_remaining_legs route from = join (codes "; ") (numbered 1 (drop from route.legs))

unfoldable pub leg_label : Route → RouteLeg → ℕ → Text
leg_label route leg index =
    codes "leg "
    ++ decimal (suc index)
    ++ codes "/"
    ++ decimal route.hops
    ++ codes " ("
    ++ provider_name leg.provider
    ++ codes "."
    ++ method_name leg.method
    ++ codes ")"

unfoldable pub status_name : ConvertStatus → Text
status_name convert_settled = codes "settled"
status_name convert_pending = codes "pending"
status_name convert_awaiting_funding = codes "awaiting_funding"
status_name convert_refunded = codes "refunded"
status_name convert_refund_pending = codes "refund_pending"
status_name convert_failed = codes "failed"

module _ (route : Route) (plan_id : Text) (leg : RouteLeg) (i : ℕ) where
  -- The claim was not won: its name is `already_active` or `not_found`.
  unfoldable pub driven_elsewhere : Text → Text
  driven_elsewhere claim =
      leg_label route leg i
      ++ codes " is already being driven ("
      ++ claim
      ++ codes "); another recover()/open() pass owns plan "
      ++ plan_id
      ++ codes " — wallet.getPending() tracks it."

  unfoldable pub saved_for_retry : Text → Text
  saved_for_retry message =
      leg_label route leg i
      ++ codes " failed before moving anything ("
      ++ message
      ++ codes "). Conversion plan "
      ++ plan_id
      ++ codes " is saved — wallet.recover() retries it; wallet.getPending() tracks it."

  unfoldable pub threw_note : Text → Text
  threw_note message =
      leg_label route leg i
      ++ codes " threw: "
      ++ message
      ++ codes ". The wallet holds the previous leg's output; verify what settled "
      ++ codes "(listTransactions()/provider status), then run the remaining legs manually: "
      ++ manual_remaining_legs route i
      ++ codes " — use the actually-received amount as each leg's amount."

  unfoldable pub funding_step : Option Text → Text
  funding_step said =
      elim said [ some t ↦ t | none ↦ codes "fund the entry leg." ]
      ++ codes " Conversion plan "
      ++ plan_id
      ++ codes " is saved — once the "
      ++ codes "funds land, wallet.recover() (or the next open()) continues the remaining legs; "
      ++ codes "wallet.getPending() tracks it."

  unfoldable pub in_flight_step : Option Text → Text
  in_flight_step said =
      elim said [ some t ↦ t | none ↦ leg_label route leg i ++ codes " has not settled yet." ]
      ++ codes " Conversion plan "
      ++ plan_id
      ++ codes " is saved — wallet.recover() resumes it from "
      ++ leg_label route leg i
      ++ codes "; wallet.getPending() tracks it."

  unfoldable pub held_asset : Text
  held_asset =
      if asset_eq leg.from lbtc || asset_eq leg.from depix || asset_eq leg.from usdt
      then asset_name leg.from
      else codes "the intermediate asset"

  unfoldable pub ended_step : ConvertStatus → Option Text → Text
  ended_step status (some said) = said
  ended_step status none =
      if ltb 0 i
      then leg_label route leg i
        ++ codes " "
        ++ status_name status
        ++ codes " — this wallet now holds "
        ++ held_asset
        ++ codes "; re-run the remaining conversion when ready: "
        ++ manual_remaining_legs route i
        ++ codes "."
      else leg_label route leg i
        ++ codes " "
        ++ status_name status
        ++ codes " — nothing was delivered."

  unfoldable pub unsized_note : Text
  unsized_note =
      leg_label route leg i
      ++ codes " settled but did not report the received amount; "
      ++ codes "run the remaining legs manually with the actually-received amount: "
      ++ manual_remaining_legs route (suc i)
      ++ codes "."

  unfoldable pub resumed_unsized_note : Text
  resumed_unsized_note =
      leg_label route leg i
      ++ codes " settled without a reported amount — "
      ++ codes "run the remaining legs manually: "
      ++ manual_remaining_legs route (suc i)

  -- What a probe could not learn; a market swap is to be run again too.
  unfoldable pub unknowable_note : Text → ℕ → Text
  unknowable_note detail next =
      leg_label route leg i
      ++ codes ": "
      ++ detail
      ++ codes "; then run the remaining legs manually: "
      ++ manual_remaining_legs route next

unfoldable pub unknown_input_note : Route → ℕ → Text
unknown_input_note route i =
    codes "leg "
    ++ decimal i
    ++ codes "'s settled amount is unknown — run the remaining legs manually: "
    ++ manual_remaining_legs route i

unfoldable pub no_such_leg_note : ℕ → ℕ → Text
no_such_leg_note i count =
    codes "plan points at leg " ++ decimal (suc i) ++ codes " but the route has " ++ decimal count
