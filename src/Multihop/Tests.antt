-- ===== src/Multihop/Tests.antt =====
-- A conversion of DePix into bitcoin in two legs, and its recovery.
use depix_sdk.Common.{
  map, ℕ, zero, suc, ◌≡◌, ◌⊎◌, refl, none, some, [], ◌∷◌, true, false, ok, err, arith, subst, All,
  ltb,
}
use depix_sdk.Common.Text.{Text, codes, TextOps}
use depix_sdk.Errors.{platform_failure}
use depix_sdk.Vault.{Vault, missing, parsed, read_envelopes, locate}
use depix_sdk.Vault.Sample.{sample_vault}
use depix_sdk.Routes.Legs.{Route, market_leg, peg_out_leg, depix, lbtc, btc, bitcoin}
use depix_sdk.Plans.{
  StoredConversionPlan, StoredPlanLegResult, executing, in_flight, leg_result, Plans, Envelope,
  decrypt, get,
}
use depix_sdk.Plans.Rewrites.{IsSound, IsOwn}
use depix_sdk.Convert.{ConvertResult, convert_settled, ConvertParams, ExecuteContext}
use depix_sdk.Convert.{LegAnswer, returned}
use depix_sdk.Multihop.{LegCall, Draw, first_value_leg_index, is_authorized_plan_continuation}
use depix_sdk.Multihop.Drive.{drive_plan}
use depix_sdk.Multihop.Held.{IsHeld}
use depix_sdk.Multihop.Kept.{IsOver, drive_plan-keeps_plan}
use depix_sdk.Multihop.Chain.{IsChain, IsPaidOut, drive_plan-IsChain}
use depix_sdk.Multihop.Settles.{drive_plan-settles}
use depix_sdk.Multihop.Resume.{Providers, resume_one_plan}
use depix_sdk.Multihop.Recovery.{resume_one_plan-IsChain}
use depix_sdk.Multihop.Passes.{no_plans, execute_multi_hop_route}
use depix_sdk.Multihop.Start.{execute_multi_hop_route-counts_once}

abbrev v : Vault StoredConversionPlan
v = sample_vault StoredConversionPlan

abbrev ops : TextOps
ops = record { trim = λ s. s; lower = λ s. s; trim-trim = λ s. refl; lower-lower = λ s. refl }

abbrev two_legs : Route
two_legs = record {
  id = codes "r";
  legs = market_leg depix lbtc ∷ peg_out_leg ∷ [];
  hops = 2;
  custodial = false;
}

abbrev params : ConvertParams
params = record {
  from = depix;
  to = btc;
  network = some bitcoin;
  from_network = none;
  amount = 5000;
  route = none;
  wait = none;
  timeout_ms = none;
  address = some (codes "bc1q");
  invoice = none;
  refund_address = none;
}

abbrev ctx : ExecuteContext
ctx = record { route = two_legs; wait = true; timeout_ms = 900000; interval_ms = 5000 }

-- Every leg pays out 900.
abbrev paid_out : ConvertResult
paid_out = record {
  route = two_legs;
  status = convert_settled;
  txids = codes "t" ∷ [];
  received_sats = some 900;
  custodial = false;
  tracking_id = none;
  funding = none;
  next_step = none;
}

abbrev run_leg : ℕ → Plans v → LegCall → LegAnswer
run_leg i file call = returned paid_out

abbrev draw : ℕ → Draw → Text
draw i d = codes "iv"

abbrev providers : Providers
providers = record {
  shift_status = λ id. err platform_failure;
  peg_status = λ id peg_in. ok (codes "Done");
  probe_boltz_swap = none;
}

abbrev plan : StoredConversionPlan
plan = record {
  plan_id = codes "p1";
  intent = record {
    from = codes "DEPIX";
    to = codes "BTC";
    network = codes "bitcoin";
    from_network = none;
    amount_sats = 5000;
  };
  route = two_legs;
  params = record { address = some (codes "bc1q"); invoice = none; refund_address = none };
  current_leg_index = 0;
  leg_results = [];
  state = executing;
  note = none;
  created_at = 7;
}

abbrev sealed_plan : Envelope v
sealed_plan = record {
  id = codes "p1";
  sealed = record { key = 7; iv = codes "iv"; aad = codes "p1"; content = plan };
}

abbrev stored : Plans v
stored = parsed true (some (sealed_plan ∷ []))

stored-IsSound : IsSound v 7 stored
unfolding read_envelopes decrypt
stored-IsSound es h =
    let one : sealed_plan ∷ [] ≡ es = ground arith in
    subst (All (IsOwn v 7)) one ((λ r d. ground arith), tt)

missing-IsSound : IsSound v 7 missing
unfolding read_envelopes
missing-IsSound es h =
    let none_there : [] ≡ es = ground arith in subst (All (IsOwn v 7)) none_there tt

reads : get v 7 (codes "p1") stored ≡ ok (some plan)
unfolding get locate decrypt read_envelopes
reads = refl

abbrev stored-IsHeld : IsHeld v 7 (codes "p1") two_legs stored
stored-IsHeld = record { sound = stored-IsSound; stored = plan; reads = reads; on_route = refl }

unstarted : (j : ℕ) → leg_result j [] ≡ none
unfolding leg_result
unstarted zero = refl
unstarted (suc j) = refl

pays :
    (i : ℕ) (file : Plans v) (call : LegCall)
    → (amount : ℕ) × IsPaidOut (run_leg i file call) amount
pays i file call = (
  900,
  record {
    outcome = paid_out;
    answered = refl;
    is_settled = refl;
    received = refl;
    positive = omega arith;
  },
)

drive_plan-settles_example :
    let d = drive_plan v 7 draw plan ctx false run_leg 0 5000 stored in
    (map (λ x. x.call.leg) d.calls ≡ plan.route.legs)
    × ((r : ConvertResult) × (d.result ≡ ok r) × (r.status ≡ convert_settled))
    × (get v 7 (codes "p1") d.file ≡ ok none)
drive_plan-settles_example =
    drive_plan-settles v 7 draw plan ctx false run_leg pays 5000 stored (omega arith)
      (record { held = stored-IsHeld; unstarted = λ j le. unstarted j })

drive_plan-IsChain_example :
    IsChain v run_leg plan.route.legs 0 5000
      (drive_plan v 7 draw plan ctx false run_leg 0 5000 stored).calls
drive_plan-IsChain_example = drive_plan-IsChain v run_leg 7 draw plan ctx false 0 5000 stored

drive_plan-keeps_plan_example :
    let d = drive_plan v 7 draw plan ctx false run_leg 0 5000 stored in
    (IsHeld v 7 (codes "p1") two_legs d.file) ⊎ (IsOver false d.result)
drive_plan-keeps_plan_example =
    drive_plan-keeps_plan v 7 draw plan ctx false run_leg 0 5000 stored stored-IsHeld

execute_multi_hop_route-counts_once_example :
    All
      (λ x.
        is_authorized_plan_continuation v 7 x.seen x.call
        ≡ ltb (first_value_leg_index two_legs) x.index)
      (execute_multi_hop_route v 7 ops draw run_leg
        (codes "iv")
        (codes "p1")
        7
        two_legs
        params
        ctx
        missing).calls
execute_multi_hop_route-counts_once_example =
    execute_multi_hop_route-counts_once v 7 ops draw run_leg (codes "iv") (codes "p1") 7 two_legs
      params ctx missing missing-IsSound

-- The first leg was started when the process died.
abbrev in_flight_leg : StoredPlanLegResult
in_flight_leg = record { state = in_flight; txids = []; received_sats = none; tracking_id = none }

abbrev crashed : StoredConversionPlan
crashed = record plan { leg_results = some in_flight_leg ∷ [] }

crashed_leg : leg_result 0 (some in_flight_leg ∷ []) ≡ some in_flight_leg
unfolding leg_result
crashed_leg = refl

resume_one_plan-IsChain_example :
    (carry : ℕ) × IsChain v run_leg crashed.route.legs 1 carry
      (resume_one_plan v 7 draw ops providers 900000 5000 run_leg crashed no_plans stored).calls
resume_one_plan-IsChain_example =
    resume_one_plan-IsChain v 7 draw ops providers 900000 5000 run_leg crashed in_flight_leg
      no_plans stored crashed_leg
