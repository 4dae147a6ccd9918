-- ===== src/Multihop/Settles.antt =====
-- A conversion whose legs all settle.
use depix_sdk.Common.{
  ℕ, suc, ◌≡◌, ◌<◌, refl, Bool, true, false, none, List, [], ◌∷◌, ◌++◌, ok, arith, length, ap, map,
}
use depix_sdk.Common.Text.{Text}
use depix_sdk.Vault.{Vault}
use depix_sdk.Routes.Legs.{RouteLeg}
use depix_sdk.Plans.{StoredConversionPlan, Plans, get}
use depix_sdk.Convert.{convert_settled, ConvertResult, ExecuteContext}
use depix_sdk.Convert.{LegAnswer}
use depix_sdk.Multihop.{LegCall, Draw, at_claim, at_outcome, leg_result_from_outcome, plan_state_of}
use depix_sdk.Multihop.Drive.{
  finished, advances, Executed, ran, Driven, leg_call, after_settled, by_status, after_return,
  run_claimed, after_claim, take_leg, drive_from, drive_plan,
}
use depix_sdk.Multihop.Notes.{drop-zero}
use depix_sdk.Multihop.Chain.{IsPaidOut}
use depix_sdk.Multihop.Ready.{IsReady, claim_leg-IsReady, record_outcome-IsReady, remove-IsGone}

module _ (v : Vault StoredConversionPlan) (key : v.Key) (draw : ℕ → Draw → Text)
    (plan : StoredConversionPlan) (ctx : ExecuteContext) (resumed : Bool)
    (run_leg : ℕ → Plans v → LegCall → LegAnswer)
    (pays : (i : ℕ) (file : Plans v) (call : LegCall)
      → (amount : ℕ) × IsPaidOut (run_leg i file call) amount) where
  abbrev Ready : ℕ → Plans v → Type 0
  Ready = IsReady v key plan.plan_id plan.route

  -- A leg that is not the last hands on.
  step :
      (leg next : RouteLeg) (rest : List RouteLeg) (i : ℕ) (txids : List Text) (carry : ℕ)
      (file : Plans v)
      → Ready i file
      → (x : Executed v) × (f : Plans v) × (t : List Text) × (c : ℕ) × (take_leg v key draw plan ctx
            resumed run_leg leg
            (next ∷ rest)
            i
            txids
            carry
            file
          ≡ ran x (advances f t c))
        × (x.call.leg ≡ leg)
        × Ready (suc i) f
  unfolding take_leg after_claim run_claimed after_return by_status after_settled leg_call
  step leg next rest i txids carry file ready =
      let claim = claim_leg-IsReady v key plan.plan_id plan.route (draw i at_claim) i file ready in
      let call = leg_call v key draw plan ctx resumed i leg false carry in
      let paid = (pays i claim.0 call).1 in
      let stored =
        record_outcome-IsReady v key plan.plan_id plan.route (draw i at_outcome) i
          (leg_result_from_outcome paid.outcome) (plan_state_of paid.outcome.status) claim.0
          claim.2 in
      (
        record { index = i; seen = claim.0; call = call },
        stored.0,
        txids ++ paid.outcome.txids,
        (pays i claim.0 call).0,
        ground (
          arith, claim.1, paid.answered, stored.1, paid.is_settled, paid.received, paid.positive,
        ),
        refl,
        stored.2,
      )

  -- The last leg ends the plan.
  last_step :
      (leg : RouteLeg) (i : ℕ) (txids : List Text) (carry : ℕ) (file : Plans v)
      → Ready i file
      → (x : Executed v) × (f : Plans v) × (r : ConvertResult) × (take_leg v key draw plan ctx
            resumed run_leg leg [] i txids carry file
          ≡ ran x (finished f (ok r)))
        × (x.call.leg ≡ leg)
        × (r.status ≡ convert_settled)
        × (get v key plan.plan_id f ≡ ok none)
  unfolding take_leg after_claim run_claimed after_return by_status after_settled leg_call
  last_step leg i txids carry file ready =
      let claim = claim_leg-IsReady v key plan.plan_id plan.route (draw i at_claim) i file ready in
      let call = leg_call v key draw plan ctx resumed i leg true carry in
      let paid = (pays i claim.0 call).1 in
      let stored =
        record_outcome-IsReady v key plan.plan_id plan.route (draw i at_outcome) i
          (leg_result_from_outcome paid.outcome) (plan_state_of paid.outcome.status) claim.0
          claim.2 in
      let gone = remove-IsGone v key plan.plan_id plan.route stored.0 stored.2.held in
      (
        record { index = i; seen = claim.0; call = call },
        gone.0,
        record {
          route = plan.route;
          status = convert_settled;
          txids = txids ++ paid.outcome.txids;
          received_sats = paid.outcome.received_sats;
          custodial = plan.route.custodial;
          tracking_id = paid.outcome.tracking_id;
          funding = none;
          next_step = none;
        },
        ground (arith, claim.1, paid.answered, stored.1, paid.is_settled, gone.1),
        refl,
        refl,
        gone.2,
      )

  -- Every leg ran, the conversion returned settled, and the plan is gone.
  abbrev IsSettled : List RouteLeg → Driven v → Type 0
  IsSettled legs d =
      (map (λ x. x.call.leg) d.calls ≡ legs)
      × ((r : ConvertResult) × (d.result ≡ ok r) × (r.status ≡ convert_settled))
      × (get v key plan.plan_id d.file ≡ ok none)

  drive_from-settles :
      (leg : RouteLeg) (rest : List RouteLeg) (i : ℕ) (txids : List Text) (carry : ℕ)
      (file : Plans v)
      → Ready i file
      → IsSettled
          (leg ∷ rest)
          (drive_from v key draw plan ctx resumed run_leg (leg ∷ rest) i txids carry file)
  unfolding drive_from
  drive_from-settles leg [] i txids carry file ready =
      let s = last_step leg i txids carry file ready in
      rw (drive_from, s.3) (ap (λ l. l ∷ []) s.4, (s.2, refl, s.5), s.6)
  drive_from-settles leg (next ∷ rest) i txids carry file ready =
      let s = step leg next rest i txids carry file ready in
      let later = drive_from-settles next rest (suc i) s.2 s.3 s.1 s.6 in
      rw (drive_from, s.4) (cc (s.5, later.0), later.1, later.2)

  drive_all-settles :
      (legs : List RouteLeg) (txids : List Text) (carry : ℕ) (file : Plans v)
      → 0 < length legs
      → Ready 0 file
      → IsSettled legs (drive_from v key draw plan ctx resumed run_leg legs 0 txids carry file)
  drive_all-settles [] txids carry file h ready = absurd (omega arith)
  drive_all-settles (leg ∷ rest) txids carry file h ready =
      drive_from-settles leg rest 0 txids carry file ready

  -- A drive from the first leg on, of a plan whose route has a leg and of which no leg has started,
  -- whose legs all settle and report an amount that is not 0: it executes the legs of the route in their
  -- order, each once, returns settled, and the plan is gone from the store. The plan stands in a file of which every envelope
  -- that opens holds the record of its own id.
  pub drive_plan-settles :
      (carry : ℕ) (file : Plans v)
      → 0 < length plan.route.legs
      → IsReady v key plan.plan_id plan.route 0 file
      → let d = drive_plan v key draw plan ctx resumed run_leg 0 carry file in
        (map (λ x. x.call.leg) d.calls ≡ plan.route.legs)
        × ((r : ConvertResult) × (d.result ≡ ok r) × (r.status ≡ convert_settled))
        × (get v key plan.plan_id d.file ≡ ok none)
  unfolding drive_plan
  drive_plan-settles carry file h ready =
      rw (drop-zero plan.route.legs) (drive_all-settles plan.route.legs _ carry file h ready)
