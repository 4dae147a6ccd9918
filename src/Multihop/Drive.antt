-- ===== src/Multihop/Drive.antt =====
-- `drivePlan` of src/convert/multihop.ts: the legs of a plan one after the other, from a start index.
-- A drive gives the file that it leaves, the calls of `executeLeg` that it made, each with the file
-- that the call saw, and what it returned or threw.
use depix_sdk.Common.{
  ℕ, zero, suc, Bool, true, false, Option, none, some, List, [], ◌∷◌, ◌++◌, if◌then◌else◌, Result,
  ok, err, ◌==◌, not, ltb, ◌&&◌,
}
use depix_sdk.Common.Text.{Text}
use depix_sdk.Errors.{SdkError, invalid_amount}
use depix_sdk.Routes.Legs.{RouteLeg}
use depix_sdk.Vault.{Vault}
use depix_sdk.Plans.{
  StoredConversionPlan, Claim, claimed, already_active, not_found, Plans, patch, claim_leg, remove,
}
use depix_sdk.Convert.{
  ConvertStatus, convert_settled, convert_pending, convert_awaiting_funding, convert_refunded,
  convert_refund_pending, convert_failed, ConvertResult, ExecuteContext,
}
use depix_sdk.Convert.{LegError, LegAnswer, returned, threw}
use depix_sdk.Multihop.{
  first_value_leg_index, txids_so_far, leg_result_from_outcome, plan_state_of,
  is_retry_safe_leg_error, record_outcome, reset_leg, need_review, pending_result, LegCall, Draw,
  at_claim, at_outcome, at_note, claim_name,
}
use depix_sdk.Multihop.Notes.{
  driven_elsewhere, saved_for_retry, threw_note, funding_step, in_flight_step, ended_step,
  unsized_note, drop,
}

abbrev pub is_last : List RouteLeg → Bool
is_last [] = true
is_last (leg ∷ rest) = false

module _ (v : Vault StoredConversionPlan) where
  -- A turn of the loop returns or throws, or goes on with the txids so far and the next input.
  pub data Turn : Type 0 where
    finished : Plans v → Result SdkError ConvertResult → Turn
    advances : Plans v → List Text → ℕ → Turn

  pub record Executed : Type 0 where
    pub index : ℕ
    pub seen : Plans v
    pub call : LegCall

  -- The body of the loop: the leg did not run, or it ran and a turn was made of its answer.
  pub data Taken : Type 0 where
    not_run : Plans v → Result SdkError ConvertResult → Taken
    ran : Executed → Turn → Taken

  pub record Driven : Type 0 where
    pub file : Plans v
    pub calls : List Executed
    pub result : Result SdkError ConvertResult

  -- A patch that throws ends the drive.
  abbrev pub patched : Result SdkError (Plans v) → Plans v → (Plans v → Turn) → Turn
  patched (err e) file next = finished file (err e)
  patched (ok file') file next = next file'

  -- `await store.remove(planId).catch(() => {})`.
  abbrev pub removed : Result SdkError (Plans v) → Plans v → Plans v
  removed (err e) file = file
  removed (ok file') file = file'

  abbrev pub stops : Plans v → Result SdkError ConvertResult → Driven
  stops file result = record { file = file; calls = []; result = result }

  -- A drive whose first leg was taken, and that goes on by `next`.
  abbrev pub driven : Taken → (Plans v → List Text → ℕ → Driven) → Driven
  driven (not_run file result) next = stops file result
  driven (ran x (finished file result)) next = record {
    file = file;
    calls = x ∷ [];
    result = result;
  }
  driven (ran x (advances file txids carry)) next =
      let later = next file txids carry in record later { calls = x ∷ later.calls }

  module _ (key : v.Key) (draw : ℕ → Draw → Text) (plan : StoredConversionPlan)
      (ctx : ExecuteContext) (resumed : Bool) where
    -- The call of leg `i` with the input `carry`.
    unfoldable pub leg_call : ℕ → RouteLeg → Bool → ℕ → LegCall
    leg_call i leg is_final carry = record {
      leg = leg;
      params = record {
        from = leg.from;
        to = leg.to;
        network = some leg.network;
        from_network = some leg.from_network;
        amount = carry;
        route = none;
        wait = none;
        timeout_ms = none;
        address = plan.params.address;
        invoice = plan.params.invoice;
        refund_address = plan.params.refund_address;
      };
      ctx = record ctx { wait = if is_final then ctx.wait else true };
      continuation = if ltb (first_value_leg_index plan.route) i then some plan.plan_id else none;
    }

    -- The result of a leg that ended the drive with its own status.
    unfoldable pub own_result : ConvertResult → List Text → Text → ConvertResult
    own_result outcome txids next_step = record {
      route = plan.route;
      status = outcome.status;
      txids = txids;
      received_sats = none;
      custodial = plan.route.custodial;
      tracking_id = outcome.tracking_id;
      funding = elim outcome.status [ convert_awaiting_funding ↦ outcome.funding | _ ↦ none ];
      next_step = some next_step;
    }

    unfoldable pub parked : ℕ → Text → List Text → Plans v → Turn
    parked i note txids file =
        patched (patch v key (draw i at_note) plan.plan_id (need_review note) file) file
          (λ f. finished f (ok (pending_result plan.route txids note)))

    -- The `catch` of the loop.
    unfoldable pub after_throw : ℕ → RouteLeg → LegError → List Text → Plans v → Turn
    after_throw i leg e txids file =
        if (i == 0) && not resumed
        then finished (removed (remove v key plan.plan_id file) file) (err e.code)
        else if is_retry_safe_leg_error e
        then patched (patch v key (draw i at_note) plan.plan_id (reset_leg i) file) file (λ f.
          finished f (
            ok (
              pending_result plan.route txids
                (saved_for_retry plan.route plan.plan_id leg i e.message))))
        else parked i (threw_note plan.route plan.plan_id leg i e.message) txids file

    -- `if (isFinal)` and what follows it in the loop, on what the leg received.
    unfoldable pub after_settled :
        Option ℕ → ℕ → RouteLeg → Bool → ConvertResult → List Text → Plans v → Turn
    after_settled received i leg true outcome txids file =
        finished (removed (remove v key plan.plan_id file) file) (
          ok (record {
            route = plan.route;
            status = convert_settled;
            txids = txids;
            received_sats = received;
            custodial = plan.route.custodial;
            tracking_id = outcome.tracking_id;
            funding = none;
            next_step = none;
          }))
    after_settled none i leg false outcome txids file =
        parked i (unsized_note plan.route plan.plan_id leg i) txids file
    after_settled (some zero) i leg false outcome txids file =
        parked i (unsized_note plan.route plan.plan_id leg i) txids file
    after_settled (some (suc n)) i leg false outcome txids file = advances file txids (suc n)

    -- What follows the patch that stores the outcome, by its status.
    unfoldable pub by_status :
        ConvertStatus → ℕ → RouteLeg → Bool → ConvertResult → List Text → Plans v → Turn
    by_status convert_awaiting_funding i leg is_final outcome txids file = finished file (
        ok
          (own_result outcome txids (funding_step plan.route plan.plan_id leg i outcome.next_step)))
    by_status convert_pending i leg is_final outcome txids file = finished file (
        ok (
          own_result outcome txids
            (in_flight_step plan.route plan.plan_id leg i outcome.next_step)))
    by_status convert_refund_pending i leg is_final outcome txids file = finished file (
        ok (
          own_result outcome txids
            (in_flight_step plan.route plan.plan_id leg i outcome.next_step)))
    by_status convert_refunded i leg is_final outcome txids file =
        finished (removed (remove v key plan.plan_id file) file) (
          ok (
            own_result outcome txids
              (ended_step plan.route plan.plan_id leg i outcome.status outcome.next_step)))
    by_status convert_failed i leg is_final outcome txids file =
        finished (removed (remove v key plan.plan_id file) file) (
          ok (
            own_result outcome txids
              (ended_step plan.route plan.plan_id leg i outcome.status outcome.next_step)))
    by_status convert_settled i leg is_final outcome txids file =
        after_settled outcome.received_sats i leg is_final outcome txids file

    unfoldable pub after_return : ℕ → RouteLeg → Bool → ConvertResult → List Text → Plans v → Turn
    after_return i leg is_final outcome txids file =
        patched
          (patch v key (draw i at_outcome) plan.plan_id
            (record_outcome i (leg_result_from_outcome outcome) (plan_state_of outcome.status))
            file)
          file (by_status outcome.status i leg is_final outcome (txids ++ outcome.txids))

    abbrev pub after_leg : ℕ → RouteLeg → Bool → LegAnswer → List Text → Plans v → Turn
    after_leg i leg is_final (threw e) txids file = after_throw i leg e txids file
    after_leg i leg is_final (returned outcome) txids file =
        after_return i leg is_final outcome txids file

    module _ (run_leg : ℕ → Plans v → LegCall → LegAnswer) where
      -- The execution of leg `i` once it is claimed.
      unfoldable pub run_claimed : RouteLeg → List RouteLeg → ℕ → List Text → ℕ → Plans v → Taken
      run_claimed leg rest i txids carry file =
          let call = leg_call i leg (is_last rest) carry in
          ran (record { index = i; seen = file; call = call })
            (after_leg i leg (is_last rest) (run_leg i file call) txids file)

      -- After the claim of leg `i`.
      unfoldable pub after_claim :
          RouteLeg
          → List RouteLeg
          → ℕ
          → List Text
          → ℕ
          → Plans v
          → Result SdkError (Claim × Plans v)
          → Taken
      after_claim leg rest i txids carry file (err e) = not_run file (err e)
      after_claim leg rest i txids carry file (ok (claimed, file')) =
          run_claimed leg rest i txids carry file'
      after_claim leg rest i txids carry file (ok (already_active, file')) = not_run file' (
          ok (
            pending_result plan.route txids
              (driven_elsewhere plan.route plan.plan_id leg i (claim_name already_active))))
      after_claim leg rest i txids carry file (ok (not_found, file')) = not_run file' (
          ok (
            pending_result plan.route txids
              (driven_elsewhere plan.route plan.plan_id leg i (claim_name not_found))))

      -- The body of the loop.
      unfoldable pub take_leg : RouteLeg → List RouteLeg → ℕ → List Text → ℕ → Plans v → Taken
      take_leg leg rest i txids carry file =
          after_claim leg rest i txids carry file
            (claim_leg v key (draw i at_claim) plan.plan_id i file)

      -- The loop from leg `i` on, of which the legs that are left are given.
      unfoldable pub drive_from : List RouteLeg → ℕ → List Text → ℕ → Plans v → Driven
      drive_from [] i txids carry file = stops file (err invalid_amount)
      drive_from (leg ∷ rest) i txids carry file =
          driven (take_leg leg rest i txids carry file) (λ f t c. drive_from rest (suc i) t c f)

      -- `drivePlan({ plan, startLegIndex, carry, ... })`.
      unfoldable pub drive_plan : ℕ → ℕ → Plans v → Driven
      drive_plan start_leg_index carry file =
          drive_from (drop start_leg_index plan.route.legs) start_leg_index
            (txids_so_far plan.leg_results) carry file
