-- ===== src/Multihop.antt =====
-- src/convert/multihop.ts: the driver of a conversion over several legs. The vault seals the plan
-- records, `draw` gives the initialisation vector of each write, and `run_leg` stands for the call of
-- `executeLeg`, by the index of the leg: it sees the plan file as it is while the leg runs, since the
-- wallet's hooks read it.
pub mod Notes
pub mod Drive
pub mod Held
pub mod Kept
pub mod Chain
pub mod Resume
pub mod Recovery
pub mod Passes
pub mod Start
pub mod Ready
pub mod Settles
mod Tests
use depix_sdk.Common.{
  ℕ, zero, suc, ◌+◌, Bool, true, false, Option, none, some, List, [], ◌∷◌, ◌++◌, if◌then◌else◌,
  length, Result, ok, err, ◌>>=◌, ◌==◌, not, ltb, ◌&&◌, ◌||◌,
}
use depix_sdk.Common.Text.{Text, codes}
use depix_sdk.Errors.{SdkError, invalid_amount}
use depix_sdk.Routes.Legs.{
  Route, RouteLeg, RouteMethod, swap, peg_in, peg_out, pay_lightning_invoice, receive_lightning,
  to_stablecoin, send, receive,
}
use depix_sdk.Vault.{Vault}
use depix_sdk.Plans.{
  StoredConversionPlan, StoredPlanLegResult, ConversionPlanState, executing, awaiting_funding,
  pending, needs_review, PlanLegState, settled, leg_awaiting_funding, leg_pending, Claim, claimed,
  already_active, not_found, set_leg_result, Plans, patch, claim_leg, remove, get,
}
use depix_sdk.Convert.{
  LegError, LegAnswer, returned, threw, ConvertStatus, convert_settled, convert_pending,
  convert_awaiting_funding, convert_refunded, convert_refund_pending, convert_failed, ConvertResult,
  ConvertParams, ExecuteContext,
}
use depix_sdk.Multihop.Notes.{
  driven_elsewhere, saved_for_retry, threw_note, funding_step, in_flight_step, ended_step,
  unsized_note,
}

-- `INFLOW_METHODS.has(method)`.
unfoldable pub is_inflow : RouteMethod → Bool
is_inflow peg_in = true
is_inflow receive_lightning = true
is_inflow receive = true
is_inflow swap = false
is_inflow peg_out = false
is_inflow pay_lightning_invoice = false
is_inflow to_stablecoin = false
is_inflow send = false

-- The index of the first leg that is not inflow, or their number.
unfoldable pub first_value_leg : List RouteLeg → ℕ
first_value_leg [] = 0
first_value_leg (leg ∷ rest) = if is_inflow leg.method then suc (first_value_leg rest) else 0

unfoldable pub first_value_leg_index : Route → ℕ
first_value_leg_index route = first_value_leg route.legs

unfoldable pub is_plan_continuation_authorized : Option StoredConversionPlan → Bool
is_plan_continuation_authorized none = false
is_plan_continuation_authorized (some plan) =
    ltb (first_value_leg_index plan.route) plan.current_leg_index

-- `txidsSoFar(plan)`, over its leg results.
unfoldable pub txids_so_far : List (Option StoredPlanLegResult) → List Text
txids_so_far [] = []
txids_so_far (none ∷ rest) = txids_so_far rest
txids_so_far (some r ∷ rest) = r.txids ++ txids_so_far rest

unfoldable pub leg_state_of : ConvertStatus → PlanLegState
leg_state_of convert_settled = settled
leg_state_of convert_awaiting_funding = leg_awaiting_funding
leg_state_of convert_pending = leg_pending
leg_state_of convert_refunded = leg_pending
leg_state_of convert_refund_pending = leg_pending
leg_state_of convert_failed = leg_pending

unfoldable pub plan_state_of : ConvertStatus → ConversionPlanState
plan_state_of convert_awaiting_funding = awaiting_funding
plan_state_of convert_settled = executing
plan_state_of convert_pending = pending
plan_state_of convert_refunded = pending
plan_state_of convert_refund_pending = pending
plan_state_of convert_failed = pending

unfoldable pub received_if_settled : ConvertResult → Option ℕ
received_if_settled outcome = elim outcome.status [
  | convert_settled ↦ outcome.received_sats
  | _ ↦ none
]

unfoldable pub leg_result_from_outcome : ConvertResult → StoredPlanLegResult
leg_result_from_outcome outcome = record {
  state = leg_state_of outcome.status;
  txids = outcome.txids;
  received_sats = received_if_settled outcome;
  tracking_id = outcome.tracking_id;
}

unfoldable pub is_retry_safe_leg_error : LegError → Bool
is_retry_safe_leg_error e = e.is_guardrail_error || e.nothing_locked

-- `r.legResults[i] = null`; an assignment past the end leaves null in between.
unfoldable pub clear_leg_result :
    ℕ → List (Option StoredPlanLegResult) → List (Option StoredPlanLegResult)
clear_leg_result zero [] = none ∷ []
clear_leg_result (suc i) [] = none ∷ clear_leg_result i []
clear_leg_result zero (s ∷ rs) = none ∷ rs
clear_leg_result (suc i) (s ∷ rs) = s ∷ clear_leg_result i rs

-- What the driver's three patches do to the record.
unfoldable pub record_outcome :
    ℕ → StoredPlanLegResult → ConversionPlanState → StoredConversionPlan → StoredConversionPlan
record_outcome i result state r = record r {
  leg_results = set_leg_result i result r.leg_results;
  state = state;
}

unfoldable pub reset_leg : ℕ → StoredConversionPlan → StoredConversionPlan
reset_leg i r = record r { leg_results = clear_leg_result i r.leg_results; state = pending }

unfoldable pub need_review : Text → StoredConversionPlan → StoredConversionPlan
need_review note r = record r { state = needs_review; note = some note }

unfoldable pub pending_result : Route → List Text → Text → ConvertResult
pending_result route txids next_step = record {
  route = route;
  status = convert_pending;
  txids = txids;
  received_sats = none;
  custodial = route.custodial;
  tracking_id = none;
  funding = none;
  next_step = some next_step;
}

-- A call of `executeLeg`: the leg, its parameters, its context, and the plan in whose continuation
-- context it runs.
pub record LegCall : Type 0 where
  pub leg : RouteLeg
  pub params : ConvertParams
  pub ctx : ExecuteContext
  pub continuation : Option Text

-- The writes of one leg, each of which draws an initialisation vector.
pub data Draw : Type 0 where
  at_claim at_outcome at_note at_probe at_park : Draw

unfoldable pub claim_name : Claim → Text
claim_name claimed = codes "claimed"
claim_name already_active = codes "already_active"
claim_name not_found = codes "not_found"

-- `isAuthorizedPlanContinuation()` of src/wallet.ts: whether the hooks of a call skip the value
-- ceilings, on the plan file that they read.
unfoldable pub is_authorized_plan_continuation :
    (v : Vault StoredConversionPlan) → v.Key → Plans v → LegCall → Bool
is_authorized_plan_continuation v key file call = elim call.continuation [
  | none ↦ false
  | some plan_id ↦ elim (get v key plan_id file) [
    | ok plan ↦ is_plan_continuation_authorized plan
    | err e ↦ false
  ]
]
