-- ===== src/Multihop/Resume.antt =====
-- The recovery of unfinished plans (src/convert/multihop.ts). What the providers answer to a probe is
-- a parameter, as is the execution of a leg; each plan of a pass has its own.
use depix_sdk.Common.{
  ℕ, zero, suc, Bool, true, false, Option, none, some, List, [], ◌++◌, if◌then◌else◌, get_elem?,
  length, Result, ok, err, ◌>>=◌, ◌==◌, not, ◌||◌,
}
use depix_sdk.Common.Text.{Text, codes, text_eq, TextOps}
use depix_sdk.Errors.{SdkError}
use depix_sdk.Routes.Legs.{
  RouteLeg, RouteMethod, swap, peg_in, peg_out, pay_lightning_invoice, receive_lightning,
  to_stablecoin, send, receive,
}
use depix_sdk.Vault.{Vault}
use depix_sdk.Plans.{
  StoredConversionPlan, StoredPlanLegResult, ConversionPlanState, executing, awaiting_funding,
  pending, needs_review, PlanLegState, in_flight, settled, leg_awaiting_funding, leg_pending,
  leg_result, set_leg_result, Plans, patch, remove, get,
}
use depix_sdk.Convert.{truthy, ConvertResult, ExecuteContext}
use depix_sdk.Sideshift.{is_shift_terminal, usdt_decimal_to_sats}
use depix_sdk.Convert.{LegAnswer}
use depix_sdk.Multihop.{LegCall, Draw, at_probe, at_park, need_review}
use depix_sdk.Multihop.Drive.{Executed, removed, drive_plan}
use depix_sdk.Multihop.Kept.{is_terminal}
use depix_sdk.Multihop.Notes.{
  unknowable_note, resumed_unsized_note, unknown_input_note, no_such_leg_note,
}

pub record PlanResumeSummary : Type 0 where
  pub checked : ℕ
  pub advanced : ℕ
  pub completed : ℕ
  pub needs_review : ℕ
  pub discarded : ℕ
  pub failed : ℕ

pub data LegProbe : Type 0 where
  probe_settled : Option ℕ → LegProbe
  still_pending : LegProbe
  concluded : Text → LegProbe
  unknowable : Text → LegProbe

-- What the providers say: the status of a shift and its settled amount, the status of a peg order,
-- and the state of a Boltz swap's record, if it is there.
pub record Providers : Type 0 where
  pub shift_status : Text → Result SdkError (Text × Option Text)
  pub peg_status : Text → Bool → Result SdkError Text
  pub probe_boltz_swap : Option (Text → Result SdkError (Option Text))

module _ (ops : TextOps) (providers : Providers) where
  unfoldable pub probe_shift : Option Text → Result SdkError LegProbe
  probe_shift none = ok (unknowable (codes "no shift id was recorded"))
  probe_shift (some id) = do
    status ← providers.shift_status id
    ok (
        if not (is_shift_terminal status.0)
        then still_pending
        else if text_eq status.0 (codes "settled")
        then probe_settled
            (elim status.1 [ none ↦ none | some amount ↦ usdt_decimal_to_sats ops amount ])
        else concluded (codes "shift " ++ id ++ codes " ended " ++ status.0))

  unfoldable pub is_done : Text → Bool
  is_done status = text_eq (ops.lower status) (codes "done")

  unfoldable pub probe_peg_out : Option Text → Result SdkError LegProbe
  probe_peg_out none = ok (unknowable (codes "no peg order id was recorded"))
  probe_peg_out (some id) = do
    status ← providers.peg_status id false
    ok (if is_done status then probe_settled none else still_pending)

  unfoldable pub probe_peg_in : Option Text → Result SdkError LegProbe
  probe_peg_in none = ok (unknowable (codes "no peg order id was recorded"))
  probe_peg_in (some id) = do
    status ← providers.peg_status id true
    ok (
        if not (is_done status)
        then still_pending
        else unknowable (
            codes "the peg-in completed but the landed L-BTC amount is not reported — "
            ++ codes "sync() and check balances"))

  unfoldable pub probe_exit_state : Text → Option Text → LegProbe
  probe_exit_state id none =
      concluded (codes "boltz swap " ++ id ++ codes " concluded (record cleared)")
  probe_exit_state id (some state) =
      if text_eq state (codes "settled") || text_eq state (codes "paid")
      then probe_settled none
      else if text_eq state (codes "refunded") || text_eq state (codes "failed")
      then concluded (codes "boltz swap " ++ id ++ codes " ended " ++ state)
      else still_pending

  unfoldable pub probe_boltz_exit : Option Text → Result SdkError LegProbe
  probe_boltz_exit none = ok (unknowable (codes "no swap id was recorded"))
  probe_boltz_exit (some id) = elim providers.probe_boltz_swap [
    | none ↦ ok still_pending
    | some probe ↦ do state ← probe id; ok (probe_exit_state id state)
  ]

  unfoldable pub probe_receive_state : Option Text → LegProbe
  probe_receive_state (some state) =
      if text_eq state (codes "awaiting_payment")
      then still_pending
      else unknowable (
          codes "the lightning receive concluded but the claimed L-BTC amount is not tracked — "
          ++ codes "sync() and check balances")
  probe_receive_state none = unknowable (
      codes "the lightning receive concluded but the claimed L-BTC amount is not tracked — "
      ++ codes "sync() and check balances")

  unfoldable pub probe_lightning_receive : Option Text → Result SdkError LegProbe
  probe_lightning_receive none = ok still_pending
  probe_lightning_receive (some id) = elim providers.probe_boltz_swap [
    | none ↦ ok still_pending
    | some probe ↦ do state ← probe id; ok (probe_receive_state state)
  ]

  -- `probeLeg(leg, result, deps)`, by the method of the leg.
  unfoldable pub probe_leg : RouteMethod → Option Text → Result SdkError LegProbe
  probe_leg swap tracking_id = ok (
      unknowable (
        codes "crashed during a market swap — cannot verify whether it broadcast; "
        ++ codes "check listTransactions()/balances"))
  probe_leg send tracking_id = probe_shift (truthy tracking_id)
  probe_leg receive tracking_id = probe_shift (truthy tracking_id)
  probe_leg peg_out tracking_id = probe_peg_out (truthy tracking_id)
  probe_leg peg_in tracking_id = probe_peg_in (truthy tracking_id)
  probe_leg pay_lightning_invoice tracking_id = probe_boltz_exit (truthy tracking_id)
  probe_leg to_stablecoin tracking_id = probe_boltz_exit (truthy tracking_id)
  probe_leg receive_lightning tracking_id = probe_lightning_receive (truthy tracking_id)

-- The number of legs to run by hand starts at the swap itself, or after any other leg.
unfoldable pub first_manual_leg : RouteMethod → ℕ → ℕ
first_manual_leg swap i = i
first_manual_leg peg_in i = suc i
first_manual_leg peg_out i = suc i
first_manual_leg pay_lightning_invoice i = suc i
first_manual_leg receive_lightning i = suc i
first_manual_leg to_stablecoin i = suc i
first_manual_leg send i = suc i
first_manual_leg receive i = suc i

unfoldable pub is_needs_review : ConversionPlanState → Bool
is_needs_review needs_review = true
is_needs_review executing = false
is_needs_review awaiting_funding = false
is_needs_review pending = false

-- The amount that the leg before leg `i` reported.
unfoldable pub input_of : StoredConversionPlan → ℕ → Option ℕ
input_of plan zero = some plan.intent.amount_sats
input_of plan (suc j) = elim (leg_result j plan.leg_results) [
  | none ↦ none
  | some before ↦ before.received_sats
]

-- `r.legResults[i] = settled`.
unfoldable pub settle_leg : ℕ → StoredPlanLegResult → StoredConversionPlan → StoredConversionPlan
settle_leg i result r = record r { leg_results = set_leg_result i result r.leg_results }

-- The context of a resumed plan: it does not wait.
unfoldable pub resume_ctx : ℕ → ℕ → StoredConversionPlan → ExecuteContext
resume_ctx settle_timeout_ms poll_interval_ms plan = record {
  route = plan.route;
  wait = false;
  timeout_ms = settle_timeout_ms;
  interval_ms = poll_interval_ms;
}

module _ (v : Vault StoredConversionPlan) where
  -- What the resume of a plan leaves: the file, the calls of `executeLeg`, the counts, and whether it
  -- threw.
  pub record Resumed : Type 0 where
    pub file : Plans v
    pub calls : List (Executed v)
    pub summary : PlanResumeSummary
    pub threw : Bool

  abbrev quietly : Plans v → PlanResumeSummary → Resumed
  quietly file summary = record { file = file; calls = []; summary = summary; threw = false }

  module _ (key : v.Key) (draw : ℕ → Draw → Text) (ops : TextOps) (providers : Providers)
      (settle_timeout_ms poll_interval_ms : ℕ) (run_leg : ℕ → Plans v → LegCall → LegAnswer) where
    unfoldable pub park_for_review :
        StoredConversionPlan → Text → PlanResumeSummary → Plans v → Resumed
    park_for_review plan note summary file =
        let counted = record summary { needs_review = suc summary.needs_review } in
        elim (patch v key (draw plan.current_leg_index at_park) plan.plan_id (need_review note)
          file) [
            | err e ↦ record { file = file; calls = []; summary = counted; threw = true }
            | ok file' ↦ record { file = file'; calls = []; summary = counted; threw = false }
          ]

    -- `store.remove` whose failure is swallowed, and the count.
    unfoldable pub close_plan : StoredConversionPlan → PlanResumeSummary → Plans v → Resumed
    close_plan plan summary file =
        quietly (removed v (remove v key plan.plan_id file) file)
          (record summary { completed = suc summary.completed })

    -- Whether the store's record of the plan, if it opens, is parked.
    unfoldable pub is_parked : Text → Plans v → Bool
    is_parked plan_id file = elim (get v key plan_id file) [
      | ok (some r) ↦ is_needs_review r.state
      | ok none ↦ false
      | err e ↦ false
    ]

    unfoldable pub account_for : Bool → ConvertResult → PlanResumeSummary → PlanResumeSummary
    account_for true result summary = record summary { needs_review = suc summary.needs_review }
    account_for false result summary = record summary {
      advanced = suc summary.advanced;
      completed = if is_terminal result.status then suc summary.completed else summary.completed;
    }

    unfoldable pub drive_resumed_legs :
        StoredConversionPlan → ℕ → ℕ → PlanResumeSummary → Plans v → Resumed
    drive_resumed_legs plan start_leg_index carry summary file =
        let d =
          drive_plan v key draw plan (resume_ctx settle_timeout_ms poll_interval_ms plan) true
            run_leg start_leg_index carry file in
        elim d.result [
          | err e ↦ record { file = d.file; calls = d.calls; summary = summary; threw = true }
          | ok result ↦ record {
            file = d.file;
            calls = d.calls;
            summary = account_for (is_parked plan.plan_id d.file) result summary;
            threw = false;
          }
        ]

    -- The leg after the current one, on what the current one received.
    unfoldable pub drive_next_leg :
        Option ℕ → StoredConversionPlan → RouteLeg → PlanResumeSummary → Plans v → Resumed
    drive_next_leg none plan leg summary file =
        park_for_review plan
          (resumed_unsized_note plan.route plan.plan_id leg plan.current_leg_index) summary file
    drive_next_leg (some zero) plan leg summary file =
        park_for_review plan
          (resumed_unsized_note plan.route plan.plan_id leg plan.current_leg_index) summary file
    drive_next_leg (some (suc n)) plan leg summary file =
        drive_resumed_legs plan (suc plan.current_leg_index) (suc n) summary file

    -- What follows a leg that settled: close the plan, or go on.
    unfoldable pub after_settled_leg :
        StoredConversionPlan → RouteLeg → Option ℕ → PlanResumeSummary → Plans v → Resumed
    after_settled_leg plan leg received summary file =
        if suc plan.current_leg_index == length plan.route.legs
        then close_plan plan summary file
        else drive_next_leg received plan leg summary file

    -- The leg never started.
    unfoldable pub start_leg : StoredConversionPlan → PlanResumeSummary → Plans v → Resumed
    start_leg plan summary file =
        let i = plan.current_leg_index in
        elim (input_of plan i) [
          | some (suc n) ↦ drive_resumed_legs plan i (suc n) summary file
          | some zero ↦ park_for_review plan (unknown_input_note plan.route i) summary file
          | none ↦ park_for_review plan (unknown_input_note plan.route i) summary file
        ]

    unfoldable pub after_probe :
        StoredConversionPlan
        → RouteLeg
        → StoredPlanLegResult
        → LegProbe
        → PlanResumeSummary
        → Plans v
        → Resumed
    after_probe plan leg current still_pending summary file = quietly file summary
    after_probe plan leg current (concluded detail) summary file = close_plan plan summary file
    after_probe plan leg current (unknowable detail) summary file =
        let i = plan.current_leg_index in
        park_for_review plan
          (unknowable_note plan.route plan.plan_id leg i detail (first_manual_leg leg.method i))
          summary file
    after_probe plan leg current (probe_settled received) summary file =
        let i = plan.current_leg_index in
        let result = record current { state = settled; received_sats = received } in
        elim (patch v key (draw plan.current_leg_index at_probe) plan.plan_id (settle_leg i result)
          file) [
            | err e ↦ record { file = file; calls = []; summary = summary; threw = true }
            | ok file' ↦ after_settled_leg (settle_leg i result plan) leg received summary file'
          ]

    -- The leg started and has not settled.
    unfoldable pub probe_started :
        StoredConversionPlan
        → RouteLeg
        → StoredPlanLegResult
        → PlanResumeSummary
        → Plans v
        → Resumed
    probe_started plan leg current summary file =
        elim (probe_leg ops providers leg.method current.tracking_id) [
          | err e ↦ record { file = file; calls = []; summary = summary; threw = true }
          | ok probe ↦ after_probe plan leg current probe summary file
        ]

    -- By the state of the current leg's record.
    unfoldable pub resume_started :
        PlanLegState
        → StoredConversionPlan
        → RouteLeg
        → StoredPlanLegResult
        → PlanResumeSummary
        → Plans v
        → Resumed
    resume_started settled plan leg current summary file =
        after_settled_leg plan leg current.received_sats summary file
    resume_started in_flight plan leg current summary file =
        probe_started plan leg current summary file
    resume_started leg_awaiting_funding plan leg current summary file =
        probe_started plan leg current summary file
    resume_started leg_pending plan leg current summary file =
        probe_started plan leg current summary file

    unfoldable pub resume_leg :
        StoredConversionPlan
        → RouteLeg
        → Option StoredPlanLegResult
        → PlanResumeSummary
        → Plans v
        → Resumed
    resume_leg plan leg none summary file = start_leg plan summary file
    resume_leg plan leg (some current) summary file =
        resume_started current.state plan leg current summary file

    unfoldable pub resume_one_plan : StoredConversionPlan → PlanResumeSummary → Plans v → Resumed
    resume_one_plan plan summary file =
        if is_needs_review plan.state
        then quietly file (record summary { needs_review = suc summary.needs_review })
        else elim (get_elem? plan.route.legs plan.current_leg_index) [
          | none ↦
              park_for_review plan
                (no_such_leg_note plan.current_leg_index (length plan.route.legs)) summary file
          | some leg ↦
              resume_leg plan leg (leg_result plan.current_leg_index plan.leg_results) summary file
        ]
