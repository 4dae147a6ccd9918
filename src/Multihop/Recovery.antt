-- ===== src/Multihop/Recovery.antt =====
-- What the resume of one plan executes, and what it leaves in the store.
use depix_sdk.Common.{
  ℕ, zero, suc, ◌≡◌, true, Option, none, some, List, [], if◌then◌else◌, get_elem?, ◌==◌, inl, inr,
  Result-cases, Bool-cases, Option-cases, length,
}
use depix_sdk.Common.Text.{Text, TextOps}
use depix_sdk.Vault.{Vault}
use depix_sdk.Routes.Legs.{RouteLeg}
use depix_sdk.Plans.{
  StoredConversionPlan, StoredPlanLegResult, PlanLegState, settled, in_flight, leg_awaiting_funding,
  leg_pending, leg_result, Plans, patch,
}
use depix_sdk.Convert.{LegAnswer}
use depix_sdk.Multihop.{LegCall, Draw, at_probe, at_park, need_review}
use depix_sdk.Multihop.Drive.{drive_plan}
use depix_sdk.Multihop.Chain.{IsChain, drive_plan-IsChain}
use depix_sdk.Multihop.Resume.{
  PlanResumeSummary, LegProbe, probe_settled, still_pending, concluded, unknowable, Providers,
  probe_leg, is_needs_review, Resumed, park_for_review, close_plan, resume_ctx, drive_resumed_legs,
  drive_next_leg, after_settled_leg, settle_leg, after_probe, probe_started, resume_started,
  resume_leg, resume_one_plan,
}

module _ (v : Vault StoredConversionPlan) (key : v.Key) (draw : ℕ → Draw → Text) (ops : TextOps)
    (providers : Providers) (settle_timeout_ms poll_interval_ms : ℕ)
    (run_leg : ℕ → Plans v → LegCall → LegAnswer) where
  -- The calls are a chain of the plan's route from leg `i`.
  abbrev StartsAt : StoredConversionPlan → ℕ → Resumed v → Type 0
  StartsAt plan i r = (carry : ℕ) × IsChain v run_leg plan.route.legs i carry r.calls

  nothing : (legs : List RouteLeg) (i : ℕ) → (carry : ℕ) × IsChain v run_leg legs i carry []
  nothing legs i = (0, tt)

  park-StartsAt :
      (i : ℕ) (plan : StoredConversionPlan) (note : Text) (summary : PlanResumeSummary)
      (file : Plans v)
      → StartsAt plan i (
          park_for_review v key draw ops providers settle_timeout_ms poll_interval_ms run_leg plan
            note summary file)
  unfolding park_for_review
  park-StartsAt i plan note summary file =
      elim (Result-cases
        (patch v key (draw plan.current_leg_index at_park) plan.plan_id (need_review note) file)) [
          | inl (f, e) ↦ rw (park_for_review, e) (nothing plan.route.legs i)
          | inr (x, e) ↦ rw (park_for_review, e) (nothing plan.route.legs i)
        ]

  drive-StartsAt :
      (plan : StoredConversionPlan) (i carry : ℕ) (summary : PlanResumeSummary) (file : Plans v)
      → StartsAt plan i (
          drive_resumed_legs v key draw ops providers settle_timeout_ms poll_interval_ms run_leg
            plan i carry summary file)
  unfolding drive_resumed_legs
  drive-StartsAt plan i carry summary file =
      let d =
        drive_plan v key draw plan (resume_ctx settle_timeout_ms poll_interval_ms plan) true run_leg
          i carry file in
      let chain =
        drive_plan-IsChain v run_leg key draw plan
          (resume_ctx settle_timeout_ms poll_interval_ms plan) true i carry file in
      elim (Result-cases d.result) [
        | inl (r, e) ↦ rw (drive_resumed_legs, e) (carry, chain)
        | inr (x, e) ↦ rw (drive_resumed_legs, e) (carry, chain)
      ]

  next-StartsAt :
      (received : Option ℕ) (plan : StoredConversionPlan) (leg : RouteLeg)
      (summary : PlanResumeSummary) (file : Plans v)
      → StartsAt plan (suc plan.current_leg_index) (
          drive_next_leg v key draw ops providers settle_timeout_ms poll_interval_ms run_leg
            received plan leg summary file)
  unfolding drive_next_leg
  next-StartsAt none plan leg summary file = park-StartsAt _ plan _ summary file
  next-StartsAt (some zero) plan leg summary file = park-StartsAt _ plan _ summary file
  next-StartsAt (some (suc n)) plan leg summary file =
      drive-StartsAt plan (suc plan.current_leg_index) (suc n) summary file

  received-StartsAt :
      (plan : StoredConversionPlan) (leg : RouteLeg) (received : Option ℕ)
      (summary : PlanResumeSummary) (file : Plans v)
      → StartsAt plan (suc plan.current_leg_index) (
          after_settled_leg v key draw ops providers settle_timeout_ms poll_interval_ms run_leg plan
            leg received summary file)
  unfolding after_settled_leg close_plan
  received-StartsAt plan leg received summary file =
      elim (Bool-cases (suc plan.current_leg_index == length plan.route.legs)) [
        | inl last ↦ rw (last, if◌then◌else◌) (nothing plan.route.legs (suc plan.current_leg_index))
        | inr more ↦ rw (more, if◌then◌else◌) (next-StartsAt received plan leg summary file)
      ]

  probe-StartsAt :
      (plan : StoredConversionPlan) (leg : RouteLeg) (current : StoredPlanLegResult)
      (probe : LegProbe) (summary : PlanResumeSummary) (file : Plans v)
      → StartsAt plan (suc plan.current_leg_index) (
          after_probe v key draw ops providers settle_timeout_ms poll_interval_ms run_leg plan leg
            current probe summary file)
  unfolding after_probe close_plan settle_leg
  probe-StartsAt plan leg current still_pending summary file =
      nothing plan.route.legs (suc plan.current_leg_index)
  probe-StartsAt plan leg current (concluded detail) summary file =
      nothing plan.route.legs (suc plan.current_leg_index)
  probe-StartsAt plan leg current (unknowable detail) summary file =
      park-StartsAt _ plan _ summary file
  probe-StartsAt plan leg current (probe_settled received) summary file =
      let i = plan.current_leg_index in
      let result = record current { state = settled; received_sats = received } in
      let settle = settle_leg i result in
      elim (Result-cases (patch v key (draw i at_probe) plan.plan_id settle file)) [
        | inl (f, e) ↦ rw (after_probe, e) (received-StartsAt (settle plan) leg received summary f)
        | inr (x, e) ↦ rw (after_probe, e) (nothing plan.route.legs (suc plan.current_leg_index))
      ]

  started-StartsAt :
      (plan : StoredConversionPlan) (leg : RouteLeg) (current : StoredPlanLegResult)
      (summary : PlanResumeSummary) (file : Plans v)
      → StartsAt plan (suc plan.current_leg_index) (
          probe_started v key draw ops providers settle_timeout_ms poll_interval_ms run_leg plan leg
            current summary file)
  unfolding probe_started
  started-StartsAt plan leg current summary file =
      elim (Result-cases (probe_leg ops providers leg.method current.tracking_id)) [
        | inl (probe, e) ↦
            rw (probe_started, e) (probe-StartsAt plan leg current probe summary file)
        | inr (x, e) ↦ rw (probe_started, e) (nothing plan.route.legs (suc plan.current_leg_index))
      ]

  resume_started-StartsAt :
      (state : PlanLegState) (plan : StoredConversionPlan) (leg : RouteLeg)
      (current : StoredPlanLegResult) (summary : PlanResumeSummary) (file : Plans v)
      → StartsAt plan (suc plan.current_leg_index) (
          resume_started v key draw ops providers settle_timeout_ms poll_interval_ms run_leg state
            plan leg current summary file)
  unfolding resume_started
  resume_started-StartsAt settled plan leg current summary file =
      received-StartsAt plan leg current.received_sats summary file
  resume_started-StartsAt in_flight plan leg current summary file =
      started-StartsAt plan leg current summary file
  resume_started-StartsAt leg_awaiting_funding plan leg current summary file =
      started-StartsAt plan leg current summary file
  resume_started-StartsAt leg_pending plan leg current summary file =
      started-StartsAt plan leg current summary file

  -- The resume of a plan whose current leg has a record, whatever the record and the providers say,
  -- executes no leg up to the current one: its calls are a chain of the route's legs from the one
  -- after it.
  pub resume_one_plan-IsChain :
      (plan : StoredConversionPlan) (current : StoredPlanLegResult) (summary : PlanResumeSummary)
      (file : Plans v)
      → leg_result plan.current_leg_index plan.leg_results ≡ some current
      → (carry : ℕ) × IsChain v run_leg plan.route.legs
          (suc plan.current_leg_index)
          carry
          (resume_one_plan v key draw ops providers settle_timeout_ms poll_interval_ms run_leg plan
            summary file).calls
  unfolding resume_one_plan resume_leg
  resume_one_plan-IsChain plan current summary file h =
      elim (Bool-cases (is_needs_review plan.state)) [
        | inl parked ↦
            rw (parked, if◌then◌else◌) (nothing plan.route.legs (suc plan.current_leg_index))
        | inr free ↦ elim (Option-cases (get_elem? plan.route.legs plan.current_leg_index)) [
          | inl e ↦ rw (free, if◌then◌else◌, e) (park-StartsAt _ plan _ summary file)
          | inr (leg, e) ↦
              rw (free, if◌then◌else◌, e, h)
                (resume_started-StartsAt current.state plan leg current summary file)
        ]
      ]
