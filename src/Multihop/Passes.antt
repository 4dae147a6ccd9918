-- ===== src/Multihop/Passes.antt =====
-- The entry points of src/convert/multihop.ts: a conversion from its first leg, a pass of the recovery
-- over every plan, and the list of the plans in flight. The plans of a pass are numbered, for what
-- they draw and for what their legs answer.
use depix_sdk.Common.{
  ℕ, suc, false, Option, none, some, List, [], ◌∷◌, ◌++◌, if◌then◌else◌, Result, ok, err, ◌>>=◌,
  ◌>>◌, map,
}
use depix_sdk.Common.Text.{Text, codes, TextOps}
use depix_sdk.Errors.{SdkError}
use depix_sdk.Routes.Legs.{
  Route, RouteLeg, RouteMethod, swap, peg_in, peg_out, pay_lightning_invoice, receive_lightning,
  to_stablecoin, send, receive, asset_name, network_name,
}
use depix_sdk.Vault.{Vault}
use depix_sdk.Plans.{
  StoredConversionPlan, ConversionPlanState, executing, Plans, put, remove, read_all,
}
use depix_sdk.Convert.{
  ConvertParams, ExecuteContext, require_convert_address, require_convert_invoice,
}
use depix_sdk.Convert.{LegAnswer}
use depix_sdk.Multihop.{LegCall, Draw}
use depix_sdk.Multihop.Drive.{Executed, Driven, stops, removed, drive_plan}
use depix_sdk.Multihop.Resume.{PlanResumeSummary, Providers, resume_one_plan}

-- A leg's part of `preflightLegParams`.
unfoldable pub preflight_leg : TextOps → RouteMethod → ConvertParams → Result SdkError (Unit {0})
preflight_leg ops peg_out params = require_convert_address ops params >>= λ a. ok tt
preflight_leg ops to_stablecoin params = require_convert_address ops params >>= λ a. ok tt
preflight_leg ops send params = require_convert_address ops params >>= λ a. ok tt
preflight_leg ops pay_lightning_invoice params = require_convert_invoice ops params >>= λ i. ok tt
preflight_leg ops swap params = ok tt
preflight_leg ops peg_in params = ok tt
preflight_leg ops receive_lightning params = ok tt
preflight_leg ops receive params = ok tt

unfoldable pub preflight_leg_params :
    TextOps → List RouteLeg → ConvertParams → Result SdkError (Unit {0})
preflight_leg_params ops [] params = ok tt
preflight_leg_params ops (leg ∷ rest) params =
    preflight_leg ops leg.method params >> preflight_leg_params ops rest params

-- The plan that `executeMultiHopRoute` writes before the first leg.
unfoldable pub new_plan : Text → ℕ → Route → ConvertParams → StoredConversionPlan
new_plan plan_id now route params = record {
  plan_id = plan_id;
  intent = record {
    from = asset_name params.from;
    to = asset_name params.to;
    network = elim params.network [ some n ↦ network_name n | none ↦ codes "liquid" ];
    from_network = elim params.from_network [ some n ↦ some (network_name n) | none ↦ none ];
    amount_sats = params.amount;
  };
  route = route;
  params = record {
    address = params.address;
    invoice = params.invoice;
    refund_address = params.refund_address;
  };
  current_leg_index = 0;
  leg_results = [];
  state = executing;
  note = none;
  created_at = now;
}

-- `getPending()`'s view of a plan.
pub record PendingPlanDescriptor : Type 0 where
  pub plan_id : Text
  pub route_id : Text
  pub hops : ℕ
  pub state : ConversionPlanState
  pub current_leg_index : ℕ
  pub note : Option Text
  pub created_at : ℕ

unfoldable pub describe : StoredConversionPlan → PendingPlanDescriptor
describe plan = record {
  plan_id = plan.plan_id;
  route_id = plan.route.id;
  hops = plan.route.hops;
  state = plan.state;
  current_leg_index = plan.current_leg_index;
  note = plan.note;
  created_at = plan.created_at;
}

abbrev pub no_plans : PlanResumeSummary
no_plans = record {
  checked = 0;
  advanced = 0;
  completed = 0;
  needs_review = 0;
  discarded = 0;
  failed = 0;
}

module _ (v : Vault StoredConversionPlan) (key : v.Key) where
  -- `executeMultiHopRoute(route, params, deps, ctx)`, with the id and the time that it draws.
  unfoldable pub execute_multi_hop_route :
      TextOps
      → (ℕ → Draw → Text)
      → (ℕ → Plans v → LegCall → LegAnswer)
      → Text
      → Text
      → ℕ
      → Route
      → ConvertParams
      → ExecuteContext
      → Plans v
      → Driven v
  execute_multi_hop_route ops draw run_leg iv plan_id now route params ctx file =
      elim (preflight_leg_params ops route.legs params) [
        | err e ↦ stops v file (err e)
        | ok passed ↦
            let plan = new_plan plan_id now route params in
            elim (put v key now iv plan file) [
              | err e ↦ stops v file (err e)
              | ok file' ↦ drive_plan v key draw plan ctx false run_leg 0 params.amount file'
            ]
      ]

  unfoldable pub list_pending_plans : Plans v → Result SdkError (List PendingPlanDescriptor)
  list_pending_plans file = do read ← read_all v key file; ok (map describe read.records)

  -- What a pass leaves.
  pub record RecoveryPass : Type 0 where
    pub file : Plans v
    pub calls : List (Executed v)
    pub summary : PlanResumeSummary

  -- The loop over the records that do not authenticate.
  unfoldable pub discard_each : List Text → PlanResumeSummary → Plans v → RecoveryPass
  discard_each [] summary file = record { file = file; calls = []; summary = summary }
  discard_each (plan_id ∷ rest) summary file =
      discard_each rest (record summary { discarded = suc summary.discarded })
        (removed v (remove v key plan_id file) file)

  module _ (draws : ℕ → ℕ → Draw → Text) (ops : TextOps) (providers : ℕ → Providers)
      (settle_timeout_ms poll_interval_ms : ℕ)
      (run_legs : ℕ → ℕ → Plans v → LegCall → LegAnswer) where
    -- The loop over the plans, from the plan numbered `k` on.
    unfoldable pub resume_each :
        ℕ → List StoredConversionPlan → PlanResumeSummary → Plans v → RecoveryPass
    resume_each k [] summary file = record { file = file; calls = []; summary = summary }
    resume_each k (plan ∷ rest) summary file =
        let r =
          resume_one_plan v key (draws k) ops (providers k) settle_timeout_ms poll_interval_ms
            (run_legs k) plan (record summary { checked = suc summary.checked }) file in
        let counted =
          if r.threw then record r.summary { failed = suc r.summary.failed } else r.summary in
        let later = resume_each (suc k) rest counted r.file in
        record later { calls = r.calls ++ later.calls }

    unfoldable pub resume_conversion_plans : Plans v → RecoveryPass
    resume_conversion_plans file = elim (read_all v key file) [
      | err e ↦ record { file = file; calls = []; summary = record no_plans { failed = 1 } }
      | ok read ↦
          let discarded = discard_each read.tampered_ids no_plans file in
          resume_each 0 read.records discarded.summary discarded.file
    ]
