-- ===== src/Plans.antt =====
-- src/convert/plan-store.ts: the encrypted store of unfinished conversion plans. An operation takes
-- the file as it finds it and gives the file that it leaves; the store's mutex makes each of them one
-- step. The initialisation vector that an encryption draws is an argument.
pub mod Laws
pub mod Rewrites
pub mod Claims
pub mod Once
mod Tests
use depix_sdk.Common.{
  ℕ, zero, suc, ◌+◌, Bool, true, false, Option, none, some, List, [], ◌∷◌, ◌++◌, if◌then◌else◌,
  length, get_elem?, Result, ok, err, ◌>>=◌, ◌==◌, not,
}
use depix_sdk.Common.Text.{Text}
use depix_sdk.Errors.{SdkError, platform_failure, plan_validation_failed}
use depix_sdk.Routes.Legs.{Route}
use depix_sdk.Vault.{
  Vault, StoreFile, read_envelopes, write_envelopes, locate, without, replace_first,
}

pub data ConversionPlanState : Type 0 where
  executing awaiting_funding pending needs_review : ConversionPlanState

pub data PlanLegState : Type 0 where
  in_flight leg_awaiting_funding leg_pending settled : PlanLegState

pub record StoredPlanLegResult : Type 0 where
  pub state : PlanLegState
  pub txids : List Text
  pub received_sats : Option ℕ
  pub tracking_id : Option Text

pub record StoredPlanIntent : Type 0 where
  pub from : Text
  pub to : Text
  pub network : Text
  pub from_network : Option Text
  pub amount_sats : ℕ

pub record StoredPlanParams : Type 0 where
  pub address : Option Text
  pub invoice : Option Text
  pub refund_address : Option Text

-- A slot of `leg_results` that is null is `none`.
pub record StoredConversionPlan : Type 0 where
  pub plan_id : Text
  pub intent : StoredPlanIntent
  pub route : Route
  pub params : StoredPlanParams
  pub current_leg_index : ℕ
  pub leg_results : List (Option StoredPlanLegResult)
  pub state : ConversionPlanState
  pub note : Option Text
  pub created_at : ℕ

pub record ConversionPlanStoreReadAll : Type 0 where
  pub records : List StoredConversionPlan
  pub tampered_ids : List Text

pub data Claim : Type 0 where
  claimed already_active not_found : Claim

-- `record.legResults[legIndex] ?? null`.
unfoldable pub leg_result : ℕ → List (Option StoredPlanLegResult) → Option StoredPlanLegResult
leg_result i [] = none
leg_result zero (r ∷ rs) = r
leg_result (suc i) (r ∷ rs) = leg_result i rs

-- `record.legResults[legIndex] = r`; an assignment past the end leaves null in between.
unfoldable pub set_leg_result :
    ℕ → StoredPlanLegResult → List (Option StoredPlanLegResult) → List (Option StoredPlanLegResult)
set_leg_result zero r [] = some r ∷ []
set_leg_result (suc i) r [] = none ∷ set_leg_result i r []
set_leg_result zero r (s ∷ rs) = some r ∷ rs
set_leg_result (suc i) r (s ∷ rs) = s ∷ set_leg_result i r rs

abbrev pub started : StoredPlanLegResult
started = record { state = in_flight; txids = []; received_sats = none; tracking_id = none }

-- What `claimLeg` writes into a record whose leg is free.
unfoldable pub claim_record : ℕ → StoredConversionPlan → StoredConversionPlan
claim_record leg_index r = record r {
  current_leg_index = leg_index;
  leg_results = set_leg_result leg_index started r.leg_results;
  state = executing;
}

-- The record that `put` encrypts: `createdAt: record.createdAt || this.now()`.
unfoldable pub stamped : ℕ → StoredConversionPlan → StoredConversionPlan
stamped now r = if r.created_at == 0 then record r { created_at = now } else r

module _ (v : Vault StoredConversionPlan) where
  pub record Envelope : Type 0 where
    pub id : Text
    pub sealed : v.Sealed

  abbrev pub Plans : Type 0
  Plans = StoreFile Envelope

  -- `envelopes.find((e) => e.id === planId)`.
  abbrev pub find_plan : Text → List Envelope → Option Envelope
  find_plan = locate λ e. e.id

  module _ (key : v.Key) where
    unfoldable pub encrypt : Text → StoredConversionPlan → Envelope
    encrypt iv r = record { id = r.plan_id; sealed = v.seal key iv r.plan_id r }

    -- What it throws is some error of the platform.
    unfoldable pub decrypt : Envelope → Result SdkError StoredConversionPlan
    decrypt env = elim (v.unseal key env.id env.sealed) [
      | some r ↦ ok r
      | none ↦ err platform_failure
    ]

    unfoldable pub put : ℕ → Text → StoredConversionPlan → Plans → Result SdkError Plans
    put now iv r file = do
      envelopes ← read_envelopes file
      ok (
          write_envelopes
            (without (λ e. e.id) r.plan_id envelopes ++ encrypt iv (stamped now r) ∷ []))

    unfoldable pub patch :
        Text → Text → (StoredConversionPlan → StoredConversionPlan) → Plans → Result SdkError Plans
    patch iv plan_id mutate file = do
      envelopes ← read_envelopes file
      elim (find_plan plan_id envelopes) [
        | none ↦ ok file
        | some env ↦ do
          r ← decrypt env
          ok (write_envelopes (replace_first (λ e. e.id) plan_id (encrypt iv (mutate r)) envelopes))
      ]

    -- `claimLeg(planId, legIndex)`: the outcome, and the file.
    unfoldable pub claim_leg : Text → Text → ℕ → Plans → Result SdkError (Claim × Plans)
    claim_leg iv plan_id leg_index file = do
      envelopes ← read_envelopes file
      elim (find_plan plan_id envelopes) [
        | none ↦ ok (not_found, file)
        | some env ↦ do
          r ← decrypt env
          elim (leg_result leg_index r.leg_results) [
            | some started_before ↦ ok (already_active, file)
            | none ↦ ok (
              claimed,
              write_envelopes (
                  replace_first (λ e. e.id) plan_id (encrypt iv (claim_record leg_index r))
                    envelopes),
            )
          ]
      ]

    unfoldable pub remove : Text → Plans → Result SdkError Plans
    remove plan_id file = do
      envelopes ← read_envelopes file
      let next = without (λ e. e.id) plan_id envelopes
      ok (if not (length next == length envelopes) then write_envelopes next else file)

    unfoldable pub get : Text → Plans → Result SdkError (Option StoredConversionPlan)
    get plan_id file = do
      envelopes ← read_envelopes file
      elim (find_plan plan_id envelopes) [
        | none ↦ ok none
        | some env ↦ elim (decrypt env) [ ok r ↦ ok (some r) | err e ↦ err plan_validation_failed ]
      ]

    -- The loop of `readAll`.
    unfoldable pub read_each : List Envelope → ConversionPlanStoreReadAll
    read_each [] = record { records = []; tampered_ids = [] }
    read_each (env ∷ rest) =
        let others = read_each rest in
        elim (decrypt env) [
          | ok r ↦ record others { records = r ∷ others.records }
          | err e ↦ record others { tampered_ids = env.id ∷ others.tampered_ids }
        ]

    unfoldable pub read_all : Plans → Result SdkError ConversionPlanStoreReadAll
    read_all file = do envelopes ← read_envelopes file; ok (read_each envelopes)

  unfoldable pub count : Plans → Result SdkError ℕ
  count file = do envelopes ← read_envelopes file; ok (length envelopes)
