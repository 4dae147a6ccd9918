-- ===== src/Multihop/Chain.antt =====
-- The calls of a drive, in their order: which leg each runs and what goes into it.
use depix_sdk.Common.{
  ℕ, zero, suc, ◌≡◌, ◌<◌, refl, Bool, true, false, Option, none, some, List, [], ◌∷◌, if◌then◌else◌,
  Result, ok, err, ◌==◌, not, ◌&&◌, ◌⊎◌, inl, inr, Bool-cases, Result-cases, arith, get_elem?, ap,
  ◌∙◌,
}
use depix_sdk.Common.Text.{Text}
use depix_sdk.Errors.{SdkError}
use depix_sdk.Vault.{Vault}
use depix_sdk.Routes.Legs.{RouteLeg}
use depix_sdk.Multihop.Notes.{drop, drop-zero}
use depix_sdk.Plans.{StoredConversionPlan, Claim, claimed, already_active, not_found, Plans, patch}
use depix_sdk.Convert.{
  ConvertStatus, convert_settled, convert_pending, convert_awaiting_funding, convert_refunded,
  convert_refund_pending, convert_failed, ConvertResult, ExecuteContext,
}
use depix_sdk.Convert.{LegAnswer, returned, threw, LegError}
use depix_sdk.Multihop.{
  is_retry_safe_leg_error, LegCall, Draw, at_note, at_outcome, need_review, reset_leg,
  record_outcome, leg_result_from_outcome, plan_state_of,
}
use depix_sdk.Multihop.Drive.{
  Turn, finished, advances, Executed, Taken, not_run, ran, Driven, leg_call, parked, after_throw,
  after_settled, by_status, after_return, after_leg, is_last, run_claimed, after_claim, take_leg,
  drive_from, drive_plan, driven,
}

-- The answer is a settled outcome that reports this amount, which is not 0.
pub record IsPaidOut (answer : LegAnswer) (amount : ℕ) : Type 0 where
  pub outcome : ConvertResult
  pub answered : answer ≡ returned outcome
  pub is_settled : outcome.status ≡ convert_settled
  pub received : outcome.received_sats ≡ some amount
  pub positive : 0 < amount

-- A call that asks for its own leg, over this amount.
abbrev pub IsLegCall : ℕ → LegCall → Type 0
IsLegCall carry call =
    (call.params.from ≡ call.leg.from)
    × (call.params.to ≡ call.leg.to)
    × (call.params.network ≡ some call.leg.network)
    × (call.params.from_network ≡ some call.leg.from_network)
    × (call.params.amount ≡ carry)

-- The list holds a leg at `i` exactly when the rest of it from `i` on starts with it.
drop-here :
    (i : ℕ) (legs : List RouteLeg) (leg : RouteLeg) (rest : List RouteLeg)
    → drop i legs ≡ leg ∷ rest
    → (get_elem? legs i ≡ some leg) × (drop (suc i) legs ≡ rest)
unfolding drop
drop-here zero [] leg rest h = cc
drop-here zero (x ∷ xs) leg rest h = (ground (arith, h), ground (arith, h, drop-zero xs))
drop-here (suc i) [] leg rest h = cc
drop-here (suc i) (x ∷ xs) leg rest h = drop-here i xs leg rest h

module _ (v : Vault StoredConversionPlan) (run_leg : ℕ → Plans v → LegCall → LegAnswer) where
  -- The calls execute the leg that the route has at `i`, from its source to its target with the input
  -- `carry`, and after it, if it paid out some amount, the leg at `i + 1` with that amount, and so on.
  abbrev pub IsChain : List RouteLeg → ℕ → ℕ → List (Executed v) → Type 0
  IsChain legs i carry [] = Unit
  IsChain legs i carry (x ∷ later) =
      (x.index ≡ i)
      × (get_elem? legs i ≡ some x.call.leg)
      × IsLegCall carry x.call
      × ((later ≡ [])
          ⊎ ((amount : ℕ) × IsPaidOut (run_leg x.index x.seen x.call) amount
              × IsChain legs (suc i) amount later))

  module _ (key : v.Key) (draw : ℕ → Draw → Text) (plan : StoredConversionPlan)
      (ctx : ExecuteContext) (resumed : Bool) where
    abbrev TurnIsPaid : LegAnswer → Turn v → Type 0
    TurnIsPaid answer (finished file result) = Unit
    TurnIsPaid answer (advances file txids carry) = IsPaidOut answer carry

    parked-IsPaid :
        (answer : LegAnswer) (i : ℕ) (note : Text) (txids : List Text) (file : Plans v)
        → TurnIsPaid answer (parked v key draw plan ctx resumed i note txids file)
    unfolding parked
    parked-IsPaid answer i note txids file =
        elim (Result-cases (patch v key (draw i at_note) plan.plan_id (need_review note) file)) [
          | inl (f, e) ↦ rw e tt
          | inr (x, e) ↦ rw e tt
        ]

    after_throw-IsPaid :
        (answer : LegAnswer) (i : ℕ) (leg : RouteLeg) (e : LegError) (txids : List Text)
        (file : Plans v)
        → TurnIsPaid answer (after_throw v key draw plan ctx resumed i leg e txids file)
    unfolding after_throw
    after_throw-IsPaid answer i leg e txids file = elim (Bool-cases ((i == 0) && not resumed)) [
      | inl first ↦ rw (first, if◌then◌else◌) tt
      | inr later ↦ elim (Bool-cases (is_retry_safe_leg_error e)) [
        | inl safe ↦
            elim (Result-cases (patch v key (draw i at_note) plan.plan_id (reset_leg i) file)) [
              | inl (f, e') ↦ rw (later, safe, if◌then◌else◌, e') tt
              | inr (x, e') ↦ rw (later, safe, if◌then◌else◌, e') tt
            ]
        | inr unsafe ↦ rw (later, unsafe, if◌then◌else◌) (parked-IsPaid answer i _ txids file)
      ]
    ]

    after_settled-IsPaid :
        (received : Option ℕ) (i : ℕ) (leg : RouteLeg) (is_final : Bool) (outcome : ConvertResult)
        (txids : List Text) (file : Plans v)
        → outcome.status ≡ convert_settled
        → outcome.received_sats ≡ received
        → TurnIsPaid
            (returned outcome)
            (after_settled v key draw plan ctx resumed received i leg is_final outcome txids file)
    unfolding after_settled
    after_settled-IsPaid received i leg true outcome txids file s r = tt
    after_settled-IsPaid none i leg false outcome txids file s r = parked-IsPaid _ i _ txids file
    after_settled-IsPaid (some zero) i leg false outcome txids file s r =
        parked-IsPaid _ i _ txids file
    after_settled-IsPaid (some (suc n)) i leg false outcome txids file s r = record {
      outcome = outcome;
      answered = refl;
      is_settled = s;
      received = r;
      positive = omega arith;
    }

    by_status-IsPaid :
        (status : ConvertStatus) (i : ℕ) (leg : RouteLeg) (is_final : Bool)
        (outcome : ConvertResult) (txids : List Text) (file : Plans v)
        → outcome.status ≡ status
        → TurnIsPaid
            (returned outcome)
            (by_status v key draw plan ctx resumed status i leg is_final outcome txids file)
    unfolding by_status
    by_status-IsPaid convert_settled i leg is_final outcome txids file e =
        after_settled-IsPaid outcome.received_sats i leg is_final outcome txids file e refl
    by_status-IsPaid convert_pending i leg is_final outcome txids file e = tt
    by_status-IsPaid convert_awaiting_funding i leg is_final outcome txids file e = tt
    by_status-IsPaid convert_refund_pending i leg is_final outcome txids file e = tt
    by_status-IsPaid convert_refunded i leg is_final outcome txids file e = tt
    by_status-IsPaid convert_failed i leg is_final outcome txids file e = tt

    after_leg-IsPaid :
        (i : ℕ) (leg : RouteLeg) (is_final : Bool) (answer : LegAnswer) (txids : List Text)
        (file : Plans v)
        → TurnIsPaid answer (after_leg v key draw plan ctx resumed i leg is_final answer txids file)
    unfolding after_return
    after_leg-IsPaid i leg is_final (threw e) txids file =
        after_throw-IsPaid (threw e) i leg e txids file
    after_leg-IsPaid i leg is_final (returned outcome) txids file =
        elim (Result-cases (
          patch v key (draw i at_outcome) plan.plan_id
            (record_outcome i (leg_result_from_outcome outcome) (plan_state_of outcome.status))
            file)) [
              | inl (f, e) ↦ rw e (by_status-IsPaid outcome.status i leg is_final outcome _ f refl)
              | inr (x, e) ↦ rw e tt
            ]

    abbrev TakenIsPaid : RouteLeg → ℕ → ℕ → Taken v → Type 0
    TakenIsPaid leg i carry (not_run file result) = Unit
    TakenIsPaid leg i carry (ran x turn) =
        (x.index ≡ i)
        × (leg ≡ x.call.leg)
        × IsLegCall carry x.call
        × TurnIsPaid (run_leg x.index x.seen x.call) turn

    after_claim-IsPaid :
        (leg : RouteLeg) (rest : List RouteLeg) (i : ℕ) (txids : List Text) (carry : ℕ)
        (file : Plans v) (outcome : Result SdkError (Claim × Plans v))
        → TakenIsPaid leg i carry
            (after_claim v key draw plan ctx resumed run_leg leg rest i txids carry file outcome)
    unfolding after_claim run_claimed leg_call
    after_claim-IsPaid leg rest i txids carry file (err e) = tt
    after_claim-IsPaid leg rest i txids carry file (ok (already_active, f)) = tt
    after_claim-IsPaid leg rest i txids carry file (ok (not_found, f)) = tt
    after_claim-IsPaid leg rest i txids carry file (ok (claimed, f)) = (
      refl,
      refl,
      (refl, refl, refl, refl, refl),
      after_leg-IsPaid i leg (is_last rest) _ txids f,
    )

    driven-IsChain :
        (leg : RouteLeg) (i carry : ℕ) (taken : Taken v) (next : Plans v → List Text → ℕ → Driven v)
        → get_elem? plan.route.legs i ≡ some leg
        → TakenIsPaid leg i carry taken
        → ((f : Plans v) (t : List Text) (c : ℕ)
            → IsChain plan.route.legs (suc i) c (next f t c).calls)
        → IsChain plan.route.legs i carry (driven v taken next).calls
    driven-IsChain leg i carry (not_run file result) next at h k = tt
    driven-IsChain leg i carry (ran x (finished file result)) next at h k =
        (h.0, at ∙ ap some h.1, h.2, inl refl)
    driven-IsChain leg i carry (ran x (advances file txids c)) next at h k =
        (h.0, at ∙ ap some h.1, h.2, inr (c, h.3, k file txids c))

    pub drive_from-IsChain :
        (legs : List RouteLeg) (i : ℕ) (txids : List Text) (carry : ℕ) (file : Plans v)
        → drop i plan.route.legs ≡ legs
        → IsChain plan.route.legs i carry
            (drive_from v key draw plan ctx resumed run_leg legs i txids carry file).calls
    unfolding drive_from take_leg
    drive_from-IsChain [] i txids carry file e = tt
    drive_from-IsChain (leg ∷ rest) i txids carry file e =
        let here = drop-here i plan.route.legs leg rest e in
        driven-IsChain leg i carry
          (take_leg v key draw plan ctx resumed run_leg leg rest i txids carry file)
          (λ f t c. drive_from v key draw plan ctx resumed run_leg rest (suc i) t c f) here.0
          (after_claim-IsPaid leg rest i txids carry file _)
          (λ f t c. drive_from-IsChain rest (suc i) t c f here.1)

    -- A drive executes the legs that the route has from its start index on, one after the other and none
    -- twice, each over its own assets and networks: the first with the input of the drive, each later
    -- one with the amount, not 0, that the one before it reported when it settled.
    pub drive_plan-IsChain :
        (start_leg_index carry : ℕ) (file : Plans v)
        → IsChain plan.route.legs start_leg_index carry
            (drive_plan v key draw plan ctx resumed run_leg start_leg_index carry file).calls
    unfolding drive_plan
    drive_plan-IsChain start_leg_index carry file =
        drive_from-IsChain _ start_leg_index _ carry file refl
