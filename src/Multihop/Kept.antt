-- ===== src/Multihop/Kept.antt =====
-- What a drive leaves in the plan store, and what the wallet's hooks read in it while a leg runs.
use depix_sdk.Common.{
  ℕ, zero, suc, ◌≡◌, refl, Bool, true, false, Option, none, some, List, [], ◌∷◌, if◌then◌else◌,
  Result, ok, err, ltb, ◌==◌, not, ◌&&◌, ◌⊎◌, inl, inr, Bool-cases, Ensures, arith, All, ap, subst,
  sym,
}
use depix_sdk.Common.Text.{Text}
use depix_sdk.Errors.{SdkError}
use depix_sdk.Vault.{Vault}
use depix_sdk.Routes.Legs.{RouteLeg}
use depix_sdk.Plans.{
  StoredConversionPlan, Claim, claimed, already_active, not_found, Plans, claim_leg,
}
use depix_sdk.Plans.Claims.{claim_leg-keeps}
use depix_sdk.Convert.{
  ConvertStatus, convert_settled, convert_pending, convert_awaiting_funding, convert_refunded,
  convert_refund_pending, convert_failed, ConvertResult, ExecuteContext,
}
use depix_sdk.Convert.{LegAnswer, returned, threw, LegError}
use depix_sdk.Multihop.{
  first_value_leg_index, is_plan_continuation_authorized, is_authorized_plan_continuation,
  leg_result_from_outcome, plan_state_of, is_retry_safe_leg_error, LegCall, Draw, at_claim,
  at_outcome, at_note, need_review, reset_leg,
}
use depix_sdk.Multihop.Drive.{
  Turn, finished, advances, Executed, Taken, not_run, ran, patched, leg_call, own_result, parked,
  after_throw, after_settled, by_status, after_return, after_leg, is_last, run_claimed, after_claim,
  take_leg, drive_from, drive_plan, Driven, driven,
}
use depix_sdk.Multihop.Held.{
  IsHeld, patch-IsHeld, claim_leg-IsHeld, need_review-IsMild, reset_leg-IsMild,
  record_outcome-IsMild,
}

abbrev pub is_terminal : ConvertStatus → Bool
is_terminal convert_settled = true
is_terminal convert_refunded = true
is_terminal convert_failed = true
is_terminal convert_pending = false
is_terminal convert_awaiting_funding = false
is_terminal convert_refund_pending = false

-- A terminal status, or an error that a direct call lets through.
abbrev pub IsOver : Bool → Result SdkError ConvertResult → Type 0
IsOver resumed (ok r) = is_terminal r.status ≡ true
IsOver resumed (err e) = resumed ≡ false

module _ (v : Vault StoredConversionPlan) (key : v.Key) (draw : ℕ → Draw → Text)
    (plan : StoredConversionPlan) (ctx : ExecuteContext) (resumed : Bool) where
  abbrev Held : Plans v → Type 0
  Held = IsHeld v key plan.plan_id plan.route

  abbrev IsKept : Plans v → Result SdkError ConvertResult → Type 0
  IsKept file result = (Held file) ⊎ (IsOver resumed result)

  abbrev TurnIsKept : Turn v → Type 0
  TurnIsKept (finished file result) = IsKept file result
  TurnIsKept (advances file txids carry) = Held file

  -- The hooks of a call skip the ceilings exactly past the first value leg.
  abbrev pub IsCounted : Executed v → Type 0
  IsCounted x =
      is_authorized_plan_continuation v key x.seen x.call
      ≡ ltb (first_value_leg_index plan.route) x.index

  abbrev TakenIsKept : Taken v → Type 0
  TakenIsKept (not_run file result) = IsKept file result
  TakenIsKept (ran x turn) = IsCounted x × TurnIsKept turn

  patched-IsKept :
      (call : Result SdkError (Plans v)) (file : Plans v) (next : Plans v → Turn v)
      → Held file
      → Ensures Held call
      → ((f : Plans v) → Held f → TurnIsKept (next f))
      → TurnIsKept (patched v call file next)
  patched-IsKept (err e) file next h p k = inl h
  patched-IsKept (ok f) file next h p k = k f p

  parked-IsKept :
      (i : ℕ) (note : Text) (txids : List Text) (file : Plans v)
      → Held file
      → TurnIsKept (parked v key draw plan ctx resumed i note txids file)
  unfolding parked
  parked-IsKept i note txids file h =
      patched-IsKept _ file _ h
        (patch-IsHeld v key plan.plan_id plan.route (draw i at_note) (need_review note)
          (need_review-IsMild note) file h)
        (λ f held. inl held)

  after_throw-IsKept :
      (i : ℕ) (leg : RouteLeg) (e : LegError) (txids : List Text) (file : Plans v)
      → Held file
      → TurnIsKept (after_throw v key draw plan ctx resumed i leg e txids file)
  unfolding after_throw
  after_throw-IsKept i leg e txids file h = elim (Bool-cases ((i == 0) && not resumed)) [
    | inl first ↦ rw (first, if◌then◌else◌) (inr (ground arith))
    | inr later ↦ elim (Bool-cases (is_retry_safe_leg_error e)) [
      | inl safe ↦
          rw (later, safe, if◌then◌else◌)
            (patched-IsKept _ file _ h
              (patch-IsHeld v key plan.plan_id plan.route (draw i at_note) (reset_leg i)
                (reset_leg-IsMild i) file h)
              (λ f held. inl held))
      | inr unsafe ↦ rw (later, unsafe, if◌then◌else◌) (parked-IsKept i _ txids file h)
    ]
  ]

  after_settled-IsKept :
      (received : Option ℕ) (i : ℕ) (leg : RouteLeg) (is_final : Bool) (outcome : ConvertResult)
      (txids : List Text) (file : Plans v)
      → Held file
      → TurnIsKept
          (after_settled v key draw plan ctx resumed received i leg is_final outcome txids file)
  unfolding after_settled
  after_settled-IsKept received i leg true outcome txids file h = inr refl
  after_settled-IsKept none i leg false outcome txids file h = parked-IsKept i _ txids file h
  after_settled-IsKept (some zero) i leg false outcome txids file h = parked-IsKept i _ txids file h
  after_settled-IsKept (some (suc n)) i leg false outcome txids file h = h

  by_status-IsKept :
      (status : ConvertStatus) (i : ℕ) (leg : RouteLeg) (is_final : Bool) (outcome : ConvertResult)
      (txids : List Text) (file : Plans v)
      → outcome.status ≡ status
      → Held file
      → TurnIsKept (by_status v key draw plan ctx resumed status i leg is_final outcome txids file)
  unfolding by_status own_result
  by_status-IsKept convert_settled i leg is_final outcome txids file e h =
      after_settled-IsKept outcome.received_sats i leg is_final outcome txids file h
  by_status-IsKept convert_pending i leg is_final outcome txids file e h = inl h
  by_status-IsKept convert_awaiting_funding i leg is_final outcome txids file e h = inl h
  by_status-IsKept convert_refund_pending i leg is_final outcome txids file e h = inl h
  by_status-IsKept convert_refunded i leg is_final outcome txids file e h = inr (ap is_terminal e)
  by_status-IsKept convert_failed i leg is_final outcome txids file e h = inr (ap is_terminal e)

  after_leg-IsKept :
      (i : ℕ) (leg : RouteLeg) (is_final : Bool) (answer : LegAnswer) (txids : List Text)
      (file : Plans v)
      → Held file
      → TurnIsKept (after_leg v key draw plan ctx resumed i leg is_final answer txids file)
  unfolding after_return
  after_leg-IsKept i leg is_final (threw e) txids file h = after_throw-IsKept i leg e txids file h
  after_leg-IsKept i leg is_final (returned outcome) txids file h =
      patched-IsKept _ file _ h
        (patch-IsHeld v key plan.plan_id plan.route (draw i at_outcome) _
          (record_outcome-IsMild i (leg_result_from_outcome outcome) (plan_state_of outcome.status))
          file h)
        (λ f held. by_status-IsKept outcome.status i leg is_final outcome _ f refl held)

  -- The call of a leg whose claim is in the file that the hooks read.
  leg_call-IsCounted :
      (i : ℕ) (leg : RouteLeg) (is_final : Bool) (carry : ℕ) (file : Plans v) (h : Held file)
      → h.stored.current_leg_index ≡ i
      → IsCounted (record {
        index = i;
        seen = file;
        call = leg_call v key draw plan ctx resumed i leg is_final carry;
      })
  unfolding leg_call is_authorized_plan_continuation is_plan_continuation_authorized
      first_value_leg_index
  leg_call-IsCounted i leg is_final carry file h e =
      elim (Bool-cases (ltb (first_value_leg_index plan.route) i)) [
        | inl past ↦ ground (arith, h.reads, h.on_route, e, past)
        | inr first ↦ ground (arith, first)
      ]

  abbrev DriveIsKept : Driven v → Type 0
  DriveIsKept d = All IsCounted d.calls × IsKept d.file d.result

  driven-IsKept :
      (taken : Taken v) (next : Plans v → List Text → ℕ → Driven v)
      → TakenIsKept taken
      → ((f : Plans v) (t : List Text) (c : ℕ) → Held f → DriveIsKept (next f t c))
      → DriveIsKept (driven v taken next)
  driven-IsKept (not_run file result) next h k = (tt, h)
  driven-IsKept (ran x (finished file result)) next h k = ((h.0, tt), h.1)
  driven-IsKept (ran x (advances file txids carry)) next h k =
      let later = k file txids carry h.1 in ((h.0, later.0), later.1)

  -- A claim that is not won leaves the file.
  claim_leg-unclaimed :
      (iv : Text) (i : ℕ) (file file' : Plans v) (outcome : Claim)
      → claim_leg v key iv plan.plan_id i file ≡ ok (outcome, file')
      → (outcome ≡ claimed → ⊥)
      → file ≡ file'
  claim_leg-unclaimed iv i file file' outcome e n =
      elim (subst (Ensures (λ x. (x.0 ≡ claimed) ⊎ (x.1 ≡ file))) e
        (claim_leg-keeps v key iv plan.plan_id i file)) [
          | inl won ↦ absurd (n won)
          | inr same ↦ sym same
        ]

  module _ (run_leg : ℕ → Plans v → LegCall → LegAnswer) where
    after_claim-IsKept :
        (leg : RouteLeg) (rest : List RouteLeg) (i : ℕ) (txids : List Text) (carry : ℕ)
        (file : Plans v) (outcome : Result SdkError (Claim × Plans v))
        → claim_leg v key (draw i at_claim) plan.plan_id i file ≡ outcome
        → Held file
        → TakenIsKept
            (after_claim v key draw plan ctx resumed run_leg leg rest i txids carry file outcome)
    unfolding after_claim run_claimed
    after_claim-IsKept leg rest i txids carry file (err e) same h = inl h
    after_claim-IsKept leg rest i txids carry file (ok (claimed, file')) same h =
        let held =
          claim_leg-IsHeld v key plan.plan_id plan.route (draw i at_claim) i file file' h same in
        (
          leg_call-IsCounted i leg (is_last rest) carry file' held.0 held.1,
          after_leg-IsKept i leg (is_last rest) _ txids file' held.0,
        )
    after_claim-IsKept leg rest i txids carry file (ok (already_active, file')) same h =
        inl (subst Held (claim_leg-unclaimed _ i file file' already_active same (λ q. cc)) h)
    after_claim-IsKept leg rest i txids carry file (ok (not_found, file')) same h =
        inl (subst Held (claim_leg-unclaimed _ i file file' not_found same (λ q. cc)) h)

    drive_from-IsKept :
        (legs : List RouteLeg) (i : ℕ) (txids : List Text) (carry : ℕ) (file : Plans v)
        → Held file
        → DriveIsKept (drive_from v key draw plan ctx resumed run_leg legs i txids carry file)
    unfolding drive_from take_leg
    drive_from-IsKept [] i txids carry file h = (tt, inl h)
    drive_from-IsKept (leg ∷ rest) i txids carry file h =
        driven-IsKept (take_leg v key draw plan ctx resumed run_leg leg rest i txids carry file)
          (λ f t c. drive_from v key draw plan ctx resumed run_leg rest (suc i) t c f)
          (after_claim-IsKept leg rest i txids carry file _ refl h)
          (λ f t c held. drive_from-IsKept rest (suc i) t c f held)

    -- In a drive of a plan that stands in the store with its route, on a file of which every envelope
    -- that opens holds the record of its own id, the wallet's hooks let a call skip the value
    -- ceilings exactly when its leg comes after the first leg of the route that is not inflow.
    pub drive_plan-counts_once :
        (start_leg_index carry : ℕ) (file : Plans v)
        → IsHeld v key plan.plan_id plan.route file
        → All IsCounted
            (drive_plan v key draw plan ctx resumed run_leg start_leg_index carry file).calls
    unfolding drive_plan
    drive_plan-counts_once start_leg_index carry file h =
        (drive_from-IsKept _ start_leg_index _ carry file h).0

    -- A drive of a plan that stands in the store with its route, on a file of which every envelope
    -- that opens holds the record of its own id, leaves it there, unless it returned settled, refunded
    -- or failed, or threw on a direct call.
    pub drive_plan-keeps_plan :
        (start_leg_index carry : ℕ) (file : Plans v)
        → IsHeld v key plan.plan_id plan.route file
        → let d = drive_plan v key draw plan ctx resumed run_leg start_leg_index carry file in
          (IsHeld v key plan.plan_id plan.route d.file) ⊎ (IsOver resumed d.result)
    unfolding drive_plan
    drive_plan-keeps_plan start_leg_index carry file h =
        (drive_from-IsKept _ start_leg_index _ carry file h).1
