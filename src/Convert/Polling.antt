-- ===== src/Convert/Polling.antt =====
-- A poll of src/convert/intent.ts ends.
use depix_sdk.Common.{
  ℕ, zero, suc, ◌+◌, ◌≤◌, ◌≢◌, refl, Bool, Option, none, some, if◌then◌else◌, Result, ok, err, leb,
  Result-cases, Bool-cases, inl, inr, arith,
}
use depix_sdk.Common.Text.{Text, TextOps}
use depix_sdk.Routes.Legs.{
  RouteLeg, RouteMethod, swap, peg_in, peg_out, pay_lightning_invoice, receive_lightning,
  to_stablecoin, send, receive,
}
use depix_sdk.Convert.{LegError, ConvertParams, ConvertResult, ExecuteContext}
use depix_sdk.Convert.Execute.{
  Rounds, Rails, PegOutSent, ShiftSent, poll_until, poll, Polled, after_poll, or_threw,
  peg_out_sent, execute_peg_out, shift_sent, execute_sideshift_send, execute_method, execute_leg,
}

-- Each round, with the sleep before it, takes a millisecond or more.
abbrev pub IsTicking : {A : Type 0} → ℕ → Rounds A → Type 0
IsTicking start rounds = (k : ℕ) → start + k ≤ rounds.clock k

module _ {A : Type 0} (is_done : A → Bool) (start timeout : ℕ) (rounds : Rounds A)
    (ticks : IsTicking start rounds) where
  poll_until-returns :
      (fuel k : ℕ)
      → suc timeout ≤ fuel + k
      → k ≤ timeout
      → poll_until is_done (start + timeout) rounds fuel k ≢ none
  unfolding poll_until
  poll_until-returns zero k enough h = absurd (omega arith)
  poll_until-returns (suc fuel) k enough h = elim (Result-cases (rounds.answer k)) [
    | inr (x, a) ↦ ground (arith, a)
    | inl (last, a) ↦ elim (Bool-cases (leb (start + timeout) (rounds.clock k))) [
      | inl late ↦ ground (arith, a, late)
      | inr early ↦
          let earlier : suc k ≤ timeout = ground (arith, ticks k, early) in
          ground (arith, a, early, poll_until-returns fuel (suc k) (omega arith) earlier)
    ]
  ]

after_poll-returns :
    {A : Type 0} (ops : TextOps) (rails : Rails) (ctx : ExecuteContext)
    (polled : Option (Result LegError (A × Bool))) (next : A → Bool → ConvertResult)
    → polled ≢ none
    → after_poll ops rails ctx polled next ≢ none
after_poll-returns ops rails ctx none next h = λ q. h refl
after_poll-returns ops rails ctx (some (err e)) next h = λ q. cc
after_poll-returns ops rails ctx (some (ok (last, late))) next h = λ q. cc

module _ (ops : TextOps) (rails : Rails) (ctx : ExecuteContext) (start : ℕ)
    (peg_ticks : (id : Text) → IsTicking start (rails.peg_rounds id))
    (shift_ticks : (id : Text) → IsTicking start (rails.shift_rounds id)) where
  poll-returns :
      {A : Type 0} (is_done : A → Bool) (rounds : Rounds A)
      → IsTicking start rounds
      → poll ops rails ctx is_done start rounds ≢ none
  poll-returns is_done rounds ticks =
      poll_until-returns is_done start ctx.timeout_ms rounds ticks (suc ctx.timeout_ms) 0
        (omega arith) (omega arith)

  or_threw-returns :
      {A : Type 0} (call : Result LegError A) (next : A → Polled ops rails ctx)
      → ((a : A) → next a ≢ none)
      → or_threw ops rails ctx call next ≢ none
  or_threw-returns (err e) next h = λ q. cc
  or_threw-returns (ok a) next h = h a

  peg_out_sent-returns : (peg : PegOutSent) → peg_out_sent ops rails ctx start peg ≢ none
  unfolding peg_out_sent
  peg_out_sent-returns peg = elim (Bool-cases ctx.wait) [
    | inr quick ↦ rw (quick, if◌then◌else◌) (λ q. cc)
    | inl waits ↦
        rw (waits, if◌then◌else◌)
          (after_poll-returns ops rails ctx _ _ (poll-returns _ _ (peg_ticks peg.order_id)))
  ]

  shift_sent-returns :
      (leg : RouteLeg) (shift : ShiftSent) → shift_sent ops rails ctx leg start shift ≢ none
  unfolding shift_sent
  shift_sent-returns leg shift = elim (Bool-cases ctx.wait) [
    | inr quick ↦ rw (quick, if◌then◌else◌) (λ q. cc)
    | inl waits ↦
        rw (waits, if◌then◌else◌)
          (after_poll-returns ops rails ctx _ _ (poll-returns _ _ (shift_ticks shift.shift_id)))
  ]

  execute_method-returns :
      (method : RouteMethod) (leg : RouteLeg) (params : ConvertParams)
      → execute_method ops rails ctx method leg params start ≢ none
  unfolding execute_method execute_peg_out execute_sideshift_send
  execute_method-returns swap leg params = λ q. cc
  execute_method-returns peg_in leg params = λ q. cc
  execute_method-returns peg_out leg params = or_threw-returns _ _ peg_out_sent-returns
  execute_method-returns pay_lightning_invoice leg params = λ q. cc
  execute_method-returns receive_lightning leg params = λ q. cc
  execute_method-returns to_stablecoin leg params = λ q. cc
  execute_method-returns send leg params = or_threw-returns _ _ (shift_sent-returns leg)
  execute_method-returns receive leg params = λ q. cc

  -- If each round of a poll, with the sleep before it, takes a millisecond or more, the execution of a
  -- leg returns or throws within one round more than the milliseconds of its timeout.
  pub execute_leg-returns :
      (leg : RouteLeg) (params : ConvertParams) → execute_leg ops rails ctx leg params start ≢ none
  unfolding execute_leg
  execute_leg-returns leg params = execute_method-returns leg.method leg params
