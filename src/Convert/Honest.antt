-- ===== src/Convert/Honest.antt =====
-- What the result of a leg says.
use depix_sdk.Common.{
  ℕ, ◌≡◌, ◌≢◌, refl, Bool, true, false, Option, none, some, List, [], ◌++◌, inl, inr, if◌then◌else◌,
  Result, ok, err, ◌>>=◌, not, Ensures, Bool-cases, subst,
}
use depix_sdk.Common.Text.{Text, TextOps, text_eq, codes}
use depix_sdk.Routes.Legs.{
  RouteLeg, RouteMethod, swap, peg_in, peg_out, pay_lightning_invoice, receive_lightning,
  to_stablecoin, send, receive, network_name,
}
use depix_sdk.Sideshift.{is_shift_in_refund, is_shift_terminal}
use depix_sdk.Convert.{
  ConvertStatus, convert_settled, convert_pending, convert_awaiting_funding, convert_refunded,
  convert_refund_pending, convert_failed, LegError, LegAnswer, returned, threw, ConvertParams,
  ConvertResult, ExecuteContext, require_convert_invoice,
}
use depix_sdk.Convert.Execute.{
  Rails, PayOutcome, PayStatus, pay_paid, pay_refunded, pay_refund_pending, pay_failed,
  StableOutcome, StableStatus, stable_settled, stable_pending, stable_refunded,
  stable_refund_pending, stable_failed, LockedSwap, PegOutSent, PegStatus, ShiftSent, ShiftStatus,
  outcome, answer_of, or_wallet_error, to_provider_amount, refund_of, stable_destination,
  destination, poll, after_poll, or_threw, await_completion, Polled, execute_market_swap,
  execute_peg_in, peg_out_pending, peg_out_polled, peg_out_sent, execute_peg_out, paid_result,
  pay_completed, execute_pay_lightning, execute_receive_lightning, stable_result, stable_completed,
  execute_to_stablecoin, shift_pending, shift_polled, shift_sent, execute_sideshift_send,
  execute_sideshift_receive, execute_method, execute_leg,
}
use depix_sdk.Multihop.{is_inflow}

-- The rail holds the funds on the way.
abbrev pub is_custodial : RouteMethod → Bool
is_custodial send = true
is_custodial receive = true
is_custodial swap = false
is_custodial peg_in = false
is_custodial peg_out = false
is_custodial pay_lightning_invoice = false
is_custodial receive_lightning = false
is_custodial to_stablecoin = false

-- A result of the inflow asks for funds and has moved none; one of another method never asks for
-- funds, and names an amount received only if it settled; custody is said.
pub record IsHonest (inflow custodial : Bool) (r : ConvertResult) : Type 0 where
  pub says_custody : r.custodial ≡ custodial
  pub asks :
      inflow ≡ true
      → (r.status ≡ convert_awaiting_funding) × (r.txids ≡ []) × (r.received_sats ≡ none)
  pub moved : inflow ≡ false → r.status ≢ convert_awaiting_funding
  pub delivered : r.status ≢ convert_settled → r.received_sats ≡ none

-- `if (!wait)` and what follows it.
unless_wait :
    {A : Type 0} (P : A → Type 0) (wait : Bool) (quick waited : A)
    → P quick
    → P waited
    → P (if not wait then quick else waited)
unless_wait P true quick waited p q = q
unless_wait P false quick waited p q = p

module _ (ops : TextOps) (rails : Rails) (ctx : ExecuteContext) where
  outcome-IsHonest :
      (custodial : Bool) (id : Option Text) (status : ConvertStatus) (txids : List Text)
      (received : Option ℕ) (step : Option Text)
      → status ≢ convert_awaiting_funding
      → (status ≢ convert_settled → received ≡ none)
      → IsHonest false custodial (outcome ops rails ctx custodial id status txids received step)
  unfolding outcome
  outcome-IsHonest custodial id status txids received step n d = record {
    says_custody = refl;
    asks = λ h. cc;
    moved = λ h. n;
    delivered = d;
  }

  -- What an answer that returned says.
  abbrev PolledIsHonest : Bool → Bool → Option LegAnswer → Type 0
  PolledIsHonest inflow custodial none = Unit
  PolledIsHonest inflow custodial (some (threw e)) = Unit
  PolledIsHonest inflow custodial (some (returned r)) = IsHonest inflow custodial r

  answer-IsHonest :
      (inflow custodial : Bool) (call : Result LegError ConvertResult)
      → Ensures (IsHonest inflow custodial) call
      → PolledIsHonest inflow custodial (some (answer_of call))
  answer-IsHonest inflow custodial (ok r) h = h
  answer-IsHonest inflow custodial (err e) h = tt

  bind-IsHonest :
      {A : Type 0} (inflow custodial : Bool) (call : Result LegError A)
      (next : A → Result LegError ConvertResult)
      → ((a : A) → Ensures (IsHonest inflow custodial) (next a))
      → Ensures (IsHonest inflow custodial) (call >>= next)
  bind-IsHonest inflow custodial (err e) next h = tt
  bind-IsHonest inflow custodial (ok a) next h = h a

  after_poll-IsHonest :
      {A : Type 0} (custodial : Bool) (polled : Option (Result LegError (A × Bool)))
      (next : A → Bool → ConvertResult)
      → ((a : A) (late : Bool) → IsHonest false custodial (next a late))
      → PolledIsHonest false custodial (after_poll ops rails ctx polled next)
  after_poll-IsHonest custodial none next h = tt
  after_poll-IsHonest custodial (some (err e)) next h = tt
  after_poll-IsHonest custodial (some (ok (last, late))) next h = h last late

  or_threw-IsHonest :
      {A : Type 0} (inflow custodial : Bool) (call : Result LegError A)
      (next : A → Polled ops rails ctx)
      → ((a : A) → PolledIsHonest inflow custodial (next a))
      → PolledIsHonest inflow custodial (or_threw ops rails ctx call next)
  or_threw-IsHonest inflow custodial (err e) next h = tt
  or_threw-IsHonest inflow custodial (ok a) next h = h a

  await_completion-IsHonest :
      {O : Type 0} (locked : LockedSwap O) (next : Option O → ConvertResult)
      → ((o : Option O) → IsHonest false false (next o))
      → Ensures (IsHonest false false) (await_completion ops rails ctx locked next)
  await_completion-IsHonest locked next h =
      unless_wait (Ensures (IsHonest false false)) ctx.wait (ok (next none))
        (locked.completion ctx.timeout_ms >>= λ o. ok (next o)) (h none)
        (bind-IsHonest false false (locked.completion ctx.timeout_ms) (λ o. ok (next o)) h)

  swap-IsHonest :
      (leg : RouteLeg) (params : ConvertParams)
      → Ensures (IsHonest false false) (execute_market_swap ops rails ctx leg params)
  unfolding execute_market_swap
  swap-IsHonest leg params =
      bind-IsHonest false false (rails.market_swap leg.from leg.to params.amount) _
        (λ r. outcome-IsHonest false _ convert_settled _ _ _ (λ q. cc) (λ n. absurd (n refl)))

  peg_in-IsHonest : Ensures (IsHonest true false) (execute_peg_in ops rails ctx)
  unfolding execute_peg_in
  peg_in-IsHonest = bind-IsHonest true false rails.peg_in_order _ (λ peg. record {
    says_custody = refl;
    asks = λ h. (refl, refl, refl);
    moved = λ h. cc;
    delivered = λ n. refl;
  })

  receive_lightning-IsHonest :
      (params : ConvertParams)
      → Ensures (IsHonest true false) (execute_receive_lightning ops rails ctx params)
  unfolding execute_receive_lightning
  receive_lightning-IsHonest params = bind-IsHonest true false rails.boltz_ready _ (λ ready.
      bind-IsHonest true false (to_provider_amount params.amount) _ (λ amount.
        bind-IsHonest true false (rails.reverse_swap amount) _ (λ r. record {
          says_custody = refl;
          asks = λ h. (refl, refl, refl);
          moved = λ h. cc;
          delivered = λ n. refl;
        })))

  receive-IsHonest :
      (leg : RouteLeg) (params : ConvertParams)
      → Ensures (IsHonest true true) (execute_sideshift_receive ops rails ctx leg params)
  unfolding execute_sideshift_receive
  receive-IsHonest leg params =
      bind-IsHonest true true
        (rails.shift_receive leg.from_network (refund_of ops rails ctx params)) _
        (λ shift. record {
          says_custody = refl;
          asks = λ h. (refl, refl, refl);
          moved = λ h. cc;
          delivered = λ n. refl;
        })

  paid-IsHonest :
      (locked : LockedSwap PayOutcome) (status : PayStatus) (txids : List Text)
      → IsHonest false false (paid_result ops rails ctx locked status txids)
  unfolding paid_result
  paid-IsHonest locked pay_paid txids =
      outcome-IsHonest false _ convert_settled _ _ _ (λ q. cc) (λ n. absurd (n refl))
  paid-IsHonest locked pay_refunded txids =
      outcome-IsHonest false _ convert_refunded _ none _ (λ q. cc) (λ n. refl)
  paid-IsHonest locked pay_refund_pending txids =
      outcome-IsHonest false _ convert_refund_pending _ none _ (λ q. cc) (λ n. refl)
  paid-IsHonest locked pay_failed txids =
      outcome-IsHonest false _ convert_failed _ none _ (λ q. cc) (λ n. refl)

  pay_completed-IsHonest :
      (locked : LockedSwap PayOutcome) (o : Option PayOutcome)
      → IsHonest false false (pay_completed ops rails ctx locked o)
  unfolding pay_completed
  pay_completed-IsHonest locked none =
      outcome-IsHonest false _ convert_pending _ none _ (λ q. cc) (λ n. refl)
  pay_completed-IsHonest locked (some o) = paid-IsHonest locked o.status _

  pay_lightning-IsHonest :
      (params : ConvertParams)
      → Ensures (IsHonest false false) (execute_pay_lightning ops rails ctx params)
  unfolding execute_pay_lightning
  pay_lightning-IsHonest params =
      bind-IsHonest false false
        (or_wallet_error (codes "A lightning conversion pays a BOLT11 invoice.")
          (require_convert_invoice ops params))
        _
        (λ invoice. bind-IsHonest false false rails.boltz_ready _ (λ ready.
          bind-IsHonest false false (rails.pay_lightning invoice) _ (λ locked.
            await_completion-IsHonest locked (pay_completed ops rails ctx locked)
              (pay_completed-IsHonest locked))))

  stable-IsHonest :
      (locked : LockedSwap StableOutcome) (status : StableStatus) (txids : List Text)
      → IsHonest false false (stable_result ops rails ctx locked status txids)
  unfolding stable_result
  stable-IsHonest locked stable_settled txids =
      outcome-IsHonest false _ convert_settled _ none _ (λ q. cc) (λ n. refl)
  stable-IsHonest locked stable_pending txids =
      outcome-IsHonest false _ convert_pending _ none _ (λ q. cc) (λ n. refl)
  stable-IsHonest locked stable_refunded txids =
      outcome-IsHonest false _ convert_refunded _ none _ (λ q. cc) (λ n. refl)
  stable-IsHonest locked stable_refund_pending txids =
      outcome-IsHonest false _ convert_refund_pending _ none _ (λ q. cc) (λ n. refl)
  stable-IsHonest locked stable_failed txids =
      outcome-IsHonest false _ convert_failed _ none _ (λ q. cc) (λ n. refl)

  stable_completed-IsHonest :
      (locked : LockedSwap StableOutcome) (o : Option StableOutcome)
      → IsHonest false false (stable_completed ops rails ctx locked o)
  unfolding stable_completed
  stable_completed-IsHonest locked none =
      outcome-IsHonest false _ convert_pending _ none _ (λ q. cc) (λ n. refl)
  stable_completed-IsHonest locked (some o) = stable-IsHonest locked o.status _

  to_stablecoin-IsHonest :
      (leg : RouteLeg) (params : ConvertParams)
      → Ensures (IsHonest false false) (execute_to_stablecoin ops rails ctx leg params)
  unfolding execute_to_stablecoin
  to_stablecoin-IsHonest leg params =
      bind-IsHonest false false (stable_destination ops rails ctx leg params) _ (λ address.
        bind-IsHonest false false rails.boltz_ready _ (λ ready.
          bind-IsHonest false false (to_provider_amount params.amount) _ (λ amount.
            bind-IsHonest false false (rails.stablecoin_swap leg.to leg.network amount address) _
              (λ locked.
                await_completion-IsHonest locked (stable_completed ops rails ctx locked)
                  (stable_completed-IsHonest locked)))))

  peg_out_polled-IsHonest :
      (peg : PegOutSent) (last : PegStatus) (late : Bool)
      → IsHonest false false (peg_out_polled ops rails ctx peg last late)
  unfolding peg_out_polled peg_out_pending
  peg_out_polled-IsHonest peg last true =
      outcome-IsHonest false _ convert_pending _ none _ (λ q. cc) (λ n. refl)
  peg_out_polled-IsHonest peg last false =
      outcome-IsHonest false _ convert_settled _ _ _ (λ q. cc) (λ n. absurd (n refl))

  peg_out_sent-IsHonest :
      (start : ℕ) (peg : PegOutSent)
      → PolledIsHonest false false (peg_out_sent ops rails ctx start peg)
  unfolding peg_out_sent peg_out_pending
  peg_out_sent-IsHonest start peg =
      unless_wait (PolledIsHonest false false) ctx.wait
        (some (returned (peg_out_pending ops rails ctx peg)))
        (after_poll ops rails ctx
          (poll ops rails ctx (λ s. text_eq (ops.lower s.status) (codes "done")) start
            (rails.peg_rounds peg.order_id))
          (peg_out_polled ops rails ctx peg))
        (outcome-IsHonest false _ convert_pending _ none _ (λ q. cc) (λ n. refl))
        (after_poll-IsHonest false
          (poll ops rails ctx (λ s. text_eq (ops.lower s.status) (codes "done")) start
            (rails.peg_rounds peg.order_id))
          (peg_out_polled ops rails ctx peg) (peg_out_polled-IsHonest peg))

  shift_polled-IsHonest :
      (leg : RouteLeg) (shift : ShiftSent) (last : ShiftStatus) (late : Bool)
      → IsHonest false true (shift_polled ops rails ctx leg shift last late)
  unfolding shift_polled shift_pending
  shift_polled-IsHonest leg shift last true =
      outcome-IsHonest true _ convert_pending _ none _ (λ q. cc) (λ n. refl)
  shift_polled-IsHonest leg shift last false =
      elim (Bool-cases (text_eq last.status (codes "settled"))) [
        | inl done ↦
            rw (done, if◌then◌else◌)
              (outcome-IsHonest true _ convert_settled _ _ _ (λ q. cc) (λ n. absurd (n refl)))
        | inr other ↦ elim (Bool-cases (is_shift_in_refund last.status)) [
          | inl back ↦
              rw (other, back, if◌then◌else◌)
                (outcome-IsHonest true _ convert_refunded _ none _ (λ q. cc) (λ n. refl))
          | inr lost ↦
              rw (other, lost, if◌then◌else◌)
                (outcome-IsHonest true _ convert_failed _ none _ (λ q. cc) (λ n. refl))
        ]
      ]

  shift_sent-IsHonest :
      (leg : RouteLeg) (start : ℕ) (shift : ShiftSent)
      → PolledIsHonest false true (shift_sent ops rails ctx leg start shift)
  unfolding shift_sent shift_pending
  shift_sent-IsHonest leg start shift =
      unless_wait (PolledIsHonest false true) ctx.wait
        (some (returned (shift_pending ops rails ctx leg shift)))
        (after_poll ops rails ctx
          (poll ops rails ctx (λ s. is_shift_terminal s.status) start
            (rails.shift_rounds shift.shift_id))
          (shift_polled ops rails ctx leg shift))
        (outcome-IsHonest true _ convert_pending _ none _ (λ q. cc) (λ n. refl))
        (after_poll-IsHonest true
          (poll ops rails ctx (λ s. is_shift_terminal s.status) start
            (rails.shift_rounds shift.shift_id))
          (shift_polled ops rails ctx leg shift) (shift_polled-IsHonest leg shift))

  execute_method-IsHonest :
      (method : RouteMethod) (leg : RouteLeg) (params : ConvertParams) (start : ℕ)
      → PolledIsHonest
          (is_inflow method)
          (is_custodial method)
          (execute_method ops rails ctx method leg params start)
  unfolding execute_method execute_peg_out execute_sideshift_send is_inflow
  execute_method-IsHonest swap leg params start =
      answer-IsHonest false false _ (swap-IsHonest leg params)
  execute_method-IsHonest peg_in leg params start = answer-IsHonest true false _ peg_in-IsHonest
  execute_method-IsHonest peg_out leg params start =
      or_threw-IsHonest false false
        (do
          address ← destination ops rails ctx params (codes "the BTC address the peg-out pays")
          rails.peg_out_send address params.amount)
        (peg_out_sent ops rails ctx start) (peg_out_sent-IsHonest start)
  execute_method-IsHonest pay_lightning_invoice leg params start =
      answer-IsHonest false false _ (pay_lightning-IsHonest params)
  execute_method-IsHonest receive_lightning leg params start =
      answer-IsHonest true false _ (receive_lightning-IsHonest params)
  execute_method-IsHonest to_stablecoin leg params start =
      answer-IsHonest false false _ (to_stablecoin-IsHonest leg params)
  execute_method-IsHonest send leg params start =
      or_threw-IsHonest false true
        (do
          address ← destination ops rails ctx params (
              codes "the " ++ network_name leg.network ++ codes " address the USDT is delivered to")
          rails.shift_send leg.network params.amount address (refund_of ops rails ctx params))
        (shift_sent ops rails ctx leg start) (shift_sent-IsHonest leg start)
  execute_method-IsHonest receive leg params start =
      answer-IsHonest true true _ (receive-IsHonest leg params)

  -- A leg that returns a result says truly whether a custodian held the funds. If its method is
  -- inflow, it asks for funds and has moved none; if not, it never asks for funds. It names an amount
  -- received only if it settled.
  pub execute_leg-IsHonest :
      (leg : RouteLeg) (params : ConvertParams) (start : ℕ) (r : ConvertResult)
      → execute_leg ops rails ctx leg params start ≡ some (returned r)
      → IsHonest (is_inflow leg.method) (is_custodial leg.method) r
  unfolding execute_leg
  execute_leg-IsHonest leg params start r h =
      subst (PolledIsHonest (is_inflow leg.method) (is_custodial leg.method)) h
        (execute_method-IsHonest leg.method leg params start)
