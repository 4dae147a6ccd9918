-- ===== src/Convert/Execute.antt =====
-- The executors of src/convert/intent.ts, one for each method of a leg. The calls of the providers'
-- namespaces are the fields of `Rails`; what a poll answers, and the clock after it, are given by the
-- number of the round.
use depix_sdk.Common.{
  ℕ, zero, suc, ◌+◌, Bool, true, false, Option, none, some, List, [], ◌∷◌, ◌++◌, if◌then◌else◌,
  Result, ok, err, ◌>>=◌, ltb, leb, not,
}
use depix_sdk.Common.Text.{Text, codes, text_eq, TextOps}
use depix_sdk.Common.Decimal.{decimal}
use depix_sdk.Common.Js.{max_safe_integer}
use depix_sdk.Errors.{SdkError, invalid_amount}
use depix_sdk.Routes.Legs.{
  RouteLeg, RouteMethod, IntentAsset, IntentNetwork, swap, peg_in, peg_out, pay_lightning_invoice,
  receive_lightning, to_stablecoin, send, receive, network_name, asset_name,
}
use depix_sdk.Sideshift.{is_shift_terminal, is_shift_in_refund, usdt_decimal_to_sats}
use depix_sdk.Convert.{
  ConvertStatus, convert_settled, convert_pending, convert_awaiting_funding, convert_refunded,
  convert_refund_pending, convert_failed, bitcoin_address, lightning_invoice,
  external_deposit_address, ConvertResult, ConvertParams, ExecuteContext, LegError, LegAnswer,
  returned, threw, truthy, require_convert_address, require_convert_invoice,
}

pub record PegOrder : Type 0 where
  pub order_id : Text
  pub peg_addr : Text
  pub expires_at : Option ℕ

pub record PegOutSent : Type 0 where
  pub order_id : Text
  pub txid : Text
  pub recv_amount : Option ℕ

pub record PegStatus : Type 0 where
  pub status : Text
  pub txid : Option Text

pub data PayStatus : Type 0 where
  pay_paid pay_refunded pay_refund_pending pay_failed : PayStatus

pub record PayOutcome : Type 0 where
  pub status : PayStatus
  pub refund_tx_id : Option Text

pub data StableStatus : Type 0 where
  stable_settled stable_pending stable_refunded stable_refund_pending stable_failed : StableStatus

pub record StableOutcome : Type 0 where
  pub status : StableStatus
  pub claim_transaction_id : Option Text
  pub refund_tx_id : Option Text

-- A swap that is locked up; `completion` is what it came to within a time, or none.
pub record LockedSwap (O : Type 0) : Type 0 where
  pub swap_id : Text
  pub lockup_txid : Text
  pub invoice_sats : ℕ
  pub completion : ℕ → Result LegError (Option O)

pub record ReverseSwap : Type 0 where
  pub swap_id : Text
  pub invoice : Text

pub record ShiftSent : Type 0 where
  pub shift_id : Text
  pub txid : Text
  pub settle_amount : Option Text

pub record ShiftStatus : Type 0 where
  pub status : Text
  pub settle_amount : Option Text

pub record ShiftReceived : Type 0 where
  pub shift_id : Text
  pub deposit_address : Text
  pub min : Option Text
  pub max : Option Text
  pub expires_at : Option ℕ

-- The rounds of a poll: the answer of a round, and the clock after it.
pub record Rounds (A : Type 0) : Type 0 where
  pub answer : ℕ → Result LegError A
  pub clock : ℕ → ℕ

-- The namespaces of the providers, each call of which may throw.
pub record Rails : Type 0 where
  -- `quote`, `next` and `execute` of one quote stream: the txid and the amount received
  pub market_swap : IntentAsset → IntentAsset → ℕ → Result LegError (Text × ℕ)
  pub peg_in_order : Result LegError PegOrder
  pub peg_out_send : Text → ℕ → Result LegError PegOutSent
  pub peg_rounds : Text → Rounds PegStatus
  -- `getBoltz()`, which may throw
  pub boltz_ready : Result LegError (Unit {0})
  pub pay_lightning : Text → Result LegError (LockedSwap PayOutcome)
  pub reverse_swap : ℕ → Result LegError ReverseSwap
  pub stablecoin_swap :
      IntentAsset → IntentNetwork → ℕ → Text → Result LegError (LockedSwap StableOutcome)
  pub shift_send : IntentNetwork → ℕ → Text → Option Text → Result LegError ShiftSent
  pub shift_rounds : Text → Rounds ShiftStatus
  pub shift_receive : IntentNetwork → Option Text → Result LegError ShiftReceived

-- `pollUntil` from round `k` on: the last answer, and whether the time was out. `none` is a poll that
-- has not returned after `fuel` rounds.
unfoldable pub poll_until :
    {A : Type 0} → (A → Bool) → ℕ → Rounds A → ℕ → ℕ → Option (Result LegError (A × Bool))
poll_until is_done deadline rounds zero k = none
poll_until is_done deadline rounds (suc fuel) k =
    let rest = poll_until is_done deadline rounds fuel (suc k) in
    elim (rounds.answer k) [
      | err e ↦ some (err e)
      | ok last ↦
          if is_done last
          then some (ok (last, false))
          else if leb deadline (rounds.clock k)
          then some (ok (last, true))
          else rest
    ]

-- A `WalletError`: no guardrail spoke, and nothing says that nothing was locked.
unfoldable pub wallet_error : SdkError → Text → LegError
wallet_error code message = record {
  code = code;
  message = message;
  is_guardrail_error = false;
  nothing_locked = false;
}

abbrev pub or_wallet_error : {A : Type 0} → Text → Result SdkError A → Result LegError A
or_wallet_error message (ok a) = ok a
or_wallet_error message (err e) = err (wallet_error e message)

unfoldable pub to_provider_amount : ℕ → Result LegError ℕ
to_provider_amount amount =
    if ltb max_safe_integer amount
    then err (
        wallet_error invalid_amount
          (codes "amount " ++ decimal amount ++ codes " exceeds the provider's safe-integer bound"))
    else ok amount

abbrev pub answer_of : Result LegError ConvertResult → LegAnswer
answer_of (ok r) = returned r
answer_of (err e) = threw e

module _ (ops : TextOps) (rails : Rails) (ctx : ExecuteContext) where
  -- A result without funding instructions.
  unfoldable pub outcome :
      Bool → Option Text → ConvertStatus → List Text → Option ℕ → Option Text → ConvertResult
  outcome custodial tracking_id status txids received next_step = record {
    route = ctx.route;
    status = status;
    txids = txids;
    received_sats = received;
    custodial = custodial;
    tracking_id = tracking_id;
    funding = none;
    next_step = next_step;
  }

  unfoldable pub execute_market_swap : RouteLeg → ConvertParams → Result LegError ConvertResult
  execute_market_swap leg params = do
    result ← rails.market_swap leg.from leg.to params.amount
    ok (outcome false none convert_settled (result.0 ∷ []) (some result.1) none)

  unfoldable pub execute_peg_in : Result LegError ConvertResult
  execute_peg_in = do
    peg ← rails.peg_in_order
    ok (record {
      route = ctx.route;
      status = convert_awaiting_funding;
      txids = [];
      received_sats = none;
      custodial = false;
      tracking_id = some peg.order_id;
      funding = some (record {
        kind = bitcoin_address;
        address = some peg.peg_addr;
        invoice = none;
        network = some (codes "bitcoin");
        min = none;
        max = none;
        expires_at = peg.expires_at;
      });
      next_step = some (
          codes
            "fund the BTC address from any bitcoin wallet; SideSwap delivers L-BTC to this wallet after "
          ++ codes
              "~102 BTC confirmations. Track it with wallet.convert.sideswap.pegStatus({ orderId, pegIn: true }) "
          ++ codes "or wallet.getPending().");
    })

  unfoldable pub peg_out_step : PegOutSent → Text
  peg_out_step peg =
      codes "the L-BTC was sent (txid "
      ++ peg.txid
      ++ codes "); SideSwap pays the BTC out-of-band. Poll "
      ++ codes "wallet.convert.sideswap.pegStatus({ orderId: '"
      ++ peg.order_id
      ++ codes "', pegIn: false }) until status \"Done\"."

  unfoldable pub peg_out_pending : PegOutSent → ConvertResult
  peg_out_pending peg =
      outcome false (some peg.order_id) convert_pending (peg.txid ∷ []) none
        (some (peg_out_step peg))

  unfoldable pub peg_out_polled : PegOutSent → PegStatus → Bool → ConvertResult
  peg_out_polled peg last true = peg_out_pending peg
  peg_out_polled peg last false =
      outcome false (some peg.order_id) convert_settled
        (elim (truthy last.txid) [ none ↦ peg.txid ∷ [] | some t ↦ peg.txid ∷ t ∷ [] ])
        peg.recv_amount none

  -- The answer of an executor that may poll: `none` if the poll has not returned.
  abbrev pub Polled : Type 0
  Polled = Option LegAnswer

  abbrev pub after_poll :
      {A : Type 0} → Option (Result LegError (A × Bool)) → (A → Bool → ConvertResult) → Polled
  after_poll none next = none
  after_poll (some (err e)) next = some (threw e)
  after_poll (some (ok (last, timed_out))) next = some (returned (next last timed_out))

  -- The poll of a call whose loop starts at `start`: it has a round for each millisecond.
  abbrev pub poll : {A : Type 0} → (A → Bool) → ℕ → Rounds A → Option (Result LegError (A × Bool))
  poll is_done start rounds =
      poll_until is_done (start + ctx.timeout_ms) rounds (suc ctx.timeout_ms) 0

  unfoldable pub peg_out_sent : ℕ → PegOutSent → Polled
  peg_out_sent start peg =
      if not ctx.wait
      then some (returned (peg_out_pending peg))
      else after_poll
          (poll (λ s. text_eq (ops.lower s.status) (codes "done")) start
            (rails.peg_rounds peg.order_id))
          (peg_out_polled peg)

  abbrev pub or_threw : {A : Type 0} → Result LegError A → (A → Polled) → Polled
  or_threw (err e) next = some (threw e)
  or_threw (ok a) next = next a

  unfoldable pub destination : ConvertParams → Text → Result LegError Text
  destination params what =
      or_wallet_error (codes "This route needs a destination: " ++ what ++ codes ".")
        (require_convert_address ops params)

  unfoldable pub execute_peg_out : ConvertParams → ℕ → Polled
  execute_peg_out params start =
      or_threw
        (do
          address ← destination params (codes "the BTC address the peg-out pays")
          rails.peg_out_send address params.amount)
        (peg_out_sent start)

  unfoldable pub lockup_step : Text
  lockup_step =
      codes
        "the L-BTC lockup is in flight; the swap settles (or refunds) in the background — crash-safe. "
      ++ codes
          "Track it with wallet.getPending(); wallet.recover() finishes or refunds it after a restart."

  -- The txids of a lockup with those that are there.
  unfoldable pub with_tx : Option Text → List Text → List Text
  with_tx t txids = elim (truthy t) [ none ↦ txids | some x ↦ txids ++ x ∷ [] ]

  unfoldable pub paid_result : LockedSwap PayOutcome → PayStatus → List Text → ConvertResult
  paid_result locked pay_paid txids =
      outcome false (some locked.swap_id) convert_settled txids (some locked.invoice_sats) none
  paid_result locked pay_refunded txids =
      outcome false (some locked.swap_id) convert_refunded txids none (
        some (
          codes
            "the invoice was not paid and the L-BTC came back on-chain — nothing further to do."))
  paid_result locked pay_refund_pending txids =
      outcome false (some locked.swap_id) convert_refund_pending txids none (
        some (
          codes
            "the refund timeout has not been reached yet — wallet.recover() retries it; funds are safe."))
  paid_result locked pay_failed txids =
      outcome false (some locked.swap_id) convert_failed txids none (
        some (codes "the swap failed before any settlement — check wallet.getPending() and retry."))

  unfoldable pub pay_completed : LockedSwap PayOutcome → Option PayOutcome → ConvertResult
  pay_completed locked none =
      outcome false (some locked.swap_id) convert_pending (locked.lockup_txid ∷ []) none
        (some lockup_step)
  pay_completed locked (some o) =
      paid_result locked o.status (with_tx o.refund_tx_id (locked.lockup_txid ∷ []))

  -- `if (!ctx.wait)` and the race of the completion with the settle bound.
  abbrev pub await_completion :
      {O : Type 0} → LockedSwap O → (Option O → ConvertResult) → Result LegError ConvertResult
  await_completion locked next =
      if not ctx.wait then ok (next none) else locked.completion ctx.timeout_ms >>= λ o. ok (next o)

  unfoldable pub execute_pay_lightning : ConvertParams → Result LegError ConvertResult
  execute_pay_lightning params = do
    invoice ←
        or_wallet_error (codes "A lightning conversion pays a BOLT11 invoice.")
          (require_convert_invoice ops params)
    ready ← rails.boltz_ready
    locked ← rails.pay_lightning invoice
    await_completion locked (pay_completed locked)

  unfoldable pub execute_receive_lightning : ConvertParams → Result LegError ConvertResult
  execute_receive_lightning params = do
    ready ← rails.boltz_ready
    amount ← to_provider_amount params.amount
    locked ← rails.reverse_swap amount
    ok (record {
      route = ctx.route;
      status = convert_awaiting_funding;
      txids = [];
      received_sats = none;
      custodial = false;
      tracking_id = some locked.swap_id;
      funding = some (record {
        kind = lightning_invoice;
        address = none;
        invoice = some locked.invoice;
        network = some (codes "lightning");
        min = none;
        max = none;
        expires_at = none;
      });
      next_step = some (
          codes
            "share the BOLT11 invoice with the payer; once paid, the wallet claims the L-BTC automatically "
          ++ codes
              "(crash-safe — wallet.recover() resumes the claim). Track it with wallet.getPending().");
    })

  unfoldable pub stable_step : Text
  stable_step =
      codes "the L-BTC lockup is in flight; the EVM legs run in the background — crash-safe. "
      ++ codes
          "wallet.recover() finishes (or refunds) it after a restart; wallet.getPending() tracks it."

  unfoldable pub stable_result : LockedSwap StableOutcome → StableStatus → List Text → ConvertResult
  stable_result locked stable_settled txids =
      outcome false (some locked.swap_id) convert_settled txids none none
  stable_result locked stable_pending txids =
      outcome false (some locked.swap_id) convert_pending txids none (some stable_step)
  stable_result locked stable_refunded txids =
      outcome false (some locked.swap_id) convert_refunded txids none none
  stable_result locked stable_refund_pending txids =
      outcome false (some locked.swap_id) convert_refund_pending txids none (some stable_step)
  stable_result locked stable_failed txids =
      outcome false (some locked.swap_id) convert_failed txids none none

  unfoldable pub stable_completed : LockedSwap StableOutcome → Option StableOutcome → ConvertResult
  stable_completed locked none =
      outcome false (some locked.swap_id) convert_pending (locked.lockup_txid ∷ []) none
        (some stable_step)
  stable_completed locked (some o) =
      stable_result locked o.status
        (with_tx o.refund_tx_id (with_tx o.claim_transaction_id (locked.lockup_txid ∷ [])))

  unfoldable pub stable_destination : RouteLeg → ConvertParams → Result LegError Text
  stable_destination leg params = destination params (
      codes "the "
      ++ network_name leg.network
      ++ codes " address the "
      ++ asset_name leg.to
      ++ codes " is delivered to")

  unfoldable pub execute_to_stablecoin : RouteLeg → ConvertParams → Result LegError ConvertResult
  execute_to_stablecoin leg params = do
    address ← stable_destination leg params
    ready ← rails.boltz_ready
    amount ← to_provider_amount params.amount
    locked ← rails.stablecoin_swap leg.to leg.network amount address
    await_completion locked (stable_completed locked)

  unfoldable pub shift_step : RouteLeg → ShiftSent → Text
  shift_step leg shift =
      codes "the USDt deposit was sent (txid "
      ++ shift.txid
      ++ codes "); SideShift settles on "
      ++ network_name leg.network
      ++ codes " — CUSTODIAL mid-flight. "
      ++ codes "Poll wallet.convert.sideshift.getStatus('"
      ++ shift.shift_id
      ++ codes "') until it is terminal."

  unfoldable pub shift_pending : RouteLeg → ShiftSent → ConvertResult
  shift_pending leg shift =
      outcome true (some shift.shift_id) convert_pending (shift.txid ∷ []) none
        (some (shift_step leg shift))

  unfoldable pub shift_failed_step : ShiftSent → ShiftStatus → Text
  shift_failed_step shift last =
      codes "the shift ended in status \""
      ++ last.status
      ++ codes "\". If funds are stuck, set a refund address with "
      ++ codes "wallet.convert.sideshift.setRefundAddress('"
      ++ shift.shift_id
      ++ codes "', <liquid address>)."

  -- `receivedOf(last.settleAmount ?? shift.settleAmount)`.
  unfoldable pub received_of : Option Text → Option Text → Option ℕ
  received_of (some amount) quoted = usdt_decimal_to_sats ops amount
  received_of none (some amount) = usdt_decimal_to_sats ops amount
  received_of none none = none

  unfoldable pub shift_polled : RouteLeg → ShiftSent → ShiftStatus → Bool → ConvertResult
  shift_polled leg shift last true = shift_pending leg shift
  shift_polled leg shift last false =
      if text_eq last.status (codes "settled")
      then outcome true (some shift.shift_id) convert_settled (shift.txid ∷ [])
          (received_of last.settle_amount shift.settle_amount) none
      else if is_shift_in_refund last.status
      then outcome true (some shift.shift_id) convert_refunded (shift.txid ∷ []) none none
      else outcome true (some shift.shift_id) convert_failed (shift.txid ∷ []) none
          (some (shift_failed_step shift last))

  unfoldable pub shift_sent : RouteLeg → ℕ → ShiftSent → Polled
  shift_sent leg start shift =
      if not ctx.wait
      then some (returned (shift_pending leg shift))
      else after_poll
          (poll (λ s. is_shift_terminal s.status) start (rails.shift_rounds shift.shift_id))
          (shift_polled leg shift)

  unfoldable pub refund_of : ConvertParams → Option Text
  refund_of params = elim params.refund_address [
    | none ↦ none
    | some t ↦ truthy (some (ops.trim t))
  ]

  unfoldable pub execute_sideshift_send : RouteLeg → ConvertParams → ℕ → Polled
  execute_sideshift_send leg params start =
      or_threw
        (do
          address ← destination params (
              codes "the " ++ network_name leg.network ++ codes " address the USDT is delivered to")
          rails.shift_send leg.network params.amount address (refund_of params))
        (shift_sent leg start)

  unfoldable pub execute_sideshift_receive :
      RouteLeg → ConvertParams → Result LegError ConvertResult
  execute_sideshift_receive leg params = do
    shift ← rails.shift_receive leg.from_network (refund_of params)
    ok (record {
      route = ctx.route;
      status = convert_awaiting_funding;
      txids = [];
      received_sats = none;
      custodial = true;
      tracking_id = some shift.shift_id;
      funding = some (record {
        kind = external_deposit_address;
        address = some shift.deposit_address;
        invoice = none;
        network = some (network_name leg.from_network);
        min = shift.min;
        max = shift.max;
        expires_at = shift.expires_at;
      });
      next_step = some (
          codes "send USDT on "
          ++ network_name leg.from_network
          ++ codes " to the deposit address (CUSTODIAL mid-flight — SideShift settles "
          ++ codes "USDt to this wallet). Poll wallet.convert.sideshift.getStatus('"
          ++ shift.shift_id
          ++ codes "') for progress.");
    })

  -- `executeLeg(leg, params, deps, ctx)`, by the method of the leg; `start` is the clock when a poll
  -- starts.
  unfoldable pub execute_method : RouteMethod → RouteLeg → ConvertParams → ℕ → Polled
  execute_method swap leg params start = some (answer_of (execute_market_swap leg params))
  execute_method peg_in leg params start = some (answer_of execute_peg_in)
  execute_method peg_out leg params start = execute_peg_out params start
  execute_method pay_lightning_invoice leg params start =
      some (answer_of (execute_pay_lightning params))
  execute_method receive_lightning leg params start =
      some (answer_of (execute_receive_lightning params))
  execute_method to_stablecoin leg params start =
      some (answer_of (execute_to_stablecoin leg params))
  execute_method send leg params start = execute_sideshift_send leg params start
  execute_method receive leg params start = some (answer_of (execute_sideshift_receive leg params))

  unfoldable pub execute_leg : RouteLeg → ConvertParams → ℕ → Polled
  execute_leg leg params start = execute_method leg.method leg params start
