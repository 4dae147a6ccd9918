-- ===== src/Convert.antt =====
-- src/convert/intent.ts: what a conversion is asked with and what it returns, and the checks of the
-- parameters that a leg needs from the caller. Absent fields are `none`.
pub mod Execute
pub mod Polling
pub mod Honest
pub mod Choose
pub mod Chosen
pub mod Quote
pub mod Estimates
mod Tests
use depix_sdk.Common.{
  ◌∷◌, ℕ, Bool, Option, none, some, List, [], ◌++◌, if◌then◌else◌, Result, ok, err, not, length,
  ◌==◌,
}
use depix_sdk.Common.Text.{Text, codes, TextOps}
use depix_sdk.Errors.{SdkError, invalid_address}
use depix_sdk.Routes.Legs.{
  Route, RouteLeg, IntentAsset, IntentNetwork, asset_name, network_name, network_eq, liquid,
}

pub data ConvertStatus : Type 0 where
  convert_settled convert_pending convert_awaiting_funding : ConvertStatus
  convert_refunded convert_refund_pending convert_failed : ConvertStatus

pub data FundingKind : Type 0 where
  bitcoin_address lightning_invoice external_deposit_address : FundingKind

pub record ConvertFunding : Type 0 where
  pub kind : FundingKind
  pub address : Option Text
  pub invoice : Option Text
  pub network : Option Text
  pub min : Option Text
  pub max : Option Text
  pub expires_at : Option ℕ

pub record ConvertResult : Type 0 where
  pub route : Route
  pub status : ConvertStatus
  pub txids : List Text
  pub received_sats : Option ℕ
  pub custodial : Bool
  pub tracking_id : Option Text
  pub funding : Option ConvertFunding
  pub next_step : Option Text

pub record ConvertParams : Type 0 where
  pub from : IntentAsset
  pub to : IntentAsset
  pub network : Option IntentNetwork
  pub from_network : Option IntentNetwork
  pub amount : ℕ
  pub route : Option Text
  pub wait : Option Bool
  pub timeout_ms : Option ℕ
  pub address : Option Text
  pub invoice : Option Text
  pub refund_address : Option Text

pub record ExecuteContext : Type 0 where
  pub route : Route
  pub wait : Bool
  pub timeout_ms : ℕ
  pub interval_ms : ℕ

-- What `executeLeg` throws: the error's code, its message, and the two marks that the driver of several legs reads.
pub record LegError : Type 0 where
  pub code : SdkError
  pub message : Text
  pub is_guardrail_error : Bool
  pub nothing_locked : Bool

pub data LegAnswer : Type 0 where
  returned : ConvertResult → LegAnswer
  threw : LegError → LegAnswer

-- A text that counts as true: there and not empty.
unfoldable pub truthy : Option Text → Option Text
truthy none = none
truthy (some []) = none
truthy (some (c ∷ s)) = some (c ∷ s)

-- `legAsConvertCall(leg)`.
unfoldable pub leg_as_convert_call : RouteLeg → Text
leg_as_convert_call leg =
    let from_network =
      if not (network_eq leg.from_network liquid)
      then codes ", fromNetwork: '" ++ network_name leg.from_network ++ codes "'"
      else [] in
    codes "convert({ from: '"
    ++ asset_name leg.from
    ++ codes "', to: '"
    ++ asset_name leg.to
    ++ codes "', network: '"
    ++ network_name leg.network
    ++ codes "'"
    ++ from_network
    ++ codes ", amount: <bigint> })"

-- The trimmed text, if one is there and it is not empty.
unfoldable pub required_text : TextOps → Option Text → Result SdkError Text
required_text ops none = err invalid_address
required_text ops (some t) =
    let trimmed = ops.trim t in if length trimmed == 0 then err invalid_address else ok trimmed

-- `requireConvertAddress(params, leg, what)`; its message is left out.
unfoldable pub require_convert_address : TextOps → ConvertParams → Result SdkError Text
require_convert_address ops params = required_text ops params.address

-- `requireConvertInvoice(params)`.
unfoldable pub require_convert_invoice : TextOps → ConvertParams → Result SdkError Text
require_convert_invoice ops params = required_text ops params.invoice
