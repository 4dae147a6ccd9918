-- ===== src/Errors.antt =====
-- The codes of the SDK's errors (src/errors.ts) that the modelled code throws, under the source's
-- names. A blocked destination carries the class that its details name.
use Prim.Native.String.{String}

pub data SdkError : Type 0 where
  guardrail_invalid_amount guardrail_per_tx_limit guardrail_daily_limit : SdkError
  guardrail_config_invalid quotes_unavailable : SdkError
  guardrail_allowlist_blocked : String → SdkError
  wallet_not_found wallet_corrupted wallet_dir_locked wrong_passphrase : SdkError
  withdraw_split_mismatch fee_address_not_explicit pending_record_tampered : SdkError
  plan_validation_failed poll_timeout lockup_inflated invoice_no_amount : SdkError
  timeout_out_of_bounds invalid_address invalid_amount unsupported_asset route_not_found : SdkError
  multiple_routes_available : SdkError
  -- An exception of the platform or of a library that the code lets pass.
  platform_failure : SdkError
