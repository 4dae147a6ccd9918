-- ===== src/Guardrails/Config.antt =====
-- src/guardrails/config.ts: the owner's limits and allowlist, resolved once. `trim` and JSON.parse
-- are the standard library's, and enter as parameters.
pub mod Bounds
mod Tests
use Prim.Native.String.{String}
use depix_sdk.Common.{
  ℕ, Bool, true, false, Option, none, some, List, [], ◌∷◌, leb, ◌==◌, if◌then◌else◌, Result, ok,
  err, ◌>>=◌, ◌>>◌, throw_if, ◌||◌, not,
}
use depix_sdk.Common.Text.{Text, TextOps, is_decimal, decimal_from}
use depix_sdk.Common.Js.{
  JsNumber, pos, positive_safe, Json, Items, Fields, null, boolean, num, str, arr, obj, nil, cons,
  get_field,
}
use depix_sdk.Errors.{SdkError, guardrail_config_invalid}

abbrev pub default_per_tx_limit_brl_cents : ℕ
default_per_tx_limit_brl_cents = 10000

abbrev pub default_daily_limit_brl_cents : ℕ
default_daily_limit_brl_cents = 50000

pub record ResolvedAllowlist : Type 0 where
  pub enabled : Bool
  pub liquid_addresses : List Text
  pub pix_keys : List Text
  pub allow_lightning : Bool
  pub btc_addresses : List Text
  pub evm_addresses : List Text
  pub tron_addresses : List Text
  pub giftcard_beneficiaries : List Text
  pub sideshift_refund_addresses : List Text

pub record ResolvedGuardrailConfig : Type 0 where
  pub per_tx_limit_brl_cents : ℕ
  pub daily_limit_brl_cents : ℕ
  pub allowlist : ResolvedAllowlist

-- The option as an untyped caller may pass it: `none` is an absent or undefined field.
pub record GuardrailConfig : Type 0 where
  pub daily_limit_brl_cents : Option JsNumber
  pub per_tx_limit_brl_cents : Option JsNumber
  pub allowlist : Option Json

-- The three variables that are read of the environment.
pub record Env : Type 0 where
  pub per_tx : Option Text
  pub daily : Option Text
  pub allowlist : Option Text

unfoldable pub require_positive_int_limit : JsNumber → Result SdkError ℕ
require_positive_int_limit value = elim (positive_safe value) [
  | some n ↦ ok n
  | none ↦ err guardrail_config_invalid
]

unfoldable pub strings_of : Items → Option (List Text)
strings_of nil = some []
strings_of (cons (str s) rest) = elim (strings_of rest) [ some ss ↦ some (s ∷ ss) | none ↦ none ]
strings_of (cons _ rest) = none

unfoldable pub as_string_array : Option Json → Result SdkError (List Text)
unfolding strings_of
as_string_array none = ok []
as_string_array (some (arr items)) = elim (strings_of items) [
  | some ss ↦ ok ss
  | none ↦ err guardrail_config_invalid
]
as_string_array (some _) = err guardrail_config_invalid

abbrev pub no_allowlist : ResolvedAllowlist
no_allowlist = record {
  enabled = false;
  liquid_addresses = [];
  pix_keys = [];
  allow_lightning = false;
  btc_addresses = [];
  evm_addresses = [];
  tron_addresses = [];
  giftcard_beneficiaries = [];
  sideshift_refund_addresses = [];
}

-- `input.enabled`, which has to be a boolean.
unfoldable pub require_enabled : Fields → Result SdkError Bool
require_enabled fs = elim (get_field "enabled" fs) [
  | some (boolean b) ↦ ok b
  | _ ↦ err guardrail_config_invalid
]

-- `input.allowLightning === true`, after the check that it is absent or a boolean.
unfoldable pub require_lightning : Fields → Result SdkError Bool
require_lightning fs = elim (get_field "allowLightning" fs) [
  | none ↦ ok false
  | some (boolean b) ↦ ok b
  | _ ↦ err guardrail_config_invalid
]

unfoldable pub resolve_fields : Fields → Result SdkError ResolvedAllowlist
unfolding require_enabled require_lightning as_string_array
resolve_fields fs = do
  enabled ← require_enabled fs
  lightning ← require_lightning fs
  liquid ← as_string_array (get_field "liquidAddresses" fs)
  pix ← as_string_array (get_field "pixKeys" fs)
  btc ← as_string_array (get_field "btcAddresses" fs)
  evm ← as_string_array (get_field "evmAddresses" fs)
  tron ← as_string_array (get_field "tronAddresses" fs)
  gift ← as_string_array (get_field "giftcardBeneficiaries" fs)
  refund ← as_string_array (get_field "sideshiftRefundAddresses" fs)
  ok (record {
    enabled = enabled;
    liquid_addresses = liquid;
    pix_keys = pix;
    allow_lightning = lightning;
    btc_addresses = btc;
    evm_addresses = evm;
    tron_addresses = tron;
    giftcard_beneficiaries = gift;
    sideshift_refund_addresses = refund;
  })

-- An array is an object with no field `enabled`, so it is refused like any other value.
unfoldable pub resolve_allowlist : Option Json → Result SdkError ResolvedAllowlist
unfolding resolve_fields
resolve_allowlist none = ok no_allowlist
resolve_allowlist (some (obj fs)) = resolve_fields fs
resolve_allowlist (some _) = err guardrail_config_invalid

module _ (t : TextOps) (parse_json : Text → Option Json) where
  unfoldable pub parse_env_limit : Option Text → Result SdkError (Option ℕ)
  unfolding require_positive_int_limit
  parse_env_limit none = ok none
  parse_env_limit (some raw) =
      let trimmed = t.trim raw in
      if not (is_decimal trimmed)
      then err guardrail_config_invalid
      else (require_positive_int_limit (pos (decimal_from 0 trimmed)) >>= λ n. ok (some n))

  -- JSON.parse throws on what is no JSON.
  unfoldable pub parse_env_allowlist : Option Text → Result SdkError (Option Json)
  parse_env_allowlist none = ok none
  parse_env_allowlist (some raw) = elim (parse_json raw) [
    | some v ↦ ok (some v)
    | none ↦ err guardrail_config_invalid
  ]

  -- One limit: the option, else the variable, else the default.
  unfoldable pub resolve_limit : Option JsNumber → Option Text → ℕ → Result SdkError ℕ
  unfolding require_positive_int_limit parse_env_limit
  resolve_limit (some value) var default = require_positive_int_limit value
  resolve_limit none var default =
      parse_env_limit var >>= elim [ some n ↦ ok n | none ↦ ok default ]

  unfoldable pub allowlist_input : Option Json → Option Text → Result SdkError (Option Json)
  unfolding parse_env_allowlist
  allowlist_input (some v) var = ok (some v)
  allowlist_input none var = parse_env_allowlist var

  pub resolve_guardrail_config : GuardrailConfig → Env → Result SdkError ResolvedGuardrailConfig
  resolve_guardrail_config option env = do
    per_tx ← resolve_limit option.per_tx_limit_brl_cents env.per_tx default_per_tx_limit_brl_cents
    daily ← resolve_limit option.daily_limit_brl_cents env.daily default_daily_limit_brl_cents
    input ← allowlist_input option.allowlist env.allowlist
    allowlist ← resolve_allowlist input
    ok (record {
      per_tx_limit_brl_cents = per_tx;
      daily_limit_brl_cents = daily;
      allowlist = allowlist;
    })
