-- ===== src/Guardrails/Config/Tests.antt =====
-- Runs of the resolution.
use depix_sdk.Common.{◌≡◌, refl, Option, none, some, ok, err}
use depix_sdk.Common.Text.{Text, TextOps, codes}
use depix_sdk.Common.Js.{Json, pos, nan}
use depix_sdk.Errors.{guardrail_config_invalid}
use depix_sdk.Guardrails.Config.{
  ResolvedGuardrailConfig, GuardrailConfig, Env, resolve_guardrail_config, no_allowlist,
  resolve_limit, allowlist_input, resolve_allowlist,
}
use depix_sdk.Guardrails.Config.Bounds.{IsLimit, resolve_guardrail_config_limits}

abbrev plain : TextOps
plain = record { trim = λ s. s; lower = λ s. s; trim-trim = λ s. refl; lower-lower = λ s. refl }

abbrev no_json : Text → Option Json
no_json s = none

abbrev option : GuardrailConfig
option = record {
  daily_limit_brl_cents = none;
  per_tx_limit_brl_cents = some (pos 2500);
  allowlist = none;
}

abbrev env : Env
env = record { per_tx = some (codes "77"); daily = some (codes "120000"); allowlist = none }

abbrev resolved : ResolvedGuardrailConfig
resolved = record {
  per_tx_limit_brl_cents = 2500;
  daily_limit_brl_cents = 120000;
  allowlist = no_allowlist;
}

resolves : resolve_guardrail_config plain no_json option env ≡ ok resolved
unfolding resolve_guardrail_config resolve_limit allowlist_input resolve_allowlist
resolves = refl

not_a_number :
    resolve_guardrail_config plain no_json (record option { per_tx_limit_brl_cents = some nan }) env
    ≡ err guardrail_config_invalid
unfolding resolve_guardrail_config resolve_limit allowlist_input resolve_allowlist
not_a_number = refl

resolve_guardrail_config_limits_example : IsLimit 2500 × IsLimit 120000
resolve_guardrail_config_limits_example =
    resolve_guardrail_config_limits plain no_json option env resolved resolves
