-- ===== src/Guardrails/Config/Bounds.antt =====
-- What a configuration that resolves guarantees.
use depix_sdk.Common.{
  ℕ, ◌≤◌, ◌<◌, ◌≡◌, Option, none, some, ok, arith, Ensures, Option-cases, inl, inr,
}
use depix_sdk.Common.Text.{Text, TextOps}
use depix_sdk.Common.Js.{JsNumber, pos, positive_safe, max_safe_integer, Json}
use depix_sdk.Guardrails.Config.{
  ResolvedGuardrailConfig, GuardrailConfig, Env, require_positive_int_limit, parse_env_limit,
  resolve_limit, resolve_guardrail_config, default_per_tx_limit_brl_cents,
  default_daily_limit_brl_cents,
}

-- A limit in force: at least one cent, and exact as a number of JavaScript.
abbrev pub IsLimit : ℕ → Type 0
IsLimit n = (0 < n) × (n ≤ max_safe_integer)

positive_safe-IsLimit : (v : JsNumber) {n : ℕ} → positive_safe v ≡ some n → IsLimit n
positive_safe-IsLimit (pos k) h = ground arith
positive_safe-IsLimit _ h = cc

require-IsLimit : (v : JsNumber) {n : ℕ} → require_positive_int_limit v ≡ ok n → IsLimit n
unfolding require_positive_int_limit
require-IsLimit v h = elim (Option-cases (positive_safe v)) [
  | inl e ↦ ground arith
  | inr (k, e) ↦ ground (arith, positive_safe-IsLimit v e)
]

module _ (t : TextOps) (parse_json : Text → Option Json) where
  parse_env-IsLimit :
      (raw : Option Text) {n : ℕ} → parse_env_limit t parse_json raw ≡ ok (some n) → IsLimit n
  unfolding parse_env_limit
  parse_env-IsLimit none h = ground arith
  parse_env-IsLimit (some raw) h = ground arith

  resolve_limit-IsLimit :
      (value : Option JsNumber) (var : Option Text) (default : ℕ)
      → IsLimit default
      → Ensures IsLimit (resolve_limit t parse_json value var default)
  unfolding resolve_limit
  resolve_limit-IsLimit (some value) var default d = ground (arith, positive_safe-IsLimit value)
  resolve_limit-IsLimit none none default d = d
  resolve_limit-IsLimit none (some raw) default d = ground arith

  -- Whatever the option and the environment hold: if the configuration resolves, both limits are at
  -- least one cent and are safe integers, so no source of a limit can switch a ceiling off by zero,
  -- by a negative number or by a value that no comparison would reject.
  pub resolve_guardrail_config_limits :
      (option : GuardrailConfig) (env : Env) (c : ResolvedGuardrailConfig)
      → resolve_guardrail_config t parse_json option env ≡ ok c
      → IsLimit c.per_tx_limit_brl_cents × IsLimit c.daily_limit_brl_cents
  unfolding resolve_guardrail_config
  resolve_guardrail_config_limits option env c h = ground (
    arith,
    resolve_limit-IsLimit option.per_tx_limit_brl_cents env.per_tx default_per_tx_limit_brl_cents
        (omega arith),
    resolve_limit-IsLimit option.daily_limit_brl_cents env.daily default_daily_limit_brl_cents
        (omega arith),
  )
