-- ===== src/Valuation.antt =====
-- The DePix peg of src/guardrails/valuation.ts: an amount in base units valued in BRL cents. An
-- amount is positive, and its value is below the safe integers, where `Number` is exact.
pub mod Brl
pub mod Ceiling
use depix_sdk.Common.{ℕ, ◌+◌, ◌-◌, ◌/◌}

abbrev pub depix_sats_per_brl_cent : ℕ
depix_sats_per_brl_cent = 1000000

unfoldable pub depix_sats_to_brl_cents : ℕ → ℕ
depix_sats_to_brl_cents amount_sats =
    (amount_sats + depix_sats_per_brl_cent - 1) / depix_sats_per_brl_cent
