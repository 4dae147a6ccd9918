-- ===== src/Valuation/Ceiling.antt =====
-- The value of a DePix amount is never below the amount, nor a cent above it.
mod Tests
use depix_sdk.Common.{ℕ, ◌+◌, ◌*◌, ◌-◌, ◌/◌, ◌≤◌, ◌<◌, ◌≡◌, arith}
use depix_sdk.Valuation.{depix_sats_to_brl_cents, depix_sats_per_brl_cent}
use depix_sdk.Withdraw.{cents_to_depix_sats}

-- The cents counted for an amount are worth at least the amount, and less than one cent more.
pub depix_sats_to_brl_cents-bounds :
    (sats : ℕ)
    → (sats ≤ cents_to_depix_sats (depix_sats_to_brl_cents sats))
      × (cents_to_depix_sats (depix_sats_to_brl_cents sats) < sats + 1000000)
unfolding depix_sats_to_brl_cents cents_to_depix_sats
depix_sats_to_brl_cents-bounds sats = (omega arith, omega arith)
