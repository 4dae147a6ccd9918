-- ===== src/Valuation/Ceiling/Tests.antt =====
-- One base unit above R$ 0.02 counts as three cents.
use depix_sdk.Common.{◌+◌, ◌≤◌, ◌<◌, ◌≡◌, refl}
use depix_sdk.Valuation.{depix_sats_to_brl_cents}
use depix_sdk.Valuation.Ceiling.{depix_sats_to_brl_cents-bounds}
use depix_sdk.Withdraw.{cents_to_depix_sats}

three_cents : depix_sats_to_brl_cents 2000001 ≡ 3
unfolding depix_sats_to_brl_cents
three_cents = refl

depix_sats_to_brl_cents-bounds_example :
    (2000001 ≤ cents_to_depix_sats (depix_sats_to_brl_cents 2000001))
    × (cents_to_depix_sats (depix_sats_to_brl_cents 2000001) < 2000001 + 1000000)
depix_sats_to_brl_cents-bounds_example = depix_sats_to_brl_cents-bounds 2000001
