-- ===== src/Sideshift/Tests.antt =====
-- An amount of USDT on the wire.
use depix_sdk.Common.{◌≡◌, refl, some}
use depix_sdk.Common.Text.{codes}
use depix_sdk.Common.Decimal.{decimal}
use depix_sdk.Sideshift.{usdt_sats_to_decimal, parse_units, pad_start, zeros, strip_zeros}
use depix_sdk.Sideshift.Amounts.{parse_units-usdt_sats_to_decimal}

on_the_wire : usdt_sats_to_decimal 1250000000 ≡ codes "12.5"
unfolding usdt_sats_to_decimal decimal pad_start zeros strip_zeros
on_the_wire = refl

parse_units-usdt_sats_to_decimal_example :
    parse_units (usdt_sats_to_decimal 1250000000) ≡ some 1250000000
parse_units-usdt_sats_to_decimal_example = parse_units-usdt_sats_to_decimal 1250000000
