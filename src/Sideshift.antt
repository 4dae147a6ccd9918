-- ===== src/Sideshift.antt =====
-- src/convert/sideshift.ts: the classes of a shift's status, and the amounts of USDT as SideShift
-- writes them.
pub mod Amounts
pub mod Log
mod Tests
use depix_sdk.Common.{
  ℕ, zero, suc, ◌+◌, ◌*◌, ◌/◌, ◌%◌, ◌^◌, Bool, Option, none, some, List, [], ◌∷◌, ◌++◌,
  if◌then◌else◌, any, length, ◌==◌, not, ◌&&◌, ltb, ◌-◌,
}
use depix_sdk.Common.Text.{Text, codes, text_eq, TextOps, is_decimal, decimal_from}
use depix_sdk.Common.Decimal.{decimal}

-- A set of strings has the string.
unfoldable pub has_text : List Text → Text → Bool
has_text names s = any (λ n. text_eq n s) names

abbrev pub pending_statuses : List Text
pending_statuses =
    codes "waiting" ∷ codes "pending" ∷ codes "processing" ∷ codes "review" ∷ codes "settling" ∷ []

abbrev pub terminal_statuses : List Text
terminal_statuses = codes "settled" ∷ codes "refunded" ∷ codes "expired" ∷ []

abbrev pub refund_statuses : List Text
refund_statuses = codes "refund" ∷ codes "refunding" ∷ codes "refunded" ∷ []

unfoldable pub is_shift_pending : Text → Bool
is_shift_pending = has_text pending_statuses

unfoldable pub is_shift_terminal : Text → Bool
is_shift_terminal = has_text terminal_statuses

unfoldable pub is_shift_in_refund : Text → Bool
is_shift_in_refund = has_text refund_statuses

-- `ASSETS.USDT.decimals`, and the base units of one USDT.
abbrev pub usdt_decimals : ℕ
usdt_decimals = 8

abbrev pub usdt_sats_per_unit : ℕ
usdt_sats_per_unit = 10 ^ usdt_decimals

-- `"0".repeat(n)`.
unfoldable pub zeros : ℕ → Text
zeros zero = []
zeros (suc n) = b'0' ∷ zeros n

unfoldable pub pad_start : ℕ → Text → Text
pad_start width s = zeros (width - length s) ++ s

unfoldable pub pad_end : ℕ → Text → Text
pad_end width s = s ++ zeros (width - length s)

-- `replace(/0+$/, "")`.
unfoldable pub strip_zeros : Text → Text
strip_zeros [] = []
strip_zeros (c ∷ s) =
    let rest = strip_zeros s in if (c == b'0') && (length rest == 0) then [] else c ∷ rest

unfoldable pub usdt_sats_to_decimal : ℕ → Text
usdt_sats_to_decimal sats =
    let whole = decimal (sats / usdt_sats_per_unit) in
    let frac = sats % usdt_sats_per_unit in
    if frac == 0
    then whole
    else whole ++ b'.' ∷ strip_zeros (pad_start usdt_decimals (decimal frac))

-- The text up to the first point, and the text after it, if there is one.
unfoldable pub split_point : Text → Text × Option Text
split_point [] = ([], none)
split_point (c ∷ s) =
    let rest = split_point s in if c == b'.' then ([], some s) else (c ∷ rest.0, rest.1)

unfoldable pub take_text : ℕ → Text → Text
take_text zero s = []
take_text (suc n) [] = []
take_text (suc n) (c ∷ s) = c ∷ take_text n s

unfoldable pub drop_text : ℕ → Text → Text
drop_text zero s = s
drop_text (suc n) [] = []
drop_text (suc n) (c ∷ s) = drop_text n s

-- `/[1-9]/.test(s)`, of digits.
unfoldable pub has_nonzero : Text → Bool
has_nonzero s = any (λ c. not (c == b'0')) s

-- The fraction, cut or padded to eight digits, after the whole part.
unfoldable pub join_units : Text → Text → Option ℕ
join_units whole frac =
    if ltb usdt_decimals (length frac) && has_nonzero (drop_text usdt_decimals frac)
    then none
    else some (
        decimal_from 0 whole * usdt_sats_per_unit
        + decimal_from 0 (pad_end usdt_decimals (take_text usdt_decimals frac)))

-- The test of the two parts, and their value.
unfoldable pub parse_parts : Text × Option Text → Option ℕ
parse_parts (whole, none) = if is_decimal whole then join_units whole [] else none
parse_parts (whole, some frac) =
    if is_decimal whole && is_decimal frac then join_units whole frac else none

-- Of a trimmed text.
unfoldable pub parse_units : Text → Option ℕ
parse_units s = parse_parts (split_point s)

unfoldable pub usdt_decimal_to_sats : TextOps → Text → Option ℕ
usdt_decimal_to_sats ops decimal = parse_units (ops.trim decimal)
