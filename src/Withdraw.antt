-- ===== src/Withdraw.antt =====
-- src/flows/withdraw.ts, and the checks of `processWithdrawResponse` in src/wallet.ts: what the flow
-- takes of the API's answer to a withdrawal, and what it requires of the transaction before it signs.
-- Liquid addresses are parsed by the wallet engine (LWK), and `String(…)` is the platform's: both are
-- parameters.
pub mod Amounts
pub mod Outputs
mod Tests
use depix_sdk.Common.{
  ℕ, ◌+◌, ◌*◌, Bool, true, false, not, ◌&&◌, Option, none, some, List, [], ◌∷◌, if◌then◌else◌, ◌==◌,
  any, find, Result, ok, err, ◌>>=◌, ◌>>◌, throw_if,
}
use depix_sdk.Common.Text.{Text, text_eq, codes}
use depix_sdk.Common.Js.{Json, num, boolean, str, null, positive_safe}
use depix_sdk.Errors.{SdkError, withdraw_split_mismatch, fee_address_not_explicit, invalid_address}

-- The answer, its fields untrusted; `none` is an absent field.
pub record WithdrawWireResponse : Type 0 where
  pub withdrawal_id : Option Json
  pub deposit_address : Option Json
  pub deposit_amount_in_cents : Option Json
  pub payout_amount_in_cents : Option Json
  pub total_deposit_amount_in_cents : Option Json
  pub fee_cents : Option Json
  pub fee_address : Option Json
  pub sandbox : Option Json

pub record NormalizedWithdraw : Type 0 where
  pub withdrawal_id : Text
  pub deposit_address : Text
  pub net_cents : ℕ
  pub gross_cents : ℕ
  pub payout_cents : ℕ
  pub has_fee : Bool
  pub fee_cents : Option ℕ
  pub fee_address : Option Text
  pub sandbox : Bool

unfoldable pub assert_positive_int : Option Json → Result SdkError ℕ
assert_positive_int (some (num v)) = elim (positive_safe v) [
  | some n ↦ ok n
  | none ↦ err withdraw_split_mismatch
]
assert_positive_int _ = err withdraw_split_mismatch

-- `x === true`.
abbrev pub is_literally_true : Option Json → Bool
is_literally_true (some (boolean b)) = b
is_literally_true _ = false

-- `x !== undefined && x !== null`.
abbrev pub is_present : Option Json → Bool
is_present none = false
is_present (some null) = false
is_present (some _) = true

-- `typeof x === "string" && x.length > 0`.
abbrev pub is_nonempty_string : Option Json → Bool
is_nonempty_string (some (str (c ∷ s))) = true
is_nonempty_string _ = false

-- The GROSS: the total if the field is there, else the NET.
unfoldable pub gross_of : Option Json → ℕ → Result SdkError ℕ
gross_of none net = ok net
gross_of (some total) net = assert_positive_int (some total)

-- `assertPositiveInt(wire.fee_cents)` where there is a fee.
unfoldable pub fee_of : Bool → Option Json → Result SdkError (Option ℕ)
fee_of false fee_cents = ok none
fee_of true fee_cents = assert_positive_int fee_cents >>= λ n. ok (some n)

-- The object that it returns.
unfoldable pub normalized :
    (Option Json → Text) → WithdrawWireResponse → ℕ → ℕ → ℕ → Option ℕ → NormalizedWithdraw
normalized to_string wire net payout gross fee =
    let has_fee = is_present wire.fee_cents && is_nonempty_string wire.fee_address in
    record {
      withdrawal_id = to_string wire.withdrawal_id;
      deposit_address = to_string wire.deposit_address;
      net_cents = net;
      gross_cents = gross;
      payout_cents = payout;
      has_fee = has_fee;
      fee_cents = fee;
      fee_address = if has_fee then some (to_string wire.fee_address) else none;
      sandbox = is_literally_true wire.sandbox;
    }

unfoldable pub normalize_withdraw_response :
    (Option Json → Text) → WithdrawWireResponse → Result SdkError NormalizedWithdraw
normalize_withdraw_response to_string wire = do
  net ← assert_positive_int wire.deposit_amount_in_cents
  payout ← assert_positive_int wire.payout_amount_in_cents
  gross ← gross_of wire.total_deposit_amount_in_cents net
  let has_cents = is_present wire.fee_cents
  let has_address = is_nonempty_string wire.fee_address
  throw_if (if has_cents then not has_address else has_address) withdraw_split_mismatch
  fee ← fee_of (has_cents && has_address) wire.fee_cents
  ok (normalized to_string wire net payout gross fee)

-- A sum of two safe integers that rounding changes exceeds every safe integer, so the test on exact
-- sums is the test on numbers of JavaScript.
unfoldable pub assert_split_consistent : ℕ → ℕ → ℕ → Result SdkError (Unit {0})
assert_split_consistent net fee gross = throw_if (not (net + fee == gross)) withdraw_split_mismatch

unfoldable pub cents_to_depix_sats : ℕ → ℕ
cents_to_depix_sats cents = cents * 1000000

-- The parse of an address: `none`, or whether it is blinded.
unfoldable pub assert_fee_address_explicit :
    (Text → Option Bool) → Text → Result SdkError (Unit {0})
assert_fee_address_explicit parse_address a = elim (parse_address a) [
  | none ↦ err fee_address_not_explicit
  | some is_blinded ↦ throw_if is_blinded fee_address_not_explicit
]

-- The fee of a response that has one. The code reads both fields without a test once `hasFee` holds.
unfoldable pub validate_fee :
    (Text → Option Bool) → NormalizedWithdraw → Option Text → Option ℕ → Result SdkError (Unit {0})
unfolding assert_fee_address_explicit assert_split_consistent
validate_fee parse_address norm (some address) (some fee) = do
  assert_fee_address_explicit parse_address address
  assert_split_consistent norm.net_cents fee norm.gross_cents
validate_fee parse_address norm _ _ = err fee_address_not_explicit

unfoldable pub assert_parseable : (Text → Option Bool) → Text → Result SdkError (Unit {0})
assert_parseable parse_address a = elim (parse_address a) [
  | some blinded ↦ ok tt
  | none ↦ err invalid_address
]

-- The validations of a response that is not the sandbox's.
unfoldable pub validate_live :
    (Text → Option Bool) → NormalizedWithdraw → Result SdkError (Option NormalizedWithdraw)
unfolding validate_fee assert_parseable
validate_live parse_address norm = do
  (if norm.has_fee then validate_fee parse_address norm norm.fee_address norm.fee_cents else ok tt)
  assert_parseable parse_address norm.deposit_address
  ok (some norm)

-- What `processWithdrawResponse` requires before it reaches the guardrails: `none` is the answer of
-- the sandbox, which returns at once.
unfoldable pub process_withdraw_response :
    (Option Json → Text)
    → (Text → Option Bool)
    → WithdrawWireResponse
    → Result SdkError (Option NormalizedWithdraw)
unfolding normalize_withdraw_response validate_live
process_withdraw_response to_string parse_address wire = do
  norm ← normalize_withdraw_response to_string wire
  (if norm.sandbox then ok none else validate_live parse_address norm)

pub record PsetOutput : Type 0 where
  pub script_pubkey : Text
  pub amount : Option ℕ
  pub asset : Option Text

pub record WithdrawOutputExpectation : Type 0 where
  pub deposit_script_hex : Text
  pub net_sats : ℕ
  pub fee_script_hex : Option Text
  pub fee_sats : Option ℕ

abbrev pub depix_asset_id : Text
depix_asset_id = codes "02f22f8d9c76ab41661a2729e4752e2c5d1a263012141b86ea98af5472df5189"

-- `amount !== expect.feeSats`, negated.
abbrev pub is_amount : ℕ → Option ℕ → Bool
is_amount n none = false
is_amount n (some m) = n == m

unfoldable pub assert_explicit_fee : Option ℕ → Option ℕ → Option Text → Result SdkError (Unit {0})
assert_explicit_fee fee_sats (some amount) (some asset) = do
  throw_if (not (is_amount amount fee_sats)) withdraw_split_mismatch
  throw_if (not (text_eq asset depix_asset_id)) withdraw_split_mismatch
assert_explicit_fee fee_sats _ _ = err fee_address_not_explicit

-- `outputs.find((o) => o.scriptPubkey().toString() === script)`.
unfoldable pub output_to : Text → List PsetOutput → Option PsetOutput
output_to script [] = none
output_to script (o ∷ rest) =
    if text_eq o.script_pubkey script then some o else output_to script rest

abbrev pub is_there : Option PsetOutput → Bool
is_there none = false
is_there (some o) = true

-- The output that `find` gave, or undefined.
abbrev pub assert_fee_output : Option ℕ → Option PsetOutput → Result SdkError (Unit {0})
assert_fee_output fee_sats none = err withdraw_split_mismatch
assert_fee_output fee_sats (some o) = assert_explicit_fee fee_sats o.amount o.asset

-- The part of the check that is about the fee.
unfoldable pub assert_fee : Option Text → Option ℕ → List PsetOutput → Result SdkError (Unit {0})
assert_fee none fee_sats outputs = ok tt
assert_fee (some script) fee_sats outputs = assert_fee_output fee_sats (output_to script outputs)

unfoldable pub assert_withdraw_pset_outputs :
    List PsetOutput → WithdrawOutputExpectation → Result SdkError (Unit {0})
unfolding assert_fee
assert_withdraw_pset_outputs outputs expect = do
  throw_if (not (is_there (output_to expect.deposit_script_hex outputs))) withdraw_split_mismatch
  assert_fee expect.fee_script_hex expect.fee_sats outputs
