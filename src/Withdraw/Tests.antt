-- ===== src/Withdraw/Tests.antt =====
-- An answer with a fee, and a transaction that pays it.
use depix_sdk.Common.{◌≡◌, refl, Bool, true, false, Option, none, some, List, [], ◌∷◌, ok, ◌↔◌}
use depix_sdk.Common.Text.{Text, codes}
use depix_sdk.Common.Js.{Json, num, str, pos}
use depix_sdk.Withdraw.{
  WithdrawWireResponse, NormalizedWithdraw, process_withdraw_response, normalize_withdraw_response,
  normalized, assert_positive_int, gross_of, fee_of, validate_live, validate_fee,
  assert_fee_address_explicit, assert_split_consistent, assert_parseable, PsetOutput,
  WithdrawOutputExpectation, assert_withdraw_pset_outputs, depix_asset_id,
}
use depix_sdk.Withdraw.Amounts.{IsValidated, process_withdraw_response-IsValidated}
use depix_sdk.Withdraw.Outputs.{Pays, FeePaid, assert_withdraw_pset_outputs_iff}

abbrev to_string : Option Json → Text
to_string (some (str s)) = s
to_string _ = []

-- Every address parses and is explicit.
abbrev explicit : Text → Option Bool
explicit a = some false

abbrev answer : WithdrawWireResponse
answer = record {
  withdrawal_id = some (str (codes "w1"));
  deposit_address = some (str (codes "lq1"));
  deposit_amount_in_cents = some (num (pos 9900));
  payout_amount_in_cents = some (num (pos 9800));
  total_deposit_amount_in_cents = some (num (pos 10000));
  fee_cents = some (num (pos 100));
  fee_address = some (str (codes "ex1"));
  sandbox = none;
}

abbrev withdrawal : NormalizedWithdraw
withdrawal = record {
  withdrawal_id = codes "w1";
  deposit_address = codes "lq1";
  net_cents = 9900;
  gross_cents = 10000;
  payout_cents = 9800;
  has_fee = true;
  fee_cents = some 100;
  fee_address = some (codes "ex1");
  sandbox = false;
}

passes : process_withdraw_response to_string explicit answer ≡ ok (some withdrawal)
unfolding process_withdraw_response normalize_withdraw_response normalized assert_positive_int
    gross_of fee_of validate_live validate_fee assert_fee_address_explicit assert_split_consistent
    assert_parseable
passes = refl

process_withdraw_response-IsValidated_example : IsValidated explicit answer withdrawal
process_withdraw_response-IsValidated_example =
    process_withdraw_response-IsValidated to_string explicit answer withdrawal passes

abbrev outputs : List PsetOutput
outputs =
    record { script_pubkey = codes "0014aa"; amount = none; asset = none }
    ∷ record {
      script_pubkey = codes "0014bb";
      amount = some 100000000;
      asset = some depix_asset_id;
    }
    ∷ []

abbrev expected : WithdrawOutputExpectation
expected = record {
  deposit_script_hex = codes "0014aa";
  net_sats = 9900000000;
  fee_script_hex = some (codes "0014bb");
  fee_sats = some 100000000;
}

assert_withdraw_pset_outputs_iff_example :
    (assert_withdraw_pset_outputs outputs expected ≡ ok tt) ↔ (
      Pays expected.deposit_script_hex outputs
      × FeePaid expected.fee_script_hex expected.fee_sats outputs)
assert_withdraw_pset_outputs_iff_example = assert_withdraw_pset_outputs_iff outputs expected
