-- ===== src/Pending/Tests.antt =====
-- A withdrawal that is requested, signed and then fails to be broadcast.
use depix_sdk.Common.{◌≡◌, ◌≢◌, refl, none, some, [], ◌∷◌, true, ok}
use depix_sdk.Common.Text.{Text, codes}
use depix_sdk.Common.Js.{null}
use depix_sdk.Vault.{
  Vault, missing, parsed, read_envelopes, write_envelopes, locate, without, replace_first,
}
use depix_sdk.Vault.Sample.{sample_vault}
use depix_sdk.Pending.{
  PendingWithdrawalRecord, requested, signed, PendingFile, put_requested, mark_signed, patch, get,
  encrypt, decrypt, aad_of, signed_record, discard_if_unsigned,
}
use depix_sdk.Pending.Laws.{get-mark_signed, discard_if_unsigned-get}

abbrev v : Vault PendingWithdrawalRecord
v = sample_vault PendingWithdrawalRecord

abbrev asked : PendingWithdrawalRecord
asked = record {
  idempotency_key = codes "k1";
  withdrawal_id = none;
  created_at = 5;
  state = requested;
  signed_tx_hex = none;
  txid = none;
  request = null;
}

abbrev after_signing : PendingWithdrawalRecord
after_signing = record {
  idempotency_key = codes "k1";
  withdrawal_id = some (codes "w1");
  created_at = 5;
  state = signed;
  signed_tx_hex = some (codes "02ab");
  txid = some (codes "t1");
  request = null;
}

abbrev file_of : Text → PendingWithdrawalRecord → Text → PendingFile v
file_of iv r aad = parsed true (
    some (
      record {
        id = codes "k1";
        aad = aad;
        sealed = record { key = 7; iv = iv; aad = aad; content = r };
      }
      ∷ []))

abbrev first : PendingFile v
first = file_of (codes "a") asked (codes "k1")

abbrev second : PendingFile v
second = file_of (codes "b") after_signing (codes "w1")

puts : put_requested v 7 5 (codes "a") (codes "k1") null missing ≡ ok first
unfolding put_requested read_envelopes write_envelopes without encrypt aad_of
puts = refl

gets : get v 7 (codes "k1") first ≡ ok (some asked)
unfolding get locate decrypt read_envelopes
gets = refl

signs :
    mark_signed v 7 (codes "b") (codes "k1") (codes "w1") (codes "02ab") (codes "t1") first
    ≡ ok second
unfolding mark_signed patch read_envelopes write_envelopes locate replace_first encrypt decrypt
    aad_of signed_record
signs = refl

get-mark_signed_example :
    (get v 7 (codes "k1") second
      ≡ ok (some (signed_record (codes "w1") (codes "02ab") (codes "t1") asked)))
    × ((other : Text) → other ≢ codes "k1" → get v 7 other second ≡ get v 7 other first)
get-mark_signed_example =
    get-mark_signed v 7 (codes "b") (codes "k1") (codes "w1") (codes "02ab") (codes "t1") first
      second asked gets refl signs

discard_if_unsigned-get_example :
    (asked.state ≡ signed → discard_if_unsigned v 7 (codes "k1") first ≡ first)
    × (asked.state ≡ requested
        → get v 7 (codes "k1") (discard_if_unsigned v 7 (codes "k1") first) ≡ ok none)
discard_if_unsigned-get_example = discard_if_unsigned-get v 7 (codes "k1") first asked gets
