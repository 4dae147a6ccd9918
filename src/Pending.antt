-- ===== src/Pending.antt =====
-- src/pending.ts: the encrypted store of withdrawals between the request and the broadcast, and
-- `discardIfUnsigned` of src/wallet.ts. An operation takes the file as it finds it and gives the file
-- that it leaves; the initialisation vector that an encryption draws is an argument. The wire body of
-- the request is kept as it is and never read.
pub mod Laws
mod Tests
use depix_sdk.Common.{
  ℕ, Bool, true, false, Option, none, some, List, [], ◌∷◌, ◌++◌, if◌then◌else◌, length, Result, ok,
  err, ◌>>=◌, ◌==◌, not,
}
use depix_sdk.Common.Text.{Text}
use depix_sdk.Common.Js.{Json}
use depix_sdk.Errors.{SdkError, platform_failure, pending_record_tampered}
use depix_sdk.Vault.{
  Vault, StoreFile, read_envelopes, write_envelopes, locate, without, replace_first,
}

pub data PendingWithdrawalState : Type 0 where
  requested signed : PendingWithdrawalState

pub record PendingWithdrawalRecord : Type 0 where
  pub idempotency_key : Text
  pub withdrawal_id : Option Text
  pub created_at : ℕ
  pub state : PendingWithdrawalState
  pub signed_tx_hex : Option Text
  pub txid : Option Text
  pub request : Json

pub record ReadAllResult : Type 0 where
  pub records : List PendingWithdrawalRecord
  pub tampered_ids : List Text

-- `record.withdrawalId ?? record.idempotencyKey`.
unfoldable pub aad_of : PendingWithdrawalRecord → Text
aad_of r = elim r.withdrawal_id [ some id ↦ id | none ↦ r.idempotency_key ]

-- The fields that `markSigned` sets.
unfoldable pub signed_record :
    Text → Text → Text → PendingWithdrawalRecord → PendingWithdrawalRecord
signed_record withdrawal_id signed_tx_hex txid r = record r {
  withdrawal_id = some withdrawal_id;
  signed_tx_hex = some signed_tx_hex;
  txid = some txid;
  state = signed;
}

module _ (v : Vault PendingWithdrawalRecord) where
  pub record Envelope : Type 0 where
    pub id : Text
    pub aad : Text
    pub sealed : v.Sealed

  abbrev pub PendingFile : Type 0
  PendingFile = StoreFile Envelope

  abbrev pub find_pending : Text → List Envelope → Option Envelope
  find_pending = locate λ e. e.id

  module _ (key : v.Key) where
    unfoldable pub encrypt : Text → PendingWithdrawalRecord → Envelope
    encrypt iv r = record {
      id = r.idempotency_key;
      aad = aad_of r;
      sealed = v.seal key iv (aad_of r) r;
    }

    unfoldable pub decrypt : Envelope → Result SdkError PendingWithdrawalRecord
    decrypt env = elim (v.unseal key env.aad env.sealed) [
      | some r ↦ ok r
      | none ↦ err platform_failure
    ]

    unfoldable pub put_requested :
        ℕ → Text → Text → Json → PendingFile → Result SdkError PendingFile
    put_requested now iv idempotency_key request file = do
      envelopes ← read_envelopes file
      let r : PendingWithdrawalRecord = record {
        idempotency_key = idempotency_key;
        withdrawal_id = none;
        created_at = now;
        state = requested;
        signed_tx_hex = none;
        txid = none;
        request = request;
      }
      ok (write_envelopes (without (λ e. e.id) idempotency_key envelopes ++ encrypt iv r ∷ []))

    unfoldable pub patch :
        Text
        → Text
        → (PendingWithdrawalRecord → PendingWithdrawalRecord)
        → PendingFile
        → Result SdkError PendingFile
    patch iv idempotency_key mutate file = do
      envelopes ← read_envelopes file
      elim (find_pending idempotency_key envelopes) [
        | none ↦ ok file
        | some env ↦ do
          r ← decrypt env
          ok (
              write_envelopes
                (replace_first (λ e. e.id) idempotency_key (encrypt iv (mutate r)) envelopes))
      ]

    unfoldable pub mark_signed :
        Text → Text → Text → Text → Text → PendingFile → Result SdkError PendingFile
    unfolding patch
    mark_signed iv idempotency_key withdrawal_id signed_tx_hex txid =
        patch iv idempotency_key (signed_record withdrawal_id signed_tx_hex txid)

    unfoldable pub get : Text → PendingFile → Result SdkError (Option PendingWithdrawalRecord)
    get idempotency_key file = do
      envelopes ← read_envelopes file
      elim (find_pending idempotency_key envelopes) [
        | none ↦ ok none
        | some env ↦ elim (decrypt env) [ ok r ↦ ok (some r) | err e ↦ err pending_record_tampered ]
      ]

    unfoldable pub read_each : List Envelope → ReadAllResult
    read_each [] = record { records = []; tampered_ids = [] }
    read_each (env ∷ rest) =
        let others = read_each rest in
        elim (decrypt env) [
          | ok r ↦ record others { records = r ∷ others.records }
          | err e ↦ record others { tampered_ids = env.id ∷ others.tampered_ids }
        ]

    unfoldable pub read_all : PendingFile → Result SdkError ReadAllResult
    read_all file = do envelopes ← read_envelopes file; ok (read_each envelopes)

  unfoldable pub remove : Text → PendingFile → Result SdkError PendingFile
  remove idempotency_key file = do
    envelopes ← read_envelopes file
    let next = without (λ e. e.id) idempotency_key envelopes
    ok (if not (length next == length envelopes) then write_envelopes next else file)

  unfoldable pub count : PendingFile → Result SdkError ℕ
  count file = do envelopes ← read_envelopes file; ok (length envelopes)

  -- The file after a call that may throw.
  abbrev pub left : Result SdkError PendingFile → PendingFile → PendingFile
  left (ok file') file = file'
  left (err e) file = file

  -- `discardIfUnsigned(idempotencyKey)`, which swallows what it catches: the file that it leaves.
  unfoldable pub discard_if_unsigned : v.Key → Text → PendingFile → PendingFile
  discard_if_unsigned key idempotency_key file = elim (get key idempotency_key file) [
    | ok (some r) ↦ elim r.state [
      | requested ↦ left (remove idempotency_key file) file
      | signed ↦ file
    ]
    | ok none ↦ file
    | err e ↦ file
  ]
