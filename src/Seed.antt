-- ===== src/Seed.antt =====
-- The guardrail anchor in wallet.json (src/store/seed-store.ts): the seed is sealed under associated
-- data that names the marker and the epoch. Only the fields that this code reads or writes are
-- modelled; the key comes from the caller, which derives it of the passphrase.
pub mod Survival
pub mod Tamper
mod Tests
use depix_sdk.Common.{
  ℕ, zero, suc, ◌+◌, ◌/◌, ◌%◌, ◌-◌, Bool, true, false, Option, none, some, List, [], ◌∷◌, ◌++◌,
  if◌then◌else◌, ltb, Result, ok, err, ◌>>=◌, ◌>>◌, throw_if, max,
}
use depix_sdk.Common.Text.{Text, codes}
use depix_sdk.Common.Decimal.{decimal}
use depix_sdk.Errors.{SdkError, wallet_not_found, wrong_passphrase, platform_failure}
use depix_sdk.Crypto.{Platform}
use depix_sdk.Guardrails.Anchor.{GuardrailAnchor}

-- The fields have the types that `WalletFileV1` declares. `read()` checks only the format and the
-- version, so a file that was edited by hand may hold other JSON values in them, which are left out.
pub record WalletFile : Type 0 where
  pub is_version_2 : Bool
  pub encrypted_seed : Option Text
  pub salt : Option Text
  pub iv : Option Text
  pub backup_confirmed : Bool
  pub next_receive_index : ℕ
  pub guardrails_state_initialized : Option Bool
  pub guardrail_epoch : Option ℕ

abbrev pub or_zero : Option ℕ → ℕ
or_zero (some n) = n
or_zero none = 0

-- `x === true`.
abbrev pub is_true : Option Bool → Bool
is_true (some b) = b
is_true none = false

-- `seedAadFor`; a version 1 seed has no associated data, which for GCM is the empty one.
unfoldable pub seed_aad_for : Bool → Bool → ℕ → Text
seed_aad_for false initialized epoch = []
seed_aad_for true initialized epoch =
    codes "depix-sdk-seed-anchor-v1|init="
    ++ (if initialized then b'1' else b'0') ∷ codes "|epoch="
    ++ decimal epoch

unfoldable pub seed_aad : WalletFile → Text
seed_aad file =
    seed_aad_for file.is_version_2 (is_true file.guardrails_state_initialized)
      (or_zero file.guardrail_epoch)

-- `readGuardrailAnchor()`, of a file that may be missing.
unfoldable pub read_guardrail_anchor : Option WalletFile → GuardrailAnchor
read_guardrail_anchor none = record { initialized = false; epoch = 0 }
read_guardrail_anchor (some file) = record {
  initialized = is_true file.guardrails_state_initialized;
  epoch = or_zero file.guardrail_epoch;
}

-- A field that has to be there; an empty string is falsy, like null.
abbrev pub require_text : Option Text → Result SdkError Text
require_text (some (c ∷ s)) = ok (c ∷ s)
require_text _ = err wallet_not_found

module _ (p : Platform) where
  -- `base64.decode`, which throws.
  unfoldable pub decode_or_throw : Text → Result SdkError p.Bytes
  decode_or_throw s = elim (p.decode s) [ some b ↦ ok b | none ↦ err platform_failure ]

  -- `decryptSeed`.
  unfoldable pub decrypt_seed : p.Bytes → p.Key → p.Bytes → Text → Result SdkError Text
  decrypt_seed ciphertext key iv aad = elim (p.decrypt key iv aad ciphertext) [
    | some mnemonic ↦ ok mnemonic
    | none ↦ err wrong_passphrase
  ]

  -- `encryptSeed`, which refuses an empty mnemonic.
  unfoldable pub encrypt_seed : Text → p.Key → p.Bytes → Text → Result SdkError p.Bytes
  encrypt_seed [] key iv aad = err platform_failure
  encrypt_seed (c ∷ s) key iv aad = ok (p.encrypt key iv aad (c ∷ s))

  unfoldable pub open_sealed : WalletFile → p.Key → Text → Text → Result SdkError Text
  unfolding decode_or_throw decrypt_seed
  open_sealed file key seed iv = do
    ciphertext ← decode_or_throw seed
    nonce ← decode_or_throw iv
    decrypt_seed ciphertext key nonce (seed_aad file)

  -- `decryptMnemonic` once the key is derived of the passphrase and the salt.
  unfoldable pub decrypt_mnemonic : Option WalletFile → p.Key → Result SdkError Text
  decrypt_mnemonic none key = err wallet_not_found
  decrypt_mnemonic (some file) key = do
    seed ← require_text file.encrypted_seed
    salt ← require_text file.salt
    iv ← require_text file.iv
    open_sealed file key seed iv

  -- `advanceGuardrailAnchor(key)`: the file that is written, with a fresh nonce.
  unfoldable pub advance_guardrail_anchor :
      p.Key → p.Bytes → Option WalletFile → Result SdkError WalletFile
  advance_guardrail_anchor key nonce none = err wallet_not_found
  advance_guardrail_anchor key nonce (some file) = do
    seed ← require_text file.encrypted_seed
    iv ← require_text file.iv
    mnemonic ← open_sealed file key seed iv
    let epoch = suc (or_zero file.guardrail_epoch)
    ciphertext ← encrypt_seed mnemonic key nonce (seed_aad_for true true epoch)
    ok (record file {
      is_version_2 = true;
      encrypted_seed = some (p.encode ciphertext);
      iv = some (p.encode nonce);
      guardrails_state_initialized = some true;
      guardrail_epoch = some epoch;
    })

-- `patch(mutate)`.
unfoldable pub patch : (WalletFile → WalletFile) → Option WalletFile → Result SdkError WalletFile
patch mutate none = err wallet_not_found
patch mutate (some file) = ok (mutate file)

unfoldable pub set_backup_confirmed : Bool → Option WalletFile → Result SdkError WalletFile
unfolding patch
set_backup_confirmed confirmed = patch λ file. record file { backup_confirmed = confirmed }

unfoldable pub set_next_receive_index : ℕ → Option WalletFile → Result SdkError WalletFile
unfolding patch
set_next_receive_index next =
    patch λ file. record file { next_receive_index = max file.next_receive_index next }

unfoldable pub wipe_seed : Option WalletFile → Result SdkError WalletFile
unfolding patch
wipe_seed = patch λ file. record file { encrypted_seed = none; salt = none; iv = none }
