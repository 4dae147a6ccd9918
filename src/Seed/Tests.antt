-- ===== src/Seed/Tests.antt =====
-- A wallet file whose anchor moves.
use depix_sdk.Common.{ℕ, suc, ◌≡◌, ◌≢◌, ap, refl, true, false, some, none, [], ok, is_ok, arith}
use depix_sdk.Common.Text.{codes}
use depix_sdk.Crypto.Sample.{sample, encrypt, decrypt}
use depix_sdk.Common.Decimal.{decimal}
use depix_sdk.Seed.{
  WalletFile, seed_aad_for, seed_aad, open_sealed, encrypt_seed, decrypt_seed, decode_or_throw,
  advance_guardrail_anchor, decrypt_mnemonic, read_guardrail_anchor,
}
use depix_sdk.Seed.Tamper.{edited, tampered_anchor}
use depix_sdk.Seed.Survival.{advance_keeps_seed}

abbrev wallet : ℕ → WalletFile
wallet epoch = record {
  is_version_2 = true;
  encrypted_seed = some (encrypt 7 [] (seed_aad_for true true epoch) (codes "abandon"));
  salt = some (codes "salt");
  iv = some (codes "iv");
  backup_confirmed = true;
  next_receive_index = 4;
  guardrails_state_initialized = some true;
  guardrail_epoch = some epoch;
}

abbrev advanced : WalletFile
advanced = record (wallet 10) { iv = some (codes "nonce") }

advances : advance_guardrail_anchor sample 7 (codes "nonce") (some (wallet 9)) ≡ ok advanced
unfolding advance_guardrail_anchor open_sealed decode_or_throw decrypt_seed encrypt_seed seed_aad
    seed_aad_for decimal decrypt encrypt
advances = refl

stale : (m : ℕ) → m ≡ 0 → m ≢ 9
stale m e f = absurd (omega (arith, e, f))

advance_keeps_seed_example :
    (decrypt_mnemonic sample (some advanced) 7 ≡ decrypt_mnemonic sample (some (wallet 9)) 7)
    × (read_guardrail_anchor (some advanced) ≡ record {
      initialized = true;
      epoch = suc (read_guardrail_anchor (some (wallet 9))).epoch;
    })
    × (some (codes "salt") ≡ some (codes "salt"))
    × (true ≡ true)
    × (◌≡◌ {A = ℕ} 4 4)
unfolding encrypt read_guardrail_anchor
advance_keeps_seed_example =
    advance_keeps_seed sample 7 (codes "nonce") (wallet 9) advanced b's' (codes "alt") refl
      (λ e. cc) (λ aad s e. cc) advances

-- The marker is stripped and the epoch set back.
tampered_anchor_example :
    is_ok (decrypt_mnemonic sample (some (edited (wallet 9) true none none)) 7) ≡ false
unfolding encrypt seed_aad read_guardrail_anchor
tampered_anchor_example =
    tampered_anchor sample (wallet 9) 7 (codes "iv") (codes "abandon") true none none refl refl refl
      (λ e. stale 0 refl (ap (λ x. x.epoch) e))
