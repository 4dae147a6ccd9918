-- ===== src/Seed/Survival.antt =====
-- The anchor moves and the seed stays.
use depix_sdk.Common.{
  ℕ, suc, ◌≡◌, refl, true, Option, none, some, [], ◌∷◌, arith, Result, ok, err, inl, inr,
  Result-cases, subst, ◌≢◌,
}
use depix_sdk.Common.Text.{Text}
use depix_sdk.Errors.{SdkError}
use depix_sdk.Crypto.{Platform}
use depix_sdk.Guardrails.Anchor.{GuardrailAnchorStore}
use depix_sdk.Seed.{
  WalletFile, or_zero, seed_aad, seed_aad_for, read_guardrail_anchor, decrypt_mnemonic,
  advance_guardrail_anchor, open_sealed, encrypt_seed, require_text,
}

module _ (p : Platform) (key : p.Key) (nonce : p.Bytes) where
  -- An advance that returns has set the marker and moved the epoch up by one.
  pub read-advance :
      (file : Option WalletFile) (next : WalletFile)
      → advance_guardrail_anchor p key nonce file ≡ ok next
      → read_guardrail_anchor (some next)
        ≡ record { initialized = true; epoch = suc (read_guardrail_anchor file).epoch }
  unfolding advance_guardrail_anchor read_guardrail_anchor
  read-advance none next h = cc
  read-advance (some file) next h = ground arith

  require_text-encode : (s : Text) → s ≢ [] → require_text (some s) ≡ ok s
  require_text-encode [] h = absurd (h refl)
  require_text-encode (c ∷ s) h = refl

  -- What is sealed under the next anchor opens to the mnemonic that went in.
  resealed :
      (next : WalletFile) (mnemonic aad : Text) (ct : p.Bytes)
      → encrypt_seed p mnemonic key nonce aad ≡ ok ct
      → seed_aad next ≡ aad
      → open_sealed p next key (p.encode ct) (p.encode nonce) ≡ ok mnemonic
  unfolding encrypt_seed open_sealed
  resealed next [] aad ct h e = cc
  resealed next (c ∷ s) aad ct h e =
      ground
        (arith, p.decode-encode ct, p.decode-encode nonce, p.decrypt-encrypt key nonce aad (c ∷ s))

  -- What an advance that returns went through.
  record Sealed (file next : WalletFile) : Type 0 where
    seed : Text
    iv : Text
    mnemonic : Text
    ct : p.Bytes
    found_seed : require_text file.encrypted_seed ≡ ok seed
    found_iv : require_text file.iv ≡ ok iv
    opened : open_sealed p file key seed iv ≡ ok mnemonic
    sealed :
        encrypt_seed p mnemonic key nonce
          (seed_aad_for true true (suc (or_zero file.guardrail_epoch)))
        ≡ ok ct
    result : next ≡ record file {
      is_version_2 = true;
      encrypted_seed = some (p.encode ct);
      iv = some (p.encode nonce);
      guardrails_state_initialized = some true;
      guardrail_epoch = some (suc (or_zero file.guardrail_epoch));
    }

  advance-Sealed :
      (file next : WalletFile)
      → advance_guardrail_anchor p key nonce (some file) ≡ ok next
      → Sealed file next
  unfolding advance_guardrail_anchor
  advance-Sealed file next h = elim (Result-cases (require_text file.encrypted_seed)) [
    | inr (x, e) ↦ absurd (ground arith)
    | inl (seed, es) ↦ elim (Result-cases (require_text file.iv)) [
      | inr (x, e) ↦ absurd (ground arith)
      | inl (iv, ei) ↦ elim (Result-cases (open_sealed p file key seed iv)) [
        | inr (x, e) ↦ absurd (ground arith)
        | inl (m, em) ↦
            elim (Result-cases (
              encrypt_seed p m key nonce
                (seed_aad_for true true (suc (or_zero file.guardrail_epoch))))) [
                  | inr (x, e) ↦ absurd (ground arith)
                  | inl (ct, ec) ↦ record {
                    seed = seed;
                    iv = iv;
                    mnemonic = m;
                    ct = ct;
                    found_seed = es;
                    found_iv = ei;
                    opened = em;
                    sealed = ec;
                    result = ground arith;
                  }
                ]
      ]
    ]
  ]

  sealed_text :
      (m aad : Text) (ct : p.Bytes)
      → ((aad s : Text) → p.encode (p.encrypt key nonce aad s) ≢ [])
      → encrypt_seed p m key nonce aad ≡ ok ct
      → require_text (some (p.encode ct)) ≡ ok (p.encode ct)
  unfolding encrypt_seed
  sealed_text [] aad ct he h = cc
  sealed_text (c ∷ s) aad ct he h =
      require_text-encode (p.encode ct)
        (subst (λ x. p.encode x ≢ []) (ground arith) (he aad (c ∷ s)))

  -- An advance of the guardrail anchor of a wallet with a salt that returns, where base64 yields no
  -- empty text of a nonce or of a ciphertext: the anchor of the new file has the marker set and the
  -- next epoch, the mnemonic that the passphrase opens under it is the one of before, and the salt,
  -- the backup flag and the address counter are untouched.
  pub advance_keeps_seed :
      (file next : WalletFile) (c : ℕ) (salt : Text)
      → file.salt ≡ some (c ∷ salt)
      → p.encode nonce ≢ []
      → ((aad s : Text) → p.encode (p.encrypt key nonce aad s) ≢ [])
      → advance_guardrail_anchor p key nonce (some file) ≡ ok next
      → (decrypt_mnemonic p (some next) key ≡ decrypt_mnemonic p (some file) key)
        × (read_guardrail_anchor (some next)
            ≡ record { initialized = true; epoch = suc (read_guardrail_anchor (some file)).epoch })
        × (next.salt ≡ file.salt)
        × (next.backup_confirmed ≡ file.backup_confirmed)
        × (next.next_receive_index ≡ file.next_receive_index)
  unfolding decrypt_mnemonic seed_aad
  advance_keeps_seed file next c salt hs hn he h =
      let r = advance-Sealed file next h in
      let aad = seed_aad_for true true (suc (or_zero file.guardrail_epoch)) in
      let same : seed_aad next ≡ aad = rw (r.result, seed_aad) in
      let again = resealed next r.mnemonic aad r.ct r.sealed same in
      let text = sealed_text r.mnemonic aad r.ct he r.sealed in
      let iv = require_text-encode (p.encode nonce) hn in
      (
        ground (arith, r.result, r.found_seed, r.found_iv, r.opened, again, text, iv),
        read-advance (some file) next h,
        ground (arith, r.result),
        ground (arith, r.result),
        ground (arith, r.result),
      )

-- wallet.json as the guardrails' anchor store; `fresh` draws the nonce.
module _ (p : Platform) (key : p.Key) (fresh : Option WalletFile → p.Bytes) where
  unfoldable pub advance_store : Option WalletFile → Result SdkError (Option WalletFile)
  advance_store file = elim (advance_guardrail_anchor p key (fresh file) file) [
    | ok next ↦ ok (some next)
    | err e ↦ err e
  ]

  pub read-advance_store :
      (file next : Option WalletFile)
      → advance_store file ≡ ok next
      → read_guardrail_anchor next
        ≡ record { initialized = true; epoch = suc (read_guardrail_anchor file).epoch }
  unfolding advance_store
  read-advance_store file next h =
      elim (Result-cases (advance_guardrail_anchor p key (fresh file) file)) [
        | inr (x, e) ↦ absurd (ground arith)
        | inl (x, e) ↦ ground (arith, read-advance p key (fresh file) file x e)
      ]

  abbrev pub wallet_anchor : GuardrailAnchorStore
  wallet_anchor = record {
    Store = Option WalletFile;
    read = read_guardrail_anchor;
    advance = advance_store;
    read-advance = read-advance_store;
  }
