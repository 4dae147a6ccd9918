-- ===== src/Seed/Tamper.antt =====
-- An anchor that was edited in the wallet file.
use depix_sdk.Common.{
  ℕ, ◌≡◌, ◌≢◌, refl, sym, ap, subst, ◌∙◌, Bool, true, false, Option, some, [], ◌∷◌, ◌++◌,
  if◌then◌else◌, ok, err, ◌>>=◌, is_ok, Result-cases, arith, Option-cases, inl, inr,
}
use depix_sdk.Common.Text.{Text, codes, decimal_from}
use depix_sdk.Errors.{wrong_passphrase}
use depix_sdk.Crypto.{Platform}
use depix_sdk.Common.Decimal.{decimal, decimal_from-decimal}
use depix_sdk.Seed.{
  WalletFile, or_zero, is_true, seed_aad_for, seed_aad, require_text, decode_or_throw, decrypt_seed,
  open_sealed, decrypt_mnemonic, read_guardrail_anchor,
}

-- Different epochs have different digits.
decimal_inj : (m n : ℕ) → decimal m ≡ decimal n → m ≡ n
decimal_inj m n e = sym (decimal_from-decimal m) ∙ (ap (decimal_from 0) e ∙ decimal_from-decimal n)

abbrev tail : Text → Text
tail [] = []
tail (c ∷ s) = s

abbrev head : Text → ℕ
head [] = 0
head (c ∷ s) = c

abbrev marker : Bool → ℕ
marker b = if b then b'1' else b'0'

marker_inj : (i j : Bool) → marker i ≡ marker j → i ≡ j
marker_inj true true e = refl
marker_inj false false e = refl
marker_inj true false e = absurd (omega (arith, e))
marker_inj false true e = absurd (omega (arith, e))

cancel : (s t u : Text) → s ++ t ≡ s ++ u → t ≡ u
cancel [] t u e = e
cancel (c ∷ s) t u e = cancel s t u (ap tail e)

-- Associated data of a version 2 seed that agrees names the same anchor, and no other version's does.
seed_aad_for_inj :
    (version i j : Bool) (m n : ℕ)
    → seed_aad_for version i m ≡ seed_aad_for true j n
    → (i ≡ j) × (m ≡ n)
unfolding seed_aad_for
seed_aad_for_inj false i j m n e = absurd (ground arith)
seed_aad_for_inj true i j m n e =
    let rest = cancel (codes "depix-sdk-seed-anchor-v1|init=") _ _ e in
    (marker_inj i j (ap head rest), decimal_inj m n (cancel (codes "|epoch=") _ _ (ap tail rest)))

required_some : (t s : Text) → require_text (some t) ≡ ok s → s ≡ t
required_some [] s f = cc
required_some (c ∷ t) s f = ground arith

required : (o : Option Text) (t s : Text) → o ≡ some t → require_text o ≡ ok s → s ≡ t
required o t s e f = required_some t s (subst (λ x. require_text x ≡ ok s) e f)

-- The file with the fields of the anchor rewritten.
abbrev pub edited : WalletFile → Bool → Option Bool → Option ℕ → WalletFile
edited file version initialized epoch = record file {
  is_version_2 = version;
  guardrails_state_initialized = initialized;
  guardrail_epoch = epoch;
}

module _ (p : Platform) where
  -- An envelope does not open under other associated data.
  open_sealed-other :
      (file : WalletFile) (key : p.Key) (nonce : p.Bytes) (aad mnemonic : Text)
      → seed_aad file ≢ aad
      → open_sealed p file key (p.encode (p.encrypt key nonce aad mnemonic)) (p.encode nonce)
        ≡ err wrong_passphrase
  unfolding open_sealed decode_or_throw decrypt_seed
  open_sealed-other file key nonce aad mnemonic n =
      elim (Option-cases (p.decrypt key nonce (seed_aad file) (p.encrypt key nonce aad mnemonic))) [
        | inl e ↦
            rw
              (
                p.decode-encode (p.encrypt key nonce aad mnemonic),
                p.decode-encode nonce,
                ◌>>=◌,
                decrypt_seed,
                e,
              )
              refl
        | inr (s, e) ↦ absurd (n (p.decrypt-aad key nonce aad (seed_aad file) mnemonic s e))
      ]

  opens_not :
      (file : WalletFile) (key : p.Key) (nonce : p.Bytes) (aad mnemonic : Text)
      → file.encrypted_seed ≡ some (p.encode (p.encrypt key nonce aad mnemonic))
      → file.iv ≡ some (p.encode nonce)
      → seed_aad file ≢ aad
      → is_ok (decrypt_mnemonic p (some file) key) ≡ false
  unfolding decrypt_mnemonic
  opens_not file key nonce aad mnemonic sealed iv n =
      elim (Result-cases (require_text file.encrypted_seed)) [
        | inr (e, f) ↦ rw f refl
        | inl (seed, f) ↦ elim (Result-cases (require_text file.salt)) [
          | inr (e, g) ↦ rw (f, ◌>>=◌, g) refl
          | inl (salt, g) ↦ elim (Result-cases (require_text file.iv)) [
            | inr (e, h) ↦ rw (f, ◌>>=◌, g, h) refl
            | inl (v, h) ↦
                let seed_is : seed ≡ p.encode (p.encrypt key nonce aad mnemonic) =
                  required _ _ seed sealed f in
                let iv_is : v ≡ p.encode nonce = required _ _ v iv h in
                rw (f, ◌>>=◌, g, h, seed_is, iv_is, open_sealed-other file key nonce aad mnemonic n)
                  refl
          ]
        ]
      ]

  -- A version 2 seed that was sealed under the anchor of its file does not open once the file names
  -- another anchor, whatever version the edited file claims. The edit keeps the declared types: a
  -- marker that is true, false or left out, and an epoch that is a natural number or left out.
  pub tampered_anchor :
      (file : WalletFile) (key : p.Key) (nonce : p.Bytes) (mnemonic : Text) (version : Bool)
      (initialized : Option Bool) (epoch : Option ℕ)
      → file.is_version_2 ≡ true
      → file.encrypted_seed ≡ some (p.encode (p.encrypt key nonce (seed_aad file) mnemonic))
      → file.iv ≡ some (p.encode nonce)
      → read_guardrail_anchor (some (edited file version initialized epoch))
        ≢ read_guardrail_anchor (some file)
      → is_ok (decrypt_mnemonic p (some (edited file version initialized epoch)) key) ≡ false
  unfolding seed_aad read_guardrail_anchor
  tampered_anchor file key nonce mnemonic version initialized epoch two sealed iv n =
      opens_not (edited file version initialized epoch) key nonce (seed_aad file) mnemonic sealed iv
        (λ e.
          let same =
            seed_aad_for_inj version (is_true initialized)
              (is_true file.guardrails_state_initialized) (or_zero epoch)
              (or_zero file.guardrail_epoch)
              (e
                ∙ ap
                    (λ b.
                      seed_aad_for b (is_true file.guardrails_state_initialized)
                        (or_zero file.guardrail_epoch))
                    two) in
          n (rw (same.0, same.1) refl))
