-- ===== src/Withdraw/Outputs.antt =====
-- What a transaction pays that passes the check before the signature.
use depix_sdk.Common.{
  ℕ, ◌≡◌, refl, ap, sym, subst, Bool, true, false, not, Option, none, some, List, [], ◌∷◌,
  if◌then◌else◌, ==_iff, ok, arith, ◌>>=◌, ◌>>◌, throw_if, Bool-cases, inl, inr, ◌⊎◌, ◌↔◌,
}
use depix_sdk.Common.Text.{Text, text_eq, text_eq_iff, text_eq_refl, text_eq_sound}
use depix_sdk.Errors.{SdkError, withdraw_split_mismatch}
use depix_sdk.Withdraw.{
  PsetOutput, WithdrawOutputExpectation, depix_asset_id, assert_explicit_fee, assert_fee,
  assert_fee_output, output_to, is_there, is_amount, assert_withdraw_pset_outputs,
}

-- Some output pays the script.
abbrev pub Pays : Text → List PsetOutput → Type 0
Pays script [] = ⊥
Pays script (o ∷ rest) = (o.script_pubkey ≡ script) ⊎ Pays script rest

-- Both are readable on chain: this amount, of DePix.
abbrev pub IsFee : Option ℕ → Option ℕ → Option Text → Type 0
IsFee expected amount asset =
    (n : ℕ) × (amount ≡ some n) × (expected ≡ some n) × (asset ≡ some depix_asset_id)

-- The first output to the script carries the fee.
abbrev pub FirstPays : Text → Option ℕ → List PsetOutput → Type 0
FirstPays script amount [] = ⊥
FirstPays script amount (o ∷ rest) =
    if text_eq o.script_pubkey script
    then IsFee amount o.amount o.asset
    else FirstPays script amount rest

abbrev pub FeePaid : Option Text → Option ℕ → List PsetOutput → Type 0
FeePaid none amount outputs = Unit
FeePaid (some script) amount outputs = FirstPays script amount outputs

output_to_iff :
    (script : Text) (outputs : List PsetOutput)
    → (is_there (output_to script outputs) ≡ true) ↔ Pays script outputs
unfolding output_to
output_to_iff script [] = ground arith
output_to_iff script (o ∷ rest) =
    ground (arith, output_to_iff script rest, text_eq_iff o.script_pubkey script)

is_amount_sound : (n : ℕ) (expected : Option ℕ) → is_amount n expected ≡ true → expected ≡ some n
is_amount_sound n none h = cc
is_amount_sound n (some m) h = ap some (sym ((==_iff n m).0 h))

is_amount-some :
    (n : ℕ) (expected : Option ℕ) (k : ℕ)
    → some n ≡ some k
    → expected ≡ some k
    → is_amount n expected ≡ true
is_amount-some n expected k e f = rw f (ground arith)

abbrev is_asset : Option Text → Bool
is_asset none = false
is_asset (some a) = text_eq a depix_asset_id

is_depix : (asset : Text) → some asset ≡ some depix_asset_id → text_eq asset depix_asset_id ≡ true
is_depix asset e = subst (λ o. is_asset o ≡ true) (sym e) (text_eq_refl depix_asset_id)

assert_explicit_fee_iff :
    (expected amount : Option ℕ) (asset : Option Text)
    → (assert_explicit_fee expected amount asset ≡ ok tt) ↔ IsFee expected amount asset
unfolding assert_explicit_fee
assert_explicit_fee_iff expected none asset = (λ h. cc, λ f. cc (f.1))
assert_explicit_fee_iff expected (some n) none = (λ h. cc, λ f. cc (f.3))
assert_explicit_fee_iff expected (some n) (some asset) = (
  λ h. elim (Bool-cases (is_amount n expected)) [
    | inr e ↦ absurd (
        cc (
          subst
            (λ b.
              (throw_if (not b) withdraw_split_mismatch
                >> throw_if (not (text_eq asset depix_asset_id)) withdraw_split_mismatch)
              ≡ ok tt)
            e h))
    | inl e ↦ elim (Bool-cases (text_eq asset depix_asset_id)) [
      | inr d ↦ absurd (
          cc (
            subst (λ b. throw_if {E = SdkError} (not b) withdraw_split_mismatch ≡ ok tt) d
              (subst
                (λ b.
                  (throw_if (not b) withdraw_split_mismatch
                    >> throw_if (not (text_eq asset depix_asset_id)) withdraw_split_mismatch)
                  ≡ ok tt)
                e h)))
      | inl d ↦
          (n, refl, is_amount_sound n expected e, ap some (text_eq_sound asset depix_asset_id d))
    ]
  ],
  λ f. rw (is_amount-some n expected f.0 f.1 f.2, is_depix asset f.3, not, throw_if) refl,
)

assert_fee_output_iff :
    (script : Text) (fee_sats : Option ℕ) (outputs : List PsetOutput)
    → (assert_fee_output fee_sats (output_to script outputs) ≡ ok tt)
      ↔ FirstPays script fee_sats outputs
unfolding output_to
assert_fee_output_iff script fee_sats [] = (λ h. cc, λ h. absurd h)
assert_fee_output_iff script fee_sats (o ∷ rest) =
    elim (Bool-cases (text_eq o.script_pubkey script)) [
      | inl e ↦ rw (e, if◌then◌else◌) (assert_explicit_fee_iff fee_sats o.amount o.asset)
      | inr e ↦ rw (e, if◌then◌else◌) (assert_fee_output_iff script fee_sats rest)
    ]

assert_fee_iff :
    (script : Option Text) (fee_sats : Option ℕ) (outputs : List PsetOutput)
    → (assert_fee script fee_sats outputs ≡ ok tt) ↔ FeePaid script fee_sats outputs
unfolding assert_fee
assert_fee_iff none fee_sats outputs = (λ h. tt, λ h. refl)
assert_fee_iff (some script) fee_sats outputs = assert_fee_output_iff script fee_sats outputs

-- The check passes exactly when some output pays the deposit script and, where a fee is expected, the
-- first output to the fee script is readable on chain and carries the fee in DePix.
pub assert_withdraw_pset_outputs_iff :
    (outputs : List PsetOutput) (expect : WithdrawOutputExpectation)
    → (assert_withdraw_pset_outputs outputs expect ≡ ok tt) ↔ (
        Pays expect.deposit_script_hex outputs
        × FeePaid expect.fee_script_hex expect.fee_sats outputs)
unfolding assert_withdraw_pset_outputs
assert_withdraw_pset_outputs_iff outputs expect =
    elim (Bool-cases (is_there (output_to expect.deposit_script_hex outputs))) [
      | inr e ↦ (
        λ h. absurd (ground arith),
        λ h. absurd (cc ((output_to_iff expect.deposit_script_hex outputs).1 h.0, e)),
      )
      | inl e ↦
          rw (e, not, throw_if, ◌>>=◌)
            (
              λ h. (
                (output_to_iff expect.deposit_script_hex outputs).0 e,
                (assert_fee_iff expect.fee_script_hex expect.fee_sats outputs).0 h,
              ),
              λ h. (assert_fee_iff expect.fee_script_hex expect.fee_sats outputs).1 h.1,
            )
    ]
