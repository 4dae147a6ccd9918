-- ===== src/Guardrails/Tests.antt =====
-- Concrete runs of the guardrails, over the sample platform and a wallet file with a sealed seed.
use depix_sdk.Common.{
  ◌≤◌, ◌≡◌, refl, true, false, Option, none, some, [], ◌∷◌, arith, Result, ok, err, is_ok,
}
use depix_sdk.Common.Text.{Text, TextOps, codes}
use depix_sdk.Common.Js.{pos, str, all_finite}
use depix_sdk.Errors.{SdkError}
use depix_sdk.Crypto.Sample.{sample, encrypt, decrypt}
use depix_sdk.Common.Decimal.{decimal}
use depix_sdk.Seed.{
  WalletFile, seed_aad_for, read_guardrail_anchor, seed_aad, open_sealed, encrypt_seed,
  decrypt_seed, decode_or_throw, advance_guardrail_anchor,
}
use depix_sdk.Seed.Survival.{wallet_anchor, advance_store}
use depix_sdk.Guardrails.Anchor.{GuardrailAnchorStore}
use depix_sdk.Guardrails.Config.{no_allowlist}
use depix_sdk.Guardrails.Allowlist.{AllowlistMatcher, check}
use depix_sdk.Guardrails.StateFile.{State, read_state, state_text}
use depix_sdk.Guardrails.StateFile.RoundTrip.{read_state-state_text}
use depix_sdk.Guardrails.Window.{
  Guardrails, Disk, GuardrailIntent, enforce, usage, record_spend, record_window, load_window,
}
use depix_sdk.Guardrails.FailClosed.{untrusted_blocks}
use depix_sdk.Guardrails.Cap.{World, spend, delete, Reach, here, next, spent}
use depix_sdk.Guardrails.Cap.Ceiling.{daily_ceiling}

-- No text here has white space at its ends or capitals.
abbrev plain : TextOps
plain = record { trim = λ s. s; lower = λ s. s; trim-trim = λ s. refl; lower-lower = λ s. refl }

abbrev open_matcher : AllowlistMatcher
open_matcher = record {
  allowlist = no_allowlist;
  liquid_scripts = [];
  pix_keys = [];
  btc_addresses = [];
  evm_addresses = [];
  tron_addresses = [];
  giftcard_beneficiaries = [];
  sideshift_refund_addresses = [];
}

-- R$ 100.00 for one transaction and R$ 500.00 for a day.
abbrev limits : Guardrails sample
limits = record {
  per_tx_limit_brl_cents = 10000;
  daily_limit_brl_cents = 50000;
  matcher = open_matcher;
  state_key = 7;
  text_ops = plain;
  liquid_script_hex = some;
}

abbrev new_wallet : WalletFile
new_wallet = record {
  is_version_2 = true;
  encrypted_seed = some (encrypt 7 [] (seed_aad_for true false 0) (codes "abandon"));
  salt = some (codes "salt");
  iv = some (codes "iv");
  backup_confirmed = true;
  next_receive_index = 0;
  guardrails_state_initialized = some false;
  guardrail_epoch = some 0;
}

abbrev anchor : GuardrailAnchorStore
anchor = wallet_anchor sample 7 (λ file. codes "nonce")

abbrev pay : GuardrailIntent
pay = record { kind = codes "send"; brl_cents = pos 9000; destinations = [] }

-- The disk before the first spend, and after it.
abbrev before : Disk anchor
before = (some new_wallet, none)

abbrev ok_or : {A : Type 0} → Result SdkError A → A → A
ok_or (ok a) b = a
ok_or (err e) b = b

abbrev text_or_empty : Option Text → Text
text_or_empty (some s) = s
text_or_empty none = []

abbrev paid : Disk anchor × Disk anchor
paid =
    ok_or
      (record_spend sample anchor limits 1000 1001 (codes "iv") before (pos 9000) (codes "send"))
      (before, before)

abbrev start : World sample anchor limits
start = record { disk = before; log = []; written = []; clock = 0 }

abbrev raw : Text
raw = text_or_empty paid.1.1

first_spend_passes : enforce sample anchor limits 1000 before pay ≡ ok tt
unfolding enforce check load_window read_guardrail_anchor
first_spend_passes = refl

first_spend_recorded :
    record_spend sample anchor limits 1000 1001 (codes "iv") before (pos 9000) (codes "send")
    ≡ ok (paid.0, (paid.1.0, some raw))
unfolding record_spend record_window load_window advance_store advance_guardrail_anchor open_sealed
    decode_or_throw decrypt_seed encrypt_seed seed_aad seed_aad_for decimal decrypt encrypt
    read_guardrail_anchor
first_spend_recorded = refl

-- With the anchor moved on, the state file is deleted.
after_first : Reach sample anchor limits start (record start {
  disk = (paid.1.0, none);
  log = (1001, 9000) ∷ [];
  written = raw ∷ [];
  clock = 1001;
})
after_first =
    next
      (next here (
        spend 1000 1000 1001 9000 (codes "iv") pay (codes "send") paid.1.0 raw paid.0 (omega arith)
          (omega arith) (omega arith) refl first_spend_passes first_spend_recorded))
      delete

daily_ceiling_example : spent 2000 ((1001, 9000) ∷ []) ≤ 50000
unfolding read_guardrail_anchor
daily_ceiling_example =
    daily_ceiling sample anchor limits start _ 2000
      (record { unmarked = refl; unopened = refl; no_log = refl; no_files = refl }) after_first
      (omega arith)

untrusted_blocks_example :
    (is_ok (enforce sample anchor limits 1002 (paid.1.0, none) pay) ≡ false)
    × (is_ok
          (record_spend sample anchor limits 1002 1003 [] (paid.1.0, none) (pos 5) (codes "send"))
        ≡ false)
    × ((usage sample anchor limits 1002 (paid.1.0, none)).remaining_cents ≡ 0)
unfolding record_spend record_window load_window advance_store advance_guardrail_anchor open_sealed
    decode_or_throw decrypt_seed encrypt_seed seed_aad seed_aad_for decimal decrypt encrypt
    read_guardrail_anchor
untrusted_blocks_example =
    untrusted_blocks sample anchor limits (paid.1.0, none) 1002 1003 [] pay (pos 5) (codes "send")
      (record { marked = refl; mismatch = λ s e. absurd (cc e) })

abbrev window : State
window = record {
  epoch = 3;
  entries = record { ts = pos 1001; brl_cents = 9000; kind = some (str (codes "send")) } ∷ [];
}

read_state-state_text_example :
    read_state sample 7 (state_text sample 7 (codes "iv") window) ≡ some window
unfolding all_finite
read_state-state_text_example =
    read_state-state_text sample 7 (codes "iv") window ((omega arith, omega arith), tt)
      ((refl, refl), tt) (omega arith)
