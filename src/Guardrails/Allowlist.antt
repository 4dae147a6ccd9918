-- ===== src/Guardrails/Allowlist.antt =====
-- src/guardrails/allowlist.ts: destinations, the matcher built from the resolved allowlist, and its
-- check. The script of a Liquid address is computed by the wallet engine (LWK), a parameter here:
-- `none` is an address that it does not parse.
pub mod Permits
mod Tests
use Prim.Native.String.{String}
use depix_sdk.Common.{
  ℕ, Bool, true, false, Option, none, some, List, [], ◌∷◌, ◌+◌, if◌then◌else◌, Result, ok, err,
  ◌>>=◌, ◌>>◌, throw_if, ◌||◌, ◌&&◌, not, any, map, leb, ◌==◌,
}
use depix_sdk.Common.Text.{Text, TextOps, text_eq, codes, is_digit}
use depix_sdk.Errors.{SdkError, guardrail_config_invalid, guardrail_allowlist_blocked}
use depix_sdk.Guardrails.Config.{ResolvedAllowlist}

pub data GuardrailDestination : Type 0 where
  liquid_address pix_key : Text → GuardrailDestination
  lightning : GuardrailDestination
  btc_address evm_address tron_address : Text → GuardrailDestination
  giftcard_beneficiary sideshift_refund_address : Text → GuardrailDestination
  unrepresentable : String → GuardrailDestination
  protocol_bound : GuardrailDestination

-- The sets that the constructor derives, as lists.
pub record AllowlistMatcher : Type 0 where
  pub allowlist : ResolvedAllowlist
  pub liquid_scripts : List Text
  pub pix_keys : List Text
  pub btc_addresses : List Text
  pub evm_addresses : List Text
  pub tron_addresses : List Text
  pub giftcard_beneficiaries : List Text
  pub sideshift_refund_addresses : List Text

-- `Set.prototype.has`.
abbrev pub has : List Text → Text → Bool
has set key = any (λ entry. text_eq entry key) set

-- One character of ASCII in lower case, which is all that the test below ignores by its flag `i`.
abbrev pub lower_ascii : ℕ → ℕ
lower_ascii c = if leb b'A' c && leb c b'Z' then c + 32 else c

abbrev pub is_bech32_char : ℕ → Bool
is_bech32_char c = is_digit c || leb b'a' (lower_ascii c) && leb (lower_ascii c) b'z'

abbrev pub all_bech32 : Text → Bool
all_bech32 [] = true
all_bech32 (c ∷ s) = is_bech32_char c && all_bech32 s

abbrev pub some_bech32 : Text → Bool
some_bech32 [] = false
some_bech32 (c ∷ s) = is_bech32_char c && all_bech32 s

-- What follows `prefix` in the text, the case of letters ignored.
abbrev pub after_prefix : Text → Text → Option Text
after_prefix [] s = some s
after_prefix (p ∷ ps) [] = none
after_prefix (p ∷ ps) (c ∷ s) = if p == lower_ascii c then after_prefix ps s else none

abbrev pub tail_is_bech32 : Option Text → Bool
tail_is_bech32 none = false
tail_is_bech32 (some s) = some_bech32 s

-- The test `/^(bc1|tb1|bcrt1)[0-9a-z]+$/i`.
unfoldable pub is_bech32 : Text → Bool
is_bech32 s =
    tail_is_bech32 (after_prefix (codes "bc1") s)
    || (tail_is_bech32 (after_prefix (codes "tb1") s)
        || tail_is_bech32 (after_prefix (codes "bcrt1") s))

module _ (t : TextOps) where
  unfoldable pub norm_pix_key : Text → Text
  norm_pix_key k = t.lower (t.trim k)

  unfoldable pub norm_evm : Text → Text
  norm_evm a = t.lower (t.trim a)

  unfoldable pub norm_exact : Text → Text
  norm_exact s = t.trim s

  unfoldable pub norm_btc_address : Text → Text
  norm_btc_address a = let s = t.trim a in if is_bech32 s then t.lower s else s

unfoldable pub liquid_scripts_of : (Text → Option Text) → List Text → Result SdkError (List Text)
liquid_scripts_of liquid_script_hex [] = ok []
liquid_scripts_of liquid_script_hex (a ∷ rest) =
    let hexes = liquid_scripts_of liquid_script_hex rest in
    elim (liquid_script_hex a) [
      | some hex ↦ (hexes >>= λ hs. ok (hex ∷ hs))
      | none ↦ err guardrail_config_invalid
    ]

module _ (t : TextOps) (liquid_script_hex : Text → Option Text) where
  -- The constructor.
  unfoldable pub new_matcher : ResolvedAllowlist → Result SdkError AllowlistMatcher
  new_matcher allowlist = do
    scripts ← liquid_scripts_of liquid_script_hex allowlist.liquid_addresses
    ok (record {
      allowlist = allowlist;
      liquid_scripts = scripts;
      pix_keys = map (norm_pix_key t) allowlist.pix_keys;
      btc_addresses = map (norm_btc_address t) allowlist.btc_addresses;
      evm_addresses = map (norm_evm t) allowlist.evm_addresses;
      tron_addresses = map (norm_exact t) allowlist.tron_addresses;
      giftcard_beneficiaries = map (norm_exact t) allowlist.giftcard_beneficiaries;
      sideshift_refund_addresses = map (norm_exact t) allowlist.sideshift_refund_addresses;
    })

  unfoldable pub check_one : AllowlistMatcher → GuardrailDestination → Result SdkError (Unit {0})
  check_one m protocol_bound = ok tt
  check_one m (liquid_address a) = elim (liquid_script_hex a) [
    | none ↦ err (guardrail_allowlist_blocked "liquidAddress")
    | some hex ↦
        throw_if (not (has m.liquid_scripts hex)) (guardrail_allowlist_blocked "liquidAddress")
  ]
  check_one m (pix_key k) =
      throw_if (not (has m.pix_keys (norm_pix_key t k))) (guardrail_allowlist_blocked "pixKey")
  check_one m lightning =
      throw_if (not m.allowlist.allow_lightning) (guardrail_allowlist_blocked "lightning")
  check_one m (btc_address a) =
      throw_if (not (has m.btc_addresses (norm_btc_address t a)))
        (guardrail_allowlist_blocked "btcAddress")
  check_one m (evm_address a) =
      throw_if (not (has m.evm_addresses (norm_evm t a))) (guardrail_allowlist_blocked "evmAddress")
  check_one m (tron_address a) =
      throw_if (not (has m.tron_addresses (norm_exact t a)))
        (guardrail_allowlist_blocked "tronAddress")
  check_one m (giftcard_beneficiary b) =
      throw_if (not (has m.giftcard_beneficiaries (norm_exact t b)))
        (guardrail_allowlist_blocked "giftcardBeneficiary")
  check_one m (sideshift_refund_address a) =
      throw_if (not (has m.sideshift_refund_addresses (norm_exact t a)))
        (guardrail_allowlist_blocked "sideshiftRefundAddress")
  check_one m (unrepresentable class) = err (guardrail_allowlist_blocked class)

  unfoldable pub check_each :
      AllowlistMatcher → List GuardrailDestination → Result SdkError (Unit {0})
  check_each m [] = ok tt
  check_each m (d ∷ rest) = check_one m d >> check_each m rest

  unfoldable pub check_enabled :
      AllowlistMatcher → List GuardrailDestination → Result SdkError (Unit {0})
  unfolding check_each
  check_enabled m [] = err (guardrail_allowlist_blocked "unspecified")
  check_enabled m (d ∷ rest) = check_each m (d ∷ rest)

  -- `check(destinations)`.
  unfoldable pub check : AllowlistMatcher → List GuardrailDestination → Result SdkError (Unit {0})
  unfolding check_enabled
  check m destinations = if m.allowlist.enabled then check_enabled m destinations else ok tt
