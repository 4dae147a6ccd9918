-- ===== src/Guardrails/Allowlist/Tests.antt =====
-- The check at a list with one Pix key.
use depix_sdk.Common.{
  ◌≡◌, ◌≢◌, refl, ◌↔◌, ◌⊎◌, true, false, some, [], ◌∷◌, arith, ok, err, All, map,
}
use depix_sdk.Common.Text.{Text, TextOps, codes}
use depix_sdk.Errors.{guardrail_allowlist_blocked}
use depix_sdk.Guardrails.Config.{ResolvedAllowlist, no_allowlist}
use depix_sdk.Guardrails.Allowlist.{
  AllowlistMatcher, pix_key, tron_address, protocol_bound, check, check_one, new_matcher,
  lower_ascii, liquid_scripts_of, norm_pix_key, norm_exact, is_bech32,
}
use depix_sdk.Guardrails.Allowlist.Permits.{Permits, check_iff}

-- Lower case of ASCII, and no trimming.
lower_twice : (s : Text) → map lower_ascii (map lower_ascii s) ≡ map lower_ascii s
lower_twice [] = refl
lower_twice (c ∷ s) = ground (arith, lower_twice s)

abbrev ascii : TextOps
ascii = record {
  trim = λ s. s;
  lower = λ s. map lower_ascii s;
  trim-trim = λ s. refl;
  lower-lower = lower_twice;
}

abbrev owner : ResolvedAllowlist
owner = record no_allowlist { enabled = true; pix_keys = codes "Ana@Example.com" ∷ [] }

abbrev matcher : AllowlistMatcher
matcher = record {
  allowlist = owner;
  liquid_scripts = [];
  pix_keys = codes "ana@example.com" ∷ [];
  btc_addresses = [];
  evm_addresses = [];
  tron_addresses = [];
  giftcard_beneficiaries = [];
  sideshift_refund_addresses = [];
}

built : new_matcher ascii some owner ≡ ok matcher
unfolding new_matcher liquid_scripts_of norm_pix_key
built = refl

listed_key :
    check ascii some matcher (pix_key (codes "ANA@example.com") ∷ protocol_bound ∷ []) ≡ ok tt
unfolding check check_one norm_pix_key
listed_key = refl

unlisted_class :
    check ascii some matcher (tron_address (codes "T1") ∷ [])
    ≡ err (guardrail_allowlist_blocked "tronAddress")
unfolding check check_one norm_exact
unlisted_class = refl

bech32_shapes : (is_bech32 (codes "BC1Qxy") ≡ true) × (is_bech32 (codes "3J98t") ≡ false)
unfolding is_bech32
bech32_shapes = (refl, refl)

check_iff_example :
    let ds = pix_key (codes "ana@example.com") ∷ [] in
    (check ascii some matcher ds ≡ ok tt)
    ↔ ((true ≡ false) ⊎ ((ds ≢ []) × All (Permits ascii some owner) ds))
check_iff_example =
    check_iff ascii some owner matcher built (pix_key (codes "ana@example.com") ∷ [])
