-- ===== src/Guardrails/Allowlist/Permits.antt =====
-- The check against the owner's list: a description of the destinations that a resolved allowlist
-- permits, which does not mention the matcher's derived sets.
use depix_sdk.Common.{
  ◌≡◌, refl, ◌↔◌, ◌⊎◌, inl, inr, true, false, Option, some, List, [], ◌∷◌, arith, Option-cases, ok,
  map, ◌≢◌, All,
}
use depix_sdk.Common.Text.{Text, TextOps, text_eq_iff}
use depix_sdk.Guardrails.Config.{ResolvedAllowlist}
use depix_sdk.Guardrails.Allowlist.{
  GuardrailDestination, liquid_address, pix_key, lightning, btc_address, evm_address, tron_address,
  giftcard_beneficiary, sideshift_refund_address, unrepresentable, protocol_bound, AllowlistMatcher,
  has, norm_pix_key, norm_evm, norm_exact, norm_btc_address, liquid_scripts_of, new_matcher,
  check_one, check_each, check,
}

-- Some entry of the list has the same image as the value.
abbrev pub Listed : (Text → Text) → Text → List Text → Type 0
Listed norm v [] = ⊥
Listed norm v (e ∷ es) = (norm e ≡ norm v) ⊎ Listed norm v es

-- Some entry has the script `hex`.
abbrev pub ListedScript : (Text → Option Text) → Text → List Text → Type 0
ListedScript script hex [] = ⊥
ListedScript script hex (e ∷ es) = (script e ≡ some hex) ⊎ ListedScript script hex es

has-Listed :
    (norm : Text → Text) (v : Text) (es : List Text)
    → (has (map norm es) (norm v) ≡ true) ↔ Listed norm v es
has-Listed norm v [] = (λ h. cc, λ h. absurd h)
has-Listed norm v (e ∷ es) = ground (arith, text_eq_iff (norm e) (norm v), has-Listed norm v es)

scripts-ListedScript :
    (script : Text → Option Text) (es hexes : List Text) (hex : Text)
    → liquid_scripts_of script es ≡ ok hexes
    → (has hexes hex ≡ true) ↔ ListedScript script hex es
unfolding liquid_scripts_of
scripts-ListedScript script [] [] hex h = (λ p. cc, λ p. absurd p)
scripts-ListedScript script [] (x ∷ hexes) hex h = absurd (cc h)
scripts-ListedScript script (e ∷ es) [] hex h = ground arith
scripts-ListedScript script (e ∷ es) (x ∷ hexes) hex h =
    ground (arith, text_eq_iff x hex, scripts-ListedScript script es hexes hex)

module _ (t : TextOps) (liquid_script_hex : Text → Option Text) (list : ResolvedAllowlist) where
  -- What the owner's list permits.
  abbrev pub Permits : GuardrailDestination → Type 0
  Permits (liquid_address a) =
      (hex : Text) × (liquid_script_hex a ≡ some hex)
      × ListedScript liquid_script_hex hex list.liquid_addresses
  Permits (pix_key k) = Listed (λ s. t.lower (t.trim s)) k list.pix_keys
  Permits lightning = list.allow_lightning ≡ true
  Permits (btc_address a) = Listed (norm_btc_address t) a list.btc_addresses
  Permits (evm_address a) = Listed (λ s. t.lower (t.trim s)) a list.evm_addresses
  Permits (tron_address a) = Listed t.trim a list.tron_addresses
  Permits (giftcard_beneficiary b) = Listed t.trim b list.giftcard_beneficiaries
  Permits (sideshift_refund_address a) = Listed t.trim a list.sideshift_refund_addresses
  Permits (unrepresentable class) = ⊥
  Permits protocol_bound = Unit

  module _ (m : AllowlistMatcher) (built : new_matcher t liquid_script_hex list ≡ ok m) where
    check_one_iff :
        (d : GuardrailDestination) → (check_one t liquid_script_hex m d ≡ ok tt) ↔ Permits d
    unfolding check_one new_matcher norm_pix_key norm_evm norm_exact
    check_one_iff (liquid_address a) = elim (Option-cases (liquid_script_hex a)) [
      | inl e ↦ ground arith
      | inr (hex, e) ↦
          ground (
            arith,
            scripts-ListedScript liquid_script_hex list.liquid_addresses m.liquid_scripts hex,
          )
    ]
    check_one_iff (pix_key k) = ground (arith, has-Listed (λ s. t.lower (t.trim s)) k list.pix_keys)
    check_one_iff lightning = ground arith
    check_one_iff (btc_address a) =
        ground (arith, has-Listed (norm_btc_address t) a list.btc_addresses)
    check_one_iff (evm_address a) =
        ground (arith, has-Listed (λ s. t.lower (t.trim s)) a list.evm_addresses)
    check_one_iff (tron_address a) = ground (arith, has-Listed t.trim a list.tron_addresses)
    check_one_iff (giftcard_beneficiary b) =
        ground (arith, has-Listed t.trim b list.giftcard_beneficiaries)
    check_one_iff (sideshift_refund_address a) =
        ground (arith, has-Listed t.trim a list.sideshift_refund_addresses)
    check_one_iff (unrepresentable class) = ground arith
    check_one_iff protocol_bound = ground arith

    check_each_iff :
        (ds : List GuardrailDestination)
        → (check_each t liquid_script_hex m ds ≡ ok tt) ↔ All Permits ds
    unfolding check_each
    check_each_iff [] = (λ h. tt, λ h. refl)
    check_each_iff (d ∷ ds) = ground (arith, check_one_iff d, check_each_iff ds)

    -- The check passes exactly when the allowlist is off, or the operation names at least one
    -- destination and the owner's list permits each of them.
    pub check_iff :
        (ds : List GuardrailDestination)
        → (check t liquid_script_hex m ds ≡ ok tt)
          ↔ ((list.enabled ≡ false) ⊎ ((ds ≢ []) × All Permits ds))
    unfolding check new_matcher
    check_iff [] = ground arith
    check_iff (d ∷ ds) = ground (arith, check_each_iff (d ∷ ds))
