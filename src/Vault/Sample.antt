-- ===== src/Vault/Sample.antt =====
-- A concrete vault: a seal keeps the key, the associated data and the record, and opens to those
-- who name the same.
use depix_sdk.Common.{◌≡◌, ℕ, Option, none, some, if◌then◌else◌, arith, ◌&&◌, ◌==◌}
use depix_sdk.Common.Text.{Text, text_eq, text_eq_refl, text_eq_sound}
use depix_sdk.Vault.{Vault}

pub record Box (R : Type 0) : Type 0 where
  pub key : ℕ
  pub iv : Text
  pub aad : Text
  pub content : R

abbrev pub open_box : {R : Type 0} → ℕ → Text → Box R → Option R
open_box k aad b = if (k == b.key) && text_eq aad b.aad then some b.content else none

module _ {R : Type 0} where
  pub open_box-own :
      (k : ℕ) (iv aad : Text) (r : R)
      → open_box k aad (record { key = k; iv = iv; aad = aad; content = r }) ≡ some r
  open_box-own k iv aad r = ground (arith, text_eq_refl aad)

  pub open_box-aad :
      (k : ℕ) (iv aad aad' : Text) (r r' : R)
      → open_box k aad' (record { key = k; iv = iv; aad = aad; content = r }) ≡ some r'
      → aad' ≡ aad
  open_box-aad k iv aad aad' r r' h = ground (arith, text_eq_sound aad' aad)

abbrev pub sample_vault : (R : Type 0) → Vault R
sample_vault R = record {
  Key = ℕ;
  Sealed = Box R;
  seal = λ k iv aad r. record { key = k; iv = iv; aad = aad; content = r };
  unseal = open_box;
  unseal-seal = open_box-own;
  unseal-aad = open_box-aad;
}
