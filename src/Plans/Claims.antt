-- ===== src/Plans/Claims.antt =====
-- What a claim of a leg changes, and that no leg of a plan is claimed twice.
use depix_sdk.Common.{
  ℕ, zero, suc, ◌≡◌, refl, Option, none, some, List, [], ◌∷◌, ok, Result-cases, Option-cases, inl,
  inr, arith, Ensures, ◌⊎◌,
}
use depix_sdk.Common.Text.{Text}
use depix_sdk.Vault.{Vault, read_envelopes}
use depix_sdk.Plans.{
  StoredConversionPlan, StoredPlanLegResult, claimed, leg_result, set_leg_result, claim_record,
  Plans, find_plan, decrypt, claim_leg,
}
use depix_sdk.Plans.Rewrites.{IsRewritten}

pub leg_result-set_same :
    (i : ℕ) (s : StoredPlanLegResult) (rs : List (Option StoredPlanLegResult))
    → leg_result i (set_leg_result i s rs) ≡ some s
unfolding leg_result set_leg_result
leg_result-set_same zero s [] = refl
leg_result-set_same zero s (x ∷ rs) = refl
leg_result-set_same (suc i) s [] = leg_result-set_same i s []
leg_result-set_same (suc i) s (x ∷ rs) = leg_result-set_same i s rs

-- A leg that has a result has one after any assignment.
pub leg_result-set_keeps :
    (i j : ℕ) (s t : StoredPlanLegResult) (rs : List (Option StoredPlanLegResult))
    → leg_result i rs ≡ some s
    → (u : StoredPlanLegResult) × (leg_result i (set_leg_result j t rs) ≡ some u)
unfolding leg_result set_leg_result
leg_result-set_keeps i j s t [] h = cc
leg_result-set_keeps zero zero s t (x ∷ rs) h = (t, refl)
leg_result-set_keeps zero (suc j) s t (x ∷ rs) h = (s, h)
leg_result-set_keeps (suc i) zero s t (x ∷ rs) h = (s, h)
leg_result-set_keeps (suc i) (suc j) s t (x ∷ rs) h = leg_result-set_keeps i j s t rs h

pub claim_record_id : (i : ℕ) (r : StoredConversionPlan) → (claim_record i r).plan_id ≡ r.plan_id
unfolding claim_record
claim_record_id i r = refl

module _ (v : Vault StoredConversionPlan) (key : v.Key) where
  -- What a call of `claimLeg` that returned `claimed` went through.
  pub record IsClaimed (iv plan : Text) (leg : ℕ) (file file' : Plans v) : Type 0 where
    pub rewrites : IsRewritten v key iv plan (claim_record leg) file file'
    pub free : leg_result leg rewrites.before.leg_results ≡ none

  pub claim_leg-claimed :
      (iv plan : Text) (leg : ℕ) (file file' : Plans v)
      → claim_leg v key iv plan leg file ≡ ok (claimed, file')
      → IsClaimed iv plan leg file file'
  unfolding claim_leg
  claim_leg-claimed iv plan leg file file' h = elim (Result-cases (read_envelopes file)) [
    | inr (x, e) ↦ absurd (ground arith)
    | inl (es, e) ↦ elim (Option-cases (find_plan v plan es)) [
      | inl f ↦ absurd (ground arith)
      | inr (env, f) ↦ elim (Result-cases (decrypt v key env)) [
        | inr (x, d) ↦ absurd (ground arith)
        | inl (r, d) ↦ elim (Option-cases (leg_result leg r.leg_results)) [
          | inr (s, l) ↦ absurd (ground arith)
          | inl l ↦ record {
            rewrites = record {
              es = es;
              env = env;
              before = r;
              read = e;
              found = f;
              opened = d;
              written = ground arith;
            };
            free = l;
          }
        ]
      ]
    ]
  ]

  -- A call that returns and claims nothing leaves the file as it is.
  pub claim_leg-keeps :
      (iv plan : Text) (leg : ℕ) (file : Plans v)
      → Ensures (λ x. (x.0 ≡ claimed) ⊎ (x.1 ≡ file)) (claim_leg v key iv plan leg file)
  unfolding claim_leg
  claim_leg-keeps iv plan leg file = ground arith
