-- ===== src/Plans/Once.antt =====
-- Passes over the plans that run one after the other under the store's mutex, and what each claim
-- gives.
use depix_sdk.Common.{
  ℕ, ◌+◌, ◌≤◌, ◌≡◌, refl, sym, subst, ◌∙◌, true, none, some, List, [], ◌∷◌, if◌then◌else◌, Result,
  ok, err, ◌&&◌, ◌==◌, Result-cases, Bool-cases, inl, inr, arith, ◌⊎◌, Ensures,
}
use depix_sdk.Common.Text.{Text, text_eq, text_eq_sound}
use depix_sdk.Errors.{SdkError}
use depix_sdk.Vault.{Vault}
use depix_sdk.Plans.{
  StoredConversionPlan, StoredPlanLegResult, Claim, claimed, already_active, not_found, leg_result,
  started, claim_record, Plans, claim_leg, get,
}
use depix_sdk.Plans.Rewrites.{IsSound, get-before, get-after, get-others, IsSound-rewritten}
use depix_sdk.Plans.Claims.{
  leg_result-set_same, leg_result-set_keeps, IsClaimed, claim_leg-claimed, claim_leg-keeps,
  claim_record_id,
}

-- A call of `claimLeg`: the vector that it draws, the plan and the leg.
pub record Attempt : Type 0 where
  pub iv : Text
  pub plan_id : Text
  pub leg_index : ℕ

module _ (v : Vault StoredConversionPlan) (key : v.Key) where
  -- The file after a call; one that throws or claims nothing leaves it.
  abbrev pub left : Result SdkError (Claim × Plans v) → Plans v → Plans v
  left (ok (outcome, file')) file = file'
  left (err e) file = file

  abbrev pub won : Result SdkError (Claim × Plans v) → ℕ
  won (ok (claimed, file')) = 1
  won (ok (already_active, file')) = 0
  won (ok (not_found, file')) = 0
  won (err e) = 0

  abbrev pub attempt : Attempt → Plans v → Result SdkError (Claim × Plans v)
  attempt a file = claim_leg v key a.iv a.plan_id a.leg_index file

  -- How many of the calls, in their order, claim this leg of this plan.
  abbrev pub wins : Text → ℕ → List Attempt → Plans v → ℕ
  wins plan leg [] file = 0
  wins plan leg (a ∷ rest) file =
      (if text_eq a.plan_id plan && (a.leg_index == leg) then won (attempt a file) else 0)
      + wins plan leg rest (left (attempt a file) file)

  -- The leg has a result.
  record IsStarted (plan : Text) (leg : ℕ) (file : Plans v) : Type 0 where
    record_of : StoredConversionPlan
    result : StoredPlanLegResult
    got : get v key plan file ≡ ok (some record_of)
    has : leg_result leg record_of.leg_results ≡ some result

  -- A call claims its leg, or leaves the file as it is.
  attempt-cases :
      (a : Attempt) (file : Plans v)
      → (IsClaimed v key a.iv a.plan_id a.leg_index file (left (attempt a file) file))
        ⊎ ((left (attempt a file) file ≡ file) × (won (attempt a file) ≡ 0))
  attempt-cases a file = elim (Result-cases (attempt a file)) [
    | inr (x, e) ↦ inr (rw e refl, rw e refl)
    | inl ((claimed, f), e) ↦
        inl (rw e (claim_leg-claimed v key a.iv a.plan_id a.leg_index file f e))
    | inl ((already_active, f), e) ↦ inr (
      rw e (
          ground (
            arith,
            subst (Ensures (λ x. (x.0 ≡ claimed) ⊎ (x.1 ≡ file))) e
                (claim_leg-keeps v key a.iv a.plan_id a.leg_index file),
          )),
      rw e refl,
    )
    | inl ((not_found, f), e) ↦ inr (
      rw e (
          ground (
            arith,
            subst (Ensures (λ x. (x.0 ≡ claimed) ⊎ (x.1 ≡ file))) e
                (claim_leg-keeps v key a.iv a.plan_id a.leg_index file),
          )),
      rw e refl,
    )
  ]

  never_again :
      (iv plan : Text) (leg : ℕ) (file file' : Plans v)
      → IsSound v key file
      → IsClaimed v key iv plan leg file file'
      → IsStarted plan leg file
      → ⊥
  never_again iv plan leg file file' sound c s =
      let same : c.rewrites.before ≡ s.record_of = ground (
        arith,
        get-before v key iv plan (claim_record leg) (claim_record_id leg) file file' sound
            c.rewrites,
        s.got,
      ) in
      cc (subst (λ r. leg_result leg r.leg_results ≡ none) same c.free, s.has)

  keeps-IsStarted :
      (iv plan other : Text) (leg i : ℕ) (file file' : Plans v)
      → IsSound v key file
      → IsClaimed v key iv plan leg file file'
      → IsStarted other i file
      → IsStarted other i file'
  unfolding claim_record
  keeps-IsStarted iv plan other leg i file file' sound c s =
      elim (Bool-cases (text_eq plan other)) [
        | inr n ↦ record {
          record_of = s.record_of;
          result = s.result;
          has = s.has;
          got =
              get-others v key iv plan (claim_record leg) (claim_record_id leg) file file' sound
                c.rewrites other n
              ∙ s.got;
        }
        | inl m ↦
            let e : plan ≡ other = text_eq_sound plan other m in
            let before : get v key plan file ≡ ok (some c.rewrites.before) =
              get-before v key iv plan (claim_record leg) (claim_record_id leg) file file' sound
                c.rewrites in
            let same : s.record_of ≡ c.rewrites.before = ground (
              arith,
              s.got,
              subst (λ p. get v key p file ≡ ok (some c.rewrites.before)) e before,
            ) in
            let kept =
              leg_result-set_keeps i leg s.result started c.rewrites.before.leg_results
                (subst (λ r. leg_result i r.leg_results ≡ some s.result) same s.has) in
            record {
              record_of = claim_record leg c.rewrites.before;
              result = kept.0;
              has = kept.1;
              got =
                  subst (λ p. get v key p file' ≡ ok (some (claim_record leg c.rewrites.before))) e
                    (get-after v key iv plan (claim_record leg) (claim_record_id leg) file file'
                      sound c.rewrites);
            }
      ]

  claimed-IsStarted :
      (iv plan : Text) (leg : ℕ) (file file' : Plans v)
      → IsSound v key file
      → IsClaimed v key iv plan leg file file'
      → IsStarted plan leg file'
  unfolding claim_record
  claimed-IsStarted iv plan leg file file' sound c = record {
    record_of = claim_record leg c.rewrites.before;
    result = started;
    got =
        get-after v key iv plan (claim_record leg) (claim_record_id leg) file file' sound
          c.rewrites;
    has = leg_result-set_same leg started c.rewrites.before.leg_results;
  }

  -- It is the leg of the plan that the call is about.
  about :
      (a : Attempt) (plan : Text) (leg : ℕ)
      → (text_eq a.plan_id plan && (a.leg_index == leg)) ≡ true
      → (a.plan_id ≡ plan) × (a.leg_index ≡ leg)
  about a plan leg h = (ground (arith, text_eq_sound a.plan_id plan), ground arith)

  none_after :
      (plan : Text) (leg : ℕ) (calls : List Attempt) (file : Plans v)
      → IsSound v key file
      → IsStarted plan leg file
      → wins plan leg calls file ≡ 0
  none_after plan leg [] file sound s = refl
  none_after plan leg (a ∷ rest) file sound s = elim (attempt-cases a file) [
    | inr (same, none_won) ↦ ground (arith, none_after plan leg rest file sound s, same, none_won)
    | inl c ↦ elim (Bool-cases (text_eq a.plan_id plan && (a.leg_index == leg))) [
      | inl m ↦ absurd (
          never_again a.iv a.plan_id a.leg_index file _ sound c (
            subst (λ p. IsStarted p a.leg_index file) (sym (about a plan leg m).0)
              (subst (λ i. IsStarted plan i file) (sym (about a plan leg m).1) s)))
      | inr m ↦
          rw (m, if◌then◌else◌)
            (omega (
              arith,
              none_after plan leg rest _
                  (IsSound-rewritten v key a.iv a.plan_id _ (claim_record_id a.leg_index) file _
                    sound c.rewrites)
                  (keeps-IsStarted a.iv a.plan_id plan a.leg_index leg file _ sound c s),
            ))
    ]
  ]

  won_le : (r : Result SdkError (Claim × Plans v)) → won r ≤ 1
  won_le (ok (claimed, file)) = omega arith
  won_le (ok (already_active, file)) = omega arith
  won_le (ok (not_found, file)) = omega arith
  won_le (err e) = omega arith

  -- Of any calls that claim legs of any plans, in any order, at most one claims a given leg of a given
  -- plan, on a file of which every envelope that opens holds the record of its own id.
  pub at_most_one_claim :
      (plan : Text) (leg : ℕ) (calls : List Attempt) (file : Plans v)
      → IsSound v key file
      → wins plan leg calls file ≤ 1
  at_most_one_claim plan leg [] file sound = omega arith
  at_most_one_claim plan leg (a ∷ rest) file sound = elim (attempt-cases a file) [
    | inr (same, none_won) ↦
        ground (arith, at_most_one_claim plan leg rest file sound, same, none_won)
    | inl c ↦
        let file' = left (attempt a file) file in
        let sound' =
          IsSound-rewritten v key a.iv a.plan_id _ (claim_record_id a.leg_index) file file' sound
            c.rewrites in
        elim (Bool-cases (text_eq a.plan_id plan && (a.leg_index == leg))) [
          | inr m ↦
              rw (m, if◌then◌else◌) (omega (arith, at_most_one_claim plan leg rest file' sound'))
          | inl m ↦
              rw (m, if◌then◌else◌)
                (omega (
                  arith,
                  won_le (attempt a file),
                  none_after plan leg rest file' sound' (
                      subst (λ p. IsStarted p leg file') (about a plan leg m).0
                        (subst (λ i. IsStarted a.plan_id i file') (about a plan leg m).1
                          (claimed-IsStarted a.iv a.plan_id a.leg_index file file' sound c))),
                ))
        ]
  ]

  -- A leg that has no result yet is claimed.
  pub claim_leg-free :
      (iv plan : Text) (leg : ℕ) (file : Plans v) (r : StoredConversionPlan)
      → get v key plan file ≡ ok (some r)
      → leg_result leg r.leg_results ≡ none
      → won (claim_leg v key iv plan leg file) ≡ 1
  unfolding claim_leg get
  claim_leg-free iv plan leg file r h free = ground arith
