-- ===== src/Multihop/Ready.antt =====
-- A plan whose legs from some index on have not started: its writes all return.
use depix_sdk.Common.{
  ℕ, zero, suc, ◌≡◌, ◌≤◌, ◌<◌, refl, ◌∙◌, some, none, Option, List, [], ◌∷◌, ok, Result-cases,
  Bool-cases, inl, inr, arith, ap, not, length, ◌==◌, ◌>>=◌, if◌then◌else◌,
}
use depix_sdk.Common.Text.{Text}
use depix_sdk.Vault.{Vault, read_envelopes, write_envelopes, without, locate}
use depix_sdk.Vault.Laws.{read-write, locate-without, without-length}
use depix_sdk.Routes.Legs.{Route}
use depix_sdk.Plans.{
  StoredConversionPlan, StoredPlanLegResult, ConversionPlanState, claimed, already_active,
  not_found, leg_result, set_leg_result, started, claim_record, Envelope, Plans, claim_leg, patch,
  remove, get,
}
use depix_sdk.Plans.Claims.{claim_leg-claimed}
use depix_sdk.Plans.Rewrites.{IsRewritten}
use depix_sdk.Plans.Once.{claim_leg-free, won}
use depix_sdk.Multihop.{record_outcome}
use depix_sdk.Multihop.Held.{
  IsMild, IsHeld, rewritten-IsHeld, rewritten-stored, patch-IsRewritten, claim_record-IsMild,
  record_outcome-IsMild,
}

-- An assignment to a leg leaves the later ones.
pub leg_result-set_other :
    (i j : ℕ) (s : StoredPlanLegResult) (rs : List (Option StoredPlanLegResult))
    → i < j
    → leg_result j (set_leg_result i s rs) ≡ leg_result j rs
unfolding leg_result set_leg_result
leg_result-set_other i zero s rs h = absurd (omega arith)
leg_result-set_other zero (suc j) s [] h = refl
leg_result-set_other zero (suc j) s (x ∷ rs) h = refl
leg_result-set_other (suc i) (suc j) s [] h = leg_result-set_other i j s [] (omega arith)
leg_result-set_other (suc i) (suc j) s (x ∷ rs) h = leg_result-set_other i j s rs (omega arith)

module _ (v : Vault StoredConversionPlan) (key : v.Key) (plan_id : Text) (route : Route) where
  -- The plan stands in the file, and no leg from `i` on has a record.
  pub record IsReady (i : ℕ) (file : Plans v) : Type 0 where
    pub held : IsHeld v key plan_id route file
    pub unstarted : (j : ℕ) → i ≤ j → leg_result j held.stored.leg_results ≡ none

  rewritten-IsReady :
      (iv : Text) (mutate : StoredConversionPlan → StoredConversionPlan) (mild : IsMild mutate)
      (i : ℕ) (file file' : Plans v) (h : IsHeld v key plan_id route file)
      → IsRewritten v key iv plan_id mutate file file'
      → ((j : ℕ) → i ≤ j → leg_result j (mutate h.stored).leg_results ≡ none)
      → IsReady i file'
  rewritten-IsReady iv mutate mild i file file' h c free = record {
    held = rewritten-IsHeld v key plan_id route iv mutate mild file file' h c;
    unstarted = λ j le.
        ap (λ r. leg_result j r.leg_results)
          (rewritten-stored v key plan_id route iv mutate mild file file' h c)
        ∙ free j le;
  }

  -- The claim of a leg that has not started is won.
  pub claim_leg-IsReady :
      (iv : Text) (i : ℕ) (file : Plans v)
      → IsReady i file
      → (file' : Plans v) × (claim_leg v key iv plan_id i file ≡ ok (claimed, file'))
        × IsReady (suc i) file'
  unfolding claim_record
  claim_leg-IsReady iv i file ready =
      let wins =
        claim_leg-free v key iv plan_id i file ready.held.stored ready.held.reads
          (ready.unstarted i (omega arith)) in
      elim (Result-cases (claim_leg v key iv plan_id i file)) [
        | inr (x, e) ↦ absurd (cc (ap (won v key) e))
        | inl ((already_active, f), e) ↦ absurd (cc (ap (won v key) e))
        | inl ((not_found, f), e) ↦ absurd (cc (ap (won v key) e))
        | inl ((claimed, file'), e) ↦ (
          file',
          e,
          rewritten-IsReady iv (claim_record i) (claim_record-IsMild i) (suc i) file file'
              ready.held (claim_leg-claimed v key iv plan_id i file file' e).rewrites
              (λ j le.
                leg_result-set_other i j started ready.held.stored.leg_results (omega arith)
                ∙ ready.unstarted j (omega arith)),
        )
      ]

  -- A patch of a plan that stands in the file returns.
  patch-returns :
      (iv : Text) (mutate : StoredConversionPlan → StoredConversionPlan) (file : Plans v)
      (r : StoredConversionPlan)
      → get v key plan_id file ≡ ok (some r)
      → (file' : Plans v) × (patch v key iv plan_id mutate file ≡ ok file')
  unfolding patch get
  patch-returns iv mutate file r h = elim (Result-cases (patch v key iv plan_id mutate file)) [
    | inl returned ↦ returned
    | inr (x, e) ↦ absurd (ground arith)
  ]

  -- The outcome of leg `i` is stored, and the later legs have not started.
  pub record_outcome-IsReady :
      (iv : Text) (i : ℕ) (s : StoredPlanLegResult) (state : ConversionPlanState) (file : Plans v)
      → IsReady (suc i) file
      → (file' : Plans v) × (patch v key iv plan_id (record_outcome i s state) file ≡ ok file')
        × IsReady (suc i) file'
  unfolding record_outcome
  record_outcome-IsReady iv i s state file ready =
      let p = patch-returns iv (record_outcome i s state) file ready.held.stored ready.held.reads in
      elim (patch-IsRewritten v key plan_id route iv (record_outcome i s state) file p.0 p.1) [
        | inr gone ↦ absurd (ground (arith, ready.held.reads))
        | inl c ↦ (
          p.0,
          p.1,
          rewritten-IsReady iv (record_outcome i s state) (record_outcome-IsMild i s state) (suc i)
              file p.0 ready.held c
              (λ j le.
                leg_result-set_other i j s ready.held.stored.leg_results (omega arith)
                ∙ ready.unstarted j le),
        )
      ]

  abbrev id_of : Envelope v → Text
  id_of e = e.id

  -- The plan is gone after it is removed.
  pub remove-IsGone :
      (file : Plans v)
      → IsHeld v key plan_id route file
      → (file' : Plans v) × (remove v key plan_id file ≡ ok file')
        × (get v key plan_id file' ≡ ok none)
  unfolding remove get
  remove-IsGone file h = elim (Result-cases (read_envelopes file)) [
    | inr (x, e) ↦ absurd (ground (arith, h.reads))
    | inl (es, e) ↦
        let kept = without id_of plan_id es in
        elim (Bool-cases (not (length kept == length es))) [
          | inl less ↦ (
            write_envelopes kept,
            rw (e, ◌>>=◌, less, if◌then◌else◌) refl,
            rw (read-write id_of kept, ◌>>=◌, locate-without id_of plan_id es) refl,
          )
          | inr equal ↦ absurd (
              let none_found : locate id_of plan_id es ≡ none =
                ground (arith, without-length id_of plan_id es) in
              ground (arith, h.reads))
        ]
  ]
