-- ===== src/Multihop/Held.antt =====
-- The plan file while a drive runs: the plan stands in it under its id, with the route that is driven.
use depix_sdk.Common.{
  ℕ, ◌≡◌, refl, sym, ◌∙◌, some, none, ok, Result-cases, Option-cases, inl, inr, arith, Ensures,
  subst, ◌⊎◌, ◌>>=◌, ap,
}
use depix_sdk.Common.Text.{Text}
use depix_sdk.Vault.{Vault, read_envelopes}
use depix_sdk.Routes.Legs.{Route}
use depix_sdk.Plans.{
  StoredConversionPlan, StoredPlanLegResult, ConversionPlanState, claimed, find_plan, decrypt,
  Plans, get, patch, claim_leg, claim_record,
}
use depix_sdk.Plans.Rewrites.{IsRewritten, IsSound, get-before, get-after, IsSound-rewritten}
use depix_sdk.Plans.Claims.{claim_leg-claimed}
use depix_sdk.Multihop.{record_outcome, reset_leg, need_review}

-- What a rewrite of the record leaves alone.
pub record IsMild (mutate : StoredConversionPlan → StoredConversionPlan) : Type 0 where
  pub same_id : (r : StoredConversionPlan) → (mutate r).plan_id ≡ r.plan_id
  pub same_route : (r : StoredConversionPlan) → (mutate r).route ≡ r.route

pub record_outcome-IsMild :
    (i : ℕ) (s : StoredPlanLegResult) (state : ConversionPlanState)
    → IsMild (record_outcome i s state)
unfolding record_outcome
record_outcome-IsMild i s state = record { same_id = λ r. refl; same_route = λ r. refl }

pub reset_leg-IsMild : (i : ℕ) → IsMild (reset_leg i)
unfolding reset_leg
reset_leg-IsMild i = record { same_id = λ r. refl; same_route = λ r. refl }

pub need_review-IsMild : (note : Text) → IsMild (need_review note)
unfolding need_review
need_review-IsMild note = record { same_id = λ r. refl; same_route = λ r. refl }

pub claim_record-IsMild : (i : ℕ) → IsMild (claim_record i)
unfolding claim_record
claim_record-IsMild i = record { same_id = λ r. refl; same_route = λ r. refl }

module _ (v : Vault StoredConversionPlan) (key : v.Key) (plan_id : Text) (route : Route) where
  -- Every envelope that opens holds the record of its own id, and the plan reads back with the route.
  pub record IsHeld (file : Plans v) : Type 0 where
    pub sound : IsSound v key file
    pub stored : StoredConversionPlan
    pub reads : get v key plan_id file ≡ ok (some stored)
    pub on_route : stored.route ≡ route

  pub rewritten-IsHeld :
      (iv : Text) (mutate : StoredConversionPlan → StoredConversionPlan) (mild : IsMild mutate)
      (file file' : Plans v)
      → IsHeld file
      → IsRewritten v key iv plan_id mutate file file'
      → IsHeld file'
  rewritten-IsHeld iv mutate mild file file' h c =
      let same : c.before ≡ h.stored =
        ground
          (arith, get-before v key iv plan_id mutate mild.same_id file file' h.sound c, h.reads) in
      record {
        sound = IsSound-rewritten v key iv plan_id mutate mild.same_id file file' h.sound c;
        stored = mutate c.before;
        reads = get-after v key iv plan_id mutate mild.same_id file file' h.sound c;
        on_route = mild.same_route c.before ∙ subst (λ r. r.route ≡ route) (sym same) h.on_route;
      }

  pub rewritten-stored :
      (iv : Text) (mutate : StoredConversionPlan → StoredConversionPlan) (mild : IsMild mutate)
      (file file' : Plans v) (h : IsHeld file) (c : IsRewritten v key iv plan_id mutate file file')
      → (rewritten-IsHeld iv mutate mild file file' h c).stored ≡ mutate h.stored
  unfolding rewritten-IsHeld
  rewritten-stored iv mutate mild file file' h c =
      let same : c.before ≡ h.stored =
        ground
          (arith, get-before v key iv plan_id mutate mild.same_id file file' h.sound c, h.reads) in
      ap mutate same

  -- A patch that returns rewrote the plan's record, or found none.
  pub patch-IsRewritten :
      (iv : Text) (mutate : StoredConversionPlan → StoredConversionPlan) (file file' : Plans v)
      → patch v key iv plan_id mutate file ≡ ok file'
      → (IsRewritten v key iv plan_id mutate file file') ⊎ (get v key plan_id file ≡ ok none)
  unfolding patch get
  patch-IsRewritten iv mutate file file' h = elim (Result-cases (read_envelopes file)) [
    | inr (x, e) ↦ absurd (ground arith)
    | inl (es, e) ↦ elim (Option-cases (find_plan v plan_id es)) [
      | inl f ↦ inr (rw (e, ◌>>=◌, f) refl)
      | inr (env, f) ↦ elim (Result-cases (decrypt v key env)) [
        | inr (x, d) ↦ absurd (ground arith)
        | inl (r, d) ↦ inl (record {
          es = es;
          env = env;
          before = r;
          read = e;
          found = f;
          opened = d;
          written = ground arith;
        })
      ]
    ]
  ]

  pub patch-IsHeld :
      (iv : Text) (mutate : StoredConversionPlan → StoredConversionPlan)
      → IsMild mutate
      → (file : Plans v) → IsHeld file
      → Ensures IsHeld (patch v key iv plan_id mutate file)
  patch-IsHeld iv mutate mild file h = elim (Result-cases (patch v key iv plan_id mutate file)) [
    | inr (x, e) ↦ rw e tt
    | inl (file', e) ↦ rw e (elim (patch-IsRewritten iv mutate file file' e) [
      | inl c ↦ rewritten-IsHeld iv mutate mild file file' h c
      | inr gone ↦ absurd (ground (arith, h.reads))
    ])
  ]

  -- A claim that is won leaves a record whose current leg is the one claimed.
  pub claim_leg-IsHeld :
      (iv : Text) (i : ℕ) (file file' : Plans v)
      → IsHeld file
      → claim_leg v key iv plan_id i file ≡ ok (claimed, file')
      → (h : IsHeld file') × (h.stored.current_leg_index ≡ i)
  unfolding claim_record
  claim_leg-IsHeld iv i file file' h e =
      let c = (claim_leg-claimed v key iv plan_id i file file' e).rewrites in
      (
        rewritten-IsHeld iv (claim_record i) (claim_record-IsMild i) file file' h c,
        ap (λ r. r.current_leg_index)
            (rewritten-stored iv (claim_record i) (claim_record-IsMild i) file file' h c),
      )
