-- ===== src/Plans/Rewrites.antt =====
-- What an operation of the plan store that rewrites one record in place leaves in the file (`patch`
-- and `claimLeg` of src/convert/plan-store.ts).
use depix_sdk.Common.{
  ◌≡◌, refl, sym, subst, ◌∙◌, false, some, List, [], ◌∷◌, if◌then◌else◌, ok, ◌>>=◌, Bool-cases, inl,
  inr, arith, All,
}
use depix_sdk.Common.Text.{Text, text_eq, text_eq_refl}
use depix_sdk.Vault.{Vault, read_envelopes, write_envelopes, locate, replace_first}
use depix_sdk.Vault.Laws.{read-write, locate-id, locate-replace, locate-replace-other}
use depix_sdk.Plans.{StoredConversionPlan, Envelope, Plans, find_plan, encrypt, decrypt, get}
use depix_sdk.Plans.Laws.{encrypt-id, get-found, get-same, decrypt-encrypt}

module _ (v : Vault StoredConversionPlan) (key : v.Key) where
  abbrev id_of : Envelope v → Text
  id_of e = e.id

  -- A record of the plan was found and opened, and what `mutate` makes of it was written.
  pub record IsRewritten (iv plan : Text) (mutate : StoredConversionPlan → StoredConversionPlan)
      (file file' : Plans v) : Type 0 where
    pub es : List (Envelope v)
    pub env : Envelope v
    pub before : StoredConversionPlan
    pub read : read_envelopes file ≡ ok es
    pub found : find_plan v plan es ≡ some env
    pub opened : decrypt v key env ≡ ok before
    pub written :
        write_envelopes (replace_first id_of plan (encrypt v key iv (mutate before)) es) ≡ file'

  -- An envelope that opens holds the record of its own id.
  abbrev pub IsOwn : Envelope v → Type 0
  IsOwn e = (r : StoredConversionPlan) → decrypt v key e ≡ ok r → r.plan_id ≡ e.id

  -- A file of which every envelope that opens holds the record of its own id.
  abbrev pub IsSound : Plans v → Type 0
  IsSound file = (es : List (Envelope v)) → read_envelopes file ≡ ok es → All IsOwn es

  All-located :
      (P : Envelope v → Type 0) (id : Text) (es : List (Envelope v)) (e : Envelope v)
      → All P es
      → find_plan v id es ≡ some e
      → P e
  unfolding locate
  All-located P id [] e h f = cc
  All-located P id (x ∷ es) e h f = elim (Bool-cases (text_eq x.id id)) [
    | inl m ↦ subst P (ground arith) h.0
    | inr m ↦ All-located P id es e h.1 (ground arith)
  ]

  All-replaced :
      (P : Envelope v → Type 0) (id : Text) (e : Envelope v) (es : List (Envelope v))
      → All P es
      → P e
      → All P (replace_first id_of id e es)
  unfolding replace_first
  All-replaced P id e [] h p = tt
  All-replaced P id e (x ∷ es) h p = elim (Bool-cases (text_eq x.id id)) [
    | inl m ↦ rw (m, if◌then◌else◌) (p, h.1)
    | inr m ↦ rw (m, if◌then◌else◌) (h.0, All-replaced P id e es h.1 p)
  ]

  module _ (iv plan : Text) (mutate : StoredConversionPlan → StoredConversionPlan)
      (same_id : (r : StoredConversionPlan) → (mutate r).plan_id ≡ r.plan_id) (file file' : Plans v)
      (sound : IsSound file) (c : IsRewritten iv plan mutate file file') where
    pub own_id : c.before.plan_id ≡ plan
    own_id =
        All-located IsOwn plan c.es c.env (sound c.es c.read) c.found c.before c.opened
        ∙ locate-id id_of plan c.es c.env c.found

    new_id : (encrypt v key iv (mutate c.before)).id ≡ plan
    new_id = encrypt-id v key iv (mutate c.before) ∙ same_id c.before ∙ own_id

    pub get-before : get v key plan file ≡ ok (some c.before)
    unfolding get
    get-before = rw (c.read, ◌>>=◌, c.found, c.opened) refl

    pub get-after : get v key plan file' ≡ ok (some (mutate c.before))
    get-after =
        subst (λ f. get v key plan f ≡ ok (some (mutate c.before))) c.written
          (get-found v key plan iv _ _
            (locate-replace id_of plan c.es c.env _ c.found (rw new_id (text_eq_refl plan))))

    pub get-others : (q : Text) → text_eq plan q ≡ false → get v key q file' ≡ get v key q file
    get-others q n =
        subst (λ f. get v key q f ≡ get v key q file) c.written
          (get-same v key q file c.es _ c.read
            (locate-replace-other id_of plan q c.es _ n (rw new_id (text_eq_refl plan))))

    pub IsSound-rewritten : IsSound file'
    IsSound-rewritten es h =
        let new = mutate c.before in
        let written = replace_first id_of plan (encrypt v key iv new) c.es in
        let list : written ≡ es = ground (arith, read-write id_of written, c.written) in
        subst (All IsOwn) list (
          All-replaced IsOwn plan _ c.es (sound c.es c.read) (λ r d.
            let same : new ≡ r = ground (arith, decrypt-encrypt v key iv new) in
            subst (λ x. x.plan_id ≡ (encrypt v key iv new).id) same
              (sym (encrypt-id v key iv new))))
