-- ===== src/Plans/Laws.antt =====
-- What the plan store gives back after a write.
use depix_sdk.Common.{
  ℕ, ◌≡◌, ◌≢◌, refl, sym, subst, ◌∙◌, some, List, [], ◌∷◌, ◌++◌, ok, err, ◌>>=◌, Result-cases,
  Option-cases, inl, inr, arith,
}
use depix_sdk.Common.Text.{Text, text_eq_refl}
use depix_sdk.Errors.{plan_validation_failed}
use depix_sdk.Vault.{Vault, read_envelopes, write_envelopes, locate, without}
use depix_sdk.Vault.Laws.{
  text_eq_neq, read-write, locate-without, locate-without-other, locate-append-none,
  locate-append-other,
}
use depix_sdk.Plans.{
  StoredConversionPlan, Envelope, Plans, find_plan, encrypt, decrypt, stamped, put, get,
}

module _ (v : Vault StoredConversionPlan) (key : v.Key) where
  abbrev envelope_id : Envelope v → Text
  envelope_id e = e.id

  pub decrypt-encrypt :
      (iv : Text) (r : StoredConversionPlan) → decrypt v key (encrypt v key iv r) ≡ ok r
  unfolding decrypt encrypt
  decrypt-encrypt iv r = ground (arith, v.unseal-seal key iv r.plan_id r)

  pub encrypt-id : (iv : Text) (r : StoredConversionPlan) → (encrypt v key iv r).id ≡ r.plan_id
  unfolding encrypt
  encrypt-id iv r = refl

  -- A file whose list has an envelope of the record under the id.
  pub get-found :
      (id iv : Text) (es : List (Envelope v)) (r : StoredConversionPlan)
      → find_plan v id es ≡ some (encrypt v key iv r)
      → get v key id (write_envelopes es) ≡ ok (some r)
  unfolding get
  get-found id iv es r h = ground (arith, read-write envelope_id es, decrypt-encrypt iv r)

  -- Two files whose lists agree on an id give the same under it.
  pub get-same :
      (id : Text) (file : Plans v) (es es' : List (Envelope v))
      → read_envelopes file ≡ ok es
      → find_plan v id es' ≡ find_plan v id es
      → get v key id (write_envelopes es') ≡ get v key id file
  unfolding get
  get-same id file es es' h e = rw (h, read-write envelope_id es', ◌>>=◌, e) refl

  stamped-id : (now : ℕ) (r : StoredConversionPlan) → (stamped now r).plan_id ≡ r.plan_id
  unfolding stamped
  stamped-id now r = ground arith

  -- A plan that `put` has written is the one that `get` returns, stamped with the time if it had none;
  -- and what `get` returns for every other plan is what it returned before.
  pub get-put :
      (now : ℕ) (iv : Text) (r : StoredConversionPlan) (file file' : Plans v)
      → put v key now iv r file ≡ ok file'
      → (get v key r.plan_id file' ≡ ok (some (stamped now r)))
        × ((other : Text) → other ≢ r.plan_id → get v key other file' ≡ get v key other file)
  unfolding put
  get-put now iv r file file' h = elim (Result-cases (read_envelopes file)) [
    | inr (x, e) ↦ absurd (ground arith)
    | inl (es, e) ↦
        let written : write_envelopes
              (without envelope_id r.plan_id es ++ encrypt v key iv (stamped now r) ∷ [])
            ≡ file' =
          ground arith in
        let same_id : (encrypt v key iv (stamped now r)).id ≡ r.plan_id =
          encrypt-id iv (stamped now r) ∙ stamped-id now r in
        (
          subst (λ f. get v key r.plan_id f ≡ ok (some (stamped now r))) written
              (get-found r.plan_id iv _ (stamped now r) (
                locate-append-none envelope_id r.plan_id _ _
                  (locate-without envelope_id r.plan_id es) (rw same_id (text_eq_refl r.plan_id)))),
          λ other n.
              subst (λ f. get v key other f ≡ get v key other file) written
                (get-same other file es _ e (
                  locate-append-other envelope_id other _ _
                    (rw same_id (text_eq_neq _ _ (λ q. n (sym q))))
                  ∙ locate-without-other envelope_id r.plan_id other es
                      (text_eq_neq _ _ (λ q. n (sym q))))),
        )
  ]

  -- The envelope that the store makes of a plan, put under the name of another plan and first in the
  -- file, does not open: `get` refuses it.
  pub get-moved :
      (iv b : Text) (r : StoredConversionPlan) (rest : List (Envelope v))
      → r.plan_id ≢ b
      → get v key b (write_envelopes (record (encrypt v key iv r) { id = b } ∷ rest))
        ≡ err plan_validation_failed
  unfolding get locate decrypt encrypt
  get-moved iv b r rest n = elim (Option-cases (v.unseal key b (v.seal key iv r.plan_id r))) [
    | inl e ↦ ground (
      arith,
      read-write envelope_id (record { id = b; sealed = v.seal key iv r.plan_id r } ∷ rest),
      text_eq_refl b,
    )
    | inr (r', e) ↦ absurd (n (sym (v.unseal-aad key iv r.plan_id b r r' e)))
  ]
