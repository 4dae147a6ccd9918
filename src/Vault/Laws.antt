-- ===== src/Vault/Laws.antt =====
-- Looking an envelope up after the changes that a store makes to its list.
use depix_sdk.Common.{
  All, ◌≡◌, true, false, none, some, List, [], ◌∷◌, ◌++◌, if◌then◌else◌, arith, ok, refl, subst,
  sym, ◌≢◌, Bool-cases, inl, inr, length, ◌≤◌,
}
use depix_sdk.Common.Text.{Text, text_eq, text_eq_sound}
use depix_sdk.Vault.{read_envelopes, write_envelopes, locate, without, replace_first}

pub text_eq_neq : (s t : Text) → s ≢ t → text_eq s t ≡ false
text_eq_neq s t n = elim (Bool-cases (text_eq s t)) [
  | inl e ↦ absurd (n (text_eq_sound s t e))
  | inr e ↦ e
]

module _ {E : Type 0} (id_of : E → Text) where
  pub read-write : (es : List E) → read_envelopes (write_envelopes es) ≡ ok es
  unfolding read_envelopes write_envelopes
  read-write es = refl

  -- The envelope found has the id that was asked for.
  pub locate-id : (id : Text) (es : List E) (e : E) → locate id_of id es ≡ some e → id_of e ≡ id
  unfolding locate
  locate-id id [] e h = cc
  locate-id id (x ∷ es) e h = ground (arith, locate-id id es e, text_eq_sound (id_of x) id)

  pub locate-without : (id : Text) (es : List E) → locate id_of id (without id_of id es) ≡ none
  unfolding locate without
  locate-without id [] = refl
  locate-without id (x ∷ es) = ground (arith, locate-without id es)

  -- Two ids that the same text equals are equal.
  both_match : (x i j : Text) → text_eq i j ≡ false → text_eq x i ≡ true → text_eq x j ≡ false
  both_match x i j n h = subst (λ y. text_eq y j ≡ false) (sym (text_eq_sound x i h)) n

  pub locate-without-other :
      (i j : Text) (es : List E)
      → text_eq i j ≡ false
      → locate id_of j (without id_of i es) ≡ locate id_of j es
  unfolding locate without
  locate-without-other i j [] n = refl
  locate-without-other i j (x ∷ es) n =
      ground (arith, locate-without-other i j es n, both_match (id_of x) i j n)

  pub locate-append-none :
      (j : Text) (es : List E) (e : E)
      → locate id_of j es ≡ none
      → text_eq (id_of e) j ≡ true
      → locate id_of j (es ++ e ∷ []) ≡ some e
  unfolding locate
  locate-append-none j [] e h m = rw (m, if◌then◌else◌) refl
  locate-append-none j (x ∷ es) e h m = ground (arith, locate-append-none j es e)

  pub locate-append-other :
      (j : Text) (es : List E) (e : E)
      → text_eq (id_of e) j ≡ false
      → locate id_of j (es ++ e ∷ []) ≡ locate id_of j es
  unfolding locate
  locate-append-other j [] e m = ground arith
  locate-append-other j (x ∷ es) e m = ground (arith, locate-append-other j es e m)

  pub locate-replace :
      (j : Text) (es : List E) (e e' : E)
      → locate id_of j es ≡ some e
      → text_eq (id_of e') j ≡ true
      → locate id_of j (replace_first id_of j e' es) ≡ some e'
  unfolding locate replace_first
  locate-replace j [] e e' h m = cc
  locate-replace j (x ∷ es) e e' h m = ground (arith, locate-replace j es e e')

  pub locate-replace-other :
      (i j : Text) (es : List E) (e' : E)
      → text_eq i j ≡ false
      → text_eq (id_of e') i ≡ true
      → locate id_of j (replace_first id_of i e' es) ≡ locate id_of j es
  unfolding locate replace_first
  locate-replace-other i j [] e' n m = refl
  locate-replace-other i j (x ∷ es) e' n m = ground (
    arith,
    locate-replace-other i j es e' n m,
    both_match (id_of x) i j n,
    both_match (id_of e') i j n,
  )

  without_le : (id : Text) (es : List E) → length (without id_of id es) ≤ length es
  unfolding without
  without_le id [] = omega arith
  without_le id (x ∷ es) = ground (arith, without_le id es)

  -- A filter that drops nothing has found nothing to drop.
  pub without-length :
      (id : Text) (es : List E)
      → length (without id_of id es) ≡ length es
      → locate id_of id es ≡ none
  unfolding locate without
  without-length id [] h = refl
  without-length id (x ∷ es) h = ground (arith, without-length id es, without_le id es)

  pub All-without :
      (P : E → Type 0) (id : Text) (es : List E) → All P es → All P (without id_of id es)
  unfolding without
  All-without P id [] h = tt
  All-without P id (x ∷ es) h = elim (Bool-cases (text_eq (id_of x) id)) [
    | inl m ↦ rw (m, if◌then◌else◌) (All-without P id es h.1)
    | inr m ↦ rw (m, if◌then◌else◌) (h.0, All-without P id es h.1)
  ]

  -- Nothing that is left has the id.
  pub without-others :
      (id : Text) (es : List E) → All (λ e. text_eq (id_of e) id ≡ false) (without id_of id es)
  unfolding without
  without-others id [] = tt
  without-others id (x ∷ es) = elim (Bool-cases (text_eq (id_of x) id)) [
    | inl m ↦ rw (m, if◌then◌else◌) (without-others id es)
    | inr m ↦ rw (m, if◌then◌else◌) (m, without-others id es)
  ]
