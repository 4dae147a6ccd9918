-- ===== src/Pending/Laws.antt =====
-- What the store of pending withdrawals gives back.
use depix_sdk.Common.{
  ◌≡◌, ◌≢◌, refl, sym, subst, none, some, List, length, ok, err, ◌>>=◌, ◌==◌, Result-cases,
  Option-cases, Bool-cases, inl, inr, arith, ==_iff,
}
use depix_sdk.Common.Text.{Text, text_eq_refl}
use depix_sdk.Errors.{SdkError}
use depix_sdk.Vault.{Vault, read_envelopes, write_envelopes, without, replace_first}
use depix_sdk.Vault.Laws.{
  text_eq_neq, read-write, locate-without, locate-replace, locate-replace-other, without-length,
}
use depix_sdk.Pending.{
  PendingWithdrawalRecord, requested, signed, aad_of, signed_record, Envelope, PendingFile,
  find_pending, encrypt, decrypt, patch, mark_signed, get, remove, discard_if_unsigned, left,
}

module _ (v : Vault PendingWithdrawalRecord) (key : v.Key) where
  abbrev envelope_id : Envelope v → Text
  envelope_id e = e.id

  decrypt-encrypt :
      (iv : Text) (r : PendingWithdrawalRecord) → decrypt v key (encrypt v key iv r) ≡ ok r
  unfolding decrypt encrypt
  decrypt-encrypt iv r = ground (arith, v.unseal-seal key iv (aad_of r) r)

  get-found :
      (id iv : Text) (es : List (Envelope v)) (r : PendingWithdrawalRecord)
      → find_pending v id es ≡ some (encrypt v key iv r)
      → get v key id (write_envelopes es) ≡ ok (some r)
  unfolding get
  get-found id iv es r h = ground (arith, read-write envelope_id es, decrypt-encrypt iv r)

  get-same :
      (id : Text) (file : PendingFile v) (es es' : List (Envelope v))
      → read_envelopes file ≡ ok es
      → find_pending v id es' ≡ find_pending v id es
      → get v key id (write_envelopes es') ≡ get v key id file
  unfolding get
  get-same id file es es' h e = rw (h, read-write envelope_id es', ◌>>=◌, e) refl

  get-opened :
      (id : Text) (file : PendingFile v) (es : List (Envelope v)) (env : Envelope v)
      (r : PendingWithdrawalRecord)
      → read_envelopes file ≡ ok es
      → find_pending v id es ≡ some env
      → get v key id file ≡ ok (some r)
      → decrypt v key env ≡ ok r
  unfolding get
  get-opened id file es env r e f h = ground arith

  get-missing :
      (id : Text) (file : PendingFile v) (es : List (Envelope v)) (r : PendingWithdrawalRecord)
      → read_envelopes file ≡ ok es
      → find_pending v id es ≡ none
      → get v key id file ≢ ok (some r)
  unfolding get
  get-missing id file es r e f h =
      let nothing : get v key id file ≡ ok none = rw (e, ◌>>=◌, f) refl in
      cc (subst (λ m. m ≡ ok (some r)) nothing h)

  get-unread :
      (id : Text) (file : PendingFile v) (x : SdkError) (r : PendingWithdrawalRecord)
      → read_envelopes file ≡ err x
      → get v key id file ≢ ok (some r)
  unfolding get
  get-unread id file x r e h = ground arith

  patch-found :
      (iv id : Text) (mutate : PendingWithdrawalRecord → PendingWithdrawalRecord)
      (file : PendingFile v) (es : List (Envelope v)) (env : Envelope v)
      (r : PendingWithdrawalRecord)
      → read_envelopes file ≡ ok es
      → find_pending v id es ≡ some env
      → decrypt v key env ≡ ok r
      → patch v key iv id mutate file
        ≡ ok (write_envelopes (replace_first envelope_id id (encrypt v key iv (mutate r)) es))
  unfolding patch
  patch-found iv id mutate file es env r e f d = rw (e, ◌>>=◌, f, d) refl

  -- The signature of a stored withdrawal whose idempotency key is the id that it is stored under is
  -- recorded with it: the record read back is the one of before with the identifier, the exact bytes
  -- and the transaction's id, and every other record reads as before.
  pub get-mark_signed :
      (iv id withdrawal_id hex txid : Text) (file file' : PendingFile v)
      (r : PendingWithdrawalRecord)
      → get v key id file ≡ ok (some r)
      → r.idempotency_key ≡ id
      → mark_signed v key iv id withdrawal_id hex txid file ≡ ok file'
      → (get v key id file' ≡ ok (some (signed_record withdrawal_id hex txid r)))
        × ((other : Text) → other ≢ id → get v key other file' ≡ get v key other file)
  unfolding mark_signed signed_record encrypt
  get-mark_signed iv id withdrawal_id hex txid file file' r got own h =
      elim (Result-cases (read_envelopes file)) [
        | inr (x, e) ↦ absurd (get-unread id file x r e got)
        | inl (es, e) ↦ elim (Option-cases (find_pending v id es)) [
          | inl f ↦ absurd (get-missing id file es r e f got)
          | inr (env, f) ↦
              let new = encrypt v key iv (signed_record withdrawal_id hex txid r) in
              let opened : decrypt v key env ≡ ok r = get-opened id file es env r e f got in
              let written : write_envelopes (replace_first envelope_id id new es) ≡ file' =
                (ground (
                  arith,
                  patch-found iv id (signed_record withdrawal_id hex txid) file es env r e f opened,
                )) in
              (
                subst (λ x. get v key id x ≡ ok (some (signed_record withdrawal_id hex txid r)))
                    written
                    (get-found id iv _ _
                      (locate-replace envelope_id id es env new f (rw own (text_eq_refl id)))),
                λ other n.
                    subst (λ x. get v key other x ≡ get v key other file) written
                      (get-same other file es _ e (
                        locate-replace-other envelope_id id other es new
                          (text_eq_neq _ _ (λ q. n (sym q))) (rw own (text_eq_refl id)))),
              )
        ]
      ]

  get-removed :
      (id : Text) (file file' : PendingFile v)
      → remove v id file ≡ ok file'
      → get v key id file' ≡ ok none
  unfolding remove get
  get-removed id file file' h = elim (Result-cases (read_envelopes file)) [
    | inr (x, e) ↦ absurd (ground arith)
    | inl (es, e) ↦ elim (Bool-cases (length (without envelope_id id es) == length es)) [
      | inl same ↦
          let kept : file ≡ file' = ground arith in
          subst (λ f. get v key id f ≡ ok none) kept
            (rw (e, ◌>>=◌, without-length envelope_id id es ((==_iff _ _).0 same)) refl)
      | inr differ ↦
          let written : write_envelopes (without envelope_id id es) ≡ file' = ground arith in
          subst (λ f. get v key id f ≡ ok none) written
            (rw
              (
                read-write envelope_id (without envelope_id id es),
                ◌>>=◌,
                locate-without envelope_id id es,
              )
              refl)
    ]
  ]

  remove-reads :
      (id : Text) (file : PendingFile v) (es : List (Envelope v)) (x : SdkError)
      → read_envelopes file ≡ ok es
      → remove v id file ≢ err x
  unfolding remove
  remove-reads id file es x e h = ground arith

  discard_signed :
      (id : Text) (file : PendingFile v) (r : PendingWithdrawalRecord)
      → get v key id file ≡ ok (some r)
      → r.state ≡ signed
      → discard_if_unsigned v key id file ≡ file
  unfolding discard_if_unsigned
  discard_signed id file r got s = ground arith

  discard_requested :
      (id : Text) (file : PendingFile v) (r : PendingWithdrawalRecord)
      → get v key id file ≡ ok (some r)
      → r.state ≡ requested
      → discard_if_unsigned v key id file ≡ left v (remove v id file) file
  unfolding discard_if_unsigned
  discard_requested id file r got s = ground arith

  -- After a failure, a stored withdrawal that is signed stays exactly as it is, and one that is only
  -- requested is gone.
  pub discard_if_unsigned-get :
      (id : Text) (file : PendingFile v) (r : PendingWithdrawalRecord)
      → get v key id file ≡ ok (some r)
      → (r.state ≡ signed → discard_if_unsigned v key id file ≡ file)
        × (r.state ≡ requested → get v key id (discard_if_unsigned v key id file) ≡ ok none)
  discard_if_unsigned-get id file r got = (
    discard_signed id file r got,
    λ s. rw (discard_requested id file r got s) (elim (Result-cases (remove v id file)) [
      | inl (file', e) ↦ rw e (get-removed id file file' e)
      | inr (x, e) ↦ elim (Result-cases (read_envelopes file)) [
        | inl (es, f) ↦ absurd (remove-reads id file es x f e)
        | inr (y, f) ↦ absurd (get-unread id file y r f got)
      ]
    ]),
  )
