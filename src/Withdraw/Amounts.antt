-- ===== src/Withdraw/Amounts.antt =====
-- The amounts that a validated withdrawal acts on.
use depix_sdk.Common.{
  ℕ, ◌+◌, ◌≤◌, ◌≡◌, refl, Bool, true, false, not, ◌&&◌, Option, none, some, if◌then◌else◌, ◌==◌,
  Result, ok, arith, throw_if, Ensures, Ensures-bind, Ensures-mono, >>=-eq-ok, throw_if-Ensures,
  Result-cases, Bool-cases, inl, inr, leb→le, subst, ==_iff,
}
use depix_sdk.Common.Text.{Text}
use depix_sdk.Common.Js.{
  Json, null, boolean, num, str, arr, obj, JsNumber, positive_safe, max_safe_integer,
}
use depix_sdk.Errors.{SdkError}
use depix_sdk.Withdraw.{
  WithdrawWireResponse, NormalizedWithdraw, normalized, is_present, is_nonempty_string,
  assert_positive_int, gross_of, fee_of, normalize_withdraw_response, assert_split_consistent,
  assert_fee_address_explicit, validate_fee, assert_parseable, validate_live,
  process_withdraw_response,
}

-- At least one cent, and exact as a number of JavaScript.
abbrev pub IsAmount : ℕ → Type 0
IsAmount n = (1 ≤ n) × (n ≤ max_safe_integer)

positive_safe-IsAmount : (v : JsNumber) (n : ℕ) → positive_safe v ≡ some n → IsAmount n
positive_safe-IsAmount v n h = ground (arith, leb→le n max_safe_integer)

assert_positive_int-IsAmount : (j : Option Json) → Ensures IsAmount (assert_positive_int j)
unfolding assert_positive_int
assert_positive_int-IsAmount (some (num v)) = ground (arith, positive_safe-IsAmount v)
assert_positive_int-IsAmount none = tt
assert_positive_int-IsAmount (some null) = tt
assert_positive_int-IsAmount (some (boolean b)) = tt
assert_positive_int-IsAmount (some (str t)) = tt
assert_positive_int-IsAmount (some (arr items)) = tt
assert_positive_int-IsAmount (some (obj fields)) = tt

-- The GROSS is an amount, and the NET where the answer has no total.
abbrev IsGross : Option Json → ℕ → ℕ → Type 0
IsGross total net gross = IsAmount gross × (total ≡ none → gross ≡ net)

gross_of-IsGross :
    (total : Option Json) (net : ℕ)
    → IsAmount net
    → Ensures (IsGross total net) (gross_of total net)
unfolding gross_of
gross_of-IsGross none net h = (h, λ e. refl)
gross_of-IsGross (some total) net h = elim (Result-cases (assert_positive_int (some total))) [
  | inr (x, e) ↦ rw e tt
  | inl (n, e) ↦
      rw e
        (subst (Ensures IsAmount) e (assert_positive_int-IsAmount (some total)), λ z. absurd (cc z))
]

abbrev IsFee : Bool → Option ℕ → Type 0
IsFee has_fee fee = has_fee ≡ true → (f : ℕ) × (fee ≡ some f) × IsAmount f

fee_of-IsFee :
    (has_fee : Bool) (cents : Option Json) → Ensures (IsFee has_fee) (fee_of has_fee cents)
unfolding fee_of
fee_of-IsFee false cents = λ z. absurd (cc z)
fee_of-IsFee true cents = elim (Result-cases (assert_positive_int cents)) [
  | inr (x, e) ↦ rw e tt
  | inl (n, e) ↦
      rw e (λ z. (n, refl, subst (Ensures IsAmount) e (assert_positive_int-IsAmount cents)))
]

-- What the normal form of a response guarantees.
pub record IsNormal (wire : WithdrawWireResponse) (norm : NormalizedWithdraw) : Type 0 where
  pub net : IsAmount norm.net_cents
  pub gross : IsAmount norm.gross_cents
  pub payout : IsAmount norm.payout_cents
  pub unsplit : wire.total_deposit_amount_in_cents ≡ none → norm.gross_cents ≡ norm.net_cents
  pub fee : norm.has_fee ≡ true → (f : ℕ) × (norm.fee_cents ≡ some f) × IsAmount f

normalize-IsNormal :
    (to_string : Option Json → Text) (wire : WithdrawWireResponse)
    → Ensures (IsNormal wire) (normalize_withdraw_response to_string wire)
unfolding normalize_withdraw_response normalized
normalize-IsNormal to_string wire =
    Ensures-bind IsAmount (IsNormal wire) (assert_positive_int wire.deposit_amount_in_cents) _
      (assert_positive_int-IsAmount wire.deposit_amount_in_cents)
      (λ net hn.
        Ensures-bind IsAmount (IsNormal wire) (assert_positive_int wire.payout_amount_in_cents) _
          (assert_positive_int-IsAmount wire.payout_amount_in_cents)
          (λ payout hp.
            Ensures-bind (IsGross wire.total_deposit_amount_in_cents net) (IsNormal wire)
              (gross_of wire.total_deposit_amount_in_cents net) _
              (gross_of-IsGross wire.total_deposit_amount_in_cents net hn)
              (λ gross hg. Ensures-bind _ (IsNormal wire) _ _ (throw_if-Ensures _ _) (λ done pair.
                Ensures-bind
                  (IsFee (is_present wire.fee_cents && is_nonempty_string wire.fee_address))
                  (IsNormal wire) _ (λ fee. ok (normalized to_string wire net payout gross fee))
                  (fee_of-IsFee _ wire.fee_cents)
                  (λ fee hf. record {
                    net = hn;
                    gross = hg.0;
                    payout = hp;
                    unsplit = hg.1;
                    fee = hf;
                  })))))

-- With a fee, the NET and the fee make the GROSS, and the fee goes to an address that parses and is
-- not blinded.
abbrev pub IsSplit : (Text → Option Bool) → NormalizedWithdraw → Option Text → Option ℕ → Type 0
IsSplit parse_address norm address fee =
    (f : ℕ) × (a : Text) × (fee ≡ some f)
    × (address ≡ some a)
    × (norm.net_cents + f ≡ norm.gross_cents)
    × (parse_address a ≡ some false)

-- A withdrawal that reaches the guardrails.
pub record IsValidated (parse_address : Text → Option Bool) (wire : WithdrawWireResponse)
    (norm : NormalizedWithdraw) : Type 0 where
  pub normal : IsNormal wire norm
  pub split : norm.has_fee ≡ true → IsSplit parse_address norm norm.fee_address norm.fee_cents
  pub parseable : (b : Bool) × (parse_address norm.deposit_address ≡ some b)

explicit-some :
    (parse_address : Text → Option Bool) (a : Text)
    → Ensures (λ done. parse_address a ≡ some false) (assert_fee_address_explicit parse_address a)
unfolding assert_fee_address_explicit
explicit-some parse_address a = ground arith

validate_fee-IsSplit :
    (parse_address : Text → Option Bool) (norm : NormalizedWithdraw) (address : Option Text)
    (fee : Option ℕ)
    → Ensures
        (λ done. IsSplit parse_address norm address fee)
        (validate_fee parse_address norm address fee)
unfolding validate_fee assert_fee_address_explicit assert_split_consistent
validate_fee-IsSplit parse_address norm none fee = tt
validate_fee-IsSplit parse_address norm (some a) none = tt
validate_fee-IsSplit parse_address norm (some a) (some f) =
    Ensures-bind (λ done. parse_address a ≡ some false) _
      (assert_fee_address_explicit parse_address a)
      (λ done. assert_split_consistent norm.net_cents f norm.gross_cents)
      (explicit-some parse_address a)
      (λ done e. elim (Bool-cases (norm.net_cents + f == norm.gross_cents)) [
        | inl b ↦ rw (b, not, throw_if) (f, a, refl, refl, (==_iff _ _).0 b, e)
        | inr b ↦ rw (b, not, throw_if) tt
      ])

assert_parseable-some :
    (parse_address : Text → Option Bool) (a : Text)
    → Ensures (λ done. (b : Bool) × (parse_address a ≡ some b)) (assert_parseable parse_address a)
unfolding assert_parseable
assert_parseable-some parse_address a = ground arith

-- What the validations ensure of a normal form.
abbrev IsLive : (Text → Option Bool) → NormalizedWithdraw → Option NormalizedWithdraw → Type 0
IsLive parse_address norm out =
    (out ≡ some norm)
    × (norm.has_fee ≡ true → IsSplit parse_address norm norm.fee_address norm.fee_cents)
    × ((b : Bool) × (parse_address norm.deposit_address ≡ some b))

guarded :
    (b : Bool) (m : Result SdkError (Unit {0})) (S : Type 0)
    → Ensures (λ done. S) m
    → Ensures (λ done. b ≡ true → S) (if b then m else ok tt)
guarded true m S h = Ensures-mono m (λ done s e. s) h
guarded false m S h = λ e. absurd (cc e)

fee_checked :
    (parse_address : Text → Option Bool) (norm : NormalizedWithdraw)
    → Ensures
        (λ done. norm.has_fee ≡ true → IsSplit parse_address norm norm.fee_address norm.fee_cents)
        (if norm.has_fee
          then validate_fee parse_address norm norm.fee_address norm.fee_cents
          else ok tt)
fee_checked parse_address norm =
    guarded norm.has_fee (validate_fee parse_address norm norm.fee_address norm.fee_cents) _
      (validate_fee-IsSplit parse_address norm norm.fee_address norm.fee_cents)

validate_live-IsLive :
    (parse_address : Text → Option Bool) (norm : NormalizedWithdraw)
    → Ensures (IsLive parse_address norm) (validate_live parse_address norm)
unfolding validate_live
validate_live-IsLive parse_address norm =
    Ensures-bind _ (IsLive parse_address norm) _ _ (fee_checked parse_address norm) (λ done split.
      Ensures-bind _ (IsLive parse_address norm)
        (assert_parseable parse_address norm.deposit_address) (λ done. ok (some norm))
        (assert_parseable-some parse_address norm.deposit_address)
        (λ done parsed. (refl, split, parsed)))

-- An answer that passes and is not the sandbox's yields a withdrawal of which every amount is at least
-- one cent and a safe integer, the GROSS is the NET where there is no total, the deposit address
-- parses, and where there is a fee, the NET and the fee make the GROSS and the fee address is not
-- blinded.
pub process_withdraw_response-IsValidated :
    (to_string : Option Json → Text) (parse_address : Text → Option Bool)
    (wire : WithdrawWireResponse) (norm : NormalizedWithdraw)
    → process_withdraw_response to_string parse_address wire ≡ ok (some norm)
    → IsValidated parse_address wire norm
unfolding process_withdraw_response
process_withdraw_response-IsValidated to_string parse_address wire norm h =
    let r = >>=-eq-ok (normalize_withdraw_response to_string wire) _ h in
    let normal = subst (Ensures (IsNormal wire)) r.1 (normalize-IsNormal to_string wire) in
    elim (Bool-cases r.0.sandbox) [
      | inl e ↦ absurd (
          cc (
            subst (λ b. (if b then ok none else validate_live parse_address r.0) ≡ ok (some norm)) e
              r.2))
      | inr e ↦
          let passed =
            subst (λ b. (if b then ok none else validate_live parse_address r.0) ≡ ok (some norm)) e
              r.2 in
          let live =
            subst (Ensures (IsLive parse_address r.0)) passed
              (validate_live-IsLive parse_address r.0) in
          subst (IsValidated parse_address wire) (ground (arith, live.0))
            (record { normal = normal; split = live.1; parseable = live.2 })
    ]
