-- ===== src/Status/Polling.antt =====
-- What polling returns, and that it ends.
use depix_sdk.Common.{
  ℕ, ◌+◌, ◌≡◌, refl, subst, Bool, true, Option, some, List, [], ◌∷◌, if◌then◌else◌, leb, any,
  Result, ok, err, arith, Bool-cases, Result-cases, inl, inr, ◌||◌, ◌⊎◌,
}
use depix_sdk.Errors.{SdkError, poll_timeout}
use depix_sdk.Status.{StatusReadResponse, Round, has_timed_out, poll_until_terminal}

-- Some round fetched this status.
abbrev pub Fetched : StatusReadResponse → List Round → Type 0
Fetched s [] = ⊥
Fetched s (r ∷ rest) = (r.fetched ≡ ok s) ⊎ Fetched s rest

-- The clock of some round is `timeout` past the start.
abbrev pub is_overdue : ℕ → ℕ → List Round → Bool
is_overdue timeout start = any λ r. leb (start + timeout) r.now

module _ (is_terminal : StatusReadResponse → Bool) where
  -- A status that polling returns is terminal, and one of the rounds fetched it.
  pub poll_until_terminal-Fetched :
      (timeout : Option ℕ) (start : ℕ) (rounds : List Round) (s : StatusReadResponse)
      → poll_until_terminal is_terminal timeout start rounds ≡ some (ok s)
      → (is_terminal s ≡ true) × Fetched s rounds
  unfolding poll_until_terminal
  poll_until_terminal-Fetched timeout start [] s h = cc
  poll_until_terminal-Fetched timeout start (r ∷ rest) s h =
      ground (arith, poll_until_terminal-Fetched timeout start rest s)

  -- With a timeout, polling ends by the first round whose clock is that much past the start.
  pub poll_until_terminal-is_overdue :
      (timeout start : ℕ) (rounds : List Round)
      → is_overdue timeout start rounds ≡ true
      → (r : Result SdkError StatusReadResponse) × (poll_until_terminal is_terminal
            (some timeout)
            start
            rounds
          ≡ some r)
  unfolding poll_until_terminal has_timed_out
  poll_until_terminal-is_overdue timeout start [] h = cc
  poll_until_terminal-is_overdue timeout start (r ∷ rest) h = elim (Result-cases r.fetched) [
    | inr (e, f) ↦ (err e, rw f refl)
    | inl (s, f) ↦ elim (Bool-cases (is_terminal s)) [
      | inl t ↦ (ok s, rw (f, t, if◌then◌else◌) refl)
      | inr t ↦ elim (Bool-cases (leb (start + timeout) r.now)) [
        | inl o ↦ (err poll_timeout, rw (f, t, o, if◌then◌else◌) refl)
        | inr o ↦
            let later =
              poll_until_terminal-is_overdue timeout start rest
                (subst (λ b. (b || is_overdue timeout start rest) ≡ true) o h) in
            (later.0, rw (f, t, o, if◌then◌else◌) later.1)
      ]
    ]
  ]
