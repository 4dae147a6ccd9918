-- ===== src/Status.antt =====
-- src/flows/status.ts: polling a deposit or a withdrawal until its status is terminal. What the API
-- answers and what the clock says behind each answer is the argument, one entry for each round.
pub mod Polling
mod Tests
use depix_sdk.Common.{
  ℕ, ◌+◌, Bool, true, false, ◌&&◌, ◌||◌, Option, none, some, List, [], ◌∷◌, if◌then◌else◌, leb, any,
  Result, ok, err,
}
use depix_sdk.Common.Text.{Text, codes, text_eq}
use depix_sdk.Errors.{SdkError, poll_timeout}

-- The fields that the polling reads; `sandbox` is whether the field is literally true.
pub record StatusReadResponse : Type 0 where
  pub status : Text
  pub sandbox : Bool

abbrev pub deposit_terminal : List Text
deposit_terminal =
    codes "depix_sent" ∷ codes "refunded" ∷ codes "canceled" ∷ codes "error" ∷ codes "expired" ∷ []

abbrev pub withdraw_terminal : List Text
withdraw_terminal =
    codes "sent" ∷ codes "refunded" ∷ codes "cancelled" ∷ codes "error" ∷ codes "expired" ∷ []

unfoldable pub is_deposit_terminal : StatusReadResponse → Bool
is_deposit_terminal s = any (text_eq s.status) deposit_terminal

unfoldable pub is_withdraw_terminal : StatusReadResponse → Bool
is_withdraw_terminal s =
    if s.sandbox && text_eq s.status (codes "confirmed")
    then true
    else any (text_eq s.status) withdraw_terminal

-- One round: what the GET returned or threw, and the clock behind it.
pub record Round : Type 0 where
  pub fetched : Result SdkError StatusReadResponse
  pub now : ℕ

-- `options.timeoutMs !== undefined && now() - start >= options.timeoutMs`.
unfoldable pub has_timed_out : Option ℕ → ℕ → ℕ → Bool
has_timed_out none start now = false
has_timed_out (some timeout_ms) start now = leb (start + timeout_ms) now

-- `pollUntilTerminal`; `none` is a loop that still polls behind the rounds.
unfoldable pub poll_until_terminal :
    (StatusReadResponse → Bool)
    → Option ℕ
    → ℕ
    → List Round
    → Option (Result SdkError StatusReadResponse)
poll_until_terminal is_terminal timeout_ms start [] = none
poll_until_terminal is_terminal timeout_ms start (r ∷ rest) =
    let polled = poll_until_terminal is_terminal timeout_ms start rest in
    elim r.fetched [
      | err e ↦ some (err e)
      | ok s ↦
          if is_terminal s
          then some (ok s)
          else if has_timed_out timeout_ms start r.now
          then some (err poll_timeout)
          else polled
    ]

unfoldable pub wait_for_deposit :
    Option ℕ → ℕ → List Round → Option (Result SdkError StatusReadResponse)
unfolding poll_until_terminal is_deposit_terminal
wait_for_deposit = poll_until_terminal is_deposit_terminal

unfoldable pub wait_for_withdrawal :
    Option ℕ → ℕ → List Round → Option (Result SdkError StatusReadResponse)
unfolding poll_until_terminal is_withdraw_terminal
wait_for_withdrawal = poll_until_terminal is_withdraw_terminal
