-- ===== src/Status/Tests.antt =====
-- A deposit that is sent in the third round, and a withdrawal that takes too long.
use depix_sdk.Common.{◌≡◌, refl, true, false, none, some, List, [], ◌∷◌, Result, ok, err}
use depix_sdk.Common.Text.{Text, codes}
use depix_sdk.Errors.{SdkError, poll_timeout}
use depix_sdk.Status.{
  StatusReadResponse, Round, is_deposit_terminal, is_withdraw_terminal, poll_until_terminal,
  wait_for_deposit, wait_for_withdrawal, has_timed_out,
}
use depix_sdk.Status.Polling.{Fetched, poll_until_terminal-Fetched, poll_until_terminal-is_overdue}

abbrev status : Text → StatusReadResponse
status s = record { status = s; sandbox = false }

abbrev deposit_rounds : List Round
deposit_rounds =
    record { fetched = ok (status (codes "pending")); now = 100 }
    ∷ record { fetched = ok (status (codes "approved")); now = 5100 }
    ∷ record { fetched = ok (status (codes "depix_sent")); now = 10100 }
    ∷ []

sent : wait_for_deposit none 0 deposit_rounds ≡ some (ok (status (codes "depix_sent")))
unfolding wait_for_deposit poll_until_terminal is_deposit_terminal has_timed_out
sent = refl

sent_by_polling :
    poll_until_terminal is_deposit_terminal none 0 deposit_rounds
    ≡ some (ok (status (codes "depix_sent")))
unfolding poll_until_terminal is_deposit_terminal has_timed_out
sent_by_polling = refl

poll_until_terminal-Fetched_example :
    (is_deposit_terminal (status (codes "depix_sent")) ≡ true)
    × Fetched (status (codes "depix_sent")) deposit_rounds
poll_until_terminal-Fetched_example =
    poll_until_terminal-Fetched is_deposit_terminal none 0 deposit_rounds
      (status (codes "depix_sent")) sent_by_polling

too_late : wait_for_withdrawal (some 5000) 0 deposit_rounds ≡ some (err poll_timeout)
unfolding wait_for_withdrawal poll_until_terminal is_withdraw_terminal has_timed_out
too_late = refl

poll_until_terminal-is_overdue_example :
    (r : Result SdkError StatusReadResponse) × (poll_until_terminal is_withdraw_terminal
        (some 5000)
        0
        deposit_rounds
      ≡ some r)
poll_until_terminal-is_overdue_example =
    poll_until_terminal-is_overdue is_withdraw_terminal 5000 0 deposit_rounds refl
