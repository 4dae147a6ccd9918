-- ===== src/Sideshift/Log/Tests.antt =====
-- The log of shifts on concrete records.
use depix_sdk.Common.{List, [], ◌∷◌, none, arith}
use depix_sdk.Common.Text.{codes}
use depix_sdk.Vault.{read_envelopes, write_envelopes}
use depix_sdk.Sideshift.Log.{StoredSideShift, Shifts, shift_send, read_shifts}
use depix_sdk.Sideshift.Log.Distinct.{KeepsLog, LogStep, saves, updates, removes, run, run-KeepsLog}

abbrev shift : StoredSideShift
shift = record {
  id = codes "a1";
  type = shift_send;
  network = codes "tron";
  deposit_address = codes "deposit";
  settle_address = codes "settle";
  refund_address = none;
  status = codes "waiting";
  deposit_amount = none;
  settle_amount = none;
  liquid_txid = none;
  expires_at = none;
  created_at = 0;
  updated_at = 5;
}

abbrev empty_log : Shifts
empty_log = write_envelopes []

abbrev traffic : List LogStep
traffic =
    saves 7 shift
    ∷ saves 8 (record shift { id = codes "b2" })
    ∷ updates 9 (codes "a1") (λ s. record s { status = codes "settled" })
    ∷ saves 10 shift
    ∷ removes (codes "b2")
    ∷ []

empty_log-KeepsLog : KeepsLog empty_log
unfolding read_shifts read_envelopes write_envelopes
empty_log-KeepsLog = (omega arith, tt)

run-KeepsLog_example : KeepsLog (run traffic empty_log)
run-KeepsLog_example = run-KeepsLog traffic empty_log empty_log-KeepsLog
