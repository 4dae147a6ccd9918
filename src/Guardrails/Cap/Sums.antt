-- ===== src/Guardrails/Cap/Sums.antt =====
-- Sums over the rolling window.
use depix_sdk.Common.{ℕ, ◌+◌, ◌≤◌, ◌≡◌, refl, List, [], ◌∷◌, ◌++◌, Bool, arith}
use depix_sdk.Common.Js.{JsNumber, pos, negsuc, above, below}
use depix_sdk.Guardrails.StateFile.{StateEntry}
use depix_sdk.Guardrails.Window.{is_recent, recent, sum_cents}
use depix_sdk.Guardrails.Cap.{Log, spent}

pub spent_mono : (t now : ℕ) (log : Log) → t ≤ now → spent now log ≤ spent t log
spent_mono t now [] h = omega arith
spent_mono t now ((ts, cents) ∷ log) h = ground (arith, spent_mono t now log h)

is_recent_mono :
    (t now : ℕ) (ts : JsNumber)
    → t ≤ now
    → is_recent now ts ≡ Bool.true
    → is_recent t ts ≡ Bool.true
is_recent_mono t now (pos n) h r = ground arith
is_recent_mono t now (above n) h r = ground arith
is_recent_mono t now (negsuc n) h r = ground arith
is_recent_mono t now (below n) h r = ground arith
is_recent_mono t now _ h r = r

pub recent-recent :
    (t now : ℕ) (es : List StateEntry) → t ≤ now → recent now (recent t es) ≡ recent now es
recent-recent t now [] h = refl
recent-recent t now (e ∷ es) h =
    ground (arith, is_recent_mono t now e.ts h, recent-recent t now es h)

pub sum_cents-recent-append :
    (now : ℕ) (es fs : List StateEntry)
    → sum_cents (recent now (es ++ fs)) ≡ sum_cents (recent now es) + sum_cents (recent now fs)
sum_cents-recent-append now [] fs = omega arith
sum_cents-recent-append now (e ∷ es) fs = ground (arith, sum_cents-recent-append now es fs)

pub sum_cents-recent-le :
    (now : ℕ) (es : List StateEntry) → sum_cents (recent now es) ≤ sum_cents es
sum_cents-recent-le now [] = omega arith
sum_cents-recent-le now (e ∷ es) = ground (arith, sum_cents-recent-le now es)
