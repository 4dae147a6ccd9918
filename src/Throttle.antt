-- ===== src/Throttle.antt =====
-- src/api/throttle.ts: the pacing of API calls. The clock and the sleep are arguments: each sleep
-- takes the time that was asked for and some delay on top.
pub mod Window
mod Tests
use depix_sdk.Common.{
  ℕ, suc, ◌+◌, ◌-◌, Bool, Option, none, some, List, [], ◌∷◌, ◌++◌, if◌then◌else◌, ltb, length,
  Result, ok, err,
}
use depix_sdk.Common.Text.{Text, text_eq}
use depix_sdk.Common.Js.{JsNumber, positive_safe}
use depix_sdk.Errors.{SdkError, platform_failure}

pub record Throttle : Type 0 where
  pub limit : ℕ
  pub window_ms : ℕ

abbrev pub or_minute : Option ℕ → ℕ
or_minute none = 60000
or_minute (some ms) = ms

-- The constructor: a limit that is no positive integer throws. Integers beyond the safe ones are left
-- out.
unfoldable pub new_throttle : JsNumber → Option ℕ → Result SdkError Throttle
new_throttle limit window_ms = elim (positive_safe limit) [
  | none ↦ err platform_failure
  | some n ↦ ok (record { limit = n; window_ms = or_minute window_ms })
]

-- `timestamps.filter((t) => nowMs - t < this.windowMs)`.
unfoldable pub fresh : ℕ → ℕ → List ℕ → List ℕ
fresh window_ms now [] = []
fresh window_ms now (t ∷ ts) =
    let rest = fresh window_ms now ts in if ltb now (t + window_ms) then t ∷ rest else rest

-- `this.windowMs - (nowMs - fresh[0]) + 1`. The oldest acquisition is inside the window, so the
-- difference is not negative; the empty list does not occur, since the limit is positive.
abbrev pub wait_ms : ℕ → ℕ → List ℕ → ℕ
wait_ms window_ms now [] = 0
wait_ms window_ms now (t ∷ ts) = t + window_ms + 1 - now

-- One pass of the loop: the bucket that it leaves, and how long to wait if there is no slot.
pub data Pass : Type 0 where
  acquired : List ℕ → Pass
  waits : ℕ → List ℕ → Pass

unfoldable pub pass : Throttle → ℕ → List ℕ → Pass
unfolding fresh
pass th now bucket =
    let kept = fresh th.window_ms now bucket in
    if ltb (length kept) th.limit
    then acquired (kept ++ now ∷ [])
    else waits (wait_ms th.window_ms now kept) kept

-- `acquire(bucket)` on the timestamps of its bucket, with the delays of the sleeps that it may take:
-- the time at which it returns and the bucket; `none` is a loop that is still waiting at the end.
unfoldable pub acquire : Throttle → List ℕ → ℕ → List ℕ → Option (ℕ × List ℕ)
acquire th [] now bucket = elim (pass th now bucket) [
  | acquired kept ↦ some (now, kept)
  | waits ms kept ↦ none
]
acquire th (delay ∷ delays) now bucket = elim (pass th now bucket) [
  | acquired kept ↦ some (now, kept)
  | waits ms kept ↦ acquire th delays (now + ms + delay) kept
]
