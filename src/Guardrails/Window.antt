-- ===== src/Guardrails/Window.antt =====
-- `class Guardrails` of src/guardrails/guardrails.ts: the rolling window on disk, the choke point and
-- the accounting. The clock is an argument of each call, in milliseconds; amounts are whole cents.
-- Sums are exact: the source adds in doubles, which agree below 2 ^ 53 cents.
use depix_sdk.Common.{
  ℕ, suc, ◌+◌, ◌-◌, ◌*◌, Bool, true, false, Option, none, some, List, [], ◌∷◌, ◌++◌, if◌then◌else◌,
  keep, leb, ltb, ◌==◌, Result, ok, err, ◌>>=◌, ◌>>◌, throw_if,
}
use depix_sdk.Common.Text.{Text, TextOps}
use depix_sdk.Common.Js.{
  JsNumber, pos, negsuc, above, below, nan, infinity, neg_infinity, positive_safe, str,
}
use depix_sdk.Errors.{
  SdkError, guardrail_invalid_amount, guardrail_per_tx_limit, guardrail_daily_limit,
}
use depix_sdk.Crypto.{Platform}
use depix_sdk.Guardrails.Anchor.{GuardrailAnchor, GuardrailAnchorStore}
use depix_sdk.Guardrails.Allowlist.{GuardrailDestination, AllowlistMatcher, check}
use depix_sdk.Guardrails.StateFile.{StateEntry, State, read_state, state_text}

abbrev pub window_ms : ℕ
window_ms = 24 * 60 * 60 * 1000

pub record GuardrailIntent : Type 0 where
  pub kind : Text
  pub brl_cents : JsNumber
  pub destinations : List GuardrailDestination

pub record GuardrailUsage : Type 0 where
  pub used_cents : ℕ
  pub daily_limit_cents : ℕ
  pub per_tx_limit_cents : ℕ
  pub remaining_cents : ℕ

pub record WindowLoad : Type 0 where
  pub entries : List StateEntry
  pub fail_closed : Bool

-- `now - e.ts <= WINDOW_MS`.
abbrev pub is_recent : ℕ → JsNumber → Bool
is_recent now (pos n) = leb now (n + window_ms)
is_recent now (above n) = leb now (n + window_ms)
is_recent now (negsuc n) = leb (now + suc n) window_ms
is_recent now (below n) = leb (now + suc n) window_ms
is_recent now infinity = true
is_recent now neg_infinity = false
is_recent now nan = false

abbrev pub recent : ℕ → List StateEntry → List StateEntry
recent now = keep λ e. is_recent now e.ts

-- The sum over the entries, as `reduce` adds it up.
abbrev pub sum_cents : List StateEntry → ℕ
sum_cents [] = 0
sum_cents (e ∷ es) = e.brl_cents + sum_cents es

-- What the constructor fixes.
pub record Guardrails (p : Platform) : Type 1 where
  pub per_tx_limit_brl_cents : ℕ
  pub daily_limit_brl_cents : ℕ
  pub matcher : AllowlistMatcher
  pub state_key : p.Key
  pub text_ops : TextOps
  pub liquid_script_hex : Text → Option Text

-- What the state file holds once it is opened, against the anchor.
unfoldable pub load_state : ℕ → GuardrailAnchor → Option State → WindowLoad
load_state now anchor none = record { entries = []; fail_closed = anchor.initialized }
load_state now anchor (some s) =
    if s.epoch == anchor.epoch
    then record { entries = recent now s.entries; fail_closed = false }
    else record { entries = []; fail_closed = anchor.initialized }

-- What lies in the data directory: the anchor in wallet.json, and the text of the state file.
abbrev pub Disk : GuardrailAnchorStore → Type 0
Disk a = a.Store × Option Text

module _ (p : Platform) (a : GuardrailAnchorStore) (g : Guardrails p) where
  -- A missing file, one that fails authentication and one that is malformed come to the same.
  unfoldable pub load_window : ℕ → Disk a → WindowLoad
  unfolding load_state
  load_window now (store, none) = load_state now (a.read store) none
  load_window now (store, some raw) = load_state now (a.read store) (read_state p g.state_key raw)

  unfoldable pub used_in_window : WindowLoad → ℕ
  used_in_window load = if load.fail_closed then g.daily_limit_brl_cents else sum_cents load.entries

  unfoldable pub enforce_amount : WindowLoad → ℕ → Result SdkError (Unit {0})
  unfolding used_in_window
  enforce_amount load attempted = do
    throw_if (ltb g.per_tx_limit_brl_cents attempted) guardrail_per_tx_limit
    throw_if load.fail_closed guardrail_daily_limit
    throw_if (ltb g.daily_limit_brl_cents (used_in_window load + attempted)) guardrail_daily_limit

  -- `enforce(intent)`.
  unfoldable pub enforce : ℕ → Disk a → GuardrailIntent → Result SdkError (Unit {0})
  unfolding enforce_amount
  enforce now disk intent = elim (positive_safe intent.brl_cents) [
    | none ↦ err guardrail_invalid_amount
    | some attempted ↦
        (enforce_amount (load_window now disk) attempted
          >> check g.text_ops g.liquid_script_hex g.matcher intent.destinations)
  ]

  -- The window after a spend, under the epoch that `advance` returned.
  unfoldable pub next_state : ℕ → WindowLoad → ℕ → Text → ℕ → State
  next_state now load cents kind epoch = record {
    epoch = epoch;
    entries =
        recent now load.entries
        ++ record { ts = pos now; brl_cents = cents; kind = some (str kind) } ∷ [];
  }

  -- The body of `recordSpend` under the mutex, with the clock at the load and behind it: the disk after the durable write of the anchor, and
  -- then after that of the state file.
  unfoldable pub record_window :
      ℕ → ℕ → p.Bytes → Disk a → ℕ → Text → Result SdkError (Disk a × Disk a)
  unfolding next_state
  record_window loaded now iv (store, file) cents kind = do
    let load = load_window loaded (store, file)
    throw_if load.fail_closed guardrail_daily_limit
    store' ← a.advance store
    let s = next_state now load cents kind (a.read store').epoch
    ok ((store', file), (store', some (state_text p g.state_key iv s)))

  -- `recordSpend(brlCents, kind)`.
  unfoldable pub record_spend :
      ℕ → ℕ → p.Bytes → Disk a → JsNumber → Text → Result SdkError (Disk a × Disk a)
  record_spend loaded now iv disk brl_cents kind = elim (positive_safe brl_cents) [
    | none ↦ err guardrail_invalid_amount
    | some cents ↦ record_window loaded now iv disk cents kind
  ]

  -- `usage()`; the subtraction is `Math.max(0, …)`.
  unfoldable pub usage : ℕ → Disk a → GuardrailUsage
  unfolding used_in_window
  usage now disk =
      let used = used_in_window (load_window now disk) in
      record {
        used_cents = used;
        daily_limit_cents = g.daily_limit_brl_cents;
        per_tx_limit_cents = g.per_tx_limit_brl_cents;
        remaining_cents = g.daily_limit_brl_cents - used;
      }
