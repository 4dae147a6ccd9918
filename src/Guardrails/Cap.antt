-- ===== src/Guardrails/Cap.antt =====
-- The daily ceiling of src/guardrails/guardrails.ts over histories: spends that pass the choke point
-- and are recorded, crashes between the two durable writes, and an intruder who deletes the state
-- file, replaces it by one that does not authenticate, or puts back any file that was written before.
pub mod Sums
pub mod Invariant
pub mod Spends
pub mod Ceiling
use depix_sdk.Common.{
  ℕ, suc, ◌+◌, ◌≤◌, ◌≡◌, refl, Option, none, some, List, [], ◌∷◌, Bool, true, false, leb,
  if◌then◌else◌, Result, ok, ◌⊎◌,
}
use depix_sdk.Common.Text.{Text}
use depix_sdk.Common.Js.{JsNumber, Json, positive_safe}
use depix_sdk.Crypto.{Platform}
use depix_sdk.Guardrails.Anchor.{GuardrailAnchorStore}
use depix_sdk.Guardrails.StateFile.{read_state}
use depix_sdk.Guardrails.Window.{
  Guardrails, Disk, GuardrailIntent, window_ms, enforce, record_spend,
}

-- Time and amount of each spend that was signed, newest first.
abbrev pub Log : Type 0
Log = List (ℕ × ℕ)

-- What was spent in the 24 hours up to `now`.
abbrev pub spent : ℕ → Log → ℕ
spent now [] = 0
spent now ((ts, cents) ∷ log) = (if leb now (ts + window_ms) then cents else 0) + spent now log

-- `raw` is one of the texts.
abbrev pub IsOneOf : Text → List Text → Type 0
IsOneOf raw [] = ⊥
IsOneOf raw (w ∷ ws) = (raw ≡ w) ⊎ IsOneOf raw ws

module _ (p : Platform) (a : GuardrailAnchorStore) (g : Guardrails p) where
  -- The disk, what was spent, every state file ever written, and the time of the last event.
  pub record World : Type 0 where
    pub disk : Disk a
    pub log : Log
    pub written : List Text
    pub clock : ℕ

  -- A spend is checked at `t₁`; the window is loaded at `t₂` and stamped at `t₃`, under one mutex.
  pub data Step (w : World) : World → Type 0 where
    spend :
        (t₁ t₂ t₃ cents : ℕ) (iv : p.Bytes) (intent : GuardrailIntent) (kind : Text) (s : a.Store)
        (raw : Text) (between : Disk a)
        → w.clock ≤ t₁
        → t₁ ≤ t₂
        → t₂ ≤ t₃
        → positive_safe intent.brl_cents ≡ some cents
        → enforce p a g t₁ w.disk intent ≡ ok tt
        → record_spend p a g t₂ t₃ iv w.disk intent.brl_cents kind ≡ ok (between, (s, some raw))
        → Step w (record {
          disk = (s, some raw);
          log = (t₃, cents) ∷ w.log;
          written = raw ∷ w.written;
          clock = t₃;
        })
    crash :
        (t₂ t₃ : ℕ) (iv : p.Bytes) (v : JsNumber) (kind : Text) (between after : Disk a)
        → w.clock ≤ t₂
        → record_spend p a g t₂ t₃ iv w.disk v kind ≡ ok (between, after)
        → Step w (record w { disk = between })
    delete : Step w (record w { disk = (w.disk.0, none) })
    garble :
        (raw : Text)
        → read_state p g.state_key raw ≡ none
        → Step w (record w { disk = (w.disk.0, some raw) })
    replay :
        (raw : Text) → IsOneOf raw w.written → Step w (record w { disk = (w.disk.0, some raw) })

  pub data Reach (w : World) : World → Type 0 where
    here : Reach w w
    next : {u v : World} → Reach w u → Step u v → Reach w v
