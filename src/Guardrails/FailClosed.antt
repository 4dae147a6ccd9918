-- ===== src/Guardrails/FailClosed.antt =====
-- A window that cannot be trusted blocks every spend.
use depix_sdk.Common.{
  ℕ, ◌≡◌, ◌≢◌, refl, true, false, Option, none, some, arith, Option-cases, inl, inr, is_ok,
}
use depix_sdk.Common.Text.{Text}
use depix_sdk.Common.Js.{JsNumber}
use depix_sdk.Crypto.{Platform}
use depix_sdk.Guardrails.Anchor.{GuardrailAnchorStore}
use depix_sdk.Guardrails.StateFile.{State, read_state}
use depix_sdk.Guardrails.Window.{
  Guardrails, Disk, GuardrailIntent, load_state, load_window, enforce, record_spend, record_window,
  usage,
}

module _ (p : Platform) (a : GuardrailAnchorStore) (g : Guardrails p) where
  -- What the state file opens to.
  abbrev pub opened : Option Text → Option State
  opened none = none
  opened (some raw) = read_state p g.state_key raw

  -- The marker is set, and the file does not open to a state of the anchor's epoch: it is missing,
  -- it fails authentication or parsing, or it is another epoch's.
  pub record IsUntrusted (disk : Disk a) : Type 0 where
    pub marked : (a.read disk.0).initialized ≡ true
    pub mismatch : (s : State) → opened disk.1 ≡ some s → s.epoch ≢ (a.read disk.0).epoch

  pub load_window-opened :
      (now : ℕ) (disk : Disk a)
      → load_window p a g now disk ≡ load_state now (a.read disk.0) (opened disk.1)
  unfolding load_window
  load_window-opened now (store, none) = refl
  load_window-opened now (store, some raw) = refl

  load_window_untrusted :
      (now : ℕ) (disk : Disk a) → IsUntrusted disk → (load_window p a g now disk).fail_closed ≡ true
  unfolding load_state
  load_window_untrusted now disk u = elim (Option-cases (opened disk.1)) [
    | inl e ↦ ground (arith, load_window-opened now disk, u.marked)
    | inr (s, e) ↦ ground (arith, load_window-opened now disk, u.marked, u.mismatch s e)
  ]

  -- On an untrusted disk no intent passes, no spend is recorded, and the usage shows a full window.
  pub untrusted_blocks :
      (disk : Disk a) (now later : ℕ) (iv : p.Bytes) (intent : GuardrailIntent) (v : JsNumber)
      (kind : Text)
      → IsUntrusted disk
      → (is_ok (enforce p a g now disk intent) ≡ false)
        × (is_ok (record_spend p a g now later iv disk v kind) ≡ false)
        × ((usage p a g now disk).remaining_cents ≡ 0)
  unfolding enforce record_spend record_window usage
  untrusted_blocks disk now later iv intent v kind u = (
    ground (arith, load_window_untrusted now disk u),
    ground (arith, load_window_untrusted now disk u),
    ground (arith, load_window_untrusted now disk u),
  )
