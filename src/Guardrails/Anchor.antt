-- ===== src/Guardrails/Anchor.antt =====
-- The interface between the guardrails and the wallet file: the marker and the epoch that
-- src/guardrails/guardrails.ts reads and advances through `GuardrailAnchorStore`.
use depix_sdk.Common.{ℕ, suc, ◌≡◌, Bool, true, Result, ok}
use depix_sdk.Errors.{SdkError}

pub record GuardrailAnchor : Type 0 where
  pub initialized : Bool
  pub epoch : ℕ

-- `advance` may fail, and then it has written nothing.
pub record GuardrailAnchorStore : Type 1 where
  pub Store : Type 0
  pub read : Store → GuardrailAnchor
  pub advance : Store → Result SdkError Store
  pub read-advance :
      (s s' : Store)
      → advance s ≡ ok s'
      → read s' ≡ record { initialized = true; epoch = suc (read s).epoch }
