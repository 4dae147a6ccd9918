-- ===== src/Guardrails.antt =====
-- The guardrails in front of every operation that signs (src/guardrails).
pub mod Config
pub mod Allowlist
pub mod StateFile
pub mod Anchor
pub mod Window
pub mod FailClosed
pub mod Cap
mod Tests
