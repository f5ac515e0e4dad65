-- ===== src/Idempotency.antt =====
-- src/modules/idempotency/idempotency-service.ts: financial mutations under an idempotency key.
mod Defs
pub mod Replay
unfoldable pub use Defs.*
