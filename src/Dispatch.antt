-- ===== src/Dispatch.antt =====
-- src/modules/outbox/outbox-dispatcher.ts: the publication of committed outbox rows.
mod Defs
pub mod Undispatched
pub mod Published
unfoldable pub use Defs.*
