-- ===== src/Domain/Canonical.antt =====
-- src/domain/canonical.ts: deterministic JSON and its hash.
mod Defs
unfoldable pub use Defs.*
