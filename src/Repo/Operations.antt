-- ===== src/Repo/Operations.antt =====
-- src/db/repositories/operation-repository.ts: operations and their timeline.
mod Defs
pub mod Laws
unfoldable pub use Defs.*
