-- ===== src/Repo/Attempts.antt =====
-- src/db/repositories/transaction-repository.ts: transaction attempts.
mod Defs
unfoldable pub use Defs.*
