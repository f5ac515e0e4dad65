-- ===== src/Db.antt =====
-- src/db/schema and src/db/pool.ts: the tables of the database, and what runs against them.
mod Codes
mod Rows
mod Monad
pub mod Within
pub mod Atomic
unfoldable pub use Codes.*
unfoldable pub use Rows.*
unfoldable pub use Monad.*
