-- ===== src/Handlers.antt =====
-- src/modules/operations/handlers: the three types of operations.
mod Mint
mod Deployment
mod Eligibility
pub mod Target
pub mod Cleared
pub mod Granted
unfoldable pub use Mint.*
unfoldable pub use Deployment.*
unfoldable pub use Eligibility.*
