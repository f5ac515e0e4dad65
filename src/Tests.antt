-- ===== src/Tests.antt =====
-- A concrete store, host and actors, and runs of the code on them.
mod Fixtures
mod Lifecycle
mod Approving
mod Keys
mod Leasing
mod Sending
mod Chain
mod Executing
mod Minting
mod Replacing
