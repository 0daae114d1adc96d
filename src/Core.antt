-- ===== src/Core.antt =====
-- internal/core: the adapter-neutral buffering engine.
pub mod Types
pub mod SyncPool
pub mod Pool
pub mod Log
pub mod Scope
pub mod Carrier
pub mod Context
pub mod Lease
pub mod Race
mod Tests
