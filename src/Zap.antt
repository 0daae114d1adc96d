-- ===== src/Zap.antt =====
-- zapadapter: the zap core.
pub mod Types
pub mod Options
pub mod Core
pub mod Kept
pub mod Calls
pub mod Session
pub mod Unscoped
mod Tests
