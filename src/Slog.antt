-- ===== src/Slog.antt =====
-- The root package: the slog handler, the scope functions and the HTTP middleware.
pub mod Types
pub mod Options
pub mod Scope
pub mod View
pub mod Handler
pub mod New
pub mod Live
pub mod Kept
pub mod Calls
pub mod Session
pub mod Replay
pub mod Built
pub mod Middleware
pub mod Served
pub mod Tripped
pub mod Request
pub mod Unscoped
mod Tests
