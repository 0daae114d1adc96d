-- ===== src/Demo.antt =====
-- examples/demo/main.go: the demonstration program.
pub mod Colour
pub mod Orders
pub mod Run
pub mod Replay
mod Tests
