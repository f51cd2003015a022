-- ===== src/Subscriptions.antt =====
-- ws/internal/server/connection.go: the subscriptions of the WebSocket server. Each operation runs
-- under its lock, so it is one step.
pub mod Set
pub mod Index
pub mod Members
pub mod Refinement
mod Tests
