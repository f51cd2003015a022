-- ===== src/History.antt =====
-- ws/internal/server/history: the position codec. The writer of the history streams is not modelled.
pub mod Position
mod Tests
