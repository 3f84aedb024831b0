-- ===== src/Fanout.antt =====
-- internal/stream/fanout.
pub mod Queue
