-- ===== src/Sink.antt =====
-- The parts of source/sink.
pub mod Store
pub mod Merge
