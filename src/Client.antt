-- ===== src/Client.antt =====
-- The parts of source/client.
pub mod BenchmarkClient
pub mod StreamDecoder
pub mod Factories
pub mod Options
pub mod Process
