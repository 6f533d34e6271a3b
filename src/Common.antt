-- ===== src/Common.antt =====
-- The parts of source/common.
pub mod Statistic
pub mod Uri
pub mod Counters
pub mod Worker
pub mod Termination
pub mod RateLimiter
pub mod Sequencer
pub mod RequestSource
