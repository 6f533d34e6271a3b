-- ===== src/Client/Process.antt =====
-- The main process around the workers: source/client/process_impl.cc.
pub mod Outputs
pub mod Starts
pub mod Results
mod Tests
