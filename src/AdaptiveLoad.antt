-- ===== src/AdaptiveLoad.antt =====
-- The parts of source/adaptive_load.
pub mod StepController
pub mod Session
pub mod MetricsEvaluator
pub mod SessionSpec
pub mod MetricsPlugin
