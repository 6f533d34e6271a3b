-- ===== src/AdaptiveLoad/MetricsEvaluator/Analysis.antt =====
-- AnalyzeNighthawkBenchmark() of metrics_evaluator_impl.cc.
