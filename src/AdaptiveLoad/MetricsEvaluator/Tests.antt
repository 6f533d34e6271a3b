-- ===== src/AdaptiveLoad/MetricsEvaluator/Tests.antt =====
-- Two workers that overlap, and a plugin that knows the metric `rps`.
use nighthawk.Base.{ℕ, ◌*◌, List, [], ◌∷◌, none, ◌≡◌, refl}
use nighthawk.Base.Status.{ok, unimplemented, fail_with}
use nighthawk.AdaptiveLoad.MetricsEvaluator.{
  WorkerResult, ReportingPeriod, MetricsPlugin, MetricEvaluation, Metrics, ExecutionResponse,
  analyze_nighthawk_benchmark,
}

abbrev workers : List WorkerResult
workers =
    record { execution_start = 10; execution_duration = 20 }
    ∷ record { execution_start = 15; execution_duration = 20 }
    ∷ []

abbrev period : ReportingPeriod
period = record { start_time = 15; duration = 15 }

abbrev plugin : MetricsPlugin ℕ
plugin = record {
  get_metric_by_name = λ name. ok 7;
  get_metric_by_name_with_reporting_period = λ name p. fail_with unimplemented "Unimplemented.";
}

abbrev metrics : Metrics ℕ
metrics = record {
  metric_thresholds =
      (
        record { metrics_plugin_name = "p"; metric_name = "rps" },
        record { weight = 2; scoring_function = λ v. v * 3 },
      )
      ∷ [];
  informational_metric_specs = record { metrics_plugin_name = "p"; metric_name = "rps" } ∷ [];
}

abbrev evaluations : List (MetricEvaluation ℕ)
evaluations =
    record { metric_id = "p/rps"; metric_value = 7; threshold_score = 21; weight = 2 }
    ∷ record { metric_id = "p/rps"; metric_value = 7; threshold_score = 0; weight = 0 }
    ∷ []

abbrev response : ExecutionResponse
response = record { error_detail = none; results = workers }

analyzed : analyze_nighthawk_benchmark 0 (λ name. plugin) response metrics ≡ ok evaluations
unfolding analyze_nighthawk_benchmark
analyzed = refl
