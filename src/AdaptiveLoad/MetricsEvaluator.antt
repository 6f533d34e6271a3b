-- ===== src/AdaptiveLoad/MetricsEvaluator.antt =====
-- MetricsEvaluatorImpl, source/adaptive_load/metrics_evaluator_impl.cc. Times are nanoseconds; the
-- metrics plugins and the scoring functions are parameters.
pub mod Period
pub mod Analysis
mod Tests
use nighthawk.Base.{
  ℕ, ◌+◌, ◌-◌, Bool, true, false, if◌then◌else◌, ltb, leb, List, [], ◌∷◌, ◌++◌, map, Option, none,
  some, String,
}
use nighthawk.Base.Text.{str_cat, str_join}
use nighthawk.Base.Status.{
  StatusOr, ok, error, Error, invalid_argument, internal, fail_with, code_text, is_unimplemented,
}

-- The times of a nighthawk::client::Result.
pub record WorkerResult : Type 0 where
  pub execution_start : ℕ
  pub execution_duration : ℕ

pub record ReportingPeriod : Type 0 where
  pub start_time : ℕ
  pub duration : ℕ

abbrev pub execution_end : WorkerResult → ℕ
execution_end r = r.execution_start + r.execution_duration

-- The loop over the results, with the latest start and the earliest end so far.
unfoldable pub narrow : List WorkerResult → ℕ → ℕ → ℕ × ℕ
narrow [] max_start_time min_end_time = (max_start_time, min_end_time)
narrow (r ∷ rs) max_start_time min_end_time =
    narrow rs (if ltb max_start_time r.execution_start then r.execution_start else max_start_time)
      (if ltb (execution_end r) min_end_time then execution_end r else min_end_time)

unfoldable pub period_of : ℕ × ℕ → StatusOr ReportingPeriod
period_of (max_start_time, min_end_time) =
    if leb min_end_time max_start_time
    then fail_with invalid_argument (
        str_cat (
          "Reported execution times in output.results indicate that there is no time "
          ∷ "where all workers were active." ∷ []))
    else ok (record { start_time = max_start_time; duration = min_end_time - max_start_time })

-- GetReportingPeriod()
unfoldable pub get_reporting_period : List WorkerResult → StatusOr ReportingPeriod
unfolding narrow period_of
get_reporting_period [] = fail_with invalid_argument "output.results cannot be empty."
get_reporting_period (r ∷ rs) = period_of (narrow (r ∷ rs) r.execution_start (execution_end r))

pub record MetricSpec : Type 0 where
  pub metrics_plugin_name : String
  pub metric_name : String

-- include/nighthawk/adaptive_load/metrics_plugin.h
pub record MetricsPlugin (D : Type 0) : Type 0 where
  pub get_metric_by_name : String → StatusOr D
  pub get_metric_by_name_with_reporting_period : String → ReportingPeriod → StatusOr D

-- A threshold with its scoring function loaded.
pub record ThresholdSpec (D : Type 0) : Type 0 where
  pub weight : D
  pub scoring_function : D → D

-- The fields of the message; those that are not set are zero.
pub record MetricEvaluation (D : Type 0) : Type 0 where
  pub metric_id : String
  pub metric_value : D
  pub threshold_score : D
  pub weight : D

abbrev or_by_name : {D : Type 0} → StatusOr D → StatusOr D → StatusOr D
or_by_name (ok value) by_name = ok value
or_by_name (error e) by_name = if is_unimplemented e.code then by_name else error e

-- GetMetric()
unfoldable pub get_metric : {D : Type 0} → MetricsPlugin D → String → ReportingPeriod → StatusOr D
get_metric plugin name period =
    or_by_name (plugin.get_metric_by_name_with_reporting_period name period)
      (plugin.get_metric_by_name name)

-- EvaluateMetric(), once the value is known.
unfoldable pub evaluation_of :
    {D : Type 0}
    → D
    → MetricSpec
    → Option (ThresholdSpec D)
    → StatusOr D
    → StatusOr (MetricEvaluation D)
evaluation_of zero_double spec threshold (error e) =
    fail_with e.code
      (str_cat ("Error calling MetricsPlugin '" ∷ spec.metrics_plugin_name ∷ ": " ∷ e.message ∷ []))
evaluation_of zero_double spec none (ok value) = ok (record {
  metric_id = str_cat (spec.metrics_plugin_name ∷ "/" ∷ spec.metric_name ∷ []);
  metric_value = value;
  threshold_score = zero_double;
  weight = zero_double;
})
evaluation_of zero_double spec (some threshold) (ok value) = ok (record {
  metric_id = str_cat (spec.metrics_plugin_name ∷ "/" ∷ spec.metric_name ∷ []);
  metric_value = value;
  threshold_score = threshold.scoring_function value;
  weight = threshold.weight;
})

-- The session spec's metrics.
pub record Metrics (D : Type 0) : Type 0 where
  pub metric_thresholds : List (MetricSpec × ThresholdSpec D)
  pub informational_metric_specs : List MetricSpec

-- ExtractMetricSpecs()
unfoldable pub extract_metric_specs :
    {D : Type 0} → Metrics D → List (MetricSpec × Option (ThresholdSpec D))
extract_metric_specs spec =
    map (λ t. (t.0, some t.1)) spec.metric_thresholds
    ++ map (λ m. (m, none)) spec.informational_metric_specs

pub record ExecutionResponse : Type 0 where
  -- the error detail, where its code is not OK
  pub error_detail : Option Error
  pub results : List WorkerResult

abbrev pub error_text : Error → String
error_text e = str_cat ("Error evaluating metric: " ∷ code_text e.code ∷ ": " ∷ e.message ∷ [])

-- One metric's turn: the errors and the evaluations so far.
unfoldable pub add_evaluation :
    {D : Type 0}
    → StatusOr (MetricEvaluation D)
    → List String × List (MetricEvaluation D)
    → List String × List (MetricEvaluation D)
add_evaluation (ok e) (errors, evaluations) = (errors, evaluations ++ (e ∷ []))
add_evaluation (error e) (errors, evaluations) = (errors ++ (error_text e ∷ []), evaluations)

unfoldable pub result_of :
    {D : Type 0} → List String × List (MetricEvaluation D) → StatusOr (List (MetricEvaluation D))
result_of ([], evaluations) = ok evaluations
result_of (e ∷ errors, evaluations) = fail_with internal (str_join (e ∷ errors) "\n")

-- `plugins` is name_to_plugin_map, with the builtin plugin in it; CheckSessionSpec() has ruled out
-- the names that it does not have.
module _ {D : Type 0} (zero_double : D) (plugins : String → MetricsPlugin D) where
  unfoldable pub evaluate_metric :
      ReportingPeriod → MetricSpec × Option (ThresholdSpec D) → StatusOr (MetricEvaluation D)
  unfolding get_metric evaluation_of
  evaluate_metric period (spec, threshold) =
      evaluation_of zero_double spec threshold
        (get_metric (plugins spec.metrics_plugin_name) spec.metric_name period)

  unfoldable pub evaluate_all :
      ReportingPeriod
      → List (MetricSpec × Option (ThresholdSpec D))
      → List String × List (MetricEvaluation D)
      → List String × List (MetricEvaluation D)
  unfolding evaluate_metric add_evaluation
  evaluate_all period [] so_far = so_far
  evaluate_all period (s ∷ ss) so_far =
      evaluate_all period ss (add_evaluation (evaluate_metric period s) so_far)

  unfoldable pub analyze_period :
      Metrics D → StatusOr ReportingPeriod → StatusOr (List (MetricEvaluation D))
  unfolding evaluate_all result_of extract_metric_specs
  analyze_period spec (error e) = error e
  analyze_period spec (ok period) =
      result_of (evaluate_all period (extract_metric_specs spec) ([], []))

  unfoldable pub analyze_results :
      Option Error → Metrics D → StatusOr ReportingPeriod → StatusOr (List (MetricEvaluation D))
  unfolding analyze_period
  analyze_results (some e) spec period = error e
  analyze_results none spec period = analyze_period spec period

  -- AnalyzeNighthawkBenchmark(): the evaluations of the benchmark result.
  unfoldable pub analyze_nighthawk_benchmark :
      ExecutionResponse → Metrics D → StatusOr (List (MetricEvaluation D))
  unfolding analyze_results get_reporting_period
  analyze_nighthawk_benchmark response spec =
      analyze_results response.error_detail spec (get_reporting_period response.results)
