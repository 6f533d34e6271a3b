-- ===== src/AdaptiveLoad/MetricsPlugin.antt =====
-- NighthawkStatsEmulatedMetricsPlugin, source/adaptive_load/metrics_plugin_impl.cc, over any doubles.
-- The durations of the messages are not negative, and the number of requests does not overflow an
-- int64_t.
pub mod Errors
pub mod Values
mod Tests
use nighthawk.Base.{
  ℕ, ◌+◌, ◌*◌, ◌%◌, Bool, true, false, if◌then◌else◌, ltb, ◌==◌, List, [], ◌∷◌, ◌++◌, length,
  String,
}
use text.Mathlib.Text.{◌==◌ as str_eq}
use nighthawk.Base.Text.{str_cat, str_join}
use nighthawk.Base.Status.{StatusOr, ok, error, internal, fail_with}

-- What the code uses of double.
pub record Doubles (D : Type 0) : Type 0 where
  pub of_int : ℕ → D
  pub add : D → D → D
  pub mul : D → D → D
  pub div : D → D → D
  pub is_positive : D → Bool
  pub nan : D

-- google::protobuf::util::TimeUtil
pub record TimeUtil (T : Type 0) : Type 0 where
  pub duration_to_seconds : T → ℕ
  pub duration_to_nanoseconds : T → ℕ

-- The messages of api/client/output.proto, as far as the plugin reads them.
pub record Counter : Type 0 where
  pub name : String
  pub value : ℕ

pub record Statistic (T : Type 0) : Type 0 where
  pub id : String
  pub min : T
  pub mean : T
  pub max : T
  pub pstdev : T

pub record Result (T : Type 0) : Type 0 where
  pub name : String
  pub execution_duration : T
  pub counters : List Counter
  pub statistics : List (Statistic T)

pub record Output (T : Type 0) : Type 0 where
  pub results : List (Result T)
  -- options().requests_per_second().value()
  pub requests_per_second : ℕ

unfoldable pub get_result : {T : Type 0} → List (Result T) → String → StatusOr (Result T)
get_result [] result_name =
    fail_with internal
      (str_cat ("Result '" ∷ result_name ∷ "' not found in Nighthawk output." ∷ []))
get_result (r ∷ results) result_name =
    let rest = get_result results result_name in if str_eq r.name result_name then ok r else rest

-- The value is returned as a uint32_t.
unfoldable pub get_counter : List Counter → String → StatusOr ℕ
get_counter [] counter_name =
    fail_with internal (str_cat ("Counter '" ∷ counter_name ∷ "' not found in Result proto." ∷ []))
get_counter (c ∷ counters) counter_name =
    let rest = get_counter counters counter_name in
    if str_eq c.name counter_name then ok (c.value % 4294967296) else rest

unfoldable pub get_statistic : {T : Type 0} → List (Statistic T) → String → StatusOr (Statistic T)
get_statistic [] statistic_id =
    fail_with internal
      (str_cat ("Statistic '" ∷ statistic_id ∷ "' not found in Result proto." ∷ []))
get_statistic (s ∷ statistics) statistic_id =
    let rest = get_statistic statistics statistic_id in
    if str_eq s.id statistic_id then ok s else rest

-- metric_from_name_ and errors_; of two values of a name, the first one counts.
pub record MetricsPlugin (D : Type 0) : Type 0 where
  pub metric_from_name : List (String × D)
  pub errors : List String

abbrev pub set_metric : {D : Type 0} → String → D → MetricsPlugin D → MetricsPlugin D
set_metric name value p = record p { metric_from_name = (name, value) ∷ p.metric_from_name }

abbrev pub add_error : {D : Type 0} → String → MetricsPlugin D → MetricsPlugin D
add_error message p = record p { errors = p.errors ++ (message ∷ []) }

-- The message of a value that is not there.
abbrev pub note_error : {A D : Type 0} → StatusOr A → MetricsPlugin D → MetricsPlugin D
note_error (ok value) p = p
note_error (error e) p = add_error e.message p

-- As a uint32_t.
unfoldable pub number_of_workers : {T : Type 0} → List (Result T) → ℕ
number_of_workers results =
    if length results == 1 then 1 else (length results + 4294967295) % 4294967296

unfoldable pub find_metric : {D : Type 0} → List (String × D) → String → StatusOr D
find_metric [] metric_name =
    fail_with internal
      (str_cat ("Metric '" ∷ metric_name ∷ "' was not computed by the 'builtin' plugin." ∷ []))
find_metric ((name, value) ∷ metrics) metric_name =
    let rest = find_metric metrics metric_name in if str_eq name metric_name then ok value else rest

-- GetMetricByName()
unfoldable pub get_metric_by_name : {D : Type 0} → MetricsPlugin D → String → StatusOr D
unfolding find_metric
get_metric_by_name p metric_name = elim p.errors [
  | [] ↦ find_metric p.metric_from_name metric_name
  | e ∷ es ↦ fail_with internal (str_join (e ∷ es) "\n")
]

-- GetAllSupportedMetricNames()
unfoldable pub get_all_supported_metric_names : List String
get_all_supported_metric_names =
    "achieved-rps" ∷ "attempted-rps" ∷ "latency-ns-max" ∷ "latency-ns-mean"
    ∷ "latency-ns-mean-plus-1stdev" ∷ "latency-ns-mean-plus-2stdev" ∷ "latency-ns-mean-plus-3stdev"
    ∷ "latency-ns-min" ∷ "latency-ns-pstdev" ∷ "send-rate" ∷ "success-rate" ∷ []

module _ {D T : Type 0} (d : Doubles D) (time : TimeUtil T) where
  abbrev pub counter_or_nan : StatusOr ℕ → D
  counter_or_nan (ok value) = d.of_int value
  counter_or_nan (error e) = d.nan

  unfoldable pub assign_rps : ℕ → D → D → MetricsPlugin D → MetricsPlugin D
  assign_rps seconds total_specified total_sent p =
      if ltb 0 seconds
      then set_metric "achieved-rps" (d.div total_sent (d.of_int seconds))
          (set_metric "attempted-rps" (d.div total_specified (d.of_int seconds)) p)
      else add_error "Nighthawk returned a benchmark result with zero actual duration." p

  unfoldable pub quotient_or_zero : D → D → D
  quotient_or_zero part total = if d.is_positive total then d.div part total else d.of_int 0

  unfoldable pub extract_from : ℕ → D → StatusOr ℕ → StatusOr ℕ → MetricsPlugin D → MetricsPlugin D
  unfolding assign_rps quotient_or_zero
  extract_from seconds total_specified total_sent_or total_2xx_or p =
      let total_sent = counter_or_nan total_sent_or in
      let total_2xx = counter_or_nan total_2xx_or in
      set_metric "success-rate" (quotient_or_zero total_2xx total_sent) (
        set_metric "send-rate" (quotient_or_zero total_sent total_specified) (
          assign_rps seconds total_specified total_sent
            (note_error total_2xx_or (note_error total_sent_or p))))

  unfoldable pub total_specified_of : Output T → Result T → D
  unfolding number_of_workers
  total_specified_of o global = d.of_int (
      o.requests_per_second
      * time.duration_to_seconds global.execution_duration
      * number_of_workers o.results)

  -- ExtractCounters(), with the global result.
  unfoldable pub extract_counters :
      Output T → StatusOr (Result T) → MetricsPlugin D → MetricsPlugin D
  unfolding extract_from total_specified_of get_counter
  extract_counters o (error e) p = add_error e.message p
  extract_counters o (ok global) p =
      extract_from (time.duration_to_seconds global.execution_duration)
        (total_specified_of o global) (get_counter global.counters "upstream_rq_total")
        (get_counter global.counters "benchmark.http_2xx") p

  unfoldable pub assign_latencies : StatusOr (Statistic T) → MetricsPlugin D → MetricsPlugin D
  assign_latencies (error e) p = add_error e.message p
  assign_latencies (ok s) p =
      let mean = d.of_int (time.duration_to_nanoseconds s.mean) in
      let pstdev = d.of_int (time.duration_to_nanoseconds s.pstdev) in
      set_metric "latency-ns-pstdev" pstdev (
        set_metric "latency-ns-mean-plus-3stdev" (d.add mean (d.mul (d.of_int 3) pstdev)) (
          set_metric "latency-ns-mean-plus-2stdev" (d.add mean (d.mul (d.of_int 2) pstdev)) (
            set_metric "latency-ns-mean-plus-1stdev" (d.add mean pstdev) (
              set_metric "latency-ns-max" (d.of_int (time.duration_to_nanoseconds s.max)) (
                set_metric "latency-ns-mean" mean (
                  set_metric "latency-ns-min" (d.of_int (time.duration_to_nanoseconds s.min))
                    p))))))

  -- ExtractStatistics(), with the global result.
  unfoldable pub extract_statistics : StatusOr (Result T) → MetricsPlugin D → MetricsPlugin D
  unfolding assign_latencies get_statistic
  extract_statistics (error e) p = add_error e.message p
  extract_statistics (ok global) p =
      assign_latencies (get_statistic global.statistics "benchmark_http_client.request_to_response")
        p

  -- The constructor.
  unfoldable pub metrics_plugin : Output T → MetricsPlugin D
  unfolding extract_counters extract_statistics get_result
  metrics_plugin o = extract_statistics (get_result o.results "global") (
      extract_counters o (get_result o.results "global")
        (record { metric_from_name = []; errors = [] }))
