-- ===== src/AdaptiveLoad/MetricsPlugin/Values.antt =====
-- The values of the metrics: source/adaptive_load/metrics_plugin_impl.cc.
use nighthawk.Base.{
  ℕ, ◌-◌, ◌*◌, ◌%◌, ◌==◌, length, ◌≡◌, refl, true, false, if◌then◌else◌, ltb, List, [], ◌∷◌, String,
  arith,
}
use nighthawk.Base.Chars.{is_empty}
use nighthawk.Base.Text.{str_join}
use nighthawk.Base.Status.{ok, internal, fail_with}
use nighthawk.AdaptiveLoad.MetricsPlugin.{
  Doubles, TimeUtil, Statistic, Result, Output, get_result, get_counter, get_statistic, find_metric,
  get_metric_by_name, number_of_workers, extract_from, assign_rps, assign_latencies,
  extract_counters, extract_statistics, metrics_plugin,
}

-- One worker has only the global result, and more have one each beside it; in a uint32_t.
abbrev pub workers_of : {T : Type 0} → List (Result T) → ℕ
workers_of results = if length results == 1 then 1 else (length results - 1) % 4294967296

number_of_workers-workers_of :
    {T : Type 0} (results : List (Result T)) (global : Result T)
    → get_result results "global" ≡ ok global
    → number_of_workers results ≡ workers_of results
unfolding number_of_workers get_result
number_of_workers-workers_of [] global found = ground (arith, found)
number_of_workers-workers_of (r ∷ results) global found = ground arith

module _ {D T : Type 0} (d : Doubles D) (time : TimeUtil T) where
  -- The metrics of an output in which nothing is missing.
  abbrev pub metric_values : Output T → Result T → ℕ → ℕ → Statistic T → List (String × D)
  metric_values o global sent ok_2xx s =
      let seconds = d.of_int (time.duration_to_seconds global.execution_duration) in
      let specified = d.of_int (
        o.requests_per_second
        * time.duration_to_seconds global.execution_duration
        * workers_of o.results) in
      let mean = d.of_int (time.duration_to_nanoseconds s.mean) in
      let pstdev = d.of_int (time.duration_to_nanoseconds s.pstdev) in
      ("latency-ns-pstdev", pstdev)
      ∷ ("latency-ns-mean-plus-3stdev", d.add mean (d.mul (d.of_int 3) pstdev))
      ∷ ("latency-ns-mean-plus-2stdev", d.add mean (d.mul (d.of_int 2) pstdev))
      ∷ ("latency-ns-mean-plus-1stdev", d.add mean pstdev)
      ∷ ("latency-ns-max", d.of_int (time.duration_to_nanoseconds s.max))
      ∷ ("latency-ns-mean", mean)
      ∷ ("latency-ns-min", d.of_int (time.duration_to_nanoseconds s.min))
      ∷ (
        "success-rate",
        if d.is_positive (d.of_int sent)
            then d.div (d.of_int ok_2xx) (d.of_int sent)
            else d.of_int 0,
      )
      ∷ (
        "send-rate",
        if d.is_positive specified then d.div (d.of_int sent) specified else d.of_int 0,
      )
      ∷ ("achieved-rps", d.div (d.of_int sent) seconds)
      ∷ ("attempted-rps", d.div specified seconds)
      ∷ []

  -- What the plugin reads of an output.
  pub record Reading (o : Output T) : Type 0 where
    pub global : Result T
    pub sent : ℕ
    pub ok_2xx : ℕ
    pub statistic : Statistic T
    pub global_found : get_result o.results "global" ≡ ok global
    pub sent_found : get_counter global.counters "upstream_rq_total" ≡ ok sent
    pub ok_2xx_found : get_counter global.counters "benchmark.http_2xx" ≡ ok ok_2xx
    pub statistic_found :
        get_statistic global.statistics "benchmark_http_client.request_to_response" ≡ ok statistic
    pub has_lasted : ltb 0 (time.duration_to_seconds global.execution_duration) ≡ true

  -- There are errors, and every metric is refused with them.
  pub IsRefused : Output T → Type 0
  IsRefused o =
      (is_empty (metrics_plugin d time o).errors ≡ false)
      × ((name : String)
          → get_metric_by_name (metrics_plugin d time o) name
            ≡ fail_with internal (str_join (metrics_plugin d time o).errors "\n"))

  metric_values_lem :
      (o : Output T) (r : Reading o)
      → metrics_plugin d time o ≡ record {
        metric_from_name = metric_values o r.global r.sent r.ok_2xx r.statistic;
        errors = [];
      }
  unfolding metrics_plugin extract_statistics extract_counters extract_from assign_latencies
      assign_rps
  metric_values_lem o r =
      rw
        (
          ← number_of_workers-workers_of o.results r.global r.global_found,
          r.global_found,
          r.sent_found,
          r.ok_2xx_found,
          r.statistic_found,
          r.has_lasted,
        )
        refl

  answers :
      (o : Output T) (r : Reading o) (name : String)
      → get_metric_by_name (metrics_plugin d time o) name
        ≡ find_metric (metric_values o r.global r.sent r.ok_2xx r.statistic) name
  unfolding get_metric_by_name
  answers o r name = rw (metric_values_lem o r) refl
