-- ===== src/AdaptiveLoad/MetricsPlugin/Tests.antt =====
-- A concrete output.
use nighthawk.Base.{ℕ, ◌+◌, ◌*◌, ◌/◌, ◌≡◌, refl, ltb, [], ◌∷◌}
use nighthawk.Base.Status.{ok}
use nighthawk.AdaptiveLoad.MetricsPlugin.{
  Doubles, TimeUtil, Output, get_counter, get_metric_by_name, metrics_plugin,
}

abbrev naturals : Doubles ℕ
naturals = record {
  of_int = λ n. n;
  add = λ a b. a + b;
  mul = λ a b. a * b;
  div = λ a b. a / b;
  is_positive = λ a. ltb 0 a;
  nan = 0;
}

-- Durations in nanoseconds.
abbrev nanoseconds : TimeUtil ℕ
nanoseconds = record { duration_to_seconds = λ t. t / 1000000000; duration_to_nanoseconds = λ t. t }

abbrev output : Output ℕ
output = record {
  results =
      record {
        name = "global";
        execution_duration = 2000000000;
        counters =
            record { name = "upstream_rq_total"; value = 40 }
            ∷ record { name = "benchmark.http_2xx"; value = 20 }
            ∷ [];
        statistics =
            record {
              id = "benchmark_http_client.request_to_response";
              min = 1;
              mean = 2;
              max = 3;
              pstdev = 4;
            }
            ∷ [];
      }
      ∷ [];
  requests_per_second = 10;
}

-- A counter beyond 32 bits is cut.
counter_is_cut :
    get_counter (record { name = "upstream_rq_total"; value = 4294967297 } ∷ []) "upstream_rq_total"
    ≡ ok 1
unfolding get_counter
counter_is_cut = refl

rate : get_metric_by_name (metrics_plugin naturals nanoseconds output) "achieved-rps" ≡ ok 20
unfolding metrics_plugin get_metric_by_name
rate = refl
