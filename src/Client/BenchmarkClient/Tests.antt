-- ===== src/Client/BenchmarkClient/Tests.antt =====
-- A client that may have two requests in flight.
use nighthawk.Base.{◌≡◌, refl, Bool, true, false, Option, none, some, [], ◌∷◌, arith}
use nighthawk.Client.BenchmarkClient.{
  http11, BenchmarkClient, RequestSize, NewStream, try_start_request, on_complete, on_pool_failure,
  remote_connection_failure, max_in_flight,
}
use nighthawk.Client.BenchmarkClient.Counting.{
  Traffic, Step, response, starts, completes, fails, Reach, here, next, IsCounted, Reach-IsCounted,
}
use nighthawk.Client.BenchmarkClient.Stall.{zero_counters, IsNew, stalls, reaches_stall}

abbrev idle_client : BenchmarkClient
idle_client = record {
  protocol = http11;
  provide_resource_backpressure = true;
  connection_limit = 1;
  max_pending_requests = 1;
  max_active_requests = 100;
  requests_initiated = 0;
  requests_completed = 0;
  measure_latencies = true;
  counters = zero_counters;
  latencies = record {
    latency_1xx = [];
    latency_2xx = [];
    latency_3xx = [];
    latency_4xx = [];
    latency_5xx = [];
    latency_xxx = [];
  };
}

abbrev quiet : Traffic
quiet = record { client = idle_client; streams = 0; outcomes = []; pool_failures = 0 }

abbrev get : Option RequestSize
get = some (record { content_length_header = none })

abbrev get_stream : NewStream
get_stream = record { measure_latencies = true; request_body_size = 0 }

abbrev one_started : Traffic
one_started = record {
  client = record idle_client { requests_initiated = 1 };
  streams = 1;
  outcomes = [];
  pool_failures = 0;
}

abbrev one_done : Traffic
one_done = record {
  client = record idle_client {
    requests_initiated = 1;
    requests_completed = 1;
    counters = record zero_counters {
      http_2xx = 1;
      user_defined_plugin_handle_headers_failure = 1;
    };
  };
  streams = 0;
  outcomes = response 204 ∷ [];
  pool_failures = 0;
}

quiet-IsCounted : IsCounted 2 quiet
unfolding max_in_flight
quiet-IsCounted = ground arith

first_start : Step quiet one_started
unfolding try_start_request
first_start = starts true get get_stream refl refl

first_done : Step one_started one_done
unfolding on_complete
first_done = completes true 204 0 (true ∷ false ∷ []) refl refl

Reach-IsCounted_example : IsCounted 2 one_done
Reach-IsCounted_example =
    Reach-IsCounted 2 (omega arith) (next (next here first_start) first_done) quiet-IsCounted

-- Both requests that the configuration allows have failed in the pool.
abbrev two_failed : Traffic
two_failed = record {
  client = record idle_client {
    requests_initiated = 2;
    counters = record zero_counters { pool_connection_failure = 2 };
  };
  streams = 0;
  outcomes = [];
  pool_failures = 2;
}

abbrev one_failed : Traffic
one_failed = record {
  client = record idle_client {
    requests_initiated = 1;
    counters = record zero_counters { pool_connection_failure = 1 };
  };
  streams = 0;
  outcomes = [];
  pool_failures = 1;
}

abbrev two_in_flight : Traffic
two_in_flight = record one_failed {
  client = record one_failed.client { requests_initiated = 2 };
  streams = 1;
}

quiet-IsNew : IsNew 2 quiet
unfolding max_in_flight
quiet-IsNew = record {
  backpressure = refl;
  limited = refl;
  not_initiated = refl;
  not_completed = refl;
  counters_zero = refl;
  no_streams = refl;
  no_outcomes = refl;
  no_failures = refl;
}

first_failure : Step one_started one_failed
unfolding on_pool_failure
first_failure = fails remote_connection_failure 0 refl refl

second_start : Step one_failed two_in_flight
unfolding try_start_request
second_start = starts true get get_stream refl refl

second_failure : Step two_in_flight two_failed
unfolding on_pool_failure
second_failure = fails remote_connection_failure 0 refl refl

both_failed : Reach quiet two_failed
both_failed = next (next (next (next here first_start) first_failure) second_start) second_failure

stalls_example :
    (two_failed ≡ two_failed)
    × ((has_pool : Bool) (generated : Option RequestSize)
        → try_start_request has_pool generated two_failed.client ≡ (none, two_failed.client))
stalls_example = stalls 2 (omega arith) quiet-IsNew both_failed (omega arith) here

reaches_stall_example :
    (t : Traffic) × Reach quiet t
    × (t.streams ≡ 0)
    × (t.pool_failures ≡ 2)
    × ((has_pool : Bool) (generated : Option RequestSize)
        → try_start_request has_pool generated t.client ≡ (none, t.client))
reaches_stall_example =
    reaches_stall 2 (omega arith) (record { content_length_header = none })
      remote_connection_failure quiet quiet-IsNew
