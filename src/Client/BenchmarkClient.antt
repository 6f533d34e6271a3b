-- ===== src/Client/BenchmarkClient.antt =====
-- BenchmarkClientHttpImpl, source/client/benchmark_client_impl.{h,cc}: which requests it starts, and
-- how it counts what becomes of them.
pub mod Counting
pub mod Stall
mod Tests
use nighthawk.Base.{
  ℕ, ◌+◌, ◌%◌, Bool, true, false, not, ◌&&◌, ◌||◌, if◌then◌else◌, ltb, leb, inc64, add64, sub64,
  List, [], ◌∷◌, Option, none, some, String,
}
use nighthawk.Base.Result.{Result, ok, err, abort}

pub data Protocol : Type 0 where
  http10 http11 http2 http3 : Protocol

-- BenchmarkClientCounters
pub record Counters : Type 0 where
  pub stream_resets : ℕ
  pub http_1xx : ℕ
  pub http_2xx : ℕ
  pub http_3xx : ℕ
  pub http_4xx : ℕ
  pub http_5xx : ℕ
  pub http_xxx : ℕ
  pub pool_overflow : ℕ
  pub pool_connection_failure : ℕ
  pub user_defined_plugin_handle_headers_failure : ℕ
  pub user_defined_plugin_handle_data_failure : ℕ

-- The latency statistics, each as the list of its values, the latest first.
pub record Latencies : Type 0 where
  pub latency_1xx : List ℕ
  pub latency_2xx : List ℕ
  pub latency_3xx : List ℕ
  pub latency_4xx : List ℕ
  pub latency_5xx : List ℕ
  pub latency_xxx : List ℕ

pub record BenchmarkClient : Type 0 where
  pub protocol : Protocol
  pub provide_resource_backpressure : Bool
  pub connection_limit : ℕ
  pub max_pending_requests : ℕ
  pub max_active_requests : ℕ
  pub requests_initiated : ℕ
  pub requests_completed : ℕ
  pub measure_latencies : Bool
  pub counters : Counters
  pub latencies : Latencies

-- The stream decoder that tryStartRequest() makes: whether it measures latencies, and how many
-- bytes it will send, a uint32_t.
pub record NewStream : Type 0 where
  pub measure_latencies : Bool
  pub request_body_size : ℕ

-- The part of a request that tryStartRequest() reads: the content-length header, and its value if it
-- is the decimal form of a uint64_t.
pub record RequestSize : Type 0 where
  pub content_length_header : Option (Option ℕ)

unfoldable pub content_length : RequestSize → ℕ
content_length r = elim r.content_length_header [ none ↦ 0 | some none ↦ 0 | some (some n) ↦ n ]

unfoldable pub is_multiplexed : Protocol → Bool
is_multiplexed http10 = false
is_multiplexed http11 = false
is_multiplexed http2 = true
is_multiplexed http3 = true

-- max_pending_requests_ is a uint32_t, and the sum a uint64_t.
unfoldable pub max_in_flight : BenchmarkClient → ℕ
unfolding is_multiplexed
max_in_flight c =
    add64 c.max_pending_requests
      (if is_multiplexed c.protocol then c.max_active_requests else c.connection_limit)

-- tryStartRequest(), given whether there is a pool, and what the request generator yields if it is
-- asked. `some` is the new stream, which goes to the pool.
unfoldable pub try_start_request :
    Bool → Option RequestSize → BenchmarkClient → Option NewStream × BenchmarkClient
unfolding max_in_flight content_length
try_start_request has_pool generated c =
    let in_flight = sub64 c.requests_initiated c.requests_completed in
    if not has_pool
    then (none, c)
    else (if c.provide_resource_backpressure && leb (max_in_flight c) in_flight
        then (none, c)
        else (elim generated [
          | none ↦ (none, c)
          | some r ↦ (
            some (record {
              measure_latencies = c.measure_latencies;
              request_body_size = content_length r % 4294967296;
            }),
            record c { requests_initiated = inc64 c.requests_initiated },
          )
        ]))

-- The counter of a response's status.
unfoldable pub count_status : ℕ → Counters → Counters
count_status status k =
    if ltb 99 status && leb status 199
    then record k { http_1xx = inc64 k.http_1xx }
    else (if ltb 199 status && leb status 299
        then record k { http_2xx = inc64 k.http_2xx }
        else (if ltb 299 status && leb status 399
            then record k { http_3xx = inc64 k.http_3xx }
            else (if ltb 399 status && leb status 499
                then record k { http_4xx = inc64 k.http_4xx }
                else (if ltb 499 status && leb status 599
                    then record k { http_5xx = inc64 k.http_5xx }
                    else record k { http_xxx = inc64 k.http_xxx }))))

-- The loop over the plugins, each of which says whether it could handle the headers.
unfoldable pub handle_headers : List Bool → Counters → Counters
handle_headers [] k = k
handle_headers (true ∷ plugins) k = handle_headers plugins k
handle_headers (false ∷ plugins) k = handle_headers plugins (record k {
  user_defined_plugin_handle_headers_failure = inc64 k.user_defined_plugin_handle_headers_failure;
})

-- onComplete(), with the status of the response and the verdicts of the plugins.
unfoldable pub on_complete : Bool → ℕ → List Bool → BenchmarkClient → BenchmarkClient
unfolding count_status handle_headers
on_complete success status plugins c =
    let counted =
      (if success
        then count_status status c.counters
        else (let k = c.counters in record k { stream_resets = inc64 k.stream_resets })) in
    record c {
      requests_completed = inc64 c.requests_completed;
      counters = handle_headers plugins counted;
    }

-- handleResponseData()
unfoldable pub handle_response_data : List Bool → Counters → Counters
handle_response_data [] k = k
handle_response_data (true ∷ plugins) k = handle_response_data plugins k
handle_response_data (false ∷ plugins) k = handle_response_data plugins (record k {
  user_defined_plugin_handle_data_failure = inc64 k.user_defined_plugin_handle_data_failure;
})

pub data PoolFailureReason : Type 0 where
  overflow local_connection_failure remote_connection_failure timeout : PoolFailureReason

-- onPoolFailure()
unfoldable pub on_pool_failure : PoolFailureReason → BenchmarkClient → BenchmarkClient
on_pool_failure overflow c =
    let k = c.counters in record c { counters = record k { pool_overflow = inc64 k.pool_overflow } }
on_pool_failure local_connection_failure c =
    let k = c.counters in
    record c { counters = record k { pool_connection_failure = inc64 k.pool_connection_failure } }
on_pool_failure remote_connection_failure c =
    let k = c.counters in
    record c { counters = record k { pool_connection_failure = inc64 k.pool_connection_failure } }
on_pool_failure timeout c = c

-- exportLatency()
unfoldable pub export_latency : ℕ → ℕ → Latencies → Latencies
export_latency code latency l =
    if ltb 99 code && leb code 199
    then record l { latency_1xx = latency ∷ l.latency_1xx }
    else (if ltb 199 code && leb code 299
        then record l { latency_2xx = latency ∷ l.latency_2xx }
        else (if ltb 299 code && leb code 399
            then record l { latency_3xx = latency ∷ l.latency_3xx }
            else (if ltb 399 code && leb code 499
                then record l { latency_4xx = latency ∷ l.latency_4xx }
                else (if ltb 499 code && leb code 599
                    then record l { latency_5xx = latency ∷ l.latency_5xx }
                    else record l { latency_xxx = latency ∷ l.latency_xxx }))))
