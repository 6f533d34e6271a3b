-- ===== src/Client/StreamDecoder.antt =====
-- StreamDecoder, source/client/stream_decoder.{h,cc}: the life of one request, from its place in the
-- pool's queue to its deletion. Statistics and callbacks are kept as lists of what they were given,
-- the latest first. Tracing is left out.
pub mod Life
mod Tests
use nighthawk.Base.{
  ℕ, ◌+◌, ◌-◌, Bool, true, false, not, ◌&&◌, ◌||◌, if◌then◌else◌, ltb, ◌==◌, List, [], ◌∷◌, Option,
  none, some,
}
use nighthawk.Client.BenchmarkClient.{PoolFailureReason}

-- Envoy::Http::StreamResetReason
pub data ResetReason : Type 0 where
  local_connection_failure remote_connection_failure connection_timeout : ResetReason
  connection_termination local_reset local_refused_stream_reset : ResetReason
  http1_premature_upstream_half_close overflow connect_error remote_reset : ResetReason
  remote_refused_stream_reset remote_reset_no_error protocol_error overload_manager : ResetReason

-- Envoy::StreamInfo::CoreResponseFlag, as far as it is set here.
pub data ResponseFlag : Type 0 where
  upstream_connection_failure upstream_connection_termination local_reset_flag : ResponseFlag
  upstream_overflow upstream_remote_reset upstream_protocol_error : ResponseFlag
  overload_manager_flag : ResponseFlag

-- streamResetReasonToResponseFlag()
unfoldable pub response_flag : ResetReason → ResponseFlag
response_flag local_connection_failure = upstream_connection_failure
response_flag remote_connection_failure = upstream_connection_failure
response_flag connection_timeout = upstream_connection_failure
response_flag connection_termination = upstream_connection_termination
response_flag local_reset = local_reset_flag
response_flag local_refused_stream_reset = local_reset_flag
response_flag http1_premature_upstream_half_close = local_reset_flag
response_flag overflow = upstream_overflow
response_flag connect_error = upstream_remote_reset
response_flag remote_reset = upstream_remote_reset
response_flag remote_refused_stream_reset = upstream_remote_reset
response_flag remote_reset_no_error = upstream_remote_reset
response_flag protocol_error = upstream_protocol_error
response_flag overload_manager = overload_manager_flag

-- An int64_t read from a header value.
pub data Delta : Type 0 where
  nonnegative negative : ℕ → Delta

-- Response headers: their size, the status, and the values of the latency header, each as the number
-- that it is, if it is one.
pub record ResponseHeaders : Type 0 where
  pub byte_size : ℕ
  pub status : ℕ
  pub timing_values : List (Option Delta)

pub record StreamDecoder : Type 0 where
  pub measure_latencies : Bool
  -- whether a latency response header is configured
  pub tracks_origin_latency : Bool
  -- request_body_size_, and the size of request_body_
  pub request_body_size : ℕ
  pub request_body_length : ℕ
  pub connect_start : ℕ
  pub request_start : ℕ
  pub complete : Bool
  pub response_headers : Option ResponseHeaders
  pub response_flags : List ResponseFlag
  pub bytes_sent : ℕ
  pub bytes_received : ℕ
  pub connect_statistic : List ℕ
  pub latency_statistic : List ℕ
  pub response_header_sizes : List ℕ
  pub response_body_sizes : List ℕ
  pub origin_latency_statistic : List ℕ
  -- calls of exportLatency, onComplete, onPoolFailure and handleResponseData of the client
  pub exported : List (ℕ × ℕ)
  pub client_completions : List Bool
  pub client_pool_failures : List PoolFailureReason
  pub client_data : List ℕ
  -- calls of the caller's completion callback
  pub caller_calls : List (Bool × Bool)
  pub deleted : Bool

-- onComplete()
unfoldable pub on_complete : ℕ → Bool → StreamDecoder → StreamDecoder
on_complete now success d =
    let latency = now - d.request_start in
    let measured =
      (if success && d.measure_latencies
        then (record d {
          latency_statistic = latency ∷ d.latency_statistic;
          exported = (elim d.response_headers [
            | none ↦ d.exported
            | some h ↦ (h.status, latency) ∷ d.exported
          ]);
        })
        else d) in
    record measured {
      response_body_sizes = measured.bytes_sent ∷ measured.response_body_sizes;
      client_completions = success ∷ measured.client_completions;
      caller_calls = (measured.complete, success) ∷ measured.caller_calls;
      deleted = true;
    }

-- The origin latency that a response reports, if it reports exactly one that is not negative.
unfoldable pub origin_delta : List (Option Delta) → List ℕ → List ℕ
origin_delta (some (nonnegative n) ∷ []) statistic = n ∷ statistic
origin_delta values statistic = statistic

-- decodeHeaders()
unfoldable pub decode_headers : ℕ → ResponseHeaders → Bool → StreamDecoder → StreamDecoder
unfolding on_complete origin_delta
decode_headers now headers end_stream d =
    let d' = record d {
      complete = end_stream;
      response_headers = some headers;
      response_header_sizes = headers.byte_size ∷ d.response_header_sizes;
      origin_latency_statistic =
          (if d.tracks_origin_latency
            then origin_delta headers.timing_values d.origin_latency_statistic
            else d.origin_latency_statistic);
    } in
    if end_stream then on_complete now true d' else d'

-- decodeData(): the client sees the data after the completion.
unfoldable pub decode_data : ℕ → ℕ → Bool → StreamDecoder → StreamDecoder
unfolding on_complete
decode_data now length end_stream d =
    let d' = record d { complete = end_stream; bytes_sent = d.bytes_sent + length } in
    let completed = if end_stream then on_complete now true d' else d' in
    record completed { client_data = length ∷ completed.client_data }

-- decodeTrailers()
unfoldable pub decode_trailers : ℕ → StreamDecoder → StreamDecoder
unfolding on_complete
decode_trailers now d = on_complete now true (record d { complete = true })

-- onResetStream()
unfoldable pub on_reset_stream : ℕ → ResetReason → StreamDecoder → StreamDecoder
unfolding on_complete response_flag
on_reset_stream now reason d =
    on_complete now false (record d { response_flags = response_flag reason ∷ d.response_flags })

-- onPoolFailure()
unfoldable pub on_pool_failure : PoolFailureReason → StreamDecoder → StreamDecoder
on_pool_failure reason d = record d {
  client_pool_failures = reason ∷ d.client_pool_failures;
  response_flags = upstream_connection_failure ∷ d.response_flags;
  caller_calls = (false, false) ∷ d.caller_calls;
  deleted = true;
}

-- What onPoolReady() hands to the encoder: whether the headers end the stream, and the size of the
-- body that follows them.
pub record Encoded : Type 0 where
  pub end_stream : Bool
  pub body : Option ℕ

-- onPoolReady()
unfoldable pub on_pool_ready : ℕ → StreamDecoder → Encoded × StreamDecoder
on_pool_ready now d =
    let empty = d.request_body_size == 0 && d.request_body_length == 0 in
    let has_body = ltb 0 d.request_body_size || not (d.request_body_length == 0) in
    let size = if d.request_body_length == 0 then d.request_body_size else d.request_body_length in
    (
      record { end_stream = empty; body = if has_body then some size else none },
      record d {
        bytes_received = if has_body then d.bytes_received + size else d.bytes_received;
        request_start = now;
        connect_statistic =
            (if d.measure_latencies
              then (now - d.connect_start) ∷ d.connect_statistic
              else d.connect_statistic);
      },
    )
