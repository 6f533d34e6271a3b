-- ===== src/Client/StreamDecoder/Tests.antt =====
-- A request with a body, answered in two pieces.
use nighthawk.Base.{◌≡◌, refl, true, false, List, [], ◌∷◌, none, some, arith}
use nighthawk.Client.StreamDecoder.{nonnegative, ResponseHeaders, StreamDecoder, remote_reset}
use nighthawk.Client.StreamDecoder.Life.{
  Event, ready, headers, body, resets, deliver, Reported, IsLive, first_ending, deliver-Reported,
}

abbrev queued : StreamDecoder
queued = record {
  measure_latencies = true;
  tracks_origin_latency = true;
  request_body_size = 10;
  request_body_length = 0;
  connect_start = 100;
  request_start = 0;
  complete = false;
  response_headers = none;
  response_flags = [];
  bytes_sent = 0;
  bytes_received = 0;
  connect_statistic = [];
  latency_statistic = [];
  response_header_sizes = [];
  response_body_sizes = [];
  origin_latency_statistic = [];
  exported = [];
  client_completions = [];
  client_pool_failures = [];
  client_data = [];
  caller_calls = [];
  deleted = false;
}

abbrev ok_headers : ResponseHeaders
ok_headers = record { byte_size = 30; status = 200; timing_values = some (nonnegative 7) ∷ [] }

abbrev exchange : List Event
exchange =
    ready 110
    ∷ headers 150 ok_headers false
    ∷ body 160 20 false
    ∷ body 170 5 true
    ∷ resets 180 remote_reset
    ∷ []

exchange_lem : deliver exchange queued ≡ record queued {
  request_start = 110;
  complete = true;
  response_headers = some ok_headers;
  bytes_sent = 25;
  bytes_received = 10;
  connect_statistic = 10 ∷ [];
  latency_statistic = 60 ∷ [];
  response_header_sizes = 30 ∷ [];
  response_body_sizes = 25 ∷ [];
  origin_latency_statistic = 7 ∷ [];
  exported = (200, 60) ∷ [];
  client_completions = true ∷ [];
  client_data = 5 ∷ 20 ∷ [];
  caller_calls = (true, true) ∷ [];
  deleted = true;
}
unfolding deliver
exchange_lem = refl

queued-IsLive : IsLive queued
queued-IsLive = ground arith

deliver-Reported_example : Reported (first_ending exchange) (deliver exchange queued)
deliver-Reported_example = deliver-Reported exchange queued queued-IsLive
