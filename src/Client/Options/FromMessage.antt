-- ===== src/Client/Options/FromMessage.antt =====
-- OptionsImpl::OptionsImpl(const CommandLineOptions&), source/client/options_impl.cc.
use nighthawk.Base.{
  ℕ, ◌+◌, ◌*◌, ◌/◌, ◌%◌, Bool, false, not, ◌||◌, if◌then◌else◌, ◌==◌, List, [], map, Option, none,
  some, String,
}
use nighthawk.Base.Chars.{Chars, is_empty}
use nighthawk.Base.Result.{Result, ok, throw_if, ◌>>=◌, ◌>>◌}
use nighthawk.Common.Uri.{UriLibrary}
use nighthawk.Client.Options.{Options, Endpoint, Duration, PredicateMap, ProtocolOption, defaults}
use nighthawk.Client.Options.Message
use nighthawk.Client.Options.Message.{
  RequestOptions, RequestChoice, MultiTarget, TunnelOptions, CommandLineOptions, Messages,
  wrapped_or, DurationOption, ProtocolChoice, UriChoice, FlushInterval,
}
use nighthawk.Client.Options.Headers.{print_header}
use nighthawk.Client.Options.Predicates.{assign_all}
use nighthawk.Client.Options.Validate.{validate}

-- TimeUtil::DurationToNanoseconds()
unfoldable pub duration_to_nanoseconds : Duration → ℕ
duration_to_nanoseconds d = d.seconds * 1000000000 + d.nanos

-- The seconds of a duration in a uint32_t member.
unfoldable pub seconds_of : Duration → ℕ
seconds_of d = d.seconds % 4294967296

-- The scheduled start is cast down to microseconds.
unfoldable pub start_of : Duration → ℕ
start_of d = ((d.nanos + d.seconds * 1000000000) / 1000) * 1000

unfoldable pub read_jitter : ℕ → Option Duration → ℕ
unfolding duration_to_nanoseconds
read_jitter initial none = initial
read_jitter initial (some d) = duration_to_nanoseconds d

unfoldable pub read_start : Option Duration → Option ℕ
unfolding start_of
read_start none = none
read_start (some d) = some (start_of d)

unfoldable pub read_timeout : ℕ → Option Duration → ℕ
unfolding seconds_of
read_timeout initial none = initial
read_timeout initial (some d) = seconds_of d

unfoldable pub read_duration : ℕ → Option DurationOption → ℕ
unfolding seconds_of
read_duration initial (some (Message.duration d)) = seconds_of d
read_duration initial other = initial

unfoldable pub read_no_duration : Bool → Option DurationOption → Bool
read_no_duration initial (some (Message.no_duration value)) = value
read_no_duration initial other = initial

unfoldable pub read_h2 : Bool → Option ProtocolChoice → Bool
read_h2 initial (some (Message.h2 value)) = value
read_h2 initial other = initial

unfoldable pub read_protocol : ProtocolOption → Option ProtocolChoice → ProtocolOption
read_protocol initial (some (Message.protocol value)) = value
read_protocol initial other = initial

unfoldable pub read_flush_interval : ℕ → Option FlushInterval → ℕ
read_flush_interval initial (some (Message.stats_flush_interval value)) = value
read_flush_interval initial other = initial

unfoldable pub read_flush_duration : Duration → Option FlushInterval → Duration
read_flush_duration initial (some (Message.stats_flush_interval_duration value)) = value
read_flush_duration initial other = initial

-- The configured predicates replace the default ones; without any of them, these stay unless they
-- are turned off.
unfoldable pub read_failure_predicates : PredicateMap → Bool → PredicateMap → PredicateMap
unfolding assign_all
read_failure_predicates initial no_default configured =
    assign_all configured (if no_default || not (is_empty configured) then [] else initial)

-- The URI, or the parts of the multi-target.
unfoldable pub read_uri : Option Chars → Option UriChoice → Option Chars
read_uri initial (some (Message.uri value)) = some value
read_uri initial other = initial

unfoldable pub read_path : Chars → Option UriChoice → Chars
read_path initial (some (Message.multi_target target)) = wrapped_or target.path initial
read_path initial other = initial

unfoldable pub read_use_https : Bool → Option UriChoice → Bool
read_use_https initial (some (Message.multi_target target)) = wrapped_or target.use_https initial
read_use_https initial other = initial

unfoldable pub read_endpoints : Option UriChoice → List Endpoint
read_endpoints (some (Message.multi_target target)) = target.endpoints
read_endpoints other = []

module _ {M : Type 0} where
  -- The request options, the request source, or its plugin.
  unfoldable pub read_headers : Option (RequestChoice M) → List Chars
  unfolding print_header
  read_headers (some (Message.request_options r)) = map print_header r.request_headers
  read_headers other = []

  unfoldable pub read_method : ℕ → Option (RequestChoice M) → ℕ
  read_method initial (some (Message.request_options r)) =
      if r.request_method == 0 then initial else r.request_method
  read_method initial other = initial

  unfoldable pub read_body_size : ℕ → Option (RequestChoice M) → ℕ
  read_body_size initial (some (Message.request_options r)) = wrapped_or r.request_body_size initial
  read_body_size initial other = initial

  unfoldable pub read_source : Chars → Option (RequestChoice M) → Chars
  read_source initial (some (Message.request_source uri)) = uri
  read_source initial other = initial

  unfoldable pub read_source_plugin : Messages M → Option (RequestChoice M) → Option M
  read_source_plugin messages (some (Message.request_source_plugin_config config)) =
      some (messages.merge_from messages.empty config)
  read_source_plugin messages other = none

  -- A message that is copied by emplace() and MergeFrom().
  unfoldable pub copy_message : Messages M → Option M → Option M
  copy_message messages none = none
  copy_message messages (some m) = some (messages.merge_from messages.empty m)

  -- The members after the message is read, `o` being their initial values.
  unfoldable pub read_fields : Messages M → CommandLineOptions M → Options M → Options M
  unfolding read_uri read_path read_use_https read_endpoints read_headers read_method read_body_size
      read_source read_source_plugin read_duration read_no_duration read_h2 read_protocol
      read_flush_interval read_flush_duration read_failure_predicates copy_message read_jitter
      read_start read_timeout
  read_fields messages m o = record o {
    uri = read_uri o.uri m.oneof_uri;
    multi_target_path = read_path o.multi_target_path m.oneof_uri;
    multi_target_use_https = read_use_https o.multi_target_use_https m.oneof_uri;
    multi_target_endpoints = read_endpoints m.oneof_uri;
    request_headers = read_headers m.oneof_request_options;
    request_method = read_method o.request_method m.oneof_request_options;
    request_body_size = read_body_size o.request_body_size m.oneof_request_options;
    request_source = read_source o.request_source m.oneof_request_options;
    request_source_plugin_config = read_source_plugin messages m.oneof_request_options;
    requests_per_second = wrapped_or m.requests_per_second o.requests_per_second;
    duration = read_duration o.duration m.oneof_duration_options;
    timeout = read_timeout o.timeout m.timeout;
    h2 = read_h2 o.h2 m.oneof_protocol;
    protocol = read_protocol o.protocol m.oneof_protocol;
    http3_protocol_options = copy_message messages m.http3_protocol_options;
    concurrency = wrapped_or m.concurrency o.concurrency;
    verbosity = wrapped_or m.verbosity o.verbosity;
    output_format = wrapped_or m.output_format o.output_format;
    prefetch_connections = wrapped_or m.prefetch_connections o.prefetch_connections;
    burst_size = wrapped_or m.burst_size o.burst_size;
    address_family = wrapped_or m.address_family o.address_family;
    rate_limiter_plugin_config = copy_message messages m.rate_limiter_plugin_config;
    max_pending_requests = wrapped_or m.max_pending_requests o.max_pending_requests;
    max_active_requests = wrapped_or m.max_active_requests o.max_active_requests;
    max_requests_per_connection =
        wrapped_or m.max_requests_per_connection o.max_requests_per_connection;
    max_concurrent_streams = wrapped_or m.max_concurrent_streams o.max_concurrent_streams;
    connections = wrapped_or m.connections o.connections;
    sequencer_idle_strategy = wrapped_or m.sequencer_idle_strategy o.sequencer_idle_strategy;
    trace = wrapped_or m.trace o.trace;
    h1_connection_reuse_strategy =
        wrapped_or m.experimental_h1_connection_reuse_strategy o.h1_connection_reuse_strategy;
    open_loop = wrapped_or m.open_loop o.open_loop;
    tls_context = messages.merge_from o.tls_context (wrapped_or m.tls_context messages.empty);
    upstream_bind_config = copy_message messages m.upstream_bind_config;
    transport_socket = copy_message messages m.transport_socket;
    no_default_failure_predicates =
        wrapped_or m.no_default_failure_predicates o.no_default_failure_predicates;
    failure_predicates =
        read_failure_predicates o.failure_predicates
          (wrapped_or m.no_default_failure_predicates o.no_default_failure_predicates)
          m.failure_predicates;
    termination_predicates = assign_all m.termination_predicates o.termination_predicates;
    jitter_uniform = read_jitter o.jitter_uniform m.jitter_uniform;
    stats_sinks = m.stats_sinks;
    stats_flush_interval = read_flush_interval o.stats_flush_interval m.oneof_stats_flush_interval;
    stats_flush_interval_duration =
        read_flush_duration o.stats_flush_interval_duration m.oneof_stats_flush_interval;
    nighthawk_service = wrapped_or m.nighthawk_service o.nighthawk_service;
    h2_use_multiple_connections =
        wrapped_or m.experimental_h2_use_multiple_connections o.h2_use_multiple_connections;
    simple_warmup = wrapped_or m.simple_warmup o.simple_warmup;
    no_duration = read_no_duration o.no_duration m.oneof_duration_options;
    labels = m.labels;
    latency_response_header_name =
        wrapped_or m.latency_response_header_name o.latency_response_header_name;
    scheduled_start = read_start m.scheduled_start;
    execution_id = m.execution_id;
    user_defined_output_plugin_configs = m.user_defined_plugin_configs;
  }

  unfoldable pub read_message : Messages M → CommandLineOptions M → Options M
  unfolding defaults read_fields
  read_message messages m = read_fields messages m (defaults messages.empty)

  -- The members of the tunnel, whose port has to be found. MergeFrom() goes to the optional TLS context,
  -- which holds no value.
  unfoldable pub read_tunnel :
      Messages M → Result ℕ → Option (TunnelOptions M) → Options M → Result (Options M)
  read_tunnel messages available_port none o = ok o
  read_tunnel messages available_port (some tunnel) o = available_port >>= λ port.
      messages.merge_into_unset tunnel.tunnel_tls_context >>= λ context. ok (record o {
        tunnel_protocol = wrapped_or tunnel.tunnel_protocol o.tunnel_protocol;
        tunnel_uri = tunnel.tunnel_uri;
        tunnel_tls_context = context;
      })

  unfoldable pub is_set_burst : CommandLineOptions M → Bool
  is_set_burst m = elim m.burst_size [ some size ↦ not (size == 0) | none ↦ false ]

  unfoldable pub is_set_jitter : CommandLineOptions M → Bool
  is_set_jitter m = elim m.jitter_uniform [
    | some d ↦ not (d.seconds == 0) || not (d.nanos == 0)
    | none ↦ false
  ]

  unfoldable pub check_limiter : CommandLineOptions M → Option M → Result (Unit {0})
  unfolding is_set_burst is_set_jitter
  check_limiter m none = ok tt
  check_limiter m (some config) = do
    throw_if (is_set_burst m) "burst_size and rate_limiter_plugin_config are mutually exclusive"
    throw_if (is_set_jitter m)
        "jitter_uniform and rate_limiter_plugin_config are mutually exclusive"

  -- `available_port` is what Utility::GetAvailablePort() returns or throws.
  unfoldable pub from_command_line_options :
      UriLibrary
      → Messages M
      → (CommandLineOptions M → Option String)
      → Result ℕ
      → CommandLineOptions M
      → Result (Options M)
  unfolding read_message read_tunnel check_limiter validate
  from_command_line_options library messages violation available_port m = do
    o ← read_tunnel messages available_port m.tunnel_options (read_message messages m)
    check_limiter m m.rate_limiter_plugin_config
    validate library messages violation o
    ok o
