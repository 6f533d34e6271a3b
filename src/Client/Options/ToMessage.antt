-- ===== src/Client/Options/ToMessage.antt =====
-- OptionsImpl::toCommandLineOptionsInternal(), source/client/options_impl.cc.
use nighthawk.Base.{
  ℕ, ◌/◌, ◌%◌, Bool, ◌||◌, if◌then◌else◌, ltb, List, [], ◌∷◌, map, Option, none, some,
}
use nighthawk.Base.Chars.{Chars, is_empty}
use nighthawk.Base.Result.{Result, ok, ◌>>=◌}
use nighthawk.Client.Options.{Options, Endpoint, Duration}
use nighthawk.Client.Options.Message
use nighthawk.Client.Options.Message.{
  HeaderValueOption, RequestChoice, CommandLineOptions, Messages, wrapped_or, DurationOption,
  ProtocolChoice, UriChoice, FlushInterval,
}
use nighthawk.Client.Options.Headers.{parse_headers}
use nighthawk.Client.Options.Predicates.{insert_all}

-- TimeUtil::NanosecondsToDuration() and NanosecondsToTimestamp()
unfoldable pub nanoseconds_to_duration : ℕ → Duration
nanoseconds_to_duration n = record { seconds = n / 1000000000; nanos = n % 1000000000 }

unfoldable pub jitter_field : ℕ → Option Duration
unfolding nanoseconds_to_duration
jitter_field jitter = if ltb 0 jitter then some (nanoseconds_to_duration jitter) else none

unfoldable pub start_field : Option ℕ → Option Duration
unfolding nanoseconds_to_duration
start_field none = none
start_field (some t) = some (nanoseconds_to_duration t)

unfoldable pub is_positive_duration : Duration → Bool
is_positive_duration d = ltb 0 d.seconds || ltb 0 d.nanos

-- An endpoint of the multi-target, both of whose wrappers are set by the code.
unfoldable pub set_endpoint : Endpoint → Endpoint
set_endpoint endpoint = record {
  address = some (wrapped_or endpoint.address "");
  port = some (wrapped_or endpoint.port 0);
}

module _ {M : Type 0} where
  unfoldable pub duration_choice : Options M → DurationOption
  duration_choice o =
      if o.no_duration
      then Message.no_duration o.no_duration
      else Message.duration (record { seconds = o.duration; nanos = 0 })

  unfoldable pub protocol_choice : Options M → ProtocolChoice
  protocol_choice o = if o.h2 then Message.h2 o.h2 else Message.protocol o.protocol

  unfoldable pub uri_choice : Options M → Option Chars → UriChoice
  unfolding set_endpoint
  uri_choice o (some uri) = Message.uri uri
  uri_choice o none = Message.multi_target (record {
    use_https = some o.multi_target_use_https;
    endpoints = map set_endpoint o.multi_target_endpoints;
    path = some o.multi_target_path;
  })

  -- The body size is set in the loop over the headers.
  unfoldable pub static_request : Options M → List HeaderValueOption → RequestChoice M
  static_request o headers = Message.request_options (record {
    request_method = o.request_method;
    request_headers = headers;
    request_body_size = if is_empty o.request_headers then none else some o.request_body_size;
  })

  -- By the request source and its plugin.
  unfoldable pub request_choice : Options M → Chars → Option M → Result (RequestChoice M)
  unfolding parse_headers static_request
  request_choice o (c ∷ cs) plugin = ok (Message.request_source (c ∷ cs))
  request_choice o [] (some config) = ok (Message.request_source_plugin_config config)
  request_choice o [] none =
      parse_headers o.request_headers >>= λ headers. ok (static_request o headers)

  unfoldable pub flush_choice : Options M → FlushInterval
  unfolding is_positive_duration
  flush_choice o =
      if is_positive_duration o.stats_flush_interval_duration
      then Message.stats_flush_interval_duration o.stats_flush_interval_duration
      else Message.stats_flush_interval o.stats_flush_interval

  unfoldable pub message_of : Messages M → Options M → RequestChoice M → CommandLineOptions M
  unfolding duration_choice protocol_choice uri_choice flush_choice jitter_field start_field
      insert_all
  message_of messages o request = record {
    requests_per_second = some o.requests_per_second;
    connections = some o.connections;
    oneof_duration_options = some (duration_choice o);
    timeout = some (record { seconds = o.timeout; nanos = 0 });
    oneof_protocol = some (protocol_choice o);
    tunnel_options = none;
    http3_protocol_options = o.http3_protocol_options;
    concurrency = some o.concurrency;
    verbosity = some o.verbosity;
    output_format = some o.output_format;
    prefetch_connections = some o.prefetch_connections;
    burst_size = some o.burst_size;
    address_family = some o.address_family;
    oneof_request_options = some request;
    tls_context = if ltb 0 (messages.byte_size o.tls_context) then some o.tls_context else none;
    max_pending_requests = some o.max_pending_requests;
    max_active_requests = some o.max_active_requests;
    max_requests_per_connection = some o.max_requests_per_connection;
    sequencer_idle_strategy = some o.sequencer_idle_strategy;
    oneof_uri = some (uri_choice o o.uri);
    trace = some o.trace;
    experimental_h1_connection_reuse_strategy = some o.h1_connection_reuse_strategy;
    termination_predicates = insert_all o.termination_predicates [];
    failure_predicates = insert_all o.failure_predicates [];
    no_default_failure_predicates = some o.no_default_failure_predicates;
    open_loop = some o.open_loop;
    jitter_uniform = jitter_field o.jitter_uniform;
    nighthawk_service = some o.nighthawk_service;
    experimental_h2_use_multiple_connections = none;
    max_concurrent_streams = some o.max_concurrent_streams;
    labels = o.labels;
    upstream_bind_config = o.upstream_bind_config;
    transport_socket = o.transport_socket;
    simple_warmup = some o.simple_warmup;
    stats_sinks = o.stats_sinks;
    oneof_stats_flush_interval = some (flush_choice o);
    latency_response_header_name = some o.latency_response_header_name;
    scheduled_start = start_field o.scheduled_start;
    execution_id = o.execution_id;
    user_defined_plugin_configs = o.user_defined_output_plugin_configs;
    rate_limiter_plugin_config = o.rate_limiter_plugin_config;
  }

  -- OptionsImpl::toCommandLineOptions()
  unfoldable pub to_command_line_options : Messages M → Options M → Result (CommandLineOptions M)
  unfolding request_choice message_of
  to_command_line_options messages o =
      request_choice o o.request_source o.request_source_plugin_config >>= λ request.
      ok (message_of messages o request)
