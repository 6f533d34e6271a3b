-- ===== src/Client/Options.antt =====
-- The options of an execution: OptionsImpl, source/client/options_impl.{h,cc}, and its message
-- CommandLineOptions, api/client/options.proto. `M` is the type of the messages of Envoy, which the
-- code only copies, and a map is the list of its entries, each key once.
pub mod Message
pub mod Headers
pub mod Predicates
pub mod ToMessage
pub mod Validate
pub mod FromMessage
pub mod Canonical
pub mod Fields
pub mod RoundTrip
mod Tests
use nighthawk.Base.{ℕ, Bool, true, false, List, [], ◌∷◌, Option, none, some, String}
use nighthawk.Base.Chars.{Chars, codes}
use nighthawk.Common.Sequencer.{IdleStrategy, spin}

-- Protocol.ProtocolOptions
pub data ProtocolOption : Type 0 where
  http1 http2 http3 : ProtocolOption

-- Verbosity.VerbosityOptions; DEFAULT is `unset_verbosity`.
pub data Verbosity : Type 0 where
  unset_verbosity trace debug info warn error critical : Verbosity

-- OutputFormat.OutputFormatOptions; DEFAULT is `unset_format`.
pub data OutputFormat : Type 0 where
  unset_format json human yaml dotted fortio experimental_fortio_pedantic csv prometheus :
      OutputFormat

-- AddressFamily.AddressFamilyOptions
pub data AddressFamily : Type 0 where
  auto v4 v6 : AddressFamily

-- H1ConnectionReuseStrategy.H1ConnectionReuseStrategyOptions; DEFAULT is `unset_strategy`.
pub data ReuseStrategy : Type 0 where
  unset_strategy mru lru : ReuseStrategy

-- MultiTarget.Endpoint
pub record Endpoint : Type 0 where
  pub address : Option String
  pub port : Option ℕ

-- google.protobuf.Duration, not negative
pub record Duration : Type 0 where
  pub seconds : ℕ
  pub nanos : ℕ

-- TerminationPredicateMap
abbrev pub PredicateMap : Type 0
PredicateMap = List (Chars × ℕ)

-- The members of OptionsImpl, but for its encap port. Durations without a unit are in seconds,
-- `jitter_uniform` and `scheduled_start` in nanoseconds. A request
-- method is its number in envoy.config.core.v3.RequestMethod.
pub record Options (M : Type 0) : Type 0 where
  pub requests_per_second : ℕ
  pub connections : ℕ
  pub duration : ℕ
  pub timeout : ℕ
  pub uri : Option Chars
  pub h2 : Bool
  pub protocol : ProtocolOption
  pub http3_protocol_options : Option M
  pub concurrency : Chars
  pub tunnel_protocol : ProtocolOption
  pub tunnel_uri : Chars
  pub tunnel_tls_context : Option M
  pub verbosity : Verbosity
  pub output_format : OutputFormat
  pub prefetch_connections : Bool
  pub burst_size : ℕ
  pub address_family : AddressFamily
  pub request_method : ℕ
  pub request_headers : List Chars
  pub request_body_size : ℕ
  pub tls_context : M
  pub upstream_bind_config : Option M
  pub transport_socket : Option M
  pub request_source_plugin_config : Option M
  pub rate_limiter_plugin_config : Option M
  pub max_pending_requests : ℕ
  pub max_active_requests : ℕ
  pub max_requests_per_connection : ℕ
  pub max_concurrent_streams : ℕ
  pub sequencer_idle_strategy : IdleStrategy
  pub request_source : Chars
  pub trace : String
  pub h1_connection_reuse_strategy : ReuseStrategy
  pub termination_predicates : PredicateMap
  pub failure_predicates : PredicateMap
  pub no_default_failure_predicates : Bool
  pub open_loop : Bool
  pub jitter_uniform : ℕ
  pub nighthawk_service : String
  pub h2_use_multiple_connections : Bool
  pub multi_target_endpoints : List Endpoint
  pub multi_target_path : Chars
  pub multi_target_use_https : Bool
  pub labels : List String
  pub simple_warmup : Bool
  pub no_duration : Bool
  pub stats_sinks : List M
  pub stats_flush_interval : ℕ
  pub stats_flush_interval_duration : Duration
  pub latency_response_header_name : String
  pub scheduled_start : Option ℕ
  pub execution_id : Option String
  pub user_defined_output_plugin_configs : List M

-- UINT32_MAX - 30000
abbrev pub largest_acceptable_uint32_option_value : ℕ
largest_acceptable_uint32_option_value = 4294937295

abbrev pub largest_acceptable_concurrent_streams_value : ℕ
largest_acceptable_concurrent_streams_value = 2147483647

abbrev pub default_failure_predicates : PredicateMap
default_failure_predicates =
    (codes "benchmark.http_4xx", 0)
    ∷ (codes "benchmark.http_5xx", 0)
    ∷ (codes "benchmark.pool_connection_failure", 0)
    ∷ (codes "benchmark.stream_resets", 0)
    ∷ (codes "requestsource.upstream_rq_5xx", 0)
    ∷ []

-- The initial values of the members, and setNonTrivialDefaults(). `empty` is the empty message.
unfoldable pub defaults : {M : Type 0} → M → Options M
defaults empty = record {
  requests_per_second = 5;
  connections = 100;
  duration = 5;
  timeout = 30;
  uri = none;
  h2 = false;
  protocol = http1;
  http3_protocol_options = none;
  concurrency = codes "1";
  tunnel_protocol = http1;
  tunnel_uri = [];
  tunnel_tls_context = none;
  verbosity = warn;
  output_format = json;
  prefetch_connections = false;
  burst_size = 0;
  address_family = auto;
  request_method = 1;
  request_headers = [];
  request_body_size = 0;
  tls_context = empty;
  upstream_bind_config = none;
  transport_socket = none;
  request_source_plugin_config = none;
  rate_limiter_plugin_config = none;
  max_pending_requests = 0;
  max_active_requests = 100;
  max_requests_per_connection = largest_acceptable_uint32_option_value;
  max_concurrent_streams = largest_acceptable_concurrent_streams_value;
  sequencer_idle_strategy = spin;
  request_source = [];
  trace = "";
  h1_connection_reuse_strategy = mru;
  termination_predicates = [];
  failure_predicates = default_failure_predicates;
  no_default_failure_predicates = false;
  open_loop = false;
  jitter_uniform = 0;
  nighthawk_service = "";
  h2_use_multiple_connections = false;
  multi_target_endpoints = [];
  multi_target_path = [];
  multi_target_use_https = false;
  labels = [];
  simple_warmup = false;
  no_duration = false;
  stats_sinks = [];
  stats_flush_interval = 5;
  stats_flush_interval_duration = record { seconds = 0; nanos = 0 };
  latency_response_header_name = "";
  scheduled_start = none;
  execution_id = none;
  user_defined_output_plugin_configs = [];
}
