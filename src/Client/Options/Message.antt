-- ===== src/Client/Options/Message.antt =====
-- The message CommandLineOptions, api/client/options.proto: an unset wrapper or message is `none`.
use nighthawk.Base.{ℕ, Bool, List, Option, none, some, String}
use nighthawk.Base.Chars.{Chars}
use nighthawk.Base.Result.{Result}
use nighthawk.Common.Sequencer.{IdleStrategy}
use nighthawk.Client.Options.{
  ProtocolOption, Verbosity, OutputFormat, AddressFamily, ReuseStrategy, Endpoint, Duration,
  PredicateMap,
}

-- envoy.config.core.v3.HeaderValueOption, as far as the code sets it
pub record HeaderValueOption : Type 0 where
  pub key : Chars
  pub value : Chars
  pub append : Bool

pub record RequestOptions : Type 0 where
  pub request_method : ℕ
  pub request_headers : List HeaderValueOption
  pub request_body_size : Option ℕ

pub record MultiTarget : Type 0 where
  pub use_https : Option Bool
  pub endpoints : List Endpoint
  pub path : Option Chars

pub record TunnelOptions (M : Type 0) : Type 0 where
  pub tunnel_uri : Chars
  pub tunnel_protocol : Option ProtocolOption
  pub tunnel_tls_context : M

-- The members of the `oneof` groups.
pub data DurationOption : Type 0 where
  duration : Duration → DurationOption
  no_duration : Bool → DurationOption

pub data ProtocolChoice : Type 0 where
  h2 : Bool → ProtocolChoice
  protocol : ProtocolOption → ProtocolChoice

pub data RequestChoice (M : Type 0) : Type 0 where
  request_options : RequestOptions → RequestChoice M
  request_source : Chars → RequestChoice M
  request_source_plugin_config : M → RequestChoice M

pub data UriChoice : Type 0 where
  uri : Chars → UriChoice
  multi_target : MultiTarget → UriChoice

pub data FlushInterval : Type 0 where
  stats_flush_interval : ℕ → FlushInterval
  stats_flush_interval_duration : Duration → FlushInterval

pub record CommandLineOptions (M : Type 0) : Type 0 where
  pub requests_per_second : Option ℕ
  pub connections : Option ℕ
  pub oneof_duration_options : Option DurationOption
  pub timeout : Option Duration
  pub oneof_protocol : Option ProtocolChoice
  pub tunnel_options : Option (TunnelOptions M)
  pub http3_protocol_options : Option M
  pub concurrency : Option Chars
  pub verbosity : Option Verbosity
  pub output_format : Option OutputFormat
  pub prefetch_connections : Option Bool
  pub burst_size : Option ℕ
  pub address_family : Option AddressFamily
  pub oneof_request_options : Option (RequestChoice M)
  pub tls_context : Option M
  pub max_pending_requests : Option ℕ
  pub max_active_requests : Option ℕ
  pub max_requests_per_connection : Option ℕ
  pub sequencer_idle_strategy : Option IdleStrategy
  pub oneof_uri : Option UriChoice
  pub trace : Option String
  pub experimental_h1_connection_reuse_strategy : Option ReuseStrategy
  pub termination_predicates : PredicateMap
  pub failure_predicates : PredicateMap
  pub no_default_failure_predicates : Option Bool
  pub open_loop : Option Bool
  pub jitter_uniform : Option Duration
  pub nighthawk_service : Option String
  pub experimental_h2_use_multiple_connections : Option Bool
  pub max_concurrent_streams : Option ℕ
  pub labels : List String
  pub upstream_bind_config : Option M
  pub transport_socket : Option M
  pub simple_warmup : Option Bool
  pub stats_sinks : List M
  pub oneof_stats_flush_interval : Option FlushInterval
  pub latency_response_header_name : Option String
  pub scheduled_start : Option Duration
  pub execution_id : Option String
  pub user_defined_plugin_configs : List M
  pub rate_limiter_plugin_config : Option M

-- PROTOBUF_GET_WRAPPED_OR_DEFAULT
abbrev pub wrapped_or {ℓ} : {A : Type ℓ} → Option A → A → A
wrapped_or none default_value = default_value
wrapped_or (some value) default_value = value

-- What the code uses of the messages it copies: the empty message, MergeFrom() and ByteSizeLong().
-- `merge_into_unset` is MergeFrom() through an std::optional that holds no value, which C++ leaves
-- undefined: it stands for any outcome.
pub record Messages (M : Type 0) : Type 0 where
  pub empty : M
  pub merge_from : M → M → M
  pub byte_size : M → ℕ
  pub merge_into_unset : M → Result (Option M)
