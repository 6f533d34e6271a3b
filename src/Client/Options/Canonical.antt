-- ===== src/Client/Options/Canonical.antt =====
-- The options that come back from the message of given options: source/client/options_impl.cc.
use nighthawk.Base.{
  ℕ, ◌*◌, ◌/◌, ◌<◌, ◌≡◌, Bool, true, false, not, ◌&&◌, if◌then◌else◌, ltb, ◌==◌, [], ◌∷◌, ◌++◌, map,
  Option, none, some,
}
use nighthawk.Base.Chars.{Chars, is_empty, strip_ascii_whitespace}
use nighthawk.Client.Options.{Options, Endpoint, http1, default_failure_predicates}
use nighthawk.Client.Options.Message.{Messages, wrapped_or}
use nighthawk.Client.Options.Headers.{split_header}
use nighthawk.Client.Options.Predicates.{IsFresh}

-- What the code relies on of the messages that it copies.
pub record MessageLaws {M : Type 0} (messages : Messages M) : Type 0 where
  pub merge_from-empty : (m : M) → messages.merge_from messages.empty m ≡ m
  pub byte_size-zero : (m : M) → ltb 0 (messages.byte_size m) ≡ false → m ≡ messages.empty

-- A header as it is printed: key and value without the white space around them.
abbrev pub canonical_header : Chars → Chars
canonical_header header = elim (split_header header) [
  | some (key, value) ↦ strip_ascii_whitespace key ++ (58 ∷ strip_ascii_whitespace value)
  | none ↦ header
]

abbrev pub canonical_endpoint : Endpoint → Endpoint
canonical_endpoint endpoint = record {
  address = some (wrapped_or endpoint.address "");
  port = some (wrapped_or endpoint.port 0);
}

abbrev pub is_some : {A : Type 0} → Option A → Bool
is_some (some a) = true
is_some none = false

-- The time of the scheduled start, in whole microseconds.
abbrev pub to_microseconds : Option ℕ → Option ℕ
to_microseconds none = none
to_microseconds (some t) = some ((t / 1000) * 1000)

-- Neither a request source nor its plugin is configured.
abbrev pub is_static_request : {M : Type 0} → Chars → Option M → Bool
is_static_request source plugin = is_empty source && not (is_some plugin)

module _ {M : Type 0} where
  abbrev pub is_static : Options M → Bool
  is_static o = is_static_request o.request_source o.request_source_plugin_config

  abbrev pub has_flush_duration : Options M → Bool
  has_flush_duration o =
      not
        (o.stats_flush_interval_duration.seconds == 0 && o.stats_flush_interval_duration.nanos == 0)

  -- The duration under `no_duration`, the protocol under `h2`, the multi-target beside a URI, the
  -- request options beside a request source, and the interval beside the duration of the flushes
  -- are the initial ones again. So are the options of the tunnel, and the size of the body when
  -- there is no header.
  abbrev pub canonical : Options M → Options M
  canonical o = record o {
    duration = if o.no_duration then 5 else o.duration;
    protocol = if o.h2 then http1 else o.protocol;
    multi_target_path = if is_some o.uri then [] else o.multi_target_path;
    multi_target_use_https = if is_some o.uri then false else o.multi_target_use_https;
    multi_target_endpoints =
        if is_some o.uri then [] else map canonical_endpoint o.multi_target_endpoints;
    request_headers = if is_static o then map canonical_header o.request_headers else [];
    request_method = if is_static o && not (o.request_method == 0) then o.request_method else 1;
    request_body_size =
        if is_static o && not (is_empty o.request_headers) then o.request_body_size else 0;
    request_source_plugin_config =
        if is_empty o.request_source then o.request_source_plugin_config else none;
    failure_predicates =
        if is_empty o.failure_predicates && not o.no_default_failure_predicates
        then default_failure_predicates
        else o.failure_predicates;
    stats_flush_interval = if has_flush_duration o then 5 else o.stats_flush_interval;
    scheduled_start = to_microseconds o.scheduled_start;
    h2_use_multiple_connections = false;
    tunnel_protocol = http1;
    tunnel_uri = [];
    tunnel_tls_context = none;
  }

  -- The members are within their types, the keys of the maps are distinct, and a plugin for the rate
  -- limiter is neither combined with bursts nor with jitter.
  pub record IsRepresentable (o : Options M) : Type 0 where
    pub duration_fits : o.duration < 4294967296
    pub timeout_fits : o.timeout < 4294967296
    pub distinct_failures : IsFresh o.failure_predicates []
    pub distinct_terminations : IsFresh o.termination_predicates []
    pub limiter_alone :
        is_some o.rate_limiter_plugin_config ≡ true → (o.burst_size ≡ 0) × (o.jitter_uniform ≡ 0)
