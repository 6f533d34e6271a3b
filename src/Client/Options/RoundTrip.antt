-- ===== src/Client/Options/RoundTrip.antt =====
-- Options to a message and back: source/client/options_impl.cc.
use nighthawk.Base.{ℕ, ◌≡◌, refl, ap, ◌∙◌, subst, true, Option, none, some, String}
use nighthawk.Base.Result.{Result, ok, ok-injective, bind-ok, ◌>>◌}
use nighthawk.Common.Uri.{UriLibrary}
use nighthawk.Client.Options.{Options, default_failure_predicates, defaults}
use nighthawk.Client.Options.Message.{CommandLineOptions, RequestChoice, Messages}
use nighthawk.Client.Options.ToMessage.{
  to_command_line_options, message_of, request_choice, jitter_field,
}
use nighthawk.Client.Options.Validate.{validate}
use nighthawk.Client.Options.FromMessage.{
  read_message, read_fields, read_timeout, read_tunnel, check_limiter, is_set_burst, is_set_jitter,
  from_command_line_options,
}
use nighthawk.Client.Options.Canonical.{MessageLaws, canonical, IsRepresentable, is_some}
use nighthawk.Client.Options.Fields.{
  seconds_of-fits, failure_predicates_lem, termination_predicates_lem, jitter_lem,
  scheduled_start_lem, duration_lem, no_duration_lem, h2_lem, protocol_lem,
  stats_flush_interval_lem, stats_flush_duration_lem, target_lem, tls_context_lem, copy_message_lem,
  request_lem,
}

module _ {M : Type 0} (messages : Messages M) (laws : MessageLaws messages) (o : Options M)
    (representable : IsRepresentable o) where
  read_message-message_of :
      (r : RequestChoice M)
      → request_choice o o.request_source o.request_source_plugin_config ≡ ok r
      → read_message messages (message_of messages o r) ≡ canonical o
  unfolding read_message message_of defaults read_fields read_timeout
  read_message-message_of r chosen =
      let (uri, path, use_https, endpoints) = target_lem o o.uri in
      let (headers, method, size, source, plugin) =
        request_lem o messages laws o.request_source o.request_source_plugin_config r chosen in
      λ i. record (canonical o) {
        uri = uri i;
        multi_target_path = path i;
        multi_target_use_https = use_https i;
        multi_target_endpoints = endpoints i;
        request_headers = headers i;
        request_method = method i;
        request_body_size = size i;
        request_source = source i;
        request_source_plugin_config = plugin i;
        duration = duration_lem o representable.duration_fits i;
        no_duration = no_duration_lem o i;
        timeout = seconds_of-fits o.timeout 0 representable.timeout_fits i;
        h2 = h2_lem o i;
        protocol = protocol_lem o i;
        http3_protocol_options = copy_message_lem o messages laws o.http3_protocol_options i;
        rate_limiter_plugin_config =
            copy_message_lem o messages laws o.rate_limiter_plugin_config i;
        upstream_bind_config = copy_message_lem o messages laws o.upstream_bind_config i;
        transport_socket = copy_message_lem o messages laws o.transport_socket i;
        tls_context = tls_context_lem o messages laws i;
        failure_predicates =
            failure_predicates_lem default_failure_predicates o.failure_predicates
              o.no_default_failure_predicates representable.distinct_failures i;
        termination_predicates =
            termination_predicates_lem o.termination_predicates representable.distinct_terminations
              i;
        jitter_uniform = jitter_lem o.jitter_uniform i;
        stats_flush_interval = stats_flush_interval_lem o i;
        stats_flush_interval_duration = stats_flush_duration_lem o i;
        scheduled_start = scheduled_start_lem o.scheduled_start i;
      }

  check_limiter-message_of :
      (r : RequestChoice M) (plugin : Option M)
      → (is_some plugin ≡ true → (o.burst_size ≡ 0) × (o.jitter_uniform ≡ 0))
      → check_limiter (message_of messages o r) plugin ≡ ok tt
  unfolding check_limiter message_of is_set_burst is_set_jitter jitter_field
  check_limiter-message_of r none alone = refl
  check_limiter-message_of r (some config) alone =
      let (no_burst, no_jitter) = alone refl in rw no_burst (rw no_jitter refl)

  -- Representable options that have a message come back from it in canonical form, if this form is
  -- valid, and else with the exception of its validation.
  pub from_command_line_options-to_command_line_options :
      (library : UriLibrary) (violation : CommandLineOptions M → Option String)
      (available_port : Result ℕ) (m : CommandLineOptions M)
      → to_command_line_options messages o ≡ ok m
      → from_command_line_options library messages violation available_port m
        ≡ (validate library messages violation (canonical o) >> ok (canonical o))
  unfolding to_command_line_options from_command_line_options read_tunnel
  from_command_line_options-to_command_line_options library violation available_port m sent =
      let (r, chosen, made) =
        bind-ok (request_choice o o.request_source o.request_source_plugin_config)
          (λ request. ok (message_of messages o request)) m sent in
      subst
        (λ x.
          from_command_line_options library messages violation available_port x
          ≡ (validate library messages violation (canonical o) >> ok (canonical o)))
        (ok-injective _ m made) (received r chosen)
    where
      received :
          (r : RequestChoice M)
          → request_choice o o.request_source o.request_source_plugin_config ≡ ok r
          → from_command_line_options library messages violation available_port
              (message_of messages o r)
            ≡ (validate library messages violation (canonical o) >> ok (canonical o))
      received r chosen =
          ap
            (λ checked.
              checked
              >> (validate library messages violation
                    (read_message messages (message_of messages o r))
                  >> ok (read_message messages (message_of messages o r))))
            (check_limiter-message_of r o.rate_limiter_plugin_config representable.limiter_alone)
          ∙ ap (λ x. validate library messages violation x >> ok x)
              (read_message-message_of r chosen)
