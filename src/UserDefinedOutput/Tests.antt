-- ===== src/UserDefinedOutput/Tests.antt =====
-- Concrete configurations.
use nighthawk.Base.{ℕ, ◌≡◌, ◌↔◌, refl, [], ◌∷◌, String}
use nighthawk.Base.Status.{ok, error, fail_with, not_found}
use nighthawk.UserDefinedOutput.{
  LogResponseHeadersConfig, lm_skip_200_level_responses, HeaderMap, handle_response_headers,
  create_user_defined_output_plugin, create_user_defined_output_plugins,
}
use nighthawk.UserDefinedOutput.Checks.{IsValid, create_user_defined_output_plugin_lem}

abbrev two_names : LogResponseHeadersConfig
two_names = record {
  log_headers_with_name = "a" ∷ "b" ∷ [];
  logging_mode = lm_skip_200_level_responses;
}

-- A response is its status.
abbrev statuses : HeaderMap ℕ String
statuses = record {
  response_status = λ status. status;
  entries = λ status. [];
  get = λ status name. name ∷ [];
}

logs_failure : handle_response_headers (λ name. name) statuses two_names 500 ≡ "a" ∷ "b" ∷ []
unfolding handle_response_headers
logs_failure = refl

skips_success : handle_response_headers (λ name. name) statuses two_names 204 ≡ []
unfolding handle_response_headers
skips_success = refl

first_failure :
    create_user_defined_output_plugins
      (record { name = "x"; create = λ n. ok n }
        ∷ record { name = "y"; create = λ n. fail_with not_found "y" }
        ∷ [])
      3
    ≡ error (record { code = not_found; message = "y" })
unfolding create_user_defined_output_plugins
first_failure = refl

create_user_defined_output_plugin_lem_example :
    (create_user_defined_output_plugin (λ name. name) (λ m. ok m) two_names ≡ ok two_names)
    ↔ ((ok two_names ≡ ok two_names) × IsValid (λ name. name) two_names)
create_user_defined_output_plugin_lem_example =
    create_user_defined_output_plugin_lem (λ name. name) (λ m. ok m) two_names two_names
