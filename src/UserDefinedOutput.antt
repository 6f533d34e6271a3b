-- ===== src/UserDefinedOutput.antt =====
-- The plugin that logs headers, source/user_defined_output/log_response_headers_plugin.cc, and the
-- creation of the plugins of a worker, user_defined_output_plugin_creator.cc.
pub mod Checks
mod Tests
use text.Mathlib.Text.{◌==◌ as str_eq}
use nighthawk.Base.{
  ℕ, Bool, true, false, not, ◌&&◌, ◌||◌, if◌then◌else◌, ltb, leb, List, [], ◌∷◌, ◌++◌, String,
}
use nighthawk.Base.Text.{str_cat}
use nighthawk.Base.Status.{StatusOr, ok, error, ◌>>=◌, invalid_argument, fail_with}

-- api/user_defined_output/log_response_headers.proto
pub data LoggingMode : Type 0 where
  lm_unknown lm_log_all_responses lm_skip_200_level_responses : LoggingMode

pub record LogResponseHeadersConfig : Type 0 where
  pub log_headers_with_name : List String
  pub logging_mode : LoggingMode

-- What the plugin calls of Envoy: the headers of a response of type H with entries of type E, their
-- status, and the text of a LowerCaseString.
pub record HeaderMap (H E : Type 0) : Type 0 where
  pub response_status : H → ℕ
  pub entries : H → List E
  pub get : H → String → List E

abbrev pub is_unknown : LoggingMode → Bool
is_unknown lm_unknown = true
is_unknown mode = false

abbrev pub skips_200_level : LoggingMode → Bool
skips_200_level lm_skip_200_level_responses = true
skips_200_level mode = false

abbrev pub has_name : List String → String → Bool
has_name [] name = false
has_name (n ∷ names) name = str_eq n name || has_name names name

module _ (lower_case_string : String → String) where
  -- The loop over the names, with those before in `header_names`.
  unfoldable pub validate_names : List String → List String → StatusOr (Unit {0})
  validate_names header_names [] = ok tt
  validate_names header_names (name ∷ names) =
      let rest = validate_names (lower_case_string name ∷ header_names) names in
      if str_eq name ""
      then fail_with invalid_argument
          "Invalid configuration for LogResponseHeadersPlugin. Received empty header"
      else if has_name header_names (lower_case_string name)
      then fail_with invalid_argument (
          str_cat
            ("Invalid configuration for LogResponseHeadersPlugin. Duplicate header " ∷ name ∷ []))
      else rest

  -- validateConfig()
  unfoldable pub validate_config : LogResponseHeadersConfig → StatusOr (Unit {0})
  unfolding validate_names
  validate_config config =
      if is_unknown config.logging_mode
      then fail_with invalid_argument (
          str_cat (
            "Invalid configuration for LogResponseHeadersPlugin. "
            ∷ "Must provide a valid LoggingMode" ∷ []))
      else validate_names [] config.log_headers_with_name

  -- createUserDefinedOutputPlugin(), with Envoy's unpackTo(). The plugin is its configuration.
  unfoldable pub create_user_defined_output_plugin :
      {M : Type 0} → (M → StatusOr LogResponseHeadersConfig) → M → StatusOr LogResponseHeadersConfig
  unfolding validate_config
  create_user_defined_output_plugin unpack_to config_any =
      unpack_to config_any >>= λ config. validate_config config >>= λ valid. ok config

  module _ {H E : Type 0} (headers : HeaderMap H E) where
    unfoldable pub should_log_response : LogResponseHeadersConfig → H → Bool
    should_log_response config response_headers = not (
        skips_200_level config.logging_mode
        && (leb 200 (headers.response_status response_headers)
            && ltb (headers.response_status response_headers) 300))

    -- logSpecifiedHeaders(): what is logged, in its order.
    unfoldable pub log_specified_headers : List String → H → List E
    log_specified_headers [] response_headers = []
    log_specified_headers (name ∷ names) response_headers =
        headers.get response_headers (lower_case_string name)
        ++ log_specified_headers names response_headers

    -- handleResponseHeaders(): what is logged.
    unfoldable pub handle_response_headers : LogResponseHeadersConfig → H → List E
    unfolding should_log_response log_specified_headers
    handle_response_headers config response_headers =
        if should_log_response config response_headers
        then elim config.log_headers_with_name [
          | [] ↦ headers.entries response_headers
          | name ∷ names ↦ log_specified_headers (name ∷ names) response_headers
        ]
        else []

-- A factory with its configuration: name() and createUserDefinedOutputPlugin() of a worker.
pub record ConfiguredFactory (P : Type 0) : Type 0 where
  pub name : String
  pub create : ℕ → StatusOr P

-- createUserDefinedOutputPlugins()
unfoldable pub create_user_defined_output_plugins :
    {P : Type 0} → List (ConfiguredFactory P) → ℕ → StatusOr (List (String × P))
create_user_defined_output_plugins [] worker_number = ok []
create_user_defined_output_plugins (factory ∷ factories) worker_number =
    let rest = create_user_defined_output_plugins factories worker_number in
    factory.create worker_number >>= λ plugin.
    rest >>= λ plugins. ok ((factory.name, plugin) ∷ plugins)
