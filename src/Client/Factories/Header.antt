-- ===== src/Client/Factories/Header.antt =====
-- RequestSourceFactoryImpl, source/client/factories_impl.cc: the header of the requests, and the
-- choice of a request source.
pub mod Values
mod Tests
use nighthawk.Base.{
  ℕ, Bool, true, false, not, if◌then◌else◌, ltb, List, [], ◌∷◌, Option, none, some, String,
}
use nighthawk.Base.Chars.{Chars, codes, is_empty, eq_chars}
use nighthawk.Base.Text.{str_cat}
use nighthawk.Base.Result.{Result, ok, err, exception, release_assert, ◌>>=◌, ◌>>◌}
use nighthawk.Base.Status
use nighthawk.Base.Status.{StatusOr}
use nighthawk.Common.Uri.{UriLibrary, uri_impl}
use nighthawk.Client.Options.{Options}
use nighthawk.Client.Options.Message
use nighthawk.Client.Options.Message.{
  CommandLineOptions, HeaderValueOption, Messages, RequestChoice,
}
use nighthawk.Client.Options.ToMessage.{to_command_line_options}

-- What the factory calls of Envoy: a RequestHeaderMap, with setPath() and its like as `set` of the
-- header's name, LowerCaseString, the name of a method, and the text of a content length.
pub record HeaderLibrary (H : Type 0) : Type 0 where
  pub create : H
  pub set : Chars → Chars → H → H
  pub remove : Chars → H → H
  pub add_copy : Chars → Chars → H → H
  pub lower_case_string : Chars → Chars
  pub method_name : ℕ → Chars
  pub length_text : ℕ → Chars

unfoldable pub scheme_value : Bool → Chars
scheme_value true = codes "https"
scheme_value false = codes "http"

-- The path, the host and the scheme.
unfoldable pub target_of :
    {M : Type 0} → UriLibrary → Options M → Option Chars → Result (Chars × Chars × Chars)
unfolding scheme_value
target_of library o (some text) = uri_impl library text (codes "http") >>= λ u.
    ok (u.path, u.host_and_port, scheme_value (eq_chars u.scheme (codes "https")))
target_of library o none = ok (
  o.multi_target_path,
  codes "host-not-supported-in-multitarget-mode",
  scheme_value o.multi_target_use_https,
)

-- The request options of the message, empty ones if it has another choice.
unfoldable pub headers_of : {M : Type 0} → Option (RequestChoice M) → List HeaderValueOption
headers_of (some (Message.request_options r)) = r.request_headers
headers_of other = []

module _ {H : Type 0} (headers : HeaderLibrary H) where
  unfoldable pub set_request_header : Chars → Chars → H → H
  set_request_header key value h =
      headers.add_copy (headers.lower_case_string key) value
        (headers.remove (headers.lower_case_string key) h)

  unfoldable pub set_request_headers : List HeaderValueOption → H → H
  unfolding set_request_header
  set_request_headers [] h = h
  set_request_headers (o ∷ options) h =
      set_request_headers options (set_request_header o.key o.value h)

  unfoldable pub set_length : ℕ → H → H
  set_length length h =
      if ltb 0 length
      then headers.set (codes "content-length") (headers.length_text length) h
      else h

  module _ {M : Type 0} (library : UriLibrary) (messages : Messages M) where
    unfoldable pub base_header : Options M → Chars × Chars × Chars → H
    unfolding set_length
    base_header o (path, host, scheme) = set_length o.request_body_size (
        headers.set (codes ":method") (headers.method_name o.request_method) (
          headers.set (codes ":scheme") scheme (
            headers.set (codes ":authority") host
              (headers.set (codes ":path") path headers.create))))

    unfoldable pub create_header : Options M → Result H
    unfolding target_of base_header headers_of set_request_headers
    create_header o = do
      target ← target_of library o o.uri
      m ← to_command_line_options messages o
      ok (set_request_headers (headers_of m.oneof_request_options) (base_header o target))

    -- The three kinds of source. `remote` is a remote source over a service cluster, with the length of
    -- its buffer, `static_source` the static one, and `load_plugin` LoadRequestSourcePlugin().
    module _ {S : Type 0} (remote : Chars → H → ℕ → S) (static_source : H → S)
        (load_plugin : M → H → StatusOr S) where
      unfoldable pub plugin_source : StatusOr S → Result S
      plugin_source (Status.ok source) = ok source
      plugin_source (Status.error e) = err (
          exception (
            str_cat (
              "Request Source plugin loading error should have been caught during input validation: "
              ∷ e.message ∷ [])))

      unfoldable pub choose_source : Options M → Chars → Chars → Option M → H → Result S
      unfolding plugin_source
      choose_source o cluster (c ∷ cs) plugin h = do
        release_assert (not (is_empty cluster))
        ok (remote cluster h o.requests_per_second)
      choose_source o cluster [] (some config) h = plugin_source (load_plugin config h)
      choose_source o cluster [] none h = ok (static_source h)

      -- RequestSourceFactoryImpl::create()
      unfoldable pub create_request_source : Options M → Chars → Result S
      unfolding create_header choose_source
      create_request_source o cluster = create_header o >>= λ h.
          choose_source o cluster o.request_source o.request_source_plugin_config h
