-- ===== src/Common/Uri.antt =====
-- URIs: source/common/uri_impl.{h,cc} and Utility::findPortSeparator(), source/common/utility.cc.
-- The resolution of names is left out.
pub mod Valid
mod Tests
use nighthawk.Base.{
  ℕ, zero, suc, ◌+◌, ◌/◌, ◌%◌, Bool, true, false, not, ◌&&◌, ◌||◌, if◌then◌else◌, ltb, leb, ◌==◌,
  List, [], ◌∷◌, ◌++◌, map, Option, none, some,
}
use nighthawk.Base.Chars.{Chars, codes, is_empty, eq_chars, split_at_char}
use nighthawk.Base.Result.{Result, ok, err, exception, throw_if, ◌>>=◌, ◌>>◌}

pub record Uri : Type 0 where
  pub host_and_port : Chars
  pub host_without_port : Chars
  pub path : Chars
  pub port : ℕ
  pub scheme : Chars

-- What UriImpl calls of Envoy and Abseil: Http::Utility::extractHostPathFromUri(), a host and a
-- path, and SimpleAtoi() into a uint64_t.
pub record UriLibrary : Type 0 where
  pub extract_host_path_from_uri : Chars → Chars × Chars
  pub simple_atoi : Chars → Option ℕ

unfoldable pub starts_with_slashes : Chars → Bool
starts_with_slashes (c ∷ d ∷ cs) = c == 47 && d == 47
starts_with_slashes cs = false

-- The text before the first "://".
unfoldable pub scheme_part : Chars → Option Chars
unfolding starts_with_slashes
scheme_part [] = none
scheme_part (c ∷ cs) =
    let rest = scheme_part cs in
    if c == 58 && starts_with_slashes cs
    then some []
    else elim rest [ some before ↦ some (c ∷ before) | none ↦ none ]

-- absl::AsciiStrToLower
unfoldable pub ascii_lower : ℕ → ℕ
ascii_lower c = if leb 65 c && leb c 90 then c + 32 else c

-- The texts before and after the last `c`.
unfoldable pub split_at_last : ℕ → Chars → Option (Chars × Chars)
split_at_last c [] = none
split_at_last c (d ∷ ds) = elim (split_at_last c ds) [
  | some (before, after) ↦ some (d ∷ before, after)
  | none ↦ if c == d then some ([], ds) else none
]

-- The colon of a port in the rest of a bracketed address, after its `]`.
unfoldable pub after_bracket : Option (Chars × Chars) → Option (Chars × Chars)
after_bracket none = none
after_bracket (some (address, rest)) = elim (split_at_char 58 rest) [
  | some (before, after) ↦ some (address ++ (93 ∷ before), after)
  | none ↦ none
]

-- Utility::findPortSeparator(): what stands before and after the colon that it finds.
unfoldable pub find_port_separator : Chars → Option (Chars × Chars)
unfolding split_at_last after_bracket
find_port_separator [] = none
find_port_separator (c ∷ cs) =
    if c == 91 then after_bracket (split_at_char 93 (c ∷ cs)) else split_at_last 58 (c ∷ cs)

-- The decimal digits of a number below 10 ^ 20, before those of `digits`.
unfoldable pub decimal_digits : ℕ → ℕ → Chars → Chars
decimal_digits zero n digits = digits
decimal_digits (suc fuel) n digits =
    let more = decimal_digits fuel (n / 10) ((48 + n % 10) ∷ digits) in
    if n / 10 == 0 then (48 + n % 10) ∷ digits else more

unfoldable pub decimal : ℕ → Chars
unfolding decimal_digits
decimal n = decimal_digits 20 n []

unfoldable pub default_port : Chars → ℕ
default_port scheme =
    if eq_chars scheme (codes "https")
    then 443
    else if eq_chars scheme (codes "grpc")
    then 8443
    else 80

-- UriImpl::isValid()
unfoldable pub is_known_scheme : Chars → Bool
is_known_scheme scheme =
    (eq_chars scheme (codes "http") || eq_chars scheme (codes "https"))
    || (eq_chars scheme (codes "zipkin") || eq_chars scheme (codes "grpc"))

unfoldable pub is_host : Chars → Bool
is_host [] = false
is_host (c ∷ cs) = not (c == 45)

unfoldable pub is_valid_uri : Uri → Bool
unfolding is_known_scheme is_host
is_valid_uri u =
    is_known_scheme u.scheme && ((ltb 0 u.port && leb u.port 65535) && is_host u.host_without_port)

-- The scheme of the URI, or the default scheme.
unfoldable pub scheme_of : Chars → Chars → Chars
unfolding scheme_part ascii_lower
scheme_of uri default_scheme = elim (scheme_part uri) [
  | some scheme ↦ map ascii_lower scheme
  | none ↦ default_scheme
]

module _ (library : UriLibrary) where
  unfoldable pub with_port : Chars → Chars → Chars → Option (Chars × Chars) → Result Uri
  unfolding default_port decimal
  with_port host path scheme none = ok (record {
    host_and_port = host ++ (58 ∷ decimal (default_port scheme));
    host_without_port = host;
    path = path;
    port = default_port scheme;
    scheme = scheme;
  })
  with_port host path scheme (some (name, digits)) = elim (library.simple_atoi digits) [
    | none ↦ err (exception "Invalid URI, couldn't parse port")
    | some port ↦ ok (record {
      host_and_port = host;
      host_without_port = name;
      path = path;
      port = port;
      scheme = scheme;
    })
  ]

  -- UriImpl::UriImpl(): the URI and the default scheme.
  unfoldable pub uri_impl : Chars → Chars → Result Uri
  unfolding scheme_of find_port_separator with_port is_valid_uri
  uri_impl uri default_scheme =
      let (host, path) = library.extract_host_path_from_uri uri in
      do
        throw_if (is_empty host) "Invalid URI (no host)"
        u ← with_port host path (scheme_of uri default_scheme) (find_port_separator host)
        throw_if (not (is_valid_uri u)) "Invalid URI"
        ok u
