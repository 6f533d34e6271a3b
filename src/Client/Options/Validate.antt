-- ===== src/Client/Options/Validate.antt =====
-- OptionsImpl::validate(), source/client/options_impl.cc.
use nighthawk.Base.{
  ℕ, ◌+◌, ◌*◌, ◌-◌, Bool, true, false, not, ◌&&◌, ◌||◌, if◌then◌else◌, ltb, leb, ◌==◌, [], ◌∷◌,
  Option, none, some, String,
}
use nighthawk.Base.Chars.{Chars, codes, is_empty, eq_chars, strip_leading}
use nighthawk.Base.Result.{Result, ok, err, exception, throw_if, ◌>>=◌, ◌>>◌}
use nighthawk.Common.Uri.{UriLibrary, uri_impl}
use nighthawk.Client.Options.{Options}
use nighthawk.Client.Options.Message.{CommandLineOptions, Messages}
use nighthawk.Client.Options.ToMessage.{to_command_line_options}

-- What std::stoi() makes of a text.
pub data Stoi : Type 0 where
  invalid_argument out_of_range : Stoi
  -- is it below zero, and its magnitude
  parsed : Bool → ℕ → Stoi

-- The value of the leading digits, after `value`; no digit at all is `none`.
unfoldable pub leading_digits : ℕ → Bool → Chars → Option ℕ
leading_digits value seen [] = if seen then some value else none
leading_digits value seen (c ∷ cs) =
    let rest = leading_digits (value * 10 + (c - 48)) true cs in
    if leb 48 c && leb c 57 then rest else if seen then some value else none

unfoldable pub in_int : Bool → Option ℕ → Stoi
in_int negative none = invalid_argument
in_int negative (some magnitude) =
    if leb magnitude (if negative then 2147483648 else 2147483647)
    then parsed negative magnitude
    else out_of_range

unfoldable pub signed : Chars → Stoi
unfolding leading_digits in_int
signed [] = invalid_argument
signed (c ∷ cs) =
    if c == 45
    then in_int true (leading_digits 0 false cs)
    else if c == 43
    then in_int false (leading_digits 0 false cs)
    else in_int false (leading_digits 0 false (c ∷ cs))

unfoldable pub stoi : Chars → Stoi
unfolding signed
stoi text = signed (strip_leading text)

unfoldable pub is_positive : Bool → ℕ → Bool
is_positive negative magnitude = not negative && ltb 0 magnitude

unfoldable pub check_number : Stoi → Result (Unit {0})
unfolding is_positive
check_number invalid_argument = err (exception "Invalid value for --concurrency")
check_number out_of_range = err (exception "Value out of range: --concurrency")
check_number (parsed negative magnitude) =
    throw_if (not (is_positive negative magnitude))
      "Value for --concurrency should be greater then 0."

unfoldable pub check_concurrency : Chars → Result (Unit {0})
unfolding stoi check_number
check_concurrency concurrency =
    if eq_chars concurrency (codes "auto") then ok tt else check_number (stoi concurrency)

-- A UriException is caught, and another exception is thrown.
unfoldable pub rethrow {ℓ} : {A : Type ℓ} → Result A → String → Result A
rethrow (ok value) message = ok value
rethrow (err (exception caught)) message = err (exception message)
rethrow (err failure) message = err failure

module _ (library : UriLibrary) where
  unfoldable pub check_request_source : Chars → Result (Unit {0})
  unfolding rethrow
  check_request_source [] = ok tt
  check_request_source (c ∷ cs) = do
    uri ← rethrow (uri_impl library (c ∷ cs) (codes "grpc")) "Invalid replay source URI"
    throw_if (not (eq_chars uri.scheme (codes "grpc"))) "Invalid replay source URI"

  module _ {M : Type 0} where
    unfoldable pub check_target : Options M → Option Chars → Result (Unit {0})
    unfolding rethrow
    check_target o (some text) = do
      uri ← rethrow (uri_impl library text (codes "http")) "Invalid target URI: ''"
      throw_if
          (not (is_empty o.multi_target_endpoints)
            || (not (is_empty o.multi_target_path) || o.multi_target_use_https))
          "URI and --multi-target-* options cannot both be specified."
    check_target o none = do
      throw_if (is_empty o.multi_target_endpoints)
          "A URI or --multi-target-* options must be specified."
      throw_if (is_empty o.multi_target_path) "--multi-target-path must be specified."

    -- `violation` is what Envoy::MessageUtil::validate() throws of a message, if anything.
    module _ (messages : Messages M) (violation : CommandLineOptions M → Option String) where
      unfoldable pub check_message : Options M → Result (Unit {0})
      check_message o = do
        m ← to_command_line_options messages o
        elim (violation m) [ none ↦ ok tt | some what ↦ err (exception what) ]

      unfoldable pub validate : Options M → Result (Unit {0})
      unfolding check_concurrency check_request_source check_target check_message
      validate o = do
        throw_if o.h2_use_multiple_connections
            "The experimental_h2_use_multiple_connections option is deprecated, set max_concurrent_streams to one instead."
        check_concurrency o.concurrency
        check_request_source o.request_source
        check_target o o.uri
        check_message o
