-- ===== src/Client/Options/Tests.antt =====
-- A concrete set of options, its message, and its way back.
use nighthawk.Base.{ℕ, ◌+◌, ◌-◌, ◌≡◌, refl, true, false, [], ◌∷◌, Option, none, some, String, arith}
use nighthawk.Base.Chars.{Chars, codes}
use nighthawk.Base.Result.{ok, ◌>>◌}
use nighthawk.Common.Uri.{UriLibrary, uri_impl}
use nighthawk.Client.Options.Predicates.{insert, assign}
use nighthawk.Client.Options.{Options, defaults}
use nighthawk.Client.Options.Message.{CommandLineOptions, Messages, HeaderValueOption}
use nighthawk.Client.Options.ToMessage.{to_command_line_options, message_of, static_request}
use nighthawk.Client.Options.Validate.{validate}
use nighthawk.Client.Options.FromMessage.{from_command_line_options}
use nighthawk.Client.Options.Canonical.{MessageLaws, canonical, IsRepresentable}
use nighthawk.Client.Options.RoundTrip.{from_command_line_options-to_command_line_options}

-- Numbers for messages, merged by addition.
abbrev numbers : Messages ℕ
numbers = record {
  empty = 0;
  merge_from = λ a b. a + b;
  byte_size = λ m. m;
  merge_into_unset = λ m. ok none;
}

numbers_laws : MessageLaws numbers
numbers_laws = record {
  merge_from-empty = λ m. omega arith;
  byte_size-zero = λ m h. ground (arith, h);
}

abbrev drop_seven : Chars → Chars
drop_seven (a ∷ b ∷ c ∷ d ∷ e ∷ f ∷ g ∷ rest) = rest
drop_seven rest = []

abbrev library : UriLibrary
library = record {
  extract_host_path_from_uri = λ uri. (drop_seven uri, codes "/");
  simple_atoi = λ digits. elim digits [ d ∷ [] ↦ some (d - 48) | _ ↦ none ];
}

abbrev no_violation : CommandLineOptions ℕ → Option String
no_violation m = none

abbrev sent_options : Options ℕ
sent_options = record (defaults 0) {
  uri = some (codes "http://ab");
  h2 = true;
  request_headers = codes ":path : x " ∷ [];
  request_body_size = 3;
  tls_context = 4;
  jitter_uniform = 2000000001;
  scheduled_start = some 1500;
}

abbrev sent_header : HeaderValueOption
sent_header = record { key = codes ":path"; value = codes "x"; append = false }

abbrev sent_message : CommandLineOptions ℕ
sent_message = message_of numbers sent_options (static_request sent_options (sent_header ∷ []))

sent : to_command_line_options numbers sent_options ≡ ok sent_message
unfolding to_command_line_options defaults
sent = refl

representable : IsRepresentable sent_options
unfolding defaults
representable = record {
  duration_fits = omega arith;
  timeout_fits = omega arith;
  distinct_failures = (
    tt,
    (
      (refl, tt),
      ((refl, (refl, tt)), ((refl, (refl, (refl, tt))), ((refl, (refl, (refl, (refl, tt)))), tt))),
    ),
  );
  distinct_terminations = tt;
  limiter_alone = λ h. ground (arith, h);
}

from_command_line_options-to_command_line_options_example :
    from_command_line_options library numbers no_violation (ok 1) sent_message ≡ (
      validate library numbers no_violation (canonical sent_options) >> ok (canonical sent_options))
from_command_line_options-to_command_line_options_example =
    from_command_line_options-to_command_line_options numbers numbers_laws sent_options
      representable library no_violation (ok 1) sent_message sent

received :
    from_command_line_options library numbers no_violation (ok 1) sent_message
    ≡ ok (canonical sent_options)
unfolding from_command_line_options message_of static_request uri_impl to_command_line_options
    insert assign
received = refl

-- A message with a tunnel, for which the merge is taken to have no effect.
reads_tunnel :
    from_command_line_options library numbers no_violation (ok 1) (record sent_message {
      tunnel_options =
          some (record { tunnel_uri = codes "p"; tunnel_protocol = none; tunnel_tls_context = 3 });
    })
    ≡ ok (record (canonical sent_options) { tunnel_uri = codes "p" })
unfolding from_command_line_options message_of static_request uri_impl to_command_line_options
    insert assign
reads_tunnel = refl
