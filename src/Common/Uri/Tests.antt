-- ===== src/Common/Uri/Tests.antt =====
-- Concrete URIs.
use nighthawk.Base.{◌-◌, ◌≡◌, refl, [], ◌∷◌, none, some}
use nighthawk.Base.Chars.{Chars, codes}
use nighthawk.Common.Uri.{Uri, UriLibrary, find_port_separator}

-- Only URIs of a seven-character scheme part, without a path, and ports of one digit.
abbrev drop_seven : Chars → Chars
drop_seven (a ∷ b ∷ c ∷ d ∷ e ∷ f ∷ g ∷ rest) = rest
drop_seven rest = []

abbrev library : UriLibrary
library = record {
  extract_host_path_from_uri = λ uri. (drop_seven uri, codes "/");
  simple_atoi = λ digits. elim digits [ d ∷ [] ↦ some (d - 48) | _ ↦ none ];
}

abbrev parsed : Uri
parsed = record {
  host_and_port = codes "a.b:80";
  host_without_port = codes "a.b";
  path = codes "/";
  port = 80;
  scheme = codes "grpc";
}

abbrev with_default : Uri
with_default = record parsed { host_and_port = codes "a.b:8443"; port = 8443 }

bracketed : find_port_separator (codes "[::1]:9") ≡ some (codes "[::1]", codes "9")
unfolding find_port_separator
bracketed = refl
