-- ===== src/Client/Factories/Header/Tests.antt =====
-- A concrete header.
use nighthawk.Base.{ℕ, ◌-◌, ◌≡◌, refl, if◌then◌else◌, List, [], ◌∷◌, map, Option, none, some}
use nighthawk.Base.Chars.{Chars, codes, eq_chars}
use nighthawk.Base.Result.{ok, err}
use nighthawk.Common.Uri.{UriLibrary, uri_impl, ascii_lower}
use nighthawk.Client.Options.{Options, defaults}
use nighthawk.Client.Options.Message.{CommandLineOptions, Messages}
use nighthawk.Client.Options.ToMessage.{to_command_line_options}
use nighthawk.Client.Factories.Header.{HeaderLibrary, target_of, headers_of, create_header}
use nighthawk.Client.Factories.Header.Values.{
  HeaderLaws, stored_name, last_value, base_value, create_header_lem,
}

abbrev Entries : Type 0
Entries = List (Chars × Chars)

-- A list of entries, the latest one first.
abbrev look_up : Chars → Entries → Option Chars
look_up n [] = none
look_up n ((k, v) ∷ entries) =
    let rest = look_up n entries in
    if eq_chars (stored_name n) (stored_name k) then some v else rest

abbrev entries : HeaderLibrary Entries
entries = record {
  create = [];
  set = λ k v h. (k, v) ∷ h;
  remove = λ k h. h;
  add_copy = λ k v h. (k, v) ∷ h;
  lower_case_string = map ascii_lower;
  method_name = λ method. codes "GET";
  length_text = λ length. length ∷ [];
}

abbrev entries_laws : HeaderLaws entries
entries_laws = record {
  get = look_up;
  get-create = λ n. refl;
  get-set = λ n k v h. refl;
  get-add_copy = λ n k v h. refl;
}

abbrev numbers : Messages ℕ
numbers = record {
  empty = 0;
  merge_from = λ a b. b;
  byte_size = λ m. m;
  merge_into_unset = λ m. ok none;
}

abbrev drop_scheme : Chars → Chars
drop_scheme (a ∷ b ∷ c ∷ d ∷ e ∷ f ∷ g ∷ rest) = rest
drop_scheme rest = []

abbrev uris : UriLibrary
uris = record {
  extract_host_path_from_uri = λ uri. (drop_scheme uri, codes "/");
  simple_atoi = λ digits. elim digits [ d ∷ [] ↦ some (d - 48) | _ ↦ none ];
}

abbrev two_paths : Options ℕ
two_paths = record (defaults 0) {
  uri = some (codes "http://ab");
  request_headers = codes ":Path: /x" ∷ codes "a:b" ∷ [];
}

abbrev made : Entries
made =
    (codes "a", codes "b")
    ∷ (codes ":path", codes "/x")
    ∷ (codes ":method", codes "GET")
    ∷ (codes ":scheme", codes "http")
    ∷ (codes ":authority", codes "ab:80")
    ∷ (codes ":path", codes "/")
    ∷ []

made_created : create_header entries uris numbers two_paths ≡ ok made
unfolding create_header uri_impl to_command_line_options defaults ascii_lower
made_created = refl

create_header_lem_example :
    (target : Chars × Chars × Chars) × (m : CommandLineOptions ℕ) × (target_of uris two_paths
        two_paths.uri
      ≡ ok target)
    × (to_command_line_options numbers two_paths ≡ ok m)
    × (look_up (codes ":path") made
        ≡ last_value entries entries_laws
            (codes ":path")
            (headers_of m.oneof_request_options)
            (base_value entries entries_laws uris numbers two_paths target (codes ":path")))
create_header_lem_example =
    create_header_lem entries entries_laws uris numbers two_paths made (codes ":path") made_created

-- A custom host takes the place of the one of a multi-target.
custom_host :
    (elim (create_header entries uris numbers (record (defaults 0) {
      multi_target_path = codes "/";
      request_headers = codes "Host: c" ∷ [];
    })) [ ok values ↦ look_up (codes ":authority") values | err e ↦ none ])
    ≡ some (codes "c")
unfolding create_header uri_impl to_command_line_options defaults ascii_lower
custom_host = refl
