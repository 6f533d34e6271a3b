-- ===== src/Client/Options/Headers.antt =====
-- Request headers given as `key:value` texts: source/client/options_impl.cc.
use nighthawk.Base.{ℕ, false, List, [], ◌∷◌, ◌++◌, Option, none, some}
use nighthawk.Base.Chars.{Chars, split_at_char, strip_ascii_whitespace}
use nighthawk.Base.Result.{Result, ok, err, exception, ◌>>=◌}
use nighthawk.Client.Options.Message.{HeaderValueOption}

abbrev colon : ℕ
colon = 58

-- The text before and after the first colon that is not its first character.
unfoldable pub split_header : Chars → Option (Chars × Chars)
split_header [] = none
split_header (c ∷ cs) = elim (split_at_char colon cs) [
  | some (before, after) ↦ some (c ∷ before, after)
  | none ↦ none
]

unfoldable pub header_of : Option (Chars × Chars) → Result HeaderValueOption
header_of none = err (exception "A ':' is required in a header.")
header_of (some (key, value)) = ok (record {
  key = strip_ascii_whitespace key;
  value = strip_ascii_whitespace value;
  append = false;
})

unfoldable pub parse_header : Chars → Result HeaderValueOption
unfolding split_header header_of
parse_header header = header_of (split_header header)

unfoldable pub parse_headers : List Chars → Result (List HeaderValueOption)
unfolding parse_header
parse_headers [] = ok []
parse_headers (header ∷ headers) = do
  h ← parse_header header
  hs ← parse_headers headers
  ok (h ∷ hs)

-- fmt::format("{}:{}", key, value)
unfoldable pub print_header : HeaderValueOption → Chars
print_header h = h.key ++ (colon ∷ h.value)
