-- ===== src/Base/Text.antt =====
-- absl::StrCat and absl::StrJoin.
use Prim.Native.String.{String, ◌++◌}
use mathlib.Core.List.{List, [], ◌∷◌}

abbrev pub str_cat : List String → String
str_cat [] = ""
str_cat (s ∷ ss) = s ++ str_cat ss

abbrev pub str_join : List String → String → String
str_join [] separator = ""
str_join (s ∷ []) separator = s
str_join (s ∷ t ∷ ss) separator = s ++ (separator ++ str_join (t ∷ ss) separator)
