-- ===== src/Base/Chars.antt =====
-- Texts as lists of character codes, for code that looks at their characters.
use Prim.Native.Nat.{ℕ}
use Prim.Native.String.{String}
use Prim.Native.Char.{code}
use mathlib.Core.List.{List, [], ◌∷◌}
use mathlib.Core.Bool.{Bool, true, false, ◌&&◌, ◌||◌}
use mathlib.Core.Option.{Option, none, some}
use mathlib.Core.Path.{◌≡◌, refl, ap₂}
use native.Mathlib.Omega.{arith}
use nighthawk.Base.Tests.{leb, ◌==◌, if◌then◌else◌}

abbrev pub Chars : Type 0
Chars = List ℕ

-- The codes of a literal.
abbrev pub codes : String → Chars
codes String.[] = []
codes (String.◌∷◌ c s) = code c ∷ codes s

abbrev pub is_empty {ℓ} : {A : Type ℓ} → List A → Bool
is_empty [] = true
is_empty (x ∷ xs) = false

abbrev pub eq_chars : Chars → Chars → Bool
eq_chars [] [] = true
eq_chars (c ∷ cs) (d ∷ ds) = (c == d) && eq_chars cs ds
eq_chars cs ds = false

-- What stands before and after the first `c`, if there is one.
abbrev pub split_at_char : ℕ → Chars → Option (Chars × Chars)
split_at_char c [] = none
split_at_char c (d ∷ ds) =
    let rest = split_at_char c ds in
    if c == d
    then some ([], ds)
    else elim rest [ some (before, after) ↦ some (d ∷ before, after) | none ↦ none ]

-- absl::ascii_isspace
abbrev pub is_space : ℕ → Bool
is_space c = (c == 32) || (leb 9 c && leb c 13)

abbrev pub strip_leading : Chars → Chars
strip_leading [] = []
strip_leading (c ∷ cs) = let rest = strip_leading cs in if is_space c then rest else c ∷ cs

abbrev pub add_unless_blank : ℕ → Chars → Chars
add_unless_blank c [] = if is_space c then [] else c ∷ []
add_unless_blank c (d ∷ ds) = c ∷ d ∷ ds

abbrev pub strip_trailing : Chars → Chars
strip_trailing [] = []
strip_trailing (c ∷ cs) = add_unless_blank c (strip_trailing cs)

-- absl::StripAsciiWhitespace
abbrev pub strip_ascii_whitespace : Chars → Chars
strip_ascii_whitespace cs = strip_trailing (strip_leading cs)

pub eq_chars_refl : (cs : Chars) → eq_chars cs cs ≡ true
eq_chars_refl [] = refl
eq_chars_refl (c ∷ cs) = rw (eq_chars_refl cs) (ground arith)

pub and-true : (a b : Bool) → (a && b) ≡ true → (a ≡ true) × (b ≡ true)
and-true true b h = (refl, h)
and-true false b h = ground (arith, h)

-- Texts that are found equal are equal.
pub eq_chars→≡ : (cs ds : Chars) → eq_chars cs ds ≡ true → cs ≡ ds
eq_chars→≡ [] [] h = refl
eq_chars→≡ [] (d ∷ ds) h = ground (arith, h)
eq_chars→≡ (c ∷ cs) [] h = ground (arith, h)
eq_chars→≡ (c ∷ cs) (d ∷ ds) h =
    let (first, rest) = and-true (c == d) (eq_chars cs ds) h in
    ap₂ (λ x xs. x ∷ xs) (ground (arith, first)) (eq_chars→≡ cs ds rest)
