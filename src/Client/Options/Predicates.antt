-- ===== src/Client/Options/Predicates.antt =====
-- The maps from counter names to thresholds, as lists of entries: source/client/options_impl.cc.
use nighthawk.Base.{
  ℕ, false, [], ◌∷◌, ◌++◌, if◌then◌else◌, ◌≡◌, refl, sym, ◌∙◌, ap, append_assoc, append-nil,
}
use nighthawk.Base.Chars.{Chars, eq_chars}
use nighthawk.Client.Options.{PredicateMap}

-- map[key] = value
unfoldable pub assign : Chars → ℕ → PredicateMap → PredicateMap
assign key value [] = (key, value) ∷ []
assign key value ((k, v) ∷ entries) =
    let rest = assign key value entries in
    if eq_chars key k then (key, value) ∷ entries else (k, v) ∷ rest

unfoldable pub assign_all : PredicateMap → PredicateMap → PredicateMap
assign_all [] entries = entries
assign_all ((key, value) ∷ more) entries = assign_all more (assign key value entries)

-- map.insert({key, value}): a key that is there keeps its value.
unfoldable pub insert : Chars → ℕ → PredicateMap → PredicateMap
insert key value [] = (key, value) ∷ []
insert key value ((k, v) ∷ entries) =
    let rest = insert key value entries in
    if eq_chars key k then (k, v) ∷ entries else (k, v) ∷ rest

unfoldable pub insert_all : PredicateMap → PredicateMap → PredicateMap
insert_all [] entries = entries
insert_all ((key, value) ∷ more) entries = insert_all more (insert key value entries)

abbrev pub IsMissing : Chars → PredicateMap → Type 0
IsMissing key [] = Unit
IsMissing key ((k, v) ∷ entries) = (eq_chars key k ≡ false) × IsMissing key entries

-- Each key of the first map is new to the entries that stand before it and to the second map.
abbrev pub IsFresh : PredicateMap → PredicateMap → Type 0
IsFresh [] entries = Unit
IsFresh ((key, value) ∷ more) entries =
    IsMissing key entries × IsFresh more (entries ++ ((key, value) ∷ []))

assign-missing :
    (key : Chars) (value : ℕ) (entries : PredicateMap)
    → IsMissing key entries
    → assign key value entries ≡ entries ++ ((key, value) ∷ [])
unfolding assign
assign-missing key value [] h = refl
assign-missing key value ((k, v) ∷ entries) (differs, missing) =
    rw differs (ap (λ es. (k, v) ∷ es) (assign-missing key value entries missing))

insert-missing :
    (key : Chars) (value : ℕ) (entries : PredicateMap)
    → IsMissing key entries
    → insert key value entries ≡ entries ++ ((key, value) ∷ [])
unfolding insert
insert-missing key value [] h = refl
insert-missing key value ((k, v) ∷ entries) (differs, missing) =
    rw differs (ap (λ es. (k, v) ∷ es) (insert-missing key value entries missing))

pub assign_all-fresh :
    (more entries : PredicateMap) → IsFresh more entries → assign_all more entries ≡ entries ++ more
unfolding assign_all
assign_all-fresh [] entries h = sym (append-nil entries)
assign_all-fresh ((key, value) ∷ more) entries (missing, fresh) =
    ap (assign_all more) (assign-missing key value entries missing)
    ∙ assign_all-fresh more (entries ++ ((key, value) ∷ [])) fresh
    ∙ append_assoc entries ((key, value) ∷ []) more

pub insert_all-fresh :
    (more entries : PredicateMap) → IsFresh more entries → insert_all more entries ≡ entries ++ more
unfolding insert_all
insert_all-fresh [] entries h = sym (append-nil entries)
insert_all-fresh ((key, value) ∷ more) entries (missing, fresh) =
    ap (insert_all more) (insert-missing key value entries missing)
    ∙ insert_all-fresh more (entries ++ ((key, value) ∷ [])) fresh
    ∙ append_assoc entries ((key, value) ∷ []) more
